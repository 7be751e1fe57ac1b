-- ===== src/Avatar/Runs.antt =====
-- The avatars over time: calls of the manager, changes of the string tables and passes of
-- `ProcessOverrides`, in any order, from `Init` on.
use cs2_bot_hider.Base.{
  ℕ, ◌<◌, ◌≡◌, ◌≢◌, refl, ◌∙◌, sym, Bool, List, [], ◌∷◌, some, Option-cases, Bool-cases, inl, inr,
  true,
}
use cs2_bot_hider.Snapshot.{SlotSnapshot, max_slots}
use cs2_bot_hider.Manager.{Manager, init, is_managed, get_synthetic_sid}
use cs2_bot_hider.Manager.Calls.{ManagerCall, run_call}
use cs2_bot_hider.Manager.Kept.{KeepsShown, run_call-KeepsShown}
use cs2_bot_hider.Avatar.{
  StringTables, AvatarRuntimeState, Avatars, set_string_table_container, reset_runtime,
  process_overrides,
}
use cs2_bot_hider.Avatar.Shown.{IsTruthful}
use cs2_bot_hider.Avatar.Pass.{
  AllTruthful, unpublish_all-AllTruthful, process_overrides-AllTruthful, process_overrides-current,
}

-- The string tables are the engine's: they may change to anything between two passes.
pub data AvatarEvent (S : Type 0) : Type 0 where
  call : ManagerCall → AvatarEvent S
  initialise : ℕ → ℕ → AvatarEvent S
  set_container : Bool → AvatarEvent S
  reset_avatars : AvatarEvent S
  change_tables : S → AvatarEvent S
  pass : ℕ → AvatarEvent S

-- A slot that shows no avatar says nothing of one.
hidden-IsTruthful :
    (s : AvatarRuntimeState) (x : SlotSnapshot) → x.avatar_applied ≡ 0 → IsTruthful s x
hidden-IsTruthful s x hidden = record {
  done = λ shown. absurd (shown hidden);
  same = λ shown. absurd (shown hidden);
  nonzero = λ shown. absurd (shown hidden);
}

kept-IsTruthful :
    (s : AvatarRuntimeState) (x y : SlotSnapshot) → KeepsShown x y → IsTruthful s x → IsTruthful s y
kept-IsTruthful s x y (inl hidden) t = hidden-IsTruthful s y hidden
kept-IsTruthful s x y (inr (applied, id)) t = record {
  done = λ shown. t.done (λ z. shown (applied ∙ z));
  same = λ shown. t.same (λ z. shown (applied ∙ z)) ∙ sym id;
  nonzero = λ shown z. t.nonzero (λ e. shown (applied ∙ e)) (sym id ∙ z);
}

call-AllTruthful :
    (c : ManagerCall) (states : ℕ → AvatarRuntimeState) (m : Manager)
    → AllTruthful states m
    → AllTruthful states (run_call c m)
call-AllTruthful c states m h j p =
    kept-IsTruthful (states j) (m.slots j).snapshot ((run_call c m).slots j).snapshot
      (run_call-KeepsShown c m j) (h j p)

init-AllTruthful :
    (states : ℕ → AvatarRuntimeState) (m : Manager) (thread now : ℕ)
    → AllTruthful states (init m thread now)
unfolding init
init-AllTruthful states m thread now j p =
    hidden-IsTruthful (states j) ((init m thread now).slots j).snapshot refl

module _ (tables : StringTables) where
  open tables use {State, find_table}

  abbrev pub run_avatar_event :
      AvatarEvent State → State × Avatars × Manager → State × Avatars × Manager
  run_avatar_event (AvatarEvent.call c) (st, a, m) = (st, a, run_call c m)
  run_avatar_event (AvatarEvent.initialise thread now) (st, a, m) = (st, a, init m thread now)
  run_avatar_event (AvatarEvent.set_container container) (st, a, m) =
      (st, set_string_table_container a container, m)
  run_avatar_event AvatarEvent.reset_avatars (st, a, m) =
      (st, (reset_runtime a m).0, (reset_runtime a m).1)
  run_avatar_event (AvatarEvent.change_tables st') (st, a, m) = (st', a, m)
  run_avatar_event (AvatarEvent.pass now) (st, a, m) = process_overrides tables now st a m

  abbrev pub run_avatar_events :
      List (AvatarEvent State) → State × Avatars × Manager → State × Avatars × Manager
  run_avatar_events [] r = r
  run_avatar_events (event ∷ events) r = run_avatar_events events (run_avatar_event event r)

  pass-AllTruthful :
      (now : ℕ) (st : State) (a : Avatars) (m : Manager)
      → AllTruthful a.states m
      → AllTruthful
          (process_overrides tables now st a m).1.states
          (process_overrides tables now st a m).2
  unfolding process_overrides
  pass-AllTruthful now st a m h = elim (Option-cases (find_table st)) [
    | inl e ↦ rw (process_overrides, e) h
    | inr (table, e) ↦ elim (Bool-cases a.container) [
      | inl c ↦ process_overrides-AllTruthful tables now st a m table h e c
      | inr c ↦ rw (process_overrides, e, c) h
    ]
  ]

  event-AllTruthful :
      (event : AvatarEvent State) (r : State × Avatars × Manager)
      → AllTruthful r.1.states r.2
      → AllTruthful (run_avatar_event event r).1.states (run_avatar_event event r).2
  unfolding set_string_table_container reset_runtime
  event-AllTruthful (AvatarEvent.call c) (st, a, m) h = call-AllTruthful c a.states m h
  event-AllTruthful (AvatarEvent.initialise thread now) (st, a, m) h =
      init-AllTruthful a.states m thread now
  event-AllTruthful (AvatarEvent.set_container container) (st, a, m) h = h
  event-AllTruthful AvatarEvent.reset_avatars (st, a, m) h =
      unpublish_all-AllTruthful (reset_runtime a m).0.states m
  event-AllTruthful (AvatarEvent.change_tables st') (st, a, m) h = h
  event-AllTruthful (AvatarEvent.pass now) (st, a, m) h = pass-AllTruthful now st a m h

  events-AllTruthful :
      (events : List (AvatarEvent State)) (r : State × Avatars × Manager)
      → AllTruthful r.1.states r.2
      → AllTruthful (run_avatar_events events r).1.states (run_avatar_events events r).2
  events-AllTruthful [] r h = h
  events-AllTruthful (event ∷ events) r h =
      events-AllTruthful events (run_avatar_event event r) (event-AllTruthful event r h)

  -- The manager after the events and one more pass.
  abbrev pub after_pass : List (AvatarEvent State) → ℕ → State × Avatars × Manager → Manager
  after_pass events now r = (run_avatar_event (AvatarEvent.pass now) (run_avatar_events events r)).2

-- From `Init` on, through every sequence of the manager's calls (adoptions, releases, changes of the
-- SteamID, requests for avatars and the others), of passes, resets and changes of the string tables:
-- after one more pass, over a table that exists and with the tables' container set, each of the 64
-- slots that shows an avatar is managed and shows it under its present SteamID. So a pass leaves no
-- avatar published under a SteamID that the slot has given up.
pub run_avatar_events-current :
    (tables : StringTables) (events : List (AvatarEvent tables.State)) (st : tables.State)
    (a : Avatars) (m : Manager) (thread start now table slot : ℕ)
    → tables.find_table (run_avatar_events tables events (st, a, init m thread start)).0
      ≡ some table
    → (run_avatar_events tables events (st, a, init m thread start)).1.container ≡ true
    → slot < max_slots
    → ((after_pass tables events now (st, a, init m thread start)).slots
        slot).snapshot.avatar_applied
      ≢ 0
    → let after = after_pass tables events now (st, a, init m thread start) in
      (is_managed after slot ≡ true)
      × ((after.slots slot).snapshot.avatar_steam_id ≡ get_synthetic_sid after slot)
run_avatar_events-current tables events st a m thread start now table slot found container inside =
    let r = run_avatar_events tables events (st, a, init m thread start) in
    process_overrides-current tables now r.0 r.1 r.2 table slot
      (events-AllTruthful tables events (st, a, init m thread start)
        (init-AllTruthful a.states m thread start))
      found container inside
