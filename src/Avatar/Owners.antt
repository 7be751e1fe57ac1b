-- ===== src/Avatar/Owners.antt =====
-- Who owns an entry of the avatar table, and so clears it later: at most one slot for each SteamID.
use native.Mathlib.Decide.{ℕ_discrete}
use cs2_bot_hider.Base.{
  ℕ, zero, suc, ◌<◌, ◌≤◌, ◌≡◌, ◌≢◌, refl, ap, sym, ◌∙◌, true, false, ◌||◌, not, ◌⊎◌, inl, inr,
  arith, ltb, ◌==◌, if_both, if_case, update, each_slot, Option-cases,
}
use cs2_bot_hider.Snapshot.{max_slots}
use cs2_bot_hider.Manager.{Manager, publish_avatar_state}
use cs2_bot_hider.Manager.Slots.{update_self, update_ne}
use cs2_bot_hider.Avatar.{
  StringTables, AvatarRuntimeState, Avatars, Turn, empty_state, disown, refresh_state, retry,
  start_turn, apply_avatar, apply_request, replace_avatar, process_slot, enter_table, process_table,
  process_overrides, same_table, requested_steam_id, clear_avatar_override,
  ensure_reliable_avatar_data, set_avatar_override, reset_runtime,
}

abbrev pub OwnersDistinct : (ℕ → AvatarRuntimeState) → Type 0
OwnersDistinct states =
    (i j : ℕ)
    → i < max_slots
    → j < max_slots
    → i ≢ j
    → (states i).applied_steam_id ≢ 0
    → (states i).applied_steam_id ≢ (states j).applied_steam_id

-- The one slot that is written takes a SteamID that no other slot owns, or 0.
update-OwnersDistinct :
    (states : ℕ → AvatarRuntimeState) (slot : ℕ) (s : AvatarRuntimeState)
    → ((j : ℕ)
        → j < max_slots
        → slot ≢ j
        → s.applied_steam_id ≢ 0
        → s.applied_steam_id ≢ (states j).applied_steam_id)
    → OwnersDistinct states
    → OwnersDistinct (update states slot s)
update-OwnersDistinct states slot s fresh h i j p q ne own = elim (ℕ_discrete slot i) [
  | yes here ↦
      let apart : slot ≢ j = λ e. ne (sym here ∙ e) in
      let mine =
        ap (λ (x : AvatarRuntimeState). x.applied_steam_id) (update_at states slot i s here) in
      let theirs =
        ap (λ (x : AvatarRuntimeState). x.applied_steam_id) (update_ne states slot j s apart) in
      λ same. fresh j q apart (λ e. own (mine ∙ e)) (sym mine ∙ (same ∙ theirs))
  | no other ↦
      let mine =
        ap (λ (x : AvatarRuntimeState). x.applied_steam_id) (update_ne states slot i s other) in
      elim (ℕ_discrete slot j) [
        | yes there ↦
            let theirs =
              ap (λ (x : AvatarRuntimeState). x.applied_steam_id)
                (update_at states slot j s there) in
            λ same.
              let eq = sym theirs ∙ (sym same ∙ mine) in
              fresh i p other (λ e. own (mine ∙ (sym eq ∙ e))) eq
        | no apart ↦
            let theirs =
              ap (λ (x : AvatarRuntimeState). x.applied_steam_id)
                (update_ne states slot j s apart) in
            λ same. h i j p q ne (λ e. own (mine ∙ e)) (sym mine ∙ (same ∙ theirs))
      ]
]
  where
    update_at :
        (states : ℕ → AvatarRuntimeState) (slot i : ℕ) (s : AvatarRuntimeState)
        → slot ≡ i
        → update states slot s i ≡ s
    update_at states slot i s e = rw (← e) (update_self states slot s)

disown-OwnersDistinct :
    (states : ℕ → AvatarRuntimeState) (id : ℕ)
    → OwnersDistinct states
    → OwnersDistinct (disown states id)
unfolding disown
disown-OwnersDistinct states id h i j p q ne own = let k = h i j p q ne in ground arith

-- After it, no slot owns the SteamID.
disown-free :
    (states : ℕ → AvatarRuntimeState) (id j : ℕ)
    → j < max_slots
    → id ≢ 0
    → id ≢ (disown states id j).applied_steam_id
unfolding disown
disown-free states id j p ne same = ground arith

-- To write a slot's state back with the SteamID that it had, or with 0, changes no owner.
kept-OwnersDistinct :
    (states : ℕ → AvatarRuntimeState) (slot : ℕ) (s : AvatarRuntimeState)
    → slot < max_slots
    → (s.applied_steam_id ≡ 0) ⊎ (s.applied_steam_id ≡ (states slot).applied_steam_id)
    → OwnersDistinct states
    → OwnersDistinct (update states slot s)
kept-OwnersDistinct states slot s inside from h =
    update-OwnersDistinct states slot s (λ j q ne own. apart from j q ne own) h
  where
    apart :
        (s.applied_steam_id ≡ 0) ⊎ (s.applied_steam_id ≡ (states slot).applied_steam_id)
        → (j : ℕ) → j < max_slots
        → slot ≢ j
        → s.applied_steam_id ≢ 0
        → s.applied_steam_id ≢ (states j).applied_steam_id
    apart (inl zero_id) j q ne own = absurd (own zero_id)
    apart (inr same) j q ne own = λ e. h slot j inside q ne (λ z. own (same ∙ z)) (sym same ∙ e)

refresh_state_owner :
    (s : AvatarRuntimeState) (sequence steam_id : ℕ)
    → (refresh_state s sequence steam_id).applied_steam_id ≡ s.applied_steam_id
unfolding refresh_state
refresh_state_owner s sequence steam_id = ground arith

module _ (tables : StringTables) (table now slot : ℕ) (inside : slot < max_slots) where
  abbrev Kept : Turn tables → AvatarRuntimeState → Type 0
  Kept t s = (s.applied_steam_id ≡ 0) ⊎ (s.applied_steam_id ≡ (t.states slot).applied_steam_id)

  abbrev Distinct : Turn tables → Type 0
  Distinct t = OwnersDistinct t.states

  apply_avatar-OwnersDistinct :
      (t : Turn tables) (s : AvatarRuntimeState)
      → s.steam_id ≢ 0
      → Kept t s
      → Distinct t
      → Distinct (apply_avatar tables table now slot t s)
  unfolding apply_avatar retry
  apply_avatar-OwnersDistinct t s ne from h =
      let written =
        set_avatar_override tables t.strings table s.steam_id (t.manager.slots slot).avatar.bytes in
      let states = disown (update t.states slot s) s.steam_id in
      let free : OwnersDistinct states =
        disown-OwnersDistinct (update t.states slot s) s.steam_id
          (kept-OwnersDistinct t.states slot s inside from h) in
      if_both Distinct (not written.1)
        (kept-OwnersDistinct t.states slot (retry now s) inside from h)
        (update-OwnersDistinct states slot _
          (λ j q apart own. disown-free (update t.states slot s) s.steam_id j q ne) free)

  apply_request-OwnersDistinct :
      (t : Turn tables) (s : AvatarRuntimeState)
      → Kept t s
      → Distinct t
      → Distinct (apply_request tables table now slot t s)
  unfolding apply_request retry
  apply_request-OwnersDistinct t s from h =
      if_case Distinct (s.steam_id == 0)
        (kept-OwnersDistinct t.states slot (record s { processed = true }) inside from h)
        (λ off.
          let ne : s.steam_id ≢ 0 = λ e. ground arith in
          let ensured = ensure_reliable_avatar_data tables t.strings in
          if_both Distinct (not ensured.1)
            (kept-OwnersDistinct t.states slot (retry now s) inside from h)
            (apply_avatar-OwnersDistinct (record t { strings = ensured.0 }) s ne from h))

  replace_avatar-OwnersDistinct :
      (t : Turn tables) (s : AvatarRuntimeState)
      → Kept t s
      → Distinct t
      → Distinct (replace_avatar tables table now slot t s)
  unfolding replace_avatar retry
  replace_avatar-OwnersDistinct t s from h =
      let cleared = clear_avatar_override tables t.strings table s.applied_steam_id in
      if_both Distinct (s.applied_steam_id == 0 || s.applied_steam_id == s.steam_id)
        (apply_request-OwnersDistinct t s from h)
        (if_both Distinct (not cleared.1)
          (kept-OwnersDistinct t.states slot (retry now s) inside from h)
          (apply_request-OwnersDistinct (record t { strings = cleared.0 })
            (record s { applied_steam_id = 0 }) (inl refl) h))

  pub process_slot-OwnersDistinct :
      (t : Turn tables) → Distinct t → Distinct (process_slot tables table now slot t)
  unfolding process_slot
  process_slot-OwnersDistinct t h =
      let sequence = (t.manager.slots slot).avatar.sequence in
      let s = refresh_state (t.states slot) sequence (requested_steam_id t.manager slot) in
      let from : s.applied_steam_id ≡ (t.states slot).applied_steam_id =
        refresh_state_owner (t.states slot) sequence (requested_steam_id t.manager slot) in
      if_both Distinct (s.processed || ltb now s.retry_at)
        (kept-OwnersDistinct t.states slot s inside (inr from) h)
        (replace_avatar-OwnersDistinct
          (record t { manager = publish_avatar_state t.manager slot false 0 }) s (inr from) h)

module _ (tables : StringTables) (table now : ℕ) where
  process_slots-OwnersDistinct :
      (n : ℕ) (t : Turn tables)
      → n ≤ max_slots
      → OwnersDistinct t.states
      → OwnersDistinct (each_slot (process_slot tables table now) n t).states
  process_slots-OwnersDistinct zero t fits h = h
  process_slots-OwnersDistinct (suc n) t fits h =
      process_slot-OwnersDistinct tables table now n (omega arith)
        (each_slot (process_slot tables table now) n t)
        (process_slots-OwnersDistinct n t (omega arith) h)

pub empty-OwnersDistinct : OwnersDistinct (λ _. empty_state)
empty-OwnersDistinct i j p q ne own = absurd (own refl)

enter_table-OwnersDistinct :
    (table : ℕ) (a : Avatars) (m : Manager)
    → OwnersDistinct a.states
    → OwnersDistinct (enter_table table a m).0.states
unfolding enter_table
enter_table-OwnersDistinct table a m h =
    if_both (λ (r : Avatars × Manager). OwnersDistinct r.0.states) (same_table a.last_table table) h
      empty-OwnersDistinct

process_table-OwnersDistinct :
    (tables : StringTables) (table now : ℕ) (st : tables.State) (a : Avatars) (m : Manager)
    → OwnersDistinct a.states
    → OwnersDistinct (process_table tables table now st a m).1.states
unfolding process_table
process_table-OwnersDistinct tables table now st a m h =
    process_slots-OwnersDistinct tables table now max_slots
      (start_turn tables st (enter_table table a m)) (omega arith)
      (enter_table-OwnersDistinct table a m h)

process_overrides-OwnersDistinct :
    (tables : StringTables) (now : ℕ) (st : tables.State) (a : Avatars) (m : Manager)
    → OwnersDistinct a.states
    → OwnersDistinct (process_overrides tables now st a m).1.states
      × OwnersDistinct (reset_runtime a m).0.states
unfolding process_overrides reset_runtime
process_overrides-OwnersDistinct tables now st a m h = elim (Option-cases (tables.find_table st)) [
  | inl e ↦ rw (e, process_overrides) (h, empty-OwnersDistinct)
  | inr (table, e) ↦
      rw (e, process_overrides)
        (
          if_both (λ (r : tables.State × Avatars × Manager). OwnersDistinct r.1.states)
              (not a.container) h (process_table-OwnersDistinct tables table now st a m h),
          empty-OwnersDistinct,
        )
]

-- Whatever the engine's string tables do, after a pass over the slots no two slots own the table's
-- entry for one SteamID, if none did before.
pub process_overrides-owners-differ :
    (tables : StringTables) (now : ℕ) (st : tables.State) (a : Avatars) (m : Manager) (i j : ℕ)
    → OwnersDistinct a.states
    → i < max_slots
    → j < max_slots
    → i ≢ j
    → ((process_overrides tables now st a m).1.states i).applied_steam_id ≢ 0
    → ((process_overrides tables now st a m).1.states i).applied_steam_id
      ≢ ((process_overrides tables now st a m).1.states j).applied_steam_id
process_overrides-owners-differ tables now st a m i j h p q ne owns =
    (process_overrides-OwnersDistinct tables now st a m h).0 i j p q ne owns
