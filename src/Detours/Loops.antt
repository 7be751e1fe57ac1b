-- ===== src/Detours/Loops.antt =====
-- The turns of a scope's constructor and destructor: what each of them does to the engine's memory.
use cs2_bot_hider.Base.{
  ℕ, zero, suc, ◌<◌, ◌≤◌, ◌≡◌, refl, sym, ap, ◌∙◌, Bool, Option, none, some, arith, Bool-cases,
  Option-cases, inl, inr, each_slot, each_slot_kept, ◌==◌, ==_iff,
}
use cs2_bot_hider.Snapshot.{max_slots}
use cs2_bot_hider.Engine.{Engine, EngineCall, Client, Entity}
use cs2_bot_hider.World.{World}
use cs2_bot_hider.Detours.{capture_slot, restore_snapshot}
use cs2_bot_hider.Detours.State.{BotIdentitySnapshot, no_snapshot, Snapshots}
use cs2_bot_hider.Detours.Skeleton.{
  IsQuiet, skeleton, disguised, flagged, slot_client, controller_for, with_changes,
  with_changes-skeleton, without_calls,
}
use cs2_bot_hider.Detours.Captured.{
  saved_snapshot, capture_slot-engine, capture_slot-saved, capture_slot-unsaved,
  capture_slot-others,
}
use cs2_bot_hider.Detours.Restored.{
  undisguised, unflagged_at, restore_snapshot-engine, slot_client-kept, live_controller-same,
}
use cs2_bot_hider.Detours.Still.{still, capture_slot-still, restore_snapshot-still}

abbrev pub undisguised_at : Engine → Option ℕ → Client → Client
undisguised_at e none c = c
undisguised_at e (some ptr) c = undisguised (e.client ptr) c

undisguised_at-bare :
    (e : Engine) (o : Option ℕ) (c : Client)
    → record (undisguised_at e o c) { connection_flags = 0; fake_player = 0 }
      ≡ record c { connection_flags = 0; fake_player = 0 }
undisguised_at-bare e none c = refl
undisguised_at-bare e (some ptr) c = refl

unflagged_at-bare :
    (e : Engine) (o : Option ℕ) (x : Entity)
    → record (unflagged_at e o x) { flags = 0 } ≡ record x { flags = 0 }
unflagged_at-bare e none x = refl
unflagged_at-bare e (some q) x = refl

restore_snapshot-none :
    (react : EngineCall → Engine → Engine) (mark : Bool) (s : BotIdentitySnapshot) (w : World)
    → s.client ≡ none
    → restore_snapshot react mark s w ≡ w
unfolding restore_snapshot
restore_snapshot-none react mark s w h = rw h refl

module _ (react : EngineCall → Engine → Engine) (mark : Bool) (quiet : IsQuiet react)
    (w : World) where
  -- After `n` turns of the constructor, and of the destructor.
  abbrev pub opened : ℕ → World × Snapshots
  opened n = each_slot (capture_slot react mark) n (w, λ _. no_snapshot)

  abbrev saved : Snapshots
  saved = (opened max_slots).1

  abbrev pub closed : ℕ → World
  closed n = each_slot (λ slot. restore_snapshot react mark (saved slot)) n (opened max_slots).0

  abbrev pub controller_at : ℕ → Option ℕ
  controller_at n = controller_for w.engine (slot_client w n)

  opened-manager : (n : ℕ) → (opened n).0.manager ≡ w.manager
  opened-manager n =
      ap (λ (v : World). v.manager)
        (each_slot_kept (λ (r : World × Snapshots). still w.engine r.0) (capture_slot react mark) n
          _ (capture_slot-still react w.engine mark))

  closed-manager : (n : ℕ) → (closed n).manager ≡ w.manager
  closed-manager n =
      ap (λ (v : World). v.manager)
        (each_slot_kept (still w.engine) (λ slot. restore_snapshot react mark (saved slot)) n _
          (λ i v. restore_snapshot-still react w.engine mark (saved i) v))
      ∙ opened-manager max_slots

  opened-skeleton : (n : ℕ) → skeleton (opened n).0.engine ≡ skeleton w.engine
  opened-skeleton n =
      each_slot_kept (λ (r : World × Snapshots). skeleton r.0.engine) (capture_slot react mark) n _
        (λ slot r.
          ap skeleton (capture_slot-engine react mark quiet slot r.0 r.1)
          ∙ with_changes-skeleton r.0.engine (slot_client r.0 slot) disguised
              (controller_for r.0.engine (slot_client r.0 slot)) flagged (λ c. refl) (λ x. refl))

  opened-client : (n : ℕ) → slot_client (opened n).0 n ≡ slot_client w n
  opened-client n =
      slot_client-kept react mark quiet w (opened n).0 n (opened-manager n) (opened-skeleton n)

  controller_for-kept :
      (e : Engine) (o : Option ℕ)
      → skeleton e ≡ skeleton w.engine
      → controller_for e o ≡ controller_for w.engine o
  controller_for-kept e none same = refl
  controller_for-kept e (some ptr) same = live_controller-same e w.engine ptr same

  -- One turn of the constructor changes the slot's client and controller.
  pub opened-next :
      (n : ℕ)
      → without_calls (opened (suc n)).0.engine
        ≡ without_calls
            (with_changes (opened n).0.engine (slot_client w n) disguised (controller_at n) flagged)
  opened-next n =
      capture_slot-engine react mark quiet n (opened n).0 (opened n).1
      ∙ rw
          (
            opened-client n,
            controller_for-kept (opened n).0.engine (slot_client w n) (opened-skeleton n),
          )
          refl

  -- A snapshot is written in its own turn.
  saved_later : (n k : ℕ) → n < k → (opened k).1 n ≡ (opened (suc n)).1 n
  saved_later n zero lt = absurd (omega arith)
  saved_later n (suc k) lt = elim (Bool-cases (n == k)) [
    | inl e ↦ rw ((==_iff n k).0 e) refl
    | inr e ↦
        capture_slot-others react mark quiet k (opened k).0 (opened k).1 n (ground arith)
        ∙ saved_later n k (ground arith)
  ]

  unwritten : (n k : ℕ) → k ≤ n → (opened k).1 n ≡ no_snapshot
  unwritten n zero le = refl
  unwritten n (suc k) le =
      capture_slot-others react mark quiet k (opened k).0 (opened k).1 n (ground arith)
      ∙ unwritten n k (omega arith)

  saved-client :
      (n ptr : ℕ)
      → n < max_slots
      → slot_client w n ≡ some ptr
      → saved n ≡ saved_snapshot (opened n).0.engine n ptr
  saved-client n ptr lt h =
      saved_later n max_slots lt
      ∙ capture_slot-saved react mark quiet n (opened n).0 (opened n).1 ptr (opened-client n ∙ h)

  saved-none : (n : ℕ) → n < max_slots → slot_client w n ≡ none → (saved n).client ≡ none
  saved-none n lt h =
      ap (λ (s : BotIdentitySnapshot). s.client) (saved_later n max_slots lt)
      ∙ capture_slot-unsaved react mark quiet n (opened n).0 (opened n).1
          (ap (λ (s : BotIdentitySnapshot). s.client) (unwritten n n (omega arith)))
          (opened-client n ∙ h)

  -- One turn of the destructor puts the slot's client and controller back.
  abbrev put_back_at : ℕ → Engine
  put_back_at n =
      let e = (opened n).0.engine in
      with_changes (closed n).engine (slot_client w n) (undisguised_at e (slot_client w n))
        (controller_at n) (unflagged_at e (controller_at n))

  closed_none :
      (n : ℕ)
      → n < max_slots
      → slot_client w n ≡ none
      → without_calls (closed (suc n)).engine ≡ without_calls (put_back_at n)
  closed_none n lt h =
      rw (restore_snapshot-none react mark (saved n) (closed n) (saved-none n lt h), h) refl

  closed_some :
      (n ptr : ℕ)
      → n < max_slots
      → slot_client w n ≡ some ptr
      → skeleton (closed n).engine ≡ skeleton w.engine
      → without_calls (closed (suc n)).engine ≡ without_calls (put_back_at n)
  closed_some n ptr lt h same =
      let before = (opened n).0 in
      let step =
        restore_snapshot-engine react mark quiet before (closed n) n ptr (opened-client n ∙ h)
          (closed-manager n ∙ sym (opened-manager n)) (same ∙ sym (opened-skeleton n)) in
      ap
        (λ (s : BotIdentitySnapshot).
          without_calls (restore_snapshot react mark s (closed n)).engine)
        (saved-client n ptr lt h)
      ∙ (step ∙ rw (h, live_controller-same before.engine w.engine ptr (opened-skeleton n)) refl)

  pub closed-next :
      (n : ℕ)
      → n < max_slots
      → skeleton (closed n).engine ≡ skeleton w.engine
      → without_calls (closed (suc n)).engine ≡ without_calls (put_back_at n)
  closed-next n lt same = elim (Option-cases (slot_client w n)) [
    | inl h ↦ closed_none n lt h
    | inr (ptr, h) ↦ closed_some n ptr lt h same
  ]

  pub closed-skeleton : (n : ℕ) → n ≤ max_slots → skeleton (closed n).engine ≡ skeleton w.engine
  closed-skeleton zero le = opened-skeleton max_slots
  closed-skeleton (suc n) le =
      let same = closed-skeleton n (omega arith) in
      let e = (opened n).0.engine in
      ap skeleton (closed-next n (omega arith) same)
      ∙ (with_changes-skeleton (closed n).engine (slot_client w n)
            (undisguised_at e (slot_client w n)) (controller_at n)
            (unflagged_at e (controller_at n)) (undisguised_at-bare e (slot_client w n))
            (unflagged_at-bare e (controller_at n))
          ∙ same)
