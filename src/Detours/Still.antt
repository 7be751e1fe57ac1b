-- ===== src/Detours/Still.antt =====
-- What the scopes and `ApplyManagedDisguise` leave alone: all of the plugin's state but the engine's
-- memory and the flags of the logged failures.
use cs2_bot_hider.Base.{
  ℕ, ◌≡◌, refl, ap, ◌∙◌, Bool, false, Option, none, some, Bool-cases, ◌==◌, Option-cases, inl, inr,
  each_slot_kept,
}
use cs2_bot_hider.Base.Int.{pos, pos_part}
use cs2_bot_hider.Snapshot.{max_slots}
use cs2_bot_hider.Engine.{Engine, EngineCall, resolve_client_by_slot, set_fake_player}
use cs2_bot_hider.Manager.{is_managed}
use cs2_bot_hider.World.{World}
use cs2_bot_hider.Runtime.{disguise_slot, apply_managed_disguise, names}
use cs2_bot_hider.Detours.{
  capture_slot, capture_client, capture_controller, capture, restore_snapshot, restore,
}
use cs2_bot_hider.Detours.Skeleton.{live_controller}
use cs2_bot_hider.Detours.Captured.{after_opening, capture_client-live}
use cs2_bot_hider.Detours.State.{BotIdentitySnapshot, Snapshots}

-- The state with a fixed engine and no logged failures.
abbrev pub still : Engine → World → World
still e w = record w {
  engine = e;
  detours = record w.detours { identity_resolve_warned = λ _. false };
}

module _ (react : EngineCall → Engine → Engine) (e : Engine) where
  module _ (mark : Bool) where
    after_opening-still :
        (w : World) (slot ptr : ℕ) (o : Option ℕ)
        → still e (after_opening react mark w slot ptr o).0 ≡ still e w
    unfolding capture_controller
    after_opening-still w slot ptr none = refl
    after_opening-still w slot ptr (some q) = refl

    capture_client-still :
        (w : World) (slot ptr : ℕ) → still e (capture_client react mark w slot ptr).0 ≡ still e w
    capture_client-still w slot ptr =
        ap (λ (r : World × BotIdentitySnapshot). still e r.0)
          (capture_client-live react mark w slot ptr)
        ∙ after_opening-still w slot ptr (live_controller (set_fake_player w.engine ptr) ptr)

    pub capture_slot-still :
        (slot : ℕ) (r : World × Snapshots)
        → still e (capture_slot react mark slot r).0 ≡ still e r.0
    unfolding capture_slot
    capture_slot-still slot (w, s) = elim (Bool-cases (is_managed w.manager slot)) [
      | inr m ↦ rw m refl
      | inl m ↦ elim (Option-cases (resolve_client_by_slot w.engine (pos slot))) [
        | inl h ↦ rw (m, h) refl
        | inr (ptr, h) ↦ rw (m, h) (capture_client-still w slot ptr)
      ]
    ]

    pub restore_snapshot-still :
        (s : BotIdentitySnapshot) (w : World)
        → still e (restore_snapshot react mark s w) ≡ still e w
    unfolding restore_snapshot
    restore_snapshot-still s w = elim (Option-cases s.client) [
      | inl h ↦ rw h refl
      | inr (ptr, h) ↦ elim (Bool-cases (is_managed w.manager (pos_part s.slot))) [
        | inr m ↦ rw (h, m) refl
        | inl m ↦ elim (Bool-cases (names (resolve_client_by_slot w.engine s.slot) ptr)) [
          | inr n ↦ rw (h, m, n) refl
          | inl n ↦ elim (Bool-cases ((w.engine.client ptr).user_id == s.user_id)) [
            | inr u ↦ rw (h, m, n, u) refl
            | inl u ↦ rw (h, m, n, u) refl
          ]
        ]
      ]
    ]

    pub capture-still : (w : World) → still e (capture react mark w).0 ≡ still e w
    unfolding capture
    capture-still w =
        each_slot_kept (λ (r : World × Snapshots). still e r.0) (capture_slot react mark) max_slots
          _ capture_slot-still

    pub restore-still : (s : Snapshots) (w : World) → still e (restore react mark s w) ≡ still e w
    unfolding restore
    restore-still s w =
        each_slot_kept (still e) (λ slot. restore_snapshot react mark (s slot)) max_slots w
          (λ i v. restore_snapshot-still (s i) v)

  disguise_slot-still :
      (disguise : Bool) (slot : ℕ) (w : World)
      → still e (disguise_slot react disguise slot w) ≡ still e w
  unfolding disguise_slot
  disguise_slot-still disguise slot w = elim (Bool-cases (is_managed w.manager slot)) [
    | inr m ↦ rw m refl
    | inl m ↦ elim (Option-cases (resolve_client_by_slot w.engine (pos slot))) [
      | inl h ↦ rw (m, h) refl
      | inr (ptr, h) ↦ rw (m, h) refl
    ]
  ]

  pub apply_managed_disguise-still :
      (w : World) (disguise : Bool) → still e (apply_managed_disguise react w disguise) ≡ still e w
  unfolding apply_managed_disguise
  apply_managed_disguise-still w disguise =
      each_slot_kept (still e) (disguise_slot react disguise) max_slots w
        (disguise_slot-still disguise)
