-- ===== src/Detours/Captured.antt =====
-- One slot's turn of the constructor and of the destructor of a scope.
use cs2_bot_hider.Base.{
  ℕ, ◌≡◌, ◌≢◌, refl, sym, ap, ◌∙◌, Bool, true, false, Option, none, some, arith, bit_xor,
  if◌then◌else◌, Bool-cases, Option-cases, inl, inr,
}
use cs2_bot_hider.Base.Int.{pos}
use cs2_bot_hider.Engine.{
  Engine, EngineCall, set_fake_player, resolve_client_by_slot, is_entity_being_deleted,
}
use cs2_bot_hider.Manager.{is_managed}
use cs2_bot_hider.Manager.Slots.{update_self, update_ne}
use cs2_bot_hider.World.{World}
use cs2_bot_hider.Runtime.{client_controller}
use cs2_bot_hider.Detours.{
  warned, client_snapshot, capture_controller, capture_client, capture_slot,
}
use cs2_bot_hider.Detours.State.{BotIdentitySnapshot, Snapshots}
use cs2_bot_hider.Detours.Skeleton.{
  IsQuiet, disguised, flagged, slot_client, if_live, live_controller, controller_for,
  live_controller-skeleton, with_changes, with_changes-skeleton, without_calls, write_flags-quiet,
}

opened-controller :
    (e : Engine) (ptr : ℕ) → live_controller (set_fake_player e ptr) ptr ≡ live_controller e ptr
unfolding set_fake_player
opened-controller e ptr =
    sym (live_controller-skeleton (set_fake_player e ptr) ptr)
    ∙ (ap (λ (v : Engine). live_controller v ptr)
          (with_changes-skeleton e (some ptr) disguised none flagged (λ c. refl) (λ x. refl))
        ∙ live_controller-skeleton e ptr)

-- What a snapshot holds of a controller.
abbrev pub with_controller : Engine → BotIdentitySnapshot → Option ℕ → BotIdentitySnapshot
with_controller e s none = s
with_controller e s (some controller) =
    let before = (e.entity controller).flags in
    record s {
      controller = some controller;
      handle = (e.entity controller).handle;
      controller_flags = before;
      controller_flags_mask = bit_xor before (flagged (e.entity controller)).flags;
    }

abbrev pub saved_snapshot : Engine → ℕ → ℕ → BotIdentitySnapshot
saved_snapshot e slot ptr = with_controller e (client_snapshot e slot ptr) (live_controller e ptr)

module _ (react : EngineCall → Engine → Engine) (mark : Bool) where
  -- The client is opened, and then its live controller, if it has one.
  abbrev pub after_opening : World → ℕ → ℕ → Option ℕ → World × BotIdentitySnapshot
  after_opening w slot ptr none = (
    warned (record w { engine = set_fake_player w.engine ptr }) slot true,
    client_snapshot w.engine slot ptr,
  )
  after_opening w slot ptr (some controller) =
      capture_controller react mark
        (warned (record w { engine = set_fake_player w.engine ptr }) slot false)
        (client_snapshot w.engine slot ptr) controller

  after_opening-live :
      (w : World) (slot ptr : ℕ) (o : Option ℕ)
      → (let opened = record w { engine = set_fake_player w.engine ptr } in
          elim o [
            | none ↦ (warned opened slot true, client_snapshot w.engine slot ptr)
            | some q ↦
                if is_entity_being_deleted opened.engine (some q)
                then (warned opened slot true, client_snapshot w.engine slot ptr)
                else capture_controller react mark
                    (warned opened slot false)
                    (client_snapshot w.engine slot ptr)
                    q
          ])
        ≡ after_opening w slot ptr (if_live (set_fake_player w.engine ptr) o)
  after_opening-live w slot ptr none = refl
  after_opening-live w slot ptr (some q) =
      elim (Bool-cases (is_entity_being_deleted (set_fake_player w.engine ptr) (some q))) [
        | inl d ↦ rw d refl
        | inr d ↦ rw d refl
      ]

  pub capture_client-live :
      (w : World) (slot ptr : ℕ)
      → capture_client react mark w slot ptr
        ≡ after_opening w slot ptr (live_controller (set_fake_player w.engine ptr) ptr)
  unfolding capture_client live_controller
  capture_client-live w slot ptr =
      after_opening-live w slot ptr (client_controller (set_fake_player w.engine ptr) ptr)

abbrev changed : Engine → Option ℕ → Option ℕ → Engine
changed e ptr controller = with_changes e ptr disguised controller flagged

module _ (react : EngineCall → Engine → Engine) (mark : Bool) (quiet : IsQuiet react) where
  after_opening-engine :
      (w : World) (slot ptr : ℕ) (controller : Option ℕ)
      → without_calls (after_opening react mark w slot ptr controller).0.engine
        ≡ without_calls (changed w.engine (some ptr) controller)
  unfolding set_fake_player capture_controller
  after_opening-engine w slot ptr none = refl
  after_opening-engine w slot ptr (some controller) =
      write_flags-quiet react mark _ controller _ quiet

  after_opening-snapshot :
      (w : World) (slot ptr : ℕ) (controller : Option ℕ)
      → (after_opening react mark w slot ptr controller).1
        ≡ with_controller w.engine (client_snapshot w.engine slot ptr) controller
  unfolding set_fake_player capture_controller
  after_opening-snapshot w slot ptr none = refl
  after_opening-snapshot w slot ptr (some controller) = refl

  pub capture_slot-engine :
      (slot : ℕ) (w : World) (s : Snapshots)
      → without_calls (capture_slot react mark slot (w, s)).0.engine
        ≡ without_calls
            (changed w.engine (slot_client w slot) (controller_for w.engine (slot_client w slot)))
  unfolding capture_slot slot_client
  capture_slot-engine slot w s = elim (Bool-cases (is_managed w.manager slot)) [
    | inr m ↦ rw m refl
    | inl m ↦ elim (Option-cases (resolve_client_by_slot w.engine (pos slot))) [
      | inl r ↦ rw (m, r) refl
      | inr (ptr, r) ↦
          rw (m, r, capture_client-live react mark w slot ptr, opened-controller w.engine ptr)
            (after_opening-engine w slot ptr (live_controller w.engine ptr))
    ]
  ]

  -- The snapshot of a slot that has a client.
  pub capture_slot-saved :
      (slot : ℕ) (w : World) (s : Snapshots) (ptr : ℕ)
      → slot_client w slot ≡ some ptr
      → (capture_slot react mark slot (w, s)).1 slot ≡ saved_snapshot w.engine slot ptr
  unfolding capture_slot slot_client
  capture_slot-saved slot w s ptr h = elim (Bool-cases (is_managed w.manager slot)) [
    | inr m ↦ absurd (ground arith)
    | inl m ↦
        let r : resolve_client_by_slot w.engine (pos slot) ≡ some ptr = ground arith in
        rw (m, r, capture_client-live react mark w slot ptr, opened-controller w.engine ptr)
          (update_self s slot _ ∙ after_opening-snapshot w slot ptr (live_controller w.engine ptr))
  ]

  pub capture_slot-unsaved :
      (slot : ℕ) (w : World) (s : Snapshots)
      → (s slot).client ≡ none
      → slot_client w slot ≡ none
      → ((capture_slot react mark slot (w, s)).1 slot).client ≡ none
  unfolding capture_slot slot_client
  capture_slot-unsaved slot w s fresh h = elim (Bool-cases (is_managed w.manager slot)) [
    | inr m ↦ rw m fresh
    | inl m ↦
        let r : resolve_client_by_slot w.engine (pos slot) ≡ none = ground arith in
        rw (m, r) (ap (λ (t : BotIdentitySnapshot). t.client) (update_self s slot _))
  ]

  pub capture_slot-others :
      (slot : ℕ) (w : World) (s : Snapshots) (j : ℕ)
      → slot ≢ j
      → (capture_slot react mark slot (w, s)).1 j ≡ s j
  unfolding capture_slot
  capture_slot-others slot w s j ne = elim (Bool-cases (is_managed w.manager slot)) [
    | inr m ↦ rw m refl
    | inl m ↦ elim (Option-cases (resolve_client_by_slot w.engine (pos slot))) [
      | inl r ↦ rw (m, r) (update_ne s slot j _ ne)
      | inr (ptr, r) ↦ rw (m, r) (update_ne s slot j _ ne)
    ]
  ]
