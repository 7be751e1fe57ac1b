-- ===== src/ClientHooks/Outcome.antt =====
-- What a disconnect leaves behind.
use cs2_bot_hider.Base.{
  ℕ, ◌≡◌, refl, ap, ◌∙◌, true, false, not, Option, none, some, arith, if_both, Option-cases, inl,
  inr, ◌==◌,
}
use cs2_bot_hider.Base.Int.{ℤ, pos_part}
use cs2_bot_hider.BotInfo.{BotInfoStore, release_assignment}
use cs2_bot_hider.Engine.{Engine, EngineCall, resolve_client_by_slot}
use cs2_bot_hider.Manager.{Manager, is_managed, cleared}
use cs2_bot_hider.Manager.Slots.{clear_slot_self, update_self}
use cs2_bot_hider.Manager
use cs2_bot_hider.World.{World, release_slot}
use cs2_bot_hider.Runtime.{queue_controller_removal}
use cs2_bot_hider.ClientHooks.{
  Reasons, client_disconnect, out_of_slots, surrender_slot, is_targeted_client_removal_reason,
}

-- The slot is free: not managed, without an entry, and its old entry can be picked again.
pub record IsFreed (before after : World) (slot : ℕ) : Type 0 where
  pub unmanaged : is_managed after.manager slot ≡ false
  pub unbound : after.slot_entries slot ≡ none
  pub unassigned : after.info ≡ release_assignment before.info (before.slot_entries slot)

release_slot-IsFreed : (w : World) (slot : ℕ) → IsFreed w (release_slot w slot) slot
unfolding release_slot is_managed cleared Manager.release_slot
release_slot-IsFreed w slot = record {
  unmanaged =
      ap (λ (s : Manager.ManagedSlot). not (s.snapshot.managed == 0))
        (clear_slot_self w.manager slot);
  unbound = update_self w.slot_entries slot none;
  unassigned = refl;
}

transfer :
    (w v : World) (slot : ℕ)
    → v.slot_entries ≡ w.slot_entries
    → v.info ≡ w.info
    → IsFreed v (release_slot v slot) slot
    → IsFreed w (release_slot v slot) slot
transfer w v slot entries info f = record {
  unmanaged = f.unmanaged;
  unbound = f.unbound;
  unassigned =
      f.unassigned
      ∙ (ap (λ (es : ℕ → Option ℕ). release_assignment v.info (es slot)) entries
          ∙ ap (λ (i : BotInfoStore). release_assignment i (w.slot_entries slot)) info);
}

queue_controller_removal-kept :
    (w : World) (ptr : Option ℕ) (slot : ℕ)
    → ((queue_controller_removal w ptr slot).0.slot_entries ≡ w.slot_entries)
      × ((queue_controller_removal w ptr slot).0.info ≡ w.info)
unfolding queue_controller_removal
queue_controller_removal-kept w none slot = (refl, refl)
queue_controller_removal-kept w (some ptr) slot = ground arith

-- A disconnect frees a managed slot, whatever its reason is and whether or not the client can still
-- be resolved: afterwards the slot is not managed and bound to no entry, and of the store of identities
-- exactly the slot's own assignment is given back.
pub client_disconnect-IsFreed :
    (react : EngineCall → Engine → Engine) (reasons : Reasons) (w : World) (slot : ℤ) (reason : ℕ)
    → out_of_slots slot ≡ false
    → is_managed w.manager (pos_part slot) ≡ true
    → IsFreed w (client_disconnect react reasons w slot reason) (pos_part slot)
unfolding client_disconnect surrender_slot
client_disconnect-IsFreed react reasons w slot reason inside managed =
    elim (Option-cases (resolve_client_by_slot w.engine slot)) [
      | inl e ↦ rw (e, inside, managed, client_disconnect) (release_slot-IsFreed w (pos_part slot))
      | inr (ptr, e) ↦
          let given_up = surrender_slot react w (pos_part slot) ptr in
          let kept = queue_controller_removal-kept given_up (some ptr) (pos_part slot) in
          rw (e, inside, managed, client_disconnect)
            (if_both (λ (v : World). IsFreed w (release_slot v (pos_part slot)) (pos_part slot))
              (is_targeted_client_removal_reason reasons reason)
              (transfer w (queue_controller_removal given_up (some ptr) (pos_part slot)).0
                (pos_part slot) kept.0 kept.1 (release_slot-IsFreed _ (pos_part slot)))
              (transfer w given_up (pos_part slot) refl refl
                (release_slot-IsFreed given_up (pos_part slot))))
    ]
