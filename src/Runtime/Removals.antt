-- ===== src/Runtime/Removals.antt =====
-- The queue of controllers to remove: no handle stands in it twice, and no item stays in it for more
-- than two frames.
use cs2_bot_hider.Base.{
  ◌≡◌, ◌≢◌, refl, not, List, [], ◌∷◌, some, arith, Option-cases, inl, inr, if_both,
}
use cs2_bot_hider.Snapshot.{max_slots}
use cs2_bot_hider.Engine.{Engine, EngineCall}
use cs2_bot_hider.World.{World, PendingControllerRemoval}
use cs2_bot_hider.Runtime.{
  referencing_user_id, drain_item, drain_items, drain_pending_controller_removals,
}

-- Each item has waited for a frame.
AllWaited : List PendingControllerRemoval → Type 0
AllWaited [] = Unit {0}
AllWaited (item ∷ items) = (item.referenced_frames ≢ 0) × AllWaited items

module _ (react : EngineCall → Engine → Engine) where
  drain_item-kept :
      (e : Engine) (item kept : PendingControllerRemoval)
      → (drain_item react e item).1 ≡ some kept
      → (item.referenced_frames ≡ 0) × (kept.referenced_frames ≡ 1)
  unfolding drain_item
  drain_item-kept e item kept h =
      elim (Option-cases (referencing_user_id e item.controller max_slots 0)) [
        | inl r ↦ absurd (ground arith)
        | inr (user_id, r) ↦ (ground arith, ground arith)
      ]

  drain_items-AllWaited :
      (e : Engine) (items : List PendingControllerRemoval) → AllWaited (drain_items react e items).1
  unfolding drain_items AllWaited
  drain_items-AllWaited e [] = tt
  drain_items-AllWaited e (item ∷ items) =
      let rest = drain_items-AllWaited (drain_item react e item).0 items in
      elim (Option-cases (drain_item react e item).1) [
        | inl gone ↦ rw gone rest
        | inr (kept, stays) ↦
            let (_, once) = drain_item-kept e item kept stays in
            rw stays ((λ none_yet. ground arith), rest)
      ]

  drain_items-empty :
      (e : Engine) (items : List PendingControllerRemoval)
      → AllWaited items
      → (drain_items react e items).1 ≡ []
  unfolding drain_items AllWaited
  drain_items-empty e [] h = refl
  drain_items-empty e (item ∷ items) (waited, h) =
      let rest = drain_items-empty (drain_item react e item).0 items h in
      elim (Option-cases (drain_item react e item).1) [
        | inl gone ↦ rw (gone, rest) refl
        | inr (kept, stays) ↦ absurd (waited (drain_item-kept e item kept stays).0)
      ]

-- Whatever the queue holds, and whatever becomes of the engine's memory between the frames, two
-- drains in a row leave it empty.
pub drain_pending_controller_removals-twice :
    (react : EngineCall → Engine → Engine) (w : World) (e : Engine)
    → (drain_pending_controller_removals react (record (drain_pending_controller_removals react w) {
      engine = e;
    })).pending_controller_removals
      ≡ []
unfolding drain_pending_controller_removals AllWaited
drain_pending_controller_removals-twice react w e =
    if_both (λ (v : World). v.pending_controller_removals ≡ []) (not e.util_remove_target) refl
      (drain_items-empty react e _ after_drain)
  where
    after_drain : AllWaited (drain_pending_controller_removals react w).pending_controller_removals
    after_drain =
        if_both (λ (v : World). AllWaited v.pending_controller_removals)
          (not w.engine.util_remove_target) tt
          (drain_items-AllWaited react w.engine w.pending_controller_removals)
