-- ===== src/Runtime/Handles.antt =====
-- The queue of controllers to remove names no controller twice.
use cs2_bot_hider.Base.{
  ℕ, ◌≡◌, refl, Bool, true, false, not, List, [], ◌∷◌, ◌++◌, Option, none, some, arith, ◌==◌,
  if◌then◌else◌, if_both, Bool-cases, Option-cases, inl, inr,
}
use cs2_bot_hider.Snapshot.{max_slots}
use cs2_bot_hider.Engine.{Engine, EngineCall, is_entity_being_deleted}
use cs2_bot_hider.World.{World, PendingControllerRemoval}
use cs2_bot_hider.Runtime.{
  queued_handle, referencing_user_id, drain_item, drain_items, drain_pending_controller_removals,
  queue_controller_removal, client_controller,
}

-- No two items have one handle.
abbrev pub HandlesDistinct : List PendingControllerRemoval → Type 0
HandlesDistinct [] = Unit {0}
HandlesDistinct (item ∷ items) = (queued_handle item.handle items ≡ false) × HandlesDistinct items

queued_handle_snoc :
    (handle : ℕ) (items : List PendingControllerRemoval) (item : PendingControllerRemoval)
    → queued_handle handle items ≡ false
    → (item.handle == handle) ≡ false
    → queued_handle handle (items ++ item ∷ []) ≡ false
unfolding queued_handle
queued_handle_snoc handle [] item h k = rw k refl
queued_handle_snoc handle (x ∷ items) item h k =
    ground (arith, queued_handle_snoc handle items item)

HandlesDistinct-snoc :
    (items : List PendingControllerRemoval) (item : PendingControllerRemoval)
    → HandlesDistinct items
    → queued_handle item.handle items ≡ false
    → HandlesDistinct (items ++ item ∷ [])
unfolding queued_handle
HandlesDistinct-snoc [] item h k = (refl, tt)
HandlesDistinct-snoc (x ∷ items) item (fresh, h) k =
    let apart : (item.handle == x.handle) ≡ false = ground arith in
    let later : queued_handle item.handle items ≡ false = ground arith in
    (queued_handle_snoc x.handle items item fresh apart, HandlesDistinct-snoc items item h later)

queue_controller_removal-HandlesDistinct :
    (w : World) (ptr : Option ℕ) (slot : ℕ)
    → HandlesDistinct w.pending_controller_removals
    → HandlesDistinct (queue_controller_removal w ptr slot).0.pending_controller_removals
unfolding queue_controller_removal
queue_controller_removal-HandlesDistinct w none slot h = h
queue_controller_removal-HandlesDistinct w (some ptr) slot h =
    elim (Option-cases (client_controller w.engine ptr)) [
      | inl e ↦ rw (e, queue_controller_removal) (if_both P (not w.engine.util_remove_target) h h)
      | inr (controller, e) ↦
          rw (e, queue_controller_removal)
            (if_both P (not w.engine.util_remove_target) h
              (if_both P (is_entity_being_deleted w.engine (some controller)) h (added controller)))
    ]
  where
    P : World × Bool → Type 0
    P r = HandlesDistinct r.0.pending_controller_removals

    added :
        (controller : ℕ)
        → let handle = (w.engine.entity controller).handle in
          let item : PendingControllerRemoval = record {
            controller = controller;
            handle = handle;
            slot = slot;
            user_id = (w.engine.client ptr).user_id;
            referenced_frames = 0;
          } in
          P (
            if queued_handle handle w.pending_controller_removals then (w, true) else (
              record w { pending_controller_removals = w.pending_controller_removals ++ item ∷ [] },
              true,
            ))
    added controller =
        let handle = (w.engine.entity controller).handle in
        elim (Bool-cases (queued_handle handle w.pending_controller_removals)) [
          | inl there ↦ rw there h
          | inr fresh ↦ rw fresh (HandlesDistinct-snoc w.pending_controller_removals _ h fresh)
        ]

module _ (react : EngineCall → Engine → Engine) where
  drain_item-handle :
      (e : Engine) (item kept : PendingControllerRemoval)
      → (drain_item react e item).1 ≡ some kept
      → kept.handle ≡ item.handle
  unfolding drain_item
  drain_item-handle e item kept h =
      elim (Option-cases (referencing_user_id e item.controller max_slots 0)) [
        | inl r ↦ absurd (ground arith)
        | inr (user_id, r) ↦ ground arith
      ]

  drain_items-queued_handle :
      (handle : ℕ) (e : Engine) (items : List PendingControllerRemoval)
      → queued_handle handle items ≡ false
      → queued_handle handle (drain_items react e items).1 ≡ false
  unfolding drain_items queued_handle
  drain_items-queued_handle handle e [] h = refl
  drain_items-queued_handle handle e (item ∷ items) h =
      let later : queued_handle handle items ≡ false = ground arith in
      let apart : (item.handle == handle) ≡ false = ground arith in
      let rest = drain_items-queued_handle handle (drain_item react e item).0 items later in
      elim (Option-cases (drain_item react e item).1) [
        | inl gone ↦ rw gone rest
        | inr (kept, stays) ↦ rw (stays, drain_item-handle e item kept stays, apart) rest
      ]

  drain_items-HandlesDistinct :
      (e : Engine) (items : List PendingControllerRemoval)
      → HandlesDistinct items
      → HandlesDistinct (drain_items react e items).1
  unfolding drain_items
  drain_items-HandlesDistinct e [] h = tt
  drain_items-HandlesDistinct e (item ∷ items) (fresh, h) =
      let e' = (drain_item react e item).0 in
      let rest = drain_items-HandlesDistinct e' items h in
      elim (Option-cases (drain_item react e item).1) [
        | inl gone ↦ rw gone rest
        | inr (kept, stays) ↦
            let same = drain_item-handle e item kept stays in
            let apart : queued_handle kept.handle (drain_items react e' items).1 ≡ false =
              rw same (drain_items-queued_handle item.handle e' items fresh) in
            rw stays (apart, rest)
      ]

-- If no two items of the queue have one handle, then this holds after a removal is queued, and after
-- a drain.
pub HandlesDistinct-kept :
    (react : EngineCall → Engine → Engine) (w : World) (ptr : Option ℕ) (slot : ℕ)
    → HandlesDistinct w.pending_controller_removals
    → HandlesDistinct (queue_controller_removal w ptr slot).0.pending_controller_removals
      × HandlesDistinct (drain_pending_controller_removals react w).pending_controller_removals
unfolding drain_pending_controller_removals
HandlesDistinct-kept react w ptr slot h = (
  queue_controller_removal-HandlesDistinct w ptr slot h,
  if_both (λ (v : World). HandlesDistinct v.pending_controller_removals)
      (not w.engine.util_remove_target) tt
      (drain_items-HandlesDistinct react w.engine w.pending_controller_removals h),
)
