-- ===== src/Runtime.antt =====
-- src/features/identity/identity_runtime.cpp: what is done to the managed clients and controllers.
pub mod Occupied
pub mod Removals
pub mod Handles
pub mod Pawns
use cs2_bot_hider.Base.{
  ℕ, zero, suc, ◌+◌, ◌^◌, ◌≡◌, Bool, true, false, ◌||◌, ◌&&◌, not, List, [], ◌∷◌, ◌++◌, Option,
  none, some, bit_or, ltb, ◌==◌, if◌then◌else◌, length, any, bytes_eq, each_slot,
}
use cs2_bot_hider.Base.Int.{ℤ, pos, pos_part, ltb_ℤ, leb_ℤ}
use cs2_bot_hider.Snapshot.{max_slots}
use cs2_bot_hider.BotInfo.{contains, is_empty}
use cs2_bot_hider.Engine.{
  Engine, EngineCall, Client, Entity, PawnRef, with_entity, clear_word, entity_flag_bot,
  entity_flag_fake_client, clear_fake_player, set_fake_player, write_steam_id, is_hltv,
  resolve_client_by_slot, resolve_entity_instance, is_entity_being_deleted, controller_of,
  controller_class, resolve_client_pawn, mark_entity_field_changed, refresh_client_user_info,
  remove_entity, set_engine_name, nth_client,
}
use cs2_bot_hider.Manager.{is_managed, get_synthetic_sid}
use cs2_bot_hider.World.{
  World, PendingControllerRemoval, release_slot, original_slot_name, is_disguise_enabled,
}

pub data SteamIdAvailability : Type 0 where
  available in_use check_failed : SteamIdAvailability

-- The SteamIDs of the clients at index `i` and on, but for that at `slot`.
unfoldable pub client_steam_ids : Engine → ℕ → ℕ → List (Option ℕ) → List ℕ
client_steam_ids e slot i [] = []
client_steam_ids e slot i (none ∷ clients) = client_steam_ids e slot (suc i) clients
client_steam_ids e slot i (some ptr ∷ clients) =
    let later = client_steam_ids e slot (suc i) clients in
    let id = (e.client ptr).steam_id in if i == slot || id == 0 then later else id ∷ later

-- The SteamIDs of the managed slots below `n`, but for that of `slot`.
unfoldable pub managed_steam_ids : World → ℕ → ℕ → List ℕ
managed_steam_ids w slot zero = []
managed_steam_ids w slot (suc n) =
    let lower = managed_steam_ids w slot n in
    if not (n == slot) && is_managed w.manager n
    then get_synthetic_sid w.manager n ∷ lower
    else lower

-- `none` where the function returns false.
unfoldable pub collect_occupied_steam_ids : World → ℤ → Option (List ℕ)
collect_occupied_steam_ids w slot = elim w.engine.server_clients [
  | none ↦ none
  | some clients ↦
      if ltb 256 (length clients) || (ltb_ℤ slot (pos 0) || leb_ℤ (pos (length clients)) slot)
      then none
      else elim (nth_client clients (pos_part slot)) [
        | none ↦ none
        | some _ ↦ some (
            client_steam_ids w.engine (pos_part slot) 0 clients
            ++ managed_steam_ids w (pos_part slot) max_slots)
      ]
]

unfoldable pub check_steam_id_availability : World → ℤ → ℕ → SteamIdAvailability
check_steam_id_availability w slot steam_id =
    if steam_id == 0 then check_failed else elim (collect_occupied_steam_ids w slot) [
      | none ↦ check_failed
      | some occupied ↦ if contains occupied steam_id then in_use else available
    ]

-- The controller that the client's entity index resolves to.
abbrev pub client_controller : Engine → ℕ → Option ℕ
client_controller e ptr = controller_of (resolve_entity_instance e (e.client ptr).entity_index)

abbrev pub names : Option ℕ → ℕ → Bool
names none controller = false
names (some current) controller = current == controller

-- `IsControllerReferencedByClient`, over the `n` slots from `slot` on: the user ID of the first
-- client that names the controller.
unfoldable pub referencing_user_id : Engine → ℕ → ℕ → ℕ → Option ℕ
referencing_user_id e controller zero slot = none
referencing_user_id e controller (suc n) slot =
    let later = referencing_user_id e controller n (suc slot) in
    elim (resolve_client_by_slot e (pos slot)) [
      | none ↦ later
      | some ptr ↦
          if names (client_controller e ptr) controller then some (e.client ptr).user_id else later
    ]

-- `std::strcmp(name, "SourceTV") == 0`, and the same of the network ID.
abbrev pub source_tv : List ℕ
source_tv = b'S' ∷ b'o' ∷ b'u' ∷ b'r' ∷ b'c' ∷ b'e' ∷ b'T' ∷ b'V' ∷ []

abbrev pub hltv : List ℕ
hltv = b'H' ∷ b'L' ∷ b'T' ∷ b'V' ∷ []

abbrev pub is_text : Option (List ℕ) → List ℕ → Bool
is_text none t = false
is_text (some s) t = bytes_eq s t

unfoldable pub is_hltv_connection : Option (List ℕ) → Option (List ℕ) → Bool
is_hltv_connection name network_id = is_text name source_tv || is_text network_id hltv

-- Whether a removal of the controller with this handle is queued.
unfoldable pub queued_handle : ℕ → List PendingControllerRemoval → Bool
queued_handle handle pending = any (λ item. item.handle == handle) pending

unfoldable pub queue_controller_removal : World → Option ℕ → ℕ → World × Bool
unfolding queued_handle
queue_controller_removal w none slot = (w, false)
queue_controller_removal w (some ptr) slot =
    let e = w.engine in
    if not e.util_remove_target then (w, false) else elim (client_controller e ptr) [
      | none ↦ (w, false)
      | some controller ↦
          let handle = (e.entity controller).handle in
          let item : PendingControllerRemoval = record {
            controller = controller;
            handle = handle;
            slot = slot;
            user_id = (e.client ptr).user_id;
            referenced_frames = 0;
          } in
          if is_entity_being_deleted e (some controller)
          then (w, false)
          else if queued_handle handle w.pending_controller_removals
          then (w, true)
          else (
            record w { pending_controller_removals = w.pending_controller_removals ++ item ∷ [] },
            true,
          )
    ]

-- Whether the queued item still names the controller that it was queued for.
unfoldable pub is_current : Engine → PendingControllerRemoval → Bool
is_current e item =
    names (controller_of (resolve_entity_instance e (e.entry_index item.handle))) item.controller
    && (not (is_entity_being_deleted e (some item.controller))
        && ((e.entity item.controller).handle == item.handle))

abbrev pub keep_item :
    Option PendingControllerRemoval → List PendingControllerRemoval → List PendingControllerRemoval
keep_item none items = items
keep_item (some item) items = item ∷ items

unfoldable pub clear_pending_controller_removals : World → World
clear_pending_controller_removals w = record w { pending_controller_removals = [] }

module _ (react : EngineCall → Engine → Engine) where
  -- The controller's flags are written, and the change is notified only if there is one.
  unfoldable pub write_entity_flags : Engine → ℕ → ℕ → Engine
  unfolding mark_entity_field_changed
  write_entity_flags e ptr flags =
      let written = with_entity e ptr (record (e.entity ptr) { flags = flags }) in
      if flags == (e.entity ptr).flags then written else mark_entity_field_changed react written ptr

  unfoldable pub set_controller_fake_client_flag : Engine → ℕ → Bool → Engine × Bool
  unfolding write_entity_flags
  set_controller_fake_client_flag e slot fake_client = elim (resolve_client_by_slot e (pos slot)) [
    | none ↦ (e, false)
    | some ptr ↦ elim (client_controller e ptr) [
      | none ↦ (e, false)
      | some controller ↦
          let flags = (e.entity controller).flags in
          (
            write_entity_flags e controller (
                if fake_client
                then bit_or flags entity_flag_fake_client
                else clear_word flags entity_flag_fake_client),
            true,
          )
    ]
  ]

  -- The turn of `ApplyManagedDisguise` for one slot.
  unfoldable pub disguise_slot : Bool → ℕ → World → World
  disguise_slot disguised slot w =
      if not (is_managed w.manager slot)
      then w
      else elim (resolve_client_by_slot w.engine (pos slot)) [
        | none ↦ w
        | some ptr ↦
            let e₀ = w.engine in
            let e₁ = if disguised then clear_fake_player e₀ ptr else set_fake_player e₀ ptr in
            let e₂ = (set_controller_fake_client_flag e₁ slot (not disguised)).0 in
            let id = get_synthetic_sid w.manager slot in
            let e₃ = if id == 0 then e₂ else write_steam_id e₂ ptr id in
            record w { engine = (refresh_client_user_info react e₃ slot).0 }
      ]

  unfoldable pub apply_managed_disguise : World → Bool → World
  unfolding disguise_slot
  apply_managed_disguise w disguised = each_slot (disguise_slot disguised) max_slots w

  -- The turn of `RestoreManagedClientsForEngineTeardown` for one slot.
  unfoldable pub restore_slot : ℕ → World × ℕ → World × ℕ
  restore_slot slot (w, restored) =
      if not (is_managed w.manager slot)
      then (w, restored)
      else elim (resolve_client_by_slot w.engine (pos slot)) [
        | none ↦ (w, restored)
        | some ptr ↦
            let e₁ = set_fake_player w.engine ptr in
            let e₂ = (set_controller_fake_client_flag e₁ slot true).0 in
            (record w { engine = write_steam_id e₂ ptr 0 }, restored + 1)
      ]

  unfoldable pub restore_managed_clients : World → World × ℕ
  unfolding restore_slot
  restore_managed_clients w = each_slot restore_slot max_slots (w, 0)

  -- What becomes of one queued item: the engine, and the item if it stays in the queue.
  unfoldable pub drain_item :
      Engine → PendingControllerRemoval → Engine × Option PendingControllerRemoval
  unfolding is_current remove_entity
  drain_item e item =
      let removed : Engine × Option PendingControllerRemoval =
        (remove_entity react e item.controller, none) in
      if not (is_current e item)
      then (e, none)
      else elim (referencing_user_id e item.controller max_slots 0) [
        | none ↦ removed
        | some user_id ↦
            if not (user_id == item.user_id)
            then (e, none)
            else if item.referenced_frames == 0
            then (e, some (record item { referenced_frames = 1 }))
            else removed
      ]

  unfoldable pub drain_items :
      Engine → List PendingControllerRemoval → Engine × List PendingControllerRemoval
  unfolding drain_item
  drain_items e [] = (e, [])
  drain_items e (item ∷ pending) =
      let turn = drain_item e item in
      let rest = drain_items turn.0 pending in (rest.0, keep_item turn.1 rest.1)

  unfoldable pub drain_pending_controller_removals : World → World
  unfolding drain_items
  drain_pending_controller_removals w =
      if not w.engine.util_remove_target
      then record w { pending_controller_removals = [] }
      else let drained = drain_items w.engine w.pending_controller_removals in
        record w { engine = drained.0; pending_controller_removals = drained.1 }

  -- `ReleaseManagedHltvSlot`; `client` is the pointer that the caller resolved.
  unfoldable pub release_managed_hltv_slot : World → ℤ → Option ℕ → World × Bool
  release_managed_hltv_slot w slot none = (w, false)
  release_managed_hltv_slot w slot (some ptr) =
      let index = pos_part slot in
      let e₁ = write_steam_id w.engine ptr 0 in
      let original = original_slot_name w index in
      let e₂ = if is_empty original then e₁ else (set_engine_name react e₁ ptr original).0 in
      let e₃ = (refresh_client_user_info react e₂ index).0 in
      if ltb_ℤ slot (pos 0)
        || (leb_ℤ (pos max_slots) slot
            || (not (is_managed w.manager index) || not (is_hltv w.engine ptr)))
      then (w, false)
      else (release_slot (record w { engine = e₃ }) index, true)
