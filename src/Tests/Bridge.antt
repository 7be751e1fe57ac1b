-- ===== src/Tests/Bridge.antt =====
-- Runs of the theorems on the hooks, the commands and the bridge.
use cs2_bot_hider.Png.{scan_chunks, has_png_structure, signature, type_ihdr, type_idat, type_iend}
use cs2_bot_hider.Png.Size.{has_png_structure-length}
use cs2_bot_hider.Base.{bytes_eq, length, ◌≤◌, ◌++◌}
use cs2_bot_hider.Png.Chunks.{scan_chunks-fuel}
use cs2_bot_hider.Base.{
  replicate, ℕ, ◌≡◌, ◌≢◌, ◌↔◌, refl, true, false, List, [], ◌∷◌, none, some, arith,
}
use cs2_bot_hider.Base.Int.{pos}
use cs2_bot_hider.Engine.{resolve_client_by_slot, is_hltv}
use cs2_bot_hider.Manager.{
  is_managed, get_synthetic_sid, get_slot_name, get_incarnation, adopt_slot, advance_incarnation,
  clear_slot, cleared, adopted,
}
use cs2_bot_hider.World.{World, PendingBotKick}
use cs2_bot_hider.Runtime.{
  SteamIdAvailability, check_steam_id_availability, collect_occupied_steam_ids, client_steam_ids,
  managed_steam_ids, drain_pending_controller_removals,
}
use cs2_bot_hider.Runtime.Occupied.{check_steam_id_availability-fresh}
use cs2_bot_hider.Runtime.Handles.{HandlesDistinct, HandlesDistinct-kept}
use cs2_bot_hider.Runtime.{queue_controller_removal, queued_handle}
use cs2_bot_hider.Runtime.Removals.{drain_pending_controller_removals-twice}
use cs2_bot_hider.ClientHooks.{client_disconnect}
use cs2_bot_hider.ClientHooks.Outcome.{IsFreed, client_disconnect-IsFreed}
use cs2_bot_hider.Commands.{apply_steam_id_command, queue_managed_bot_kick, kick_target}
use cs2_bot_hider.Commands.Kicks.{queue_managed_bot_kick-target, kick_target-stale}
use cs2_bot_hider.Commands.Outcome.{apply_steam_id_command-atomic}
use cs2_bot_hider.Exports.{target, bh_set_crosshair, bh_set_flair, bh_set_avatar, bh_set_steam_id}
use cs2_bot_hider.Exports.Guards.{
  IsTarget, IsAtomic, target_iff, bh_setters-IsAtomic, target-stale, bh_setters-ne,
}
use cs2_bot_hider.Manager.Calls.{ManagerCall, readopted}
use cs2_bot_hider.Tests.{quiet, reasons, world, engine, manager, persona_a, name_a}

abbrev twelve : ℕ
twelve = 12

-- A is at slot 0.
abbrev adopted_world : World
adopted_world = record world { manager = adopt_slot manager 9 0 persona_a }

a_managed : is_managed adopted_world.manager 0 ≡ true
unfolding is_managed adopt_slot clear_slot cleared adopted
a_managed = refl

available_for_1 :
    check_steam_id_availability adopted_world (pos 1) 12 ≡ SteamIdAvailability.available
unfolding check_steam_id_availability collect_occupied_steam_ids client_steam_ids managed_steam_ids
    is_managed get_synthetic_sid adopt_slot clear_slot cleared adopted
available_for_1 = refl

check_steam_id_availability-fresh_example :
    (twelve ≢ 0) × (get_synthetic_sid adopted_world.manager 0 ≢ 12)
check_steam_id_availability-fresh_example =
    check_steam_id_availability-fresh adopted_world (pos 1) 12 0 available_for_1 (omega arith)
      (omega arith) a_managed

apply_steam_id_command-atomic_example :
    ((apply_steam_id_command quiet adopted_world (pos 1) 12).1 ≡ true
      → (get_synthetic_sid (apply_steam_id_command quiet adopted_world (pos 1) 12).0.manager 1 ≡ 12)
        × (check_steam_id_availability adopted_world (pos 1) 12 ≡ SteamIdAvailability.available)
        × ((j : ℕ)
            → 1 ≢ j
            → (apply_steam_id_command quiet adopted_world (pos 1) 12).0.manager.slots j
              ≡ adopted_world.manager.slots j))
    × ((apply_steam_id_command quiet adopted_world (pos 1) 12).1 ≡ false
        → (apply_steam_id_command quiet adopted_world (pos 1) 12).0 ≡ adopted_world)
apply_steam_id_command-atomic_example = apply_steam_id_command-atomic quiet adopted_world (pos 1) 12

target_iff_example : target adopted_world 0 (pos 0) 6 ≡ true ↔ IsTarget adopted_world 0 (pos 0) 6
target_iff_example = target_iff adopted_world 0 (pos 0) 6

bh_setters-IsAtomic_example :
    IsAtomic adopted_world 0
      (pos 0)
      6
      (bh_set_crosshair adopted_world 0 (pos 0) 6 (some name_a) (pos 1))
    × IsAtomic adopted_world 0 (pos 0) 6 (bh_set_flair adopted_world 0 (pos 0) 6 3)
    × IsAtomic adopted_world 0 (pos 0) 6 (bh_set_avatar adopted_world 0 (pos 0) 6 [] (pos 1))
    × IsAtomic adopted_world 0 (pos 0) 6 (bh_set_steam_id quiet adopted_world 0 (pos 0) 6 12)
bh_setters-IsAtomic_example =
    bh_setters-IsAtomic quiet adopted_world 0 (pos 0) 6 3 12 (some name_a) [] (pos 1)

-- The slot is released, another one is adopted, and time passes.
abbrev calls : List ManagerCall
calls = ManagerCall.release 0 ∷ ManagerCall.adopt 10 1 persona_a ∷ ManagerCall.tick ∷ []

-- Slot 0 has its second owner.
abbrev readopted_world : World
readopted_world = record adopted_world {
  manager = readopted manager 9 0 persona_a calls 11 persona_a;
}

target-stale_example :
    target readopted_world 0 (pos 0) (get_incarnation (adopt_slot manager 9 0 persona_a) 0) ≡ false
target-stale_example =
    target-stale readopted_world 0 manager 9 0 11 persona_a persona_a calls (omega arith) refl

bh_setters-ne_example :
    ((bh_set_crosshair adopted_world 0 (pos 0) 6 (some name_a) (pos 0)).0.manager.slots 1
      ≡ adopted_world.manager.slots 1)
    × ((bh_set_flair adopted_world 0 (pos 0) 6 3).0.manager.slots 1 ≡ adopted_world.manager.slots 1)
    × ((bh_set_avatar adopted_world 0 (pos 0) 6 [] (pos 0)).0.manager.slots 1
        ≡ adopted_world.manager.slots 1)
bh_setters-ne_example =
    bh_setters-ne adopted_world 0 (pos 0) 6 3 (some name_a) [] (pos 0) 1 (omega arith)

abbrev kick_a : PendingBotKick
kick_a = record { slot = 0; client = 100; user_id = 102; incarnation = 6 }

queued : (queue_managed_bot_kick true adopted_world (some 0)).1 ≡ true
unfolding queue_managed_bot_kick is_managed get_slot_name get_incarnation resolve_client_by_slot
    is_hltv adopt_slot clear_slot cleared adopted advance_incarnation cs2_bot_hider.Text.copy_text
    cs2_bot_hider.Text.c_string cs2_bot_hider.Text.strncpy
queued = refl

queue_managed_bot_kick-target_example :
    (kick : PendingBotKick) × ((queue_managed_bot_kick true adopted_world
        (some 0)).0.pending_bot_kicks
      ≡ kick ∷ [])
    × (kick.slot ≡ 0)
    × (kick_target adopted_world kick ≡ some (get_slot_name adopted_world.manager 0))
queue_managed_bot_kick-target_example = queue_managed_bot_kick-target adopted_world 0 queued

kick_a_queued :
    (queue_managed_bot_kick true adopted_world (some 0)).0.pending_bot_kicks ≡ kick_a ∷ []
unfolding queue_managed_bot_kick is_managed get_slot_name get_incarnation resolve_client_by_slot
    is_hltv adopt_slot clear_slot cleared adopted advance_incarnation cs2_bot_hider.Text.copy_text
    cs2_bot_hider.Text.c_string cs2_bot_hider.Text.strncpy
kick_a_queued = refl

kick_target-stale_example : kick_target readopted_world kick_a ≡ none
kick_target-stale_example =
    kick_target-stale adopted_world readopted_world manager 9 0 11 persona_a persona_a calls kick_a
      (omega arith) refl kick_a_queued refl

drain_pending_controller_removals-twice_example :
    (drain_pending_controller_removals quiet
      (record (drain_pending_controller_removals quiet world) {
        engine = engine;
      })).pending_controller_removals
    ≡ []
drain_pending_controller_removals-twice_example =
    drain_pending_controller_removals-twice quiet world engine

client_disconnect-IsFreed_example :
    IsFreed adopted_world (client_disconnect quiet reasons adopted_world (pos 0) 39) 0
client_disconnect-IsFreed_example =
    client_disconnect-IsFreed quiet reasons adopted_world (pos 0) 39 refl a_managed

abbrev twelve_bytes : List ℕ
twelve_bytes = replicate 12 0

scan_chunks-fuel_example :
    scan_chunks 20 false false twelve_bytes ≡ scan_chunks 13 false false twelve_bytes
scan_chunks-fuel_example =
    scan_chunks-fuel 20 13 false false twelve_bytes (omega arith) (omega arith) (omega arith)

-- One removal is queued, for the controller at the address 7.
abbrev removing : World
removing = record world {
  pending_controller_removals =
      record { controller = 7; handle = 70; slot = 0; user_id = 102; referenced_frames = 0 } ∷ [];
}

HandlesDistinct-kept_example :
    HandlesDistinct (queue_controller_removal removing (some 100) 0).0.pending_controller_removals
    × HandlesDistinct (drain_pending_controller_removals quiet removing).pending_controller_removals
unfolding queued_handle
HandlesDistinct-kept_example = HandlesDistinct-kept quiet removing (some 100) 0 (refl, tt)

-- A picture of one pixel, its checksums left at 0.
abbrev tiny_png : List ℕ
tiny_png =
    signature
    ++ (0 ∷ 0 ∷ 0 ∷ 13 ∷ [])
    ++ type_ihdr
    ++ (0 ∷ 0 ∷ 0 ∷ 1 ∷ 0 ∷ 0 ∷ 0 ∷ 1 ∷ 8 ∷ 0 ∷ 0 ∷ 0 ∷ 0 ∷ [])
    ++ (0 ∷ 0 ∷ 0 ∷ 0 ∷ [])
    ++ (0 ∷ 0 ∷ 0 ∷ 1 ∷ [])
    ++ type_idat
    ++ (7 ∷ [])
    ++ (0 ∷ 0 ∷ 0 ∷ 0 ∷ [])
    ++ (0 ∷ 0 ∷ 0 ∷ 0 ∷ [])
    ++ type_iend
    ++ (0 ∷ 0 ∷ 0 ∷ 0 ∷ [])

tiny_png_accepted : has_png_structure tiny_png ≡ true
unfolding has_png_structure scan_chunks bytes_eq
tiny_png_accepted = refl

has_png_structure-length_example : 58 ≤ length tiny_png
has_png_structure-length_example = has_png_structure-length tiny_png (omega arith) tiny_png_accepted
