-- ===== src/Server.antt =====
-- The plugin as the engine and the managed side drive it: one step is one call of a hook of
-- src/features/identity/client_hooks.cpp, one function of src/bridge/exports.cpp that changes the
-- state, one detour's Pre or Post, one hook of a console command, a level's begin or end, or a part of
-- the frame, in any order.
pub mod Unique
pub mod Detours
pub mod Frame
use cs2_bot_hider.Base.{ℕ, Bool, List, [], Option}
use cs2_bot_hider.Base.Int.{ℤ}
use cs2_bot_hider.Engine.{Engine, EngineCall}
use cs2_bot_hider.Manager.{init, on_tick, begin_shutdown, shutdown}
use cs2_bot_hider.World.{World, IdentityMode, release_all}
use cs2_bot_hider.ClientHooks.{
  Reasons, on_client_connected, adopt_existing_bots, client_put_in_server, client_disconnect,
}
use cs2_bot_hider.Runtime.{restore_managed_clients, drain_pending_controller_removals}
use cs2_bot_hider.Commands.{queue_managed_bot_kick}
use cs2_bot_hider.Exports.{
  bh_set_crosshair, bh_set_flair, bh_set_avatar, bh_set_steam_id, bh_set_name, bh_set_mode,
  bh_attach, bh_detach, bh_set_name_source,
}
use cs2_bot_hider.Avatar.{StringTables}
use cs2_bot_hider.Commands.Dispatch.{
  simulate, start_change_level_pre, dispatch_con_command_pre, dispatch_con_command_post,
}
use cs2_bot_hider.Detours.State.{PopulationCall}
use cs2_bot_hider.Detours.Frames.{
  begin_population_frame, end_population_frame, voters_pre, voters_post, script_is_bot_pre,
  script_is_bot_post, pack_pre, pack_post,
}
use cs2_bot_hider.Plugin.{on_level_init, on_level_shutdown}

pub data Step (react : EngineCall → Engine → Engine) (reasons : Reasons) (tables : StringTables)
    : World → World → Type 0 where
  connect :
      (w : World) (slot : ℤ) (name network_id : Option (List ℕ)) (fake_player : Bool)
      → Step react reasons tables w (on_client_connected react w slot name network_id fake_player)
  enter :
      (w : World) (slot : ℤ) (name : Option (List ℕ))
      → Step react reasons tables w (client_put_in_server react w slot name)
  leave :
      (w : World) (slot : ℤ) (reason : ℕ)
      → Step react reasons tables w (client_disconnect react reasons w slot reason)
  adopt_existing : (w : World) → Step react reasons tables w (adopt_existing_bots react w)
  tick : (w : World) → Step react reasons tables w (record w { manager = on_tick w.manager })
  clock : (w : World) (now : ℕ) → Step react reasons tables w (record w { clock = now })
  engine : (w : World) (e : Engine) → Step react reasons tables w (record w { engine = e })
  release : (w : World) → Step react reasons tables w (release_all w)
  restore : (w : World) → Step react reasons tables w (restore_managed_clients react w).0
  drain : (w : World) → Step react reasons tables w (drain_pending_controller_removals react w)
  steam_id :
      (w : World) (thread : ℕ) (slot : ℤ) (incarnation id : ℕ)
      → Step react reasons tables w (bh_set_steam_id react w thread slot incarnation id).0
  name :
      (w : World) (thread : ℕ) (slot : ℤ) (incarnation : ℕ) (text : Option (List ℕ)) (len : ℤ)
      → Step react reasons tables w (bh_set_name react w thread slot incarnation text len).0
  mode :
      (w : World) (can_enable attached : Bool) (thread : ℕ) (value : ℤ)
      → Step react reasons tables w (bh_set_mode react can_enable attached w thread value).0
  avatar :
      (w : World) (thread : ℕ) (slot : ℤ) (incarnation : ℕ) (bytes : List ℕ) (len : ℤ)
      → Step react reasons tables w (bh_set_avatar w thread slot incarnation bytes len).0
  flair :
      (w : World) (thread : ℕ) (slot : ℤ) (incarnation value : ℕ)
      → Step react reasons tables w (bh_set_flair w thread slot incarnation value).0
  crosshair :
      (w : World) (thread : ℕ) (slot : ℤ) (incarnation : ℕ) (text : Option (List ℕ)) (len : ℤ)
      → Step react reasons tables w (bh_set_crosshair w thread slot incarnation text len).0
  attach : (w : World) (thread : ℕ) → Step react reasons tables w (bh_attach w thread).0
  detach : (w : World) (thread : ℕ) → Step react reasons tables w (bh_detach w thread)
  name_source :
      (w : World) (thread : ℕ) (value : ℤ)
      → Step react reasons tables w (bh_set_name_source w thread value).0
  queue_kick :
      (w : World) (has_bot_kick : Bool) (slot : Option ℕ)
      → Step react reasons tables w (queue_managed_bot_kick has_bot_kick w slot).0
  -- The frame takes the queued kicks; what the command then does are further steps.
  take_kicks : (w : World) → Step react reasons tables w (record w { pending_bot_kicks = [] })
  -- The hooks of the frame, but for the kicks, and of the level change; the levels' begins and ends.
  frame :
      (w : World) (st : tables.State)
      → Step react reasons tables w (simulate tables react (st, w)).1
  change_level :
      (w : World) (st : tables.State)
      → Step react reasons tables w (start_change_level_pre tables react (st, w)).1
  level_init :
      (w : World) (can_enable : Bool) (game_server : Option ℕ) (adds : ℕ → Bool)
      → Step react reasons tables w (on_level_init react can_enable game_server adds w)
  level_shutdown :
      (w : World) (st : tables.State)
      → Step react reasons tables w (on_level_shutdown tables (st, w)).1
  -- The detours, and the hooks of the console commands.
  begin_frame :
      (w : World) (call : PopulationCall) (enabled : Bool)
      → Step react reasons tables w (begin_population_frame react call enabled w)
  end_frame :
      (w : World) (call : PopulationCall)
      → Step react reasons tables w (end_population_frame react call w)
  open_voters : (w : World) → Step react reasons tables w (voters_pre react w)
  close_voters : (w : World) → Step react reasons tables w (voters_post react w)
  open_script : (w : World) → Step react reasons tables w (script_is_bot_pre react w)
  close_script : (w : World) → Step react reasons tables w (script_is_bot_post react w)
  open_packing : (w : World) → Step react reasons tables w (pack_pre react w)
  close_packing : (w : World) → Step react reasons tables w (pack_post react w)
  command_pre :
      (w : World) (has_bot_kick : Bool) (command : Option (List ℕ)) (arguments : List (List ℕ))
      → Step react reasons tables w
          (dispatch_con_command_pre react has_bot_kick w command arguments).0
  command_post : (w : World) → Step react reasons tables w (dispatch_con_command_post react w)
  shut_down :
      (w : World) (now : ℕ)
      → Step react reasons tables w (record w { manager = shutdown (begin_shutdown w.manager) now })

-- What can be reached from the state that `Init` leaves.
pub data Reachable (react : EngineCall → Engine → Engine) (reasons : Reasons)
    (tables : StringTables) : World → Type 0 where
  initial :
      (w : World) (thread now : ℕ)
      → Reachable react reasons tables (record w { manager = init w.manager thread now })
  next :
      {w w' : World}
      → Reachable react reasons tables w
      → Step react reasons tables w w'
      → Reachable react reasons tables w'
