-- ===== src/Plugin.antt =====
-- src/plugin.cpp: the virtual hooks, the hook of the level change, and the levels' begins and ends.
-- The hook library is KHook, of which only the answers are parameters: `adds` says whether the
-- check of `AddChecked` passes for a game server.
pub mod Load
pub mod Hooked
pub mod Failure
use cs2_bot_hider.Base.{ℕ, Bool, true, false, not, Option, none, some, update, ◌==◌, if◌then◌else◌}
use cs2_bot_hider.Engine.{Engine, EngineCall}
use cs2_bot_hider.World.{World, PluginState, IdentityMode, release_all, is_disguise_enabled}
use cs2_bot_hider.Avatar.{StringTables, reset_runtime}
use cs2_bot_hider.Runtime.{clear_pending_controller_removals}
use cs2_bot_hider.Commands.{set_identity_mode}
use cs2_bot_hider.Commands.Dispatch.{process_avatars}

abbrev pub with_plugin : World → PluginState → World
with_plugin w p = record w { plugin = p }

-- The level hook is removed from the server that it was added to; no server is hooked.
unfoldable pub detach_game_server_hook : PluginState → PluginState
detach_game_server_hook p = elim p.hooked_game_server [
  | none ↦ record p { hooked_game_server = none }
  | some server ↦ record p {
    hooked_game_server = none;
    level_hooks = update p.level_hooks server false;
  }
]

abbrev pub is_hooked : Option ℕ → ℕ → Bool
is_hooked none server = false
is_hooked (some hooked) server = hooked == server

module _ (adds : ℕ → Bool) where
  -- `AttachGameServerHook` for a game server that is not the hooked one.
  unfoldable pub attach_server : PluginState → ℕ → PluginState × Bool
  attach_server p server =
      let detached = detach_game_server_hook p in
      if not (adds server) then (detached, false) else (
        record detached {
          hooked_game_server = some server;
          level_hooks = update detached.level_hooks server true;
        },
        true,
      )

  unfoldable pub attach_plugin : Option ℕ → PluginState → PluginState × Bool
  attach_plugin none p = (detach_game_server_hook p, false)
  attach_plugin (some server) p =
      if is_hooked p.hooked_game_server server then (p, true) else attach_server p server

unfoldable pub attach_game_server_hook : Option ℕ → (ℕ → Bool) → World → World × Bool
attach_game_server_hook game_server adds w =
    let attached = attach_plugin adds game_server w.plugin in (with_plugin w attached.0, attached.1)

-- `RemoveAll` of every hook: the answer says whether the library is there.
unfoldable pub remove_virtual_hooks : Bool → World → World × Bool
remove_virtual_hooks khook_export w =
    (with_plugin w (record w.plugin { level_hooks = λ _. false }), khook_export)

-- `adds_all` says whether all five hooks were added.
unfoldable pub install_virtual_hooks : Bool → Bool → World → World × Bool
install_virtual_hooks adds_all khook_export w =
    if not adds_all then ((remove_virtual_hooks khook_export w).0, false) else (w, true)

-- `avatar::ResetRuntime`
unfoldable pub reset_avatars : World → World
reset_avatars w =
    let r = reset_runtime w.avatars w.manager in record w { avatars = r.0; manager = r.1 }

module _ (react : EngineCall → Engine → Engine) where
  -- `SetIdentityMode` with the attachment that it asks for.
  unfoldable pub change_mode : Bool → Option ℕ → (ℕ → Bool) → World → IdentityMode → World × Bool
  change_mode can_enable game_server adds w IdentityMode.bot =
      set_identity_mode react can_enable true w IdentityMode.bot
  change_mode can_enable game_server adds w IdentityMode.player =
      let attached = attach_game_server_hook game_server adds w in
      if not can_enable
      then (w, false)
      else set_identity_mode react can_enable attached.1 attached.0 IdentityMode.player

  unfoldable pub on_level_init : Bool → Option ℕ → (ℕ → Bool) → World → World
  on_level_init can_enable game_server adds w =
      let cleared = reset_avatars (clear_pending_controller_removals w) in
      let attached = attach_game_server_hook game_server adds cleared in
      if not attached.1
      then (change_mode can_enable game_server adds attached.0 IdentityMode.bot).0
      else if attached.0.start_in_player_mode
      then (change_mode can_enable game_server adds attached.0 IdentityMode.player).0
      else attached.0

-- Player mode is left, and taken up again with the next level.
unfoldable pub leave_player_mode : World → World
leave_player_mode w =
    if is_disguise_enabled w
    then record w { start_in_player_mode = true; identity_mode = IdentityMode.bot }
    else w

module _ (tables : StringTables) where
  open tables use {State}

  unfoldable pub on_level_shutdown : State × World → State × World
  on_level_shutdown (st, w) =
      let processed = process_avatars tables (st, release_all w) in
      let reset = reset_avatars processed.1 in
      (processed.0, leave_player_mode (with_plugin reset (detach_game_server_hook reset.plugin)))
