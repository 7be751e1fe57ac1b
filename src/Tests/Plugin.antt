-- ===== src/Tests/Plugin.antt =====
-- Runs of the settings, of the levels and of a load that fails.
use cs2_bot_hider.Base.{◌≡◌, ◌≤◌, ◌⊎◌, inl, refl, true, false, List, [], ◌∷◌, none, some}
use cs2_bot_hider.Base.Int.{pos, negsuc}
use cs2_bot_hider.Manager.{configure_fake_ping}
use cs2_bot_hider.World.{IdentityMode}
use cs2_bot_hider.Config.{load_settings}
use cs2_bot_hider.Config.Range.{IsValid, load_settings-IsValid}
use cs2_bot_hider.Detours.Install.{
  Binding, install_hook, install_prepared, prepare_all, prepare_same_map_teardown_hook,
  prepare_pack_entities_hook, can_enable_disguise,
}
use cs2_bot_hider.Plugin.{on_level_shutdown}
use cs2_bot_hider.Plugin.Load.{Environment, Plugin, install, load_plugin}
use cs2_bot_hider.Plugin.Hooked.{LevelEvent, run_events, run_events-HasOneHook}
use cs2_bot_hider.Plugin.Failure.{IsRolledBack, load_plugin-IsRolledBack}
use cs2_bot_hider.Tests.{quiet, manager, world, tables, managed_world}
use cs2_bot_hider.Tests.Identities.{json}

load_settings-IsValid_example :
    IsValid (load_settings json (some []))
    × (1
        ≤ (configure_fake_ping manager
            (load_settings json (some [])).fake_ping_enabled
            (load_settings json (some [])).fake_ping_min
            (load_settings json (some [])).fake_ping_max).fake_ping_minimum)
    × ((configure_fake_ping manager
          (load_settings json (some [])).fake_ping_enabled
          (load_settings json (some [])).fake_ping_min
          (load_settings json (some [])).fake_ping_max).fake_ping_minimum
        ≤ (configure_fake_ping manager
            (load_settings json (some [])).fake_ping_enabled
            (load_settings json (some [])).fake_ping_min
            (load_settings json (some [])).fake_ping_max).fake_ping_maximum)
    × ((configure_fake_ping manager
          (load_settings json (some [])).fake_ping_enabled
          (load_settings json (some [])).fake_ping_min
          (load_settings json (some [])).fake_ping_max).fake_ping_maximum
        ≤ 999)
load_settings-IsValid_example = load_settings-IsValid json (some []) manager

abbrev events : List LevelEvent
events =
    LevelEvent.begin true (some 5) (λ _. true)
    ∷ LevelEvent.finish
    ∷ LevelEvent.begin true (some 6) (λ _. true)
    ∷ []

run_events-HasOneHook_example :
    (((run_events tables quiet events (0, managed_world)).1.plugin.level_hooks 6 ≡ false)
      ⊎ ((run_events tables quiet events (0, managed_world)).1.plugin.hooked_game_server ≡ some 6))
    × ((on_level_shutdown tables
            (run_events tables quiet events (0, managed_world))).1.plugin.level_hooks
          6
        ≡ false)
run_events-HasOneHook_example =
    run_events-HasOneHook tables quiet events 0 managed_world 6 (λ server. inl refl)

abbrev unbound : Binding
unbound = record { target = none; active = false }

abbrev fresh : Plugin
fresh = record {
  world = record world {
    identity_mode = IdentityMode.bot;
    plugin = record world.plugin { is_loaded = false };
  };
  bindings = record {
    quota_hook = unbound;
    voters_hook = unbound;
    join_team_hook = unbound;
    human_team_hook = unbound;
    pack_hook = unbound;
    end_match_hook = unbound;
    script_is_bot_hook = unbound;
    pick_new_teams_on_reset_offset = negsuc 0;
  };
}

fresh-IsRolledBack : IsRolledBack fresh
fresh-IsRolledBack = record {
  idle = record { unloaded = refl; mode_off = refl; closed = refl };
  inactive = record {
    quota = refl;
    voters = refl;
    join_team = refl;
    human_team = refl;
    pack = refl;
    end_match = refl;
    script_is_bot = refl;
  };
}

-- Every signature is found and every detour installed, but `UTIL_Remove` is not found.
abbrev environment : Environment
environment = record {
  interfaces_ready = true;
  log_ready = true;
  khook_export = true;
  schema_ready = true;
  gamedata_ready = true;
  pawn_handle_offset = pos 8;
  config = none;
  string_tables = true;
  util_remove = none;
  entity_system = true;
  resolve = λ hook. some 9;
  installs = λ hook target. true;
  engine_code = true;
  team_reset_offset = pos 4;
  thread = 0;
  seed = 1;
  bot_info = none;
  adds_virtual = true;
  game_server = none;
  adds = λ server. true;
  late = false;
}

failed : (load_plugin tables quiet json environment (0, fresh)).2 ≡ false
unfolding load_plugin install load_settings can_enable_disguise install_prepared install_hook
    prepare_all prepare_same_map_teardown_hook prepare_pack_entities_hook
failed = refl

load_plugin-IsRolledBack_example :
    IsRolledBack (load_plugin tables quiet json environment (0, fresh)).1
load_plugin-IsRolledBack_example =
    load_plugin-IsRolledBack quiet tables json environment 0 fresh fresh-IsRolledBack failed
