-- ===== src/Plugin/Load.antt =====
-- src/plugin.cpp: loading the plugin, and rolling a failed load back. What the engine, the SDK and
-- the hook library answer is the `Environment`; the game data's offsets are not in it, since the
-- engine's record already has the fields that they lead to. The error texts are left out.
use cs2_bot_hider.Base.{
  ℕ, Bool, true, false, ◌&&◌, not, List, [], ◌∷◌, Option, none, some, if◌then◌else◌,
}
use cs2_bot_hider.Base.Int.{ℤ, pos, ltb_ℤ}
use cs2_bot_hider.Engine.{Engine, EngineCall}
use cs2_bot_hider.Manager.{
  Manager, configure_fake_ping, init, begin_shutdown, shutdown, publish_signature,
}
use cs2_bot_hider.World.{World, IdentityMode, release_all}
use cs2_bot_hider.BotInfo.Load.{Json, load}
use cs2_bot_hider.Config.{Settings, load_settings}
use cs2_bot_hider.Avatar.{StringTables, set_string_table_container}
use cs2_bot_hider.Runtime.{restore_managed_clients}
use cs2_bot_hider.ClientHooks.{adopt_existing_bots}
use cs2_bot_hider.Commands.Dispatch.{process_avatars}
use cs2_bot_hider.Detours.Install.{
  Hook, Bindings, prepare_all, install_prepared, can_enable_disguise, remove,
}
use cs2_bot_hider.Plugin.{
  with_plugin, reset_avatars, attach_game_server_hook, remove_virtual_hooks, install_virtual_hooks,
}

pub record Environment : Type 0 where
  pub interfaces_ready : Bool
  pub log_ready : Bool
  pub khook_export : Bool
  pub schema_ready : Bool
  pub gamedata_ready : Bool
  pub pawn_handle_offset : ℤ
  pub config : Option (List ℕ)
  pub string_tables : Bool
  pub util_remove : Option ℕ
  pub entity_system : Bool
  pub resolve : Hook → Option ℕ
  pub installs : Hook → ℕ → Bool
  pub engine_code : Bool
  pub team_reset_offset : ℤ
  pub thread : ℕ
  pub seed : ℕ
  pub bot_info : Option (List ℕ)
  pub adds_virtual : Bool
  pub game_server : Option ℕ
  pub adds : ℕ → Bool
  pub late : Bool

pub record Plugin : Type 0 where
  pub world : World
  pub bindings : Bindings

abbrev pub is_set : Option ℕ → Bool
is_set none = false
is_set (some address) = true

abbrev pub address : Option ℕ → ℕ
address none = 0
address (some a) = a

-- `entity_access::Reset`
unfoldable pub reset_entity_access : Engine → Engine
reset_entity_access e = record e {
  util_remove_target = false;
  entity_system = false;
  has_pawn_handle = false;
}

-- What `gamedata::Prepare` resolves of the entities.
abbrev pub resolved : Environment → Engine → Engine
resolved env e = record e {
  util_remove_target = is_set env.util_remove;
  entity_system = env.entity_system;
}

-- What the schema gives.
abbrev pub with_schema : Environment → World → World
with_schema env w = record w {
  engine = record w.engine { has_pawn_handle = not (ltb_ℤ env.pawn_handle_offset (pos 0)) };
}

-- The settings and the string tables take effect.
abbrev pub configure : Environment → Settings → World → World
configure env settings w = record w {
  manager =
      configure_fake_ping w.manager settings.fake_ping_enabled settings.fake_ping_min
        settings.fake_ping_max;
  avatars = set_string_table_container w.avatars env.string_tables;
}

-- The avatars are off and the entities' targets forgotten.
unfoldable pub forget : World → World
forget w = record w {
  avatars = set_string_table_container w.avatars false;
  engine = reset_entity_access w.engine;
}

abbrev util_remove_name : List ℕ
util_remove_name = b'U' ∷ b'T' ∷ b'I' ∷ b'L' ∷ b'_' ∷ b'R' ∷ b'e' ∷ b'm' ∷ b'o' ∷ b'v' ∷ b'e' ∷ []

abbrev maintain_quota_name : List ℕ
maintain_quota_name =
    b'M' ∷ b'a' ∷ b'i' ∷ b'n' ∷ b't' ∷ b'a' ∷ b'i' ∷ b'n' ∷ b'B' ∷ b'o' ∷ b't' ∷ b'Q' ∷ b'u' ∷ b'o'
    ∷ b't' ∷ b'a' ∷ []

abbrev count_voters_name : List ℕ
count_voters_name =
    b'C' ∷ b'o' ∷ b'u' ∷ b'n' ∷ b't' ∷ b'P' ∷ b'o' ∷ b't' ∷ b'e' ∷ b'n' ∷ b't' ∷ b'i' ∷ b'a' ∷ b'l'
    ∷ b'V' ∷ b'o' ∷ b't' ∷ b'e' ∷ b'r' ∷ b's' ∷ []

abbrev pack_entities_name : List ℕ
pack_entities_name =
    b'P' ∷ b'a' ∷ b'c' ∷ b'k' ∷ b'E' ∷ b'n' ∷ b't' ∷ b'i' ∷ b't' ∷ b'i' ∷ b'e' ∷ b's' ∷ []

abbrev join_team_name : List ℕ
join_team_name =
    b'H' ∷ b'a' ∷ b'n' ∷ b'd' ∷ b'l' ∷ b'e' ∷ b'J' ∷ b'o' ∷ b'i' ∷ b'n' ∷ b'T' ∷ b'e' ∷ b'a' ∷ b'm'
    ∷ []

abbrev human_team_name : List ℕ
human_team_name =
    b'H' ∷ b'u' ∷ b'm' ∷ b'a' ∷ b'n' ∷ b'T' ∷ b'e' ∷ b'a' ∷ b'm' ∷ b'R' ∷ b'e' ∷ b's' ∷ b't' ∷ b'r'
    ∷ b'i' ∷ b'c' ∷ b't' ∷ b'i' ∷ b'o' ∷ b'n' ∷ []

abbrev teardown_name : List ℕ
teardown_name =
    b'S' ∷ b'a' ∷ b'm' ∷ b'e' ∷ b'M' ∷ b'a' ∷ b'p' ∷ b'T' ∷ b'e' ∷ b'a' ∷ b'r' ∷ b'd' ∷ b'o' ∷ b'w'
    ∷ b'n' ∷ []

abbrev script_is_bot_name : List ℕ
script_is_bot_name = b'S' ∷ b'c' ∷ b'r' ∷ b'i' ∷ b'p' ∷ b't' ∷ b'I' ∷ b's' ∷ b'B' ∷ b'o' ∷ b't' ∷ []

unfoldable pub publish_signatures : Environment → Bindings → Manager → Manager
publish_signatures env b m =
    let m₁ = publish_signature m util_remove_name (address env.util_remove) in
    let m₂ = publish_signature m₁ maintain_quota_name (address b.quota_hook.target) in
    let m₃ = publish_signature m₂ count_voters_name (address b.voters_hook.target) in
    let m₄ = publish_signature m₃ pack_entities_name (address b.pack_hook.target) in
    let m₅ = publish_signature m₄ join_team_name (address b.join_team_hook.target) in
    let m₆ = publish_signature m₅ human_team_name (address b.human_team_hook.target) in
    let m₇ = publish_signature m₆ teardown_name (address b.end_match_hook.target) in
    publish_signature m₇ script_is_bot_name (address b.script_is_bot_hook.target)

-- The mode that a load ends in.
unfoldable pub choose_mode : Environment → Bool → World → World
choose_mode env bot_mode w =
    let a = attach_game_server_hook env.game_server env.adds w in
    if is_set env.game_server
    then (if a.1 && not bot_mode then record a.0 { identity_mode = IdentityMode.player } else a.0)
    else record w { start_in_player_mode = not bot_mode }

module _ (tables : StringTables) (react : EngineCall → Engine → Engine) where
  open tables use {State}

  -- The end of `Unload`, once all hooks are removed.
  unfoldable pub tear_down : State × World → State × World
  tear_down (st, w) =
      let unhooked = with_plugin w (record w.plugin { hooked_game_server = none }) in
      let released = release_all (restore_managed_clients react unhooked).0 in
      let processed = process_avatars tables (st, released) in
      let r = reset_avatars processed.1 in
      (processed.0, forget (record r { manager = shutdown r.manager r.clock }))

  unfoldable pub unload : Bool → State × Plugin → State × Plugin × Bool
  unload khook_export (st, p) =
      let w = record p.world { manager = begin_shutdown p.world.manager } in
      let detours = remove w.detours.hook_depth p.bindings in
      let virtual = remove_virtual_hooks khook_export w in
      let down = tear_down (st, virtual.0) in
      if p.world.plugin.is_loaded
      then (st, p, false)
      else if not detours.1
      then (st, record p { world = w }, false)
      else if not virtual.1
      then (st, record { world = virtual.0; bindings = detours.0 }, false)
      else (down.0, record { world = down.1; bindings = detours.0 }, true)

  -- From the virtual hooks on.
  unfoldable pub finish_load : Environment → Bool → State × Plugin → State × Plugin × Bool
  finish_load env bot_mode (st, p) =
      let installed = install_virtual_hooks env.adds_virtual env.khook_export p.world in
      let rolled_back = unload env.khook_export (st, record p { world = installed.0 }) in
      let chosen = choose_mode env bot_mode installed.0 in
      let adopted = if env.late then adopt_existing_bots react chosen else chosen in
      let loaded = with_plugin adopted (record adopted.plugin { is_loaded = true }) in
      if not installed.1
      then (rolled_back.0, rolled_back.1, false)
      else (st, record p { world = loaded }, true)

  module _ (json : Json) where
    -- From the manager's start on.
    unfoldable pub start : Environment → Bool → State × Plugin → State × Plugin × Bool
    start env bot_mode (st, p) =
        let w = p.world in
        finish_load env bot_mode (
          st,
          record p {
            world = record w {
              manager = publish_signatures env p.bindings (init w.manager env.thread w.clock);
              info = (load json env.seed env.bot_info).0;
            };
          },
        )

    -- From the detours on.
    unfoldable pub install : Environment → Bool → State × Plugin → State × Plugin × Bool
    install env bot_mode (st, p) =
        let bindings =
          install_prepared env.installs (is_set env.util_remove)
            (prepare_all env.resolve env.engine_code env.team_reset_offset p.bindings) in
        let w = record p.world { engine = resolved env p.world.engine } in
        if not bot_mode
          && not (
              can_enable_disguise bindings (is_set env.util_remove) env.entity_system
                env.pawn_handle_offset)
        then (
          st,
          record { world = forget w; bindings = (remove w.detours.hook_depth bindings).0 },
          false,
        )
        else start env bot_mode (st, record { world = w; bindings = bindings })

    unfoldable pub load_plugin : Environment → State × Plugin → State × Plugin × Bool
    load_plugin env (st, p) =
        let reset = record p.world {
          identity_mode = IdentityMode.bot;
          start_in_player_mode = false;
        } in
        let settings = load_settings json env.config in
        let configured = configure env settings (with_schema env reset) in
        let prepared =
          env.interfaces_ready && (env.log_ready && (env.khook_export && env.schema_ready)) in
        if not prepared
        then (st, record p { world = reset }, false)
        else if not env.gamedata_ready
        then (st, record p { world = forget configured }, false)
        else install env settings.bot_mode (st, record p { world = configured })
