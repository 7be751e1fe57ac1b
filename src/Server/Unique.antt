-- ===== src/Server/Unique.antt =====
-- No two managed slots have one SteamID, in every state that the plugin reaches.
use cs2_bot_hider.Base.{ℕ, ◌<◌, ◌≡◌, ◌≢◌, refl, true, arith, if_both}
use cs2_bot_hider.Base.Int.{ℤ, pos, negsuc}
use cs2_bot_hider.Snapshot.{max_slots}
use cs2_bot_hider.Engine.{Engine, EngineCall}
use cs2_bot_hider.Exports.{bh_attach, bh_detach, bh_set_name_source}
use cs2_bot_hider.Manager.{
  shutdown, begin_shutdown, attach, detach, is_ready, Manager, is_managed, get_synthetic_sid, init,
}
use cs2_bot_hider.World.{World, release_all}
use cs2_bot_hider.World.Identities.{HasUniqueIds, HasUniqueIds-shrink, on_tick-HasUniqueIds}
use cs2_bot_hider.Runtime.{restore_managed_clients}
use cs2_bot_hider.ClientHooks.{Reasons}
use cs2_bot_hider.ClientHooks.Unique.{
  Unique, carry, map-Unique, on_client_connected-Unique, client_put_in_server-Unique,
  client_disconnect-Unique, adopt_existing_bots-Unique,
}
use cs2_bot_hider.Avatar.{StringTables}
use cs2_bot_hider.Commands.Dispatch.{start_change_level_pre}
use cs2_bot_hider.Server.Detours.{
  queue_managed_bot_kick-manager, begin_population_frame-Keeps, end_population_frame-Keeps,
  voters_pre-Keeps, voters_post-Keeps, script_is_bot_pre-Keeps, script_is_bot_post-Keeps,
  pack_pre-Keeps, pack_post-Keeps, dispatch_con_command_pre-Keeps, dispatch_con_command_post-Keeps,
}
use cs2_bot_hider.Server.Frame.{
  restored-manager, drain-Unique, process_avatars-Unique, release-Unique, simulate-Unique,
  on_level_init-Unique, on_level_shutdown-Unique,
}
use cs2_bot_hider.Server.{Step, Reachable}
use cs2_bot_hider.Exports.Unique.{
  bh_set_crosshair-Unique, bh_set_flair-Unique, bh_set_avatar-Unique, bh_set_steam_id-Unique,
  bh_set_name-Unique, bh_set_mode-Unique,
}

-- A fresh manager manages nothing.
init-HasUniqueIds : (m : Manager) (thread now : ℕ) → HasUniqueIds (init m thread now)
unfolding init is_managed
init-HasUniqueIds m thread now i j p q ne mi mj = absurd (ground arith)

shutdown-HasUniqueIds : (m : Manager) (now : ℕ) → HasUniqueIds (shutdown (begin_shutdown m) now)
unfolding shutdown begin_shutdown is_managed
shutdown-HasUniqueIds m now i j p q ne mi mj = absurd (ground arith)

attach-HasUniqueIds : (m : Manager) (thread : ℕ) → HasUniqueIds m → HasUniqueIds (attach m thread).0
unfolding attach is_managed get_synthetic_sid
attach-HasUniqueIds m thread = HasUniqueIds-shrink m (attach m thread).0 (λ j managed. ground arith)

detach-HasUniqueIds : (m : Manager) → HasUniqueIds m → HasUniqueIds (detach m)
unfolding detach is_managed get_synthetic_sid
detach-HasUniqueIds m = HasUniqueIds-shrink m (detach m) (λ j managed. ground arith)

bh_set_name_source-manager :
    (w : World) (thread : ℕ) (value : ℤ) → (bh_set_name_source w thread value).0.manager ≡ w.manager
unfolding bh_set_name_source
bh_set_name_source-manager w thread (pos n) = ground arith
bh_set_name_source-manager w thread (negsuc n) = refl

module _ (react : EngineCall → Engine → Engine) where
  pub Step-Unique :
      (reasons : Reasons) (tables : StringTables) {w w' : World}
      → Step react reasons tables w w'
      → Unique w
      → Unique w'
  unfolding bh_attach bh_detach start_change_level_pre
  Step-Unique reasons tables (Step.connect w slot name network_id fake_player) u =
      on_client_connected-Unique react w slot name network_id fake_player u
  Step-Unique reasons tables (Step.enter w slot name) u =
      client_put_in_server-Unique react w slot name u
  Step-Unique reasons tables (Step.leave w slot reason) u =
      client_disconnect-Unique react reasons w slot reason u
  Step-Unique reasons tables (Step.adopt_existing w) u = adopt_existing_bots-Unique react w u
  Step-Unique reasons tables (Step.tick w) u = map-Unique (on_tick-HasUniqueIds w.manager) u
  Step-Unique reasons tables (Step.clock w now) u = carry refl u
  Step-Unique reasons tables (Step.engine w e) u = carry refl u
  Step-Unique reasons tables (Step.release w) u = release-Unique react w u
  Step-Unique reasons tables (Step.restore w) u = carry (restored-manager react w) u
  Step-Unique reasons tables (Step.drain w) u = drain-Unique react w u
  Step-Unique reasons tables (Step.steam_id w thread slot incarnation id) u =
      bh_set_steam_id-Unique react w thread slot incarnation id u
  Step-Unique reasons tables (Step.name w thread slot incarnation text len) u =
      bh_set_name-Unique react w thread slot incarnation text len u
  Step-Unique reasons tables (Step.mode w can_enable attached thread value) u =
      bh_set_mode-Unique react can_enable attached w thread value u
  Step-Unique reasons tables (Step.avatar w thread slot incarnation bytes len) u =
      bh_set_avatar-Unique w thread slot incarnation bytes len u
  Step-Unique reasons tables (Step.flair w thread slot incarnation value) u =
      bh_set_flair-Unique w thread slot incarnation value u
  Step-Unique reasons tables (Step.crosshair w thread slot incarnation text len) u =
      bh_set_crosshair-Unique w thread slot incarnation text len u
  Step-Unique reasons tables (Step.attach w thread) u =
      map-Unique (attach-HasUniqueIds w.manager thread) u
  Step-Unique reasons tables (Step.detach w thread) u =
      if_both Unique (is_ready w.manager thread) (map-Unique (detach-HasUniqueIds w.manager) u) u
  Step-Unique reasons tables (Step.name_source w thread value) u =
      carry (bh_set_name_source-manager w thread value) u
  Step-Unique reasons tables (Step.queue_kick w has_bot_kick slot) u =
      carry (queue_managed_bot_kick-manager has_bot_kick w slot) u
  Step-Unique reasons tables (Step.take_kicks w) u = carry refl u
  Step-Unique reasons tables (Step.frame w st) u = simulate-Unique react tables st w u
  Step-Unique reasons tables (Step.change_level w st) u =
      process_avatars-Unique react tables st (release_all (restore_managed_clients react w).0) (
        release-Unique react (restore_managed_clients react w).0
          (carry (restored-manager react w) u))
  Step-Unique reasons tables (Step.level_init w can_enable game_server adds) u =
      on_level_init-Unique react can_enable game_server adds w u
  Step-Unique reasons tables (Step.level_shutdown w st) u =
      on_level_shutdown-Unique react tables st w u
  Step-Unique reasons tables (Step.begin_frame w call enabled) u =
      carry (begin_population_frame-Keeps react call enabled w) u
  Step-Unique reasons tables (Step.end_frame w call) u =
      carry (end_population_frame-Keeps react call w) u
  Step-Unique reasons tables (Step.open_voters w) u = carry (voters_pre-Keeps react w) u
  Step-Unique reasons tables (Step.close_voters w) u = carry (voters_post-Keeps react w) u
  Step-Unique reasons tables (Step.open_script w) u = carry (script_is_bot_pre-Keeps react w) u
  Step-Unique reasons tables (Step.close_script w) u = carry (script_is_bot_post-Keeps react w) u
  Step-Unique reasons tables (Step.open_packing w) u = carry (pack_pre-Keeps react w) u
  Step-Unique reasons tables (Step.close_packing w) u = carry (pack_post-Keeps react w) u
  Step-Unique reasons tables (Step.command_pre w has_bot_kick command arguments) u =
      carry (dispatch_con_command_pre-Keeps react has_bot_kick w command arguments) u
  Step-Unique reasons tables (Step.command_post w) u =
      carry (dispatch_con_command_post-Keeps react w) u
  Step-Unique reasons tables (Step.shut_down w now) u = record {
    unique = shutdown-HasUniqueIds w.manager now;
  }

  Reachable-Unique :
      (reasons : Reasons) (tables : StringTables) {w : World}
      → Reachable react reasons tables w
      → Unique w
  Reachable-Unique reasons tables (Reachable.initial w thread now) = record {
    unique = init-HasUniqueIds w.manager thread now;
  }
  Reachable-Unique reasons tables (Reachable.next r s) =
      Step-Unique reasons tables s (Reachable-Unique reasons tables r)

-- In every state that is reached from `Init` by any sequence of hook calls, detours, console commands,
-- level changes, bridge calls and frames, with any change of the engine's memory between them, any
-- reaction to the calls made of it and any string tables, two different managed slots have different
-- SteamIDs.
pub Reachable-ids-differ :
    (react : EngineCall → Engine → Engine) (reasons : Reasons) (tables : StringTables) (w : World)
    (i j : ℕ)
    → Reachable react reasons tables w
    → i < max_slots
    → j < max_slots
    → i ≢ j
    → is_managed w.manager i ≡ true
    → is_managed w.manager j ≡ true
    → get_synthetic_sid w.manager i ≢ get_synthetic_sid w.manager j
Reachable-ids-differ react reasons tables w i j r p q ne mi mj =
    (Reachable-Unique react reasons tables r).unique i j p q ne mi mj
