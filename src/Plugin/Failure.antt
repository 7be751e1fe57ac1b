-- ===== src/Plugin/Failure.antt =====
-- What a load that fails leaves behind.
use cs2_bot_hider.Base.{
  ℕ, ◌≡◌, refl, ap, ◌∙◌, Bool, true, false, ◌&&◌, not, none, arith, Bool-cases, Option-cases, inl,
  inr, if_both, if_split, each_slot_kept,
}
use cs2_bot_hider.Base.Int.{pos}
use cs2_bot_hider.Snapshot.{max_slots}
use cs2_bot_hider.Engine.{Engine, EngineCall, resolve_client_by_slot}
use cs2_bot_hider.Manager.{is_managed, begin_shutdown}
use cs2_bot_hider.World.{World, is_disguise_enabled, release_all}
use cs2_bot_hider.Avatar.{StringTables}
use cs2_bot_hider.BotInfo.Load.{Json}
use cs2_bot_hider.Config.{load_settings}
use cs2_bot_hider.Runtime.{restore_slot, restore_managed_clients}
use cs2_bot_hider.Commands.Dispatch.{process_avatars}
use cs2_bot_hider.Detours.Still.{still}
use cs2_bot_hider.Detours.Install.{
  Bindings, remove, clear_bindings, install_prepared, prepare_all, can_enable_disguise,
}
use cs2_bot_hider.Plugin.{reset_avatars, remove_virtual_hooks, install_virtual_hooks}
use cs2_bot_hider.Plugin.Load.{
  Environment, Plugin, is_set, tear_down, forget, unload, finish_load, start, install, load_plugin,
}

-- No detour is installed.
pub record AreInactive (b : Bindings) : Type 0 where
  pub quota : b.quota_hook.active ≡ false
  pub voters : b.voters_hook.active ≡ false
  pub join_team : b.join_team_hook.active ≡ false
  pub human_team : b.human_team_hook.active ≡ false
  pub pack : b.pack_hook.active ≡ false
  pub end_match : b.end_match_hook.active ≡ false
  pub script_is_bot : b.script_is_bot_hook.active ≡ false

-- The plugin is not loaded, the mode is not one that disguises bots, and no callback is open. What
-- the clients' flags are is not said here.
pub record IsIdle (w : World) : Type 0 where
  pub unloaded : w.plugin.is_loaded ≡ false
  pub mode_off : is_disguise_enabled w ≡ false
  pub closed : w.detours.hook_depth ≡ 0

pub record IsRolledBack (p : Plugin) : Type 0 where
  pub idle : IsIdle p.world
  pub inactive : AreInactive p.bindings

remove-AreInactive :
    (depth : ℕ) (b : Bindings)
    → depth ≡ 0
    → AreInactive (remove depth b).0 × ((remove depth b).1 ≡ true)
unfolding remove clear_bindings
remove-AreInactive depth b h = rw h (
  record {
    quota = refl;
    voters = refl;
    join_team = refl;
    human_team = refl;
    pack = refl;
    end_match = refl;
    script_is_bot = refl;
  },
  refl,
)

module _ (react : EngineCall → Engine → Engine) where
  restore_slot-still :
      (e : Engine) (slot : ℕ) (r : World × ℕ) → still e (restore_slot react slot r).0 ≡ still e r.0
  unfolding restore_slot
  restore_slot-still e slot (w, n) = elim (Bool-cases (is_managed w.manager slot)) [
    | inr m ↦ rw m refl
    | inl m ↦ elim (Option-cases (resolve_client_by_slot w.engine (pos slot))) [
      | inl h ↦ rw (m, h) refl
      | inr (ptr, h) ↦ rw (m, h) refl
    ]
  ]

  restore-still :
      (w : World) → still w.engine (restore_managed_clients react w).0 ≡ still w.engine w
  unfolding restore_managed_clients
  restore-still w =
      each_slot_kept (λ (r : World × ℕ). still w.engine r.0) (restore_slot react) max_slots (w, 0)
        (restore_slot-still w.engine)

  module _ (tables : StringTables) where
    open tables use {State}

    tear_down-IsIdle :
        (st : State) (w : World) → IsIdle w → IsIdle (tear_down tables react (st, w)).1
    unfolding tear_down process_avatars release_all reset_avatars forget
    tear_down-IsIdle st w idle =
        let unhooked = record w { plugin = record w.plugin { hooked_game_server = none } } in
        let same = restore-still unhooked in
        record {
          unloaded = ap (λ (v : World). v.plugin.is_loaded) same ∙ idle.unloaded;
          mode_off = ap (λ (v : World). is_disguise_enabled v) same ∙ idle.mode_off;
          closed = ap (λ (v : World). v.detours.hook_depth) same ∙ idle.closed;
        }

    -- Rolling back removes every detour.
    unload-IsRolledBack :
        (khook_export : Bool) (st : State) (p : Plugin)
        → IsIdle p.world
        → IsRolledBack (unload tables react khook_export (st, p)).1
    unfolding unload remove_virtual_hooks
    unload-IsRolledBack khook_export st p idle =
        let gone = remove-AreInactive p.world.detours.hook_depth p.bindings idle.closed in
        let w = record p.world { manager = begin_shutdown p.world.manager } in
        let virtual = remove_virtual_hooks khook_export w in
        if_split (λ (r : State × Plugin × Bool). IsRolledBack r.1) p.world.plugin.is_loaded
          (λ h. absurd (cc (h, idle.unloaded)))
          (λ h.
            if_split (λ (r : State × Plugin × Bool). IsRolledBack r.1)
              (not (remove p.world.detours.hook_depth p.bindings).1)
              (λ k. absurd (ground (arith, gone.1)))
              (λ k.
                if_both (λ (r : State × Plugin × Bool). IsRolledBack r.1) (not khook_export)
                  (record {
                    idle = record {
                      unloaded = idle.unloaded;
                      mode_off = idle.mode_off;
                      closed = idle.closed;
                    };
                    inactive = gone.0;
                  })
                  (record {
                    idle = tear_down-IsIdle st virtual.0 (record {
                      unloaded = idle.unloaded;
                      mode_off = idle.mode_off;
                      closed = idle.closed;
                    });
                    inactive = gone.0;
                  })))

    finish_load-IsRolledBack :
        (env : Environment) (bot_mode : Bool) (st : State) (p : Plugin)
        → IsIdle p.world
        → (finish_load tables react env bot_mode (st, p)).2 ≡ false
        → IsRolledBack (finish_load tables react env bot_mode (st, p)).1
    unfolding finish_load install_virtual_hooks remove_virtual_hooks
    finish_load-IsRolledBack env bot_mode st p idle h = elim (Bool-cases env.adds_virtual) [
      | inl a ↦ absurd (cc (rw a at h))
      | inr a ↦ rw a (record {
        idle =
            (unload-IsRolledBack env.khook_export st
              (record p { world = (install_virtual_hooks false env.khook_export p.world).0 })
              (record {
                unloaded = idle.unloaded;
                mode_off = idle.mode_off;
                closed = idle.closed;
              })).idle;
        inactive =
            (unload-IsRolledBack env.khook_export st
              (record p { world = (install_virtual_hooks false env.khook_export p.world).0 })
              (record {
                unloaded = idle.unloaded;
                mode_off = idle.mode_off;
                closed = idle.closed;
              })).inactive;
      })
    ]

    module _ (json : Json) where
      start-IsRolledBack :
          (env : Environment) (bot_mode : Bool) (st : State) (p : Plugin)
          → IsIdle p.world
          → (start tables react json env bot_mode (st, p)).2 ≡ false
          → IsRolledBack (start tables react json env bot_mode (st, p)).1
      unfolding start
      start-IsRolledBack env bot_mode st p idle h =
          finish_load-IsRolledBack env bot_mode st _
            (record { unloaded = idle.unloaded; mode_off = idle.mode_off; closed = idle.closed }) h

      install-IsRolledBack :
          (env : Environment) (bot_mode : Bool) (st : State) (p : Plugin)
          → IsIdle p.world
          → (install tables react json env bot_mode (st, p)).2 ≡ false
          → IsRolledBack (install tables react json env bot_mode (st, p)).1
      unfolding install forget
      install-IsRolledBack env bot_mode st p idle h =
          let bindings =
            install_prepared env.installs (is_set env.util_remove)
              (prepare_all env.resolve env.engine_code env.team_reset_offset p.bindings) in
          if_both (λ (r : State × Plugin × Bool). r.2 ≡ false → IsRolledBack r.1)
            (not bot_mode
              && not (
                  can_enable_disguise bindings (is_set env.util_remove) env.entity_system
                    env.pawn_handle_offset))
            (λ _. record {
              idle = record {
                unloaded = idle.unloaded;
                mode_off = idle.mode_off;
                closed = idle.closed;
              };
              inactive = (remove-AreInactive p.world.detours.hook_depth bindings idle.closed).0;
            })
            (start-IsRolledBack env bot_mode st _
              (record { unloaded = idle.unloaded; mode_off = idle.mode_off; closed = idle.closed }))
            h

      loaded-IsRolledBack :
          (env : Environment) (st : State) (p : Plugin)
          → IsIdle p.world
          → AreInactive p.bindings
          → (load_plugin tables react json env (st, p)).2 ≡ false
          → IsRolledBack (load_plugin tables react json env (st, p)).1
      unfolding load_plugin forget
      loaded-IsRolledBack env st p idle inactive h =
          if_both (λ (r : State × Plugin × Bool). r.2 ≡ false → IsRolledBack r.1)
            (not
              (env.interfaces_ready && (env.log_ready && (env.khook_export && env.schema_ready))))
            (λ _. record {
              idle = record { unloaded = idle.unloaded; mode_off = refl; closed = idle.closed };
              inactive = inactive;
            })
            (if_both (λ (r : State × Plugin × Bool). r.2 ≡ false → IsRolledBack r.1)
              (not env.gamedata_ready)
              (λ _. record {
                idle = record { unloaded = idle.unloaded; mode_off = refl; closed = idle.closed };
                inactive = inactive;
              })
              (install-IsRolledBack env (load_settings json env.config).bot_mode st _
                (record { unloaded = idle.unloaded; mode_off = refl; closed = idle.closed })))
            h

-- A load that fails, at whatever step it fails, leaves no detour installed, the plugin not loaded,
-- the identity mode one that does not disguise bots, and no callback open, provided that all this was
-- so before. It is the mode that is meant, not the flags of the clients.
pub load_plugin-IsRolledBack :
    (react : EngineCall → Engine → Engine) (tables : StringTables) (json : Json) (env : Environment)
    (st : tables.State) (p : Plugin)
    → IsRolledBack p
    → (load_plugin tables react json env (st, p)).2 ≡ false
    → IsRolledBack (load_plugin tables react json env (st, p)).1
load_plugin-IsRolledBack react tables json env st p before h =
    loaded-IsRolledBack react tables json env st p before.idle before.inactive h
