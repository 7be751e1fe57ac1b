-- ===== src/Plugin/Hooked.antt =====
-- The hook of the level change stays on one game server.
use cs2_bot_hider.Base.{
  ℕ, ◌≡◌, refl, sym, ap, subst, Bool, true, false, not, List, [], ◌∷◌, Option, none, some, ◌==◌,
  ==_iff, if_both, Bool-cases, Option-cases, inl, inr, ◌⊎◌,
}
use cs2_bot_hider.Engine.{Engine, EngineCall}
use cs2_bot_hider.World.{World, PluginState, IdentityMode, is_disguise_enabled, release_all}
use cs2_bot_hider.Avatar.{StringTables}
use cs2_bot_hider.Runtime.{clear_pending_controller_removals}
use cs2_bot_hider.Commands.{enter_mode, set_identity_mode, same_mode}
use cs2_bot_hider.Commands.Dispatch.{process_avatars}
use cs2_bot_hider.Detours.Still.{apply_managed_disguise-still}
use cs2_bot_hider.Plugin.{
  detach_game_server_hook, is_hooked, attach_server, attach_plugin, attach_game_server_hook,
  reset_avatars, change_mode, on_level_init, leave_player_mode, on_level_shutdown,
}

-- Only the server that the plugin remembers is hooked.
abbrev pub HasOneHook : PluginState → Type 0
HasOneHook p = (server : ℕ) → (p.level_hooks server ≡ false) ⊎ (p.hooked_game_server ≡ some server)

detach-none :
    (p : PluginState) (server : ℕ)
    → HasOneHook p
    → (detach_game_server_hook p).level_hooks server ≡ false
unfolding detach_game_server_hook
detach-none p server one = elim (Option-cases p.hooked_game_server) [
  | inl h ↦ elim (one server) [ inl k ↦ rw h k | inr k ↦ absurd (cc (h, k)) ]
  | inr (s, h) ↦ elim (one server) [
    | inl k ↦ rw h (if_both (λ (b : Bool). b ≡ false) (s == server) refl k)
    | inr k ↦ let same : s ≡ server = cc (h, k) in rw (h, (==_iff s server).1 same) refl
  ]
]

attach_plugin-HasOneHook :
    (adds : ℕ → Bool) (game_server : Option ℕ) (p : PluginState)
    → HasOneHook p
    → HasOneHook (attach_plugin adds game_server p).0
unfolding attach_plugin attach_server
attach_plugin-HasOneHook adds none p one = λ s. inl (detach-none p s one)
attach_plugin-HasOneHook adds (some server) p one =
    if_both (λ (r : PluginState × Bool). HasOneHook r.0) (is_hooked p.hooked_game_server server) one
      (if_both (λ (r : PluginState × Bool). HasOneHook r.0) (not (adds server))
        (λ s. inl (detach-none p s one))
        (λ s. elim (Bool-cases (server == s)) [
          | inl e ↦ inr (ap some ((==_iff server s).0 e))
          | inr e ↦ inl (rw e (detach-none p s one))
        ]))

module _ (react : EngineCall → Engine → Engine) where
  enter_mode-plugin :
      (w : World) (mode : IdentityMode) → (enter_mode react w mode).0.plugin ≡ w.plugin
  unfolding enter_mode
  enter_mode-plugin w mode =
      let entered = record w { start_in_player_mode = false; identity_mode = mode } in
      if_both (λ (r : World × Bool). r.0.plugin ≡ w.plugin) (same_mode w.identity_mode mode) refl
        (ap (λ (v : World). v.plugin)
          (apply_managed_disguise-still react w.engine entered (is_disguise_enabled entered)))

  set_identity_mode-plugin :
      (can_enable attached : Bool) (w : World) (mode : IdentityMode)
      → (set_identity_mode react can_enable attached w mode).0.plugin ≡ w.plugin
  unfolding set_identity_mode
  set_identity_mode-plugin can_enable attached w IdentityMode.bot =
      enter_mode-plugin w IdentityMode.bot
  set_identity_mode-plugin can_enable attached w IdentityMode.player =
      if_both (λ (r : World × Bool). r.0.plugin ≡ w.plugin) (not can_enable) refl
        (if_both (λ (r : World × Bool). r.0.plugin ≡ w.plugin) (not attached)
          (if_both (λ (v : World). v.plugin ≡ w.plugin) (is_disguise_enabled w)
            (enter_mode-plugin w IdentityMode.bot) refl)
          (enter_mode-plugin w IdentityMode.player))

  change_mode-HasOneHook :
      (can_enable : Bool) (game_server : Option ℕ) (adds : ℕ → Bool) (w : World)
      (mode : IdentityMode)
      → HasOneHook w.plugin
      → HasOneHook (change_mode react can_enable game_server adds w mode).0.plugin
  unfolding change_mode attach_game_server_hook
  change_mode-HasOneHook can_enable game_server adds w IdentityMode.bot one =
      subst HasOneHook (sym (set_identity_mode-plugin can_enable true w IdentityMode.bot)) one
  change_mode-HasOneHook can_enable game_server adds w IdentityMode.player one =
      let attached = attach_game_server_hook game_server adds w in
      if_both (λ (r : World × Bool). HasOneHook r.0.plugin) (not can_enable) one
        (subst HasOneHook
          (sym (set_identity_mode-plugin can_enable attached.1 attached.0 IdentityMode.player))
          (attach_plugin-HasOneHook adds game_server w.plugin one))

  on_level_init-HasOneHook :
      (can_enable : Bool) (game_server : Option ℕ) (adds : ℕ → Bool) (w : World)
      → HasOneHook w.plugin
      → HasOneHook (on_level_init react can_enable game_server adds w).plugin
  unfolding on_level_init attach_game_server_hook reset_avatars clear_pending_controller_removals
  on_level_init-HasOneHook can_enable game_server adds w one =
      let cleared = reset_avatars (clear_pending_controller_removals w) in
      let attached = attach_game_server_hook game_server adds cleared in
      let held : HasOneHook attached.0.plugin =
        attach_plugin-HasOneHook adds game_server w.plugin one in
      if_both (λ (v : World). HasOneHook v.plugin) (not attached.1)
        (change_mode-HasOneHook can_enable game_server adds attached.0 IdentityMode.bot held)
        (if_both (λ (v : World). HasOneHook v.plugin) attached.0.start_in_player_mode
          (change_mode-HasOneHook can_enable game_server adds attached.0 IdentityMode.player held)
          held)

-- What the levels and the mode's changes do, in any order; the answers are those of the detours, of
-- the network server and of the hook library at that time.
pub data LevelEvent : Type 0 where
  begin : Bool → Option ℕ → (ℕ → Bool) → LevelEvent
  finish : LevelEvent
  set_mode : Bool → Option ℕ → (ℕ → Bool) → IdentityMode → LevelEvent

module _ (tables : StringTables) (react : EngineCall → Engine → Engine) where
  open tables use {State}

  abbrev pub run_event : LevelEvent → State × World → State × World
  run_event (LevelEvent.begin can_enable game_server adds) (st, w) =
      (st, on_level_init react can_enable game_server adds w)
  run_event LevelEvent.finish (st, w) = on_level_shutdown tables (st, w)
  run_event (LevelEvent.set_mode can_enable game_server adds mode) (st, w) =
      (st, (change_mode react can_enable game_server adds w mode).0)

  abbrev pub run_events : List LevelEvent → State × World → State × World
  run_events [] r = r
  run_events (event ∷ events) r = run_events events (run_event event r)

  on_level_shutdown-none :
      (st : State) (w : World) (server : ℕ)
      → HasOneHook w.plugin
      → (on_level_shutdown tables (st, w)).1.plugin.level_hooks server ≡ false
  unfolding on_level_shutdown leave_player_mode process_avatars reset_avatars release_all
  on_level_shutdown-none st w server one =
      if_both (λ (v : World). v.plugin.level_hooks server ≡ false) (is_disguise_enabled w)
        (detach-none w.plugin server one) (detach-none w.plugin server one)

  run_event-HasOneHook :
      (event : LevelEvent) (r : State × World)
      → HasOneHook r.1.plugin
      → HasOneHook (run_event event r).1.plugin
  run_event-HasOneHook (LevelEvent.begin can_enable game_server adds) (st, w) one =
      on_level_init-HasOneHook react can_enable game_server adds w one
  run_event-HasOneHook LevelEvent.finish (st, w) one = λ s. inl (on_level_shutdown-none st w s one)
  run_event-HasOneHook (LevelEvent.set_mode can_enable game_server adds mode) (st, w) one =
      change_mode-HasOneHook react can_enable game_server adds w mode one

  run_events_kept :
      (events : List LevelEvent) (r : State × World)
      → HasOneHook r.1.plugin
      → HasOneHook (run_events events r).1.plugin
  run_events_kept [] r one = one
  run_events_kept (event ∷ events) r one =
      run_events_kept events (run_event event r) (run_event-HasOneHook event r one)

-- Through every sequence of level begins, level ends and changes of the mode, whatever game server
-- there is each time and whether or not the hook can be added, the hook of the level change is on no
-- server but the one that the plugin remembers, if that was so before; and a level's end removes it
-- from every server.
pub run_events-HasOneHook :
    (tables : StringTables) (react : EngineCall → Engine → Engine) (events : List LevelEvent)
    (st : tables.State) (w : World) (server : ℕ)
    → HasOneHook w.plugin
    → (let r = run_events tables react events (st, w) in
        ((r.1.plugin.level_hooks server ≡ false) ⊎ (r.1.plugin.hooked_game_server ≡ some server))
        × ((on_level_shutdown tables r).1.plugin.level_hooks server ≡ false))
run_events-HasOneHook tables react events st w server one =
    let held = run_events_kept tables react events (st, w) one in
    (held server, on_level_shutdown-none tables react _ _ server held)
