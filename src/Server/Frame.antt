-- ===== src/Server/Frame.antt =====
-- The frame and the levels keep the SteamIDs of the managed slots distinct.
use cs2_bot_hider.Base.{
  ℕ, zero, suc, ◌≡◌, refl, ◌∙◌, Bool, true, Option, some, arith, Option-cases, inl, ◌+◌, ◌%◌, ◌==◌,
  not, bit_and, each_slot_kept, sym, ap, inr, if_both, Bool-cases,
}
use cs2_bot_hider.Base.Int.{pos}
use cs2_bot_hider.Snapshot.{max_slots}
use cs2_bot_hider.Engine.{Engine, EngineCall, resolve_client_by_slot}
use cs2_bot_hider.Manager.{is_managed, get_synthetic_sid, on_tick}
use cs2_bot_hider.World.{World, IdentityMode, release_all, is_disguise_enabled}
use cs2_bot_hider.World.Identities.{
  HasUniqueIds-shrink, release_all-HasUniqueIds, on_tick-HasUniqueIds,
}
use cs2_bot_hider.Runtime.{
  clear_pending_controller_removals, restore_slot, restore_managed_clients,
  drain_pending_controller_removals,
}
use cs2_bot_hider.Base.{each_slot}
use cs2_bot_hider.ClientHooks.Unique.{Unique, carry, map-Unique, release_managed_hltv_slot-Unique}
use cs2_bot_hider.Avatar.{StringTables, reset_runtime}
use cs2_bot_hider.Avatar.Identities.{
  identities, process_overrides-identities, unpublish_all-identities,
}
use cs2_bot_hider.Commands.Dispatch.{
  process_avatars, reset_idle_timer, count_tick, release_hltv, simulate,
}
use cs2_bot_hider.Plugin.{
  reset_avatars, change_mode, attach_game_server_hook, on_level_init, on_level_shutdown,
  leave_player_mode,
}
use cs2_bot_hider.Commands.Unique.{set_identity_mode-Unique}

module _ (react : EngineCall → Engine → Engine) where
  restore_slot-manager :
      (slot : ℕ) (r : World × ℕ) → (restore_slot react slot r).0.manager ≡ r.0.manager
  unfolding restore_slot
  restore_slot-manager slot (w, restored) =
      elim (Option-cases (resolve_client_by_slot w.engine (pos slot))) [
        | inl e ↦ rw e (ground arith)
        | inr (ptr, e) ↦ rw e (ground arith)
      ]

  restore_slots-manager :
      (n : ℕ) (r : World × ℕ) → (each_slot (restore_slot react) n r).0.manager ≡ r.0.manager
  restore_slots-manager zero r = refl
  restore_slots-manager (suc n) r =
      restore_slot-manager n (each_slot (restore_slot react) n r) ∙ restore_slots-manager n r

  -- Nothing that the avatars do changes which SteamIDs are taken.
  same_identities :
      {w w' : World} → identities w'.manager ≡ identities w.manager → Unique w → Unique w'
  unfolding is_managed get_synthetic_sid
  same_identities {w} {w'} same u =
      map-Unique
        (HasUniqueIds-shrink w.manager w'.manager (λ j managed. (
          sym (ap (λ (f : ℕ → Bool × ℕ). (f j).0) same) ∙ managed,
          ap (λ (f : ℕ → Bool × ℕ). (f j).1) same,
        )))
        u

  pub process_avatars-Unique :
      (tables : StringTables) (st : tables.State) (w : World)
      → Unique w
      → Unique (process_avatars tables (st, w)).1
  unfolding process_avatars
  process_avatars-Unique tables st w u =
      same_identities (process_overrides-identities tables w.clock st w.avatars w.manager) u

  reset_avatars-Unique : (w : World) → Unique w → Unique (reset_avatars w)
  unfolding reset_avatars reset_runtime
  reset_avatars-Unique w u = same_identities (unpublish_all-identities w.manager) u

  pub restored-manager : (w : World) → (restore_managed_clients react w).0.manager ≡ w.manager
  unfolding restore_managed_clients
  restored-manager w = restore_slots-manager max_slots (w, 0)

  reset_idle_timer-manager : (slot : ℕ) (w : World) → (reset_idle_timer slot w).manager ≡ w.manager
  unfolding reset_idle_timer
  reset_idle_timer-manager slot w = elim (Bool-cases (is_managed w.manager slot)) [
    | inr m ↦ rw m refl
    | inl m ↦ elim (Option-cases (resolve_client_by_slot w.engine (pos slot))) [
      | inl e ↦ rw (m, e) refl
      | inr (ptr, e) ↦ rw (m, e) refl
    ]
  ]

  count_tick-manager : (w : World) → (count_tick w).manager ≡ w.manager
  unfolding count_tick
  count_tick-manager w =
      let counter = (w.plugin.tick_counter + 1) % 0x1_0000_0000 in
      let counted = record w { plugin = record w.plugin { tick_counter = counter } } in
      if_both (λ (v : World). v.manager ≡ w.manager) (bit_and counter 63 == 0)
        (each_slot_kept (λ (v : World). v.manager) reset_idle_timer max_slots counted
          reset_idle_timer-manager)
        refl

  release_hltv-Unique : (slot : ℕ) (w : World) → Unique w → Unique (release_hltv react slot w)
  unfolding release_hltv
  release_hltv-Unique slot w u = elim (Bool-cases (is_managed w.manager slot)) [
    | inr m ↦ rw m u
    | inl m ↦ elim (Option-cases (resolve_client_by_slot w.engine (pos slot))) [
      | inl e ↦ rw (m, e) u
      | inr (ptr, e) ↦ rw (m, e) (release_managed_hltv_slot-Unique react w (pos slot) (some ptr) u)
    ]
  ]

  release_hltvs-Unique :
      (n : ℕ) (w : World) → Unique w → Unique (each_slot (release_hltv react) n w)
  release_hltvs-Unique zero w u = u
  release_hltvs-Unique (suc n) w u = release_hltv-Unique n _ (release_hltvs-Unique n w u)

  pub drain-Unique : (w : World) → Unique w → Unique (drain_pending_controller_removals react w)
  unfolding drain_pending_controller_removals
  drain-Unique w u = if_both Unique _ (carry refl u) (carry refl u)

  pub release-Unique : (w : World) → Unique w → Unique (release_all w)
  unfolding release_all
  release-Unique w u = map-Unique (release_all-HasUniqueIds w.manager) u

  pub simulate-Unique :
      (tables : StringTables) (st : tables.State) (w : World)
      → Unique w
      → Unique (simulate tables react (st, w)).1
  unfolding simulate
  simulate-Unique tables st w u =
      let released =
        each_slot (release_hltv react) max_slots (drain_pending_controller_removals react w) in
      let held : Unique released = release_hltvs-Unique max_slots _ (drain-Unique w u) in
      let ticked = record released { manager = on_tick released.manager } in
      process_avatars-Unique tables st (count_tick ticked) (
        carry (count_tick-manager ticked)
          (map-Unique {w = released} {w' = ticked} (on_tick-HasUniqueIds released.manager) held))

  change_mode-Unique :
      (can_enable : Bool) (game_server : Option ℕ) (adds : ℕ → Bool) (w : World)
      (mode : IdentityMode)
      → Unique w
      → Unique (change_mode react can_enable game_server adds w mode).0
  unfolding change_mode attach_game_server_hook
  change_mode-Unique can_enable game_server adds w IdentityMode.bot u =
      set_identity_mode-Unique react can_enable true w IdentityMode.bot u
  change_mode-Unique can_enable game_server adds w IdentityMode.player u =
      let attached = attach_game_server_hook game_server adds w in
      if_both (λ (r : World × Bool). Unique r.0) (not can_enable) u
        (set_identity_mode-Unique react can_enable attached.1 attached.0 IdentityMode.player
          (carry refl u))

  pub on_level_init-Unique :
      (can_enable : Bool) (game_server : Option ℕ) (adds : ℕ → Bool) (w : World)
      → Unique w
      → Unique (on_level_init react can_enable game_server adds w)
  unfolding on_level_init attach_game_server_hook clear_pending_controller_removals
  on_level_init-Unique can_enable game_server adds w u =
      let cleared = reset_avatars (clear_pending_controller_removals w) in
      let attached = attach_game_server_hook game_server adds cleared in
      let kept : Unique attached.0 =
        carry refl (reset_avatars-Unique (clear_pending_controller_removals w) (carry refl u)) in
      if_both Unique (not attached.1)
        (change_mode-Unique can_enable game_server adds attached.0 IdentityMode.bot kept)
        (if_both Unique attached.0.start_in_player_mode
          (change_mode-Unique can_enable game_server adds attached.0 IdentityMode.player kept) kept)

  pub on_level_shutdown-Unique :
      (tables : StringTables) (st : tables.State) (w : World)
      → Unique w
      → Unique (on_level_shutdown tables (st, w)).1
  unfolding on_level_shutdown leave_player_mode
  on_level_shutdown-Unique tables st w u =
      let processed = process_avatars tables (st, release_all w) in
      let reset = reset_avatars processed.1 in
      let held : Unique reset =
        reset_avatars-Unique processed.1
          (process_avatars-Unique tables st (release_all w) (release-Unique w u)) in
      if_both Unique (is_disguise_enabled reset) (carry refl held) (carry refl held)
