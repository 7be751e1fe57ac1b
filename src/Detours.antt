-- ===== src/Detours.antt =====
-- src/features/identity/identity_hooks.cpp: the real identities of the bots are put back for a while,
-- and population transactions that share one such scope. A scope's constructor is `capture`, its
-- destructor `restore`.
pub mod State
pub mod Frames
pub mod Install
pub mod Saved
pub mod Skeleton
pub mod Captured
pub mod Restored
pub mod Still
pub mod FlagLaws
pub mod Loops
pub mod RoundTrip
pub mod Calls
use cs2_bot_hider.Base.{
  ℕ, suc, ◌+◌, ◌-◌, Bool, true, false, ◌||◌, ◌&&◌, not, List, [], ◌∷◌, Option, none, some, bit_and,
  bit_or, bit_xor, ◌==◌, if◌then◌else◌, update, each_slot,
}
use cs2_bot_hider.Base.Int.{ℤ, pos, pos_part}
use cs2_bot_hider.Snapshot.{max_slots}
use cs2_bot_hider.Engine.{
  Engine, EngineCall, with_client, with_entity, clear_byte, clear_word, entity_flag_fake_client,
  set_fake_player, resolve_client_by_slot, resolve_entity_instance, is_entity_being_deleted,
  controller_of,
}
use cs2_bot_hider.Manager.{is_managed}
use cs2_bot_hider.Runtime.{client_controller, names, write_entity_flags, apply_managed_disguise}
use cs2_bot_hider.World.{World, is_disguise_enabled}
use cs2_bot_hider.Detours.State.{BotIdentitySnapshot, no_snapshot, Snapshots, Detours}

-- The resolved instance is the captured controller, and is still valid under its handle.
unfoldable pub is_valid_controller : Engine → Option ℕ × List ℕ → ℕ → ℕ → Bool
is_valid_controller e resolved controller handle =
    names (controller_of resolved) controller
    && (not (is_entity_being_deleted e (some controller))
        && ((e.entity controller).handle == handle))

-- Whether the slot's failure has been logged.
abbrev pub warned : World → ℕ → Bool → World
warned w slot value = record w {
  detours = record w.detours {
    identity_resolve_warned = update w.detours.identity_resolve_warned slot value;
  };
}

-- `(flags & ~mask) | (captured & mask)`
abbrev pub restored_byte : ℕ → ℕ → ℕ → ℕ
restored_byte flags captured mask = bit_or (clear_byte flags mask) (bit_and captured mask)

abbrev pub restored_word : ℕ → ℕ → ℕ → ℕ
restored_word flags captured mask = bit_or (clear_word flags mask) (bit_and captured mask)

-- What is captured of a client, before its controller is.
abbrev pub client_snapshot : Engine → ℕ → ℕ → BotIdentitySnapshot
client_snapshot e slot ptr =
    let c = e.client ptr in
    record no_snapshot {
      slot = pos slot;
      client = some ptr;
      user_id = c.user_id;
      connection_flags = c.connection_flags;
      fake_player = c.fake_player;
      connection_flags_mask =
          bit_xor c.connection_flags ((set_fake_player e ptr).client ptr).connection_flags;
    }

-- The client's fields; `e` is the engine, `ptr` the client.
unfoldable pub restore_client : Engine → BotIdentitySnapshot → ℕ → Engine
restore_client e s ptr =
    let c = e.client ptr in
    with_client e ptr (record c {
      connection_flags =
          restored_byte c.connection_flags s.connection_flags s.connection_flags_mask;
      fake_player = if s.fake_player == 1 then c.fake_player else s.fake_player;
    })

module _ (react : EngineCall → Engine → Engine) (mark_network_changes : Bool) where
  -- The write of a controller's flags; the change is notified if the scope wants that.
  abbrev pub write_flags : Engine → ℕ → ℕ → Engine
  write_flags e controller flags =
      if mark_network_changes
      then write_entity_flags react e controller flags
      else with_entity e controller (record (e.entity controller) { flags = flags })

  unfoldable pub capture_controller : World → BotIdentitySnapshot → ℕ → World × BotIdentitySnapshot
  capture_controller w snapshot controller =
      let before = (w.engine.entity controller).flags in
      let after = bit_or before entity_flag_fake_client in
      (
        record w { engine = write_flags w.engine controller after },
        record snapshot {
          controller = some controller;
          handle = (w.engine.entity controller).handle;
          controller_flags = before;
          controller_flags_mask = bit_xor before after;
        },
      )

  unfoldable pub capture_client : World → ℕ → ℕ → World × BotIdentitySnapshot
  capture_client w slot ptr =
      let snapshot = client_snapshot w.engine slot ptr in
      let opened = record w { engine = set_fake_player w.engine ptr } in
      elim (client_controller opened.engine ptr) [
        | none ↦ (warned opened slot true, snapshot)
        | some controller ↦
            if is_entity_being_deleted opened.engine (some controller)
            then (warned opened slot true, snapshot)
            else capture_controller (warned opened slot false) snapshot controller
      ]

  -- The turn of `Capture` for one slot.
  unfoldable pub capture_slot : ℕ → World × Snapshots → World × Snapshots
  capture_slot slot (w, snapshots) =
      if not (is_managed w.manager slot)
      then (w, snapshots)
      else elim (resolve_client_by_slot w.engine (pos slot)) [
        | none ↦
            (warned w slot true, update snapshots slot (record no_snapshot { slot = pos slot }))
        | some ptr ↦
            let captured = capture_client w slot ptr in
            (captured.0, update snapshots slot captured.1)
      ]

  unfoldable pub capture : World → World × Snapshots
  capture w = each_slot capture_slot max_slots (w, λ _. no_snapshot)

  unfoldable pub restore_controller : Engine → BotIdentitySnapshot → ℕ → Option ℕ → Engine
  restore_controller e s ptr none = e
  restore_controller e s ptr (some controller) =
      if not (
        is_valid_controller e (resolve_entity_instance e (e.client ptr).entity_index) controller
          s.handle)
      then e
      else write_flags e controller
          (restored_word (e.entity controller).flags s.controller_flags s.controller_flags_mask)

  -- The turn of `Restore` for one snapshot.
  unfoldable pub restore_snapshot : BotIdentitySnapshot → World → World
  restore_snapshot s w = elim s.client [
    | none ↦ w
    | some ptr ↦
        let e = restore_client w.engine s ptr in
        if not (is_managed w.manager (pos_part s.slot))
        then w
        else if not (names (resolve_client_by_slot w.engine s.slot) ptr)
        then w
        else if not ((w.engine.client ptr).user_id == s.user_id)
        then w
        else record w { engine = restore_controller e s ptr s.controller }
  ]

  unfoldable pub restore : Snapshots → World → World
  restore snapshots w = each_slot (λ slot. restore_snapshot (snapshots slot)) max_slots w

-- Begins and ends of population transactions.
module _ (react : EngineCall → Engine → Engine) where
  abbrev pub with_redisguise : World → Bool → World
  with_redisguise w value = record w {
    detours = record w.detours { population_redisguise = value };
  }

  abbrev pub with_identity : World → Option Snapshots → World
  with_identity w identity = record w {
    detours = record w.detours { population_identity = identity };
  }

  unfoldable pub begin_population_transaction : Bool → World → World
  begin_population_transaction redisguise w =
      let deeper = record w { population_depth = w.population_depth + 1 } in
      let captured = capture react true (with_redisguise deeper redisguise) in
      if w.population_depth == 0
      then with_identity captured.0 (some captured.1)
      else with_redisguise deeper (w.detours.population_redisguise || redisguise)

  -- `g_populationIdentity.reset()`
  unfoldable pub drop_identity : World → World
  drop_identity w = elim w.detours.population_identity [
    | none ↦ w
    | some snapshots ↦ restore react true snapshots (with_identity w none)
  ]

  unfoldable pub end_population_transaction : Bool → World → World
  end_population_transaction redisguise w =
      let apply_disguise = w.detours.population_redisguise || redisguise in
      let shallower =
        with_redisguise (record w { population_depth = w.population_depth - 1 }) apply_disguise in
      let released = drop_identity (with_redisguise shallower false) in
      if w.population_depth == 0
      then w
      else if not (shallower.population_depth == 0)
      then shallower
      else if apply_disguise
      then apply_managed_disguise react released (is_disguise_enabled released)
      else released

abbrev pub population_transaction_active : World → Bool
population_transaction_active w = not (w.population_depth == 0)
