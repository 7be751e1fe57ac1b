-- ===== src/ClientHooks.antt =====
-- src/features/identity/client_hooks.cpp: what the plugin does when a client connects, enters the
-- server or leaves it. The reasons of a disconnect are the protocol's numbers, `Reasons`.
pub mod Unique
pub mod Outcome
use cs2_bot_hider.Base.{
  ℕ, zero, suc, Bool, true, false, ◌||◌, ◌&&◌, not, List, [], ◌∷◌, Option, none, some, ltb, leb,
  ◌==◌, if◌then◌else◌, get_elem?,
}
use cs2_bot_hider.Base.Int.{ℤ, pos, pos_part, ltb_ℤ, leb_ℤ}
use cs2_bot_hider.Snapshot.{max_slots}
use cs2_bot_hider.BotInfo.{BotEntry, BotInfoStore, pick_for_bot, is_empty}
use cs2_bot_hider.Engine.{
  Engine, EngineCall, clear_fake_player, set_fake_player, write_steam_id, is_hltv,
  is_fake_player_set, read_name, resolve_client_by_slot, refresh_client_user_info, set_engine_name,
}
use cs2_bot_hider.Manager.{
  Manager, Persona, is_managed, get_synthetic_sid, get_slot_name, set_slot_name, adopt_slot,
}
use cs2_bot_hider.World.{World, release_slot, bind_slot, is_disguise_enabled, or_empty}
use cs2_bot_hider.Runtime.{
  SteamIdAvailability, collect_occupied_steam_ids, check_steam_id_availability, is_hltv_connection,
  set_controller_fake_client_flag, queue_controller_removal, release_managed_hltv_slot,
}
use cs2_bot_hider.Base.{each_slot}

pub record Reasons : Type 0 where
  pub kicked : ℕ
  pub ban_added : ℕ
  pub kick_ban_added : ℕ
  pub kicked_team_killing : ℕ
  pub kicked_insecure_client : ℕ

unfoldable pub is_targeted_client_removal_reason : Reasons → ℕ → Bool
is_targeted_client_removal_reason r reason =
    if reason == r.kicked || (reason == r.ban_added || reason == r.kick_ban_added)
    then true
    else leb r.kicked_team_killing reason && leb reason r.kicked_insecure_client

-- `index < 0 || index >= kMaxSlots`
abbrev pub out_of_slots : ℤ → Bool
out_of_slots slot = ltb_ℤ slot (pos 0) || leb_ℤ (pos max_slots) slot

-- A null or an empty C string.
abbrev pub no_text : Option (List ℕ) → Bool
no_text none = true
no_text (some s) = is_empty s

abbrev pub is_transaction_active : World → Bool
is_transaction_active w = not (w.population_depth == 0)

-- The name that an adopted bot gets.
abbrev pub display_name : Bool → Option (List ℕ) → BotEntry → Option (List ℕ)
display_name use_bot_info name entry =
    if use_bot_info || no_text name then some entry.name else name

abbrev pub persona_of : Bool → Option (List ℕ) → BotEntry → Persona
persona_of use_bot_info name entry = record {
  name = display_name use_bot_info name entry;
  steam_id64 = entry.steam_id64;
  crosshair_code = some entry.crosshair_code;
  scoreboard_flair = entry.scoreboard_flair;
  clan_tag = some entry.clan_tag.tag;
  clan_group_id = entry.clan_tag.group_id;
}

module _ (react : EngineCall → Engine → Engine) where
  -- The engine part that adoption and server entry share.
  abbrev pub disguise_client : World → ℕ → ℕ → Engine → Engine
  disguise_client w index ptr e =
      if is_disguise_enabled w
      then (set_controller_fake_client_flag react (clear_fake_player e ptr) index
          (is_transaction_active w)).0
      else e

  -- `AdoptClient` from the picked entry on.
  unfoldable pub adopt_entry : World → ℕ → ℕ → Option (List ℕ) → ℕ → BotEntry → World
  adopt_entry w index ptr name i entry =
      let adopted = record w {
        manager = adopt_slot w.manager w.clock index (persona_of w.use_bot_info_name name entry);
      } in
      let bound = bind_slot adopted index (some i) name in
      record bound {
        engine = disguise_client bound index ptr (write_steam_id bound.engine ptr entry.steam_id64);
      }

  -- What `AdoptClient` does with the result of `PickForBot`. The picked index names an entry of
  -- the store (`BotInfo.Pick`), so the inner `none` is not met.
  unfoldable pub adopt_picked :
      World → ℕ → ℕ → Option (List ℕ) → BotInfoStore × Option ℕ → World × Bool
  unfolding adopt_entry
  adopt_picked w index ptr name (info, none) = (record w { info = info }, false)
  adopt_picked w index ptr name (info, some i) = elim (get_elem? info.entries i) [
    | none ↦ (record w { info = info }, false)
    | some entry ↦ (adopt_entry (record w { info = info }) index ptr name i entry, true)
  ]

  unfoldable pub adopt_client : World → ℕ → ℕ → Option (List ℕ) → World × Bool
  unfolding adopt_picked
  adopt_client w index ptr name = elim (collect_occupied_steam_ids w (pos index)) [
    | none ↦ (w, false)
    | some occupied ↦ adopt_picked w index ptr name (pick_for_bot w.info name occupied)
  ]

  unfoldable pub apply_client_name : World → ℕ → ℕ → List ℕ → World × Bool
  apply_client_name w slot ptr name =
      let named = set_engine_name react w.engine ptr name in
      let applied = not (no_text named.1) in
      let engine = if applied then named.0 else (refresh_client_user_info react named.0 slot).0 in
      let shown = if applied then named.1 else read_name named.0 ptr in
      (record w { engine = engine; manager = set_slot_name w.manager slot shown }, applied)

  unfoldable pub on_client_connected : World → ℤ → Option (List ℕ) → Option (List ℕ) → Bool → World
  unfolding adopt_client
  on_client_connected w slot name network_id fake_player =
      let index = pos_part slot in
      if not fake_player || is_hltv_connection name network_id
      then w
      else if out_of_slots slot || is_managed w.manager index
      then w
      else elim (resolve_client_by_slot w.engine slot) [
        | none ↦ w
        | some ptr ↦ if is_hltv w.engine ptr then w else (adopt_client w index ptr name).0
      ]

  -- The turn of `AdoptExistingBots` for one slot.
  unfoldable pub adopt_existing_slot : ℕ → World → World
  unfolding adopt_client apply_client_name
  adopt_existing_slot slot w = elim (resolve_client_by_slot w.engine (pos slot)) [
    | none ↦ w
    | some ptr ↦
        let name = read_name w.engine ptr in
        let adoption = adopt_client w slot ptr name in
        let visible = get_slot_name adoption.0.manager slot in
        if not (is_fake_player_set w.engine ptr) || is_hltv w.engine ptr
        then w
        else if is_hltv_connection name none
        then w
        else if adoption.1
        then (apply_client_name adoption.0 slot ptr visible).0
        else adoption.0
  ]

  unfoldable pub adopt_existing_bots : World → World
  unfolding adopt_existing_slot
  adopt_existing_bots w = each_slot adopt_existing_slot max_slots w

  -- The managed slot loses its identity, and the client becomes a plain bot.
  unfoldable pub surrender_slot : World → ℕ → ℕ → World
  surrender_slot w index ptr =
      let e₁ = set_fake_player w.engine ptr in
      let e₂ = (set_controller_fake_client_flag react e₁ index true).0 in
      record w { engine = write_steam_id e₂ ptr 0 }

  -- The rest of `HookClientPutInServerPost`, once the SteamID is available.
  unfoldable pub present_client : World → ℕ → ℕ → Option (List ℕ) → ℕ → World
  unfolding apply_client_name
  present_client w index ptr name steam_id =
      let written = record w {
        engine = write_steam_id (disguise_client w index ptr w.engine) ptr steam_id;
      } in
      let stored = get_slot_name written.manager index in
      let visible = if is_empty stored then or_empty name else stored in
      if is_empty visible
      then record written { engine = (refresh_client_user_info react written.engine index).0 }
      else (apply_client_name written index ptr visible).0

  -- The rest of `HookClientPutInServerPost` for a managed slot whose client is no SourceTV.
  unfoldable pub check_and_present : World → ℤ → ℕ → Option (List ℕ) → World
  unfolding surrender_slot present_client
  check_and_present w slot ptr name =
      let index = pos_part slot in
      let desired = get_synthetic_sid w.manager index in
      let given_up = surrender_slot w index ptr in
      let refreshed = record given_up {
        engine = (refresh_client_user_info react given_up.engine index).0;
      } in
      elim (check_steam_id_availability w slot desired) [
        | SteamIdAvailability.available ↦ present_client w index ptr name desired
        | SteamIdAvailability.in_use ↦ release_slot refreshed index
        | SteamIdAvailability.check_failed ↦ release_slot refreshed index
      ]

  unfoldable pub client_put_in_server : World → ℤ → Option (List ℕ) → World
  unfolding check_and_present
  client_put_in_server w slot name =
      if out_of_slots slot || not (is_managed w.manager (pos_part slot))
      then w
      else elim (resolve_client_by_slot w.engine slot) [
        | none ↦ w
        | some ptr ↦
            let release = release_managed_hltv_slot react w slot (some ptr) in
            if release.1 then release.0 else check_and_present release.0 slot ptr name
      ]

  unfoldable pub client_disconnect : Reasons → World → ℤ → ℕ → World
  unfolding surrender_slot
  client_disconnect reasons w slot reason =
      let index = pos_part slot in
      if out_of_slots slot || not (is_managed w.manager index)
      then w
      else elim (resolve_client_by_slot w.engine slot) [
        | none ↦ release_slot w index
        | some ptr ↦
            let given_up = surrender_slot w index ptr in
            release_slot
              (if is_targeted_client_removal_reason reasons reason
                then (queue_controller_removal given_up (some ptr) index).0
                else given_up)
              index
      ]
