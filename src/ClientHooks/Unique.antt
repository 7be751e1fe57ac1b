-- ===== src/ClientHooks/Unique.antt =====
-- No two managed slots ever have one SteamID, whatever the hooks and the bridge are called with.
use cs2_bot_hider.Base.{
  ℕ, zero, suc, ◌<◌, ◌≡◌, ◌≢◌, refl, ap, sym, subst, ◌∙◌, Bool, true, not, ◌||◌, List, Option, none,
  some, arith, if_both, Option-cases, inl, inr, get_elem?,
}
use cs2_bot_hider.Base.Int.{ℤ, pos, pos_part}
use cs2_bot_hider.Snapshot.{max_slots}
use cs2_bot_hider.BotInfo.{BotEntry, BotInfoStore, contains, pick_for_bot}
use cs2_bot_hider.BotInfo.Pick.{pick_for_bot-IsAvailable}
use cs2_bot_hider.Engine.{
  Engine, EngineCall, is_hltv, is_fake_player_set, read_name, resolve_client_by_slot,
}
use cs2_bot_hider.Manager.{is_managed, get_synthetic_sid, adopt_slot}
use cs2_bot_hider.Manager.Slots.{adopt_slot-ne}
use cs2_bot_hider.World.{World, release_slot, bind_slot}
use cs2_bot_hider.World.Identities.{
  HasUniqueIds, HasUniqueIds-claim, get_synthetic_sid-adopt_slot, release_slot-HasUniqueIds,
  set_slot_name-HasUniqueIds,
}
use cs2_bot_hider.Runtime.{
  SteamIdAvailability, collect_occupied_steam_ids, check_steam_id_availability,
  release_managed_hltv_slot, queue_controller_removal, is_hltv_connection,
}
use cs2_bot_hider.Base.{each_slot}
use cs2_bot_hider.Runtime.Occupied.{collect_occupied_steam_ids-contains}
use cs2_bot_hider.ClientHooks.{
  Reasons, persona_of, adopt_entry, adopt_picked, adopt_client, apply_client_name,
  on_client_connected, present_client, check_and_present, client_put_in_server, client_disconnect,
  out_of_slots, adopt_existing_slot, adopt_existing_bots, surrender_slot,
}

pub record Unique (w : World) : Type 0 where
  pub unique : HasUniqueIds w.manager

-- Only the manager matters.
pub carry : {w w' : World} → w'.manager ≡ w.manager → Unique w → Unique w'
carry e u = record { unique = subst HasUniqueIds (sym e) u.unique }

pub map-Unique :
    {w w' : World} → (HasUniqueIds w.manager → HasUniqueIds w'.manager) → Unique w → Unique w'
map-Unique f u = record { unique = f u.unique }

queue_controller_removal-Unique :
    (w : World) (ptr : Option ℕ) (slot : ℕ)
    → Unique w
    → Unique (queue_controller_removal w ptr slot).0
queue_controller_removal-Unique w ptr slot u = carry (same w ptr slot) u
  where
    same :
        (w : World) (ptr : Option ℕ) (slot : ℕ)
        → (queue_controller_removal w ptr slot).0.manager ≡ w.manager
    same w none slot = unfold queue_controller_removal in refl
    same w (some ptr) slot = unfold queue_controller_removal in ground arith

module _ (react : EngineCall → Engine → Engine) where
  adopt_entry-Unique :
      (w : World) (index ptr : ℕ) (name : Option (List ℕ)) (i : ℕ) (entry : BotEntry)
      → ((j : ℕ)
          → j < max_slots
          → j ≢ index
          → is_managed w.manager j ≡ true
          → get_synthetic_sid w.manager j ≢ entry.steam_id64)
      → Unique w
      → Unique (adopt_entry react w index ptr name i entry)
  unfolding adopt_entry bind_slot
  adopt_entry-Unique w index ptr name i entry fresh u =
      let p = persona_of w.use_bot_info_name name entry in
      map-Unique
        (HasUniqueIds-claim w.manager (adopt_slot w.manager w.clock index p) index
          (λ j ne. adopt_slot-ne w.manager w.clock index j p ne)
          (λ j h ne m same.
            fresh j h ne m (same ∙ get_synthetic_sid-adopt_slot w.manager w.clock index p)))
        u

  -- Adoption takes a SteamID that is in use nowhere.
  pub adopt_client-Unique :
      (w : World) (index ptr : ℕ) (name : Option (List ℕ))
      → Unique w
      → Unique (adopt_client react w index ptr name).0
  unfolding adopt_client adopt_picked
  adopt_client-Unique w index ptr name u =
      elim (Option-cases (collect_occupied_steam_ids w (pos index))) [
        | inl e ↦ rw (e, adopt_client) u
        | inr (occupied, e) ↦
            rw (e, adopt_client) (picked occupied e (pick_for_bot w.info name occupied) refl)
      ]
    where
      picked :
          (occupied : List ℕ)
          → collect_occupied_steam_ids w (pos index) ≡ some occupied
          → (r : BotInfoStore × Option ℕ) → pick_for_bot w.info name occupied ≡ r
          → Unique (adopt_picked react w index ptr name r).0
      picked occupied e (info, none) found = carry refl u
      picked occupied e (info, some i) found =
          let ((entry, a), same_entries, _) =
            pick_for_bot-IsAvailable w.info name occupied info i found in
          let stored : get_elem? info.entries i ≡ some entry =
            ap (λ (xs : List BotEntry). get_elem? xs i) same_entries ∙ a.stored in
          rw (stored, adopt_picked)
            (adopt_entry-Unique (record w { info = info }) index ptr name i entry
              (λ j h ne m same.
                let listed =
                  collect_occupied_steam_ids-contains w (pos index) occupied j e h ne m in
                let clash : contains occupied entry.steam_id64 ≡ true = rw same at listed in
                let free = a.unoccupied in cc (clash, free))
              (carry refl u))

  pub apply_client_name-Unique :
      (w : World) (slot ptr : ℕ) (name : List ℕ)
      → Unique w
      → Unique (apply_client_name react w slot ptr name).0
  unfolding apply_client_name
  apply_client_name-Unique w slot ptr name u =
      map-Unique (set_slot_name-HasUniqueIds w.manager slot _) u

  pub release_slot-Unique : (w : World) (slot : ℕ) → Unique w → Unique (release_slot w slot)
  unfolding release_slot
  release_slot-Unique w slot u = map-Unique (release_slot-HasUniqueIds w.manager slot) u

  pub on_client_connected-Unique :
      (w : World) (slot : ℤ) (name network_id : Option (List ℕ)) (fake_player : Bool)
      → Unique w
      → Unique (on_client_connected react w slot name network_id fake_player)
  unfolding on_client_connected
  on_client_connected-Unique w slot name network_id fake_player u =
      elim (Option-cases (resolve_client_by_slot w.engine slot)) [
        | inl e ↦ rw (e, on_client_connected) (if_both Unique _ u (if_both Unique _ u u))
        | inr (ptr, e) ↦
            rw (e, on_client_connected)
              (if_both Unique (not fake_player || is_hltv_connection name network_id) u (
                if_both Unique (out_of_slots slot || is_managed w.manager (pos_part slot)) u (
                  if_both Unique (is_hltv w.engine ptr) u
                    (adopt_client-Unique w (pos_part slot) ptr name u))))
      ]

  pub release_managed_hltv_slot-Unique :
      (w : World) (slot : ℤ) (ptr : Option ℕ)
      → Unique w
      → Unique (release_managed_hltv_slot react w slot ptr).0
  unfolding release_managed_hltv_slot
  release_managed_hltv_slot-Unique w slot none u = u
  release_managed_hltv_slot-Unique w slot (some ptr) u =
      if_both (λ (r : World × Bool). Unique r.0) _ u
        (release_slot-Unique _ (pos_part slot) (carry refl u))

  present_client-Unique :
      (w : World) (index ptr : ℕ) (name : Option (List ℕ)) (steam_id : ℕ)
      → Unique w
      → Unique (present_client react w index ptr name steam_id)
  unfolding present_client
  present_client-Unique w index ptr name steam_id u =
      if_both Unique _ (carry refl u) (apply_client_name-Unique _ index ptr _ (carry refl u))

  check_and_present-Unique :
      (w : World) (slot : ℤ) (ptr : ℕ) (name : Option (List ℕ))
      → Unique w
      → Unique (check_and_present react w slot ptr name)
  unfolding check_and_present surrender_slot
  check_and_present-Unique w slot ptr name u =
      let id = get_synthetic_sid w.manager (pos_part slot) in
      by_answer (check_steam_id_availability w slot id) refl
    where
      by_answer :
          (a : SteamIdAvailability)
          → check_steam_id_availability w slot (get_synthetic_sid w.manager (pos_part slot)) ≡ a
          → Unique (check_and_present react w slot ptr name)
      by_answer SteamIdAvailability.available e =
          rw (e, check_and_present) (present_client-Unique w (pos_part slot) ptr name _ u)
      by_answer SteamIdAvailability.in_use e =
          rw (e, check_and_present) (release_slot-Unique _ (pos_part slot) (carry refl u))
      by_answer SteamIdAvailability.check_failed e =
          rw (e, check_and_present) (release_slot-Unique _ (pos_part slot) (carry refl u))

  pub client_put_in_server-Unique :
      (w : World) (slot : ℤ) (name : Option (List ℕ))
      → Unique w
      → Unique (client_put_in_server react w slot name)
  unfolding client_put_in_server
  client_put_in_server-Unique w slot name u =
      elim (Option-cases (resolve_client_by_slot w.engine slot)) [
        | inl e ↦ rw (e, client_put_in_server) (if_both Unique _ u u)
        | inr (ptr, e) ↦
            let released = release_managed_hltv_slot-Unique w slot (some ptr) u in
            rw (e, client_put_in_server)
              (if_both Unique _ u
                (if_both Unique _ released (check_and_present-Unique _ slot ptr name released)))
      ]

  pub client_disconnect-Unique :
      (reasons : Reasons) (w : World) (slot : ℤ) (reason : ℕ)
      → Unique w
      → Unique (client_disconnect react reasons w slot reason)
  unfolding client_disconnect surrender_slot
  client_disconnect-Unique reasons w slot reason u =
      elim (Option-cases (resolve_client_by_slot w.engine slot)) [
        | inl e ↦
            rw (e, client_disconnect) (if_both Unique _ u (release_slot-Unique w (pos_part slot) u))
        | inr (ptr, e) ↦
            rw (e, client_disconnect)
              (if_both Unique _ u (
                release_slot-Unique _ (pos_part slot) (
                  if_both Unique _
                    (queue_controller_removal-Unique _ (some ptr) (pos_part slot) (carry refl u))
                    (carry refl u))))
      ]

  adopt_existing_slot-Unique :
      (slot : ℕ) (w : World) → Unique w → Unique (adopt_existing_slot react slot w)
  unfolding adopt_existing_slot
  adopt_existing_slot-Unique slot w u =
      elim (Option-cases (resolve_client_by_slot w.engine (pos slot))) [
        | inl e ↦ rw (e, adopt_existing_slot) u
        | inr (ptr, e) ↦
            let name = read_name w.engine ptr in
            let adopted = adopt_client-Unique w slot ptr name u in
            let a = adopt_client react w slot ptr name in
            rw (e, adopt_existing_slot)
              (if_both Unique (not (is_fake_player_set w.engine ptr) || is_hltv w.engine ptr) u (
                if_both Unique (is_hltv_connection name none) u
                  (if_both Unique a.1 (apply_client_name-Unique a.0 slot ptr _ adopted) adopted)))
      ]

  adopt_slots-Unique :
      (n : ℕ) (w : World) → Unique w → Unique (each_slot (adopt_existing_slot react) n w)
  adopt_slots-Unique zero w u = u
  adopt_slots-Unique (suc n) w u =
      adopt_existing_slot-Unique n (each_slot (adopt_existing_slot react) n w)
        (adopt_slots-Unique n w u)

  pub adopt_existing_bots-Unique : (w : World) → Unique w → Unique (adopt_existing_bots react w)
  unfolding adopt_existing_bots
  adopt_existing_bots-Unique w u = adopt_slots-Unique max_slots w u
