-- ===== src/Commands.antt =====
-- src/features/identity/command_hooks.cpp: kicks that are taken over and deferred, the identity
-- mode, and the commands that the bridge forwards.
pub mod Dispatch
pub mod Kicks
pub mod Outcome
pub mod Unique
use cs2_bot_hider.Base.{
  ℕ, zero, suc, ◌+◌, ◌-◌, ◌*◌, ◌^◌, Bool, true, false, ◌||◌, ◌&&◌, not, List, [], ◌∷◌, ◌++◌, Option,
  none, some, ltb, leb, ◌==◌, if◌then◌else◌, bytes_eq,
}
use cs2_bot_hider.Base.Int.{ℤ, pos, pos_part, ltb_ℤ, leb_ℤ}
use cs2_bot_hider.Snapshot.{max_slots}
use cs2_bot_hider.BotInfo.{is_empty}
use cs2_bot_hider.BotInfo.AccountId.{is_digit, scan_digits}
use cs2_bot_hider.Engine.{
  Engine, EngineCall, clear_fake_player, write_steam_id, is_hltv, resolve_client_by_slot,
  refresh_client_user_info,
}
use cs2_bot_hider.Manager.{is_managed, get_slot_name, get_incarnation, set_synthetic_sid}
use cs2_bot_hider.World.{World, PendingBotKick, IdentityMode, is_disguise_enabled}
use cs2_bot_hider.Runtime.{
  SteamIdAvailability, check_steam_id_availability, set_controller_fake_client_flag,
  apply_managed_disguise,
}
use cs2_bot_hider.ClientHooks.{apply_client_name, out_of_slots}

-- `std::strtol` in base 10, for a text that is all digits after blanks and a plus sign: the value,
-- or `none` where the source's range test or its test of the end fails. A text with a minus sign
-- gives 0 or a negative number, of which only 0 passes.
abbrev pub is_space : ℕ → Bool
is_space c = c == b' ' || (leb 9 c && leb c 13)

unfoldable pub skip_spaces : List ℕ → List ℕ
skip_spaces [] = []
skip_spaces (c ∷ s) = let rest = skip_spaces s in if is_space c then rest else c ∷ s

abbrev pub digits_only : List ℕ → Option ℕ
digits_only [] = none
digits_only (c ∷ s) =
    if is_digit c && is_empty (scan_digits 0 (c ∷ s)).1
    then some (scan_digits 0 (c ∷ s)).0
    else none

abbrev pub negated : Option ℕ → Option ℕ
negated none = none
negated (some n) = if n == 0 then some 0 else none

abbrev pub signed_digits : List ℕ → Option ℕ
signed_digits [] = none
signed_digits (c ∷ s) =
    if c == b'-'
    then negated (digits_only s)
    else if c == b'+'
    then digits_only s
    else digits_only (c ∷ s)

abbrev pub user_id_range : Option ℕ → Option ℕ
user_id_range none = none
user_id_range (some n) = if ltb 65535 n then none else some n

-- The user ID of a `kickid` argument.
unfoldable pub parse_user_id : List ℕ → Option ℕ
unfolding skip_spaces
parse_user_id value = user_id_range (signed_digits (skip_spaces value))

-- The loop of `FindManagedSlotByPersonaName`, over the `n` slots from `slot` on.
unfoldable pub find_by_name : World → List ℕ → ℕ → ℕ → Option ℕ
find_by_name w name zero slot = none
find_by_name w name (suc n) slot =
    let later = find_by_name w name n (suc slot) in
    if not (is_managed w.manager slot)
    then later
    else if bytes_eq (get_slot_name w.manager slot) name
    then some slot
    else later

unfoldable pub find_managed_slot_by_persona_name : World → List ℕ → Option ℕ
unfolding find_by_name
find_managed_slot_by_persona_name w name =
    if is_empty name then none else find_by_name w name max_slots 0

unfoldable pub find_by_user_id : World → ℕ → ℕ → ℕ → Option ℕ
find_by_user_id w user_id zero slot = none
find_by_user_id w user_id (suc n) slot =
    let later = find_by_user_id w user_id n (suc slot) in
    if not (is_managed w.manager slot)
    then later
    else elim (resolve_client_by_slot w.engine (pos slot)) [
      | none ↦ later
      | some ptr ↦ if (w.engine.client ptr).user_id == user_id then some slot else later
    ]

unfoldable pub find_managed_slot_by_user_id : World → List ℕ → Option ℕ
unfolding find_by_user_id
find_managed_slot_by_user_id w value = elim (parse_user_id value) [
  | none ↦ none
  | some user_id ↦ find_by_user_id w user_id max_slots 0
]

-- `has_bot_kick` says whether the engine has the console command `bot_kick`; the slot is that of
-- the search, whose -1 is `none`.
unfoldable pub queue_managed_bot_kick : Bool → World → Option ℕ → World × Bool
queue_managed_bot_kick has_bot_kick w none = (w, false)
queue_managed_bot_kick has_bot_kick w (some slot) =
    if not (is_managed w.manager slot) || not has_bot_kick
    then (w, false)
    else elim (resolve_client_by_slot w.engine (pos slot)) [
      | none ↦ (w, false)
      | some ptr ↦
          let kick : PendingBotKick = record {
            slot = slot;
            client = ptr;
            user_id = (w.engine.client ptr).user_id;
            incarnation = get_incarnation w.manager slot;
          } in
          if is_hltv w.engine ptr || is_empty (get_slot_name w.manager slot)
          then (w, false)
          else (record w { pending_bot_kicks = w.pending_bot_kicks ++ kick ∷ [] }, true)
    ]

-- Whether a queued kick still names the bot that it was queued for: its name, if it does.
unfoldable pub kick_target : World → PendingBotKick → Option (List ℕ)
kick_target w kick =
    if not (is_managed w.manager kick.slot)
    then none
    else elim (resolve_client_by_slot w.engine (pos kick.slot)) [
      | none ↦ none
      | some ptr ↦
          let name = get_slot_name w.manager kick.slot in
          if not (ptr == kick.client) || is_hltv w.engine ptr
          then none
          else if not ((w.engine.client ptr).user_id == kick.user_id)
              || (not (kick.incarnation == 0)
                  && not (get_incarnation w.manager kick.slot == kick.incarnation))
          then none
          else if is_empty name
          then none
          else some name
    ]

-- `dispatch` runs the console command `bot_kick` with a name, with all that it calls back;
-- `fits` says whether the engine takes the name as an argument.
module _ (dispatch : List ℕ → World → World) (fits : List ℕ → Bool) where
  unfoldable pub dispatch_kick : World → Option (List ℕ) → World
  dispatch_kick w none = w
  dispatch_kick w (some name) = if fits name then dispatch name w else w

  unfoldable pub dispatch_kicks : World → List PendingBotKick → World
  unfolding dispatch_kick
  dispatch_kicks w [] = w
  dispatch_kicks w (kick ∷ pending) = dispatch_kicks (dispatch_kick w (kick_target w kick)) pending

  unfoldable pub drain_pending_bot_kicks : Bool → World → World
  unfolding dispatch_kicks
  drain_pending_bot_kicks has_bot_kick w =
      let taken = record w { pending_bot_kicks = [] } in
      if has_bot_kick then dispatch_kicks taken w.pending_bot_kicks else taken

abbrev pub same_mode : IdentityMode → IdentityMode → Bool
same_mode IdentityMode.player IdentityMode.player = true
same_mode IdentityMode.player IdentityMode.bot = false
same_mode IdentityMode.bot IdentityMode.player = false
same_mode IdentityMode.bot IdentityMode.bot = true

module _ (react : EngineCall → Engine → Engine) where
  -- The end of `SetIdentityMode`, which is all of it for the mode `bot`.
  unfoldable pub enter_mode : World → IdentityMode → World × Bool
  enter_mode w mode =
      let settled = record w { start_in_player_mode = false } in
      let entered = record settled { identity_mode = mode } in
      if same_mode w.identity_mode mode
      then (settled, true)
      else (apply_managed_disguise react entered (is_disguise_enabled entered), true)

  -- `can_enable` and `attached` are the answers of `CanEnableDisguise` and `AttachGameServerHook`.
  unfoldable pub set_identity_mode : Bool → Bool → World → IdentityMode → World × Bool
  unfolding enter_mode
  set_identity_mode can_enable attached w IdentityMode.bot = enter_mode w IdentityMode.bot
  set_identity_mode can_enable attached w IdentityMode.player =
      if not can_enable
      then (w, false)
      else if not attached
      then (if is_disguise_enabled w then (enter_mode w IdentityMode.bot).0 else w, false)
      else enter_mode w IdentityMode.player

  unfoldable pub apply_steam_id_command : World → ℤ → ℕ → World × Bool
  apply_steam_id_command w slot steam_id =
      let index = pos_part slot in
      elim (resolve_client_by_slot w.engine slot) [
        | none ↦ (w, false)
        | some ptr ↦
            let e₁ =
              if is_disguise_enabled w
              then (set_controller_fake_client_flag react (clear_fake_player w.engine ptr) index
                  false).0
              else w.engine in
            let applied = record w {
              engine = (refresh_client_user_info react (write_steam_id e₁ ptr steam_id) index).0;
              manager = set_synthetic_sid w.manager index steam_id;
            } in
            elim (check_steam_id_availability w slot steam_id) [
              | SteamIdAvailability.available ↦ (applied, true)
              | SteamIdAvailability.in_use ↦ (w, false)
              | SteamIdAvailability.check_failed ↦ (w, false)
            ]
      ]

  unfoldable pub apply_persona_name_command : World → ℤ → List ℕ → World × Bool
  apply_persona_name_command w slot name = elim (resolve_client_by_slot w.engine slot) [
    | none ↦ (w, false)
    | some ptr ↦ apply_client_name react w (pos_part slot) ptr name
  ]
