-- ===== src/Avatar.antt =====
-- src/features/avatar/avatar_override.cpp: the avatars that are asked for through the bridge are
-- written to the engine's string table `ServerAvatarOverrides`. The tables and the console variable
-- `sv_reliableavatardata` are the interface `StringTables`; its states are the parameter's. The
-- clock counts nanoseconds.
pub mod Owners
pub mod Shown
pub mod Pass
pub mod Identities
pub mod Runs
use cs2_bot_hider.Base.{
  ℕ, zero, suc, ◌+◌, Bool, true, false, ◌||◌, ◌&&◌, not, List, [], ◌∷◌, Option, none, some, ltb,
  ◌==◌, if◌then◌else◌, update, each_slot,
}
use cs2_bot_hider.Base.Int.{ℤ, pos, negsuc, pos_part, ltb_ℤ, leb_ℤ}
use cs2_bot_hider.Snapshot.{max_slots}
use cs2_bot_hider.BotInfo.AccountId.{decimal}
use cs2_bot_hider.Manager.{
  Manager, is_managed, get_incarnation, get_synthetic_sid, publish_avatar_state,
}

-- `find_table` is `FindTable("ServerAvatarOverrides")`; the other operations take the table that it
-- gave. `user_data_size` is the size of the data at index 0, `none` where `GetStringUserData` gives
-- null. `reliable` says whether the console variable is available, and `get_reliable` what it holds.
pub record StringTables : Type 1 where
  pub State : Type 0
  pub find_table : State → Option ℕ
  pub num_strings : State → ℕ → ℕ
  pub find_string_index : State → ℕ → List ℕ → ℤ
  pub user_data_size : State → ℕ → Option ℕ
  pub add_string : State → ℕ → List ℕ → List ℕ → State × ℤ
  pub set_user_data : State → ℕ → ℤ → List ℕ → State × Bool
  pub reliable : State → Bool
  pub get_reliable : State → Bool
  pub set_reliable : State → State

pub record AvatarRuntimeState : Type 0 where
  pub sequence : ℕ
  pub steam_id : ℕ
  pub applied_steam_id : ℕ
  pub processed : Bool
  pub failure_logged : Bool
  pub retry_at : ℕ

abbrev pub empty_state : AvatarRuntimeState
empty_state = record {
  sequence = 0xFFFF_FFFF;
  steam_id = 0;
  applied_steam_id = 0;
  processed = false;
  failure_logged = false;
  retry_at = 0;
}

-- `g_networkStringTables` (whether it is set), `g_avatarStates` and `g_lastAvatarTable`.
pub record Avatars : Type 0 where
  pub container : Bool
  pub states : ℕ → AvatarRuntimeState
  pub last_table : Option ℕ

abbrev pub empty_avatars : Avatars
empty_avatars = record { container = false; states = λ _. empty_state; last_table = none }

unfoldable pub set_string_table_container : Avatars → Bool → Avatars
set_string_table_container a container = record a { container = container }

-- `"%llu"`
abbrev pub format_avatar_steam_id : ℕ → List ℕ
format_avatar_steam_id steam_id = if steam_id == 0 then b'0' ∷ [] else decimal steam_id

-- "__bothider_no_avatar__"
abbrev pub sentinel_name : List ℕ
sentinel_name =
    b'_' ∷ b'_' ∷ b'b' ∷ b'o' ∷ b't' ∷ b'h' ∷ b'i' ∷ b'd' ∷ b'e' ∷ b'r' ∷ b'_' ∷ b'n' ∷ b'o' ∷ b'_'
    ∷ b'a' ∷ b'v' ∷ b'a' ∷ b't' ∷ b'a' ∷ b'r' ∷ b'_' ∷ b'_' ∷ []

-- The loop that publishes "no avatar" for every slot.
unfoldable pub unpublish_all : Manager → Manager
unpublish_all m = each_slot (λ slot m. publish_avatar_state m slot false 0) max_slots m

unfoldable pub reset_runtime : Avatars → Manager → Avatars × Manager
reset_runtime a m = (record a { states = λ _. empty_state; last_table = none }, unpublish_all m)

abbrev pub second : ℕ
second = 1000000000

-- `retry`: the next attempt is a second away.
unfoldable pub retry : ℕ → AvatarRuntimeState → AvatarRuntimeState
retry now s = record s { retry_at = now + second; failure_logged = true }

-- The SteamID that a slot's request is for, or 0 where there is none that is current.
unfoldable pub requested_steam_id : Manager → ℕ → ℕ
requested_steam_id m slot =
    let request = (m.slots slot).avatar in
    if is_managed m slot
      && (not (request.len == 0)
          && (not (request.incarnation == 0) && request.incarnation == get_incarnation m slot))
    then get_synthetic_sid m slot
    else 0

-- A new request, or a new SteamID, is to be processed.
unfoldable pub refresh_state : AvatarRuntimeState → ℕ → ℕ → AvatarRuntimeState
refresh_state s sequence steam_id =
    if not (s.sequence == sequence) || not (s.steam_id == steam_id)
    then record s {
      sequence = sequence;
      steam_id = steam_id;
      processed = false;
      failure_logged = false;
      retry_at = 0;
    }
    else s

-- The slots that wrote this SteamID's entry no longer own it.
unfoldable pub disown : (ℕ → AvatarRuntimeState) → ℕ → ℕ → AvatarRuntimeState
disown states steam_id slot =
    let s = states slot in
    if ltb slot max_slots && s.applied_steam_id == steam_id
    then record s { applied_steam_id = 0 }
    else s

abbrev pub same_table : Option ℕ → ℕ → Bool
same_table none table = false
same_table (some last) table = last == table

-- A new table knows none of the entries that the states speak of.
unfoldable pub enter_table : ℕ → Avatars → Manager → Avatars × Manager
enter_table table a m =
    if same_table a.last_table table
    then (a, m)
    else (record a { states = λ _. empty_state; last_table = some table }, unpublish_all m)

abbrev pub holds_data : Option ℕ → Bool
holds_data none = false
holds_data (some size) = not (size == 0)

module _ (tables : StringTables) where
  open tables use {
    State, find_table, num_strings, find_string_index, user_data_size, add_string, set_user_data,
    reliable, get_reliable, set_reliable,
  }

  unfoldable pub clear_avatar_override : State → ℕ → ℕ → State × Bool
  clear_avatar_override st table steam_id =
      let index = find_string_index st table (format_avatar_steam_id steam_id) in
      if ltb_ℤ index (pos 0)
      then (st, true)
      else if leb_ℤ index (pos 0)
      then (st, false)
      else set_user_data st table index []

  -- The reservation of index 0, and what is found there.
  unfoldable pub reserve_index_0 : State → ℕ → State × Bool
  reserve_index_0 st table =
      let added = add_string st table sentinel_name [] in
      if num_strings st table == 0
      then (added.0, leb_ℤ added.1 (pos 0) && leb_ℤ (pos 0) added.1)
      else (st, true)

  -- The rest of `SetAvatarOverride`, once index 0 is known to hold no avatar.
  unfoldable pub write_avatar : State → ℕ → List ℕ → List ℕ → State × Bool
  write_avatar st table key bytes =
      let index = find_string_index st table key in
      let added = add_string st table key bytes in
      if leb_ℤ index (pos 0) && leb_ℤ (pos 0) index
      then (st, false)
      else if ltb_ℤ index (pos 0)
      then (added.0, not (leb_ℤ added.1 (pos 0)))
      else set_user_data st table index bytes

  -- The index that the source gives back serves its log only.
  unfoldable pub set_avatar_override : State → ℕ → ℕ → List ℕ → State × Bool
  unfolding reserve_index_0 write_avatar
  set_avatar_override st table steam_id bytes =
      let reserved = reserve_index_0 st table in
      if not reserved.1 || holds_data (user_data_size reserved.0 table)
      then (reserved.0, false)
      else write_avatar reserved.0 table (format_avatar_steam_id steam_id) bytes

  unfoldable pub ensure_reliable_avatar_data : State → State × Bool
  ensure_reliable_avatar_data st =
      let enabled = set_reliable st in
      if not (reliable st)
      then (st, false)
      else if not (get_reliable st)
      then (enabled, get_reliable enabled)
      else (st, true)

  -- What one slot's turn works on.
  pub record Turn : Type 0 where
    pub strings : State
    pub states : ℕ → AvatarRuntimeState
    pub manager : Manager

  -- The end of a turn: the slot's state is written back.
  abbrev pub finish : State → (ℕ → AvatarRuntimeState) → ℕ → AvatarRuntimeState → Manager → Turn
  finish st states slot s m = record { strings = st; states = update states slot s; manager = m }

  -- The write of the slot's avatar, with its SteamID and bytes.
  unfoldable pub apply_avatar : ℕ → ℕ → ℕ → Turn → AvatarRuntimeState → Turn
  unfolding set_avatar_override
  apply_avatar table now slot t s =
      let written =
        set_avatar_override t.strings table s.steam_id (t.manager.slots slot).avatar.bytes in
      if not written.1
      then finish written.0 t.states slot (retry now s) t.manager
      else finish written.0 (disown (update t.states slot s) s.steam_id) slot
          (record s { applied_steam_id = s.steam_id; processed = true })
          (publish_avatar_state t.manager slot true s.steam_id)

  -- The turn from the test of the SteamID on.
  unfoldable pub apply_request : ℕ → ℕ → ℕ → Turn → AvatarRuntimeState → Turn
  unfolding ensure_reliable_avatar_data apply_avatar
  apply_request table now slot t s =
      let ensured = ensure_reliable_avatar_data t.strings in
      if s.steam_id == 0
      then finish t.strings t.states slot (record s { processed = true }) t.manager
      else if not ensured.1
      then finish ensured.0 t.states slot (retry now s) t.manager
      else apply_avatar table now slot (record t { strings = ensured.0 }) s

  -- The turn from the removal of the slot's last entry on.
  unfoldable pub replace_avatar : ℕ → ℕ → ℕ → Turn → AvatarRuntimeState → Turn
  unfolding clear_avatar_override apply_request
  replace_avatar table now slot t s =
      let cleared = clear_avatar_override t.strings table s.applied_steam_id in
      if s.applied_steam_id == 0 || s.applied_steam_id == s.steam_id
      then apply_request table now slot t s
      else if not cleared.1
      then finish cleared.0 t.states slot (retry now s) t.manager
      else apply_request table now slot (record t { strings = cleared.0 })
          (record s { applied_steam_id = 0 })

  -- The turn of `ProcessOverrides` for one slot.
  unfoldable pub process_slot : ℕ → ℕ → ℕ → Turn → Turn
  unfolding refresh_state replace_avatar
  process_slot table now slot t =
      let request = (t.manager.slots slot).avatar in
      let s = refresh_state (t.states slot) request.sequence (requested_steam_id t.manager slot) in
      if s.processed || ltb now s.retry_at
      then finish t.strings t.states slot s t.manager
      else replace_avatar table now slot
          (record t { manager = publish_avatar_state t.manager slot false 0 }) s

  abbrev pub start_turn : State → Avatars × Manager → Turn
  start_turn st entered = record { strings = st; states = entered.0.states; manager = entered.1 }

  unfoldable pub process_table : ℕ → ℕ → State → Avatars → Manager → State × Avatars × Manager
  process_table table now st a m =
      let entered = enter_table table a m in
      let done = each_slot (process_slot table now) max_slots (start_turn st entered) in
      (done.strings, record entered.0 { states = done.states }, done.manager)

  unfoldable pub process_overrides : ℕ → State → Avatars → Manager → State × Avatars × Manager
  process_overrides now st a m = elim (find_table st) [
    | none ↦ (st, a, m)
    | some table ↦ if not a.container then (st, a, m) else process_table table now st a m
  ]
