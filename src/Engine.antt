-- ===== src/Engine.antt =====
-- What the program reads and writes of the engine's memory, with the functions of
-- src/core/entity/serversideclient_ref.h and src/core/entity/entity_access.cpp. A client and an
-- entity are named by their addresses; a null pointer is `none`. A field at an offset is a field of
-- the record. How the engine answers a call is the parameter `react`.
use cs2_bot_hider.Base.{
  ℕ, ◌/◌, ◌%◌, Bool, true, false, ◌||◌, not, List, [], ◌∷◌, Option, none, some, bit_and, bit_or,
  bit_xor, ltb, ◌==◌, if◌then◌else◌, length, get_or, take, update, bytes_eq,
}
use cs2_bot_hider.Base.Int.{ℤ, pos, pos_part, ltb_ℤ, leb_ℤ}
use cs2_bot_hider.Text.{c_string}

-- `CServerSideClient`.
pub record Client : Type 0 where
  pub name : Option (List ℕ)
  pub entity_index : ℤ
  pub connection_flags : ℕ
  pub fake_player : ℕ
  pub user_id : ℕ
  pub steam_id : ℕ
  pub steam_id_mirror : ℕ
  pub is_hltv_byte : ℕ

-- `CEntityInstance`: whether it still has an identity, that identity's flags, its own handle,
-- `m_fFlags`, a controller's pawn handle, and the bits of a pawn's idle time, if the SDK finds it.
pub record Entity : Type 0 where
  pub has_identity : Bool
  pub identity_flags : ℕ
  pub handle : ℕ
  pub flags : ℕ
  pub pawn_handle : ℕ
  pub idle_time : Option ℕ

-- `CEntityIdentity`.
pub record Identity : Type 0 where
  pub class_name : Option (List ℕ)
  pub instance_ptr : Option ℕ

-- The calls that the program makes of the engine.
pub data EngineCall : Type 0 where
  user_info_changed : ℕ → EngineCall
  state_changed : ℕ → EngineCall
  util_remove : ℕ → EngineCall
  set_name : ℕ → List ℕ → EngineCall

-- `server_clients` is `m_Clients` of the game server, if there is one; `chunks` are the identity
-- chunks; `deletion_flags` and `entry_index` are the SDK's `EF_DELETE_IN_PROGRESS |
-- EF_MARKED_FOR_DELETE` and `CEntityHandle::GetEntryIndex`; the Boolean fields say which targets and
-- offsets were resolved.
pub record Engine : Type 0 where
  pub server_clients : Option (List (Option ℕ))
  pub client : ℕ → Client
  pub entity_system : Bool
  pub chunks : ℕ → Option (ℕ → Identity)
  pub entity : ℕ → Entity
  pub deletion_flags : ℕ
  pub entry_index : ℕ → ℤ
  pub util_remove_target : Bool
  pub has_pawn_handle : Bool
  pub has_set_name : Bool
  pub calls : List EngineCall

abbrev pub with_client : Engine → ℕ → Client → Engine
with_client e ptr c = record e { client = update e.client ptr c }

abbrev pub with_entity : Engine → ℕ → Entity → Engine
with_entity e ptr x = record e { entity = update e.entity ptr x }

-- A byte and a 32-bit word with some bits cleared: `x & ~bits`.
abbrev pub clear_byte : ℕ → ℕ → ℕ
clear_byte x bits = bit_and x (bit_xor bits 0xFF)

abbrev pub clear_word : ℕ → ℕ → ℕ
clear_word x bits = bit_and x (bit_xor bits 0xFFFF_FFFF)

abbrev pub entity_flag_bot : ℕ
entity_flag_bot = 0x10

abbrev pub entity_flag_fake_client : ℕ
entity_flag_fake_client = 0x100

-- serversideclient_ref.h
unfoldable pub clear_fake_player : Engine → ℕ → Engine
clear_fake_player e ptr =
    let c = e.client ptr in
    with_client e ptr (record c {
      connection_flags = bit_or (clear_byte c.connection_flags 0x08) 0x01;
      fake_player = 0;
    })

unfoldable pub set_fake_player : Engine → ℕ → Engine
set_fake_player e ptr =
    let c = e.client ptr in
    with_client e ptr (record c {
      connection_flags = bit_or (clear_byte c.connection_flags 0x01) 0x08;
      fake_player = 1;
    })

unfoldable pub write_steam_id : Engine → ℕ → ℕ → Engine
write_steam_id e ptr steam_id =
    with_client e ptr (record (e.client ptr) { steam_id = steam_id; steam_id_mirror = steam_id })

unfoldable pub is_fake_player_set : Engine → ℕ → Bool
is_fake_player_set e ptr = (e.client ptr).fake_player == 1

unfoldable pub is_hltv : Engine → ℕ → Bool
is_hltv e ptr = not ((e.client ptr).is_hltv_byte == 0)

unfoldable pub read_name : Engine → ℕ → Option (List ℕ)
read_name e ptr = (e.client ptr).name

-- entity_access.cpp
abbrev pub nth_client : List (Option ℕ) → ℕ → Option ℕ
nth_client clients slot = get_or clients slot none

unfoldable pub resolve_client_by_slot : Engine → ℤ → Option ℕ
resolve_client_by_slot e slot = elim e.server_clients [
  | none ↦ none
  | some clients ↦
      if ltb 256 (length clients) || (ltb_ℤ slot (pos 0) || leb_ℤ (pos (length clients)) slot)
      then none
      else nth_client clients (pos_part slot)
]

-- The first 63 bytes of the name, as `SafeReadString` copies it into 64 bytes; empty for a null
-- pointer.
abbrev pub read_class_name : Option (List ℕ) → List ℕ
read_class_name none = []
read_class_name (some s) = take 63 (c_string s)

-- The instance, and the class name that was written to the buffer.
unfoldable pub resolve_entity_instance : Engine → ℤ → Option ℕ × List ℕ
resolve_entity_instance e index =
    let i = pos_part index in
    if not e.entity_system || (leb_ℤ index (pos 0) || leb_ℤ (pos 0x8000) index)
    then (none, [])
    else elim (e.chunks (i / 512)) [
      | none ↦ (none, [])
      | some chunk ↦ ((chunk (i % 512)).instance_ptr, read_class_name (chunk (i % 512)).class_name)
    ]

unfoldable pub is_entity_being_deleted : Engine → Option ℕ → Bool
is_entity_being_deleted e none = true
is_entity_being_deleted e (some ptr) =
    let x = e.entity ptr in
    if not x.has_identity then true else not (bit_and x.identity_flags e.deletion_flags == 0)

unfoldable pub has_entity_system : Engine → Bool
has_entity_system e = e.entity_system

-- "cs_player_controller"
abbrev pub controller_class : List ℕ
controller_class =
    b'c' ∷ b's' ∷ b'_' ∷ b'p' ∷ b'l' ∷ b'a' ∷ b'y' ∷ b'e' ∷ b'r' ∷ b'_' ∷ b'c' ∷ b'o' ∷ b'n' ∷ b't'
    ∷ b'r' ∷ b'o' ∷ b'l' ∷ b'l' ∷ b'e' ∷ b'r' ∷ []

-- A pointer that was resolved, if its class is the controllers'.
abbrev pub controller_of : Option ℕ × List ℕ → Option ℕ
controller_of (none, name) = none
controller_of (some ptr, name) = if bytes_eq name controller_class then some ptr else none

pub record PawnRef : Type 0 where
  pub pawn : ℕ
  pub handle : ℕ

-- The end of `ResolveClientPawn`, from the controller's pawn handle on.
unfoldable pub resolve_pawn_handle : Engine → ℕ → Option PawnRef
resolve_pawn_handle e handle =
    if handle == 0xFFFF_FFFF
    then none
    else elim (resolve_entity_instance e (e.entry_index handle)).0 [
      | none ↦ none
      | some pawn ↦
          if is_entity_being_deleted e (some pawn) || not ((e.entity pawn).handle == handle)
          then none
          else some (record { pawn = pawn; handle = handle })
    ]

unfoldable pub resolve_client_pawn : Engine → Option ℕ → Option PawnRef
resolve_client_pawn e none = none
resolve_client_pawn e (some ptr) =
    if not e.has_pawn_handle
    then none
    else elim (controller_of (resolve_entity_instance e (e.client ptr).entity_index)) [
      | none ↦ none
      | some controller ↦
          if is_entity_being_deleted e (some controller)
          then none
          else resolve_pawn_handle e (e.entity controller).pawn_handle
    ]

-- `0.0F` is the word 0.
abbrev pub with_idle_time : Engine → ℕ → Engine
with_idle_time e pawn = elim (e.entity pawn).idle_time [
  | none ↦ e
  | some _ ↦ with_entity e pawn (record (e.entity pawn) { idle_time = some 0 })
]

unfoldable pub reset_idle_timer_for_client : Engine → ℕ → Engine
reset_idle_timer_for_client e ptr = elim (resolve_client_pawn e (some ptr)) [
  | none ↦ e
  | some p ↦ with_idle_time e p.pawn
]

-- A call is noted, and the engine reacts to it.
module _ (react : EngineCall → Engine → Engine) where
  unfoldable pub call_engine : EngineCall → Engine → Engine
  call_engine c e = react c (record e { calls = c ∷ e.calls })

  unfoldable pub refresh_client_user_info : Engine → ℕ → Engine × Bool
  unfolding call_engine
  refresh_client_user_info e slot =
      if not (ltb slot 64) then (e, false) else elim e.server_clients [
        | none ↦ (e, false)
        | some _ ↦ (call_engine (user_info_changed slot) e, true)
      ]

  unfoldable pub mark_entity_field_changed : Engine → ℕ → Engine
  unfolding call_engine
  mark_entity_field_changed e ptr = call_engine (state_changed ptr) e

  unfoldable pub remove_entity : Engine → ℕ → Engine
  unfolding call_engine
  remove_entity e ptr = if not e.util_remove_target then e else call_engine (util_remove ptr) e

  -- The name that the engine holds after the call, or null.
  unfoldable pub set_engine_name : Engine → ℕ → List ℕ → Engine × Option (List ℕ)
  unfolding call_engine read_name
  set_engine_name e ptr [] = (e, none)
  set_engine_name e ptr (c ∷ name) =
      let e' = call_engine (set_name ptr (c ∷ name)) e in
      if not e.has_set_name then (e, none) else (e', read_name e' ptr)
