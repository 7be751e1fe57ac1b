-- ===== src/Snapshot.antt =====
-- src/bridge/bridge.h: the sizes and the records that cross the bridge. A `char` array is the list
-- of its bytes; the 32-bit flags `managed` and `avatarApplied` are kept as the numbers 0 and 1.
use cs2_bot_hider.Base.{ℕ, List, ◌*◌, replicate}

abbrev pub max_slots : ℕ
max_slots = 64

abbrev pub name_len : ℕ
name_len = 32

abbrev pub crosshair_len : ℕ
crosshair_len = 64

abbrev pub clan_tag_len : ℕ
clan_tag_len = 128

abbrev pub max_sigs : ℕ
max_sigs = 8

abbrev pub avatar_max_bytes : ℕ
avatar_max_bytes = 16 * 1024

pub record SlotSnapshot : Type 0 where
  pub steam_id : ℕ
  pub base_steam_id : ℕ
  pub incarnation : ℕ
  pub avatar_steam_id : ℕ
  pub ping : ℕ
  pub managed : ℕ
  pub scoreboard_flair : ℕ
  pub clan_group_id : ℕ
  pub avatar_length : ℕ
  pub avatar_applied : ℕ
  pub name : List ℕ
  pub base_name : List ℕ
  pub crosshair : List ℕ
  pub clan_tag : List ℕ

abbrev pub empty_snapshot : SlotSnapshot
empty_snapshot = record {
  steam_id = 0;
  base_steam_id = 0;
  incarnation = 0;
  avatar_steam_id = 0;
  ping = 0;
  managed = 0;
  scoreboard_flair = 0;
  clan_group_id = 0;
  avatar_length = 0;
  avatar_applied = 0;
  name = replicate name_len 0;
  base_name = replicate name_len 0;
  crosshair = replicate crosshair_len 0;
  clan_tag = replicate clan_tag_len 0;
}

pub record Signature : Type 0 where
  pub name : List ℕ
  pub address : ℕ

abbrev pub empty_signature : Signature
empty_signature = record { name = replicate name_len 0; address = 0 }
