-- ===== src/BotInfo/Load.antt =====
-- `BotInfoStore::Load` of src/features/botinfo/bot_info.cpp and `ParseClanTag` of
-- src/features/clantag/clan_tag.cpp. The JSON library is a parameter: the values are abstract, and
-- the program's questions about them are the fields of `Json`.
pub mod Valid
use cs2_bot_hider.Base.{
  ℕ, bit_or, ◌+◌, ◌-◌, ◌^◌, ◌≤◌, ◌<◌, ◌≡◌, refl, Bool, true, false, ◌&&◌, ◌||◌, not, List, [], ◌∷◌,
  Option, none, some, arith, ltb, leb, ◌==◌, if◌then◌else◌, length, any, bytes_eq, replicate,
}
use cs2_bot_hider.Base.Int.{ℤ, pos, pos_part, leb_ℤ}
use cs2_bot_hider.BotInfo.{BotEntry, BotInfoStore, ClanTag, no_clan_tag, is_empty}
use cs2_bot_hider.Random.{u64}
use cs2_bot_hider.BotInfo.AccountId.{parse_account_id}

pub record Json : Type 1 where
  pub Value : Type 0
  -- `none` where the library throws.
  pub parse : List ℕ → Option Value
  pub is_object : Value → Bool
  pub contains : Value → List ℕ → Bool
  pub field : Value → List ℕ → Value
  pub items : Value → List (List ℕ × Value)
  pub is_string : Value → Bool
  pub get_string : Value → List ℕ
  pub is_number_integer : Value → Bool
  pub is_number_unsigned : Value → Bool
  pub get_integer : Value → ℤ
  pub is_boolean : Value → Bool
  pub get_boolean : Value → Bool

abbrev pub steam_id64_base : ℕ
steam_id64_base = 76561197960265728

abbrev pub name_len : ℕ
name_len = 32

abbrev pub crosshair_len : ℕ
crosshair_len = 64

abbrev pub has_nul : List ℕ → Bool
has_nul s = any (λ c. c == 0) s

abbrev pub has_control : List ℕ → Bool
has_control s = any (λ c. ltb c 0x20 || c == 0x7F) s

-- `find_first_not_of(' ') == npos`
abbrev pub is_blank : List ℕ → Bool
is_blank s = not (any (λ c. not (c == b' ')) s)

abbrev pub key_players : List ℕ
key_players = b'p' ∷ b'l' ∷ b'a' ∷ b'y' ∷ b'e' ∷ b'r' ∷ b's' ∷ []

abbrev pub key_player_name : List ℕ
key_player_name = b'p' ∷ b'l' ∷ b'a' ∷ b'y' ∷ b'e' ∷ b'r' ∷ b'_' ∷ b'n' ∷ b'a' ∷ b'm' ∷ b'e' ∷ []

abbrev pub key_crosshair_code : List ℕ
key_crosshair_code =
    b'c' ∷ b'r' ∷ b'o' ∷ b's' ∷ b's' ∷ b'h' ∷ b'a' ∷ b'i' ∷ b'r' ∷ b'_' ∷ b'c' ∷ b'o' ∷ b'd' ∷ b'e'
    ∷ []

abbrev pub key_scoreboard_flair : List ℕ
key_scoreboard_flair =
    b's' ∷ b'c' ∷ b'o' ∷ b'r' ∷ b'e' ∷ b'b' ∷ b'o' ∷ b'a' ∷ b'r' ∷ b'd' ∷ b'_' ∷ b'f' ∷ b'l' ∷ b'a'
    ∷ b'i' ∷ b'r' ∷ []

abbrev pub key_clan_tag : List ℕ
key_clan_tag = b'c' ∷ b'l' ∷ b'a' ∷ b'n' ∷ b'_' ∷ b't' ∷ b'a' ∷ b'g' ∷ []

abbrev pub key_clan_group_id : List ℕ
key_clan_group_id =
    b'c' ∷ b'l' ∷ b'a' ∷ b'n' ∷ b'_' ∷ b'g' ∷ b'r' ∷ b'o' ∷ b'u' ∷ b'p' ∷ b'_' ∷ b'i' ∷ b'd' ∷ []

-- `| 1ULL`
abbrev pub set_low_bit : ℕ → ℕ
set_low_bit n = bit_or n 1

module _ (json : Json) where
  open json use {
    Value, parse, is_object, contains, field, items, is_string, get_string, is_number_integer,
    is_number_unsigned, get_integer,
  }

  unfoldable pub parse_clan_tag : Value → ClanTag
  parse_clan_tag value =
      let tag = get_string (field value key_clan_tag) in
      let group_id = pos_part (get_integer (field value key_clan_group_id)) in
      if not (contains value key_clan_tag)
        || (not (is_string (field value key_clan_tag))
            || (not (contains value key_clan_group_id)
                || not (is_number_unsigned (field value key_clan_group_id))))
      then no_clan_tag
      else if is_empty tag
          || (leb 128 (length tag) || (has_nul tag || (group_id == 0 || ltb (2 ^ 32 - 1) group_id)))
      then no_clan_tag
      else record { tag = tag; group_id = group_id }

  -- The optional fields of an entry, as they are read.
  unfoldable pub read_crosshair : Value → List ℕ
  read_crosshair val =
      if contains val key_crosshair_code && is_string (field val key_crosshair_code)
      then get_string (field val key_crosshair_code)
      else []

  unfoldable pub read_flair : Value → ℕ
  read_flair val =
      let flair = get_integer (field val key_scoreboard_flair) in
      if contains val key_scoreboard_flair
        && (is_number_integer (field val key_scoreboard_flair)
            && (leb_ℤ (pos 0) flair && leb_ℤ flair (pos 65535)))
      then pos_part flair
      else 0

  -- The entry of an accepted name and ID, or `none` where its crosshair code is refused.
  unfoldable pub finish_entry : Value → ℕ → List ℕ → Option BotEntry
  finish_entry val account_id name =
      let code = read_crosshair val in
      if leb crosshair_len (length code) || has_nul code
      then none
      else some (record {
        name = name;
        account_id = account_id;
        steam_id64 = steam_id64_base + account_id;
        crosshair_code = if bytes_eq code (b'0' ∷ []) then [] else code;
        scoreboard_flair = read_flair val;
        clan_tag = parse_clan_tag val;
      })

  -- The rest of a turn, once the key is an account ID.
  unfoldable pub named_entry : Value → ℕ → Option BotEntry
  named_entry val account_id =
      let name = get_string (field val key_player_name) in
      if not (contains val key_player_name) || not (is_string (field val key_player_name))
      then none
      else if leb name_len (length name) || (has_control name || is_blank name)
      then none
      else finish_entry val account_id name

  -- One turn of the loop over the players; `none` counts as rejected.
  unfoldable pub parse_entry : List ℕ → Value → Option BotEntry
  parse_entry key val = if not (is_object val) then none else elim (parse_account_id key) [
    | none ↦ none
    | some account_id ↦ named_entry val account_id
  ]

  -- The entries that are kept, and how many were rejected.
  unfoldable pub load_entries : List (List ℕ × Value) → List BotEntry × ℕ
  load_entries [] = ([], 0)
  load_entries ((key, val) ∷ rest) =
      let later = load_entries rest in
      elim (parse_entry key val) [ none ↦ (later.0, later.1 + 1) | some e ↦ (e ∷ later.0, later.1) ]

  -- The store with these entries, none of them assigned, and what `Load` returns with it.
  abbrev pub loaded : ℕ → List BotEntry → BotInfoStore × Bool
  loaded seed entries = (
    record {
      entries = entries;
      assigned = replicate (length entries) false;
      rng_state = set_low_bit (u64 seed);
    },
    not (is_empty entries),
  )

  -- `Load` once the file is parsed.
  unfoldable pub load_root : ℕ → Value → BotInfoStore × Bool
  load_root seed root =
      let players = field root key_players in
      if not (is_object root) || (not (contains root key_players) || not (is_object players))
      then loaded seed []
      else loaded seed (load_entries (items players)).0

  -- The store after `Load`, and its result. `seed` is the reading of the clock, `file` the file's
  -- bytes, if it could be opened.
  unfoldable pub load : ℕ → Option (List ℕ) → BotInfoStore × Bool
  load seed none = loaded seed []
  load seed (some bytes) = elim (parse bytes) [
    | none ↦ loaded seed []
    | some root ↦ load_root seed root
  ]
