-- ===== src/Config.antt =====
-- src/core/config.cpp and src/core/config.h: the settings of config.json. The JSON library is the
-- interface `Json` of BotInfo/Load; a parse error and a discarded value are both `none`.
pub mod Range
use cs2_bot_hider.Base.{
  ℕ, Bool, true, false, ◌||◌, ◌&&◌, not, List, [], ◌∷◌, Option, none, some, leb, if◌then◌else◌,
  bytes_eq,
}
use cs2_bot_hider.Base.Int.{ℤ, pos, pos_part, leb_ℤ}
use cs2_bot_hider.BotInfo.Load.{Json}

pub record Settings : Type 0 where
  pub bot_mode : Bool
  pub fake_ping_enabled : Bool
  pub fake_ping_min : ℕ
  pub fake_ping_max : ℕ

abbrev pub default_settings : Settings
default_settings = record {
  bot_mode = false;
  fake_ping_enabled = true;
  fake_ping_min = 20;
  fake_ping_max = 90;
}

abbrev pub key_identity_mode : List ℕ
key_identity_mode =
    b'i' ∷ b'd' ∷ b'e' ∷ b'n' ∷ b't' ∷ b'i' ∷ b't' ∷ b'y' ∷ b'_' ∷ b'm' ∷ b'o' ∷ b'd' ∷ b'e' ∷ []

abbrev pub key_fake_ping : List ℕ
key_fake_ping = b'f' ∷ b'a' ∷ b'k' ∷ b'e' ∷ b'_' ∷ b'p' ∷ b'i' ∷ b'n' ∷ b'g' ∷ []

abbrev pub key_enabled : List ℕ
key_enabled = b'e' ∷ b'n' ∷ b'a' ∷ b'b' ∷ b'l' ∷ b'e' ∷ b'd' ∷ []

abbrev pub key_min : List ℕ
key_min = b'm' ∷ b'i' ∷ b'n' ∷ []

abbrev pub key_max : List ℕ
key_max = b'm' ∷ b'a' ∷ b'x' ∷ []

abbrev pub mode_bot : List ℕ
mode_bot = b'b' ∷ b'o' ∷ b't' ∷ []

-- The range, if it is accepted.
abbrev pub with_range : Settings → Option ℕ → Option ℕ → Settings
with_range s none maximum = s
with_range s (some minimum) none = s
with_range s (some minimum) (some maximum) =
    if leb minimum maximum then record s { fake_ping_min = minimum; fake_ping_max = maximum } else s

module _ (json : Json) where
  open json use {
    Value, parse, is_object, contains, field, is_string, get_string, is_number_integer, get_integer,
    is_boolean, get_boolean,
  }

  -- `readPing`: what is written to `output`, or `none` where it returns false.
  unfoldable pub read_ping : Value → List ℕ → ℕ → Option ℕ
  read_ping fake_ping key output =
      let it = field fake_ping key in
      if not (contains fake_ping key)
      then some output
      else if not (is_number_integer it)
          || not (leb_ℤ (pos 1) (get_integer it) && leb_ℤ (get_integer it) (pos 999))
      then none
      else some (pos_part (get_integer it))

  unfoldable pub read_mode : Value → Settings → Settings
  read_mode config s =
      let mode = field config key_identity_mode in
      if contains config key_identity_mode && is_string mode
      then if bytes_eq (get_string mode) mode_bot then record s { bot_mode = true } else s
      else s

  unfoldable pub read_fake_ping : Value → Settings → Settings
  unfolding read_ping
  read_fake_ping config s =
      let fake_ping = field config key_fake_ping in
      let enabled = field fake_ping key_enabled in
      let switched =
        if contains fake_ping key_enabled && is_boolean enabled
        then record s { fake_ping_enabled = get_boolean enabled }
        else s in
      if contains config key_fake_ping && is_object fake_ping
      then with_range switched (read_ping fake_ping key_min switched.fake_ping_min)
          (read_ping fake_ping key_max switched.fake_ping_max)
      else s

  -- `file` is the text of config.json, if it could be opened; without it the defaults hold, and the
  -- source writes them to a new file.
  unfoldable pub load_settings : Option (List ℕ) → Settings
  unfolding read_mode read_fake_ping
  load_settings none = default_settings
  load_settings (some text) = elim (parse text) [
    | none ↦ default_settings
    | some config ↦
        if is_object config
        then read_fake_ping config (read_mode config default_settings)
        else default_settings
  ]
