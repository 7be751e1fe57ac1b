-- ===== src/BotInfo.antt =====
-- src/features/botinfo/bot_info.h and src/features/botinfo/bot_info.cpp: the configured identities
-- and which of them are in use. A `const BotEntry*` is the entry's index in `m_entries`, which does
-- not change between loads; a null pointer is `none`.
pub mod AccountId
pub mod Load
pub mod Pick
use cs2_bot_hider.Base.{
  ℕ, suc, ◌+◌, ◌%◌, ◌≡◌, Bool, true, false, ◌||◌, ◌&&◌, List, [], ◌∷◌, Option, none, some, map,
  ◌==◌, if◌then◌else◌, bytes_eq, length, get_or, set, any,
}
use cs2_bot_hider.Random.{next_rand}

pub record ClanTag : Type 0 where
  pub tag : List ℕ
  pub group_id : ℕ

abbrev pub no_clan_tag : ClanTag
no_clan_tag = record { tag = []; group_id = 0 }

pub record BotEntry : Type 0 where
  pub name : List ℕ
  pub account_id : ℕ
  pub steam_id64 : ℕ
  pub crosshair_code : List ℕ
  pub scoreboard_flair : ℕ
  pub clan_tag : ClanTag

pub record BotInfoStore : Type 0 where
  pub entries : List BotEntry
  pub assigned : List Bool
  pub rng_state : ℕ

-- The keys of the `unordered_set` of SteamIDs; the program only asks for membership.
abbrev pub contains : List ℕ → ℕ → Bool
contains ids id = any (λ x. x == id) ids

-- Whether the engine's name for the bot, if it has one, is this one.
abbrev pub name_matches : Option (List ℕ) → List ℕ → Bool
name_matches none name = false
name_matches (some engine_name) name = bytes_eq name engine_name

-- The loop of `PickForBot` from index `i` on: the indices that are available, and those among them
-- whose name matches.
unfoldable pub scan_entries :
    Option (List ℕ) → List ℕ → List Bool → ℕ → List BotEntry → List ℕ × List ℕ
scan_entries engine_name occupied assigned i [] = ([], [])
scan_entries engine_name occupied assigned i (entry ∷ rest) =
    let later = scan_entries engine_name occupied assigned (suc i) rest in
    if get_or assigned i false || contains occupied entry.steam_id64
    then later
    else (i ∷ later.0, if name_matches engine_name entry.name then i ∷ later.1 else later.1)

abbrev pub is_empty {ℓ} : {A : Type ℓ} → List A → Bool
is_empty [] = true
is_empty (x ∷ xs) = false

-- The indices among which `PickForBot` draws.
unfoldable pub pick_candidates : BotInfoStore → Option (List ℕ) → List ℕ → List ℕ
pick_candidates store engine_name occupied =
    let found = scan_entries engine_name occupied store.assigned 0 store.entries in
    if is_empty found.1 then found.0 else found.1

-- The draw; there is nothing to draw from an empty vector.
unfoldable pub draw_candidate : BotInfoStore → List ℕ → BotInfoStore × Option ℕ
draw_candidate store [] = (store, none)
draw_candidate store (first ∷ others) =
    let candidates = first ∷ others in
    let drawn = next_rand store.rng_state in
    let pick = get_or candidates (drawn.1 % length candidates) 0 in
    (record store { assigned = set store.assigned pick true; rng_state = drawn.0 }, some pick)

unfoldable pub pick_for_bot : BotInfoStore → Option (List ℕ) → List ℕ → BotInfoStore × Option ℕ
unfolding draw_candidate
pick_for_bot store engine_name occupied =
    draw_candidate store (pick_candidates store engine_name occupied)

unfoldable pub release_assignment : BotInfoStore → Option ℕ → BotInfoStore
release_assignment store none = store
release_assignment store (some entry) = record store { assigned = set store.assigned entry false }

unfoldable pub reset_assignments : BotInfoStore → BotInfoStore
reset_assignments store = record store { assigned = map (λ _. false) store.assigned }
