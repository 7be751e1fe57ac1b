-- ===== src/BotInfo/Load/Valid.antt =====
-- What `Load` lets into the store.
use mathlib.Core.Option.{some-injective}
use cs2_bot_hider.Base.{
  zero, suc, replicate, length-replicate, Bool-cases, if◌then◌else◌, subst, leb, not, ◌||◌, ℕ, ◌+◌,
  ◌^◌, ◌<◌, ◌≡◌, ◌≢◌, refl, ap, sym, ◌∙◌, Bool, true, false, ◌⊎◌, inl, inr, List, [], ◌∷◌, Option,
  none, some, arith, length, Option-cases,
}
use cs2_bot_hider.Text.{NoNul}
use cs2_bot_hider.BotInfo.{BotEntry, BotInfoStore, is_empty}
use cs2_bot_hider.BotInfo.AccountId.{parse_account_id, parse_account_id-decimal_iff, decimal}
use cs2_bot_hider.BotInfo.Load.{
  load_root, key_players, loaded, load, Json, name_len, key_clan_tag, steam_id64_base, has_nul,
  has_control, parse_clan_tag, read_crosshair, read_flair, finish_entry, named_entry, is_blank,
  key_player_name, parse_entry, load_entries,
}

abbrev pub All {ℓ κ} : {A : Type ℓ} → (A → Type κ) → List A → Type κ
All P [] = Unit
All P (x ∷ xs) = P x × All P xs

-- An entry that the bridge can publish whole.
pub record IsValid (e : BotEntry) : Type 0 where
  pub id_pos : 0 < e.account_id
  pub id_small : e.account_id < 2 ^ 32
  pub steam : e.steam_id64 ≡ steam_id64_base + e.account_id
  pub name_some : 0 < length e.name
  pub name_short : length e.name < 32
  pub name_text : NoNul e.name
  pub code_short : length e.crosshair_code < 64
  pub code_text : NoNul e.crosshair_code
  pub flair_small : e.scoreboard_flair < 2 ^ 16
  pub tag_short : length e.clan_tag.tag < 128
  pub tag_text : NoNul e.clan_tag.tag
  pub tag_pair : (e.clan_tag.group_id ≡ 0) ⊎ (0 < length e.clan_tag.tag)
  pub group_small : e.clan_tag.group_id < 2 ^ 32

has_nul-NoNul : (s : List ℕ) → has_nul s ≡ false → NoNul s
has_nul-NoNul [] h = tt
has_nul-NoNul (c ∷ s) h = ground (arith, has_nul-NoNul s)

has_control-NoNul : (s : List ℕ) → has_control s ≡ false → NoNul s
has_control-NoNul [] h = tt
has_control-NoNul (c ∷ s) h = ground (arith, has_control-NoNul s)

is_blank-length : (name : List ℕ) → is_blank name ≡ false → 0 < length name
is_blank-length [] h = cc
is_blank-length (c ∷ s) h = omega arith

name_tests :
    (name : List ℕ)
    → (leb name_len (length name) || (has_control name || is_blank name)) ≡ false
    → (0 < length name) × (length name < 32) × NoNul name
name_tests name h = ground (arith, is_blank-length name, has_control-NoNul name)

if-none-some {ℓ} :
    {A : Type ℓ} {a e : A} (b : Bool)
    → (if b then none else some a) ≡ some e
    → (b ≡ false) × (a ≡ e)
if-none-some true h = cc
if-none-some false h = (refl, some-injective _ _ h)

if-none-else {ℓ} :
    {A : Type ℓ} {o : Option A} {e : A} (b : Bool)
    → (if b then none else o) ≡ some e
    → (b ≡ false) × (o ≡ some e)
if-none-else true h = cc
if-none-else false h = (refl, h)

module _ (json : Json) (val : json.Value) where
  parse_clan_tag_bounds :
      let c = parse_clan_tag json val in
      (length c.tag < 128)
      × NoNul c.tag
      × ((c.group_id ≡ 0) ⊎ (0 < length c.tag))
      × (c.group_id < 2 ^ 32)
  unfolding parse_clan_tag
  parse_clan_tag_bounds =
      ground (arith, has_nul-NoNul (json.get_string (json.field val key_clan_tag)))

  read_flair_bound : read_flair json val < 2 ^ 16
  unfolding read_flair
  read_flair_bound = ground arith

  finish_entry-IsValid :
      (id : ℕ) (name : List ℕ) (e : BotEntry)
      → 0 < id
      → id < 2 ^ 32
      → 0 < length name
      → length name < 32
      → NoNul name
      → finish_entry json val id name ≡ some e
      → IsValid e × (e.account_id ≡ id)
  unfolding finish_entry
  finish_entry-IsValid id name e h k p q t eq =
      let code = read_crosshair json val in
      let tag = parse_clan_tag_bounds in
      let (kept, same) = if-none-some _ eq in
      let text = has_nul-NoNul code in
      (
        subst IsValid same (record {
          id_pos = h;
          id_small = k;
          steam = refl;
          name_some = p;
          name_short = q;
          name_text = t;
          code_short = ground arith;
          code_text = ground (arith, text);
          flair_small = read_flair_bound;
          tag_short = tag.0;
          tag_text = tag.1;
          tag_pair = tag.2;
          group_small = tag.3;
        }),
        ap (λ (x : BotEntry). x.account_id) (sym same),
      )

  named_entry-IsValid :
      (id : ℕ) (e : BotEntry)
      → 0 < id
      → id < 2 ^ 32
      → named_entry json val id ≡ some e
      → IsValid e × (e.account_id ≡ id)
  unfolding named_entry
  named_entry-IsValid id e h k eq =
      let name = json.get_string (json.field val key_player_name) in
      let (_, found) =
        if-none-else
          (not (json.contains val key_player_name)
            || not (json.is_string (json.field val key_player_name)))
          eq in
      let (tests, finished) =
        if-none-else (leb name_len (length name) || (has_control name || is_blank name)) found in
      let (some_text, short, text) = name_tests name tests in
      finish_entry-IsValid id name e h k some_text short text finished

-- A key and its value become an entry only if the key is the entry's account ID.
parse_entry-IsValid :
    (json : Json) (key : List ℕ) (val : json.Value) (e : BotEntry)
    → parse_entry json key val ≡ some e
    → IsValid e × (key ≡ decimal e.account_id)
unfolding parse_entry
parse_entry-IsValid json key val e eq = elim (Option-cases (parse_account_id key)) [
  | inl bad ↦ ground arith
  | inr (id, good) ↦
      let (text, h, k) = (parse_account_id-decimal_iff key id).0 good in
      let (valid, same) = named_entry-IsValid json val id e h k (ground arith) in
      (valid, rw same text)
]

load_entries-IsValid :
    (json : Json) (items : List (List ℕ × json.Value)) → All IsValid (load_entries json items).0
unfolding load_entries
load_entries-IsValid json [] = tt
load_entries-IsValid json ((key, val) ∷ rest) = elim (Option-cases (parse_entry json key val)) [
  | inl e ↦ rw (e, load_entries) (load_entries-IsValid json rest)
  | inr (entry, e) ↦
      rw (e, load_entries)
        ((parse_entry-IsValid json key val entry e).0, load_entries-IsValid json rest)
]

-- No key of the rest is this one, as the keys of a JSON object are.
abbrev pub Absent {ℓ} : {A : Type ℓ} → List ℕ → List (List ℕ × A) → Type ℓ
Absent key [] = Unit
Absent key ((k, v) ∷ rest) = (k ≢ key) × Absent key rest

abbrev pub KeysDistinct {ℓ} : {A : Type ℓ} → List (List ℕ × A) → Type ℓ
KeysDistinct [] = Unit
KeysDistinct ((k, v) ∷ rest) = Absent k rest × KeysDistinct rest

-- No two entries have one SteamID.
abbrev pub SteamIdsDistinct : List BotEntry → Type 0
SteamIdsDistinct [] = Unit
SteamIdsDistinct (e ∷ rest) = All (λ x. x.steam_id64 ≢ e.steam_id64) rest × SteamIdsDistinct rest

load_entries-Absent :
    (json : Json) (items : List (List ℕ × json.Value)) (n : ℕ)
    → Absent (decimal n) items
    → All (λ x. x.steam_id64 ≢ steam_id64_base + n) (load_entries json items).0
unfolding load_entries
load_entries-Absent json [] n h = tt
load_entries-Absent json ((key, val) ∷ rest) n h = elim (Option-cases (parse_entry json key val)) [
  | inl e ↦ rw (e, load_entries) (load_entries-Absent json rest n h.1)
  | inr (entry, e) ↦
      let (valid, text) = parse_entry-IsValid json key val entry e in
      let other : entry.steam_id64 ≢ steam_id64_base + n = λ same.
        let id : entry.account_id ≡ n = omega (arith, valid.steam, same) in
        h.0 (text ∙ ap decimal id) in
      rw (e, load_entries) (other, load_entries-Absent json rest n h.1)
]

load_entries-distinct :
    (json : Json) (items : List (List ℕ × json.Value))
    → KeysDistinct items
    → SteamIdsDistinct (load_entries json items).0
unfolding load_entries
load_entries-distinct json [] h = tt
load_entries-distinct json ((key, val) ∷ rest) h = elim (Option-cases (parse_entry json key val)) [
  | inl e ↦ rw (e, load_entries) (load_entries-distinct json rest h.1)
  | inr (entry, e) ↦
      let (valid, text) = parse_entry-IsValid json key val entry e in
      let absent : Absent (decimal entry.account_id) rest =
        subst (λ (k : List ℕ). Absent k rest) text h.0 in
      let others = load_entries-Absent json rest entry.account_id absent in
      let same =
        λ (xs : List BotEntry) (t : ℕ) (eq : entry.steam_id64 ≡ t)
            (a : All (λ x. x.steam_id64 ≢ t) xs).
          subst (λ (u : ℕ). All (λ (x : BotEntry). x.steam_id64 ≢ u) xs) (sym eq) a in
      rw (e, load_entries)
        (same (load_entries json rest).0 _ valid.steam others, load_entries-distinct json rest h.1)
]

-- What `Load` leaves is the empty store or that of the players' entries.
load_cases {ℓ} :
    (json : Json) (P : BotInfoStore × Bool → Type ℓ) (seed : ℕ) (file : Option (List ℕ))
    → P (loaded json seed [])
    → ((root : json.Value)
        → P (loaded json seed (load_entries json (json.items (json.field root key_players))).0))
    → P (load json seed file)
unfolding load load_root
load_cases json P seed none h k = h
load_cases json P seed (some bytes) h k = elim (Option-cases (json.parse bytes)) [
  | inl e ↦ rw (e, load) h
  | inr (root, e) ↦
      rw (e, load) (elim (Bool-cases (bad root)) [ inl b ↦ rw b h | inr b ↦ rw b (k root) ])
]
  where
    bad : json.Value → Bool
    bad root =
        not (json.is_object root)
        || (not (json.contains root key_players)
            || not (json.is_object (json.field root key_players)))

replicate-false : (n : ℕ) → All (λ a. a ≡ false) (replicate n false)
replicate-false zero = tt
replicate-false (suc n) = (refl, replicate-false n)

-- Whatever the file holds, or if there is none: every entry in the store is valid, there is a mark
-- for each entry, no entry is assigned yet, and the result says whether there is any entry.
pub load-IsValid :
    (json : Json) (seed : ℕ) (file : Option (List ℕ))
    → let r = load json seed file in
      All IsValid r.0.entries
      × (length r.0.assigned ≡ length r.0.entries)
      × All (λ a. a ≡ false) r.0.assigned
      × (r.1 ≡ not (is_empty r.0.entries))
load-IsValid json seed file =
    load_cases json
      (λ r.
        All IsValid r.0.entries
        × (length r.0.assigned ≡ length r.0.entries)
        × All (λ a. a ≡ false) r.0.assigned
        × (r.1 ≡ not (is_empty r.0.entries)))
      seed file (tt, refl, tt, refl)
      λ root.
        let entries = (load_entries json (json.items (json.field root key_players))).0 in
        (
          load_entries-IsValid json _,
          length-replicate (length entries) false,
          replicate-false (length entries),
          refl,
        )

-- If the keys of each object are distinct, as JSON libraries keep them, the store never holds one
-- SteamID twice.
pub load-SteamIdsDistinct :
    (json : Json) (seed : ℕ) (file : Option (List ℕ))
    → ((v : json.Value) → KeysDistinct (json.items v))
    → SteamIdsDistinct (load json seed file).0.entries
load-SteamIdsDistinct json seed file distinct =
    load_cases json (λ r. SteamIdsDistinct r.0.entries) seed file tt
      λ root. load_entries-distinct json _ (distinct _)
