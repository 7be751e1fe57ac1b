-- ===== src/Tests/Identities.antt =====
-- Runs of the theorems on the SteamIDs and on the configured identities.
use cs2_bot_hider.Base.{
  ℕ, ◌^◌, ◌<◌, ◌≡◌, ◌≢◌, ◌↔◌, ◌==◌, if◌then◌else◌, if_both, ◌||◌, refl, true, false, List, [], ◌∷◌,
  Option, none, some, arith, not, length, set, get_or, ap, bytes_eq,
}
use cs2_bot_hider.Base.Int.{pos}
use cs2_bot_hider.Random.{scramble, draw, next_rand}
use cs2_bot_hider.BotInfo.{
  BotEntry, BotInfoStore, is_empty, pick_for_bot, pick_candidates, scan_entries, draw_candidate,
  release_assignment, name_matches,
}
use cs2_bot_hider.BotInfo.AccountId.{parse_account_id, decimal, parse_account_id-decimal_iff}
use cs2_bot_hider.BotInfo.Load.{Json, load, key_players, key_player_name}
use cs2_bot_hider.BotInfo.Load.Valid.{
  All, IsValid, KeysDistinct, SteamIdsDistinct, load-IsValid, load-SteamIdsDistinct,
}
use cs2_bot_hider.BotInfo.Pick.{
  IsAvailable, pick_for_bot-IsAvailable, pick_for_bot-name_matches, pick_for_bot-some,
  release_assignment-pick_for_bot,
}
use cs2_bot_hider.Manager.{
  is_managed, get_synthetic_sid, init, adopt_slot, clear_slot, adopted, cleared,
}
use cs2_bot_hider.World.{World, bind_slot}
use cs2_bot_hider.Engine.{
  resolve_client_by_slot, resolve_entity_instance, is_hltv, write_steam_id, clear_fake_player,
}
use cs2_bot_hider.Runtime.{
  collect_occupied_steam_ids, managed_steam_ids, client_steam_ids, is_hltv_connection,
  set_controller_fake_client_flag,
}
use cs2_bot_hider.ClientHooks.{on_client_connected, adopt_client, adopt_picked, adopt_entry}
use cs2_bot_hider.Server.{Step, Reachable}
use cs2_bot_hider.Server.Unique.{Reachable-ids-differ}
use cs2_bot_hider.Tests.{quiet, reasons, tables, world, store, entry_of, name_a, name_b}

abbrev started : World
started = record world { manager = init world.manager 0 5 }

abbrev one_bot : World
one_bot = on_client_connected quiet started (pos 0) (some name_a) none true

abbrev two_bots : World
two_bots = on_client_connected quiet one_bot (pos 1) (some name_b) none true

abbrev two_bots-Reachable : Reachable quiet reasons tables two_bots
two_bots-Reachable =
    Reachable.next
      (Reachable.next (Reachable.initial world 0 5)
        (Step.connect started (pos 0) (some name_a) none true))
      (Step.connect one_bot (pos 1) (some name_b) none true)

both_managed : (is_managed two_bots.manager 0 ≡ true) × (is_managed two_bots.manager 1 ≡ true)
unfolding on_client_connected adopt_client adopt_picked adopt_entry is_managed init bytes_eq
    is_hltv_connection resolve_client_by_slot is_hltv collect_occupied_steam_ids client_steam_ids
    managed_steam_ids get_synthetic_sid adopt_slot clear_slot cleared adopted pick_for_bot
    pick_candidates scan_entries draw_candidate next_rand scramble draw bind_slot write_steam_id
    clear_fake_player set_controller_fake_client_flag resolve_entity_instance
both_managed = (refl, refl)

Reachable-ids-differ_example :
    get_synthetic_sid two_bots.manager 0 ≢ get_synthetic_sid two_bots.manager 1
Reachable-ids-differ_example =
    Reachable-ids-differ quiet reasons tables two_bots 0 1 two_bots-Reachable (omega arith)
      (omega arith) (omega arith) both_managed.0 both_managed.1

abbrev text_7 : List ℕ
text_7 = b'7' ∷ []

abbrev text_8 : List ℕ
text_8 = b'8' ∷ []

parse_account_id-decimal_iff_example :
    (parse_account_id text_7 ≡ some 7) ↔ ((text_7 ≡ decimal 7) × (0 < 7) × (7 < 2 ^ 32))
parse_account_id-decimal_iff_example = parse_account_id-decimal_iff text_7 7

-- A file of two players: the value 0 is the root, 1 the players, 2 and 3 the players' objects.
abbrev test_items : ℕ → List (List ℕ × ℕ)
test_items v = if v == 1 then (text_7, 2) ∷ (text_8, 3) ∷ [] else []

abbrev pub json : Json
json = record {
  Value = ℕ;
  parse = λ _. some 0;
  is_object = λ _. true;
  contains = λ v key. bytes_eq key key_players || bytes_eq key key_player_name;
  field = λ v key. if v == 0 then 1 else 4;
  items = test_items;
  is_string = λ _. true;
  get_string = λ _. name_a;
  is_number_integer = λ _. false;
  is_number_unsigned = λ _. false;
  get_integer = λ _. pos 0;
  is_boolean = λ _. false;
  get_boolean = λ _. false;
}

texts_differ : text_8 ≢ text_7
texts_differ e =
    let heads : b'8' ≡ b'7' = ap (λ (s : List ℕ). get_or s 0 0) e in absurd (omega (arith, heads))

test_items-KeysDistinct : (v : ℕ) → KeysDistinct (test_items v)
test_items-KeysDistinct v =
    if_both (λ (xs : List (List ℕ × ℕ)). KeysDistinct xs) (v == 1) ((texts_differ, tt), (tt, tt)) tt

load-SteamIdsDistinct_example : SteamIdsDistinct (load json 5 (some [])).0.entries
load-SteamIdsDistinct_example = load-SteamIdsDistinct json 5 (some []) test_items-KeysDistinct

load-IsValid_example :
    All IsValid (load json 5 (some [])).0.entries
    × (length (load json 5 (some [])).0.assigned ≡ length (load json 5 (some [])).0.entries)
    × All (λ a. a ≡ false) (load json 5 (some [])).0.assigned
    × ((load json 5 (some [])).1 ≡ not (is_empty (load json 5 (some [])).0.entries))
load-IsValid_example = load-IsValid json 5 (some [])

-- B is picked by its name.
abbrev picked : BotInfoStore × Option ℕ
picked = pick_for_bot store (some name_b) []

picked_b : picked ≡ (picked.0, some 1)
unfolding pick_for_bot pick_candidates scan_entries draw_candidate bytes_eq next_rand scramble draw
picked_b = refl

pick_for_bot-IsAvailable_example :
    ((e : BotEntry) × IsAvailable store [] 1 e)
    × (picked.0.entries ≡ store.entries)
    × (picked.0.assigned ≡ set store.assigned 1 true)
pick_for_bot-IsAvailable_example =
    pick_for_bot-IsAvailable store (some name_b) [] picked.0 1 picked_b

release_assignment-pick_for_bot_example :
    (release_assignment picked.0 (some 1)).assigned ≡ store.assigned
release_assignment-pick_for_bot_example =
    release_assignment-pick_for_bot store picked.0 (some name_b) [] 1 picked_b

b-IsAvailable : IsAvailable store [] 1 (entry_of name_b 8)
b-IsAvailable = record { stored = refl; unassigned = refl; unoccupied = refl }

b_matches : name_matches (some name_b) name_b ≡ true
unfolding bytes_eq
b_matches = refl

pick_for_bot-name_matches_example :
    (e : BotEntry) × IsAvailable store [] 1 e × (name_matches (some name_b) e.name ≡ true)
pick_for_bot-name_matches_example =
    pick_for_bot-name_matches store (some name_b) [] picked.0 1 1 (entry_of name_b 8) b-IsAvailable
      b_matches picked_b

pick_for_bot-some_example : (i : ℕ) × (picked.1 ≡ some i)
pick_for_bot-some_example =
    pick_for_bot-some store (some name_b) [] 1 (entry_of name_b 8) b-IsAvailable
