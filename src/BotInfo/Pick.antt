-- ===== src/BotInfo/Pick.antt =====
-- `PickForBot` and `ReleaseAssignment` of src/features/botinfo/bot_info.cpp.
use mathlib.Core.Option.{some-injective}
use cs2_bot_hider.Base.{
  ℕ, zero, suc, ◌+◌, ◌%◌, ◌<◌, ◌≡◌, ◌≢◌, subst, refl, ap, sym, ◌∙◌, Bool, true, false, ◌||◌, inl,
  inr, List, [], ◌∷◌, Option, none, some, arith, length, get_elem?, get_or, set, Bool-cases,
  if◌then◌else◌,
}
use cs2_bot_hider.Random.{next_rand}
use cs2_bot_hider.BotInfo.{
  BotEntry, BotInfoStore, contains, name_matches, scan_entries, is_empty, pick_candidates,
  draw_candidate, pick_for_bot, release_assignment,
}

abbrev All {ℓ κ} : {A : Type ℓ} → (A → Type κ) → List A → Type κ
All P [] = Unit
All P (x ∷ xs) = P x × All P xs

All-get_or {ℓ κ} :
    {A : Type ℓ} (P : A → Type κ) (xs : List A) (i : ℕ) (d : A)
    → All P xs
    → i < length xs
    → P (get_or xs i d)
All-get_or P [] i d h k = absurd (omega arith)
All-get_or P (x ∷ xs) zero d h k = h.0
All-get_or P (x ∷ xs) (suc i) d h k = All-get_or P xs i d h.1 (omega arith)

-- The entry at the index is neither assigned nor occupied.
pub record IsAvailable (store : BotInfoStore) (occupied : List ℕ) (i : ℕ) (e : BotEntry)
    : Type 0 where
  pub stored : get_elem? store.entries i ≡ some e
  pub unassigned : get_or store.assigned i false ≡ false
  pub unoccupied : contains occupied e.steam_id64 ≡ false

or-false : {a b : Bool} → a ≡ false → b ≡ false → (a || b) ≡ false
or-false p q = rw (p, q)

is_empty-if {ℓ} :
    {A : Type ℓ} (x : A) (xs : List A) (b : Bool)
    → is_empty xs ≡ false
    → is_empty (if b then x ∷ xs else xs) ≡ false
is_empty-if x xs true h = refl
is_empty-if x xs false h = h

none-ne-some {ℓ} : {A : Type ℓ} (a : A) → none ≢ some a
none-ne-some a h = cc

module _ (store : BotInfoStore) (name : Option (List ℕ)) (occupied : List ℕ) where
  abbrev scan_from : ℕ → List BotEntry → List ℕ × List ℕ
  scan_from i rest = scan_entries name occupied store.assigned i rest

  abbrev Suffix : ℕ → List BotEntry → Type 0
  Suffix i rest =
      (k : ℕ) (e : BotEntry) → get_elem? rest k ≡ some e → get_elem? store.entries (i + k) ≡ some e

  abbrev Candidate : ℕ → Type 0
  Candidate i = (e : BotEntry) × IsAvailable store occupied i e

  abbrev Match : ℕ → Type 0
  Match i = (e : BotEntry) × IsAvailable store occupied i e × (name_matches name e.name ≡ true)

  Suffix-tail :
      (i : ℕ) (e : BotEntry) (rest : List BotEntry) → Suffix i (e ∷ rest) → Suffix (suc i) rest
  Suffix-tail i e rest h k x eq =
      let shift : i + suc k ≡ suc i + k = omega arith in rw (← shift) (h (suc k) x eq)

  -- All that the loop collects is available, and the second list matches the name.
  scan_entries_sound :
      (i : ℕ) (rest : List BotEntry)
      → Suffix i rest
      → All Candidate (scan_from i rest).0 × All Match (scan_from i rest).1
  unfolding scan_entries
  scan_entries_sound i [] h = (tt, tt)
  scan_entries_sound i (e ∷ rest) h =
      let (later, matching) = scan_entries_sound (suc i) rest (Suffix-tail i e rest h) in
      let here : get_elem? store.entries i ≡ some e =
        let start : i + 0 ≡ i = omega arith in rw (← start) (h 0 e refl) in
      elim (Bool-cases (get_or store.assigned i false || contains occupied e.steam_id64)) [
        | inl taken ↦ rw taken (later, matching)
        | inr free ↦
            let a : IsAvailable store occupied i e = record {
              stored = here;
              unassigned = ground arith;
              unoccupied = ground arith;
            } in
            rw free (
              ((e, a), later),
              elim (Bool-cases (name_matches name e.name)) [
                | inl m ↦ rw m ((e, a, m), matching)
                | inr m ↦ rw m matching
              ],
            )
      ]

  -- The loop misses no available entry.
  scan_entries_complete :
      (i : ℕ) (rest : List BotEntry) (k : ℕ) (e : BotEntry)
      → get_elem? rest k ≡ some e
      → get_or store.assigned (i + k) false ≡ false
      → contains occupied e.steam_id64 ≡ false
      → (is_empty (scan_from i rest).0 ≡ false)
        × (name_matches name e.name ≡ true → is_empty (scan_from i rest).1 ≡ false)
  unfolding scan_entries
  scan_entries_complete i [] k e h p q = absurd (ground arith)
  scan_entries_complete i (x ∷ rest) zero e h p q =
      let same : x ≡ e = some-injective x e h in
      let start : i + 0 ≡ i = omega arith in
      let free : (get_or store.assigned i false || contains occupied x.steam_id64) ≡ false =
        rw same (or-false (rw start at p) q) in
      rw free (refl, λ m. rw (rw (← same) at m))
  scan_entries_complete i (x ∷ rest) (suc k) e h p q =
      let shift : i + suc k ≡ suc i + k = omega arith in
      let (available, matching) = scan_entries_complete (suc i) rest k e h (rw shift at p) q in
      elim (Bool-cases (get_or store.assigned i false || contains occupied x.steam_id64)) [
        | inl taken ↦ rw taken (available, matching)
        | inr free ↦ rw free (refl, λ m. is_empty-if _ _ (name_matches name x.name) (matching m))
      ]

  whole-Suffix : Suffix 0 store.entries
  whole-Suffix k e h = let start : 0 + k ≡ k = omega arith in rw start h

  pick_candidates_sound : All Candidate (pick_candidates store name occupied)
  unfolding pick_candidates
  pick_candidates_sound =
      let (available, matching) = scan_entries_sound 0 store.entries whole-Suffix in
      let found = scan_from 0 store.entries in
      elim (Bool-cases (is_empty found.1)) [
        | inl e ↦ rw e available
        | inr e ↦ rw e (Match-Candidate found.1 matching)
      ]
    where
      Match-Candidate : (xs : List ℕ) → All Match xs → All Candidate xs
      Match-Candidate [] h = tt
      Match-Candidate (x ∷ xs) ((e, a, m), h) = ((e, a), Match-Candidate xs h)

  -- Where some available entry matches the name, all candidates do.
  pick_candidates-matching :
      (i : ℕ) (e : BotEntry)
      → IsAvailable store occupied i e
      → name_matches name e.name ≡ true
      → All Match (pick_candidates store name occupied)
  unfolding pick_candidates
  pick_candidates-matching i e a m =
      let (_, matching) = scan_entries_sound 0 store.entries whole-Suffix in
      let start : 0 + i ≡ i = omega arith in
      let (_, found) =
        scan_entries_complete 0 store.entries i e a.stored (rw start a.unassigned) a.unoccupied in
      rw (found m) matching

  pick_candidates-some :
      (i : ℕ) (e : BotEntry)
      → IsAvailable store occupied i e
      → is_empty (pick_candidates store name occupied) ≡ false
  unfolding pick_candidates
  pick_candidates-some i e a =
      let start : 0 + i ≡ i = omega arith in
      let (found, _) =
        scan_entries_complete 0 store.entries i e a.stored (rw start a.unassigned) a.unoccupied in
      elim (Bool-cases (is_empty (scan_from 0 store.entries).1)) [
        | inl none_match ↦ rw none_match found
        | inr some_match ↦ rw some_match some_match
      ]

-- What is drawn is one of the candidates.
draw_candidate-drawn {κ} :
    (P : ℕ → Type κ) (store store' : BotInfoStore) (candidates : List ℕ) (i : ℕ)
    → All P candidates
    → draw_candidate store candidates ≡ (store', some i)
    → P i × (store'.entries ≡ store.entries) × (store'.assigned ≡ set store.assigned i true)
unfolding draw_candidate
draw_candidate-drawn P store store' [] i all e =
    absurd (none-ne-some i (ap (λ (r : BotInfoStore × Option ℕ). r.1) e))
draw_candidate-drawn P store store' (c ∷ cs) i all e =
    let at = (next_rand store.rng_state).1 % length (c ∷ cs) in
    let inside : at < length (c ∷ cs) = omega arith in
    let drawn : get_or (c ∷ cs) at 0 ≡ i =
      some-injective _ _ (ap (λ (r : BotInfoStore × Option ℕ). r.1) e) in
    let left = ap (λ (r : BotInfoStore × Option ℕ). r.0) e in
    (
      subst P drawn (All-get_or P (c ∷ cs) at 0 all inside),
      ap (λ (s : BotInfoStore). s.entries) (sym left),
      ap (λ (s : BotInfoStore). s.assigned) (sym left)
          ∙ ap (λ (j : ℕ). set store.assigned j true) drawn,
    )

draw_candidate-some :
    (store : BotInfoStore) (candidates : List ℕ)
    → is_empty candidates ≡ false
    → (i : ℕ) × ((draw_candidate store candidates).1 ≡ some i)
unfolding draw_candidate
draw_candidate-some store [] h = cc
draw_candidate-some store (c ∷ cs) h = (_, refl)

module _ (store : BotInfoStore) (name : Option (List ℕ)) (occupied : List ℕ) where
  -- An identity that is handed out was neither assigned nor occupied; the call assigns it, and
  -- changes no entry and no other assignment.
  pub pick_for_bot-IsAvailable :
      (store' : BotInfoStore) (i : ℕ)
      → pick_for_bot store name occupied ≡ (store', some i)
      → ((e : BotEntry) × IsAvailable store occupied i e)
        × (store'.entries ≡ store.entries)
        × (store'.assigned ≡ set store.assigned i true)
  unfolding pick_for_bot
  pick_for_bot-IsAvailable store' i eq =
      draw_candidate-drawn (Candidate store name occupied) store store' _ i
        (pick_candidates_sound store name occupied) eq

  -- Where an available identity has the engine's name for the bot, the one that is handed out has
  -- that name, too.
  pub pick_for_bot-name_matches :
      (store' : BotInfoStore) (i j : ℕ) (x : BotEntry)
      → IsAvailable store occupied j x
      → name_matches name x.name ≡ true
      → pick_for_bot store name occupied ≡ (store', some i)
      → (e : BotEntry) × IsAvailable store occupied i e × (name_matches name e.name ≡ true)
  unfolding pick_for_bot
  pick_for_bot-name_matches store' i j x a m eq =
      (draw_candidate-drawn (Match store name occupied) store store' _ i
        (pick_candidates-matching store name occupied j x a m) eq).0

  -- As long as some identity is available, the call hands one out.
  pub pick_for_bot-some :
      (j : ℕ) (x : BotEntry)
      → IsAvailable store occupied j x
      → (i : ℕ) × ((pick_for_bot store name occupied).1 ≡ some i)
  unfolding pick_for_bot
  pick_for_bot-some j x a =
      draw_candidate-some store _ (pick_candidates-some store name occupied j x a)

set-set_back :
    (xs : List Bool) (i : ℕ) → get_or xs i false ≡ false → set (set xs i true) i false ≡ xs
set-set_back [] i h = refl
set-set_back (x ∷ xs) zero h = ap (λ (b : Bool). b ∷ xs) (sym h)
set-set_back (x ∷ xs) (suc i) h = ap (◌∷◌ x) (set-set_back xs i h)

-- To release an identity right after it was handed out gives the assignments back as they were.
pub release_assignment-pick_for_bot :
    (store store' : BotInfoStore) (name : Option (List ℕ)) (occupied : List ℕ) (i : ℕ)
    → pick_for_bot store name occupied ≡ (store', some i)
    → (release_assignment store' (some i)).assigned ≡ store.assigned
unfolding release_assignment
release_assignment-pick_for_bot store store' name occupied i eq =
    let ((_, a), _, marked) = pick_for_bot-IsAvailable store name occupied store' i eq in
    ap (λ (xs : List Bool). set xs i false) marked ∙ set-set_back store.assigned i a.unassigned
