-- ===== src/Runtime/Occupied.antt =====
-- `CollectOccupiedSteamIds`: no SteamID of another managed slot is missed.
use native.Mathlib.Decide.{ℕ_discrete}
use cs2_bot_hider.Base.{
  ℕ, zero, suc, ◌<◌, ◌≡◌, ◌≢◌, refl, ◌∙◌, Bool, true, false, ◌||◌, ◌&&◌, not, List, [], ◌∷◌, ◌++◌,
  some, arith, ◌==◌, Bool-cases, inl, inr, Option-cases, ==_refl,
}
use cs2_bot_hider.Base.Int.{ℤ, pos_part}
use cs2_bot_hider.BotInfo.{contains}
use cs2_bot_hider.Snapshot.{max_slots}
use cs2_bot_hider.Manager.{is_managed, get_synthetic_sid}
use cs2_bot_hider.World.{World}
use cs2_bot_hider.Runtime.{
  SteamIdAvailability, client_steam_ids, managed_steam_ids, collect_occupied_steam_ids,
  check_steam_id_availability,
}

or-true : (b : Bool) → (b || true) ≡ true
or-true true = refl
or-true false = refl

contains-append :
    (xs ys : List ℕ) (a : ℕ) → contains (xs ++ ys) a ≡ (contains xs a || contains ys a)
contains-append [] ys a = refl
contains-append (x ∷ xs) ys a = ground (arith, contains-append xs ys a)

managed_steam_ids-contains :
    (w : World) (slot n j : ℕ)
    → j < n
    → j ≢ slot
    → is_managed w.manager j ≡ true
    → contains (managed_steam_ids w slot n) (get_synthetic_sid w.manager j) ≡ true
unfolding managed_steam_ids
managed_steam_ids-contains w slot zero j h ne m = absurd (omega arith)
managed_steam_ids-contains w slot (suc n) j h ne m = elim (ℕ_discrete j n) [
  | yes same ↦
      let here : (not (n == slot) && is_managed w.manager n) ≡ true =
        let k : is_managed w.manager n ≡ true = rw same at m in
        let other : n ≢ slot = λ e. ne (same ∙ e) in ground arith in
      rw (here, same) (rw (==_refl (get_synthetic_sid w.manager n)) refl)
  | no other ↦
      let lower = managed_steam_ids-contains w slot n j (omega arith) ne m in
      elim (Bool-cases (not (n == slot) && is_managed w.manager n)) [
        | inl here ↦ rw (here, lower) (ground arith)
        | inr here ↦ rw here lower
      ]
]

collect_inv :
    (w : World) (slot : ℤ) (occupied : List ℕ)
    → collect_occupied_steam_ids w slot ≡ some occupied
    → (ids : List ℕ) × (occupied ≡ ids ++ managed_steam_ids w (pos_part slot) max_slots)
unfolding collect_occupied_steam_ids
collect_inv w slot occupied e = elim (Option-cases w.engine.server_clients) [
  | inl absent ↦ absurd (ground arith)
  | inr (clients, listed) ↦ (client_steam_ids w.engine (pos_part slot) 0 clients, ground arith)
]

-- What another managed slot has as its SteamID is among the occupied ones.
pub collect_occupied_steam_ids-contains :
    (w : World) (slot : ℤ) (occupied : List ℕ) (j : ℕ)
    → collect_occupied_steam_ids w slot ≡ some occupied
    → j < max_slots
    → j ≢ pos_part slot
    → is_managed w.manager j ≡ true
    → contains occupied (get_synthetic_sid w.manager j) ≡ true
collect_occupied_steam_ids-contains w slot occupied j e h ne m =
    let (ids, whole) = collect_inv w slot occupied e in
    let listed = managed_steam_ids-contains w (pos_part slot) max_slots j h ne m in
    let split =
      contains-append ids (managed_steam_ids w (pos_part slot) max_slots)
        (get_synthetic_sid w.manager j) in
    rw (whole, split, listed) (or-true (contains ids (get_synthetic_sid w.manager j)))

-- A SteamID that the check calls available for a slot is not 0, and no other managed slot has
-- it.
pub check_steam_id_availability-fresh :
    (w : World) (slot : ℤ) (steam_id j : ℕ)
    → check_steam_id_availability w slot steam_id ≡ SteamIdAvailability.available
    → j < max_slots
    → j ≢ pos_part slot
    → is_managed w.manager j ≡ true
    → (steam_id ≢ 0) × (get_synthetic_sid w.manager j ≢ steam_id)
unfolding check_steam_id_availability
check_steam_id_availability-fresh w slot steam_id j e h ne m =
    elim (Option-cases (collect_occupied_steam_ids w slot)) [
      | inl failed ↦ absurd (ground arith)
      | inr (occupied, found) ↦
          let listed = collect_occupied_steam_ids-contains w slot occupied j found h ne m in
          (
            (λ zero_id. ground arith),
            λ same.
                let clash : contains occupied steam_id ≡ true = rw same at listed in ground arith,
          )
    ]
