-- ===== src/World/Identities.antt =====
-- No two managed slots have one SteamID: what each change of the manager does to that.
use native.Mathlib.Decide.{ℕ_discrete}
use cs2_bot_hider.Base.{ℕ, ◌<◌, ◌≡◌, ◌≢◌, ap, sym, ◌∙◌, true, not, List, Option, arith, ◌==◌}
use cs2_bot_hider.Snapshot.{max_slots}
use cs2_bot_hider.Manager.{
  Manager, ManagedSlot, Persona, cleared, adopted, adopt_slot, release_slot, release_all,
  is_managed, get_synthetic_sid, set_synthetic_sid, set_slot_name, on_tick, tick_slot,
}
use cs2_bot_hider.Manager.Slots.{update_self, update_ne, adopt_slot_self, release_all-slots}

abbrev pub HasUniqueIds : Manager → Type 0
HasUniqueIds m =
    (i j : ℕ)
    → i < max_slots
    → j < max_slots
    → i ≢ j
    → is_managed m i ≡ true
    → is_managed m j ≡ true
    → get_synthetic_sid m i ≢ get_synthetic_sid m j

managed_of_slot :
    (m m' : Manager) (j : ℕ)
    → m'.slots j ≡ m.slots j
    → (is_managed m' j ≡ is_managed m j) × (get_synthetic_sid m' j ≡ get_synthetic_sid m j)
unfolding is_managed get_synthetic_sid
managed_of_slot m m' j e = (
  ap (λ (s : ManagedSlot). not (s.snapshot.managed == 0)) e,
  ap (λ (s : ManagedSlot). s.snapshot.steam_id) e,
)

-- Every slot keeps its SteamID, and none becomes managed.
pub HasUniqueIds-shrink :
    (m m' : Manager)
    → ((j : ℕ)
        → is_managed m' j ≡ true
        → (is_managed m j ≡ true) × (get_synthetic_sid m' j ≡ get_synthetic_sid m j))
    → HasUniqueIds m
    → HasUniqueIds m'
HasUniqueIds-shrink m m' keep u i j p q ne mi mj =
    let (ki, si) = keep i mi in
    let (kj, sj) = keep j mj in λ same. u i j p q ne ki kj (sym si ∙ (same ∙ sj))

-- One slot takes a SteamID that no other managed slot has.
pub HasUniqueIds-claim :
    (m m' : Manager) (slot : ℕ)
    → ((j : ℕ) → slot ≢ j → m'.slots j ≡ m.slots j)
    → ((j : ℕ)
        → j < max_slots
        → j ≢ slot
        → is_managed m j ≡ true
        → get_synthetic_sid m j ≢ get_synthetic_sid m' slot)
    → HasUniqueIds m
    → HasUniqueIds m'
HasUniqueIds-claim m m' slot kept fresh u i j p q ne mi mj = elim (ℕ_discrete slot i) [
  | yes here ↦
      let apart : slot ≢ j = λ e. ne (sym here ∙ e) in
      let (kj, sj) = managed_of_slot m m' j (kept j apart) in
      λ same.
        fresh j q (λ e. apart (sym e)) (sym kj ∙ mj)
          (sym sj ∙ (sym same ∙ ap (get_synthetic_sid m') (sym here)))
  | no other ↦ elim (ℕ_discrete slot j) [
    | yes there ↦
        let (ki, si) = managed_of_slot m m' i (kept i other) in
        λ same.
          fresh i p (λ e. other (sym e)) (sym ki ∙ mi)
            (sym si ∙ (same ∙ ap (get_synthetic_sid m') (sym there)))
    | no apart ↦
        let (ki, si) = managed_of_slot m m' i (kept i other) in
        let (kj, sj) = managed_of_slot m m' j (kept j apart) in
        λ same. u i j p q ne (sym ki ∙ mi) (sym kj ∙ mj) (sym si ∙ (same ∙ sj))
  ]
]

pub set_synthetic_sid-slots :
    (m : Manager) (slot sid j : ℕ) → slot ≢ j → (set_synthetic_sid m slot sid).slots j ≡ m.slots j
unfolding set_synthetic_sid
set_synthetic_sid-slots m slot sid j ne = update_ne m.slots slot j _ ne

pub get_synthetic_sid-set_synthetic_sid :
    (m : Manager) (slot sid : ℕ) → get_synthetic_sid (set_synthetic_sid m slot sid) slot ≡ sid
unfolding set_synthetic_sid get_synthetic_sid
get_synthetic_sid-set_synthetic_sid m slot sid =
    ap (λ (s : ManagedSlot). s.snapshot.steam_id) (update_self m.slots slot _)

pub get_synthetic_sid-adopt_slot :
    (m : Manager) (now slot : ℕ) (p : Persona)
    → get_synthetic_sid (adopt_slot m now slot p) slot ≡ p.steam_id64
unfolding get_synthetic_sid adopted
get_synthetic_sid-adopt_slot m now slot p =
    ap (λ (s : ManagedSlot). s.snapshot.steam_id) (adopt_slot_self m now slot p)

-- A release frees an identity and gives none.
pub release_slot-HasUniqueIds :
    (m : Manager) (slot : ℕ) → HasUniqueIds m → HasUniqueIds (release_slot m slot)
unfolding release_slot is_managed get_synthetic_sid cleared
release_slot-HasUniqueIds m slot =
    HasUniqueIds-shrink m (release_slot m slot) (λ j managed. ground arith)

pub release_all-HasUniqueIds : (m : Manager) → HasUniqueIds m → HasUniqueIds (release_all m)
unfolding is_managed get_synthetic_sid cleared
release_all-HasUniqueIds m =
    HasUniqueIds-shrink m (release_all m) (λ j managed. ground (arith, release_all-slots m j))

pub set_slot_name-HasUniqueIds :
    (m : Manager) (slot : ℕ) (name : Option (List ℕ))
    → HasUniqueIds m
    → HasUniqueIds (set_slot_name m slot name)
unfolding set_slot_name is_managed get_synthetic_sid
set_slot_name-HasUniqueIds m slot name =
    HasUniqueIds-shrink m (set_slot_name m slot name) (λ j managed. ground arith)

pub on_tick-HasUniqueIds : (m : Manager) → HasUniqueIds m → HasUniqueIds (on_tick m)
unfolding on_tick tick_slot is_managed get_synthetic_sid
on_tick-HasUniqueIds m = HasUniqueIds-shrink m (on_tick m) (λ j managed. ground arith)
