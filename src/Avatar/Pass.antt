-- ===== src/Avatar/Pass.antt =====
-- A whole pass of `ProcessOverrides` over the slots.
use native.Mathlib.Decide.{ℕ_discrete}
use cs2_bot_hider.Base.{
  ℕ, zero, suc, ◌<◌, ◌≤◌, ◌≡◌, ◌≢◌, ap, sym, subst, ◌∙◌, true, false, some, arith, if_split,
  if_guarded, each_slot,
}
use cs2_bot_hider.Snapshot.{SlotSnapshot, max_slots}
use cs2_bot_hider.Manager.{
  Manager, ManagedSlot, is_managed, get_synthetic_sid, publish_avatar_state,
}
use cs2_bot_hider.Avatar.{
  StringTables, AvatarRuntimeState, Avatars, Turn, empty_state, start_turn, process_slot,
  enter_table, process_table, process_overrides, same_table, requested_steam_id, unpublish_all,
}
use cs2_bot_hider.Avatar.Shown.{
  IsTruthful, IsCurrent, Effect, process_slot-Effect, publish-ne, publish_self,
}

-- Of every slot, what is shown of its avatar has been processed under the SteamID that is shown.
abbrev pub AllTruthful : (ℕ → AvatarRuntimeState) → Manager → Type 0
AllTruthful states m = (j : ℕ) → j < max_slots → IsTruthful (states j) (m.slots j).snapshot

abbrev AllCurrent : ℕ → Manager → Type 0
AllCurrent n m = (j : ℕ) → j < n → IsCurrent m j

module _ (tables : StringTables) (slot : ℕ) (t t' : Turn tables) (e : Effect tables slot t t') where
  Effect-IsTruthful :
      (j : ℕ)
      → slot ≢ j
      → IsTruthful (t.states j) (t.manager.slots j).snapshot
      → IsTruthful (t'.states j) (t'.manager.slots j).snapshot
  Effect-IsTruthful j ne h =
      let same = ap (λ (s : ManagedSlot). s.snapshot) (e.slots_ne j ne) in
      let applied = ap (λ (x : SlotSnapshot). x.avatar_applied) same in
      let id = ap (λ (x : SlotSnapshot). x.avatar_steam_id) same in
      record {
        done = λ shown. e.done_ne j ne ∙ h.done (λ z. shown (applied ∙ z));
        same = λ shown. e.id_ne j ne ∙ (h.same (λ z. shown (applied ∙ z)) ∙ sym id);
        nonzero = λ shown z. h.nonzero (λ y. shown (applied ∙ y)) (sym id ∙ z);
      }

  Effect-IsCurrent : (j : ℕ) → slot ≢ j → IsCurrent t.manager j → IsCurrent t'.manager j
  Effect-IsCurrent j ne h =
      let same = ap (λ (s : ManagedSlot). s.snapshot) (e.slots_ne j ne) in
      let applied = ap (λ (x : SlotSnapshot). x.avatar_applied) same in
      let id = ap (λ (x : SlotSnapshot). x.avatar_steam_id) same in
      record {
        requested = λ shown. id ∙ (h.requested (λ z. shown (applied ∙ z)) ∙ sym (e.requests j));
        nonzero = λ shown z. h.nonzero (λ y. shown (applied ∙ y)) (sym (e.requests j) ∙ z);
      }

module _ (tables : StringTables) (table now : ℕ) where
  process_slots-AllCurrent :
      (n : ℕ) (t : Turn tables)
      → n ≤ max_slots
      → AllTruthful t.states t.manager
      → let t' = each_slot (process_slot tables table now) n t in
        AllTruthful t'.states t'.manager × AllCurrent n t'.manager
  process_slots-AllCurrent zero t fits h = (h, λ j p. absurd (omega arith))
  process_slots-AllCurrent (suc n) t fits h =
      let t₁ = each_slot (process_slot tables table now) n t in
      let (truthful, current) = process_slots-AllCurrent n t (omega arith) h in
      let e = process_slot-Effect tables table now n t₁ (truthful n (omega arith)) in
      let t₂ = process_slot tables table now n t₁ in
      (
        λ j p. elim (ℕ_discrete n j) [
          | yes here ↦
              subst (λ (i : ℕ). IsTruthful (t₂.states i) (t₂.manager.slots i).snapshot) here
                e.truthful
          | no other ↦ Effect-IsTruthful tables n t₁ t₂ e j other (truthful j p)
        ],
        λ j p. elim (ℕ_discrete n j) [
          | yes here ↦ subst (IsCurrent t₂.manager) here e.current
          | no other ↦ Effect-IsCurrent tables n t₁ t₂ e j other (current j (omega arith))
        ],
      )

unpublished :
    (n : ℕ) (m : Manager) (j : ℕ)
    → j < n
    → ((each_slot (λ slot m. publish_avatar_state m slot false 0) n m).slots
        j).snapshot.avatar_applied
      ≡ 0
unpublished zero m j p = absurd (omega arith)
unpublished (suc n) m j p =
    let before = each_slot (λ slot m. publish_avatar_state m slot false 0) n m in
    elim (ℕ_discrete n j) [
      | yes here ↦
          subst
            (λ (i : ℕ).
              ((publish_avatar_state before n false 0).slots i).snapshot.avatar_applied ≡ 0)
            here (ap (λ (x : SlotSnapshot). x.avatar_applied) (publish_self before n false 0))
      | no other ↦
          ap (λ (s : ManagedSlot). s.snapshot.avatar_applied) (publish-ne before n false 0 j other)
          ∙ unpublished n m j (omega arith)
    ]

-- After a reset no slot shows an avatar.
pub unpublish_all-AllTruthful :
    (states : ℕ → AvatarRuntimeState) (m : Manager) → AllTruthful states (unpublish_all m)
unfolding unpublish_all
unpublish_all-AllTruthful states m j p =
    let hidden = unpublished max_slots m j p in
    record {
      done = λ shown. absurd (shown hidden);
      same = λ shown. absurd (shown hidden);
      nonzero = λ shown. absurd (shown hidden);
    }

enter_table-AllTruthful :
    (table : ℕ) (a : Avatars) (m : Manager)
    → AllTruthful a.states m
    → AllTruthful (enter_table table a m).0.states (enter_table table a m).1
unfolding enter_table
enter_table-AllTruthful table a m h =
    if_split (λ (r : Avatars × Manager). AllTruthful r.0.states r.1) (same_table a.last_table table)
      (λ _. h) (λ _. unpublish_all-AllTruthful (λ _. empty_state) m)

requested-is_managed :
    (m : Manager) (slot : ℕ)
    → requested_steam_id m slot ≢ 0
    → (is_managed m slot ≡ true) × (requested_steam_id m slot ≡ get_synthetic_sid m slot)
unfolding requested_steam_id
requested-is_managed m slot ne = ground arith

process_table-AllCurrent :
    (tables : StringTables) (table now : ℕ) (st : tables.State) (a : Avatars) (m : Manager)
    → AllTruthful a.states m
    → let r = process_table tables table now st a m in
      AllTruthful r.1.states r.2 × AllCurrent max_slots r.2
unfolding process_table
process_table-AllCurrent tables table now st a m h =
    process_slots-AllCurrent tables table now max_slots
      (start_turn tables st (enter_table table a m)) (omega arith)
      (enter_table-AllTruthful table a m h)

process_overrides_found :
    (tables : StringTables) (now : ℕ) (st : tables.State) (a : Avatars) (m : Manager) (table : ℕ)
    → tables.find_table st ≡ some table
    → a.container ≡ true
    → process_overrides tables now st a m ≡ process_table tables table now st a m
unfolding process_overrides
process_overrides_found tables now st a m table found container =
    rw (found, process_overrides) (if_guarded a.container _ _ container)

abbrev Good : (tables : StringTables) → ℕ → tables.State × Avatars × Manager → Type 0
Good tables slot r =
    AllTruthful r.1.states r.2
    × ((r.2.slots slot).snapshot.avatar_applied ≢ 0
        → (is_managed r.2 slot ≡ true)
          × ((r.2.slots slot).snapshot.avatar_steam_id ≡ get_synthetic_sid r.2 slot))

process_overrides-Good :
    (tables : StringTables) (now : ℕ) (st : tables.State) (a : Avatars) (m : Manager)
    (table slot : ℕ)
    → AllTruthful a.states m
    → tables.find_table st ≡ some table
    → a.container ≡ true
    → slot < max_slots
    → Good tables slot (process_overrides tables now st a m)
process_overrides-Good tables now st a m table slot h found container inside =
    let (truthful, current) = process_table-AllCurrent tables table now st a m h in
    let whole = process_overrides_found tables now st a m table found container in
    subst (Good tables slot) (sym whole) (
      truthful,
      λ shown.
          let c = current slot inside in
          let (managed, mine) = requested-is_managed _ slot (c.nonzero shown) in
          (managed, c.requested shown ∙ mine),
    )

-- What the slots show of their avatars stays processed under the SteamID that is shown.
pub process_overrides-AllTruthful :
    (tables : StringTables) (now : ℕ) (st : tables.State) (a : Avatars) (m : Manager) (table : ℕ)
    → AllTruthful a.states m
    → tables.find_table st ≡ some table
    → a.container ≡ true
    → AllTruthful
        (process_overrides tables now st a m).1.states
        (process_overrides tables now st a m).2
process_overrides-AllTruthful tables now st a m table h found container =
    (process_overrides-Good tables now st a m table 0 h found container (omega arith)).0

-- If what the slots show of their avatars was processed, then after a pass over an existing table each
-- slot that shows an avatar is managed and shows it under its present SteamID.
pub process_overrides-current :
    (tables : StringTables) (now : ℕ) (st : tables.State) (a : Avatars) (m : Manager)
    (table slot : ℕ)
    → AllTruthful a.states m
    → tables.find_table st ≡ some table
    → a.container ≡ true
    → slot < max_slots
    → ((process_overrides tables now st a m).2.slots slot).snapshot.avatar_applied ≢ 0
    → (is_managed (process_overrides tables now st a m).2 slot ≡ true)
      × (((process_overrides tables now st a m).2.slots slot).snapshot.avatar_steam_id
          ≡ get_synthetic_sid (process_overrides tables now st a m).2 slot)
process_overrides-current tables now st a m table slot h found container inside shown =
    (process_overrides-Good tables now st a m table slot h found container inside).1 shown
