-- ===== src/Detours/Saved.antt =====
-- A value is changed by some turns of a loop and put back by the turns of a second loop, from what was
-- saved: the first turn that changed it saved it as it was, and later turns saved the changed value.
use cs2_bot_hider.Base.{
  ℕ, zero, suc, ◌<◌, ◌≤◌, ◌≡◌, refl, ◌∙◌, Bool, true, false, ◌||◌, if◌then◌else◌, arith, Bool-cases,
  inl, inr,
}

-- Whether some turn below `n` hits.
abbrev any_hit : (ℕ → Bool) → ℕ → Bool
any_hit hits zero = false
any_hit hits (suc n) = hits n || any_hit hits n

any_hit_mono : (hits : ℕ → Bool) (n N : ℕ) → hits n ≡ true → n < N → any_hit hits N ≡ true
any_hit_mono hits n zero h lt = absurd (omega arith)
any_hit_mono hits n (suc N) h lt = ground (arith, any_hit_mono hits n N)

-- `before n` and `after n` are the value after `n` turns of the first and of the second loop.
pub record Turns {ℓ κ} (A : Type ℓ) (S : Type κ) : Type (ℓ ⊔ κ) where
  pub hits : ℕ → Bool
  pub count : ℕ
  pub before : ℕ → A
  pub saved : ℕ → S
  pub after : ℕ → A
  pub change : A → A
  pub save : A → S
  pub restore : S → A → A

-- What the turns do.
pub record Steps {ℓ κ} {A : Type ℓ} {S : Type κ} (t : Turns A S) : Type (ℓ ⊔ κ) where
  pub changed : (n : ℕ) → t.hits n ≡ true → t.before (suc n) ≡ t.change (t.before n)
  pub passed : (n : ℕ) → t.hits n ≡ false → t.before (suc n) ≡ t.before n
  pub noted : (n : ℕ) → n < t.count → t.hits n ≡ true → t.saved n ≡ t.save (t.before n)
  pub start : t.after 0 ≡ t.before t.count
  pub restored :
      (n : ℕ) → n < t.count → t.hits n ≡ true → t.after (suc n) ≡ t.restore (t.saved n) (t.after n)
  pub left : (n : ℕ) → n < t.count → t.hits n ≡ false → t.after (suc n) ≡ t.after n

-- The laws at the first value.
pub record Laws {ℓ κ} {A : Type ℓ} {S : Type κ} (t : Turns A S) : Type (ℓ ⊔ κ) where
  pub once : t.change (t.change (t.before 0)) ≡ t.change (t.before 0)
  pub back : t.restore (t.save (t.before 0)) (t.change (t.before 0)) ≡ t.before 0
  pub harmless : t.restore (t.save (t.change (t.before 0))) (t.before 0) ≡ t.before 0

module _ {ℓ κ} {A : Type ℓ} {S : Type κ} (t : Turns A S) (s : Steps t) (l : Laws t) where
  first_loop :
      (n : ℕ) → t.before n ≡ (if any_hit t.hits n then t.change (t.before 0) else t.before 0)
  first_loop zero = refl
  first_loop (suc n) = elim (Bool-cases (t.hits n)) [
    | inl h ↦ elim (Bool-cases (any_hit t.hits n)) [
      | inl a ↦ rw (s.changed n h, h, first_loop n, a) l.once
      | inr a ↦ rw (s.changed n h, h, first_loop n, a) refl
    ]
    | inr h ↦ rw (s.passed n h, h) (first_loop n)
  ]

  start_changed : (n : ℕ) → n < t.count → t.hits n ≡ true → t.after 0 ≡ t.change (t.before 0)
  start_changed n lt h =
      s.start ∙ (first_loop t.count ∙ rw (any_hit_mono t.hits n t.count h lt) refl)

  second_loop :
      (n : ℕ) → n ≤ t.count → t.after n ≡ (if any_hit t.hits n then t.before 0 else t.after 0)
  second_loop zero le = refl
  second_loop (suc n) le = elim (Bool-cases (t.hits n)) [
    | inl h ↦ elim (Bool-cases (any_hit t.hits n)) [
      | inl a ↦
          rw
            (
              s.restored n (omega arith) h,
              s.noted n (omega arith) h,
              h,
              first_loop n,
              a,
              second_loop n (omega arith),
              a,
            )
            l.harmless
      | inr a ↦
          rw
            (
              s.restored n (omega arith) h,
              s.noted n (omega arith) h,
              h,
              first_loop n,
              a,
              second_loop n (omega arith),
              a,
              start_changed n (omega arith) h,
            )
            l.back
    ]
    | inr h ↦ rw (s.left n (omega arith) h, h) (second_loop n (omega arith))
  ]

  pub put_back : t.after t.count ≡ t.before 0
  put_back = elim (Bool-cases (any_hit t.hits t.count)) [
    | inl a ↦ rw (second_loop t.count (omega arith), a) refl
    | inr a ↦ rw (second_loop t.count (omega arith), a, s.start, first_loop t.count, a) refl
  ]
