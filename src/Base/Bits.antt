-- ===== src/Base/Bits.antt =====
-- Bits that are set and put back: `(x & ~changed) | (old & changed)` is the old value, where `changed`
-- is the difference of the old and the new one. The operations are compared digit by digit.
use Prim.Native.Nat.{
  ℕ, zero, suc, ◌+◌, ◌*◌, ◌/◌, ◌%◌, ◌≤◌, ◌<◌, min, max, bit_and, bit_or, bit_xor, digits, bitwise,
  differ, bit_and-bitwise, bit_or-bitwise, bit_xor-bitwise,
}
use mathlib.Core.Path.{◌≡◌, refl, ◌∙◌}
use mathlib.Core.Logic.{◌⊎◌, inl, inr}
use mathlib.Core.Bool.{Bool, true, ◌&&◌}
use native.Mathlib.Omega.{arith}

-- A table of the numbers below `n`.
unfoldable pub holds_below : (ℕ → Bool) → ℕ → Bool
holds_below p zero = true
holds_below p (suc n) = p n && holds_below p n

pub holds_below-apply : (p : ℕ → Bool) (n x : ℕ) → holds_below p n ≡ true → x < n → p x ≡ true
unfolding holds_below
holds_below-apply p zero x table lt = absurd (omega arith)
holds_below-apply p (suc n) x table lt = ground (arith, holds_below-apply p n x)

module _ (z : ℕ → ℕ) (f : ℕ → ℕ → ℕ) where
  -- More fuel than digits changes nothing.
  digits_fuel : (n a b : ℕ) → a ≤ n → (more : ℕ) → n ≤ more → digits z f more a b ≡ digits z f n a b
  digits_fuel zero zero b p zero q = refl
  digits_fuel zero zero b p (suc more) q = refl
  digits_fuel zero (suc a) b p more q = absurd (omega arith)
  digits_fuel (suc n) a b p zero q = absurd (omega arith)
  digits_fuel (suc n) zero b p (suc more) q = refl
  digits_fuel (suc n) (suc a) b p (suc more) q =
      rw (digits_fuel n (suc a / 2) (b / 2) (omega arith) more (omega arith))

  bitwise_lowest :
      (a b : ℕ)
      → bitwise z f (suc a) b ≡ bitwise z f (suc a / 2) (b / 2) * 2 + f (suc a % 2) (b % 2)
  bitwise_lowest a b =
      rw (digits_fuel (suc a / 2) (suc a / 2) (b / 2) (omega arith) a (omega arith))

and_lowest : (a b : ℕ) → bit_and a b ≡ bit_and (a / 2) (b / 2) * 2 + min (a % 2) (b % 2)
and_lowest zero b = simp bit_and-bitwise (omega arith)
and_lowest (suc a) b = simp bit_and-bitwise (bitwise_lowest (λ _. 0) min a b)

or_lowest : (a b : ℕ) → bit_or a b ≡ bit_or (a / 2) (b / 2) * 2 + max (a % 2) (b % 2)
or_lowest zero b = simp bit_or-bitwise (omega arith)
or_lowest (suc a) b = simp bit_or-bitwise (bitwise_lowest (λ d. d) max a b)

xor_lowest : (a b : ℕ) → bit_xor a b ≡ bit_xor (a / 2) (b / 2) * 2 + differ (a % 2) (b % 2)
xor_lowest zero b = simp bit_xor-bitwise (omega arith)
xor_lowest (suc a) b = simp bit_xor-bitwise (bitwise_lowest (λ d. d) differ a b)

bit : (n : ℕ) → (n % 2 ≡ 0) ⊎ (n % 2 ≡ 1)
bit n = ground arith

differ_bit : (a b : ℕ) → differ (a % 2) (b % 2) ≤ 1
differ_bit a b = elim (bit a) [
  | inl p ↦ elim (bit b) [ inl q ↦ rw (p, q) (omega arith) | inr q ↦ rw (p, q) (omega arith) ]
  | inr p ↦ elim (bit b) [ inl q ↦ rw (p, q) (omega arith) | inr q ↦ rw (p, q) (omega arith) ]
]

and_half : (a b : ℕ) → bit_and a b / 2 ≡ bit_and (a / 2) (b / 2)
and_half a b = omega (arith, and_lowest a b)

and_digit : (a b : ℕ) → bit_and a b % 2 ≡ min (a % 2) (b % 2)
and_digit a b = omega (arith, and_lowest a b)

or_half : (a b : ℕ) → bit_or a b / 2 ≡ bit_or (a / 2) (b / 2)
or_half a b = omega (arith, or_lowest a b)

or_digit : (a b : ℕ) → bit_or a b % 2 ≡ max (a % 2) (b % 2)
or_digit a b = omega (arith, or_lowest a b)

xor_half : (a b : ℕ) → bit_xor a b / 2 ≡ bit_xor (a / 2) (b / 2)
xor_half a b = omega (arith, xor_lowest a b, differ_bit a b)

xor_digit : (a b : ℕ) → bit_xor a b % 2 ≡ differ (a % 2) (b % 2)
xor_digit a b = omega (arith, xor_lowest a b, differ_bit a b)

by_halves : (a b : ℕ) → a / 2 ≡ b / 2 → a % 2 ≡ b % 2 → a ≡ b
by_halves a b p q = omega arith

-- The number whose `k` digits are all 1.
abbrev pub ones : ℕ → ℕ
ones zero = 0
ones (suc k) = ones k * 2 + 1

ones_half : (k : ℕ) → ones (suc k) / 2 ≡ ones k
ones_half k = omega arith

ones_digit : (k : ℕ) → ones (suc k) % 2 ≡ 1
ones_digit k = omega arith

-- `(x & ~mask) | (old & mask)` of `k` digits.
abbrev pub restored : ℕ → ℕ → ℕ → ℕ → ℕ
restored k x old mask = bit_or (bit_and x (bit_xor mask (ones k))) (bit_and old mask)

restored_half :
    (k x old mask : ℕ) → restored (suc k) x old mask / 2 ≡ restored k (x / 2) (old / 2) (mask / 2)
restored_half k x old mask = simp (or_half, and_half, xor_half, ones_half) refl

restored_digit :
    (k x old mask : ℕ)
    → restored (suc k) x old mask % 2
      ≡ max (min (x % 2) (differ (mask % 2) 1)) (min (old % 2) (mask % 2))
restored_digit k x old mask = simp (or_digit, and_digit, xor_digit, ones_digit) refl

-- A digit of the new number that differs comes back as the old one's.
digit_back :
    (n o : ℕ)
    → max (min (n % 2) (differ (differ (o % 2) (n % 2)) 1)) (min (o % 2) (differ (o % 2) (n % 2)))
      ≡ o % 2
digit_back n o = elim (bit n) [
  | inl p ↦ elim (bit o) [ inl q ↦ rw (p, q) refl | inr q ↦ rw (p, q) refl ]
  | inr p ↦ elim (bit o) [ inl q ↦ rw (p, q) refl | inr q ↦ rw (p, q) refl ]
]

digit_kept : (n o : ℕ) → max (min (n % 2) 1) (min (o % 2) 0) ≡ n % 2
digit_kept n o = elim (bit n) [
  | inl p ↦ elim (bit o) [ inl q ↦ rw (p, q) refl | inr q ↦ rw (p, q) refl ]
  | inr p ↦ elim (bit o) [ inl q ↦ rw (p, q) refl | inr q ↦ rw (p, q) refl ]
]

pub restored_changed :
    (k new old : ℕ) → new ≤ ones k → old ≤ ones k → restored k new old (bit_xor old new) ≡ old
restored_changed zero zero zero p q = refl
restored_changed zero zero (suc old) p q = absurd (omega arith)
restored_changed zero (suc new) old p q = absurd (omega arith)
restored_changed (suc k) new old p q =
    by_halves _ _
      (restored_half k new old (bit_xor old new)
        ∙ rw (xor_half old new)
            (restored_changed k (new / 2) (old / 2) (omega arith) (omega arith)))
      (restored_digit k new old (bit_xor old new) ∙ rw (xor_digit old new) (digit_back new old))

pub restored_unchanged : (k x old : ℕ) → x ≤ ones k → old ≤ ones k → restored k x old 0 ≡ x
restored_unchanged zero zero zero p q = refl
restored_unchanged zero zero (suc old) p q = absurd (omega arith)
restored_unchanged zero (suc x) old p q = absurd (omega arith)
restored_unchanged (suc k) x old p q =
    by_halves _ _
      (restored_half k x old 0 ∙ restored_unchanged k (x / 2) (old / 2) (omega arith) (omega arith))
      (restored_digit k x old 0 ∙ digit_kept x old)

differ_self : (x : ℕ) → differ (x % 2) (x % 2) ≡ 0
differ_self x = elim (bit x) [ inl p ↦ rw p refl | inr p ↦ rw p refl ]

pub xor_self : (k x : ℕ) → x ≤ ones k → bit_xor x x ≡ 0
xor_self zero zero p = refl
xor_self zero (suc x) p = absurd (omega arith)
xor_self (suc k) x p =
    by_halves _ _ (xor_half x x ∙ xor_self k (x / 2) (omega arith)) (xor_digit x x ∙ differ_self x)

max_self : (a b : ℕ) → max (max (a % 2) (b % 2)) (b % 2) ≡ max (a % 2) (b % 2)
max_self a b = omega arith

-- Bits that are set are set once.
pub or_twice :
    (k x bits : ℕ) → x ≤ ones k → bits ≤ ones k → bit_or (bit_or x bits) bits ≡ bit_or x bits
or_twice zero zero zero p q = refl
or_twice zero zero (suc bits) p q = absurd (omega arith)
or_twice zero (suc x) bits p q = absurd (omega arith)
or_twice (suc k) x bits p q =
    by_halves _ _ (simp or_half (or_twice k (x / 2) (bits / 2) (omega arith) (omega arith)))
      (simp or_digit (max_self x bits))

pub or_bound : (k x y : ℕ) → x ≤ ones k → y ≤ ones k → bit_or x y ≤ ones k
or_bound zero zero zero p q = omega arith
or_bound zero zero (suc y) p q = absurd (omega arith)
or_bound zero (suc x) y p q = absurd (omega arith)
or_bound (suc k) x y p q =
    omega (arith, or_lowest x y, or_bound k (x / 2) (y / 2) (omega arith) (omega arith))
