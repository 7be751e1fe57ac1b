-- ===== src/BotInfo/AccountId.antt =====
-- `ParseAccountId` of src/features/botinfo/bot_info.cpp: a JSON key as a 32-bit account ID.
use mathlib.Core.List.{reverse, reverse-cons, reverse-reverse}
use cs2_bot_hider.Base.{
  ℕ, zero, suc, ◌+◌, ◌-◌, ◌*◌, ◌/◌, ◌%◌, ◌^◌, ◌≤◌, ◌<◌, ◌≡◌, refl, sym, ap, ◌∙◌, subst, ◌↔◌, Bool,
  ◌&&◌, List, [], ◌∷◌, ◌++◌, Option, none, some, arith, ltb, leb, ◌==◌, if◌then◌else◌,
}

abbrev pub is_digit : ℕ → Bool
is_digit c = leb b'0' c && leb c b'9'

-- The digits that `std::from_chars` reads, with the value so far, and what it leaves.
unfoldable pub scan_digits : ℕ → List ℕ → ℕ × List ℕ
scan_digits acc [] = (acc, [])
scan_digits acc (c ∷ s) =
    let rest = scan_digits (acc * 10 + (c - b'0')) s in if is_digit c then rest else (acc, c ∷ s)

abbrev pub fitting : ℕ × List ℕ → Option (ℕ × List ℕ)
fitting r = if ltb r.0 (2 ^ 32) then some r else none

-- `std::from_chars` for `uint32_t`, base 10: an error if there is no digit or the value does not
-- fit, and otherwise the value and the position behind the digits.
unfoldable pub from_chars : List ℕ → Option (ℕ × List ℕ)
unfolding scan_digits
from_chars [] = none
from_chars (c ∷ s) = if is_digit c then fitting (scan_digits 0 (c ∷ s)) else none

abbrev pub whole : Option (ℕ × List ℕ) → Option ℕ
whole none = none
whole (some (n, [])) = if n == 0 then none else some n
whole (some (n, c ∷ s)) = none

-- The ID, or `none` where the function returns false.
unfoldable pub parse_account_id : List ℕ → Option ℕ
unfolding from_chars
parse_account_id [] = none
parse_account_id (c ∷ s) = if c == b'0' then none else whole (from_chars (c ∷ s))

-- The decimal digits of a number, lowest first, and its usual notation.
digits_of : ℕ → ℕ → List ℕ
digits_of zero n = []
digits_of (suc fuel) n =
    let rest = digits_of fuel (n / 10) in if n == 0 then [] else (b'0' + n % 10) ∷ rest

unfoldable pub decimal : ℕ → List ℕ
unfolding digits_of
decimal n = reverse (digits_of n n)

-- The value of digits that stand lowest first.
abbrev value : List ℕ → ℕ
value [] = 0
value (c ∷ ds) = (c - b'0') + 10 * value ds

abbrev IsDigit : ℕ → Type 0
IsDigit c = (b'0' ≤ c) × (c ≤ b'9')

abbrev AllDigits : List ℕ → Type 0
AllDigits [] = Unit {0}
AllDigits (c ∷ s) = IsDigit c × AllDigits s

-- Digits that end, at the high side, in no zero.
abbrev Canonical : List ℕ → Type 0
Canonical [] = Unit {0}
Canonical (c ∷ ds) = IsDigit c × (0 < value (c ∷ ds)) × Canonical ds

scan_digits-snoc :
    (acc : ℕ) (s : List ℕ) (c : ℕ)
    → AllDigits s
    → IsDigit c
    → scan_digits acc (s ++ c ∷ []) ≡ ((scan_digits acc s).0 * 10 + (c - b'0'), [])
unfolding scan_digits
scan_digits-snoc acc [] c h k = ground arith
scan_digits-snoc acc (x ∷ s) c h k =
    ground (arith, scan_digits-snoc (acc * 10 + (x - b'0')) s c h.1 k)

AllDigits-snoc : (s : List ℕ) (c : ℕ) → AllDigits s → IsDigit c → AllDigits (s ++ c ∷ [])
AllDigits-snoc [] c h k = (k, tt)
AllDigits-snoc (x ∷ s) c h k = (h.0, AllDigits-snoc s c h.1 k)

AllDigits-reverse : (s : List ℕ) → AllDigits s → AllDigits (reverse s)
AllDigits-reverse [] h = tt
AllDigits-reverse (x ∷ s) h =
    rw (reverse-cons x s) (AllDigits-snoc (reverse s) x (AllDigits-reverse s h.1) h.0)

scan_digits-reverse : (ds : List ℕ) → AllDigits ds → scan_digits 0 (reverse ds) ≡ (value ds, [])
unfolding scan_digits
scan_digits-reverse [] h = refl
scan_digits-reverse (c ∷ ds) h = rw (reverse-cons c ds) (
    scan_digits-snoc 0 (reverse ds) c (AllDigits-reverse ds h.1) h.0
    ∙ ground (arith, scan_digits-reverse ds h.1))

-- What is left is empty exactly when all are digits.
scan_digits-AllDigits : (acc : ℕ) (s : List ℕ) → (scan_digits acc s).1 ≡ [] → AllDigits s
unfolding scan_digits
scan_digits-AllDigits acc [] h = tt
scan_digits-AllDigits acc (c ∷ s) h =
    ground (arith, scan_digits-AllDigits (acc * 10 + (c - b'0')) s)

digits_of-value : (fuel n : ℕ) → n ≤ fuel → value (digits_of fuel n) ≡ n
unfolding digits_of
digits_of-value zero n h = omega arith
digits_of-value (suc fuel) n h = ground (arith, digits_of-value fuel (n / 10))

digits_of-Canonical : (fuel n : ℕ) → n ≤ fuel → Canonical (digits_of fuel n)
unfolding digits_of
digits_of-Canonical zero n h = tt
digits_of-Canonical (suc fuel) n h =
    ground (arith, digits_of-value fuel (n / 10), digits_of-Canonical fuel (n / 10))

-- Canonical digits are the digits of their value.
digits_of_unique :
    (fuel : ℕ) (ds : List ℕ) → Canonical ds → value ds ≤ fuel → digits_of fuel (value ds) ≡ ds
unfolding digits_of
digits_of_unique zero [] h k = refl
digits_of_unique (suc fuel) [] h k = refl
digits_of_unique zero (c ∷ ds) h k = absurd (omega arith)
digits_of_unique (suc fuel) (c ∷ ds) h k = ground (arith, digits_of_unique fuel ds h.2)

Canonical-AllDigits : (ds : List ℕ) → Canonical ds → AllDigits ds
Canonical-AllDigits [] h = tt
Canonical-AllDigits (c ∷ ds) h = (h.0, Canonical-AllDigits ds h.2)

Canonical-snoc :
    (xs : List ℕ) (c : ℕ)
    → AllDigits xs
    → b'0' < c
    → c ≤ b'9'
    → Canonical (xs ++ c ∷ []) × (0 < value (xs ++ c ∷ []))
Canonical-snoc [] c h p q = ground arith
Canonical-snoc (x ∷ xs) c h p q = ground (arith, Canonical-snoc xs c h.1 p q)

-- The highest digit of canonical digits is not zero.
highest_digit :
    (d : ℕ) (ds : List ℕ)
    → Canonical (d ∷ ds)
    → (c : ℕ) × (s : List ℕ) × (reverse (d ∷ ds) ≡ c ∷ s) × (b'0' < c) × (c ≤ b'9')
highest_digit d [] h = (d, [], refl, omega arith, omega arith)
highest_digit d (e ∷ ds) h =
    let (c, s, eq, p, q) = highest_digit e ds h.2 in
    (c, s ++ d ∷ [], reverse-cons d (e ∷ ds) ∙ ap (λ (t : List ℕ). t ++ d ∷ []) eq, p, q)

whole-fitting :
    (r : ℕ × List ℕ) (n : ℕ) → whole (fitting r) ≡ some n → (r ≡ (n, [])) × (0 < n) × (n < 2 ^ 32)
whole-fitting (m, []) n h = ground arith
whole-fitting (m, c ∷ s) n h = ground arith

fitting-whole :
    (r : ℕ × List ℕ) (n : ℕ) → r ≡ (n, []) → 0 < n → n < 2 ^ 32 → whole (fitting r) ≡ some n
fitting-whole r n e h k = rw e (ground arith)

parse_inv :
    (c : ℕ) (s : List ℕ) (n : ℕ)
    → parse_account_id (c ∷ s) ≡ some n
    → (scan_digits 0 (c ∷ s) ≡ (n, [])) × (b'0' < c) × (c ≤ b'9') × (0 < n) × (n < 2 ^ 32)
unfolding parse_account_id
parse_inv c s n h = ground (arith, whole-fitting (scan_digits 0 (c ∷ s)) n)

parse_digits :
    (c : ℕ) (s : List ℕ) (n : ℕ)
    → scan_digits 0 (c ∷ s) ≡ (n, [])
    → b'0' < c
    → c ≤ b'9'
    → 0 < n
    → n < 2 ^ 32
    → parse_account_id (c ∷ s) ≡ some n
unfolding parse_account_id
parse_digits c s n e p q h k = ground (arith, fitting-whole (scan_digits 0 (c ∷ s)) n)

parse-eq-decimal :
    (s : List ℕ) (n : ℕ) → parse_account_id s ≡ some n → (s ≡ decimal n) × (0 < n) × (n < 2 ^ 32)
unfolding decimal
parse-eq-decimal [] n h = absurd (unfold parse_account_id in cc)
parse-eq-decimal (c ∷ s) n h =
    let (scanned, p, q, pos, small) = parse_inv c s n h in
    let all = scan_digits-AllDigits 0 (c ∷ s) (ap (λ (t : ℕ × List ℕ). t.1) scanned) in
    let ds = reverse (c ∷ s) in
    let back : reverse ds ≡ c ∷ s = reverse-reverse (c ∷ s) in
    let reads = scan_digits-reverse ds (AllDigits-reverse (c ∷ s) all) in
    let same : value ds ≡ n =
      ap (λ (t : ℕ × List ℕ). t.0)
        (sym reads ∙ (ap (λ (t : List ℕ). scan_digits 0 t) back ∙ scanned)) in
    let canon : Canonical ds =
      rw (reverse-cons c s) (Canonical-snoc (reverse s) c (AllDigits-reverse s all.1) p q).0 in
    let digits = digits_of_unique n ds canon (omega arith) in
    (sym (ap reverse (ap (digits_of n) (sym same) ∙ digits) ∙ back), pos, small)

decimal-eq-parse : (n : ℕ) → 0 < n → n < 2 ^ 32 → parse_account_id (decimal n) ≡ some n
unfolding decimal
decimal-eq-parse n h k = from_digits (digits_of n n) refl
  where
    from_digits : (ds : List ℕ) → digits_of n n ≡ ds → parse_account_id (reverse ds) ≡ some n
    from_digits [] e = absurd (omega (arith, digits_of-value n n (omega arith), ap value e))
    from_digits (d ∷ ds) e =
        let canon : Canonical (d ∷ ds) =
          subst Canonical e (digits_of-Canonical n n (omega arith)) in
        let (c, s, eq, p, q) = highest_digit d ds canon in
        let same : value (d ∷ ds) ≡ n = ap value (sym e) ∙ digits_of-value n n (omega arith) in
        let reads = scan_digits-reverse (d ∷ ds) (Canonical-AllDigits (d ∷ ds) canon) in
        rw eq (parse_digits c s n (rw (← eq, reads, same) refl) p q h k)

-- A key is accepted as the ID `n` exactly when it is the usual decimal notation of `n` and `n`
-- is a nonzero 32-bit number: no sign, no leading zero, no blank, no overflow.
pub parse_account_id-decimal_iff :
    (s : List ℕ) (n : ℕ)
    → (parse_account_id s ≡ some n) ↔ ((s ≡ decimal n) × (0 < n) × (n < 2 ^ 32))
parse_account_id-decimal_iff s n = (parse-eq-decimal s n, λ h. rw h.0 (decimal-eq-parse n h.1 h.2))
