-- ===== src/Text.antt =====
-- Byte strings as the program copies them: `CopyText` of
-- src/features/identity/fake_client_manager.cpp and `CopyInput` of src/bridge/exports.cpp.
use cs2_bot_hider.Base.{
  ℕ, zero, suc, ◌-◌, ◌<◌, ◌≡◌, refl, ap, ◌||◌, List, [], ◌∷◌, ◌++◌, Option, none, some, arith, ◌==◌,
  if◌then◌else◌, length, take, replicate, any, length-append, length-replicate,
}
use cs2_bot_hider.Base.Int.{ℤ, pos, pos_part, ltb_ℤ, leb_ℤ}

-- The C string at a pointer: the bytes before the first NUL.
unfoldable pub c_string : List ℕ → List ℕ
c_string [] = []
c_string (c ∷ s) = if c == 0 then [] else c ∷ c_string s

-- The `n` bytes that `strncpy` writes: the string, then zeros.
unfoldable pub strncpy : ℕ → List ℕ → List ℕ
strncpy zero s = []
strncpy (suc n) [] = 0 ∷ strncpy n []
strncpy (suc n) (c ∷ s) = c ∷ strncpy n (if c == 0 then [] else s)

-- A buffer of `n` bytes after `memset` and `strncpy`; the source may be null.
unfoldable pub copy_text : ℕ → Option (List ℕ) → List ℕ
unfolding strncpy
copy_text n none = replicate n 0
copy_text n (some s) = strncpy (n - 1) s ++ 0 ∷ []

-- The buffer as the C string that is read back from it, or `none` where the copy is refused.
unfoldable pub copy_input : ℕ → Option (List ℕ) → ℤ → Option (List ℕ)
copy_input n none len = none
copy_input n (some text) len =
    let bytes = take (pos_part len) text in
    if ltb_ℤ len (pos 0) || (leb_ℤ (pos n) len || any (λ c. c == 0) bytes) then none else some bytes

-- No byte is NUL, so the bytes are a C string by themselves.
abbrev pub NoNul : List ℕ → Type 0
NoNul [] = Unit {0}
NoNul (c ∷ s) = (0 < c) × NoNul s

pub strncpy-length : (n : ℕ) (s : List ℕ) → length (strncpy n s) ≡ n
unfolding strncpy
strncpy-length zero s = refl
strncpy-length (suc n) [] = ap suc (strncpy-length n [])
strncpy-length (suc n) (c ∷ s) = ap suc (strncpy-length n (if c == 0 then [] else s))

-- The copy fills the buffer, whatever the source is.
pub length-copy_text : (n : ℕ) (s : Option (List ℕ)) → 0 < n → length (copy_text n s) ≡ n
unfolding copy_text
length-copy_text n none h = length-replicate n 0
length-copy_text n (some s) h =
    omega (arith, length-append (strncpy (n - 1) s) (0 ∷ []), strncpy-length (n - 1) s)

c_string-replicate : (n : ℕ) → c_string (replicate n 0) ≡ []
unfolding c_string
c_string-replicate zero = refl
c_string-replicate (suc n) = refl

c_string-strncpy : (n : ℕ) (s : List ℕ) → NoNul s → c_string (strncpy n s ++ 0 ∷ []) ≡ take n s
unfolding c_string strncpy
c_string-strncpy zero s h = refl
c_string-strncpy (suc n) [] h = refl
c_string-strncpy (suc n) (c ∷ s) h = ground (arith, c_string-strncpy n s h.1)

-- For a text without NUL bytes: read back, a buffer of `n` bytes gives the first `n - 1` bytes
-- of what was copied into it.
pub c_string-copy_text :
    (n : ℕ) (s : List ℕ) → NoNul s → c_string (copy_text n (some s)) ≡ take (n - 1) s
unfolding copy_text
c_string-copy_text n s h = c_string-strncpy (n - 1) s h
