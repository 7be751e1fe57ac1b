-- ===== src/Png/Chunks.antt =====
-- The chunk loop of src/bridge/exports.cpp: its fuel is enough, and what it accepts is a sequence of
-- chunks.
use cs2_bot_hider.Base.{
  ℕ, zero, suc, ◌-◌, ◌^◌, ◌<◌, ◌≡◌, refl, Bool, false, ◌||◌, ◌&&◌, not, inl, inr, List, [], ◌∷◌,
  ltb, ◌==◌, length, drop, take, bytes_eq, arith, Bool-cases,
}
use cs2_bot_hider.Png.{type_idat, read32, step_size, scan_chunks}

pub length-drop : (n : ℕ) (xs : List ℕ) → length (drop n xs) ≡ length xs - n
length-drop zero xs = omega arith
length-drop (suc n) [] = omega arith
length-drop (suc n) (x ∷ xs) = omega (arith, length-drop n xs)

step_size-next :
    (chunk : List ℕ) (size : ℕ)
    → length chunk < 2 ^ 32
    → ltb (length chunk) 12 ≡ false
    → ltb (length chunk - 12) size ≡ false
    → length (drop (step_size size) chunk) < length chunk
step_size-next chunk size small long fits =
    let next = length-drop (step_size size) chunk in ground (arith, next)

-- Fuel above the length of what is left changes nothing: the loop ends by itself, for any input of
-- less than 2^32 bytes.
pub scan_chunks-fuel :
    (n m : ℕ) (first has_image_data : Bool) (chunk : List ℕ)
    → length chunk < n
    → length chunk < m
    → length chunk < 2 ^ 32
    → scan_chunks n first has_image_data chunk ≡ scan_chunks m first has_image_data chunk
unfolding scan_chunks
scan_chunks-fuel zero m first has chunk p q small = absurd (omega arith)
scan_chunks-fuel (suc n) zero first has chunk p q small = absurd (omega arith)
scan_chunks-fuel (suc n) (suc m) first has chunk p q small =
    elim (Bool-cases (ltb (length chunk) 12)) [
      | inl short ↦ rw short refl
      | inr long ↦ elim (Bool-cases (ltb (length chunk - 12) (read32 chunk))) [
        | inl cut ↦ rw (long, cut) refl
        | inr fits ↦
            let shorter = step_size-next chunk (read32 chunk) small long fits in
            let has_data =
              has || (bytes_eq (take 4 (drop 4 chunk)) type_idat && not (read32 chunk == 0)) in
            let rest =
              scan_chunks-fuel n m false has_data (drop (step_size (read32 chunk)) chunk)
                (omega arith) (omega arith) (omega arith) in
            rw rest refl
      ]
    ]
