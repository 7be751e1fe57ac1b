-- ===== src/Png/Size.antt =====
-- The least size of a file that the PNG check accepts.
use cs2_bot_hider.Base.{
  ℕ, zero, suc, ◌^◌, ◌≤◌, ◌<◌, ◌≡◌, refl, Bool, true, false, ◌&&◌, not, inl, inr, List, ◌==◌,
  length, drop, take, bytes_eq, bytes_eq→eq, arith, Bool-cases,
}
use cs2_bot_hider.Png.Chunks.{length-drop}
use cs2_bot_hider.Png.{
  type_ihdr, type_idat, type_iend, read32, step_size, scan_chunks, has_png_structure,
}

scan_chunks_left :
    (n : ℕ) (first has_image_data : Bool) (chunk : List ℕ)
    → scan_chunks n first has_image_data chunk ≡ true
    → 12 ≤ length chunk
unfolding scan_chunks
scan_chunks_left zero first has chunk h = absurd (ground arith)
scan_chunks_left (suc n) first has chunk h = ground arith

idat-not_iend : (kind : List ℕ) → bytes_eq kind type_idat ≡ true → bytes_eq kind type_iend ≡ false
unfolding bytes_eq
idat-not_iend kind h = rw (bytes_eq→eq kind type_idat h) refl

ihdr-not_idat : (kind : List ℕ) → bytes_eq kind type_ihdr ≡ true → bytes_eq kind type_idat ≡ false
unfolding bytes_eq
ihdr-not_idat kind h = rw (bytes_eq→eq kind type_ihdr h) refl

ihdr-not_iend : (kind : List ℕ) → bytes_eq kind type_ihdr ≡ true → bytes_eq kind type_iend ≡ false
unfolding bytes_eq
ihdr-not_iend kind h = rw (bytes_eq→eq kind type_ihdr h) refl

-- Without image data so far, there must come a chunk of it, of 13 bytes or more, before the end.
scan_chunks_data :
    (n : ℕ) (chunk : List ℕ)
    → length chunk < 2 ^ 32
    → scan_chunks n false false chunk ≡ true
    → 25 ≤ length chunk
unfolding scan_chunks
scan_chunks_data zero chunk small h = absurd (ground arith)
scan_chunks_data (suc n) chunk small h =
    let kind = take 4 (drop 4 chunk) in
    let size = read32 chunk in
    let next = drop (step_size size) chunk in
    let len = length-drop (step_size size) chunk in
    elim (Bool-cases (bytes_eq kind type_idat && not (size == 0))) [
      | inl filled ↦
          let other : bytes_eq kind type_iend ≡ false = idat-not_iend kind (ground arith) in
          let rest : scan_chunks n false true next ≡ true = ground (arith, filled) in
          let left = scan_chunks_left n false true next rest in ground (arith, left, len)
      | inr empty ↦
          let rest : scan_chunks n false false next ≡ true = ground arith in
          let left = scan_chunks_data n next (ground (arith, len)) rest in ground (arith, left, len)
    ]

scan_chunks_first :
    (n : ℕ) (chunk : List ℕ)
    → length chunk < 2 ^ 32
    → scan_chunks n true false chunk ≡ true
    → 50 ≤ length chunk
unfolding scan_chunks
scan_chunks_first zero chunk small h = absurd (ground arith)
scan_chunks_first (suc n) chunk small h =
    let kind = take 4 (drop 4 chunk) in
    let size = read32 chunk in
    let next = drop (step_size size) chunk in
    let len = length-drop (step_size size) chunk in
    let header : bytes_eq kind type_ihdr ≡ true = ground arith in
    let thirteen : size ≡ 13 = ground arith in
    let no_end = ihdr-not_iend kind header in
    let no_data = ihdr-not_idat kind header in
    let rest : scan_chunks n false false next ≡ true = ground (arith, no_end, no_data) in
    let left = scan_chunks_data n next (ground (arith, len, thirteen)) rest in
    ground (arith, left, len, thirteen)

-- A file of less than 2^32 bytes that the check accepts has at least 58 bytes: the signature, a header
-- of 25 bytes, a chunk of image data that is not empty, and the end.
pub has_png_structure-length :
    (bytes : List ℕ) → length bytes < 2 ^ 32 → has_png_structure bytes ≡ true → 58 ≤ length bytes
unfolding has_png_structure
has_png_structure-length bytes small h =
    let len = length-drop 8 bytes in
    let scanned : scan_chunks (length bytes) true false (drop 8 bytes) ≡ true = ground arith in
    let left =
      scan_chunks_first (length bytes) (drop 8 bytes) (omega (arith, len, small)) scanned in
    omega (arith, len, left)
