-- ===== src/Png.antt =====
-- `HasPngStructure` of src/bridge/exports.cpp: the container of a PNG file, chunk by chunk.
pub mod Chunks
pub mod Size
use cs2_bot_hider.Base.{
  ℕ, zero, suc, ◌+◌, ◌-◌, ◌*◌, ◌%◌, ◌^◌, Bool, true, false, ◌||◌, ◌&&◌, not, List, [], ◌∷◌, ltb,
  ◌==◌, if◌then◌else◌, length, get_or, drop, take, bytes_eq,
}

abbrev pub signature : List ℕ
signature = 0x89 ∷ b'P' ∷ b'N' ∷ b'G' ∷ 0x0d ∷ 0x0a ∷ 0x1a ∷ 0x0a ∷ []

abbrev pub type_ihdr : List ℕ
type_ihdr = b'I' ∷ b'H' ∷ b'D' ∷ b'R' ∷ []

abbrev pub type_idat : List ℕ
type_idat = b'I' ∷ b'D' ∷ b'A' ∷ b'T' ∷ []

abbrev pub type_iend : List ℕ
type_iend = b'I' ∷ b'E' ∷ b'N' ∷ b'D' ∷ []

-- The big-endian number in the first four bytes.
abbrev pub read32 : List ℕ → ℕ
read32 p = get_or p 0 0 * 2 ^ 24 + get_or p 1 0 * 2 ^ 16 + get_or p 2 0 * 2 ^ 8 + get_or p 3 0

-- What follows the chunk in the loop's body.
abbrev pub step_size : ℕ → ℕ
step_size size = (size + 12) % 2 ^ 32

-- The loop: `chunk` are the bytes from `offset` on, `first` says whether `offset` is that of the
-- first chunk. Every turn moves on by 12 bytes or more, so the length is fuel enough.
unfoldable pub scan_chunks : ℕ → Bool → Bool → List ℕ → Bool
scan_chunks zero first has_image_data chunk = false
scan_chunks (suc fuel) first has_image_data chunk =
    let left = length chunk in
    let size = read32 chunk in
    let kind = take 4 (drop 4 chunk) in
    let is_header = bytes_eq kind type_ihdr in
    let bad_header =
      if first
      then not is_header
        || (not (size == 13) || (read32 (drop 8 chunk) == 0 || read32 (drop 12 chunk) == 0))
      else is_header in
    let has_data = has_image_data || (bytes_eq kind type_idat && not (size == 0)) in
    let next = drop (step_size size) chunk in
    let rest = scan_chunks fuel false has_data next in
    if ltb left 12
    then false
    else if ltb (left - 12) size
    then false
    else if bad_header
    then false
    else if bytes_eq kind type_iend
    then has_data && (size == 0 && length next == 0)
    else rest

-- A null pointer with a length is passed on by no caller; the empty text stands for it.
unfoldable pub has_png_structure : List ℕ → Bool
has_png_structure bytes =
    if ltb (length bytes) 8 || not (bytes_eq (take 8 bytes) signature)
    then false
    else scan_chunks (length bytes) true false (drop 8 bytes)
