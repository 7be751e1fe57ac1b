-- ===== src/Ping/Window.antt =====
-- The ring buffer of `PingDisplay` against the list of all samples: it holds the last 64 of them.
use native.Mathlib.Nat.{add-zero}
use mathlib.Core.List.{append_assoc, append-nil}
use cs2_bot_hider.Base.{
  ℕ, zero, suc, ◌+◌, ◌%◌, ◌<◌, ◌≤◌, min, ◌≡◌, refl, sym, ap, ◌∙◌, subst, List, [], ◌∷◌, ◌++◌, arith,
  length, get_or, set, take, drop, replicate, length-set, length-append, ltb, inl, inr, Bool-cases,
}
use cs2_bot_hider.Ping.{PingDisplay, record_sample, reset, window_ticks}

abbrev pub total : List ℕ → ℕ
total [] = 0
total (x ∷ xs) = x + total xs

pub total-append : (xs ys : List ℕ) → total (xs ++ ys) ≡ total xs + total ys
total-append [] ys = omega arith
total-append (x ∷ xs) ys = omega (arith, total-append xs ys)

-- All samples in turn.
unfoldable pub record_all : PingDisplay → List ℕ → PingDisplay
record_all d [] = d
record_all d (v ∷ vs) = record_all (record_sample d v) vs

-- The last 64 samples, with zeros for those that were not taken yet.
unfoldable pub last_window : List ℕ → List ℕ
last_window vs = drop (length vs) (replicate window_ticks 0 ++ vs)

-- The buffer from its oldest entry on.
abbrev pub rotated : ℕ → List ℕ → List ℕ
rotated i xs = drop i xs ++ take i xs

drop-get : (xs : List ℕ) (i : ℕ) → i < length xs → drop i xs ≡ get_or xs i 0 ∷ drop (suc i) xs
drop-get [] i h = absurd (omega arith)
drop-get (x ∷ xs) zero h = refl
drop-get (x ∷ xs) (suc i) h = drop-get xs i (omega arith)

drop-set : (xs : List ℕ) (i v : ℕ) → drop (suc i) (set xs i v) ≡ drop (suc i) xs
drop-set [] i v = refl
drop-set (x ∷ xs) zero v = refl
drop-set (x ∷ xs) (suc i) v = drop-set xs i v

take-set : (xs : List ℕ) (i v : ℕ) → i < length xs → take (suc i) (set xs i v) ≡ take i xs ++ v ∷ []
take-set [] i v h = absurd (omega arith)
take-set (x ∷ xs) zero v h = refl
take-set (x ∷ xs) (suc i) v h = ap (◌∷◌ x) (take-set xs i v (omega arith))

drop-length : (xs : List ℕ) (n : ℕ) → length xs ≤ n → drop n xs ≡ []
drop-length [] zero h = refl
drop-length [] (suc n) h = refl
drop-length (x ∷ xs) zero h = absurd (omega arith)
drop-length (x ∷ xs) (suc n) h = drop-length xs n (omega arith)

take-length : (xs : List ℕ) (n : ℕ) → length xs ≤ n → take n xs ≡ xs
take-length [] zero h = refl
take-length [] (suc n) h = refl
take-length (x ∷ xs) zero h = absurd (omega arith)
take-length (x ∷ xs) (suc n) h = ap (◌∷◌ x) (take-length xs n (omega arith))

-- One write moves the window on by one sample.
rotated-next :
    (xs : List ℕ) (i v : ℕ)
    → length xs ≡ window_ticks
    → i < window_ticks
    → rotated ((i + 1) % window_ticks) (set xs i v) ≡ drop (suc i) xs ++ (take i xs ++ v ∷ [])
rotated-next xs i v l h = elim (Bool-cases (ltb (suc i) window_ticks)) [
  | inl inside ↦
      let e : (i + 1) % window_ticks ≡ suc i = ground arith in
      rw (e, drop-set xs i v, take-set xs i v (omega (arith, l)))
  | inr wraps ↦
      let e : (i + 1) % window_ticks ≡ 0 = ground arith in
      let short : length xs ≤ suc i = ground arith in
      rw (e, drop-length xs (suc i) short, append-nil)
        (sym (take-length (set xs i v) (suc i) (omega (arith, length-set xs i v)))
          ∙ take-set xs i v (omega (arith, l)))
]

-- What the display holds after the samples that made the window `w`.
pub record Holds (d : PingDisplay) (w : List ℕ) (count : ℕ) : Type 0 where
  pub size : length d.samples ≡ window_ticks
  pub index : d.idx < window_ticks
  pub window : rotated d.idx d.samples ≡ w
  pub summed : d.sum ≡ total w
  pub counted : d.filled ≡ min window_ticks count

record_sample-Holds :
    (d : PingDisplay) (x v : ℕ) (w : List ℕ) (count : ℕ)
    → Holds d (x ∷ w) count
    → Holds (record_sample d v) (w ++ v ∷ []) (suc count)
unfolding record_sample
record_sample-Holds d x v w count k =
    let s = drop-get d.samples d.idx (omega arith) in
    let e = sym k.window ∙ ap (λ (t : List ℕ). t ++ take d.idx d.samples) s in
    let first : x ≡ get_or d.samples d.idx 0 = ap (λ (t : List ℕ). get_or t 0 0) e in
    let rest : w ≡ drop (suc d.idx) d.samples ++ take d.idx d.samples =
      ap (λ (t : List ℕ). drop 1 t) e in
    record {
      size = omega (arith, length-set d.samples d.idx v);
      index = omega arith;
      window =
          rotated-next d.samples d.idx v k.size k.index
          ∙ (sym (append_assoc (drop (suc d.idx) d.samples) (take d.idx d.samples) (v ∷ []))
              ∙ ap (λ (t : List ℕ). t ++ v ∷ []) (sym rest));
      summed = omega (arith, first, total-append w (v ∷ []));
      counted = ground arith;
    }

drop-append : (xs ys : List ℕ) (n : ℕ) → n ≤ length xs → drop n (xs ++ ys) ≡ drop n xs ++ ys
drop-append xs ys zero h = refl
drop-append [] ys (suc n) h = absurd (omega arith)
drop-append (x ∷ xs) ys (suc n) h = drop-append xs ys n (omega arith)

-- One more sample is one more in the list of all.
pub record_sample-last_window :
    (d : PingDisplay) (vs : List ℕ) (v : ℕ)
    → Holds d (last_window vs) (length vs)
    → Holds (record_sample d v) (last_window (vs ++ v ∷ [])) (length (vs ++ v ∷ []))
unfolding last_window
record_sample-last_window d vs v k =
    let zeros : List ℕ = replicate window_ticks 0 in
    let n : ℕ = length vs in
    let more : suc n ≤ length (zeros ++ vs) = omega (arith, length-append zeros vs) in
    let x : ℕ = get_or (zeros ++ vs) n 0 in
    let w : List ℕ = drop (suc n) (zeros ++ vs) in
    let opened = subst (λ (t : List ℕ). Holds d t n) (drop-get (zeros ++ vs) n more) k in
    let grown : length (vs ++ v ∷ []) ≡ suc n = omega (arith, length-append vs (v ∷ [])) in
    let moved : w ++ v ∷ [] ≡ drop (suc n) (zeros ++ (vs ++ v ∷ [])) =
      sym (drop-append (zeros ++ vs) (v ∷ []) (suc n) more)
      ∙ ap (drop (suc n)) (append_assoc zeros vs (v ∷ [])) in
    rw grown (
      subst (λ (t : List ℕ). Holds (record_sample d v) t (suc n)) moved
        (record_sample-Holds d x v w n opened))

-- A window never runs empty: it is as long as it was.
record_all-Holds :
    (d : PingDisplay) (vs w : List ℕ) (count : ℕ)
    → length w ≡ window_ticks
    → Holds d w count
    → Holds (record_all d vs) (drop (length vs) (w ++ vs)) (count + length vs)
unfolding record_all
record_all-Holds d [] w count l k = rw (append-nil, add-zero) k
record_all-Holds d (v ∷ vs) [] count l k = absurd (omega arith)
record_all-Holds d (v ∷ vs) (x ∷ w) count l k =
    let ih =
      record_all-Holds (record_sample d v) vs (w ++ v ∷ []) (suc count)
        (omega (arith, l, length-append w (v ∷ []))) (record_sample-Holds d x v w count k) in
    let shift : suc count + length vs ≡ count + suc (length vs) = omega arith in
    rw (← shift, ← append_assoc w (v ∷ []) vs) ih

pub total-replicate : (n : ℕ) → total (replicate n 0) ≡ 0
total-replicate zero = refl
total-replicate (suc n) = omega (arith, total-replicate n)

pub reset-Holds : Holds reset (replicate window_ticks 0) 0
unfolding reset
reset-Holds = record {
  size = refl;
  index = omega arith;
  window = refl;
  summed = refl;
  counted = omega arith;
}

pub record_all-Holds-reset :
    (vs : List ℕ) → Holds (record_all reset vs) (last_window vs) (length vs)
unfolding last_window
record_all-Holds-reset vs =
    let start : 0 + length vs ≡ length vs = omega arith in
    rw start at (record_all-Holds reset vs (replicate window_ticks 0) 0 refl reset-Holds)

-- From a fresh display, whatever the samples are: the sum is the total of the last 64 of them, and
-- the count of samples, up to 64, is what divides it. So the ring buffer computes a moving average.
pub record_all-window :
    (vs : List ℕ)
    → ((record_all reset vs).sum ≡ total (last_window vs))
      × ((record_all reset vs).filled ≡ min window_ticks (length vs))
record_all-window vs = let k = record_all-Holds-reset vs in (k.summed, k.counted)
