-- ===== src/Ping/Range.antt =====
-- The ranges of the jitter and of the average.
use native.Mathlib.Nat.{le-div_iff_mul-le, div-le_of_le-mul, mul_comm}
use cs2_bot_hider.Base.{
  ℕ, zero, suc, ◌+◌, ◌-◌, ◌*◌, ◌/◌, ◌<◌, ◌≤◌, ◌≡◌, ◌≢◌, List, [], ◌∷◌, ◌++◌, some, arith, length,
  drop, replicate,
}
use cs2_bot_hider.Ping.{
  PingDisplay, PingJitter, reset, window_ticks, current_average, maybe_produce, next_sample,
}
use cs2_bot_hider.Ping.Window.{
  total, total-append, total-replicate, Holds, record_all, last_window, record_all-Holds-reset,
}

abbrev pub AllWithin : ℕ → ℕ → List ℕ → Type 0
AllWithin lo hi [] = Unit {0}
AllWithin lo hi (v ∷ vs) = (lo ≤ v) × (v ≤ hi) × AllWithin lo hi vs

total-Within :
    (lo hi : ℕ) (vs : List ℕ)
    → AllWithin lo hi vs
    → (length vs * lo ≤ total vs) × (total vs ≤ length vs * hi)
total-Within lo hi [] h = (omega arith, omega arith)
total-Within lo hi (v ∷ vs) h = let ih = total-Within lo hi vs h.2 in (grind arith, grind arith)

-- The samples after the first `k`, of which `m` are the zeros of the fresh buffer.
window-Within :
    (lo hi : ℕ) (k m : ℕ) (vs : List ℕ) (n : ℕ)
    → AllWithin lo hi vs
    → n ≡ length vs - (k - m)
    → let w = drop k (replicate m 0 ++ vs) in (n * lo ≤ total w) × (total w ≤ n * hi)
window-Within lo hi zero m vs n h e =
    let all : n ≡ length vs = omega arith in
    let zeros = total-append (replicate m 0) vs in
    let none_counted = total-replicate m in
    let bounds = total-Within lo hi vs h in rw all (omega arith, omega arith)
window-Within lo hi (suc k) (suc m) vs n h e = window-Within lo hi k m vs n h (omega arith)
window-Within lo hi (suc k) zero [] n h e =
    let empty : n ≡ 0 = omega arith in rw empty (omega arith, omega arith)
window-Within lo hi (suc k) zero (v ∷ vs) n h e = window-Within lo hi k zero vs n h.2 (omega arith)

average-Within : (lo hi s n : ℕ) → 0 < n → n * lo ≤ s → s ≤ n * hi → (lo ≤ s / n) × (s / n ≤ hi)
average-Within lo hi s n p h k =
    ((le-div_iff_mul-le p).1 (omega (arith, mul_comm lo n)), div-le_of_le-mul n k)

-- The average of a window of samples from `lo` to `hi`.
pub Holds-average :
    (lo hi : ℕ) (d : PingDisplay) (vs : List ℕ)
    → Holds d (last_window vs) (length vs)
    → AllWithin lo hi vs
    → 0 < d.filled
    → (lo ≤ current_average d) × (current_average d ≤ hi)
unfolding current_average last_window
Holds-average lo hi d vs k h some_samples =
    let n = d.filled in
    let bounds = window-Within lo hi (length vs) window_ticks vs n h (omega (arith, k.counted)) in
    let within =
      average-Within lo hi d.sum n some_samples (rw k.summed bounds.0) (rw k.summed bounds.1) in
    ground (arith, within)

-- After one or more samples, all from `lo` to `hi`, the average lies in that range as well.
pub current_average-Within :
    (lo hi v : ℕ) (vs : List ℕ)
    → AllWithin lo hi (v ∷ vs)
    → let d = record_all reset (v ∷ vs) in (lo ≤ current_average d) × (current_average d ≤ hi)
current_average-Within lo hi v vs h =
    let k = record_all-Holds-reset (v ∷ vs) in
    Holds-average lo hi (record_all reset (v ∷ vs)) (v ∷ vs) k h (omega (arith, k.counted))

-- If the minimum of the jitter is at most its maximum, a sample lies between them.
pub next_sample-Within :
    (j : PingJitter)
    → j.minimum ≤ j.maximum
    → (j.minimum ≤ (next_sample j).1) × ((next_sample j).1 ≤ j.maximum)
unfolding next_sample
next_sample-Within j h = (omega arith, omega arith)

-- A ping that is shown is the average, is new, and comes on a due call.
pub maybe_produce-average :
    (d : PingDisplay) (avg : ℕ)
    → (maybe_produce d).1 ≡ some avg
    → (avg ≡ current_average d)
      × (avg ≢ d.last_written)
      × (0 < d.filled)
      × (32 ≤ d.ticks_since_write + 1)
      × ((maybe_produce d).0.last_written ≡ avg)
      × ((maybe_produce d).0.ticks_since_write ≡ 0)
unfolding maybe_produce
maybe_produce-average d avg h = ground arith
