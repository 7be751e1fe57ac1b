-- ===== src/Ping/Turns.antt =====
-- The display over time: `OnTick` records a sample and asks for a ping, tick after tick.
use cs2_bot_hider.Base.{
  Bool-cases, inl, inr, ltb, true, false, ℕ, ◌+◌, ◌/◌, ◌%◌, ◌<◌, min, ◌≡◌, refl, ap, ◌∙◌, List, [],
  ◌∷◌, ◌++◌, Option, none, some, arith, length, length-append, ◌==◌, if◌then◌else◌,
}
use cs2_bot_hider.Ping.{PingDisplay, record_sample, maybe_produce, reset, write_every_ticks}
use cs2_bot_hider.Ping.Window.{total, Holds, last_window, reset-Holds, record_sample-last_window}

-- What the display shows on each tick, `none` where the shown ping stays.
abbrev pub run_ticks : PingDisplay → List ℕ → List (Option ℕ)
run_ticks d [] = []
run_ticks d (v ∷ vs) = let turn = maybe_produce (record_sample d v) in turn.1 ∷ run_ticks turn.0 vs

-- The average of the last 64 of all samples, or of all where there are fewer.
abbrev pub average_of : List ℕ → ℕ
average_of vs = total (last_window vs) / min 64 (length vs)

-- On each 32nd tick the average is shown, unless it is what was shown last.
abbrev pub expected : List ℕ → ℕ → Option ℕ
expected vs last =
    if length vs % 32 == 0
    then if average_of vs == last then none else some (average_of vs)
    else none

abbrev pub shown_after : ℕ → Option ℕ → ℕ
shown_after last none = last
shown_after last (some ping) = ping

-- The same for the samples `vs` after `before`, when `last` was shown last.
abbrev pub expected_ticks : List ℕ → ℕ → List ℕ → List (Option ℕ)
expected_ticks before last [] = []
expected_ticks before last (v ∷ vs) =
    let so_far = before ++ v ∷ [] in
    let shown = expected so_far last in shown ∷ expected_ticks so_far (shown_after last shown) vs

record IsAt (d : PingDisplay) (vs : List ℕ) (last : ℕ) : Type 0 where
  held : Holds d (last_window vs) (length vs)
  ticks : d.ticks_since_write ≡ length vs % 32
  written : d.last_written ≡ last

moved-Holds :
    (d : PingDisplay) (w : List ℕ) (count ticks last : ℕ)
    → Holds d w count
    → Holds (record d { ticks_since_write = ticks; last_written = last }) w count
moved-Holds d w count ticks last k = record {
  size = k.size;
  index = k.index;
  window = k.window;
  summed = k.summed;
  counted = k.counted;
}

filled-average_of :
    (d : PingDisplay) (vs : List ℕ)
    → Holds d (last_window vs) (length vs)
    → 0 < length vs
    → ((d.filled == 0) ≡ false) × (d.sum / d.filled ≡ average_of vs)
filled-average_of d vs k some_samples =
    let counted = k.counted in
    let filled : (d.filled == 0) ≡ false = ground arith in (filled, rw (k.summed, k.counted) refl)

-- A due tick, by whether the average is new.
due-IsAt :
    (d : PingDisplay) (vs : List ℕ) (last : ℕ)
    → Holds d (last_window vs) (length vs)
    → 0 < length vs
    → ltb (d.ticks_since_write + 1) write_every_ticks ≡ false
    → (length vs % 32 == 0) ≡ true
    → d.last_written ≡ last
    → IsAt (maybe_produce d).0 vs (shown_after last (expected vs last))
      × ((maybe_produce d).1 ≡ expected vs last)
unfolding maybe_produce
due-IsAt d vs last k some_samples late due w =
    let (filled, same) = filled-average_of d vs k some_samples in
    let zero_ticks : 0 ≡ length vs % 32 = ground arith in
    elim (Bool-cases (average_of vs == last)) [
      | inl e ↦
          rw (late, filled, due, same, w, e)
            (
              record {
                held = moved-Holds d (last_window vs) (length vs) 0 last k;
                ticks = zero_ticks;
                written = refl;
              },
              refl,
            )
      | inr e ↦
          rw (late, filled, due, same, w, e)
            (
              record {
                held = moved-Holds d (last_window vs) (length vs) 0 (average_of vs) k;
                ticks = zero_ticks;
                written = refl;
              },
              refl,
            )
    ]

produced-IsAt :
    (d : PingDisplay) (vs : List ℕ) (last : ℕ)
    → Holds d (last_window vs) (length vs)
    → 0 < length vs
    → (d.ticks_since_write + 1) % 32 ≡ length vs % 32
    → d.ticks_since_write < 32
    → d.last_written ≡ last
    → IsAt (maybe_produce d).0 vs (shown_after last (expected vs last))
      × ((maybe_produce d).1 ≡ expected vs last)
unfolding maybe_produce
produced-IsAt d vs last k some_samples t below w =
    elim (Bool-cases (ltb (d.ticks_since_write + 1) write_every_ticks)) [
      | inr late ↦ due-IsAt d vs last k some_samples late (ground arith) w
      | inl early ↦
          let undue : (length vs % 32 == 0) ≡ false = ground arith in
          rw (early, undue)
            (
              record {
                held =
                    moved-Holds d (last_window vs) (length vs) (d.ticks_since_write + 1)
                      d.last_written k;
                ticks = ground arith;
                written = w;
              },
              refl,
            )
    ]

record-IsAt :
    (d : PingDisplay) (vs : List ℕ) (last v : ℕ)
    → IsAt d vs last
    → let so_far = vs ++ v ∷ [] in
      let turn = maybe_produce (record_sample d v) in
      IsAt turn.0 so_far (shown_after last (expected so_far last)) × (turn.1 ≡ expected so_far last)
unfolding record_sample
record-IsAt d vs last v a =
    let grown = length-append vs (v ∷ []) in
    produced-IsAt (record_sample d v) (vs ++ v ∷ []) last (record_sample-last_window d vs v a.held)
      (omega (arith, grown)) (omega (arith, grown, a.ticks)) (omega (arith, a.ticks)) a.written

run_ticks-IsAt :
    (d : PingDisplay) (before : List ℕ) (last : ℕ) (vs : List ℕ)
    → IsAt d before last
    → run_ticks d vs ≡ expected_ticks before last vs
run_ticks-IsAt d before last [] a = refl
run_ticks-IsAt d before last (v ∷ vs) a =
    let (next, shown) = record-IsAt d before last v a in
    let so_far = before ++ v ∷ [] in
    ap (λ (o : Option ℕ). o ∷ run_ticks (maybe_produce (record_sample d v)).0 vs) shown
    ∙ ap (◌∷◌ (expected so_far last)) (
        run_ticks-IsAt (maybe_produce (record_sample d v)).0 so_far
          (shown_after last (expected so_far last)) vs next)

-- From a fresh display, whatever the samples are, the ring buffer with its running sum and its
-- counters shows, tick by tick, what the list of all samples gives: on each 32nd tick the average of
-- the last 64 samples (of all, where there are fewer), unless that is the ping that was shown last
-- (0 before the first), and nothing on any other tick.
pub run_ticks-expected : (vs : List ℕ) → run_ticks reset vs ≡ expected_ticks [] 0 vs
unfolding reset last_window
run_ticks-expected vs =
    run_ticks-IsAt reset [] 0 vs (record { held = reset-Holds; ticks = refl; written = refl })
