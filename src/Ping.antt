-- ===== src/Ping.antt =====
-- src/features/ping/ping_display.h and src/features/ping/ping_display.cpp: the moving average that
-- the scoreboard shows, and the jitter that feeds it. A latency is a natural number: `next_sample`
-- clamps it to a range that starts at 1 (core/config.cpp).
pub mod Window
pub mod Range
pub mod Turns
use cs2_bot_hider.Base.{
  ℕ, suc, ◌+◌, ◌-◌, ◌*◌, ◌/◌, ◌%◌, min, max, bit_xor, List, [], ◌∷◌, Option, none, some, ltb, ◌==◌,
  if◌then◌else◌, get_or, set, replicate,
}
use cs2_bot_hider.Random.{u64, scramble, draw}

abbrev pub window_ticks : ℕ
window_ticks = 64

abbrev pub write_every_ticks : ℕ
write_every_ticks = 32

pub record PingDisplay : Type 0 where
  pub samples : List ℕ
  pub idx : ℕ
  pub sum : ℕ
  pub filled : ℕ
  pub ticks_since_write : ℕ
  pub last_written : ℕ

-- `m_sum += latencyMs - oldest`: the sum holds the oldest sample, so the difference is no less
-- than 0 (`Ping.Window` keeps the sum equal to the window's total).
unfoldable pub record_sample : PingDisplay → ℕ → PingDisplay
record_sample d latency =
    let oldest = get_or d.samples d.idx 0 in
    record d {
      samples = set d.samples d.idx latency;
      sum = d.sum + latency - oldest;
      idx = (d.idx + 1) % window_ticks;
      filled = if ltb d.filled window_ticks then d.filled + 1 else d.filled;
    }

unfoldable pub current_average : PingDisplay → ℕ
current_average d = if d.filled == 0 then 0 else d.sum / d.filled

-- The source's -1, which skips the tick, is `none`.
unfoldable pub maybe_produce : PingDisplay → PingDisplay × Option ℕ
unfolding current_average
maybe_produce d =
    let ticks = d.ticks_since_write + 1 in
    if ltb ticks write_every_ticks
    then (record d { ticks_since_write = ticks }, none)
    else let due = record d { ticks_since_write = 0 } in
      let avg = current_average due in
      if due.filled == 0
      then (due, none)
      else if avg == due.last_written
      then (due, none)
      else (record due { last_written = avg }, some avg)

unfoldable pub reset : PingDisplay
reset = record {
  samples = replicate window_ticks 0;
  idx = 0;
  sum = 0;
  filled = 0;
  ticks_since_write = 0;
  last_written = 0;
}

pub record PingJitter : Type 0 where
  pub baseline : ℕ
  pub minimum : ℕ
  pub maximum : ℕ
  pub state : ℕ

-- `now` is the tick count of the steady clock.
unfoldable pub new_jitter : ℕ → ℕ → ℕ → ℕ → PingJitter
new_jitter now baseline minimum maximum =
    let seed =
      bit_xor (bit_xor (u64 now) (u64 (baseline * 0x9E3779B97F4A7C15))) 0xA0761D6478BD642F in
    record {
      baseline = baseline;
      minimum = minimum;
      maximum = maximum;
      state = if seed == 0 then 0xDEADBEEFCAFEBABE else seed;
    }

-- The baseline, moved by at most a tenth (rounded up), then clamped.
unfoldable pub next_sample : PingJitter → PingJitter × ℕ
next_sample j =
    let x = scramble j.state in
    let r = draw x in
    let span = (j.baseline + 9) / 10 in
    let v = j.baseline + r % (2 * span + 1) - span in
    (record j { state = x }, min (max v j.minimum) j.maximum)
