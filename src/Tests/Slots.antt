-- ===== src/Tests/Slots.antt =====
-- Runs of the theorems on pings, texts and the state of the slots.
use cs2_bot_hider.Base.{
  ℕ, ◌-◌, ◌^◌, ◌≤◌, ◌<◌, ◌≡◌, ◌≢◌, refl, List, [], ◌∷◌, some, arith, min, take, length, replicate,
  if◌then◌else◌, ltb,
}
use cs2_bot_hider.Snapshot.{max_slots}
use cs2_bot_hider.Text.{c_string, copy_text, c_string-copy_text}
use cs2_bot_hider.Ping.{PingJitter, window_ticks, new_jitter, next_sample, current_average, reset}
use cs2_bot_hider.Ping.Window.{total, record_all, last_window, record_all-window}
use cs2_bot_hider.Ping.Range.{current_average-Within, next_sample-Within}
use cs2_bot_hider.Ping.Turns.{run_ticks, expected_ticks, run_ticks-expected}
use cs2_bot_hider.Manager.{adopt_slot, release_all, cleared, on_tick, clear_slot}
use cs2_bot_hider.Manager.Slots.{
  IsTaken, adopt_slot-IsTaken, advance_by, advance_by-ne, release_all-slots,
}
use cs2_bot_hider.Manager.Pings.{PingsWithin, on_tick-PingsWithin, adopt_slot-PingsWithin}
use cs2_bot_hider.Tests.{manager, persona_a, name_a}

abbrev two_samples : List ℕ
two_samples = 5 ∷ 7 ∷ []

record_all-window_example :
    ((record_all reset two_samples).sum ≡ total (last_window two_samples))
    × ((record_all reset two_samples).filled ≡ min window_ticks (length two_samples))
record_all-window_example = record_all-window two_samples

current_average-Within_example :
    (5 ≤ current_average (record_all reset two_samples))
    × (current_average (record_all reset two_samples) ≤ 9)
current_average-Within_example =
    current_average-Within 5 9 5 (7 ∷ []) (omega arith, omega arith, (omega arith, omega arith, tt))

abbrev jitter : PingJitter
jitter = new_jitter 9 40 20 60

next_sample-Within_example :
    (jitter.minimum ≤ (next_sample jitter).1) × ((next_sample jitter).1 ≤ jitter.maximum)
unfolding new_jitter
next_sample-Within_example = next_sample-Within jitter (omega arith)

run_ticks-expected_example :
    run_ticks reset (replicate 33 48) ≡ expected_ticks [] 0 (replicate 33 48)
run_ticks-expected_example = run_ticks-expected (replicate 33 48)

c_string-copy_text_example :
    c_string (copy_text 2 (some (b'B' ∷ b'o' ∷ b't' ∷ []))) ≡ take 1 (b'B' ∷ b'o' ∷ b't' ∷ [])
c_string-copy_text_example =
    c_string-copy_text 2 (b'B' ∷ b'o' ∷ b't' ∷ []) (omega arith, (omega arith, (omega arith, tt)))

adopt_slot-IsTaken_example :
    IsTaken manager
      (manager.slots 0)
      ((adopt_slot manager 9 0 persona_a).slots 0)
      persona_a
      name_a
      []
      []
adopt_slot-IsTaken_example =
    adopt_slot-IsTaken manager 9 0 76561197960265735 3 0 name_a [] [] (omega arith, tt) tt tt

advance_by-ne_example :
    (advance_by 3 (2 ^ 64 - 2) ≢ 2 ^ 64 - 2)
    × (advance_by 3 (2 ^ 64 - 2) ≢ 0)
    × (advance_by 3 (2 ^ 64 - 2) < 2 ^ 64)
advance_by-ne_example =
    advance_by-ne 3 (2 ^ 64 - 2) (omega arith) (omega arith) (omega arith) (omega arith)

release_all-slots_example : (release_all (adopt_slot manager 9 1 persona_a)).slots 1 ≡ (
    if ltb 1 max_slots
    then cleared ((adopt_slot manager 9 1 persona_a).slots 1)
    else (adopt_slot manager 9 1 persona_a).slots 1)
release_all-slots_example = release_all-slots (adopt_slot manager 9 1 persona_a) 1

-- Nothing is managed yet.
manager-PingsWithin : PingsWithin manager
manager-PingsWithin j managed = absurd (omega (arith, managed))

adopt_slot-PingsWithin_example : PingsWithin (adopt_slot manager 9 0 persona_a)
adopt_slot-PingsWithin_example =
    adopt_slot-PingsWithin manager 9 0 persona_a (omega arith) refl manager-PingsWithin

adopted-PingsWithin : PingsWithin (adopt_slot manager 9 0 persona_a)
adopted-PingsWithin =
    adopt_slot-PingsWithin manager 9 0 persona_a (omega arith) refl manager-PingsWithin

on_tick-PingsWithin_example : PingsWithin (on_tick (adopt_slot manager 9 0 persona_a))
unfolding adopt_slot clear_slot
on_tick-PingsWithin_example =
    on_tick-PingsWithin (adopt_slot manager 9 0 persona_a) (omega arith) refl adopted-PingsWithin
