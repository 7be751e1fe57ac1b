-- ===== src/Manager/Pings.antt =====
-- The ping that a managed slot shows stays in the configured range, whatever is drawn and however
-- often the game ticks.
use native.Mathlib.Decide.{ℕ_discrete}
use cs2_bot_hider.Base.{
  not, ◌||◌, ℕ, ◌≤◌, ◌≡◌, refl, ap, sym, subst, ◌∙◌, Bool, true, false, List, [], ◌∷◌, ◌++◌, Option,
  none, some, arith, length, ltb, ◌==◌, inl, inr, Bool-cases,
}
use cs2_bot_hider.Ping.{
  PingDisplay, PingJitter, new_jitter, next_sample, record_sample, maybe_produce,
}
use cs2_bot_hider.Ping.Window.{Holds, last_window, record_sample-last_window, reset-Holds}
use cs2_bot_hider.Ping.Range.{AllWithin, Holds-average, maybe_produce-average, next_sample-Within}
use cs2_bot_hider.Snapshot.{max_slots}
use cs2_bot_hider.Manager.{
  Manager, ManagedSlot, Persona, cleared, clear_slot, draw_baseline, adopted, adopt_slot, tick_slot,
  show_ping, on_tick,
}
use cs2_bot_hider.Manager.Slots.{adopt_slot_self, adopt_slot-ne}

-- The slot's jitter, the window of its samples, and what it shows lie in the range.
pub record ShowsWithin (lo hi : ℕ) (s : ManagedSlot) : Type 0 where
  pub minimum : s.jitter.minimum ≡ lo
  pub maximum : s.jitter.maximum ≡ hi
  pub history : List ℕ
  pub within : AllWithin lo hi history
  pub window : Holds s.display (last_window history) (length history)
  pub above : lo ≤ s.snapshot.ping
  pub below : s.snapshot.ping ≤ hi

AllWithin-snoc :
    (lo hi v : ℕ) (vs : List ℕ)
    → AllWithin lo hi vs
    → lo ≤ v
    → v ≤ hi
    → AllWithin lo hi (vs ++ v ∷ [])
AllWithin-snoc lo hi v [] h p q = (p, q, tt)
AllWithin-snoc lo hi v (x ∷ vs) h p q = (h.0, h.1, AllWithin-snoc lo hi v vs h.2 p q)

maybe_produce-Holds :
    (d : PingDisplay) (w : List ℕ) (n : ℕ) → Holds d w n → Holds (maybe_produce d).0 w n
maybe_produce-Holds d w n k =
    let (a, b, c, e) = fields d in
    record {
      size = ap length a ∙ k.size;
      index = rw b k.index;
      window = rw (a, b) k.window;
      summed = c ∙ k.summed;
      counted = e ∙ k.counted;
    }
  where
    fields :
        (d : PingDisplay)
        → ((maybe_produce d).0.samples ≡ d.samples)
          × ((maybe_produce d).0.idx ≡ d.idx)
          × ((maybe_produce d).0.sum ≡ d.sum)
          × ((maybe_produce d).0.filled ≡ d.filled)
    fields d = unfold maybe_produce in ground arith

next_sample-range :
    (j : PingJitter)
    → ((next_sample j).0.minimum ≡ j.minimum) × ((next_sample j).0.maximum ≡ j.maximum)
unfolding next_sample
next_sample-range j = (refl, refl)

-- A tick keeps a managed slot in its range.
tick_slot-ShowsWithin :
    (lo hi : ℕ) (s : ManagedSlot)
    → lo ≤ hi
    → s.snapshot.managed ≡ 1
    → ShowsWithin lo hi s
    → ShowsWithin lo hi (tick_slot true s)
unfolding tick_slot
tick_slot-ShowsWithin lo hi s le m k =
    let tests : (s.snapshot.managed == 0 || not true) ≡ false = ground arith in
    rw tests (shown (maybe_produce recorded).1 refl)
  where
    sampled : PingJitter × ℕ
    sampled = next_sample s.jitter

    recorded : PingDisplay
    recorded = record_sample s.display sampled.1

    ticked : ManagedSlot
    ticked = record s { jitter = sampled.0; display = (maybe_produce recorded).0 }

    kept : PingJitter
    kept = sampled.0

    range : (lo ≤ sampled.1) × (sampled.1 ≤ hi)
    range =
        let b = next_sample-Within s.jitter (omega (arith, k.minimum, k.maximum)) in
        (omega (arith, k.minimum, b), omega (arith, k.maximum, b))

    longer : List ℕ
    longer = k.history ++ sampled.1 ∷ []

    all : AllWithin lo hi longer
    all = AllWithin-snoc lo hi sampled.1 k.history k.within range.0 range.1

    window : Holds recorded (last_window longer) (length longer)
    window = record_sample-last_window s.display k.history sampled.1 k.window

    with_ping : (p : ℕ) → lo ≤ p → p ≤ hi → ShowsWithin lo hi (show_ping ticked (some p))
    with_ping p above below = record {
      minimum = (next_sample-range s.jitter).0 ∙ k.minimum;
      maximum = (next_sample-range s.jitter).1 ∙ k.maximum;
      history = longer;
      within = all;
      window = maybe_produce-Holds recorded (last_window longer) (length longer) window;
      above = above;
      below = below;
    }

    shown : (o : Option ℕ) → (maybe_produce recorded).1 ≡ o → ShowsWithin lo hi (show_ping ticked o)
    shown none e = with_ping s.snapshot.ping k.above k.below
    shown (some avg) e =
        let facts = maybe_produce-average recorded avg e in
        let bounds = Holds-average lo hi recorded longer window all facts.2 in
        with_ping avg (rw facts.0 bounds.0) (rw facts.0 bounds.1)

-- Every managed slot shows a ping from the configured range.
abbrev pub PingsWithin : Manager → Type 0
PingsWithin m =
    (j : ℕ)
    → (m.slots j).snapshot.managed ≡ 1
    → ShowsWithin m.fake_ping_minimum m.fake_ping_maximum (m.slots j)

tick_slot-managed :
    (enabled : Bool) (s : ManagedSlot) → (tick_slot enabled s).snapshot.managed ≡ s.snapshot.managed
unfolding tick_slot
tick_slot-managed enabled s = ground arith

-- With fake pings on and a minimum of at most the maximum: if the ping, the window of samples
-- and the jitter of each managed slot lie in the range, they do so after a tick.
pub on_tick-PingsWithin :
    (m : Manager)
    → m.fake_ping_minimum ≤ m.fake_ping_maximum
    → m.fake_ping_enabled ≡ true
    → PingsWithin m
    → PingsWithin (on_tick m)
unfolding on_tick
on_tick-PingsWithin m le on h j managed = elim (Bool-cases (ltb j max_slots)) [
  | inl inside ↦
      let same : (m.slots j).snapshot.managed ≡ 1 =
        sym (tick_slot-managed m.fake_ping_enabled (m.slots j)) ∙ rw inside at managed in
      rw (inside, on)
        (tick_slot-ShowsWithin m.fake_ping_minimum m.fake_ping_maximum (m.slots j) le same
          (h j same))
  | inr outside ↦ rw outside (h j (rw outside at managed))
]

adopted-ShowsWithin :
    (m : Manager) (now : ℕ) (s : ManagedSlot) (p : Persona)
    → m.fake_ping_minimum ≤ m.fake_ping_maximum
    → m.fake_ping_enabled ≡ true
    → ShowsWithin m.fake_ping_minimum m.fake_ping_maximum (adopted m now (cleared s) p)
unfolding adopted draw_baseline cleared new_jitter last_window
adopted-ShowsWithin m now s p le on = record {
  minimum = refl;
  maximum = refl;
  history = [];
  within = tt;
  window = reset-Holds;
  above = rw on (omega arith);
  below = rw on (omega arith);
}

-- With fake pings on and a minimum of at most the maximum: if the ping, the window of samples
-- and the jitter of each managed slot lie in the range, they do so after an adoption, the
-- adopted slot's included.
pub adopt_slot-PingsWithin :
    (m : Manager) (now slot : ℕ) (p : Persona)
    → m.fake_ping_minimum ≤ m.fake_ping_maximum
    → m.fake_ping_enabled ≡ true
    → PingsWithin m
    → PingsWithin (adopt_slot m now slot p)
unfolding adopt_slot clear_slot
adopt_slot-PingsWithin m now slot p le on h j managed = elim (ℕ_discrete slot j) [
  | yes same ↦
      subst (λ (i : ℕ). ShowsWithin lo hi ((adopt_slot m now slot p).slots i)) same
        (subst (ShowsWithin lo hi) (sym (adopt_slot_self m now slot p))
          (adopted-ShowsWithin m now (m.slots slot) p le on))
  | no other ↦
      let kept = adopt_slot-ne m now slot j p other in
      subst (ShowsWithin lo hi) (sym kept)
        (h j (ap (λ (s : ManagedSlot). s.snapshot.managed) (sym kept) ∙ managed))
]
  where
    lo : ℕ
    lo = m.fake_ping_minimum

    hi : ℕ
    hi = m.fake_ping_maximum
