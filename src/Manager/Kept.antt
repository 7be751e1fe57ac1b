-- ===== src/Manager/Kept.antt =====
-- What the calls of `FakeClientManager` do to what the slots show of their avatars.
use cs2_bot_hider.Base.{
  subst, ==_iff, Option-cases, ℕ, ◌≡◌, ◌≢◌, refl, ap, Bool, arith, ltb, ◌==◌, ◌||◌, not, inl, inr,
  ◌⊎◌, if_both, Bool-cases,
}
use cs2_bot_hider.Ping.{next_sample, record_sample, maybe_produce}
use cs2_bot_hider.Snapshot.{SlotSnapshot, max_slots}
use cs2_bot_hider.Manager.{
  Manager, ManagedSlot, with_slot, clear_slot, cleared, adopted, adopt_slot, release_slot,
  tick_slot, on_tick, set_synthetic_sid, set_slot_name, update_crosshair, update_scoreboard_flair,
  publish_avatar_state, set_avatar_request, publish_signature, configure_fake_ping, begin_shutdown,
  shutdown, is_ready, attach, detach,
}
use cs2_bot_hider.Manager.Slots.{
  release_all-slots, adopt_slot_self, adopt_slot-ne, update_self, update_ne,
}
use cs2_bot_hider.Manager.Calls.{ManagerCall, run_call}

-- What a slot shows of its avatar is gone, or it is what it was.
abbrev pub KeepsShown : SlotSnapshot → SlotSnapshot → Type 0
KeepsShown x y =
    (y.avatar_applied ≡ 0)
    ⊎ ((y.avatar_applied ≡ x.avatar_applied) × (y.avatar_steam_id ≡ x.avatar_steam_id))

with_slot-KeepsShown :
    (m : Manager) (slot : ℕ) (s : ManagedSlot) (j : ℕ)
    → KeepsShown (m.slots slot).snapshot s.snapshot
    → KeepsShown (m.slots j).snapshot ((with_slot m slot s).slots j).snapshot
with_slot-KeepsShown m slot s j h = elim (Bool-cases (slot == j)) [
  | inl e ↦
      let same : slot ≡ j = (==_iff slot j).0 e in
      subst (λ (i : ℕ). KeepsShown (m.slots i).snapshot ((with_slot m slot s).slots i).snapshot)
        same (rw (update_self m.slots slot s) h)
  | inr e ↦
      let apart : slot ≢ j = ground arith in
      rw (update_ne m.slots slot j s apart) (inr (refl, refl))
]

tick_slot-KeepsShown :
    (enabled : Bool) (s : ManagedSlot) → KeepsShown s.snapshot (tick_slot enabled s).snapshot
unfolding tick_slot
tick_slot-KeepsShown enabled s =
    if_both (λ (t : ManagedSlot). KeepsShown s.snapshot t.snapshot)
      (s.snapshot.managed == 0 || not enabled) (inr (refl, refl))
      (elim (Option-cases (maybe_produce (record_sample s.display (next_sample s.jitter).1)).1) [
        | inl e ↦ rw e (inr (refl, refl))
        | inr (ping, e) ↦ rw e (inr (refl, refl))
      ])

-- No call of the manager shows an avatar, or changes the SteamID that one is shown under: each of
-- them leaves what a slot shows of its avatar, or takes it away.
pub run_call-KeepsShown :
    (call : ManagerCall) (m : Manager) (j : ℕ)
    → KeepsShown (m.slots j).snapshot ((run_call call m).slots j).snapshot
unfolding release_slot clear_slot cleared on_tick set_synthetic_sid set_slot_name update_crosshair
    update_scoreboard_flair publish_signature configure_fake_ping detach begin_shutdown shutdown
    attach adopted set_avatar_request publish_avatar_state
run_call-KeepsShown (ManagerCall.adopt now slot p) m j = elim (Bool-cases (slot == j)) [
  | inl e ↦
      let same : slot ≡ j = (==_iff slot j).0 e in
      subst
        (λ (i : ℕ). KeepsShown (m.slots i).snapshot ((adopt_slot m now slot p).slots i).snapshot)
        same
        (inl (ap (λ (s : ManagedSlot). s.snapshot.avatar_applied) (adopt_slot_self m now slot p)))
  | inr e ↦
      let apart : slot ≢ j = ground arith in
      rw (adopt_slot-ne m now slot j p apart) (inr (refl, refl))
]
run_call-KeepsShown (ManagerCall.release slot) m j =
    with_slot-KeepsShown m slot (cleared (m.slots slot)) j (inl refl)
run_call-KeepsShown ManagerCall.release_every m j = rw (release_all-slots m j) (
    if_both (λ (s : ManagedSlot). KeepsShown (m.slots j).snapshot s.snapshot) (ltb j max_slots)
      (inl refl) (inr (refl, refl)))
run_call-KeepsShown ManagerCall.tick m j =
    if_both (λ (s : ManagedSlot). KeepsShown (m.slots j).snapshot s.snapshot) (ltb j max_slots)
      (tick_slot-KeepsShown m.fake_ping_enabled (m.slots j)) (inr (refl, refl))
run_call-KeepsShown (ManagerCall.set_steam_id slot sid) m j =
    with_slot-KeepsShown m slot _ j (inr (refl, refl))
run_call-KeepsShown (ManagerCall.set_name slot name) m j =
    with_slot-KeepsShown m slot _ j (inr (refl, refl))
run_call-KeepsShown (ManagerCall.set_crosshair slot code) m j =
    with_slot-KeepsShown m slot _ j (inr (refl, refl))
run_call-KeepsShown (ManagerCall.set_flair slot flair) m j =
    with_slot-KeepsShown m slot _ j (inr (refl, refl))
run_call-KeepsShown (ManagerCall.request_avatar slot bytes len) m j = ground arith
run_call-KeepsShown (ManagerCall.add_signature name address) m j = inr (refl, refl)
run_call-KeepsShown (ManagerCall.configure enabled lowest highest) m j = inr (refl, refl)
run_call-KeepsShown (ManagerCall.attach_thread thread) m j =
    if_both (λ (r : Manager × Bool). KeepsShown (m.slots j).snapshot (r.0.slots j).snapshot)
      (not (is_ready m thread) || m.attached) (inr (refl, refl)) (inr (refl, refl))
run_call-KeepsShown ManagerCall.detach_all m j = inr (refl, refl)
run_call-KeepsShown ManagerCall.stop_serving m j = inr (refl, refl)
run_call-KeepsShown (ManagerCall.stop now) m j = inl refl
