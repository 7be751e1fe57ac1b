-- ===== src/Manager/Calls.antt =====
-- The calls of `FakeClientManager` in any order, and what they do to the incarnation counter. `Init`, which sets the counter anew, is left out here, and
-- so is `PublishAvatarState`, which only the avatar pass and `SetAvatarRequest` call.
use cs2_bot_hider.Base.{
  ℕ, zero, suc, ◌-◌, ◌^◌, ◌<◌, ◌≡◌, ◌≢◌, refl, sym, ap, ◌∙◌, Bool, List, [], ◌∷◌, Option, arith,
  ◌||◌, not, if_both,
}
use cs2_bot_hider.Snapshot.{max_slots}
use cs2_bot_hider.Manager.{
  Manager, Persona, clear_slot, adopt_slot, release_slot, release_below, release_all, on_tick,
  set_synthetic_sid, set_slot_name, update_crosshair, update_scoreboard_flair, publish_avatar_state,
  set_avatar_request, publish_signature, configure_fake_ping, begin_shutdown, shutdown, is_ready,
  attach, detach, advance_incarnation, get_incarnation,
}
use cs2_bot_hider.Manager.Slots.{advance_by, advance_by-ne, adopt_slot-incarnation}

pub data ManagerCall : Type 0 where
  adopt : ℕ → ℕ → Persona → ManagerCall
  release : ℕ → ManagerCall
  release_every : ManagerCall
  tick : ManagerCall
  set_steam_id : ℕ → ℕ → ManagerCall
  set_name : ℕ → Option (List ℕ) → ManagerCall
  set_crosshair : ℕ → Option (List ℕ) → ManagerCall
  set_flair : ℕ → ℕ → ManagerCall
  request_avatar : ℕ → List ℕ → ℕ → ManagerCall
  add_signature : List ℕ → ℕ → ManagerCall
  configure : Bool → ℕ → ℕ → ManagerCall
  attach_thread : ℕ → ManagerCall
  detach_all : ManagerCall
  stop_serving : ManagerCall
  stop : ℕ → ManagerCall

abbrev pub run_call : ManagerCall → Manager → Manager
run_call (ManagerCall.adopt now slot p) m = adopt_slot m now slot p
run_call (ManagerCall.release slot) m = release_slot m slot
run_call ManagerCall.release_every m = release_all m
run_call ManagerCall.tick m = on_tick m
run_call (ManagerCall.set_steam_id slot sid) m = set_synthetic_sid m slot sid
run_call (ManagerCall.set_name slot name) m = set_slot_name m slot name
run_call (ManagerCall.set_crosshair slot code) m = update_crosshair m slot code
run_call (ManagerCall.set_flair slot flair) m = update_scoreboard_flair m slot flair
run_call (ManagerCall.request_avatar slot bytes len) m = set_avatar_request m slot bytes len
run_call (ManagerCall.add_signature name address) m = publish_signature m name address
run_call (ManagerCall.configure enabled lowest highest) m =
    configure_fake_ping m enabled lowest highest
run_call (ManagerCall.attach_thread thread) m = (attach m thread).0
run_call ManagerCall.detach_all m = detach m
run_call ManagerCall.stop_serving m = begin_shutdown m
run_call (ManagerCall.stop now) m = shutdown m now

abbrev pub run_calls : List ManagerCall → Manager → Manager
run_calls [] m = m
run_calls (call ∷ calls) m = run_calls calls (run_call call m)

-- How many of the calls adopt a slot.
abbrev pub adoptions : List ManagerCall → ℕ
adoptions [] = 0
adoptions (ManagerCall.adopt _ _ _ ∷ calls) = suc (adoptions calls)
adoptions (_ ∷ calls) = adoptions calls

release_below-next :
    (n : ℕ) (m : Manager) → (release_below n m).next_incarnation ≡ m.next_incarnation
unfolding release_below clear_slot
release_below-next zero m = refl
release_below-next (suc n) m = release_below-next n m

attach-next : (m : Manager) (thread : ℕ) → (attach m thread).0.next_incarnation ≡ m.next_incarnation
unfolding attach
attach-next m thread =
    if_both (λ (r : Manager × Bool). r.0.next_incarnation ≡ m.next_incarnation)
      (not (is_ready m thread) || m.attached) refl refl

advance_by-suc :
    (k n : ℕ) → advance_by k (advance_incarnation n) ≡ advance_incarnation (advance_by k n)
unfolding advance_by
advance_by-suc zero n = refl
advance_by-suc (suc k) n = ap advance_incarnation (advance_by-suc k n)

-- The counter moves on by one step for each adoption.
run_calls-next :
    (calls : List ManagerCall) (m : Manager)
    → (run_calls calls m).next_incarnation ≡ advance_by (adoptions calls) m.next_incarnation
unfolding advance_by release_slot clear_slot release_all on_tick set_synthetic_sid set_slot_name
    update_crosshair update_scoreboard_flair set_avatar_request publish_avatar_state
    publish_signature configure_fake_ping detach begin_shutdown shutdown
run_calls-next [] m = refl
run_calls-next (ManagerCall.adopt now slot p ∷ calls) m =
    run_calls-next calls (adopt_slot m now slot p)
    ∙ (ap (advance_by (adoptions calls)) (adopt_slot-incarnation m now slot p).1
        ∙ advance_by-suc (adoptions calls) m.next_incarnation)
run_calls-next (ManagerCall.release slot ∷ calls) m = run_calls-next calls (release_slot m slot)
run_calls-next (ManagerCall.release_every ∷ calls) m =
    run_calls-next calls (release_all m)
    ∙ ap (advance_by (adoptions calls)) (release_below-next max_slots m)
run_calls-next (ManagerCall.tick ∷ calls) m = run_calls-next calls (on_tick m)
run_calls-next (ManagerCall.set_steam_id slot sid ∷ calls) m =
    run_calls-next calls (set_synthetic_sid m slot sid)
run_calls-next (ManagerCall.set_name slot name ∷ calls) m =
    run_calls-next calls (set_slot_name m slot name)
run_calls-next (ManagerCall.set_crosshair slot code ∷ calls) m =
    run_calls-next calls (update_crosshair m slot code)
run_calls-next (ManagerCall.set_flair slot flair ∷ calls) m =
    run_calls-next calls (update_scoreboard_flair m slot flair)
run_calls-next (ManagerCall.request_avatar slot bytes len ∷ calls) m =
    run_calls-next calls (set_avatar_request m slot bytes len)
run_calls-next (ManagerCall.add_signature name address ∷ calls) m =
    run_calls-next calls (publish_signature m name address)
run_calls-next (ManagerCall.configure enabled lowest highest ∷ calls) m =
    run_calls-next calls (configure_fake_ping m enabled lowest highest)
run_calls-next (ManagerCall.attach_thread thread ∷ calls) m =
    run_calls-next calls (attach m thread).0
    ∙ ap (advance_by (adoptions calls)) (attach-next m thread)
run_calls-next (ManagerCall.detach_all ∷ calls) m = run_calls-next calls (detach m)
run_calls-next (ManagerCall.stop_serving ∷ calls) m = run_calls-next calls (begin_shutdown m)
run_calls-next (ManagerCall.stop now ∷ calls) m = run_calls-next calls (shutdown m now)

advance_incarnation-bounds :
    (n : ℕ) → (0 < advance_incarnation n) × (advance_incarnation n < 2 ^ 64)
unfolding advance_incarnation
advance_incarnation-bounds n = ground arith

module _ (m : Manager) (now slot : ℕ) (p : Persona) (calls : List ManagerCall) where
  -- The slot is adopted, and after any other calls it is adopted again.
  abbrev pub readopted : ℕ → Persona → Manager
  readopted later q = adopt_slot (run_calls calls (adopt_slot m now slot p)) later slot q

  pub readopted-ne :
      (later : ℕ) (q : Persona)
      → adoptions calls < 2 ^ 64 - 2
      → (get_incarnation (adopt_slot m now slot p) slot ≢ 0)
        × (get_incarnation (readopted later q) slot
            ≢ get_incarnation (adopt_slot m now slot p) slot)
  unfolding get_incarnation advance_by
  readopted-ne later q few =
      let first = adopt_slot m now slot p in
      let given = adopt_slot-incarnation m now slot p in
      let n = advance_incarnation m.next_incarnation in
      let k = adoptions calls in
      let bounds = advance_incarnation-bounds m.next_incarnation in
      let next =
        (adopt_slot-incarnation (run_calls calls first) later slot q).0
        ∙ (ap advance_incarnation (run_calls-next calls first) ∙ ap (advance_by (suc k)) given.1) in
      let fresh = advance_by-ne (suc k) n bounds.0 bounds.1 (omega arith) (omega arith) in
      (λ e. omega (arith, e, given.0, bounds.0), λ e. fresh.0 (sym next ∙ (e ∙ given.0)))
