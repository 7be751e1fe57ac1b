-- ===== src/Exports/Guards.antt =====
-- The guards of src/bridge/exports.cpp: whom they let through, and what the setters change.
use cs2_bot_hider.Base.{
  Option-cases, inl, inr, Bool-cases, sym, ap, subst, ◌∙◌, ℕ, ◌^◌, ◌-◌, ◌<◌, ◌≡◌, ◌≢◌, ◌↔◌, refl,
  Bool, if_both, ◌||◌, ◌&&◌, not, if◌then◌else◌, leb, ◌==◌, take, true, false, List, Option, arith,
}
use cs2_bot_hider.Base.Int.{pos, negsuc, ℤ, pos_part}
use cs2_bot_hider.Text.{copy_input}
use cs2_bot_hider.Snapshot.{crosshair_len}
use cs2_bot_hider.Engine.{Engine, EngineCall}
use cs2_bot_hider.Manager.{
  Manager, Persona, adopt_slot, update_crosshair, update_scoreboard_flair, set_avatar_request,
  publish_avatar_state, get_incarnation, is_ready,
}
use cs2_bot_hider.Manager.Calls.{ManagerCall, adoptions, readopted, readopted-ne}
use cs2_bot_hider.World.{World}
use cs2_bot_hider.Png.{has_png_structure}
use cs2_bot_hider.Commands.Outcome.{apply_steam_id_command-atomic}
use cs2_bot_hider.Exports.{
  connected, valid_slot, target, bh_set_crosshair, bh_set_flair, bh_set_avatar, bh_set_steam_id,
}

-- The bridge serves the thread, and the slot is one of the 64, is managed, and has the caller's
-- incarnation, which is not 0.
pub record IsTarget (w : World) (thread : ℕ) (slot : ℤ) (incarnation : ℕ) : Type 0 where
  pub at : ℕ
  pub same : slot ≡ pos at
  pub inside : at < 64
  pub serving : w.manager.bridge_thread thread ≡ true
  pub ready : w.manager.ready ≡ true
  pub attached : w.manager.attached ≡ true
  pub managed : (w.manager.slots at).snapshot.managed ≢ 0
  pub present : (w.manager.slots at).snapshot.incarnation ≡ incarnation
  pub nonzero : incarnation ≢ 0

-- The guard of the setters holds exactly for a thread of the bridge, on a manager that is ready and
-- attached, for a managed slot from 0 to 63 and for its present incarnation, which is not 0.
pub target_iff :
    (w : World) (thread : ℕ) (slot : ℤ) (incarnation : ℕ)
    → target w thread slot incarnation ≡ true ↔ IsTarget w thread slot incarnation
unfolding target valid_slot connected is_ready
target_iff w thread (pos n) incarnation = (
  λ h. record {
    at = n;
    same = refl;
    inside = ground arith;
    serving = ground arith;
    ready = ground arith;
    attached = ground arith;
    managed = λ e. ground arith;
    present = ground arith;
    nonzero = λ e. ground arith;
  },
  λ t.
      let here : t.at ≡ n = sym (ap pos_part t.same) in
      let inside : n < 64 = omega (arith, here, t.inside) in
      let managed = subst (λ (i : ℕ). (w.manager.slots i).snapshot.managed ≢ 0) here t.managed in
      let present =
        subst (λ (i : ℕ). (w.manager.slots i).snapshot.incarnation ≡ incarnation) here t.present in
      let serving = t.serving in
      let ready = t.ready in let attached = t.attached in let nonzero = t.nonzero in ground arith,
)
target_iff w thread (negsuc n) incarnation = (λ h. absurd (ground arith), λ t. absurd (cc t.same))

module _ (w : World) (thread : ℕ) (slot : ℤ) (incarnation : ℕ) where
  -- A success needs the target, and a failure leaves the whole state.
  pub record IsAtomic (r : World × Bool) : Type 0 where
    pub targeted : r.1 ≡ true → IsTarget w thread slot incarnation
    pub unchanged : r.1 ≡ false → r.0 ≡ w

  refused-IsAtomic : IsAtomic (w, false)
  refused-IsAtomic = record { targeted = λ e. absurd (cc e); unchanged = λ _. refl }

  guarded-IsAtomic :
      (r : World × Bool)
      → (target w thread slot incarnation ≡ true → r.1 ≡ false → r.0 ≡ w)
      → IsAtomic (if not (target w thread slot incarnation) then (w, false) else r)
  guarded-IsAtomic r kept = elim (Bool-cases (target w thread slot incarnation)) [
    | inl t ↦
        rw t (record {
          targeted = λ _. (target_iff w thread slot incarnation).0 t;
          unchanged = kept t;
        })
    | inr t ↦ rw t refused-IsAtomic
  ]

  -- The guard with a second test.
  guarded_or-IsAtomic :
      (r : World × Bool) (rejected : Bool)
      → (r.1 ≡ false → r.0 ≡ w)
      → IsAtomic (if not (target w thread slot incarnation) || rejected then (w, false) else r)
  guarded_or-IsAtomic r rejected kept = elim (Bool-cases (target w thread slot incarnation)) [
    | inr t ↦ rw t refused-IsAtomic
    | inl t ↦ elim (Bool-cases rejected) [
      | inl e ↦ rw (t, e) refused-IsAtomic
      | inr e ↦
          rw (t, e)
            (record {
              targeted = λ _. (target_iff w thread slot incarnation).0 t;
              unchanged = kept;
            })
    ]
  ]

  crosshair-IsAtomic :
      (text : Option (List ℕ)) (len : ℤ)
      → IsAtomic (bh_set_crosshair w thread slot incarnation text len)
  unfolding bh_set_crosshair
  crosshair-IsAtomic text len = guarded-IsAtomic _ (λ _ h.
      (elim (Option-cases (copy_input crosshair_len text len)) [
        | inl e ↦ rw e refl
        | inr (buffer, e) ↦ absurd (cc (rw e at h))
      ]))

  flair-IsAtomic : (flair : ℕ) → IsAtomic (bh_set_flair w thread slot incarnation flair)
  unfolding bh_set_flair
  flair-IsAtomic flair = elim (Bool-cases (target w thread slot incarnation)) [
    | inr t ↦ rw t refused-IsAtomic
    | inl t ↦ elim (Bool-cases (leb flair 65535)) [
      | inr e ↦ rw (t, e) refused-IsAtomic
      | inl e ↦
          rw (t, e)
            (record {
              targeted = λ _. (target_iff w thread slot incarnation).0 t;
              unchanged = λ h. absurd (cc h);
            })
    ]
  ]

  avatar-IsAtomic :
      (bytes : List ℕ) (len : ℤ) → IsAtomic (bh_set_avatar w thread slot incarnation bytes len)
  unfolding bh_set_avatar
  avatar-IsAtomic bytes len = guarded_or-IsAtomic _ _ (
      if_both (λ (r : World × Bool). r.1 ≡ false → r.0 ≡ w)
        (not (pos_part len == 0) && not (has_png_structure (take (pos_part len) bytes))) (λ _. refl)
        (λ h. absurd (cc h)))

  steam_id-IsAtomic :
      (react : EngineCall → Engine → Engine) (steam_id : ℕ)
      → IsAtomic (bh_set_steam_id react w thread slot incarnation steam_id)
  unfolding bh_set_steam_id
  steam_id-IsAtomic react steam_id =
      guarded_or-IsAtomic _ _ (apply_steam_id_command-atomic react w slot steam_id).1

-- Whatever the setters of the crosshair, the flair, the avatar and the SteamID are given: if one
-- succeeds, then the bridge serves its thread and the slot is one of the 64, is managed and has the
-- caller's incarnation, which is not 0; if one fails, for whatever reason, the whole state is as it was.
pub bh_setters-IsAtomic :
    (react : EngineCall → Engine → Engine) (w : World) (thread : ℕ) (slot : ℤ)
    (incarnation flair steam_id : ℕ) (text : Option (List ℕ)) (bytes : List ℕ) (len : ℤ)
    → IsAtomic w thread slot incarnation (bh_set_crosshair w thread slot incarnation text len)
      × IsAtomic w thread slot incarnation (bh_set_flair w thread slot incarnation flair)
      × IsAtomic w thread slot incarnation (bh_set_avatar w thread slot incarnation bytes len)
      × IsAtomic w thread slot incarnation
          (bh_set_steam_id react w thread slot incarnation steam_id)
bh_setters-IsAtomic react w thread slot incarnation flair steam_id text bytes len = (
  crosshair-IsAtomic w thread slot incarnation text len,
  flair-IsAtomic w thread slot incarnation flair,
  avatar-IsAtomic w thread slot incarnation bytes len,
  steam_id-IsAtomic w thread slot incarnation react steam_id,
)

-- A setter of the crosshair, the flair or the avatar leaves the state of every slot but the one that
-- it names, whether it succeeds or not.
pub bh_setters-ne :
    (w : World) (thread : ℕ) (slot : ℤ) (incarnation flair : ℕ) (text : Option (List ℕ))
    (bytes : List ℕ) (len : ℤ) (j : ℕ)
    → pos_part slot ≢ j
    → ((bh_set_crosshair w thread slot incarnation text len).0.manager.slots j ≡ w.manager.slots j)
      × ((bh_set_flair w thread slot incarnation flair).0.manager.slots j ≡ w.manager.slots j)
      × ((bh_set_avatar w thread slot incarnation bytes len).0.manager.slots j ≡ w.manager.slots j)
unfolding bh_set_crosshair bh_set_flair bh_set_avatar update_crosshair update_scoreboard_flair
    set_avatar_request publish_avatar_state
bh_setters-ne w thread slot incarnation flair text bytes len j ne =
    (crosshair, ground arith, ground arith)
  where
    crosshair :
        (bh_set_crosshair w thread slot incarnation text len).0.manager.slots j ≡ w.manager.slots j
    crosshair = elim (Option-cases (copy_input crosshair_len text len)) [
      | inl e ↦ rw e (ground arith)
      | inr (buffer, e) ↦ rw e (ground arith)
    ]

-- Let a slot be adopted, let any calls of the manager follow, of which fewer than 2^64 - 2 adopt, and
-- let the slot be adopted again. In any state in which the slot has the incarnation of the second of
-- these adoptions, a call with that of the first is refused: a managed side that still speaks of the
-- earlier owner cannot touch the new one.
pub target-stale :
    (w : World) (thread : ℕ) (m : Manager) (now slot later : ℕ) (p q : Persona)
    (calls : List ManagerCall)
    → adoptions calls < 2 ^ 64 - 2
    → get_incarnation w.manager slot ≡ get_incarnation (readopted m now slot p calls later q) slot
    → target w thread (pos slot) (get_incarnation (adopt_slot m now slot p) slot) ≡ false
unfolding get_incarnation
target-stale w thread m now slot later p q calls few anew =
    let earlier = get_incarnation (adopt_slot m now slot p) slot in
    elim (Bool-cases (target w thread (pos slot) earlier)) [
      | inr refused ↦ refused
      | inl accepted ↦
          let t = (target_iff w thread (pos slot) earlier).0 accepted in
          let here : t.at ≡ slot = sym (ap pos_part t.same) in
          let present =
            subst (λ (i : ℕ). (w.manager.slots i).snapshot.incarnation ≡ earlier) here t.present in
          absurd ((readopted-ne m now slot p calls later q few).1 (sym anew ∙ present))
    ]
