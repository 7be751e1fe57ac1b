-- ===== src/Detours/Calls/Transactions.antt =====
-- Begins and ends of population transactions: the depth and the shared scope go together, and the
-- stacks are left alone.
use cs2_bot_hider.Base.{
  ℕ, zero, suc, ◌+◌, ◌-◌, ◌≡◌, refl, ap, ◌∙◌, Bool, true, false, ◌||◌, not, none, arith, ◌==◌,
  Bool-cases, Option-cases, inl, inr, if_both, if_split,
}
use cs2_bot_hider.Engine.{Engine, EngineCall}
use cs2_bot_hider.World.{World, is_disguise_enabled}
use cs2_bot_hider.Runtime.{apply_managed_disguise}
use cs2_bot_hider.Detours.{
  begin_population_transaction, end_population_transaction, drop_identity, with_redisguise,
  with_identity,
}
use cs2_bot_hider.Detours.Still.{capture-still, restore-still, apply_managed_disguise-still}
use cs2_bot_hider.Detours.Calls.{has_scope, InTransactions}
use cs2_bot_hider.Detours.Calls.Stacks.{bare}

module _ (react : EngineCall → Engine → Engine) where
  pub begin-bare :
      (redisguise : Bool) (w : World)
      → bare (begin_population_transaction react redisguise w).detours ≡ bare w.detours
  unfolding begin_population_transaction
  begin-bare redisguise w = elim (Bool-cases (w.population_depth == 0)) [
    | inr h ↦ rw h refl
    | inl h ↦ rw h (ap (λ (v : World). bare v.detours) (capture-still react w.engine true _))
  ]

  pub begin-InTransactions :
      (redisguise : Bool) (w : World) (n : ℕ)
      → InTransactions w n
      → InTransactions (begin_population_transaction react redisguise w) (suc n)
  unfolding begin_population_transaction
  begin-InTransactions redisguise w zero t =
      let depth : w.population_depth ≡ 0 = t.depth in
      let same = capture-still react w.engine true (
        with_redisguise react (record w { population_depth = w.population_depth + 1 })
          redisguise) in
      if_split (λ (v : World). InTransactions v 1) (w.population_depth == 0)
        (λ h. record {
          depth = ap (λ (v : World). v.population_depth) same ∙ omega (arith, depth);
          scope = refl;
        })
        (λ h. absurd (ground arith))
  begin-InTransactions redisguise w (suc n) t =
      let depth : w.population_depth ≡ suc n = t.depth in
      if_split (λ (v : World). InTransactions v (suc (suc n))) (w.population_depth == 0)
        (λ h. absurd (ground arith)) (λ h. record { depth = omega (arith, depth); scope = t.scope })

  drop_identity-bare : (w : World) → bare (drop_identity react w).detours ≡ bare w.detours
  unfolding drop_identity
  drop_identity-bare w = elim (Option-cases w.detours.population_identity) [
    | inl h ↦ rw h refl
    | inr (s, h) ↦ rw h (
        ap (λ (v : World). bare v.detours)
          (restore-still react w.engine true s (with_identity react w none)))
  ]

  drop_identity-InTransactions :
      (w : World) → w.population_depth ≡ 0 → InTransactions (drop_identity react w) 0
  unfolding drop_identity
  drop_identity-InTransactions w d = elim (Option-cases w.detours.population_identity) [
    | inl h ↦ rw h (record { depth = d; scope = refl })
    | inr (s, h) ↦
        let same = restore-still react w.engine true s (with_identity react w none) in
        rw h (record {
          depth = ap (λ (v : World). v.population_depth) same ∙ d;
          scope = ap (λ (v : World). has_scope v.detours.population_identity) same;
        })
  ]

  -- The end of the outermost transaction, or of an inner one.
  pub end-bare :
      (redisguise : Bool) (w : World)
      → bare (end_population_transaction react redisguise w).detours ≡ bare w.detours
  unfolding end_population_transaction
  end-bare redisguise w =
      let apply = w.detours.population_redisguise || redisguise in
      let shallower =
        with_redisguise react (record w { population_depth = w.population_depth - 1 }) apply in
      let released = drop_identity react (with_redisguise react shallower false) in
      let dropped = drop_identity-bare (with_redisguise react shallower false) in
      if_both (λ (v : World). bare v.detours ≡ bare w.detours) (w.population_depth == 0) refl
        (if_both (λ (v : World). bare v.detours ≡ bare w.detours)
          (not (w.population_depth - 1 == 0)) refl
          (if_both (λ (v : World). bare v.detours ≡ bare w.detours) apply
            (ap (λ (v : World). bare v.detours)
                (apply_managed_disguise-still react w.engine released
                  (is_disguise_enabled released))
              ∙ dropped)
            dropped))

  applied-InTransactions :
      (w : World) (disguise : Bool) (n : ℕ)
      → InTransactions w n
      → InTransactions (apply_managed_disguise react w disguise) n
  applied-InTransactions w disguise n t =
      let same = apply_managed_disguise-still react w.engine w disguise in
      record {
        depth = ap (λ (v : World). v.population_depth) same ∙ t.depth;
        scope = ap (λ (v : World). has_scope v.detours.population_identity) same ∙ t.scope;
      }

  pub end-InTransactions :
      (redisguise : Bool) (w : World) (n : ℕ)
      → InTransactions w (suc n)
      → InTransactions (end_population_transaction react redisguise w) n
  unfolding end_population_transaction
  end-InTransactions redisguise w zero t =
      let depth : w.population_depth ≡ 1 = t.depth in
      let apply = w.detours.population_redisguise || redisguise in
      let shallower =
        with_redisguise react (record w { population_depth = w.population_depth - 1 }) apply in
      let released = drop_identity react (with_redisguise react shallower false) in
      let dropped =
        drop_identity-InTransactions (with_redisguise react shallower false)
          (omega (arith, depth)) in
      if_split (λ (v : World). InTransactions v 0) (w.population_depth == 0)
        (λ h. absurd (ground arith))
        (λ h.
          if_split (λ (v : World). InTransactions v 0) (not (w.population_depth - 1 == 0))
            (λ k. absurd (ground arith))
            (λ k.
              if_both (λ (v : World). InTransactions v 0) apply
                (applied-InTransactions released (is_disguise_enabled released) 0 dropped) dropped))
  end-InTransactions redisguise w (suc n) t =
      let depth : w.population_depth ≡ suc (suc n) = t.depth in
      if_split (λ (v : World). InTransactions v (suc n)) (w.population_depth == 0)
        (λ h. absurd (ground arith))
        (λ h.
          if_split (λ (v : World). InTransactions v (suc n)) (not (w.population_depth - 1 == 0))
            (λ k. record { depth = omega (arith, depth); scope = t.scope })
            (λ k. absurd (ground arith)))
