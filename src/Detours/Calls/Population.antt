-- ===== src/Detours/Calls/Population.antt =====
-- The detours that open transactions.
use cs2_bot_hider.Base.{
  ℕ, ◌+◌, ◌-◌, ◌≡◌, refl, ap, ◌∙◌, Bool, true, false, List, ◌∷◌, if◌then◌else◌,
}
use cs2_bot_hider.Engine.{Engine, EngineCall}
use cs2_bot_hider.World.{World}
use cs2_bot_hider.Detours.{begin_population_transaction, end_population_transaction}
use cs2_bot_hider.Detours.State.{Detours, PopulationCall}
use cs2_bot_hider.Detours.Frames.{
  frames_of, with_frames, with_detours, with_hook_depth, tail_of, begin_population_frame,
  end_population_frame,
}
use cs2_bot_hider.Detours.Calls.{Frame, has_scope, InTransactions, Represents, transactions}
use cs2_bot_hider.Detours.Calls.Stacks.{
  Matches-bare, hook_depth-bare, top-population, with_frames-rest, push-Matches, pop-Matches,
}
use cs2_bot_hider.Detours.Calls.Transactions.{
  begin-bare, begin-InTransactions, end-bare, end-InTransactions,
}

pub InTransactions-same :
    (w v : World) (n : ℕ)
    → v.population_depth ≡ w.population_depth
    → has_scope v.detours.population_identity ≡ has_scope w.detours.population_identity
    → InTransactions w n
    → InTransactions v n
InTransactions-same w v n p q t = record { depth = p ∙ t.depth; scope = q ∙ t.scope }

module _ (react : EngineCall → Engine → Engine) where
  pub begin_population_frame-Represents :
      (call : PopulationCall) (b : Bool) (w : World) (s : List Frame)
      → Represents w s
      → Represents (begin_population_frame react call b w) (Frame.population call b ∷ s)
  unfolding begin_population_frame
  begin_population_frame-Represents call false w s r = record {
    frames = push-Matches w.detours call false s r.frames;
    shared =
        InTransactions-same w _ _ refl
          (ap (λ (d : Detours). has_scope d.population_identity)
            (with_frames-rest w.detours call _))
          r.shared;
  }
  begin_population_frame-Represents call true w s r =
      let d = w.detours in
      let pushed = with_detours w (with_frames d call (true ∷ frames_of d call)) in
      let deeper = with_hook_depth pushed (d.hook_depth + 1) in
      record {
        frames =
            Matches-bare deeper.detours (begin_population_transaction react true deeper).detours
              (Frame.population call true ∷ s) (begin-bare react true deeper)
              (push-Matches d call true s r.frames);
        shared = begin-InTransactions react true deeper (transactions s) (
            InTransactions-same w deeper _ refl
              (ap (λ (d : Detours). has_scope d.population_identity) (with_frames-rest d call _))
              r.shared);
      }

  pub end_population_frame-Represents :
      (call : PopulationCall) (b : Bool) (w : World) (s : List Frame)
      → Represents w (Frame.population call b ∷ s)
      → Represents (end_population_frame react call w) s
  unfolding end_population_frame
  end_population_frame-Represents call b w s r =
      rw (top-population w.detours call b s r.frames) (popped_frame b r)
    where
      popped : World
      popped = with_detours w (with_frames w.detours call (tail_of (frames_of w.detours call)))

      popped_frame :
          (b : Bool)
          → Represents w (Frame.population call b ∷ s)
          → Represents
              (let ended = if b then end_population_transaction react true popped else popped in
                with_hook_depth ended (ended.detours.hook_depth - 1))
              s
      popped_frame false r = record {
        frames = pop-Matches w.detours call false s r.frames;
        shared =
            InTransactions-same w _ _ refl
              (ap (λ (d : Detours). has_scope d.population_identity)
                (with_frames-rest w.detours call _))
              r.shared;
      }
      popped_frame true r =
          let ended = end_population_transaction react true popped in
          record {
            frames =
                Matches-bare (record popped.detours { hook_depth = popped.detours.hook_depth - 1 })
                  (record ended.detours { hook_depth = ended.detours.hook_depth - 1 }) s
                  (hook_depth-bare popped.detours ended.detours (λ n. n - 1)
                    (end-bare react true popped))
                  (pop-Matches w.detours call true s r.frames);
            shared =
                let t = end-InTransactions react true popped (transactions s) (
                  InTransactions-same w popped _ refl
                    (ap (λ (d : Detours). has_scope d.population_identity)
                      (with_frames-rest w.detours call _))
                    r.shared) in
                record { depth = t.depth; scope = t.scope };
          }
