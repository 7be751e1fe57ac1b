-- ===== src/Detours/Calls/Commands.antt =====
-- The hooks of the console commands: a frame is pushed for every command, and says whether the
-- command began a transaction.
use cs2_bot_hider.Base.{
  ℕ, suc, ◌≡◌, refl, sym, ap, ◌∙◌, subst, Bool, true, false, not, List, ◌∷◌, Option, none, some,
  arith, if◌then◌else◌, if_both,
}
use cs2_bot_hider.Engine.{Engine, EngineCall}
use cs2_bot_hider.World.{World, is_disguise_enabled}
use cs2_bot_hider.Commands.{queue_managed_bot_kick}
use cs2_bot_hider.Commands.Dispatch.{
  with_command_frames, raised, is_bot_add_command, is_kick_command, kicked_slot, first_argument,
  enter_command, dispatch_named, dispatch_con_command_pre, dispatch_con_command_post,
}
use cs2_bot_hider.Detours.{begin_population_transaction, end_population_transaction}
use cs2_bot_hider.Detours.State.{Detours}
use cs2_bot_hider.Detours.Frames.{tail_of, top_flag}
use cs2_bot_hider.Detours.Calls.{
  Frame, has_scope, Matches, InTransactions, Represents, transactions, command_flags,
}
use cs2_bot_hider.Detours.Calls.Stacks.{Matches-bare, frames_of-same}
use cs2_bot_hider.Detours.Calls.Population.{InTransactions-same}
use cs2_bot_hider.Detours.Calls.Transactions.{
  begin-bare, begin-InTransactions, end-bare, end-InTransactions,
}

push_command-Matches :
    (d : Detours) (b : Bool) (frames : List Bool) (s : List Frame)
    → frames ≡ b ∷ command_flags s
    → Matches d s
    → Matches (record d { population_command_frames = frames }) (Frame.command b ∷ s)
push_command-Matches d b frames s h m = record {
  hook_depth = m.hook_depth;
  pack_depth = m.pack_depth;
  population = λ call.
      frames_of-same d (record d { population_command_frames = frames }) call refl
      ∙ m.population call;
  voters = m.voters;
  scripts = m.scripts;
  commands = h;
}

-- The same frame with another flag, or without its frame.
set_command-Matches :
    (d : Detours) (b c : Bool) (frames : List Bool) (s : List Frame)
    → frames ≡ c ∷ command_flags s
    → Matches d (Frame.command b ∷ s)
    → Matches (record d { population_command_frames = frames }) (Frame.command c ∷ s)
set_command-Matches d b c frames s h m = record {
  hook_depth = m.hook_depth;
  pack_depth = m.pack_depth;
  population = λ call.
      frames_of-same d (record d { population_command_frames = frames }) call refl
      ∙ m.population call;
  voters = m.voters;
  scripts = m.scripts;
  commands = h;
}

pop_command-Matches :
    (d : Detours) (b : Bool) (s : List Frame)
    → Matches d (Frame.command b ∷ s)
    → Matches (record d { population_command_frames = tail_of d.population_command_frames }) s
pop_command-Matches d b s m = record {
  hook_depth = m.hook_depth;
  pack_depth = m.pack_depth;
  population = λ call.
      frames_of-same d
        (record d { population_command_frames = tail_of d.population_command_frames }) call refl
      ∙ m.population call;
  voters = m.voters;
  scripts = m.scripts;
  commands = ap tail_of m.commands;
}

queue-detours :
    (has_bot_kick : Bool) (w : World) (slot : Option ℕ)
    → ((queue_managed_bot_kick has_bot_kick w slot).0.detours ≡ w.detours)
      × ((queue_managed_bot_kick has_bot_kick w slot).0.population_depth ≡ w.population_depth)
unfolding queue_managed_bot_kick
queue-detours has_bot_kick w none = (refl, refl)
queue-detours has_bot_kick w (some slot) = (ground arith, ground arith)

-- Some flag is on top.
abbrev InCommand : World → List Frame → Type 0
InCommand w s = (b : Bool) × Represents w (Frame.command b ∷ s)

pub Represents-kept :
    (w v : World) (s : List Frame)
    → v.detours ≡ w.detours
    → v.population_depth ≡ w.population_depth
    → Represents w s
    → Represents v s
Represents-kept w v s p q r = record {
  frames = subst (λ (d : Detours). Matches d s) (sym p) r.frames;
  shared =
      InTransactions-same w v (transactions s) q
        (ap (λ (d : Detours). has_scope d.population_identity) p) r.shared;
}

module _ (react : EngineCall → Engine → Engine) where
  enter_command-InCommand :
      (w : World) (s : List Frame)
      → Represents w (Frame.command false ∷ s)
      → InCommand (enter_command react w) s
  unfolding enter_command
  enter_command-InCommand w s r =
      let begun = begin_population_transaction react true w in
      let m =
        Matches-bare w.detours begun.detours (Frame.command false ∷ s) (begin-bare react true w)
          r.frames in
      let t = begin-InTransactions react true w (transactions s) r.shared in
      if_both (λ (v : World). InCommand v s) (is_disguise_enabled w)
        (
          true,
          record {
            frames =
                set_command-Matches begun.detours false true
                  (raised begun.detours.population_command_frames) s (ap raised m.commands) m;
            shared = record { depth = t.depth; scope = t.scope };
          },
        )
        (false, r)

  dispatch_named-InCommand :
      (has_bot_kick : Bool) (w : World) (name : List ℕ) (arguments : List (List ℕ)) (s : List Frame)
      → Represents w (Frame.command false ∷ s)
      → InCommand (dispatch_named react has_bot_kick w name arguments).0 s
  unfolding dispatch_named
  dispatch_named-InCommand has_bot_kick w name arguments s r =
      let slot = kicked_slot w name (first_argument arguments) in
      let queued = queue_managed_bot_kick has_bot_kick w slot in
      let kept = queue-detours has_bot_kick w slot in
      let entered = enter_command-InCommand w s r in
      if_both (λ (o : World × Bool). InCommand o.0 s) (is_bot_add_command name) entered
        (if_both (λ (o : World × Bool). InCommand o.0 s) queued.1
          (false, Represents-kept w queued.0 (Frame.command false ∷ s) kept.0 kept.1 r)
          (if_both (λ (o : World × Bool). InCommand o.0 s) (not (is_kick_command name)) (false, r)
            entered))

  pushed-Represents :
      (w : World) (s : List Frame)
      → Represents w s
      → Represents
          (with_command_frames w (false ∷ w.detours.population_command_frames))
          (Frame.command false ∷ s)
  pushed-Represents w s r = record {
    frames =
        push_command-Matches w.detours false (false ∷ w.detours.population_command_frames) s
          (ap (λ (bs : List Bool). false ∷ bs) r.frames.commands) r.frames;
    shared = record { depth = r.shared.depth; scope = r.shared.scope };
  }

  -- The flag on top is the one that the frames of the source have.
  top-Represents :
      (w : World) (s : List Frame)
      → InCommand w s
      → Represents w (Frame.command (top_flag w.detours.population_command_frames) ∷ s)
  top-Represents w s (b, r) =
      subst (λ (c : Bool). Represents w (Frame.command c ∷ s)) (sym (ap top_flag r.frames.commands))
        r

  pub dispatch_con_command_pre-Represents :
      (has_bot_kick : Bool) (w : World) (name : Option (List ℕ)) (arguments : List (List ℕ))
      (s : List Frame)
      → Represents w s
      → (let w' = (dispatch_con_command_pre react has_bot_kick w name arguments).0 in
          Represents w' (Frame.command (top_flag w'.detours.population_command_frames) ∷ s))
  unfolding dispatch_con_command_pre
  dispatch_con_command_pre-Represents has_bot_kick w none arguments s r = pushed-Represents w s r
  dispatch_con_command_pre-Represents has_bot_kick w (some name) arguments s r =
      let pushed = with_command_frames w (false ∷ w.detours.population_command_frames) in
      top-Represents (dispatch_named react has_bot_kick pushed name arguments).0 s
        (dispatch_named-InCommand has_bot_kick pushed name arguments s (pushed-Represents w s r))

  closed_command :
      (w : World) (b : Bool) (s : List Frame)
      → Represents w (Frame.command b ∷ s)
      → (let popped = with_command_frames w (tail_of w.detours.population_command_frames) in
          Represents
            (if b
              then end_population_transaction react (is_disguise_enabled popped) popped
              else popped)
            s)
  closed_command w false s r = record {
    frames = pop_command-Matches w.detours false s r.frames;
    shared = record { depth = r.shared.depth; scope = r.shared.scope };
  }
  closed_command w true s r =
      let popped = with_command_frames w (tail_of w.detours.population_command_frames) in
      let t : InTransactions popped (suc (transactions s)) = record {
        depth = r.shared.depth;
        scope = r.shared.scope;
      } in
      record {
        frames =
            Matches-bare popped.detours
              (end_population_transaction react (is_disguise_enabled popped) popped).detours s
              (end-bare react (is_disguise_enabled popped) popped)
              (pop_command-Matches w.detours true s r.frames);
        shared = end-InTransactions react (is_disguise_enabled popped) popped (transactions s) t;
      }

  pub dispatch_con_command_post-Represents :
      (w : World) (b : Bool) (s : List Frame)
      → Represents w (Frame.command b ∷ s)
      → Represents (dispatch_con_command_post react w) s
  unfolding dispatch_con_command_post
  dispatch_con_command_post-Represents w b s r =
      let flag : top_flag w.detours.population_command_frames ≡ b = ap top_flag r.frames.commands in
      rw flag (closed_command w b s r)
