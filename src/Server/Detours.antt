-- ===== src/Server/Detours.antt =====
-- The detours and the hooks of the console commands leave the manager alone.
use cs2_bot_hider.Base.{
  ℕ, ◌-◌, ◌≡◌, refl, ap, ◌∙◌, Bool, true, false, ◌||◌, ◌&&◌, not, List, ◌∷◌, Option, none, some,
  arith, ◌==◌, if_both, Option-cases, inl, inr,
}
use cs2_bot_hider.Engine.{Engine, EngineCall}
use cs2_bot_hider.World.{World, is_disguise_enabled}
use cs2_bot_hider.Commands.{queue_managed_bot_kick}
use cs2_bot_hider.Commands.Dispatch.{
  with_command_frames, is_bot_add_command, is_kick_command, kicked_slot, first_argument,
  enter_command, dispatch_named, dispatch_con_command_pre, dispatch_con_command_post,
}
use cs2_bot_hider.Detours.{
  begin_population_transaction, end_population_transaction, drop_identity, with_redisguise,
  with_identity,
}
use cs2_bot_hider.Detours.State.{Snapshots, PopulationCall}
use cs2_bot_hider.Detours.Still.{capture-still, restore-still, apply_managed_disguise-still}
use cs2_bot_hider.Detours.Frames.{
  frames_of, with_frames, with_detours, tail_of, top_flag, begin_population_frame,
  end_population_frame, open_scope, close_scope, voters_pre, voters_post, script_is_bot_pre,
  script_is_bot_post, pack_pre, pack_post,
}

pub queue_managed_bot_kick-manager :
    (has_bot_kick : Bool) (w : World) (slot : Option ℕ)
    → (queue_managed_bot_kick has_bot_kick w slot).0.manager ≡ w.manager
unfolding queue_managed_bot_kick
queue_managed_bot_kick-manager has_bot_kick w none = refl
queue_managed_bot_kick-manager has_bot_kick w (some slot) = ground arith

module _ (react : EngineCall → Engine → Engine) where
  -- A state with the manager of `w`.
  abbrev Keeps : World → World → Type 0
  Keeps w v = v.manager ≡ w.manager

  begin-Keeps :
      (redisguise : Bool) (w : World) → Keeps w (begin_population_transaction react redisguise w)
  unfolding begin_population_transaction
  begin-Keeps redisguise w =
      if_both (Keeps w) (w.population_depth == 0)
        (ap (λ (v : World). v.manager) (capture-still react w.engine true _)) refl

  drop_identity-Keeps : (w : World) → Keeps w (drop_identity react w)
  unfolding drop_identity
  drop_identity-Keeps w = elim (Option-cases w.detours.population_identity) [
    | inl h ↦ rw h refl
    | inr (s, h) ↦ rw h (
        ap (λ (v : World). v.manager)
          (restore-still react w.engine true s (with_identity react w none)))
  ]

  end-Keeps :
      (redisguise : Bool) (w : World) → Keeps w (end_population_transaction react redisguise w)
  unfolding end_population_transaction
  end-Keeps redisguise w =
      let apply = w.detours.population_redisguise || redisguise in
      let shallower =
        with_redisguise react (record w { population_depth = w.population_depth - 1 }) apply in
      let released = drop_identity react (with_redisguise react shallower false) in
      let dropped : Keeps w released =
        drop_identity-Keeps (with_redisguise react shallower false) in
      if_both (Keeps w) (w.population_depth == 0) refl (
        if_both (Keeps w) (not (w.population_depth - 1 == 0)) refl (
          if_both (Keeps w) apply
            (ap (λ (v : World). v.manager)
                (apply_managed_disguise-still react w.engine released
                  (is_disguise_enabled released))
              ∙ dropped)
            dropped))

  pub begin_population_frame-Keeps :
      (call : PopulationCall) (enabled : Bool) (w : World)
      → Keeps w (begin_population_frame react call enabled w)
  unfolding begin_population_frame
  begin_population_frame-Keeps call enabled w = if_both (Keeps w) enabled (begin-Keeps true _) refl

  pub end_population_frame-Keeps :
      (call : PopulationCall) (w : World) → Keeps w (end_population_frame react call w)
  unfolding end_population_frame
  end_population_frame-Keeps call w =
      let d = w.detours in
      let popped = with_detours w (with_frames d call (tail_of (frames_of d call))) in
      if_both (Keeps w) (top_flag (frames_of d call)) (end-Keeps true popped) refl

  open_scope-Keeps : (mark : Bool) (w : World) → Keeps w (open_scope react mark w).0
  unfolding open_scope
  open_scope-Keeps mark w =
      if_both (λ (o : World × Option Snapshots). Keeps w o.0) (is_disguise_enabled w)
        (ap (λ (v : World). v.manager) (capture-still react w.engine mark w)) refl

  close_scope-Keeps :
      (mark : Bool) (o : Option Snapshots) (w : World) → Keeps w (close_scope react mark o w)
  unfolding close_scope
  close_scope-Keeps mark none w = refl
  close_scope-Keeps mark (some s) w =
      ap (λ (v : World). v.manager) (restore-still react w.engine mark s w)

  pub voters_pre-Keeps : (w : World) → Keeps w (voters_pre react w)
  unfolding voters_pre
  voters_pre-Keeps w = open_scope-Keeps true _

  pub voters_post-Keeps : (w : World) → Keeps w (voters_post react w)
  unfolding voters_post
  voters_post-Keeps w = close_scope-Keeps true _ _

  pub script_is_bot_pre-Keeps : (w : World) → Keeps w (script_is_bot_pre react w)
  unfolding script_is_bot_pre
  script_is_bot_pre-Keeps w = open_scope-Keeps false _

  pub script_is_bot_post-Keeps : (w : World) → Keeps w (script_is_bot_post react w)
  unfolding script_is_bot_post
  script_is_bot_post-Keeps w = close_scope-Keeps false _ _

  pub pack_pre-Keeps : (w : World) → Keeps w (pack_pre react w)
  unfolding pack_pre
  pack_pre-Keeps w =
      if_both (Keeps w) (w.detours.pack_entities_depth == 0 && is_disguise_enabled w) refl refl

  pub pack_post-Keeps : (w : World) → Keeps w (pack_post react w)
  unfolding pack_post
  pack_post-Keeps w = if_both (Keeps w) (w.detours.pack_entities_depth - 1 == 0) refl refl

  enter_command-Keeps : (w : World) → Keeps w (enter_command react w)
  unfolding enter_command
  enter_command-Keeps w = if_both (Keeps w) (is_disguise_enabled w) (begin-Keeps true w) refl

  pub dispatch_con_command_pre-Keeps :
      (has_bot_kick : Bool) (w : World) (command : Option (List ℕ)) (arguments : List (List ℕ))
      → Keeps w (dispatch_con_command_pre react has_bot_kick w command arguments).0
  unfolding dispatch_con_command_pre dispatch_named
  dispatch_con_command_pre-Keeps has_bot_kick w none arguments = refl
  dispatch_con_command_pre-Keeps has_bot_kick w (some name) arguments =
      let v = with_command_frames w (false ∷ w.detours.population_command_frames) in
      let slot = kicked_slot v name (first_argument arguments) in
      if_both (λ (o : World × Bool). Keeps w o.0) (is_bot_add_command name) (enter_command-Keeps v)
        (if_both (λ (o : World × Bool). Keeps w o.0) (queue_managed_bot_kick has_bot_kick v slot).1
          (queue_managed_bot_kick-manager has_bot_kick v slot)
          (if_both (λ (o : World × Bool). Keeps w o.0) (not (is_kick_command name)) refl
            (enter_command-Keeps v)))

  pub dispatch_con_command_post-Keeps : (w : World) → Keeps w (dispatch_con_command_post react w)
  unfolding dispatch_con_command_post
  dispatch_con_command_post-Keeps w =
      let frames = w.detours.population_command_frames in
      let popped = with_command_frames w (tail_of frames) in
      if_both (Keeps w) (top_flag frames) (end-Keeps (is_disguise_enabled popped) popped) refl
