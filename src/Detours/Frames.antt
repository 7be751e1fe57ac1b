-- ===== src/Detours/Frames.antt =====
-- The callbacks of the detours in src/features/identity/identity_hooks.cpp: each Pre pushes a frame,
-- and its Post pops it. The engine calls a Post only after its Pre, so an empty stack, which the
-- source would not survive, is left as it is. The mutex of the packing is not modelled.
use cs2_bot_hider.Base.{
  ℕ, ◌+◌, ◌-◌, Bool, true, false, ◌&&◌, List, [], ◌∷◌, Option, none, some, ◌==◌, if◌then◌else◌,
}
use cs2_bot_hider.Engine.{Engine, EngineCall}
use cs2_bot_hider.World.{World, is_disguise_enabled}
use cs2_bot_hider.Runtime.Pawns.{
  is_managed_bot_controller, apply_bot_flag_override, restore_bot_flag_override,
}
use cs2_bot_hider.Detours.{
  capture, restore, begin_population_transaction, end_population_transaction,
}
use cs2_bot_hider.Detours.State.{Snapshots, Detours, PopulationCall}

abbrev pub with_detours : World → Detours → World
with_detours w d = record w { detours = d }

abbrev pub with_hook_depth : World → ℕ → World
with_hook_depth w depth = with_detours w (record w.detours { hook_depth = depth })

-- The stack of a detour.
abbrev pub frames_of : Detours → PopulationCall → List Bool
frames_of d PopulationCall.quota = d.quota_frames
frames_of d PopulationCall.human_team = d.human_team_frames
frames_of d PopulationCall.join_team = d.join_team_frames
frames_of d PopulationCall.teardown = d.teardown_frames

abbrev pub with_frames : Detours → PopulationCall → List Bool → Detours
with_frames d PopulationCall.quota frames = record d { quota_frames = frames }
with_frames d PopulationCall.human_team frames = record d { human_team_frames = frames }
with_frames d PopulationCall.join_team frames = record d { join_team_frames = frames }
with_frames d PopulationCall.teardown frames = record d { teardown_frames = frames }

-- `*ptr` of a stack's top is released: the destructor of a scope restores, if there is a scope.
abbrev pub tail_of {ℓ} : {A : Type ℓ} → List A → List A
tail_of [] = []
tail_of (x ∷ xs) = xs

abbrev pub top_flag : List Bool → Bool
top_flag [] = false
top_flag (b ∷ bs) = b

abbrev pub top_scope : List (Option Snapshots) → Option Snapshots
top_scope [] = none
top_scope (s ∷ ss) = s

module _ (react : EngineCall → Engine → Engine) where
  unfoldable pub begin_population_frame : PopulationCall → Bool → World → World
  begin_population_frame call enabled w =
      let d = w.detours in
      let pushed = with_detours w (with_frames d call (enabled ∷ frames_of d call)) in
      let deeper = with_hook_depth pushed (d.hook_depth + 1) in
      if enabled then begin_population_transaction react true deeper else deeper

  unfoldable pub end_population_frame : PopulationCall → World → World
  end_population_frame call w =
      let d = w.detours in
      let frames = frames_of d call in
      let popped = with_detours w (with_frames d call (tail_of frames)) in
      let ended =
        if top_flag frames then end_population_transaction react true popped else popped in
      with_hook_depth ended (ended.detours.hook_depth - 1)

  unfoldable pub quota_pre : World → World
  quota_pre w = begin_population_frame PopulationCall.quota (is_disguise_enabled w) w

  unfoldable pub quota_post : World → World
  quota_post w = end_population_frame PopulationCall.quota w

  unfoldable pub human_team_pre : World → World
  human_team_pre w = begin_population_frame PopulationCall.human_team (is_disguise_enabled w) w

  unfoldable pub human_team_post : World → World
  human_team_post w = end_population_frame PopulationCall.human_team w

  unfoldable pub join_team_pre : Option ℕ → World → World
  join_team_pre controller w =
      begin_population_frame PopulationCall.join_team
        (is_disguise_enabled w && is_managed_bot_controller w.manager w.engine controller) w

  unfoldable pub join_team_post : World → World
  join_team_post w = end_population_frame PopulationCall.join_team w

  -- `pick_new_teams` says whether there are game rules whose flag was resolved and is set.
  unfoldable pub end_match_pre : Bool → World → World
  end_match_pre pick_new_teams w =
      begin_population_frame PopulationCall.teardown (is_disguise_enabled w && pick_new_teams) w

  unfoldable pub end_match_post : World → World
  end_match_post w = end_population_frame PopulationCall.teardown w

  -- A new scope, if the bots are disguised.
  unfoldable pub open_scope : Bool → World → World × Option Snapshots
  open_scope mark w =
      let captured = capture react mark w in
      if is_disguise_enabled w then (captured.0, some captured.1) else (w, none)

  unfoldable pub close_scope : Bool → Option Snapshots → World → World
  close_scope mark none w = w
  close_scope mark (some snapshots) w = restore react mark snapshots w

  unfoldable pub voters_pre : World → World
  voters_pre w =
      let opened = open_scope true (with_hook_depth w (w.detours.hook_depth + 1)) in
      let d = opened.0.detours in
      with_detours opened.0 (record d { voter_frames = opened.1 ∷ d.voter_frames })

  unfoldable pub voters_post : World → World
  voters_post w =
      let d = w.detours in
      let closed =
        close_scope true (top_scope d.voter_frames)
          (with_detours w (record d { voter_frames = tail_of d.voter_frames })) in
      with_hook_depth closed (closed.detours.hook_depth - 1)

  unfoldable pub script_is_bot_pre : World → World
  script_is_bot_pre w =
      let opened = open_scope false (with_hook_depth w (w.detours.hook_depth + 1)) in
      let d = opened.0.detours in
      with_detours opened.0 (record d { script_is_bot_frames = opened.1 ∷ d.script_is_bot_frames })

  unfoldable pub script_is_bot_post : World → World
  script_is_bot_post w =
      let d = w.detours in
      let closed =
        close_scope false (top_scope d.script_is_bot_frames)
          (with_detours w (record d { script_is_bot_frames = tail_of d.script_is_bot_frames })) in
      with_hook_depth closed (closed.detours.hook_depth - 1)

  unfoldable pub pack_pre : World → World
  pack_pre w =
      let d = w.detours in
      let deeper = with_detours w (record d {
        hook_depth = d.hook_depth + 1;
        pack_entities_depth = d.pack_entities_depth + 1;
      }) in
      let applied = apply_bot_flag_override react w.manager w.engine d.packed_pawns in
      if d.pack_entities_depth == 0 && is_disguise_enabled w
      then record deeper {
        engine = applied.0;
        detours = record deeper.detours { packed_pawns = applied.1 };
      }
      else deeper

  unfoldable pub pack_post : World → World
  pack_post w =
      let d = w.detours in
      let shallower = with_detours w (record d {
        hook_depth = d.hook_depth - 1;
        pack_entities_depth = d.pack_entities_depth - 1;
      }) in
      if d.pack_entities_depth - 1 == 0
      then record shallower {
        engine = restore_bot_flag_override w.engine d.packed_pawns;
        detours = record shallower.detours { packed_pawns = [] };
      }
      else shallower
