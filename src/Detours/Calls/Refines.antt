-- ===== src/Detours/Calls/Refines.antt =====
-- Every Pre and every Post does to the stacks and depths of the source what it does to the abstract
-- stack, in any nesting.
use cs2_bot_hider.Base.{zero, suc, ℕ, ◌≡◌, refl, ap, ◌∙◌, ◌&&◌, not, List, [], arith, ◌==◌}
use cs2_bot_hider.Engine.{Engine, EngineCall}
use cs2_bot_hider.World.{World, is_disguise_enabled}
use cs2_bot_hider.Runtime.Pawns.{is_managed_bot_controller}
use cs2_bot_hider.Detours.{population_transaction_active}
use cs2_bot_hider.Detours.State.{PopulationCall, no_detours}
use cs2_bot_hider.Detours.Frames.{
  frames_of, quota_pre, quota_post, human_team_pre, human_team_post, join_team_pre, join_team_post,
  end_match_pre, end_match_post,
}
use cs2_bot_hider.Detours.Install.{Bindings, remove}
use cs2_bot_hider.Detours.Calls.{
  Frame, Represents, Call, Calls, callbacks, transactions, has_scope, is_positive,
}
use cs2_bot_hider.Detours.Calls.Population.{
  begin_population_frame-Represents, end_population_frame-Represents,
}
use cs2_bot_hider.Detours.Calls.Scopes.{
  voters_pre-Represents, voters_post-Represents, script_is_bot_pre-Represents,
  script_is_bot_post-Represents, pack_pre-Represents, pack_post-Represents,
}
use cs2_bot_hider.Detours.Calls.Commands.{
  dispatch_con_command_pre-Represents, dispatch_con_command_post-Represents, Represents-kept,
}

module _ (react : EngineCall → Engine → Engine) where
  Call-Represents :
      {w w' : World} {s s' : List Frame} → Call react w s w' s' → Represents w s → Represents w' s'
  unfolding quota_pre quota_post human_team_pre human_team_post join_team_pre join_team_post
      end_match_pre end_match_post
  Call-Represents (Call.open_quota w s) r =
      begin_population_frame-Represents react PopulationCall.quota (is_disguise_enabled w) w s r
  Call-Represents (Call.close_quota w b s) r =
      end_population_frame-Represents react PopulationCall.quota b w s r
  Call-Represents (Call.open_human_team w s) r =
      begin_population_frame-Represents react PopulationCall.human_team (is_disguise_enabled w) w s
        r
  Call-Represents (Call.close_human_team w b s) r =
      end_population_frame-Represents react PopulationCall.human_team b w s r
  Call-Represents (Call.open_join_team w s controller) r =
      begin_population_frame-Represents react PopulationCall.join_team
        (is_disguise_enabled w && is_managed_bot_controller w.manager w.engine controller) w s r
  Call-Represents (Call.close_join_team w b s) r =
      end_population_frame-Represents react PopulationCall.join_team b w s r
  Call-Represents (Call.open_end_match w s pick_new_teams) r =
      begin_population_frame-Represents react PopulationCall.teardown
        (is_disguise_enabled w && pick_new_teams) w s r
  Call-Represents (Call.close_end_match w b s) r =
      end_population_frame-Represents react PopulationCall.teardown b w s r
  Call-Represents (Call.open_voters w s) r = voters_pre-Represents react w s r
  Call-Represents (Call.close_voters w b s) r = voters_post-Represents react w b s r
  Call-Represents (Call.open_script w s) r = script_is_bot_pre-Represents react w s r
  Call-Represents (Call.close_script w b s) r = script_is_bot_post-Represents react w b s r
  Call-Represents (Call.open_packing w s) r = pack_pre-Represents react w s r
  Call-Represents (Call.close_packing w s) r = pack_post-Represents react w s r
  Call-Represents (Call.open_command w s has_bot_kick name arguments) r =
      dispatch_con_command_pre-Represents react has_bot_kick w name arguments s r
  Call-Represents (Call.close_command w b s) r = dispatch_con_command_post-Represents react w b s r
  Call-Represents (Call.other w w' s p q) r = Represents-kept w w' s p q r

-- Along every run of Pres and Posts in any nesting, with other changes between them, the stacks of
-- the detours and of the console commands, the hook depth, the packing depth, the depth of the
-- population transactions and whether their shared scope is open stay those of one abstract stack of
-- frames, if they were to begin with.
pub Calls-Represents :
    (react : EngineCall → Engine → Engine) (w : World) (s : List Frame) (w' : World)
    (s' : List Frame)
    → Calls react w s w' s'
    → Represents w s
    → Represents w' s'
Calls-Represents react w s w' s' Calls.stop r = r
Calls-Represents react w s w' s' (Calls.then between _ middle _ run call) r =
    Call-Represents react call (Calls-Represents react w s between middle run r)

frames_of-no_detours : (call : PopulationCall) → frames_of no_detours call ≡ []
frames_of-no_detours PopulationCall.quota = refl
frames_of-no_detours PopulationCall.human_team = refl
frames_of-no_detours PopulationCall.join_team = refl
frames_of-no_detours PopulationCall.teardown = refl

is_positive_lem : (n : ℕ) → is_positive n ≡ not (n == 0)
is_positive_lem zero = refl
is_positive_lem (suc n) = ground arith

remove_lem : (depth : ℕ) (b : Bindings) → (remove depth b).1 ≡ (depth == 0)
unfolding remove
remove_lem zero b = refl
remove_lem (suc n) b = ground arith

pub initial-Represents :
    (w : World) → w.detours ≡ no_detours → w.population_depth ≡ 0 → Represents w []
initial-Represents w none_open d =
    Represents-kept (record w { detours = no_detours; population_depth = 0 }) w [] none_open d
      (record {
        frames = record {
          hook_depth = refl;
          pack_depth = refl;
          population = frames_of-no_detours;
          voters = refl;
          scripts = refl;
          commands = refl;
        };
        shared = record { depth = refl; scope = refl };
      })

-- From a state with nothing open, after any run: the detours can be removed exactly if no callback of
-- theirs is open; a population transaction is active exactly if some open frame began one, and then,
-- and only then, a shared scope holds the bots' identities.
pub Calls-remove :
    (react : EngineCall → Engine → Engine) (w w' : World) (s : List Frame) (b : Bindings)
    → w.detours ≡ no_detours
    → w.population_depth ≡ 0
    → Calls react w [] w' s
    → ((remove w'.detours.hook_depth b).1 ≡ (callbacks s == 0))
      × (population_transaction_active w' ≡ not (transactions s == 0))
      × (has_scope w'.detours.population_identity ≡ not (transactions s == 0))
Calls-remove react w w' s b none_open d run =
    let r = Calls-Represents react w [] w' s run (initial-Represents w none_open d) in
    (
      remove_lem w'.detours.hook_depth b ∙ ap (λ (n : ℕ). n == 0) r.frames.hook_depth,
      ap (λ (n : ℕ). not (n == 0)) r.shared.depth,
      r.shared.scope ∙ is_positive_lem (transactions s),
    )
