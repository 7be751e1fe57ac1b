-- ===== src/Tests/Detours.antt =====
-- Runs of the detours: a scope over one bot with a controller, and two callbacks that nest.
use cs2_bot_hider.Base.{◌≡◌, refl, true, not, List, [], ◌∷◌, none, arith, ◌==◌}
use cs2_bot_hider.Base.Int.{negsuc}
use cs2_bot_hider.World.{World, is_disguise_enabled}
use cs2_bot_hider.Detours.{capture, restore, population_transaction_active}
use cs2_bot_hider.Detours.State.{PopulationCall}
use cs2_bot_hider.Detours.Skeleton.{without_calls}
use cs2_bot_hider.Detours.RoundTrip.{HasWidths, restore-capture}
use cs2_bot_hider.Detours.Frames.{quota_pre, voters_pre}
use cs2_bot_hider.Detours.Install.{Binding, Bindings, remove}
use cs2_bot_hider.Detours.Calls.{Frame, Calls, Call, Represents, callbacks, transactions, has_scope}
use cs2_bot_hider.Detours.Calls.Refines.{Calls-Represents, Calls-remove, initial-Represents}
use cs2_bot_hider.Tests.{quiet, managed_world}

managed_world-HasWidths : HasWidths managed_world.engine
managed_world-HasWidths = record { bytes = λ ptr. omega arith; words = λ ptr. omega arith }

restore-capture_example :
    without_calls
      (restore quiet true
        (capture quiet true managed_world).1
        (capture quiet true managed_world).0).engine
    ≡ without_calls managed_world.engine
restore-capture_example =
    restore-capture quiet true managed_world (λ c e. refl) managed_world-HasWidths

abbrev in_quota : World
in_quota = quota_pre quiet managed_world

abbrev in_voters : World
in_voters = voters_pre quiet in_quota

abbrev stack : List Frame
stack =
    Frame.voters (is_disguise_enabled in_quota)
    ∷ Frame.population PopulationCall.quota (is_disguise_enabled managed_world)
    ∷ []

abbrev nested : Calls quiet managed_world [] in_voters stack
nested = Calls.then _ _ _ _ (Calls.then _ _ _ _ Calls.stop (Call.open_quota managed_world [])) (
    Call.open_voters in_quota
      (Frame.population PopulationCall.quota (is_disguise_enabled managed_world) ∷ []))

Calls-Represents_example : Represents in_voters stack
Calls-Represents_example =
    Calls-Represents quiet managed_world [] in_voters stack nested
      (initial-Represents managed_world refl refl)

abbrev bound : Binding
bound = record { target = none; active = true }

abbrev bindings : Bindings
bindings = record {
  quota_hook = bound;
  voters_hook = bound;
  join_team_hook = bound;
  human_team_hook = bound;
  pack_hook = bound;
  end_match_hook = bound;
  script_is_bot_hook = bound;
  pick_new_teams_on_reset_offset = negsuc 0;
}

Calls-remove_example :
    ((remove in_voters.detours.hook_depth bindings).1 ≡ (callbacks stack == 0))
    × (population_transaction_active in_voters ≡ not (transactions stack == 0))
    × (has_scope in_voters.detours.population_identity ≡ not (transactions stack == 0))
Calls-remove_example = Calls-remove quiet managed_world in_voters stack bindings refl refl nested
