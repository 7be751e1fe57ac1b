-- ===== src/Detours/State.antt =====
-- The globals of src/features/identity/identity_hooks.cpp, and the frames of the console commands of
-- src/features/identity/command_hooks.cpp. The thread-local stacks are those of the game thread; the
-- top of a stack comes first. The depth of the population transactions is in the world's state.
use cs2_bot_hider.Base.{ℕ, Bool, false, List, [], Option, none}
use cs2_bot_hider.Base.Int.{ℤ, negsuc}
use cs2_bot_hider.Engine.{PawnRef}

pub record BotIdentitySnapshot : Type 0 where
  pub slot : ℤ
  pub client : Option ℕ
  pub controller : Option ℕ
  pub handle : ℕ
  pub user_id : ℕ
  pub connection_flags : ℕ
  pub connection_flags_mask : ℕ
  pub fake_player : ℕ
  pub controller_flags : ℕ
  pub controller_flags_mask : ℕ

abbrev pub no_snapshot : BotIdentitySnapshot
no_snapshot = record {
  slot = negsuc 0;
  client = none;
  controller = none;
  handle = 0xFFFF_FFFF;
  user_id = 0;
  connection_flags = 0;
  connection_flags_mask = 0;
  fake_player = 0;
  controller_flags = 0;
  controller_flags_mask = 0;
}

-- The array of a `ScopedBotIdentityRestore`.
abbrev pub Snapshots : Type 0
Snapshots = ℕ → BotIdentitySnapshot

-- The detours that open a population transaction.
pub data PopulationCall : Type 0 where
  quota human_team join_team teardown : PopulationCall

pub record Detours : Type 0 where
  pub identity_resolve_warned : ℕ → Bool
  pub hook_depth : ℕ
  pub pack_entities_depth : ℕ
  pub population_redisguise : Bool
  pub population_identity : Option Snapshots
  pub quota_frames : List Bool
  pub human_team_frames : List Bool
  pub join_team_frames : List Bool
  pub teardown_frames : List Bool
  pub voter_frames : List (Option Snapshots)
  pub script_is_bot_frames : List (Option Snapshots)
  pub packed_pawns : List PawnRef
  pub population_command_frames : List Bool

abbrev pub no_detours : Detours
no_detours = record {
  identity_resolve_warned = λ _. false;
  hook_depth = 0;
  pack_entities_depth = 0;
  population_redisguise = false;
  population_identity = none;
  quota_frames = [];
  human_team_frames = [];
  join_team_frames = [];
  teardown_frames = [];
  voter_frames = [];
  script_is_bot_frames = [];
  packed_pawns = [];
  population_command_frames = [];
}
