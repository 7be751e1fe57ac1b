-- ===== src/World.antt =====
-- The state of the plugin as its hooks see it, with src/features/identity/identity_state.h and
-- src/features/identity/identity_state.cpp: which identity a slot has, and the deferred work.
pub mod Identities
use cs2_bot_hider.Base.{
  ℕ, zero, suc, Bool, true, false, List, [], ◌∷◌, Option, none, some, update, ltb, if◌then◌else◌,
}
use cs2_bot_hider.Engine.{Engine}
use cs2_bot_hider.Snapshot.{max_slots}
use cs2_bot_hider.BotInfo.{BotInfoStore, release_assignment, reset_assignments}
use cs2_bot_hider.Manager.{Manager}
use cs2_bot_hider.Manager
use cs2_bot_hider.Avatar.{Avatars}
use cs2_bot_hider.Detours.State.{Detours}

pub record PendingControllerRemoval : Type 0 where
  pub controller : ℕ
  pub handle : ℕ
  pub slot : ℕ
  pub user_id : ℕ
  pub referenced_frames : ℕ

pub record PendingBotKick : Type 0 where
  pub slot : ℕ
  pub client : ℕ
  pub user_id : ℕ
  pub incarnation : ℕ

pub data IdentityMode : Type 0 where
  player bot : IdentityMode

-- The fields of the plugin's class that are not elsewhere: `m_hookedGameServer`, `m_loaded` and
-- `m_tickCounter`, and the game servers that `m_startChangeLevelHook` was added to.
pub record PluginState : Type 0 where
  pub hooked_game_server : Option ℕ
  pub level_hooks : ℕ → Bool
  pub is_loaded : Bool
  pub tick_counter : ℕ

-- `slot_entries` and `original_slot_names` are the arrays of identity_state.cpp,
-- `population_depth` is the depth of the population transactions, and `clock` what the clocks of
-- the standard library would read.
pub record World : Type 0 where
  pub manager : Manager
  pub info : BotInfoStore
  pub engine : Engine
  pub slot_entries : ℕ → Option ℕ
  pub original_slot_names : ℕ → List ℕ
  pub pending_controller_removals : List PendingControllerRemoval
  pub pending_bot_kicks : List PendingBotKick
  pub identity_mode : IdentityMode
  pub start_in_player_mode : Bool
  pub use_bot_info_name : Bool
  pub population_depth : ℕ
  pub clock : ℕ
  pub avatars : Avatars
  pub detours : Detours
  pub plugin : PluginState

abbrev pub is_disguise_enabled : World → Bool
is_disguise_enabled w = elim w.identity_mode [
  | IdentityMode.player ↦ true
  | IdentityMode.bot ↦ false
]

abbrev pub or_empty : Option (List ℕ) → List ℕ
or_empty none = []
or_empty (some s) = s

unfoldable pub bind_slot : World → ℕ → Option ℕ → Option (List ℕ) → World
bind_slot w slot entry original_name = record w {
  slot_entries = update w.slot_entries slot entry;
  original_slot_names = update w.original_slot_names slot (or_empty original_name);
}

unfoldable pub original_slot_name : World → ℕ → List ℕ
original_slot_name w slot = w.original_slot_names slot

unfoldable pub release_slot : World → ℕ → World
release_slot w slot = record w {
  info = release_assignment w.info (w.slot_entries slot);
  slot_entries = update w.slot_entries slot none;
  original_slot_names = update w.original_slot_names slot [];
  manager = Manager.release_slot w.manager slot;
}

unfoldable pub release_all : World → World
release_all w = record w {
  manager = Manager.release_all w.manager;
  info = reset_assignments w.info;
  slot_entries = λ slot. if ltb slot max_slots then none else w.slot_entries slot;
  original_slot_names = λ slot. if ltb slot max_slots then [] else w.original_slot_names slot;
  pending_controller_removals = [];
  pending_bot_kicks = [];
}
