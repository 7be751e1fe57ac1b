-- ===== src/Detours/Calls.antt =====
-- An abstract view of the callbacks that are open: one stack of frames, the innermost first, in place
-- of the stacks, the depths and the shared scope that src/features/identity/identity_hooks.cpp and
-- src/features/identity/command_hooks.cpp keep. One step is one Pre or one Post, in any nesting, or a
-- change of anything else.
pub mod Stacks
pub mod Transactions
pub mod Population
pub mod Scopes
pub mod Commands
pub mod Refines
use cs2_bot_hider.Base.{
  ℕ, zero, suc, ◌≡◌, Bool, true, false, ◌&&◌, not, List, [], ◌∷◌, map, Option, none, some, ◌==◌,
}
use cs2_bot_hider.Engine.{Engine, EngineCall}
use cs2_bot_hider.World.{World, is_disguise_enabled}
use cs2_bot_hider.Runtime.Pawns.{is_managed_bot_controller}
use cs2_bot_hider.Detours.State.{PopulationCall, Snapshots, Detours}
use cs2_bot_hider.Detours.Frames.{
  frames_of, top_flag, quota_pre, quota_post, human_team_pre, human_team_post, join_team_pre,
  join_team_post, end_match_pre, end_match_post, voters_pre, voters_post, script_is_bot_pre,
  script_is_bot_post, pack_pre, pack_post,
}
use cs2_bot_hider.Commands.Dispatch.{dispatch_con_command_pre, dispatch_con_command_post}

-- The flag says whether the frame began a transaction, or opened a scope of its own.
pub data Frame : Type 0 where
  population : PopulationCall → Bool → Frame
  voters : Bool → Frame
  script_is_bot : Bool → Frame
  packing : Frame
  command : Bool → Frame

abbrev pub same_call : PopulationCall → PopulationCall → Bool
same_call PopulationCall.quota PopulationCall.quota = true
same_call PopulationCall.human_team PopulationCall.human_team = true
same_call PopulationCall.join_team PopulationCall.join_team = true
same_call PopulationCall.teardown PopulationCall.teardown = true
same_call PopulationCall.quota _ = false
same_call PopulationCall.human_team _ = false
same_call PopulationCall.join_team _ = false
same_call PopulationCall.teardown _ = false

-- The open callbacks of the detours; a console command is not one of them.
abbrev pub callbacks : List Frame → ℕ
callbacks [] = 0
callbacks (Frame.population call b ∷ s) = suc (callbacks s)
callbacks (Frame.voters b ∷ s) = suc (callbacks s)
callbacks (Frame.script_is_bot b ∷ s) = suc (callbacks s)
callbacks (Frame.packing ∷ s) = suc (callbacks s)
callbacks (Frame.command b ∷ s) = callbacks s

abbrev pub counted : Bool → ℕ → ℕ
counted true n = suc n
counted false n = n

-- The frames that began a transaction.
abbrev pub transactions : List Frame → ℕ
transactions [] = 0
transactions (Frame.population call b ∷ s) = counted b (transactions s)
transactions (Frame.voters b ∷ s) = transactions s
transactions (Frame.script_is_bot b ∷ s) = transactions s
transactions (Frame.packing ∷ s) = transactions s
transactions (Frame.command b ∷ s) = counted b (transactions s)

abbrev pub packings : List Frame → ℕ
packings [] = 0
packings (Frame.population call b ∷ s) = packings s
packings (Frame.voters b ∷ s) = packings s
packings (Frame.script_is_bot b ∷ s) = packings s
packings (Frame.packing ∷ s) = suc (packings s)
packings (Frame.command b ∷ s) = packings s

abbrev pub added : Bool → Bool → List Bool → List Bool
added true b bs = b ∷ bs
added false b bs = bs

-- The flags of one kind of frame.
abbrev pub flags_of : PopulationCall → List Frame → List Bool
flags_of call [] = []
flags_of call (Frame.population c b ∷ s) = added (same_call c call) b (flags_of call s)
flags_of call (Frame.voters b ∷ s) = flags_of call s
flags_of call (Frame.script_is_bot b ∷ s) = flags_of call s
flags_of call (Frame.packing ∷ s) = flags_of call s
flags_of call (Frame.command b ∷ s) = flags_of call s

abbrev pub voter_flags : List Frame → List Bool
voter_flags [] = []
voter_flags (Frame.population c b ∷ s) = voter_flags s
voter_flags (Frame.voters b ∷ s) = b ∷ voter_flags s
voter_flags (Frame.script_is_bot b ∷ s) = voter_flags s
voter_flags (Frame.packing ∷ s) = voter_flags s
voter_flags (Frame.command b ∷ s) = voter_flags s

abbrev pub script_flags : List Frame → List Bool
script_flags [] = []
script_flags (Frame.population c b ∷ s) = script_flags s
script_flags (Frame.voters b ∷ s) = script_flags s
script_flags (Frame.script_is_bot b ∷ s) = b ∷ script_flags s
script_flags (Frame.packing ∷ s) = script_flags s
script_flags (Frame.command b ∷ s) = script_flags s

abbrev pub command_flags : List Frame → List Bool
command_flags [] = []
command_flags (Frame.population c b ∷ s) = command_flags s
command_flags (Frame.voters b ∷ s) = command_flags s
command_flags (Frame.script_is_bot b ∷ s) = command_flags s
command_flags (Frame.packing ∷ s) = command_flags s
command_flags (Frame.command b ∷ s) = b ∷ command_flags s

abbrev pub has_scope : Option Snapshots → Bool
has_scope none = false
has_scope (some s) = true

-- The source's stacks and depths are those of the abstract stack.
pub record Matches (d : Detours) (s : List Frame) : Type 0 where
  pub hook_depth : d.hook_depth ≡ callbacks s
  pub pack_depth : d.pack_entities_depth ≡ packings s
  pub population : (call : PopulationCall) → frames_of d call ≡ flags_of call s
  pub voters : map has_scope d.voter_frames ≡ voter_flags s
  pub scripts : map has_scope d.script_is_bot_frames ≡ script_flags s
  pub commands : d.population_command_frames ≡ command_flags s

abbrev pub is_positive : ℕ → Bool
is_positive zero = false
is_positive (suc n) = true

-- `n` transactions are open: their depth is counted, and a shared scope is open if there is one.
pub record InTransactions (w : World) (n : ℕ) : Type 0 where
  pub depth : w.population_depth ≡ n
  pub scope : has_scope w.detours.population_identity ≡ is_positive n

pub record Represents (w : World) (s : List Frame) : Type 0 where
  pub frames : Matches w.detours s
  pub shared : InTransactions w (transactions s)

pub data Call (react : EngineCall → Engine → Engine)
    : World → List Frame → World → List Frame → Type 0 where
  open_quota :
      (w : World) (s : List Frame)
      → Call react w s
          (quota_pre react w)
          (Frame.population PopulationCall.quota (is_disguise_enabled w) ∷ s)
  close_quota :
      (w : World) (b : Bool) (s : List Frame)
      → Call react w (Frame.population PopulationCall.quota b ∷ s) (quota_post react w) s
  open_human_team :
      (w : World) (s : List Frame)
      → Call react w s
          (human_team_pre react w)
          (Frame.population PopulationCall.human_team (is_disguise_enabled w) ∷ s)
  close_human_team :
      (w : World) (b : Bool) (s : List Frame)
      → Call react w (Frame.population PopulationCall.human_team b ∷ s) (human_team_post react w) s
  open_join_team :
      (w : World) (s : List Frame) (controller : Option ℕ)
      → Call react w s (join_team_pre react controller w) (
          Frame.population PopulationCall.join_team
            (is_disguise_enabled w && is_managed_bot_controller w.manager w.engine controller)
          ∷ s)
  close_join_team :
      (w : World) (b : Bool) (s : List Frame)
      → Call react w (Frame.population PopulationCall.join_team b ∷ s) (join_team_post react w) s
  open_end_match :
      (w : World) (s : List Frame) (pick_new_teams : Bool)
      → Call react w s
          (end_match_pre react pick_new_teams w)
          (Frame.population PopulationCall.teardown (is_disguise_enabled w && pick_new_teams) ∷ s)
  close_end_match :
      (w : World) (b : Bool) (s : List Frame)
      → Call react w (Frame.population PopulationCall.teardown b ∷ s) (end_match_post react w) s
  open_voters :
      (w : World) (s : List Frame)
      → Call react w s (voters_pre react w) (Frame.voters (is_disguise_enabled w) ∷ s)
  close_voters :
      (w : World) (b : Bool) (s : List Frame)
      → Call react w (Frame.voters b ∷ s) (voters_post react w) s
  open_script :
      (w : World) (s : List Frame)
      → Call react w s (script_is_bot_pre react w) (Frame.script_is_bot (is_disguise_enabled w) ∷ s)
  close_script :
      (w : World) (b : Bool) (s : List Frame)
      → Call react w (Frame.script_is_bot b ∷ s) (script_is_bot_post react w) s
  open_packing :
      (w : World) (s : List Frame) → Call react w s (pack_pre react w) (Frame.packing ∷ s)
  close_packing :
      (w : World) (s : List Frame) → Call react w (Frame.packing ∷ s) (pack_post react w) s
  -- The flag of a command is the one that its Pre leaves on the stack.
  open_command :
      (w : World) (s : List Frame) (has_bot_kick : Bool) (name : Option (List ℕ))
      (arguments : List (List ℕ))
      → Call react w s (dispatch_con_command_pre react has_bot_kick w name arguments).0 (
          Frame.command (
            top_flag
              (dispatch_con_command_pre react has_bot_kick w name
                arguments).0.detours.population_command_frames)
          ∷ s)
  close_command :
      (w : World) (b : Bool) (s : List Frame)
      → Call react w (Frame.command b ∷ s) (dispatch_con_command_post react w) s
  other :
      (w w' : World) (s : List Frame)
      → w'.detours ≡ w.detours
      → w'.population_depth ≡ w.population_depth
      → Call react w s w' s

-- Any number of steps, the last one outermost.
pub data Calls (react : EngineCall → Engine → Engine) (w : World) (s : List Frame)
    : World → List Frame → Type 0 where
  stop : Calls react w s w s
  then :
      (w' w'' : World) (s' s'' : List Frame)
      → Calls react w s w' s'
      → Call react w' s' w'' s''
      → Calls react w s w'' s''
