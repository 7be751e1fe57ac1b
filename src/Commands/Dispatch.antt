-- ===== src/Commands/Dispatch.antt =====
-- src/features/identity/command_hooks.cpp: the hooks of the console commands, of the level change and
-- of the frame. The string tables are threaded explicitly; a command's name is `none` where the
-- reference to it is not valid.
use cs2_bot_hider.Base.{
  ℕ, ◌+◌, ◌%◌, Bool, true, false, ◌||◌, not, List, [], ◌∷◌, Option, none, some, bit_and, ◌==◌,
  if◌then◌else◌, bytes_eq, each_slot,
}
use cs2_bot_hider.Base.Int.{pos}
use cs2_bot_hider.Snapshot.{max_slots}
use cs2_bot_hider.BotInfo.{is_empty}
use cs2_bot_hider.Engine.{Engine, EngineCall, resolve_client_by_slot, reset_idle_timer_for_client}
use cs2_bot_hider.Manager.{is_managed, on_tick}
use cs2_bot_hider.World.{World, release_all, is_disguise_enabled}
use cs2_bot_hider.Avatar.{StringTables, process_overrides}
use cs2_bot_hider.Runtime.{
  restore_managed_clients, drain_pending_controller_removals, release_managed_hltv_slot,
}
use cs2_bot_hider.Detours.{begin_population_transaction, end_population_transaction}
use cs2_bot_hider.Detours.Frames.{with_detours, tail_of, top_flag}
use cs2_bot_hider.Commands.{
  find_managed_slot_by_persona_name, find_managed_slot_by_user_id, queue_managed_bot_kick,
  drain_pending_bot_kicks,
}

abbrev pub kick : List ℕ
kick = b'k' ∷ b'i' ∷ b'c' ∷ b'k' ∷ []

abbrev pub kickid : List ℕ
kickid = b'k' ∷ b'i' ∷ b'c' ∷ b'k' ∷ b'i' ∷ b'd' ∷ []

abbrev pub bot_kick : List ℕ
bot_kick = b'b' ∷ b'o' ∷ b't' ∷ b'_' ∷ kick

abbrev pub banid : List ℕ
banid = b'b' ∷ b'a' ∷ b'n' ∷ b'i' ∷ b'd' ∷ []

abbrev pub bot_add : List ℕ
bot_add = b'b' ∷ b'o' ∷ b't' ∷ b'_' ∷ b'a' ∷ b'd' ∷ b'd' ∷ []

abbrev pub bot_add_t : List ℕ
bot_add_t = b'b' ∷ b'o' ∷ b't' ∷ b'_' ∷ b'a' ∷ b'd' ∷ b'd' ∷ b'_' ∷ b't' ∷ []

abbrev pub bot_add_ct : List ℕ
bot_add_ct = b'b' ∷ b'o' ∷ b't' ∷ b'_' ∷ b'a' ∷ b'd' ∷ b'd' ∷ b'_' ∷ b'c' ∷ b't' ∷ []

unfoldable pub is_kick_command : List ℕ → Bool
is_kick_command name =
    if is_empty name
    then false
    else bytes_eq name kickid
      || (bytes_eq name kick || (bytes_eq name bot_kick || bytes_eq name banid))

unfoldable pub is_bot_add_command : List ℕ → Bool
is_bot_add_command name =
    if is_empty name
    then false
    else bytes_eq name bot_add || (bytes_eq name bot_add_t || bytes_eq name bot_add_ct)

-- `arguments.ArgC() >= 2 ? arguments.Arg(1) : ""`
abbrev pub first_argument : List (List ℕ) → List ℕ
first_argument [] = []
first_argument (command ∷ []) = []
first_argument (command ∷ target ∷ rest) = target

-- The slot that `kick` or `kickid` names.
unfoldable pub kicked_slot : World → List ℕ → List ℕ → Option ℕ
kicked_slot w name target =
    if bytes_eq name kick
    then find_managed_slot_by_persona_name w target
    else if bytes_eq name kickid
    then find_managed_slot_by_user_id w target
    else none

abbrev pub with_command_frames : World → List Bool → World
with_command_frames w frames =
    with_detours w (record w.detours { population_command_frames = frames })

-- `g_populationCommandFrames.back() = true`
abbrev pub raised : List Bool → List Bool
raised [] = []
raised (b ∷ bs) = true ∷ bs

module _ (react : EngineCall → Engine → Engine) where
  unfoldable pub enter_command : World → World
  enter_command w =
      let begun = begin_population_transaction react true w in
      if is_disguise_enabled w
      then with_command_frames begun (raised begun.detours.population_command_frames)
      else w

  -- What follows a valid reference; the Boolean says whether the command is superseded.
  unfoldable pub dispatch_named : Bool → World → List ℕ → List (List ℕ) → World × Bool
  dispatch_named has_bot_kick w name arguments =
      let queued =
        queue_managed_bot_kick has_bot_kick w (kicked_slot w name (first_argument arguments)) in
      if is_bot_add_command name
      then (enter_command w, false)
      else if queued.1
      then queued
      else if not (is_kick_command name)
      then (w, false)
      else (enter_command w, false)

  unfoldable pub dispatch_con_command_pre :
      Bool → World → Option (List ℕ) → List (List ℕ) → World × Bool
  dispatch_con_command_pre has_bot_kick w command arguments =
      let pushed = with_command_frames w (false ∷ w.detours.population_command_frames) in
      elim command [
        | none ↦ (pushed, false)
        | some name ↦ dispatch_named has_bot_kick pushed name arguments
      ]

  unfoldable pub dispatch_con_command_post : World → World
  dispatch_con_command_post w =
      let frames = w.detours.population_command_frames in
      let popped = with_command_frames w (tail_of frames) in
      if top_flag frames
      then end_population_transaction react (is_disguise_enabled popped) popped
      else popped

  -- The frame's turn for one slot: a slot that has become an HLTV client is given up.
  unfoldable pub release_hltv : ℕ → World → World
  release_hltv slot w =
      if not (is_managed w.manager slot)
      then w
      else elim (resolve_client_by_slot w.engine (pos slot)) [
        | none ↦ w
        | some ptr ↦ (release_managed_hltv_slot react w (pos slot) (some ptr)).0
      ]

unfoldable pub reset_idle_timer : ℕ → World → World
reset_idle_timer slot w =
    if not (is_managed w.manager slot)
    then w
    else elim (resolve_client_by_slot w.engine (pos slot)) [
      | none ↦ w
      | some ptr ↦ record w { engine = reset_idle_timer_for_client w.engine ptr }
    ]

-- Every 64th frame; the counter is a word.
unfoldable pub count_tick : World → World
count_tick w =
    let counter = (w.plugin.tick_counter + 1) % 0x1_0000_0000 in
    let counted = record w { plugin = record w.plugin { tick_counter = counter } } in
    if bit_and counter 63 == 0 then each_slot reset_idle_timer max_slots counted else counted

module _ (tables : StringTables) where
  open tables use {State}

  unfoldable pub process_avatars : State × World → State × World
  process_avatars (st, w) =
      let processed = process_overrides tables w.clock st w.avatars w.manager in
      (processed.0, record w { avatars = processed.1; manager = processed.2 })

  module _ (react : EngineCall → Engine → Engine) where
    unfoldable pub start_change_level_pre : State × World → State × World
    start_change_level_pre (st, w) =
        process_avatars (st, release_all (restore_managed_clients react w).0)

    -- The part of the frame that a simulating server runs.
    unfoldable pub simulate : State × World → State × World
    simulate (st, w) =
        let released =
          each_slot (release_hltv react) max_slots (drain_pending_controller_removals react w) in
        process_avatars (st, count_tick (record released { manager = on_tick released.manager }))

    -- `dispatch` runs `bot_kick` with all that it calls back.
    unfoldable pub game_frame_post :
        (List ℕ → World → World) → (List ℕ → Bool) → Bool → Bool → State × World → State × World
    game_frame_post dispatch fits has_bot_kick simulating (st, w) =
        let drained = drain_pending_bot_kicks dispatch fits has_bot_kick w in
        if not simulating then (st, drained) else simulate (st, drained)
