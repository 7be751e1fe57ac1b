-- ===== src/Runtime/Pawns.antt =====
-- The functions of src/features/identity/identity_runtime.cpp that the detours use: which controller
-- is a managed bot's, and FL_BOT of the managed pawns, which is cleared while entities are packed.
use cs2_bot_hider.Base.{
  ℕ, zero, suc, Bool, false, ◌||◌, ◌&&◌, not, List, [], ◌∷◌, ◌++◌, Option, none, some, bit_and,
  bit_or, ◌==◌, if◌then◌else◌, each_slot,
}
use cs2_bot_hider.Base.Int.{pos}
use cs2_bot_hider.Snapshot.{max_slots}
use cs2_bot_hider.Engine.{
  Engine, EngineCall, PawnRef, with_entity, clear_word, entity_flag_bot, is_hltv,
  resolve_client_by_slot, resolve_entity_instance, is_entity_being_deleted, resolve_client_pawn,
  mark_entity_field_changed,
}
use cs2_bot_hider.Manager.{Manager, is_managed}
use cs2_bot_hider.Runtime.{client_controller, names}

-- The loop of `IsManagedBotController`, over the `n` slots from `slot` on.
unfoldable pub find_controller : Manager → Engine → ℕ → ℕ → ℕ → Bool
find_controller m e controller zero slot = false
find_controller m e controller (suc n) slot =
    let later = find_controller m e controller n (suc slot) in
    if not (is_managed m slot) then later else elim (resolve_client_by_slot e (pos slot)) [
      | none ↦ later
      | some ptr ↦
          if not (names (client_controller e ptr) controller)
            || is_entity_being_deleted e (some controller)
          then later
          else not (is_hltv e ptr)
    ]

unfoldable pub is_managed_bot_controller : Manager → Engine → Option ℕ → Bool
is_managed_bot_controller m e none = false
is_managed_bot_controller m e (some controller) = find_controller m e controller max_slots 0

-- `*flags |= kEntityFlagBot`
unfoldable pub set_bot_flag : Engine → ℕ → Engine
set_bot_flag e pawn =
    with_entity e pawn
      (record (e.entity pawn) { flags = bit_or (e.entity pawn).flags entity_flag_bot })

-- `*flags &= ~kEntityFlagBot`
unfoldable pub clear_bot_flag : Engine → ℕ → Engine
clear_bot_flag e pawn =
    with_entity e pawn
      (record (e.entity pawn) { flags = clear_word (e.entity pawn).flags entity_flag_bot })

-- The pawn still is the one that the handle was taken of.
unfoldable pub is_same_pawn : Engine → PawnRef → Bool
is_same_pawn e p =
    names (resolve_entity_instance e (e.entry_index p.handle)).0 p.pawn
    && (not (is_entity_being_deleted e (some p.pawn)) && ((e.entity p.pawn).handle == p.handle))

unfoldable pub restore_bot_flag_override : Engine → List PawnRef → Engine
restore_bot_flag_override e [] = e
restore_bot_flag_override e (p ∷ pawns) =
    restore_bot_flag_override (if is_same_pawn e p then set_bot_flag e p.pawn else e) pawns

module _ (react : EngineCall → Engine → Engine) where
  -- The turn of `ApplyBotFlagOverride` for one slot.
  unfoldable pub override_slot : Manager → ℕ → Engine × List PawnRef → Engine × List PawnRef
  override_slot m slot (e, modified) =
      if not (is_managed m slot)
      then (e, modified)
      else elim (resolve_client_pawn e (resolve_client_by_slot e (pos slot))) [
        | none ↦ (e, modified)
        | some p ↦ if bit_and (e.entity p.pawn).flags entity_flag_bot == 0 then (e, modified) else (
          mark_entity_field_changed react (clear_bot_flag e p.pawn) p.pawn,
          modified ++ p ∷ [],
        )
      ]

  unfoldable pub apply_bot_flag_override : Manager → Engine → List PawnRef → Engine × List PawnRef
  apply_bot_flag_override m e modified = each_slot (override_slot m) max_slots (e, modified)
