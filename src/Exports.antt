-- ===== src/Exports.antt =====
-- src/bridge/exports.cpp: the functions that the managed side calls. `thread` is the calling
-- thread; a result of 0 is `false`.
pub mod Guards
pub mod Unique
use cs2_bot_hider.Base.{
  ℕ, ◌^◌, Bool, true, false, ◌||◌, ◌&&◌, not, List, [], ◌∷◌, Option, none, some, ltb, leb, ◌==◌,
  if◌then◌else◌, take, length,
}
use cs2_bot_hider.Base.Int.{ℤ, pos, pos_part, ltb_ℤ, leb_ℤ}
use cs2_bot_hider.Text.{copy_input}
use cs2_bot_hider.Png.{has_png_structure}
use cs2_bot_hider.Snapshot.{
  SlotSnapshot, Signature, max_slots, name_len, crosshair_len, avatar_max_bytes,
}
use cs2_bot_hider.Engine.{Engine, EngineCall}
use cs2_bot_hider.Manager.{
  Manager, is_ready, attach, detach, update_crosshair, update_scoreboard_flair, set_avatar_request,
}
use cs2_bot_hider.World.{World, IdentityMode}
use cs2_bot_hider.Commands.{apply_steam_id_command, apply_persona_name_command, set_identity_mode}

unfoldable pub connected : World → ℕ → Bool
connected w thread = is_ready w.manager thread && w.manager.attached

unfoldable pub valid_slot : World → ℕ → ℤ → Bool
unfolding connected
valid_slot w thread slot = connected w thread && (leb_ℤ (pos 0) slot && ltb_ℤ slot (pos max_slots))

-- The caller's `incarnation` must be that of the slot's present owner.
unfoldable pub target : World → ℕ → ℤ → ℕ → Bool
unfolding valid_slot
target w thread slot incarnation =
    let state = (w.manager.slots (pos_part slot)).snapshot in
    if not (valid_slot w thread slot)
    then false
    else not (state.managed == 0) && (not (incarnation == 0) && incarnation == state.incarnation)

unfoldable pub bh_attach : World → ℕ → World × Bool
bh_attach w thread = let r = attach w.manager thread in (record w { manager = r.0 }, r.1)

unfoldable pub bh_detach : World → ℕ → World
bh_detach w thread =
    if is_ready w.manager thread then record w { manager = detach w.manager } else w

-- `size` is right if it is the size of a snapshot, 312; `has_output` says that there is a buffer.
unfoldable pub bh_get_slot : World → ℕ → ℤ → Bool → ℤ → Option SlotSnapshot
unfolding valid_slot
bh_get_slot w thread slot has_output size =
    if not (valid_slot w thread slot)
      || (not has_output || not (leb_ℤ (pos 312) size && leb_ℤ size (pos 312)))
    then none
    else some (w.manager.slots (pos_part slot)).snapshot

unfoldable pub bh_get_signatures : World → ℕ → Bool → ℤ → List Signature
unfolding connected
bh_get_signatures w thread has_output capacity =
    let count = w.manager.signature_count in
    if not (connected w thread) || (not has_output || ltb_ℤ capacity (pos count))
    then []
    else take count w.manager.signatures

-- The update of the manager where the guard holds.
abbrev pub when_targeted : Bool → World → Manager → World × Bool
when_targeted ok w m = if ok then (record w { manager = m }, true) else (w, false)

unfoldable pub bh_set_crosshair : World → ℕ → ℤ → ℕ → Option (List ℕ) → ℤ → World × Bool
unfolding target
bh_set_crosshair w thread slot incarnation code len =
    if not (target w thread slot incarnation)
    then (w, false)
    else elim (copy_input crosshair_len code len) [
      | none ↦ (w, false)
      | some buffer ↦
          (record w { manager = update_crosshair w.manager (pos_part slot) (some buffer) }, true)
    ]

unfoldable pub bh_set_flair : World → ℕ → ℤ → ℕ → ℕ → World × Bool
unfolding target
bh_set_flair w thread slot incarnation flair =
    when_targeted (target w thread slot incarnation && leb flair 65535) w
      (update_scoreboard_flair w.manager (pos_part slot) flair)

-- `bytes` is what the pointer points to, at least `len` bytes.
unfoldable pub bh_set_avatar : World → ℕ → ℤ → ℕ → List ℕ → ℤ → World × Bool
unfolding target
bh_set_avatar w thread slot incarnation bytes len =
    let n = pos_part len in
    if not (target w thread slot incarnation)
      || (ltb_ℤ len (pos 0) || ltb_ℤ (pos avatar_max_bytes) len)
    then (w, false)
    else if not (n == 0) && not (has_png_structure (take n bytes))
    then (w, false)
    else (record w { manager = set_avatar_request w.manager (pos_part slot) bytes n }, true)

unfoldable pub bh_set_name_source : World → ℕ → ℤ → World × Bool
unfolding connected
bh_set_name_source w thread (pos n) =
    if not (connected w thread) || ltb 1 n
    then (w, false)
    else (record w { use_bot_info_name = n == 1 }, true)
bh_set_name_source w thread other = (w, false)

module _ (react : EngineCall → Engine → Engine) where
  unfoldable pub bh_set_steam_id : World → ℕ → ℤ → ℕ → ℕ → World × Bool
  unfolding target
  bh_set_steam_id w thread slot incarnation steam_id =
      if not (target w thread slot incarnation) || steam_id == 0
      then (w, false)
      else apply_steam_id_command react w slot steam_id

  unfoldable pub bh_set_name : World → ℕ → ℤ → ℕ → Option (List ℕ) → ℤ → World × Bool
  unfolding target
  bh_set_name w thread slot incarnation name len =
      if not (target w thread slot incarnation) || leb_ℤ len (pos 0)
      then (w, false)
      else elim (copy_input name_len name len) [
        | none ↦ (w, false)
        | some buffer ↦ apply_persona_name_command react w slot buffer
      ]

  unfoldable pub bh_set_mode : Bool → Bool → World → ℕ → ℤ → World × Bool
  unfolding connected
  bh_set_mode can_enable attached w thread (pos n) =
      if not (connected w thread) || ltb 1 n
      then (w, false)
      else set_identity_mode react can_enable attached w
          (if n == 1 then IdentityMode.bot else IdentityMode.player)
  bh_set_mode can_enable attached w thread other = (w, false)
