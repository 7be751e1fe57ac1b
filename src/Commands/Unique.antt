-- ===== src/Commands/Unique.antt =====
-- The commands of the bridge keep the SteamIDs of the managed slots distinct.
use cs2_bot_hider.Base.{
  ℕ, zero, suc, ◌≡◌, refl, ◌∙◌, Bool, not, List, some, arith, Option-cases, inl, inr, if_both,
}
use cs2_bot_hider.Base.Int.{ℤ, pos, pos_part}
use cs2_bot_hider.Snapshot.{max_slots}
use cs2_bot_hider.Engine.{Engine, EngineCall, resolve_client_by_slot}
use cs2_bot_hider.World.{World, IdentityMode, is_disguise_enabled}
use cs2_bot_hider.World.Identities.{
  HasUniqueIds-claim, set_synthetic_sid-slots, get_synthetic_sid-set_synthetic_sid,
}
use cs2_bot_hider.Runtime.{
  SteamIdAvailability, check_steam_id_availability, disguise_slot, apply_managed_disguise,
}
use cs2_bot_hider.Base.{each_slot}
use cs2_bot_hider.Runtime.Occupied.{check_steam_id_availability-fresh}
use cs2_bot_hider.Commands.{
  apply_steam_id_command, apply_persona_name_command, enter_mode, set_identity_mode, same_mode,
}
use cs2_bot_hider.ClientHooks.Unique.{Unique, carry, map-Unique, apply_client_name-Unique}

module _ (react : EngineCall → Engine → Engine) where
  pub apply_steam_id_command-Unique :
      (w : World) (slot : ℤ) (steam_id : ℕ)
      → Unique w
      → Unique (apply_steam_id_command react w slot steam_id).0
  unfolding apply_steam_id_command
  apply_steam_id_command-Unique w slot steam_id u =
      elim (Option-cases (resolve_client_by_slot w.engine slot)) [
        | inl e ↦ rw (e, apply_steam_id_command) u
        | inr (ptr, e) ↦ by_answer ptr e (check_steam_id_availability w slot steam_id) refl
      ]
    where
      by_answer :
          (ptr : ℕ)
          → resolve_client_by_slot w.engine slot ≡ some ptr
          → (a : SteamIdAvailability) → check_steam_id_availability w slot steam_id ≡ a
          → Unique (apply_steam_id_command react w slot steam_id).0
      by_answer ptr e SteamIdAvailability.available a =
          rw (e, a, apply_steam_id_command)
            (map-Unique
              (HasUniqueIds-claim w.manager _ (pos_part slot)
                (λ j ne. set_synthetic_sid-slots w.manager (pos_part slot) steam_id j ne)
                (λ j h ne m same.
                  (check_steam_id_availability-fresh w slot steam_id j a h ne m).1 (
                    same ∙ get_synthetic_sid-set_synthetic_sid w.manager (pos_part slot) steam_id)))
              u)
      by_answer ptr e SteamIdAvailability.in_use a = rw (e, a, apply_steam_id_command) u
      by_answer ptr e SteamIdAvailability.check_failed a = rw (e, a, apply_steam_id_command) u

  pub apply_persona_name_command-Unique :
      (w : World) (slot : ℤ) (name : List ℕ)
      → Unique w
      → Unique (apply_persona_name_command react w slot name).0
  unfolding apply_persona_name_command
  apply_persona_name_command-Unique w slot name u =
      elim (Option-cases (resolve_client_by_slot w.engine slot)) [
        | inl e ↦ rw (e, apply_persona_name_command) u
        | inr (ptr, e) ↦
            rw (e, apply_persona_name_command)
              (apply_client_name-Unique react w (pos_part slot) ptr name u)
      ]

  disguise_slot-manager :
      (disguised : Bool) (slot : ℕ) (w : World)
      → (disguise_slot react disguised slot w).manager ≡ w.manager
  unfolding disguise_slot
  disguise_slot-manager disguised slot w =
      elim (Option-cases (resolve_client_by_slot w.engine (pos slot))) [
        | inl e ↦ rw e (ground arith)
        | inr (ptr, e) ↦ rw e (ground arith)
      ]

  disguise_slots-manager :
      (disguised : Bool) (n : ℕ) (w : World)
      → (each_slot (disguise_slot react disguised) n w).manager ≡ w.manager
  disguise_slots-manager disguised zero w = refl
  disguise_slots-manager disguised (suc n) w =
      disguise_slot-manager disguised n (each_slot (disguise_slot react disguised) n w)
      ∙ disguise_slots-manager disguised n w

  enter_mode-Unique :
      (w : World) (mode : IdentityMode) → Unique w → Unique (enter_mode react w mode).0
  unfolding enter_mode apply_managed_disguise
  enter_mode-Unique w mode u =
      if_both (λ (r : World × Bool). Unique r.0) (same_mode w.identity_mode mode) (carry refl u)
        (carry (disguise_slots-manager _ max_slots _) u)

  pub set_identity_mode-Unique :
      (can_enable attached : Bool) (w : World) (mode : IdentityMode)
      → Unique w
      → Unique (set_identity_mode react can_enable attached w mode).0
  unfolding set_identity_mode
  set_identity_mode-Unique can_enable attached w IdentityMode.bot u =
      enter_mode-Unique w IdentityMode.bot u
  set_identity_mode-Unique can_enable attached w IdentityMode.player u =
      if_both (λ (r : World × Bool). Unique r.0) (not can_enable) u
        (if_both (λ (r : World × Bool). Unique r.0) (not attached)
          (if_both Unique (is_disguise_enabled w) (enter_mode-Unique w IdentityMode.bot u) u)
          (enter_mode-Unique w IdentityMode.player u))
