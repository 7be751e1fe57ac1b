-- ===== src/Commands/Outcome.antt =====
-- What the commands of the bridge leave behind, on success and on failure.
use cs2_bot_hider.Base.{ℕ, ◌≡◌, ◌≢◌, refl, Bool, true, false, some, Option-cases, inl, inr}
use cs2_bot_hider.Base.Int.{ℤ, pos_part}
use cs2_bot_hider.Engine.{Engine, EngineCall, resolve_client_by_slot}
use cs2_bot_hider.Manager.{get_synthetic_sid, set_synthetic_sid}
use cs2_bot_hider.World.{World}
use cs2_bot_hider.World.Identities.{set_synthetic_sid-slots, get_synthetic_sid-set_synthetic_sid}
use cs2_bot_hider.Runtime.{SteamIdAvailability, check_steam_id_availability}
use cs2_bot_hider.Commands.{apply_steam_id_command}

-- What is said of the result of a command for one slot.
Atomic : World → ℤ → ℕ → World × Bool → Type 0
Atomic w slot steam_id r =
    (r.1 ≡ true
      → (get_synthetic_sid r.0.manager (pos_part slot) ≡ steam_id)
        × (check_steam_id_availability w slot steam_id ≡ SteamIdAvailability.available)
        × ((j : ℕ) → pos_part slot ≢ j → r.0.manager.slots j ≡ w.manager.slots j))
    × (r.1 ≡ false → r.0 ≡ w)

refused-Atomic : (w : World) (slot : ℤ) (steam_id : ℕ) → Atomic w slot steam_id (w, false)
unfolding Atomic
refused-Atomic w slot steam_id = ((λ t. cc t), λ f. refl)

applied-Atomic :
    (w : World) (slot : ℤ) (steam_id : ℕ) (e : Engine)
    → check_steam_id_availability w slot steam_id ≡ SteamIdAvailability.available
    → Atomic w slot steam_id (
      record w { engine = e; manager = set_synthetic_sid w.manager (pos_part slot) steam_id },
      true,
    )
unfolding Atomic
applied-Atomic w slot steam_id e a = (
  (λ t. (
    get_synthetic_sid-set_synthetic_sid w.manager (pos_part slot) steam_id,
    a,
    λ j ne. set_synthetic_sid-slots w.manager (pos_part slot) steam_id j ne,
  )),
  λ f. cc f,
)

apply_steam_id_command-Atomic :
    (react : EngineCall → Engine → Engine) (w : World) (slot : ℤ) (steam_id : ℕ)
    → Atomic w slot steam_id (apply_steam_id_command react w slot steam_id)
unfolding apply_steam_id_command
apply_steam_id_command-Atomic react w slot steam_id =
    elim (Option-cases (resolve_client_by_slot w.engine slot)) [
      | inl e ↦ rw (e, apply_steam_id_command) (refused-Atomic w slot steam_id)
      | inr (ptr, e) ↦ by_answer ptr e (check_steam_id_availability w slot steam_id) refl
    ]
  where
    by_answer :
        (ptr : ℕ)
        → resolve_client_by_slot w.engine slot ≡ some ptr
        → (a : SteamIdAvailability) → check_steam_id_availability w slot steam_id ≡ a
        → Atomic w slot steam_id (apply_steam_id_command react w slot steam_id)
    by_answer ptr e SteamIdAvailability.available a =
        rw (e, a, apply_steam_id_command) (applied-Atomic w slot steam_id _ a)
    by_answer ptr e SteamIdAvailability.in_use a =
        rw (e, a, apply_steam_id_command) (refused-Atomic w slot steam_id)
    by_answer ptr e SteamIdAvailability.check_failed a =
        rw (e, a, apply_steam_id_command) (refused-Atomic w slot steam_id)

-- The command is atomic. If it succeeds, the slot has the SteamID, which was available, and the other
-- slots are as before; if it fails, nothing at all has changed.
pub apply_steam_id_command-atomic :
    (react : EngineCall → Engine → Engine) (w : World) (slot : ℤ) (steam_id : ℕ)
    → let r = apply_steam_id_command react w slot steam_id in
      (r.1 ≡ true
        → (get_synthetic_sid r.0.manager (pos_part slot) ≡ steam_id)
          × (check_steam_id_availability w slot steam_id ≡ SteamIdAvailability.available)
          × ((j : ℕ) → pos_part slot ≢ j → r.0.manager.slots j ≡ w.manager.slots j))
      × (r.1 ≡ false → r.0 ≡ w)
unfolding Atomic
apply_steam_id_command-atomic react w slot steam_id =
    apply_steam_id_command-Atomic react w slot steam_id
