-- ===== src/Exports/Unique.antt =====
-- The setters of the bridge keep the SteamIDs of the managed slots distinct.
use cs2_bot_hider.Base.{
  ℕ, Bool, not, ◌||◌, ◌&&◌, List, Option, arith, Option-cases, inl, inr, ◌==◌, leb, ltb, take,
  if_both,
}
use cs2_bot_hider.Png.{has_png_structure}
use cs2_bot_hider.Base.Int.{ℤ, pos, negsuc, pos_part, leb_ℤ, ltb_ℤ}
use cs2_bot_hider.Snapshot.{name_len, crosshair_len, avatar_max_bytes}
use cs2_bot_hider.Text.{copy_input}
use cs2_bot_hider.Engine.{Engine, EngineCall}
use cs2_bot_hider.Manager.{
  Manager, is_managed, get_synthetic_sid, update_crosshair, update_scoreboard_flair,
  set_avatar_request, publish_avatar_state,
}
use cs2_bot_hider.World.{World}
use cs2_bot_hider.World.Identities.{HasUniqueIds, HasUniqueIds-shrink}
use cs2_bot_hider.ClientHooks.Unique.{Unique, map-Unique}
use cs2_bot_hider.Exports.{
  target, bh_set_crosshair, bh_set_flair, bh_set_avatar, bh_set_steam_id, bh_set_name, bh_set_mode,
  connected,
}
use cs2_bot_hider.Commands.Unique.{
  apply_steam_id_command-Unique, apply_persona_name_command-Unique, set_identity_mode-Unique,
}

-- The setters of a crosshair, a flair and an avatar change no SteamID.
update_crosshair-HasUniqueIds :
    (m : Manager) (slot : ℕ) (code : Option (List ℕ))
    → HasUniqueIds m
    → HasUniqueIds (update_crosshair m slot code)
unfolding update_crosshair is_managed get_synthetic_sid
update_crosshair-HasUniqueIds m slot code =
    HasUniqueIds-shrink m (update_crosshair m slot code) (λ j managed. ground arith)

update_scoreboard_flair-HasUniqueIds :
    (m : Manager) (slot value : ℕ)
    → HasUniqueIds m
    → HasUniqueIds (update_scoreboard_flair m slot value)
unfolding update_scoreboard_flair is_managed get_synthetic_sid
update_scoreboard_flair-HasUniqueIds m slot value =
    HasUniqueIds-shrink m (update_scoreboard_flair m slot value) (λ j managed. ground arith)

set_avatar_request-HasUniqueIds :
    (m : Manager) (slot : ℕ) (bytes : List ℕ) (n : ℕ)
    → HasUniqueIds m
    → HasUniqueIds (set_avatar_request m slot bytes n)
unfolding set_avatar_request publish_avatar_state is_managed get_synthetic_sid
set_avatar_request-HasUniqueIds m slot bytes n =
    HasUniqueIds-shrink m (set_avatar_request m slot bytes n) (λ j managed. ground arith)

pub bh_set_crosshair-Unique :
    (w : World) (thread : ℕ) (slot : ℤ) (incarnation : ℕ) (text : Option (List ℕ)) (len : ℤ)
    → Unique w
    → Unique (bh_set_crosshair w thread slot incarnation text len).0
unfolding bh_set_crosshair
bh_set_crosshair-Unique w thread slot incarnation text len u =
    elim (Option-cases (copy_input crosshair_len text len)) [
      | inl e ↦
          rw (e, bh_set_crosshair)
            (if_both (λ (r : World × Bool). Unique r.0) (not (target w thread slot incarnation)) u
              u)
      | inr (buffer, e) ↦
          rw (e, bh_set_crosshair)
            (if_both (λ (r : World × Bool). Unique r.0) (not (target w thread slot incarnation)) u
              (map-Unique (update_crosshair-HasUniqueIds w.manager (pos_part slot) _) u))
    ]

pub bh_set_flair-Unique :
    (w : World) (thread : ℕ) (slot : ℤ) (incarnation value : ℕ)
    → Unique w
    → Unique (bh_set_flair w thread slot incarnation value).0
unfolding bh_set_flair
bh_set_flair-Unique w thread slot incarnation value u =
    if_both (λ (r : World × Bool). Unique r.0) (target w thread slot incarnation && leb value 65535)
      (map-Unique (update_scoreboard_flair-HasUniqueIds w.manager (pos_part slot) value) u) u

pub bh_set_avatar-Unique :
    (w : World) (thread : ℕ) (slot : ℤ) (incarnation : ℕ) (bytes : List ℕ) (len : ℤ)
    → Unique w
    → Unique (bh_set_avatar w thread slot incarnation bytes len).0
unfolding bh_set_avatar
bh_set_avatar-Unique w thread slot incarnation bytes len u =
    if_both (λ (r : World × Bool). Unique r.0)
      (not (target w thread slot incarnation)
        || (ltb_ℤ len (pos 0) || ltb_ℤ (pos avatar_max_bytes) len))
      u
      (if_both (λ (r : World × Bool). Unique r.0)
        (not (pos_part len == 0) && not (has_png_structure (take (pos_part len) bytes))) u
        (map-Unique (set_avatar_request-HasUniqueIds w.manager (pos_part slot) bytes (pos_part len))
          u))

module _ (react : EngineCall → Engine → Engine) where
  pub bh_set_steam_id-Unique :
      (w : World) (thread : ℕ) (slot : ℤ) (incarnation id : ℕ)
      → Unique w
      → Unique (bh_set_steam_id react w thread slot incarnation id).0
  unfolding bh_set_steam_id
  bh_set_steam_id-Unique w thread slot incarnation id u =
      if_both (λ (r : World × Bool). Unique r.0) (not (target w thread slot incarnation) || id == 0)
        u (apply_steam_id_command-Unique react w slot id u)

  pub bh_set_name-Unique :
      (w : World) (thread : ℕ) (slot : ℤ) (incarnation : ℕ) (text : Option (List ℕ)) (len : ℤ)
      → Unique w
      → Unique (bh_set_name react w thread slot incarnation text len).0
  unfolding bh_set_name
  bh_set_name-Unique w thread slot incarnation text len u =
      elim (Option-cases (copy_input name_len text len)) [
        | inl e ↦
            rw (e, bh_set_name)
              (if_both (λ (r : World × Bool). Unique r.0)
                (not (target w thread slot incarnation) || leb_ℤ len (pos 0)) u u)
        | inr (buffer, e) ↦
            rw (e, bh_set_name)
              (if_both (λ (r : World × Bool). Unique r.0)
                (not (target w thread slot incarnation) || leb_ℤ len (pos 0)) u
                (apply_persona_name_command-Unique react w slot buffer u))
      ]

  pub bh_set_mode-Unique :
      (can_enable attached : Bool) (w : World) (thread : ℕ) (value : ℤ)
      → Unique w
      → Unique (bh_set_mode react can_enable attached w thread value).0
  unfolding bh_set_mode
  bh_set_mode-Unique can_enable attached w thread (pos n) u =
      if_both (λ (r : World × Bool). Unique r.0) (not (connected w thread) || ltb 1 n) u
        (set_identity_mode-Unique react can_enable attached w _ u)
  bh_set_mode-Unique can_enable attached w thread (negsuc n) u = u
