-- ===== src/Tests/Avatars.antt =====
-- A pass over the avatars: slot 0 asks for one, and the string tables take it.
use cs2_bot_hider.Base.{ℕ, ◌≡◌, ◌≤◌, ◌≢◌, refl, true, List, [], ◌∷◌, arith}
use cs2_bot_hider.Manager.{
  Manager, init, adopt_slot, adopted, cleared, clear_slot, is_managed, get_synthetic_sid,
  get_incarnation, set_avatar_request, publish_avatar_state, advance_incarnation,
}
use cs2_bot_hider.Avatar.{
  Avatars, empty_avatars, set_string_table_container, unpublish_all, process_overrides,
  process_table, process_slot, enter_table, requested_steam_id, refresh_state, replace_avatar,
  apply_request, apply_avatar, disown, retry, clear_avatar_override, set_avatar_override,
  ensure_reliable_avatar_data,
}
use cs2_bot_hider.Manager.Calls.{ManagerCall}
use cs2_bot_hider.Avatar.Runs.{AvatarEvent, after_pass, run_avatar_events-current}
use cs2_bot_hider.Avatar.Owners.{empty-OwnersDistinct, process_overrides-owners-differ}
use cs2_bot_hider.Tests.{manager, persona_a, tables}

abbrev asking : Manager
asking = unpublish_all (set_avatar_request (adopt_slot manager 5 0 persona_a) 0 (7 ∷ []) 1)

abbrev avatars : Avatars
avatars = record empty_avatars { container = true }

abbrev done : ℕ × Avatars × Manager
done = process_overrides tables 9 0 avatars asking

owned : (done.1.states 0).applied_steam_id ≡ persona_a.steam_id64
unfolding process_overrides process_table process_slot enter_table requested_steam_id refresh_state
    replace_avatar apply_request apply_avatar disown retry clear_avatar_override set_avatar_override
    ensure_reliable_avatar_data unpublish_all set_avatar_request adopt_slot adopted cleared
    clear_slot is_managed get_synthetic_sid get_incarnation publish_avatar_state advance_incarnation
owned = refl

positive : (n m : ℕ) → n ≡ m → 1 ≤ m → n ≢ 0
positive n m e p z = absurd (omega arith)

-- Slot 0 is adopted and asks for an avatar.
abbrev events : List (AvatarEvent ℕ)
events =
    AvatarEvent.set_container true
    ∷ AvatarEvent.call (ManagerCall.adopt 5 0 persona_a)
    ∷ AvatarEvent.call (ManagerCall.request_avatar 0 (7 ∷ []) 1)
    ∷ []

abbrev started : ℕ × Avatars × Manager
started = (0, empty_avatars, init manager 0 5)

shown_after : ((after_pass tables events 9 started).slots 0).snapshot.avatar_applied ≡ 1
unfolding process_overrides process_table process_slot enter_table requested_steam_id refresh_state
    replace_avatar apply_request apply_avatar disown retry clear_avatar_override set_avatar_override
    ensure_reliable_avatar_data unpublish_all set_avatar_request adopt_slot adopted cleared
    clear_slot is_managed get_synthetic_sid get_incarnation publish_avatar_state advance_incarnation
    init set_string_table_container
shown_after = refl

run_avatar_events-current_example :
    (is_managed (after_pass tables events 9 started) 0 ≡ true)
    × (((after_pass tables events 9 started).slots 0).snapshot.avatar_steam_id
        ≡ get_synthetic_sid (after_pass tables events 9 started) 0)
unfolding set_string_table_container
run_avatar_events-current_example =
    run_avatar_events-current tables events 0 empty_avatars manager 0 5 9 1 0 refl refl
      (omega arith) (positive _ 1 shown_after (omega arith))

process_overrides-owners-differ_example :
    (done.1.states 0).applied_steam_id ≢ (done.1.states 1).applied_steam_id
process_overrides-owners-differ_example =
    process_overrides-owners-differ tables 9 0 avatars asking 0 1 empty-OwnersDistinct (omega arith)
      (omega arith) (omega arith) (positive _ persona_a.steam_id64 owned (omega arith))
