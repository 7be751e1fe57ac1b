-- ===== src/Avatar/Identities.antt =====
-- The avatars change no identity: which slots are managed, and under which SteamIDs.
use cs2_bot_hider.Base.{
  ℕ, ◌≡◌, refl, ◌∙◌, Bool, true, false, ◌||◌, not, Option, none, some, arith, ltb, ◌==◌, if_both,
  if◌then◌else◌, each_slot_kept,
}
use cs2_bot_hider.Snapshot.{max_slots}
use cs2_bot_hider.Manager.{Manager, is_managed, get_synthetic_sid, publish_avatar_state}
use cs2_bot_hider.Avatar.{
  StringTables, AvatarRuntimeState, Avatars, Turn, unpublish_all, requested_steam_id, refresh_state,
  enter_table, same_table, start_turn, clear_avatar_override, set_avatar_override,
  ensure_reliable_avatar_data, apply_avatar, apply_request, replace_avatar, process_slot,
  process_table, process_overrides,
}

abbrev pub identities : Manager → ℕ → Bool × ℕ
identities m slot = (is_managed m slot, get_synthetic_sid m slot)

publish_avatar_state-identities :
    (m : Manager) (slot : ℕ) (applied : Bool) (id : ℕ)
    → identities (publish_avatar_state m slot applied id) ≡ identities m
publish_avatar_state-identities m slot applied id = λ i j. (managed j i, sid j i)
  where
    managed : (j : ℕ) → is_managed (publish_avatar_state m slot applied id) j ≡ is_managed m j
    managed j = unfold publish_avatar_state is_managed in ground arith

    sid :
        (j : ℕ)
        → get_synthetic_sid (publish_avatar_state m slot applied id) j ≡ get_synthetic_sid m j
    sid j = unfold publish_avatar_state get_synthetic_sid in ground arith

pub unpublish_all-identities : (m : Manager) → identities (unpublish_all m) ≡ identities m
unfolding unpublish_all
unpublish_all-identities m =
    each_slot_kept identities (λ slot m. publish_avatar_state m slot false 0) max_slots m
      (λ slot m. publish_avatar_state-identities m slot false 0)

module _ (tables : StringTables) (table now slot : ℕ) where
  abbrev shown : Turn tables → ℕ → Bool × ℕ
  shown t = identities t.manager

  apply_request-identities :
      (t : Turn tables) (s : AvatarRuntimeState)
      → shown (apply_request tables table now slot t s) ≡ shown t
  unfolding apply_request apply_avatar
  apply_request-identities t s =
      let ensured = ensure_reliable_avatar_data tables t.strings in
      let written =
        set_avatar_override tables ensured.0 table s.steam_id (t.manager.slots slot).avatar.bytes in
      if_both (λ (u : Turn tables). shown u ≡ shown t) (s.steam_id == 0) refl
        (if_both (λ (u : Turn tables). shown u ≡ shown t) (not ensured.1) refl
          (if_both (λ (u : Turn tables). shown u ≡ shown t) (not written.1) refl
            (publish_avatar_state-identities t.manager slot true s.steam_id)))

  replace_avatar-identities :
      (t : Turn tables) (s : AvatarRuntimeState)
      → shown (replace_avatar tables table now slot t s) ≡ shown t
  unfolding replace_avatar
  replace_avatar-identities t s =
      let cleared = clear_avatar_override tables t.strings table s.applied_steam_id in
      if_both (λ (u : Turn tables). shown u ≡ shown t)
        (s.applied_steam_id == 0 || s.applied_steam_id == s.steam_id) (apply_request-identities t s)
        (if_both (λ (u : Turn tables). shown u ≡ shown t) (not cleared.1) refl
          (apply_request-identities (record t { strings = cleared.0 })
            (record s { applied_steam_id = 0 })))

  process_slot-identities :
      (t : Turn tables) → shown (process_slot tables table now slot t) ≡ shown t
  unfolding process_slot
  process_slot-identities t =
      let request = (t.manager.slots slot).avatar in
      let s = refresh_state (t.states slot) request.sequence (requested_steam_id t.manager slot) in
      let hidden = publish_avatar_state t.manager slot false 0 in
      if_both (λ (u : Turn tables). shown u ≡ shown t) (s.processed || ltb now s.retry_at) refl
        (replace_avatar-identities (record t { manager = hidden }) s
          ∙ publish_avatar_state-identities t.manager slot false 0)

module _ (tables : StringTables) where
  enter_table-identities :
      (table : ℕ) (a : Avatars) (m : Manager) → identities (enter_table table a m).1 ≡ identities m
  unfolding enter_table
  enter_table-identities table a m =
      if_both (λ (r : Avatars × Manager). identities r.1 ≡ identities m)
        (same_table a.last_table table) refl (unpublish_all-identities m)

  process_table-identities :
      (table now : ℕ) (st : tables.State) (a : Avatars) (m : Manager)
      → identities (process_table tables table now st a m).2 ≡ identities m
  unfolding process_table
  process_table-identities table now st a m =
      each_slot_kept (λ (t : Turn tables). identities t.manager) (process_slot tables table now)
        max_slots (start_turn tables st (enter_table table a m))
        (process_slot-identities tables table now)
      ∙ enter_table-identities table a m

  -- `ProcessOverrides` with the table that was found.
  abbrev with_table :
      ℕ → tables.State → Avatars → Manager → Option ℕ → tables.State × Avatars × Manager
  with_table now st a m found = elim found [
    | none ↦ (st, a, m)
    | some table ↦ if not a.container then (st, a, m) else process_table tables table now st a m
  ]

  with_table-identities :
      (now : ℕ) (st : tables.State) (a : Avatars) (m : Manager) (found : Option ℕ)
      → identities (with_table now st a m found).2 ≡ identities m
  with_table-identities now st a m none = refl
  with_table-identities now st a m (some table) =
      if_both (λ (r : tables.State × Avatars × Manager). identities r.2 ≡ identities m)
        (not a.container) refl (process_table-identities table now st a m)

  pub process_overrides-identities :
      (now : ℕ) (st : tables.State) (a : Avatars) (m : Manager)
      → identities (process_overrides tables now st a m).2 ≡ identities m
  unfolding process_overrides
  process_overrides-identities now st a m = with_table-identities now st a m (tables.find_table st)
