-- ===== src/Avatar/Shown.antt =====
-- What a slot shows of its avatar after a pass: the SteamID that it has now, or nothing.
use cs2_bot_hider.Base.{
  ℕ, ◌≡◌, ◌≢◌, refl, ap, sym, ◌∙◌, Bool, true, false, ◌||◌, not, arith, ltb, ◌==◌, if_both, if_case,
  if_split, update,
}
use cs2_bot_hider.Snapshot.{SlotSnapshot}
use cs2_bot_hider.Manager.{
  Manager, ManagedSlot, is_managed, get_incarnation, get_synthetic_sid, publish_avatar_state,
  published,
}
use cs2_bot_hider.Manager.Slots.{update_self, update_ne}
use cs2_bot_hider.Avatar.{
  StringTables, AvatarRuntimeState, Turn, disown, refresh_state, retry, finish, apply_avatar,
  apply_request, replace_avatar, process_slot, requested_steam_id, clear_avatar_override,
  ensure_reliable_avatar_data, set_avatar_override,
}

-- An avatar that is shown has been processed, for the SteamID that it is shown under.
pub record IsTruthful (s : AvatarRuntimeState) (x : SlotSnapshot) : Type 0 where
  pub done : x.avatar_applied ≢ 0 → s.processed ≡ true
  pub same : x.avatar_applied ≢ 0 → s.steam_id ≡ x.avatar_steam_id
  pub nonzero : x.avatar_applied ≢ 0 → x.avatar_steam_id ≢ 0

-- It is shown under the SteamID that the slot's request is for.
pub record IsCurrent (m : Manager) (slot : ℕ) : Type 0 where
  pub requested :
      (m.slots slot).snapshot.avatar_applied ≢ 0
      → (m.slots slot).snapshot.avatar_steam_id ≡ requested_steam_id m slot
  pub nonzero : (m.slots slot).snapshot.avatar_applied ≢ 0 → requested_steam_id m slot ≢ 0

requested-publish :
    (m : Manager) (slot : ℕ) (applied : Bool) (id j : ℕ)
    → requested_steam_id (publish_avatar_state m slot applied id) j ≡ requested_steam_id m j
unfolding requested_steam_id publish_avatar_state is_managed get_incarnation get_synthetic_sid
requested-publish m slot applied id j = ground arith

pub publish-ne :
    (m : Manager) (slot : ℕ) (applied : Bool) (id j : ℕ)
    → slot ≢ j
    → (publish_avatar_state m slot applied id).slots j ≡ m.slots j
unfolding publish_avatar_state
publish-ne m slot applied id j ne = update_ne m.slots slot j _ ne

pub publish_self :
    (m : Manager) (slot : ℕ) (applied : Bool) (id : ℕ)
    → ((publish_avatar_state m slot applied id).slots slot).snapshot
      ≡ published (m.slots slot).snapshot applied id
unfolding publish_avatar_state
publish_self m slot applied id = ap (λ (s : ManagedSlot). s.snapshot) (update_self m.slots slot _)

module _ (tables : StringTables) (slot : ℕ) where
  -- What a turn does to the other slots, and what its own slot shows after it.
  pub record Effect (t t' : Turn tables) : Type 0 where
    pub slots_ne : (j : ℕ) → slot ≢ j → t'.manager.slots j ≡ t.manager.slots j
    pub done_ne : (j : ℕ) → slot ≢ j → (t'.states j).processed ≡ (t.states j).processed
    pub id_ne : (j : ℕ) → slot ≢ j → (t'.states j).steam_id ≡ (t.states j).steam_id
    pub requests : (j : ℕ) → requested_steam_id t'.manager j ≡ requested_steam_id t.manager j
    pub truthful : IsTruthful (t'.states slot) (t'.manager.slots slot).snapshot
    pub current : IsCurrent t'.manager slot

  -- The slot shows nothing.
  abbrev IsHidden : Manager → Type 0
  IsHidden m = (m.slots slot).snapshot.avatar_applied ≡ 0

  finish-Effect :
      (t : Turn tables) (st : tables.State) (s : AvatarRuntimeState)
      → IsHidden t.manager
      → Effect t (finish tables st t.states slot s t.manager)
  finish-Effect t st s hidden = record {
    slots_ne = λ j ne. refl;
    done_ne = λ j ne. ap (λ (x : AvatarRuntimeState). x.processed) (update_ne t.states slot j s ne);
    id_ne = λ j ne. ap (λ (x : AvatarRuntimeState). x.steam_id) (update_ne t.states slot j s ne);
    requests = λ j. refl;
    truthful = record {
      done = λ shown. absurd (shown hidden);
      same = λ shown. absurd (shown hidden);
      nonzero = λ shown. absurd (shown hidden);
    };
    current = record {
      requested = λ shown. absurd (shown hidden);
      nonzero = λ shown. absurd (shown hidden);
    };
  }

  disown-processed :
      (states : ℕ → AvatarRuntimeState) (id j : ℕ)
      → (disown states id j).processed ≡ (states j).processed
  unfolding disown
  disown-processed states id j = ground arith

  disown-steam_id :
      (states : ℕ → AvatarRuntimeState) (id j : ℕ)
      → (disown states id j).steam_id ≡ (states j).steam_id
  unfolding disown
  disown-steam_id states id j = ground arith

  applied-Effect :
      (t : Turn tables) (st : tables.State) (s : AvatarRuntimeState)
      → s.steam_id ≢ 0
      → s.steam_id ≡ requested_steam_id t.manager slot
      → Effect t (
          finish tables st
            (disown (update t.states slot s) s.steam_id)
            slot
            (record s { applied_steam_id = s.steam_id; processed = true })
            (publish_avatar_state t.manager slot true s.steam_id))
  applied-Effect t st s ne wanted =
      let states = disown (update t.states slot s) s.steam_id in
      let final = record s { applied_steam_id = s.steam_id; processed = true } in
      let shown = publish_self t.manager slot true s.steam_id in
      let id_shown = ap (λ (x : SlotSnapshot). x.avatar_steam_id) shown in
      let mine = update_self states slot final in
      let request = requested-publish t.manager slot true s.steam_id slot in
      record {
        slots_ne = λ j apart. publish-ne t.manager slot true s.steam_id j apart;
        done_ne = λ j apart.
            ap (λ (x : AvatarRuntimeState). x.processed) (update_ne states slot j final apart)
            ∙ (disown-processed (update t.states slot s) s.steam_id j
                ∙ ap (λ (x : AvatarRuntimeState). x.processed) (update_ne t.states slot j s apart));
        id_ne = λ j apart.
            ap (λ (x : AvatarRuntimeState). x.steam_id) (update_ne states slot j final apart)
            ∙ (disown-steam_id (update t.states slot s) s.steam_id j
                ∙ ap (λ (x : AvatarRuntimeState). x.steam_id) (update_ne t.states slot j s apart));
        requests = λ j. requested-publish t.manager slot true s.steam_id j;
        truthful = record {
          done = λ _. ap (λ (x : AvatarRuntimeState). x.processed) mine;
          same = λ _. ap (λ (x : AvatarRuntimeState). x.steam_id) mine ∙ sym id_shown;
          nonzero = λ _ none_yet. ne (sym id_shown ∙ none_yet);
        };
        current = record {
          requested = λ _. id_shown ∙ (wanted ∙ sym request);
          nonzero = λ _ none_yet. ne (wanted ∙ (sym request ∙ none_yet));
        };
      }

  -- The strings are no part of the effect.
  same_start :
      (t : Turn tables) (st : tables.State) (t' : Turn tables)
      → Effect (record t { strings = st }) t'
      → Effect t t'
  same_start t st t' e = record {
    slots_ne = e.slots_ne;
    done_ne = e.done_ne;
    id_ne = e.id_ne;
    requests = e.requests;
    truthful = e.truthful;
    current = e.current;
  }

module _ (tables : StringTables) (table now slot : ℕ) where
  abbrev Wanted : Turn tables → AvatarRuntimeState → Type 0
  Wanted t s = s.steam_id ≡ requested_steam_id t.manager slot

  apply_avatar-Effect :
      (t : Turn tables) (s : AvatarRuntimeState)
      → IsHidden tables slot t.manager
      → s.steam_id ≢ 0
      → Wanted t s
      → Effect tables slot t (apply_avatar tables table now slot t s)
  unfolding apply_avatar
  apply_avatar-Effect t s hidden ne wanted =
      let written =
        set_avatar_override tables t.strings table s.steam_id (t.manager.slots slot).avatar.bytes in
      if_both (Effect tables slot t) (not written.1)
        (finish-Effect tables slot t written.0 (retry now s) hidden)
        (applied-Effect tables slot t written.0 s ne wanted)

  apply_request-Effect :
      (t : Turn tables) (s : AvatarRuntimeState)
      → IsHidden tables slot t.manager
      → Wanted t s
      → Effect tables slot t (apply_request tables table now slot t s)
  unfolding apply_request
  apply_request-Effect t s hidden wanted =
      if_case (Effect tables slot t) (s.steam_id == 0)
        (finish-Effect tables slot t t.strings (record s { processed = true }) hidden)
        (λ off.
          let ne : s.steam_id ≢ 0 = λ e. ground arith in
          let ensured = ensure_reliable_avatar_data tables t.strings in
          if_both (Effect tables slot t) (not ensured.1)
            (finish-Effect tables slot t ensured.0 (retry now s) hidden)
            (same_start tables slot t ensured.0 _
              (apply_avatar-Effect (record t { strings = ensured.0 }) s hidden ne wanted)))

  replace_avatar-Effect :
      (t : Turn tables) (s : AvatarRuntimeState)
      → IsHidden tables slot t.manager
      → Wanted t s
      → Effect tables slot t (replace_avatar tables table now slot t s)
  unfolding replace_avatar
  replace_avatar-Effect t s hidden wanted =
      let cleared = clear_avatar_override tables t.strings table s.applied_steam_id in
      if_both (Effect tables slot t) (s.applied_steam_id == 0 || s.applied_steam_id == s.steam_id)
        (apply_request-Effect t s hidden wanted)
        (if_both (Effect tables slot t) (not cleared.1)
          (finish-Effect tables slot t cleared.0 (retry now s) hidden)
          (same_start tables slot t cleared.0 _ (
            apply_request-Effect (record t { strings = cleared.0 })
              (record s { applied_steam_id = 0 }) hidden wanted)))

  -- A state that is left as it is was processed for this very request.
  refresh_state_skip :
      (s : AvatarRuntimeState) (sequence id : ℕ)
      → let r = refresh_state s sequence id in
        (r.processed || ltb now r.retry_at) ≡ true
        → (r.processed ≡ s.processed) × (r.steam_id ≡ s.steam_id)
  unfolding refresh_state
  refresh_state_skip s sequence id h = ground arith

  refresh_state-steam_id :
      (s : AvatarRuntimeState) (sequence id : ℕ) → (refresh_state s sequence id).steam_id ≡ id
  unfolding refresh_state
  refresh_state-steam_id s sequence id = ground arith

  pub process_slot-Effect :
      (t : Turn tables)
      → IsTruthful (t.states slot) (t.manager.slots slot).snapshot
      → Effect tables slot t (process_slot tables table now slot t)
  unfolding process_slot
  process_slot-Effect t h =
      let sequence = (t.manager.slots slot).avatar.sequence in
      let id = requested_steam_id t.manager slot in
      let s = refresh_state (t.states slot) sequence id in
      let wanted = refresh_state-steam_id (t.states slot) sequence id in
      let hide = publish_avatar_state t.manager slot false 0 in
      let hidden : IsHidden tables slot hide =
        ap (λ (x : SlotSnapshot). x.avatar_applied) (publish_self t.manager slot false 0) in
      let request = requested-publish t.manager slot false 0 slot in
      if_split (Effect tables slot t) (s.processed || ltb now s.retry_at)
        (λ skip. skipped t s h (refresh_state_skip (t.states slot) sequence id skip) wanted)
        (λ _.
          hide_first t _
            (replace_avatar-Effect (record t { manager = hide }) s hidden (wanted ∙ sym request)))
    where
      skipped :
          (t : Turn tables) (s : AvatarRuntimeState)
          → IsTruthful (t.states slot) (t.manager.slots slot).snapshot
          → (s.processed ≡ (t.states slot).processed) × (s.steam_id ≡ (t.states slot).steam_id)
          → Wanted t s
          → Effect tables slot t (finish tables t.strings t.states slot s t.manager)
      skipped t s h (done, id) wanted =
          let mine = update_self t.states slot s in
          let same_id = ap (λ (x : AvatarRuntimeState). x.steam_id) mine in
          let same_done = ap (λ (x : AvatarRuntimeState). x.processed) mine in
          record {
            slots_ne = λ j ne. refl;
            done_ne = λ j ne.
                ap (λ (x : AvatarRuntimeState). x.processed) (update_ne t.states slot j s ne);
            id_ne = λ j ne.
                ap (λ (x : AvatarRuntimeState). x.steam_id) (update_ne t.states slot j s ne);
            requests = λ j. refl;
            truthful = record {
              done = λ shown. same_done ∙ (done ∙ h.done shown);
              same = λ shown. same_id ∙ (id ∙ h.same shown);
              nonzero = h.nonzero;
            };
            current = record {
              requested = λ shown. sym (h.same shown) ∙ (sym id ∙ wanted);
              nonzero = λ shown none_yet.
                  h.nonzero shown (sym (h.same shown) ∙ (sym id ∙ (wanted ∙ none_yet)));
            };
          }

      -- The turn first publishes that the slot has no avatar.
      hide_first :
          (t t' : Turn tables)
          → Effect tables slot
              (record t { manager = publish_avatar_state t.manager slot false 0 })
              t'
          → Effect tables slot t t'
      hide_first t t' e = record {
        slots_ne = λ j ne. e.slots_ne j ne ∙ publish-ne t.manager slot false 0 j ne;
        done_ne = e.done_ne;
        id_ne = e.id_ne;
        requests = λ j. e.requests j ∙ requested-publish t.manager slot false 0 j;
        truthful = e.truthful;
        current = e.current;
      }
