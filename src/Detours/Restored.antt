-- ===== src/Detours/Restored.antt =====
-- One slot's turn of the destructor of a scope, while the skeleton is as it was.
use cs2_bot_hider.Base.{
  ℕ, ◌≡◌, refl, sym, ap, ◌∙◌, Bool, true, false, Option, none, some, arith, bit_xor, ◌==◌, ==_refl,
  if◌then◌else◌, Bool-cases, inl, inr,
}
use cs2_bot_hider.Base.Int.{pos}
use cs2_bot_hider.Engine.{
  Engine, EngineCall, Client, Entity, set_fake_player, resolve_client_by_slot, with_client,
  is_entity_being_deleted, resolve_entity_instance,
}
use cs2_bot_hider.Manager.{is_managed}
use cs2_bot_hider.World.{World}
use cs2_bot_hider.Runtime.{client_controller}
use cs2_bot_hider.Detours.{
  client_snapshot, restored_byte, restored_word, restore_client, restore_controller,
  restore_snapshot, is_valid_controller,
}
use cs2_bot_hider.Detours.State.{BotIdentitySnapshot}
use cs2_bot_hider.Detours.Captured.{with_controller, saved_snapshot}
use cs2_bot_hider.Detours.Skeleton.{
  IsQuiet, skeleton, disguised, flagged, slot_client, if_live, live_controller, names_self,
  live_controller-skeleton, resolve_client_by_slot-skeleton, with_changes, with_changes-skeleton,
  without_calls, write_flags-quiet,
}

-- A client and an entity put back as far as the scope changed them; the first argument is what the
-- scope found.
abbrev pub undisguised : Client → Client → Client
undisguised old c = record c {
  connection_flags =
      restored_byte c.connection_flags old.connection_flags
        (bit_xor old.connection_flags (disguised old).connection_flags);
  fake_player = if old.fake_player == 1 then c.fake_player else old.fake_player;
}

abbrev pub unflagged : Entity → Entity → Entity
unflagged old x = record x {
  flags = restored_word x.flags old.flags (bit_xor old.flags (flagged old).flags);
}

abbrev pub unflagged_at : Engine → Option ℕ → Entity → Entity
unflagged_at e none x = x
unflagged_at e (some controller) x = unflagged (e.entity controller) x

if_live-parts :
    (e : Engine) (o : Option ℕ) (q : ℕ)
    → if_live e o ≡ some q
    → (o ≡ some q) × (is_entity_being_deleted e (some q) ≡ false)
if_live-parts e none q h = absurd (ground arith)
if_live-parts e (some p) q h = elim (Bool-cases (is_entity_being_deleted e (some p))) [
  | inl d ↦ absurd (ground arith)
  | inr d ↦ let same : p ≡ q = ground arith in (ap some same, rw (sym same) d)
]

-- The captured controller is still valid.
is_valid_controller-live :
    (e : Engine) (ptr q handle : ℕ)
    → live_controller e ptr ≡ some q
    → (e.entity q).handle ≡ handle
    → is_valid_controller e (resolve_entity_instance e (e.client ptr).entity_index) q handle ≡ true
unfolding live_controller is_valid_controller
is_valid_controller-live e ptr q handle live h =
    let parts = if_live-parts e (client_controller e ptr) q live in
    rw (parts.0, parts.1, h, ==_refl handle, names_self q) refl

pub live_controller-same :
    (v e : Engine) (ptr : ℕ)
    → skeleton v ≡ skeleton e
    → live_controller v ptr ≡ live_controller e ptr
live_controller-same v e ptr same =
    sym (live_controller-skeleton v ptr)
    ∙ (ap (λ (u : Engine). live_controller u ptr) same ∙ live_controller-skeleton e ptr)

abbrev opened_client : Engine → Engine → ℕ → Engine
opened_client e r ptr = with_client r ptr (undisguised (e.client ptr) (r.client ptr))

restore_client-back :
    (e r : Engine) (slot ptr : ℕ) (o : Option ℕ)
    → restore_client r (with_controller e (client_snapshot e slot ptr) o) ptr
      ≡ opened_client e r ptr
unfolding restore_client set_fake_player
restore_client-back e r slot ptr none = rw (==_refl ptr) refl
restore_client-back e r slot ptr (some q) = rw (==_refl ptr) refl

module _ (react : EngineCall → Engine → Engine) (mark : Bool) (quiet : IsQuiet react) where
  restore_controller-back :
      (e v : Engine) (slot ptr : ℕ) (o : Option ℕ)
      → live_controller v ptr ≡ o
      → skeleton v ≡ skeleton e
      → (let s = with_controller e (client_snapshot e slot ptr) o in
          without_calls (restore_controller react mark v s ptr s.controller)
          ≡ without_calls (with_changes v none (λ c. c) o (unflagged_at e o)))
  unfolding restore_controller
  restore_controller-back e v slot ptr none live same = refl
  restore_controller-back e v slot ptr (some q) live same =
      rw
        (is_valid_controller-live v ptr q (e.entity q).handle live
          (ap (λ (u : Engine). (u.entity q).handle) same))
        (write_flags-quiet react mark v q _ quiet)

  restore_snapshot-passes :
      (s : BotIdentitySnapshot) (now : World) (slot ptr : ℕ)
      → s.client ≡ some ptr
      → s.slot ≡ pos slot
      → slot_client now slot ≡ some ptr
      → (now.engine.client ptr).user_id ≡ s.user_id
      → (restore_snapshot react mark s now).engine
        ≡ restore_controller react mark (restore_client now.engine s ptr) s ptr s.controller
  unfolding restore_snapshot slot_client
  restore_snapshot-passes s now slot ptr client at h user =
      elim (Bool-cases (is_managed now.manager slot)) [
        | inr m ↦ absurd (ground arith)
        | inl m ↦
            let r : resolve_client_by_slot now.engine (pos slot) ≡ some ptr = ground arith in
            rw (client, at, m, r, names_self ptr, user, ==_refl s.user_id) refl
      ]

  restore_saved :
      (e : Engine) (now : World) (slot ptr : ℕ) (o : Option ℕ)
      → slot_client now slot ≡ some ptr
      → (now.engine.client ptr).user_id ≡ (e.client ptr).user_id
      → (let s = with_controller e (client_snapshot e slot ptr) o in
          (restore_snapshot react mark s now).engine
          ≡ restore_controller react mark (opened_client e now.engine ptr) s ptr s.controller)
  restore_saved e now slot ptr none h user =
      restore_snapshot-passes _ now slot ptr refl refl h user
      ∙ ap (λ (v : Engine). restore_controller react mark v (client_snapshot e slot ptr) ptr none)
          (restore_client-back e now.engine slot ptr none)
  restore_saved e now slot ptr (some q) h user =
      let s = with_controller e (client_snapshot e slot ptr) (some q) in
      restore_snapshot-passes s now slot ptr refl refl h user
      ∙ ap (λ (v : Engine). restore_controller react mark v s ptr (some q))
          (restore_client-back e now.engine slot ptr (some q))

  pub slot_client-kept :
      (before now : World) (slot : ℕ)
      → now.manager ≡ before.manager
      → skeleton now.engine ≡ skeleton before.engine
      → slot_client now slot ≡ slot_client before slot
  unfolding slot_client
  slot_client-kept before now slot same_manager same =
      rw (same_manager, sym (resolve_client_by_slot-skeleton now.engine (pos slot)), same)
        (ap (λ (o : Option ℕ). if is_managed before.manager slot then o else none)
          (resolve_client_by_slot-skeleton before.engine (pos slot)))

  -- The turn puts the slot's client and controller back.
  pub restore_snapshot-engine :
      (before now : World) (slot ptr : ℕ)
      → slot_client before slot ≡ some ptr
      → now.manager ≡ before.manager
      → skeleton now.engine ≡ skeleton before.engine
      → (let o = live_controller before.engine ptr in
          without_calls
            (restore_snapshot react mark (saved_snapshot before.engine slot ptr) now).engine
          ≡ without_calls (
              with_changes now.engine
                (some ptr)
                (undisguised (before.engine.client ptr))
                o
                (unflagged_at before.engine o)))
  restore_snapshot-engine before now slot ptr h same_manager same =
      let e = before.engine in
      let v = opened_client e now.engine ptr in
      let shown =
        with_changes-skeleton now.engine (some ptr) (undisguised (e.client ptr)) none (λ x. x)
          (λ c. refl) (λ x. refl)
        ∙ same in
      ap without_calls (
        restore_saved e now slot ptr (live_controller e ptr)
          (slot_client-kept before now slot same_manager same ∙ h)
          (ap (λ (u : Engine). (u.client ptr).user_id) same))
      ∙ restore_controller-back e v slot ptr (live_controller e ptr)
          (live_controller-same v e ptr shown) shown
