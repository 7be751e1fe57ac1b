-- ===== src/Commands/Kicks.antt =====
-- The deferred kicks of src/features/identity/command_hooks.cpp: which bot a queued kick reaches.
use mathlib.Core.List.{append_cancel_left}
use cs2_bot_hider.Base.{
  drop, Bool-cases, not, ◌||◌, none, Option-cases, inl, inr, sym, ◌∙◌, ℕ, ◌^◌, ◌-◌, ◌<◌, ◌≡◌, ◌≢◌,
  refl, ap, true, false, List, [], ◌∷◌, ◌++◌, some, arith,
}
use cs2_bot_hider.Base.Int.{pos}
use cs2_bot_hider.BotInfo.{is_empty}
use cs2_bot_hider.Engine.{is_hltv, resolve_client_by_slot}
use cs2_bot_hider.Manager.{Manager, Persona, is_managed, get_slot_name, get_incarnation, adopt_slot}
use cs2_bot_hider.Manager.Calls.{ManagerCall, adoptions, readopted, readopted-ne}
use cs2_bot_hider.World.{World, PendingBotKick}
use cs2_bot_hider.Commands.{queue_managed_bot_kick, kick_target}

-- If a queued kick still has a target, then its slot is managed and its client is the one that was
-- queued, with the same user ID, it is no SourceTV, a nonzero incarnation is still the slot's, and the
-- name that is kicked is the slot's present name.
pub kick_target-current :
    (w : World) (kick : PendingBotKick) (name : List ℕ)
    → kick_target w kick ≡ some name
    → (is_managed w.manager kick.slot ≡ true)
      × (resolve_client_by_slot w.engine (pos kick.slot) ≡ some kick.client)
      × ((w.engine.client kick.client).user_id ≡ kick.user_id)
      × (is_hltv w.engine kick.client ≡ false)
      × (kick.incarnation ≢ 0 → get_incarnation w.manager kick.slot ≡ kick.incarnation)
      × (name ≡ get_slot_name w.manager kick.slot)
unfolding kick_target
kick_target-current w kick name h =
    elim (Option-cases (resolve_client_by_slot w.engine (pos kick.slot))) [
      | inl e ↦ absurd (ground arith)
      | inr (ptr, e) ↦
          let same : ptr ≡ kick.client = ground arith in
          (
            ground arith,
            e ∙ ap some same,
            ap (λ (p : ℕ). (w.engine.client p).user_id) (sym same) ∙ ground arith,
            ap (is_hltv w.engine) (sym same) ∙ ground arith,
            (λ ne. ground arith),
            ground arith,
          )
    ]

-- A kick that was queued has, as long as nothing changes, its own bot as its target: the queue grew by
-- one item, for the slot that was asked for, whose target is that slot's name.
pub queue_managed_bot_kick-target :
    (w : World) (slot : ℕ)
    → (queue_managed_bot_kick true w (some slot)).1 ≡ true
    → (kick : PendingBotKick) × ((queue_managed_bot_kick true w (some slot)).0.pending_bot_kicks
        ≡ w.pending_bot_kicks ++ kick ∷ [])
      × (kick.slot ≡ slot)
      × (kick_target w kick ≡ some (get_slot_name w.manager slot))
unfolding queue_managed_bot_kick kick_target
queue_managed_bot_kick-target w slot h =
    elim (Option-cases (resolve_client_by_slot w.engine (pos slot))) [
      | inl e ↦ absurd (ground arith)
      | inr (ptr, e) ↦
          let kick : PendingBotKick = record {
            slot = slot;
            client = ptr;
            user_id = (w.engine.client ptr).user_id;
            incarnation = get_incarnation w.manager slot;
          } in
          (kick, rw e (ground arith), refl, rw e (ground arith))
    ]

append_same :
    (xs : List PendingBotKick) (kick kick' : PendingBotKick)
    → xs ++ kick ∷ [] ≡ xs ++ kick' ∷ []
    → kick ≡ kick'
append_same xs kick kick' h = cc (append_cancel_left xs (kick ∷ []) (kick' ∷ []) h)

append_none : (xs : List PendingBotKick) (kick : PendingBotKick) → xs ≢ xs ++ kick ∷ []
append_none [] kick h = cc h
append_none (x ∷ xs) kick h = append_none xs kick (ap (drop 1) h)

-- What is queued names the slot, and its incarnation at that time.
queued_incarnation :
    (w : World) (slot : ℕ) (kick : PendingBotKick)
    → (queue_managed_bot_kick true w (some slot)).0.pending_bot_kicks
      ≡ w.pending_bot_kicks ++ kick ∷ []
    → (kick.slot ≡ slot) × (kick.incarnation ≡ get_incarnation w.manager slot)
unfolding queue_managed_bot_kick
queued_incarnation w slot kick h = elim (Bool-cases (not (is_managed w.manager slot) || false)) [
  | inl m ↦ absurd (append_none w.pending_bot_kicks kick (rw m at h))
  | inr m ↦ elim (Option-cases (resolve_client_by_slot w.engine (pos slot))) [
    | inl e ↦ absurd (append_none w.pending_bot_kicks kick (rw (m, e) at h))
    | inr (ptr, e) ↦
        elim (Bool-cases (is_hltv w.engine ptr || is_empty (get_slot_name w.manager slot))) [
          | inl k ↦ absurd (append_none w.pending_bot_kicks kick (rw (m, e, k) at h))
          | inr k ↦
              let same = append_same w.pending_bot_kicks _ kick (rw (m, e, k) at h) in
              (
                ap (λ (x : PendingBotKick). x.slot) (sym same),
                ap (λ (x : PendingBotKick). x.incarnation) (sym same),
              )
        ]
  ]
]

-- A kick that is queued for a bot does not reach a bot that is adopted into the slot after it. Let a
-- slot be adopted, let any calls of the manager follow, of which fewer than 2^64 - 2 adopt, and let
-- the slot be adopted again. A kick that was queued while the slot had the incarnation of the first of
-- these adoptions has no target in any state in which the slot has that of the second.
pub kick_target-stale :
    (w v : World) (m : Manager) (now slot later : ℕ) (p q : Persona) (calls : List ManagerCall)
    (kick : PendingBotKick)
    → adoptions calls < 2 ^ 64 - 2
    → get_incarnation w.manager slot ≡ get_incarnation (adopt_slot m now slot p) slot
    → (queue_managed_bot_kick true w (some slot)).0.pending_bot_kicks
      ≡ w.pending_bot_kicks ++ kick ∷ []
    → get_incarnation v.manager slot ≡ get_incarnation (readopted m now slot p calls later q) slot
    → kick_target v kick ≡ none
kick_target-stale w v m now slot later p q calls kick few owned queued anew =
    let (at, held) = queued_incarnation w slot kick queued in
    let given = held ∙ owned in
    let fresh = readopted-ne m now slot p calls later q few in
    elim (Option-cases (kick_target v kick)) [
      | inl nobody ↦ nobody
      | inr (name, e) ↦
          let present = (kick_target-current v kick name e).4 (λ z. fresh.0 (sym given ∙ z)) in
          absurd
            (fresh.1 (sym anew ∙ (ap (get_incarnation v.manager) (sym at) ∙ (present ∙ given))))
    ]
