-- ===== src/Detours/RoundTrip.antt =====
-- A scope that is opened and closed leaves the engine's memory as it found it.
use cs2_bot_hider.Base.{ℕ, ◌≤◌, ◌≡◌, refl, ap, ◌∙◌, Bool, true, Option, none, some, arith, ==_iff}
use cs2_bot_hider.Snapshot.{max_slots}
use cs2_bot_hider.Engine.{Engine, EngineCall, Client, Entity}
use cs2_bot_hider.World.{World}
use cs2_bot_hider.Runtime.{names}
use cs2_bot_hider.Detours.{capture, restore}
use cs2_bot_hider.Detours.Skeleton.{
  IsQuiet, skeleton, disguised, flagged, change-hit, change-miss, slot_client, without_calls,
}
use cs2_bot_hider.Detours.Restored.{undisguised, unflagged, unflagged_at}
use cs2_bot_hider.Detours.FlagLaws.{
  disguised_once, undisguised-disguised, undisguised-kept, flagged_once, unflagged-flagged,
  unflagged-kept,
}
use cs2_bot_hider.Detours.Saved.{Turns, Steps, put_back}
use cs2_bot_hider.Detours.Loops.{
  opened, closed, controller_at, undisguised_at, opened-next, closed-next, closed-skeleton,
}

-- The flags are bytes and words.
pub record HasWidths (e : Engine) : Type 0 where
  pub bytes : (ptr : ℕ) → (e.client ptr).connection_flags ≤ 255
  pub words : (ptr : ℕ) → (e.entity ptr).flags ≤ 0xFFFF_FFFF

module _ (react : EngineCall → Engine → Engine) (mark : Bool) (quiet : IsQuiet react)
    (w : World) where
  -- The turns as one client sees them.
  abbrev client_turns : ℕ → Turns Client Client
  client_turns ptr = record {
    hits = λ n. names (slot_client w n) ptr;
    count = max_slots;
    before = λ n. (opened react mark quiet w n).0.engine.client ptr;
    saved = λ n. (opened react mark quiet w n).0.engine.client ptr;
    after = λ n. (closed react mark quiet w n).engine.client ptr;
    change = disguised;
    save = λ c. c;
    restore = undisguised;
  }

  undisguised_at-hit :
      (e : Engine) (o : Option ℕ) (ptr : ℕ) (c : Client)
      → names o ptr ≡ true
      → undisguised_at e o c ≡ undisguised (e.client ptr) c
  undisguised_at-hit e none ptr c h = absurd (ground arith)
  undisguised_at-hit e (some p) ptr c h = rw ((==_iff p ptr).0 h) refl

  unflagged_at-hit :
      (e : Engine) (o : Option ℕ) (q : ℕ) (x : Entity)
      → names o q ≡ true
      → unflagged_at e o x ≡ unflagged (e.entity q) x
  unflagged_at-hit e none q x h = absurd (ground arith)
  unflagged_at-hit e (some p) q x h = rw ((==_iff p q).0 h) refl

  client-Steps : (ptr : ℕ) → Steps (client_turns ptr)
  client-Steps ptr = record {
    changed = λ n h.
        ap (λ (e : Engine). e.client ptr) (opened-next react mark quiet w n)
        ∙ change-hit (opened react mark quiet w n).0.engine.client (slot_client w n) disguised ptr
            h;
    passed = λ n h.
        ap (λ (e : Engine). e.client ptr) (opened-next react mark quiet w n)
        ∙ change-miss (opened react mark quiet w n).0.engine.client (slot_client w n) disguised ptr
            h;
    noted = λ n lt h. refl;
    start = refl;
    restored = λ n lt h.
        ap (λ (e : Engine). e.client ptr)
          (closed-next react mark quiet w n lt (closed-skeleton react mark quiet w n (omega arith)))
        ∙ (change-hit (closed react mark quiet w n).engine.client (slot_client w n)
              (undisguised_at (opened react mark quiet w n).0.engine (slot_client w n)) ptr h
            ∙ undisguised_at-hit (opened react mark quiet w n).0.engine (slot_client w n) ptr
                ((closed react mark quiet w n).engine.client ptr) h);
    left = λ n lt h.
        ap (λ (e : Engine). e.client ptr)
          (closed-next react mark quiet w n lt (closed-skeleton react mark quiet w n (omega arith)))
        ∙ change-miss (closed react mark quiet w n).engine.client (slot_client w n)
            (undisguised_at (opened react mark quiet w n).0.engine (slot_client w n)) ptr h;
  }

  -- The turns as one entity sees them.
  abbrev entity_turns : ℕ → Turns Entity Entity
  entity_turns q = record {
    hits = λ n. names (controller_at react mark quiet w n) q;
    count = max_slots;
    before = λ n. (opened react mark quiet w n).0.engine.entity q;
    saved = λ n. (opened react mark quiet w n).0.engine.entity q;
    after = λ n. (closed react mark quiet w n).engine.entity q;
    change = flagged;
    save = λ x. x;
    restore = unflagged;
  }

  entity-Steps : (q : ℕ) → Steps (entity_turns q)
  entity-Steps q = record {
    changed = λ n h.
        ap (λ (e : Engine). e.entity q) (opened-next react mark quiet w n)
        ∙ change-hit (opened react mark quiet w n).0.engine.entity
            (controller_at react mark quiet w n) flagged q h;
    passed = λ n h.
        ap (λ (e : Engine). e.entity q) (opened-next react mark quiet w n)
        ∙ change-miss (opened react mark quiet w n).0.engine.entity
            (controller_at react mark quiet w n) flagged q h;
    noted = λ n lt h. refl;
    start = refl;
    restored = λ n lt h.
        ap (λ (e : Engine). e.entity q)
          (closed-next react mark quiet w n lt (closed-skeleton react mark quiet w n (omega arith)))
        ∙ (change-hit (closed react mark quiet w n).engine.entity
              (controller_at react mark quiet w n)
              (unflagged_at (opened react mark quiet w n).0.engine
                (controller_at react mark quiet w n))
              q h
            ∙ unflagged_at-hit (opened react mark quiet w n).0.engine
                (controller_at react mark quiet w n) q
                ((closed react mark quiet w n).engine.entity q) h);
    left = λ n lt h.
        ap (λ (e : Engine). e.entity q)
          (closed-next react mark quiet w n lt (closed-skeleton react mark quiet w n (omega arith)))
        ∙ change-miss (closed react mark quiet w n).engine.entity
            (controller_at react mark quiet w n)
            (unflagged_at (opened react mark quiet w n).0.engine
              (controller_at react mark quiet w n))
            q h;
  }

  module _ (widths : HasWidths w.engine) where
    client_back :
        (ptr : ℕ) → (closed react mark quiet w max_slots).engine.client ptr ≡ w.engine.client ptr
    client_back ptr = put_back (client_turns ptr) (client-Steps ptr) (record {
      once = disguised_once (w.engine.client ptr) (widths.bytes ptr);
      back = undisguised-disguised (w.engine.client ptr) (widths.bytes ptr);
      harmless = undisguised-kept (w.engine.client ptr) (widths.bytes ptr);
    })

    entity_back :
        (q : ℕ) → (closed react mark quiet w max_slots).engine.entity q ≡ w.engine.entity q
    entity_back q = put_back (entity_turns q) (entity-Steps q) (record {
      once = flagged_once (w.engine.entity q) (widths.words q);
      back = unflagged-flagged (w.engine.entity q) (widths.words q);
      harmless = unflagged-kept (w.engine.entity q) (widths.words q);
    })

    closed-engine :
        without_calls (closed react mark quiet w max_slots).engine ≡ without_calls w.engine
    closed-engine =
        λ i. record (skel i) { client = λ ptr. client_back ptr i; entity = λ q. entity_back q i }
      where
        skel : skeleton (closed react mark quiet w max_slots).engine ≡ skeleton w.engine
        skel = closed-skeleton react mark quiet w max_slots (omega arith)

-- Restoring what a scope captured gives the engine's memory back as it was, for every set of managed
-- slots, also where slots share a client or a controller: it differs at most in the list of the
-- calls made. Flags are bytes and 32-bit words, and the engine reacts to the calls by changing nothing.
pub restore-capture :
    (react : EngineCall → Engine → Engine) (mark : Bool) (w : World)
    → IsQuiet react
    → HasWidths w.engine
    → (let captured = capture react mark w in
        without_calls (restore react mark captured.1 captured.0).engine ≡ without_calls w.engine)
unfolding capture restore
restore-capture react mark w quiet widths = closed-engine react mark quiet w widths
