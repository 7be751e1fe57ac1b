-- ===== src/Detours/Calls/Scopes.antt =====
-- The detours that open a scope of their own, and the packing of entities.
use cs2_bot_hider.Base.{
  ◌+◌, ◌-◌, ◌≡◌, refl, ap, ◌∙◌, Bool, true, false, ◌&&◌, List, [], ◌∷◌, map, Option, none, some,
  arith, ◌==◌, if_both, Bool-cases, inl, inr,
}
use cs2_bot_hider.Engine.{Engine, EngineCall}
use cs2_bot_hider.World.{World, is_disguise_enabled}
use cs2_bot_hider.Detours.State.{Snapshots}
use cs2_bot_hider.Detours.Still.{still, capture-still, restore-still}
use cs2_bot_hider.Detours.Frames.{
  with_detours, with_hook_depth, tail_of, top_scope, open_scope, close_scope, voters_pre,
  voters_post, script_is_bot_pre, script_is_bot_post, pack_pre, pack_post,
}
use cs2_bot_hider.Detours.Calls.{Frame, has_scope, Matches, Represents}
use cs2_bot_hider.Detours.Calls.Population.{InTransactions-same}
use cs2_bot_hider.Detours.Calls.Stacks.{frames_of-same, bare, Matches-bare, hook_depth-bare}

map-tail :
    (xs : List (Option Snapshots)) (b : Bool) (bs : List Bool)
    → map has_scope xs ≡ b ∷ bs
    → map has_scope (tail_of xs) ≡ bs
map-tail [] b bs h = absurd (cc h)
map-tail (x ∷ xs) b bs h = ap tail_of h

module _ (react : EngineCall → Engine → Engine) where
  open_scope-still :
      (mark : Bool) (w : World) → still w.engine (open_scope react mark w).0 ≡ still w.engine w
  unfolding open_scope
  open_scope-still mark w =
      if_both (λ (o : World × Option Snapshots). still w.engine o.0 ≡ still w.engine w)
        (is_disguise_enabled w) (capture-still react w.engine mark w) refl

  open_scope-flag :
      (mark : Bool) (w : World) → has_scope (open_scope react mark w).1 ≡ is_disguise_enabled w
  unfolding open_scope
  open_scope-flag mark w = elim (Bool-cases (is_disguise_enabled w)) [
    | inl h ↦ rw h refl
    | inr h ↦ rw h refl
  ]

  close_scope-still :
      (mark : Bool) (o : Option Snapshots) (w : World)
      → still w.engine (close_scope react mark o w) ≡ still w.engine w
  unfolding close_scope
  close_scope-still mark none w = refl
  close_scope-still mark (some s) w = restore-still react w.engine mark s w

  pub voters_pre-Represents :
      (w : World) (s : List Frame)
      → Represents w s
      → Represents (voters_pre react w) (Frame.voters (is_disguise_enabled w) ∷ s)
  unfolding voters_pre
  voters_pre-Represents w s r =
      let deeper = with_hook_depth w (w.detours.hook_depth + 1) in
      let opened = open_scope react true deeper in
      let same = open_scope-still true deeper in
      let flag : has_scope opened.1 ≡ is_disguise_enabled w = open_scope-flag true deeper in
      record {
        frames =
            Matches-bare
              (record deeper.detours { voter_frames = opened.1 ∷ deeper.detours.voter_frames })
              (record opened.0.detours { voter_frames = opened.1 ∷ opened.0.detours.voter_frames })
              (Frame.voters (is_disguise_enabled w) ∷ s)
              (ap
                (λ (v : World).
                  bare (record v.detours { voter_frames = opened.1 ∷ v.detours.voter_frames }))
                same)
              (record {
                hook_depth = omega (arith, r.frames.hook_depth);
                pack_depth = r.frames.pack_depth;
                population = λ call.
                    frames_of-same w.detours
                      (record deeper.detours {
                        voter_frames = opened.1 ∷ deeper.detours.voter_frames;
                      })
                      call refl
                    ∙ r.frames.population call;
                voters =
                    rw flag (ap (λ (bs : List Bool). is_disguise_enabled w ∷ bs) r.frames.voters);
                scripts = r.frames.scripts;
                commands = r.frames.commands;
              });
        shared =
            InTransactions-same w _ _ (ap (λ (v : World). v.population_depth) same)
              (ap (λ (v : World). has_scope v.detours.population_identity) same) r.shared;
      }

  pub voters_post-Represents :
      (w : World) (b : Bool) (s : List Frame)
      → Represents w (Frame.voters b ∷ s)
      → Represents (voters_post react w) s
  unfolding voters_post
  voters_post-Represents w b s r =
      let d = w.detours in
      let popped = with_detours w (record d { voter_frames = tail_of d.voter_frames }) in
      let closed = close_scope react true (top_scope d.voter_frames) popped in
      let same = close_scope-still true (top_scope d.voter_frames) popped in
      record {
        frames =
            Matches-bare (record popped.detours { hook_depth = popped.detours.hook_depth - 1 })
              (record closed.detours { hook_depth = closed.detours.hook_depth - 1 }) s
              (hook_depth-bare popped.detours closed.detours (λ n. n - 1)
                (ap (λ (v : World). bare v.detours) same))
              (record {
                hook_depth = omega (arith, r.frames.hook_depth);
                pack_depth = r.frames.pack_depth;
                population = λ call.
                    frames_of-same d
                      (record popped.detours { hook_depth = popped.detours.hook_depth - 1 }) call
                      refl
                    ∙ r.frames.population call;
                voters = map-tail d.voter_frames b _ r.frames.voters;
                scripts = r.frames.scripts;
                commands = r.frames.commands;
              });
        shared =
            InTransactions-same w _ _ (ap (λ (v : World). v.population_depth) same)
              (ap (λ (v : World). has_scope v.detours.population_identity) same) r.shared;
      }

  pub script_is_bot_pre-Represents :
      (w : World) (s : List Frame)
      → Represents w s
      → Represents (script_is_bot_pre react w) (Frame.script_is_bot (is_disguise_enabled w) ∷ s)
  unfolding script_is_bot_pre
  script_is_bot_pre-Represents w s r =
      let deeper = with_hook_depth w (w.detours.hook_depth + 1) in
      let opened = open_scope react false deeper in
      let same = open_scope-still false deeper in
      let flag : has_scope opened.1 ≡ is_disguise_enabled w = open_scope-flag false deeper in
      record {
        frames =
            Matches-bare
              (record deeper.detours {
                script_is_bot_frames = opened.1 ∷ deeper.detours.script_is_bot_frames;
              })
              (record opened.0.detours {
                script_is_bot_frames = opened.1 ∷ opened.0.detours.script_is_bot_frames;
              })
              (Frame.script_is_bot (is_disguise_enabled w) ∷ s)
              (ap
                (λ (v : World). bare (record v.detours {
                  script_is_bot_frames = opened.1 ∷ v.detours.script_is_bot_frames;
                }))
                same)
              (record {
                hook_depth = omega (arith, r.frames.hook_depth);
                pack_depth = r.frames.pack_depth;
                population = λ call.
                    frames_of-same w.detours
                      (record deeper.detours {
                        script_is_bot_frames = opened.1 ∷ deeper.detours.script_is_bot_frames;
                      })
                      call refl
                    ∙ r.frames.population call;
                scripts =
                    rw flag (ap (λ (bs : List Bool). is_disguise_enabled w ∷ bs) r.frames.scripts);
                voters = r.frames.voters;
                commands = r.frames.commands;
              });
        shared =
            InTransactions-same w _ _ (ap (λ (v : World). v.population_depth) same)
              (ap (λ (v : World). has_scope v.detours.population_identity) same) r.shared;
      }

  pub script_is_bot_post-Represents :
      (w : World) (b : Bool) (s : List Frame)
      → Represents w (Frame.script_is_bot b ∷ s)
      → Represents (script_is_bot_post react w) s
  unfolding script_is_bot_post
  script_is_bot_post-Represents w b s r =
      let d = w.detours in
      let popped =
        with_detours w (record d { script_is_bot_frames = tail_of d.script_is_bot_frames }) in
      let closed = close_scope react false (top_scope d.script_is_bot_frames) popped in
      let same = close_scope-still false (top_scope d.script_is_bot_frames) popped in
      record {
        frames =
            Matches-bare (record popped.detours { hook_depth = popped.detours.hook_depth - 1 })
              (record closed.detours { hook_depth = closed.detours.hook_depth - 1 }) s
              (hook_depth-bare popped.detours closed.detours (λ n. n - 1)
                (ap (λ (v : World). bare v.detours) same))
              (record {
                hook_depth = omega (arith, r.frames.hook_depth);
                pack_depth = r.frames.pack_depth;
                population = λ call.
                    frames_of-same d
                      (record popped.detours { hook_depth = popped.detours.hook_depth - 1 }) call
                      refl
                    ∙ r.frames.population call;
                scripts = map-tail d.script_is_bot_frames b _ r.frames.scripts;
                voters = r.frames.voters;
                commands = r.frames.commands;
              });
        shared =
            InTransactions-same w _ _ (ap (λ (v : World). v.population_depth) same)
              (ap (λ (v : World). has_scope v.detours.population_identity) same) r.shared;
      }

  pub pack_pre-Represents :
      (w : World) (s : List Frame)
      → Represents w s
      → Represents (pack_pre react w) (Frame.packing ∷ s)
  unfolding pack_pre
  pack_pre-Represents w s r =
      let d = w.detours in
      let deeper = with_detours w (record d {
        hook_depth = d.hook_depth + 1;
        pack_entities_depth = d.pack_entities_depth + 1;
      }) in
      let m : Matches deeper.detours (Frame.packing ∷ s) = record {
        hook_depth = omega (arith, r.frames.hook_depth);
        pack_depth = omega (arith, r.frames.pack_depth);
        population = λ call. frames_of-same d deeper.detours call refl ∙ r.frames.population call;
        voters = r.frames.voters;
        scripts = r.frames.scripts;
        commands = r.frames.commands;
      } in
      if_both (λ (v : World). Represents v (Frame.packing ∷ s))
        (d.pack_entities_depth == 0 && is_disguise_enabled w)
        (record {
          frames = Matches-bare deeper.detours _ (Frame.packing ∷ s) refl m;
          shared = InTransactions-same w _ _ refl refl r.shared;
        })
        (record { frames = m; shared = InTransactions-same w _ _ refl refl r.shared })

  pub pack_post-Represents :
      (w : World) (s : List Frame)
      → Represents w (Frame.packing ∷ s)
      → Represents (pack_post react w) s
  unfolding pack_post
  pack_post-Represents w s r =
      let d = w.detours in
      let shallower = with_detours w (record d {
        hook_depth = d.hook_depth - 1;
        pack_entities_depth = d.pack_entities_depth - 1;
      }) in
      let m : Matches shallower.detours s = record {
        hook_depth = omega (arith, r.frames.hook_depth);
        pack_depth = omega (arith, r.frames.pack_depth);
        population =
            λ call. frames_of-same d shallower.detours call refl ∙ r.frames.population call;
        voters = r.frames.voters;
        scripts = r.frames.scripts;
        commands = r.frames.commands;
      } in
      if_both (λ (v : World). Represents v s) (d.pack_entities_depth - 1 == 0)
        (record {
          frames = Matches-bare shallower.detours _ s refl m;
          shared = InTransactions-same w _ _ refl refl r.shared;
        })
        (record { frames = m; shared = InTransactions-same w _ _ refl refl r.shared })
