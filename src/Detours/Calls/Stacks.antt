-- ===== src/Detours/Calls/Stacks.antt =====
-- The stacks of the detours, without the world around them.
use cs2_bot_hider.Base.{
  ℕ, ◌+◌, ◌-◌, ◌≡◌, refl, ap, ◌∙◌, Bool, true, false, List, [], ◌∷◌, map, none, arith,
  if◌then◌else◌,
}
use cs2_bot_hider.Detours.State.{Detours, no_detours, PopulationCall}
use cs2_bot_hider.Detours.Frames.{frames_of, with_frames, tail_of, top_flag}
use cs2_bot_hider.Detours.Calls.{Frame, same_call, added, flags_of, has_scope, Matches}

-- What of the detours the stacks are compared with.
abbrev pub bare : Detours → Detours
bare d = record d {
  identity_resolve_warned = λ _. false;
  population_redisguise = false;
  population_identity = none;
  packed_pawns = [];
}

-- The stacks of the population detours alone.
abbrev pub population_stacks : Detours → Detours
population_stacks d = record no_detours {
  quota_frames = d.quota_frames;
  human_team_frames = d.human_team_frames;
  join_team_frames = d.join_team_frames;
  teardown_frames = d.teardown_frames;
}

pub frames_of-same :
    (d d' : Detours) (call : PopulationCall)
    → population_stacks d' ≡ population_stacks d
    → frames_of d' call ≡ frames_of d call
frames_of-same d d' PopulationCall.quota same = ap (λ (x : Detours). x.quota_frames) same
frames_of-same d d' PopulationCall.human_team same = ap (λ (x : Detours). x.human_team_frames) same
frames_of-same d d' PopulationCall.join_team same = ap (λ (x : Detours). x.join_team_frames) same
frames_of-same d d' PopulationCall.teardown same = ap (λ (x : Detours). x.teardown_frames) same

pub Matches-bare : (d d' : Detours) (s : List Frame) → bare d' ≡ bare d → Matches d s → Matches d' s
Matches-bare d d' s same m = record {
  hook_depth = ap (λ (x : Detours). x.hook_depth) same ∙ m.hook_depth;
  pack_depth = ap (λ (x : Detours). x.pack_entities_depth) same ∙ m.pack_depth;
  population = λ call. frames_of-same d d' call (ap population_stacks same) ∙ m.population call;
  voters = ap (λ (x : Detours). map has_scope x.voter_frames) same ∙ m.voters;
  scripts = ap (λ (x : Detours). map has_scope x.script_is_bot_frames) same ∙ m.scripts;
  commands = ap (λ (x : Detours). x.population_command_frames) same ∙ m.commands;
}

-- A depth is changed on both sides.
pub hook_depth-bare :
    (d d' : Detours) (f : ℕ → ℕ)
    → bare d' ≡ bare d
    → bare (record d' { hook_depth = f d'.hook_depth })
      ≡ bare (record d { hook_depth = f d.hook_depth })
hook_depth-bare d d' f same = ap (λ (x : Detours). record x { hook_depth = f x.hook_depth }) same

pub top-flags : (b : Bool) (xs ys : List Bool) → xs ≡ b ∷ ys → top_flag xs ≡ b
top-flags b xs ys h = ap top_flag h

pub top-population :
    (d : Detours) (call : PopulationCall) (b : Bool) (s : List Frame)
    → Matches d (Frame.population call b ∷ s)
    → top_flag (frames_of d call) ≡ b
top-population d PopulationCall.quota b s m = ap top_flag (m.population PopulationCall.quota)
top-population d PopulationCall.human_team b s m =
    ap top_flag (m.population PopulationCall.human_team)
top-population d PopulationCall.join_team b s m =
    ap top_flag (m.population PopulationCall.join_team)
top-population d PopulationCall.teardown b s m = ap top_flag (m.population PopulationCall.teardown)

-- A stack changed by a function is changed at its own detour only.
frames_of-with_frames :
    (d : Detours) (call : PopulationCall) (f : List Bool → List Bool) (call' : PopulationCall)
    → frames_of (with_frames d call (f (frames_of d call))) call'
      ≡ (if same_call call call' then f (frames_of d call') else frames_of d call')
frames_of-with_frames d PopulationCall.quota f PopulationCall.quota = refl
frames_of-with_frames d PopulationCall.quota f PopulationCall.human_team = refl
frames_of-with_frames d PopulationCall.quota f PopulationCall.join_team = refl
frames_of-with_frames d PopulationCall.quota f PopulationCall.teardown = refl
frames_of-with_frames d PopulationCall.human_team f PopulationCall.quota = refl
frames_of-with_frames d PopulationCall.human_team f PopulationCall.human_team = refl
frames_of-with_frames d PopulationCall.human_team f PopulationCall.join_team = refl
frames_of-with_frames d PopulationCall.human_team f PopulationCall.teardown = refl
frames_of-with_frames d PopulationCall.join_team f PopulationCall.quota = refl
frames_of-with_frames d PopulationCall.join_team f PopulationCall.human_team = refl
frames_of-with_frames d PopulationCall.join_team f PopulationCall.join_team = refl
frames_of-with_frames d PopulationCall.join_team f PopulationCall.teardown = refl
frames_of-with_frames d PopulationCall.teardown f PopulationCall.quota = refl
frames_of-with_frames d PopulationCall.teardown f PopulationCall.human_team = refl
frames_of-with_frames d PopulationCall.teardown f PopulationCall.join_team = refl
frames_of-with_frames d PopulationCall.teardown f PopulationCall.teardown = refl

abbrev without_frames : Detours → Detours
without_frames d = record d {
  quota_frames = [];
  human_team_frames = [];
  join_team_frames = [];
  teardown_frames = [];
}

pub with_frames-rest :
    (d : Detours) (call : PopulationCall) (xs : List Bool)
    → without_frames (with_frames d call xs) ≡ without_frames d
with_frames-rest d PopulationCall.quota xs = refl
with_frames-rest d PopulationCall.human_team xs = refl
with_frames-rest d PopulationCall.join_team xs = refl
with_frames-rest d PopulationCall.teardown xs = refl

pushed_if : (c b : Bool) (xs ys : List Bool) → xs ≡ ys → (if c then b ∷ xs else xs) ≡ added c b ys
pushed_if true b xs ys h = ap (λ (zs : List Bool). b ∷ zs) h
pushed_if false b xs ys h = h

popped_if :
    (c b : Bool) (xs ys : List Bool) → xs ≡ added c b ys → (if c then tail_of xs else xs) ≡ ys
popped_if true b xs ys h = ap tail_of h
popped_if false b xs ys h = h

-- The Pre of a population detour pushes a frame.
pub push-Matches :
    (d : Detours) (call : PopulationCall) (b : Bool) (s : List Frame)
    → Matches d s
    → Matches
        (record (with_frames d call (b ∷ frames_of d call)) { hook_depth = d.hook_depth + 1 })
        (Frame.population call b ∷ s)
push-Matches d call b s m =
    let rest = with_frames-rest d call (b ∷ frames_of d call) in
    record {
      hook_depth = omega (arith, m.hook_depth);
      pack_depth = ap (λ (x : Detours). x.pack_entities_depth) rest ∙ m.pack_depth;
      population = λ call'.
          frames_of-same (with_frames d call (b ∷ frames_of d call))
            (record (with_frames d call (b ∷ frames_of d call)) { hook_depth = d.hook_depth + 1 })
            call' refl
          ∙ (frames_of-with_frames d call (λ xs. b ∷ xs) call'
              ∙ pushed_if (same_call call call') b (frames_of d call') (flags_of call' s)
                  (m.population call'));
      voters = ap (λ (x : Detours). map has_scope x.voter_frames) rest ∙ m.voters;
      scripts = ap (λ (x : Detours). map has_scope x.script_is_bot_frames) rest ∙ m.scripts;
      commands = ap (λ (x : Detours). x.population_command_frames) rest ∙ m.commands;
    }

-- Its Post pops the frame.
pub pop-Matches :
    (d : Detours) (call : PopulationCall) (b : Bool) (s : List Frame)
    → Matches d (Frame.population call b ∷ s)
    → Matches
        (record (with_frames d call (tail_of (frames_of d call))) {
          hook_depth = (with_frames d call (tail_of (frames_of d call))).hook_depth - 1;
        })
        s
pop-Matches d call b s m =
    let popped = with_frames d call (tail_of (frames_of d call)) in
    let rest = with_frames-rest d call (tail_of (frames_of d call)) in
    let depth : popped.hook_depth ≡ d.hook_depth = ap (λ (x : Detours). x.hook_depth) rest in
    record {
      hook_depth = omega (arith, depth, m.hook_depth);
      pack_depth = ap (λ (x : Detours). x.pack_entities_depth) rest ∙ m.pack_depth;
      population = λ call'.
          frames_of-same popped (record popped { hook_depth = popped.hook_depth - 1 }) call' refl
          ∙ (frames_of-with_frames d call tail_of call'
              ∙ popped_if (same_call call call') b (frames_of d call') (flags_of call' s)
                  (m.population call'));
      voters = ap (λ (x : Detours). map has_scope x.voter_frames) rest ∙ m.voters;
      scripts = ap (λ (x : Detours). map has_scope x.script_is_bot_frames) rest ∙ m.scripts;
      commands = ap (λ (x : Detours). x.population_command_frames) rest ∙ m.commands;
    }
