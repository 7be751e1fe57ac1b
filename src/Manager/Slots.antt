-- ===== src/Manager/Slots.antt =====
-- Adoption and release of a slot.
use cs2_bot_hider.Ping.{reset}
use cs2_bot_hider.Base.{
  [], ℕ, zero, suc, ◌+◌, ◌-◌, ◌%◌, ◌^◌, ◌<◌, ◌≡◌, ◌≢◌, refl, ap, sym, subst, ◌∙◌, List, some, arith,
  take, update, ltb, if◌then◌else◌, ==_refl,
}
use cs2_bot_hider.Text.{NoNul, c_string, c_string-copy_text}
use cs2_bot_hider.Snapshot.{SlotSnapshot, max_slots}
use cs2_bot_hider.Manager.{
  Manager, ManagedSlot, cleared, clear_slot, advance_incarnation, Persona, adopted, draw_baseline,
  adopt_slot, release_below, release_all,
}

pub update_self {ℓ} : {A : Type ℓ} (f : ℕ → A) (i : ℕ) (v : A) → update f i v i ≡ v
update_self f i v = rw (==_refl i)

pub update_ne {ℓ} : {A : Type ℓ} (f : ℕ → A) (i j : ℕ) (v : A) → i ≢ j → update f i v j ≡ f j
update_ne f i j v h = ground arith

pub clear_slot_self :
    (m : Manager) (slot : ℕ) → (clear_slot m slot).slots slot ≡ cleared (m.slots slot)
unfolding clear_slot
clear_slot_self m slot = update_self m.slots slot (cleared (m.slots slot))

pub adopt_slot_self :
    (m : Manager) (now slot : ℕ) (p : Persona)
    → (adopt_slot m now slot p).slots slot ≡ adopted m now (cleared (m.slots slot)) p
unfolding adopt_slot adopted draw_baseline clear_slot
adopt_slot_self m now slot p =
    update_self (clear_slot m slot).slots slot
      (adopted (clear_slot m slot) now ((clear_slot m slot).slots slot) p)
    ∙ ap (λ (s : ManagedSlot). adopted m now s p) (clear_slot_self m slot)

abbrev pub persona : List ℕ → List ℕ → List ℕ → ℕ → ℕ → ℕ → Persona
persona name code tag steam_id flair group = record {
  name = some name;
  steam_id64 = steam_id;
  crosshair_code = some code;
  scoreboard_flair = flair;
  clan_tag = some tag;
  clan_group_id = group;
}

-- The snapshot shows the persona, each text cut to what its buffer holds before the final NUL, with
-- the given ping and incarnation; no avatar is shown, under no SteamID, and none is asked for.
pub record Shows (s : SlotSnapshot) (p : Persona) (called code tag : List ℕ)
    (ping_of incarnation_of : ℕ) : Type 0 where
  pub managed : s.managed ≡ 1
  pub steam_id : s.steam_id ≡ p.steam_id64
  pub base_steam_id : s.base_steam_id ≡ p.steam_id64
  pub name : c_string s.name ≡ take 31 called
  pub base_name : c_string s.base_name ≡ take 31 called
  pub crosshair : c_string s.crosshair ≡ take 63 code
  pub clan_tag : c_string s.clan_tag ≡ take 127 tag
  pub flair : s.scoreboard_flair ≡ p.scoreboard_flair
  pub group : s.clan_group_id ≡ p.clan_group_id
  pub ping : s.ping ≡ ping_of
  pub incarnation : s.incarnation ≡ incarnation_of
  pub no_avatar : s.avatar_applied ≡ 0
  pub no_avatar_owner : s.avatar_steam_id ≡ 0
  pub no_request : s.avatar_length ≡ 0

-- What a slot is after its adoption, besides the state of its jitter: its snapshot, an avatar
-- request without bytes that is numbered after the last one, and a fresh ping display.
pub record IsTaken (m : Manager) (s t : ManagedSlot) (p : Persona) (called code tag : List ℕ)
    : Type 0 where
  pub shows :
      Shows t.snapshot p called code tag
        (if m.fake_ping_enabled then (draw_baseline m).1 else 0)
        (advance_incarnation m.next_incarnation)
  pub request_length : t.avatar.len ≡ 0
  pub request_bytes : t.avatar.bytes ≡ []
  pub request_owner : t.avatar.incarnation ≡ 0
  pub request_number : t.avatar.sequence ≡ (s.avatar.sequence + 1) % 2 ^ 32
  pub display : t.display ≡ reset

adopted-IsTaken :
    (m : Manager) (now : ℕ) (s : ManagedSlot) (steam_id flair group : ℕ) (name code tag : List ℕ)
    → NoNul name
    → NoNul code
    → NoNul tag
    → let p = persona name code tag steam_id flair group in
      IsTaken m s (adopted m now (cleared s) p) p name code tag
unfolding adopted cleared
adopted-IsTaken m now s steam_id flair group name code tag hn hc ht = record {
  shows = record {
    managed = refl;
    steam_id = refl;
    base_steam_id = refl;
    name = c_string-copy_text 32 name hn;
    base_name = c_string-copy_text 32 name hn;
    crosshair = c_string-copy_text 64 code hc;
    clan_tag = c_string-copy_text 128 tag ht;
    flair = refl;
    group = refl;
    ping = refl;
    incarnation = refl;
    no_avatar = refl;
    no_avatar_owner = refl;
    no_request = refl;
  };
  request_length = refl;
  request_bytes = refl;
  request_owner = refl;
  request_number = refl;
  display = refl;
}

-- For texts without NUL bytes: right after an adoption, every field that the bridge reads of the slot
-- is the persona's, cut only where a text does not fit its buffer, or given anew: the ping is the
-- drawn baseline (0 if fake pings are off), the incarnation is the counter's next, no avatar is
-- shown or asked for. The slot's last owner leaves no avatar request and no ping sample; only the
-- number of the avatar request goes on from the last one.
pub adopt_slot-IsTaken :
    (m : Manager) (now slot steam_id flair group : ℕ) (name code tag : List ℕ)
    → NoNul name
    → NoNul code
    → NoNul tag
    → let p = persona name code tag steam_id flair group in
      IsTaken m (m.slots slot) ((adopt_slot m now slot p).slots slot) p name code tag
adopt_slot-IsTaken m now slot steam_id flair group name code tag hn hc ht =
    let p = persona name code tag steam_id flair group in
    subst (λ (t : ManagedSlot). IsTaken m (m.slots slot) t p name code tag)
      (sym (adopt_slot_self m now slot p))
      (adopted-IsTaken m now (m.slots slot) steam_id flair group name code tag hn hc ht)

-- An adoption takes the next incarnation of the counter.
pub adopt_slot-incarnation :
    (m : Manager) (now slot : ℕ) (p : Persona)
    → (((adopt_slot m now slot p).slots slot).snapshot.incarnation
        ≡ advance_incarnation m.next_incarnation)
      × ((adopt_slot m now slot p).next_incarnation ≡ advance_incarnation m.next_incarnation)
unfolding adopt_slot adopted clear_slot
adopt_slot-incarnation m now slot p =
    (ap (λ (s : ManagedSlot). s.snapshot.incarnation) (adopt_slot_self m now slot p), refl)

-- Adoption leaves every other slot as it is.
pub adopt_slot-ne :
    (m : Manager) (now slot j : ℕ) (p : Persona)
    → slot ≢ j
    → (adopt_slot m now slot p).slots j ≡ m.slots j
unfolding adopt_slot clear_slot
adopt_slot-ne m now slot j p h = ground arith

-- `k` steps of the incarnation counter.
unfoldable pub advance_by : ℕ → ℕ → ℕ
advance_by zero n = n
advance_by (suc k) n = advance_incarnation (advance_by k n)

advance_by-lem : (k n : ℕ) → 0 < n → n < 2 ^ 64 → advance_by k n ≡ (n - 1 + k) % (2 ^ 64 - 1) + 1
unfolding advance_by advance_incarnation
advance_by-lem zero n h l = omega arith
advance_by-lem (suc k) n h l = ground (arith, advance_by-lem k n h l)

-- From a nonzero 64-bit value, after 1 to 2^64 - 2 steps the incarnation counter has another
-- value, which is not 0 and fits 64 bits.
pub advance_by-ne :
    (k n : ℕ)
    → 0 < n
    → n < 2 ^ 64
    → 0 < k
    → k < 2 ^ 64 - 1
    → (advance_by k n ≢ n) × (advance_by k n ≢ 0) × (advance_by k n < 2 ^ 64)
advance_by-ne k n h l p q =
    let e = advance_by-lem k n h l in
    ((λ same. omega (arith, e, same)), (λ none. omega (arith, e, none)), omega (arith, e))

release_below-slots :
    (n : ℕ) (m : Manager) (j : ℕ)
    → (release_below n m).slots j ≡ (if ltb j n then cleared (m.slots j) else m.slots j)
unfolding release_below
release_below-slots zero m j = ground arith
release_below-slots (suc n) m j = ground (arith, release_below-slots n m j)

-- `ReleaseAll` clears each of the slots exactly once, and touches nothing beyond them.
pub release_all-slots :
    (m : Manager) (j : ℕ)
    → (release_all m).slots j ≡ (if ltb j max_slots then cleared (m.slots j) else m.slots j)
unfolding release_all
release_all-slots m j = release_below-slots max_slots m j
