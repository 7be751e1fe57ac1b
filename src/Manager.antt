-- ===== src/Manager.antt =====
-- src/features/identity/fake_client_manager.h and src/features/identity/fake_client_manager.cpp:
-- the state of the managed slots. `std::array<ManagedSlot, 64>` is a function of the slot; callers
-- test a slot's range before they use it. The mutex is left out: slots are changed on the game
-- thread only. `g_bridgeThread` is thread-local, so a thread is named where it is read.
pub mod Slots
pub mod Pings
pub mod Calls
pub mod Kept
use cs2_bot_hider.Base.{
  ℕ, zero, suc, ◌+◌, ◌-◌, ◌%◌, ◌^◌, Bool, true, false, ◌||◌, ◌&&◌, not, List, [], Option, none,
  some, ltb, ◌==◌, if◌then◌else◌, set, take, update, replicate,
}
use cs2_bot_hider.Random.{u64, next_rand}
use cs2_bot_hider.Text.{c_string, copy_text}
use cs2_bot_hider.Ping.{
  PingDisplay, PingJitter, new_jitter, next_sample, record_sample, maybe_produce, reset,
}
use cs2_bot_hider.Snapshot.{
  SlotSnapshot, empty_snapshot, Signature, empty_signature, max_slots, name_len, crosshair_len,
  clan_tag_len, max_sigs,
}

pub record AvatarRequest : Type 0 where
  pub sequence : ℕ
  pub len : ℕ
  pub incarnation : ℕ
  pub bytes : List ℕ

abbrev pub empty_request : AvatarRequest
empty_request = record { sequence = 0; len = 0; incarnation = 0; bytes = [] }

pub record ManagedSlot : Type 0 where
  pub snapshot : SlotSnapshot
  pub avatar : AvatarRequest
  pub jitter : PingJitter
  pub display : PingDisplay

pub record Manager : Type 0 where
  pub slots : ℕ → ManagedSlot
  pub signatures : List Signature
  pub rng_state : ℕ
  pub next_incarnation : ℕ
  pub signature_count : ℕ
  pub ready : Bool
  pub attached : Bool
  pub fake_ping_enabled : Bool
  pub fake_ping_minimum : ℕ
  pub fake_ping_maximum : ℕ
  pub bridge_thread : ℕ → Bool

-- A 32-bit counter's next value.
abbrev pub next_u32 : ℕ → ℕ
next_u32 n = (n + 1) % 2 ^ 32

-- `now` is the clock that seeds the jitter of a default slot.
abbrev pub empty_slot : ℕ → ManagedSlot
empty_slot now = record {
  snapshot = empty_snapshot;
  avatar = empty_request;
  jitter = new_jitter now 50 1 999;
  display = reset;
}

unfoldable pub configure_fake_ping : Manager → Bool → ℕ → ℕ → Manager
configure_fake_ping m enabled minimum maximum = record m {
  fake_ping_enabled = enabled;
  fake_ping_minimum = minimum;
  fake_ping_maximum = maximum;
}

-- `now` is the reading of the clock, on the thread that serves the bridge from now on.
unfoldable pub init : Manager → ℕ → ℕ → Manager
init m thread now = record m {
  bridge_thread = update m.bridge_thread thread true;
  slots = λ _. empty_slot now;
  signatures = replicate max_sigs empty_signature;
  signature_count = 0;
  rng_state = u64 now;
  next_incarnation = u64 now;
  attached = false;
  ready = true;
}

unfoldable pub begin_shutdown : Manager → Manager
begin_shutdown m = record m { ready = false }

unfoldable pub shutdown : Manager → ℕ → Manager
shutdown m now = record m { ready = false; slots = λ _. empty_slot now }

unfoldable pub is_ready : Manager → ℕ → Bool
is_ready m thread = m.bridge_thread thread && m.ready

unfoldable pub attach : Manager → ℕ → Manager × Bool
unfolding is_ready
attach m thread =
    if not (is_ready m thread) || m.attached
    then (m, false)
    else (record m { attached = true }, true)

unfoldable pub detach : Manager → Manager
detach m = record m { attached = false }

-- One slot's state is given anew, and the others stay.
abbrev pub with_slot : Manager → ℕ → ManagedSlot → Manager
with_slot m slot s = record m { slots = update m.slots slot s }

abbrev pub with_snapshot : Manager → ℕ → SlotSnapshot → Manager
with_snapshot m slot snapshot = with_slot m slot (record (m.slots slot) { snapshot = snapshot })

unfoldable pub cleared : ManagedSlot → ManagedSlot
cleared s = record s {
  snapshot = empty_snapshot;
  display = reset;
  avatar = record empty_request { sequence = next_u32 s.avatar.sequence };
}

unfoldable pub clear_slot : Manager → ℕ → Manager
unfolding cleared
clear_slot m slot = with_slot m slot (cleared (m.slots slot))

-- `if (++m_nextIncarnation == 0) ++m_nextIncarnation;`
unfoldable pub advance_incarnation : ℕ → ℕ
advance_incarnation n = let next = u64 (n + 1) in if next == 0 then 1 else next

-- The new generator state and the baseline that `AdoptSlot` draws. `range` is
-- `maximum - minimum + 1`; the configuration keeps `minimum ≤ maximum`.
unfoldable pub draw_baseline : Manager → ℕ × ℕ
draw_baseline m =
    let range = m.fake_ping_maximum - m.fake_ping_minimum + 1 in
    let drawn = next_rand m.rng_state in (drawn.0, m.fake_ping_minimum + drawn.1 % range)

-- What an adoption is given of the bot.
pub record Persona : Type 0 where
  pub name : Option (List ℕ)
  pub steam_id64 : ℕ
  pub crosshair_code : Option (List ℕ)
  pub scoreboard_flair : ℕ
  pub clan_tag : Option (List ℕ)
  pub clan_group_id : ℕ

-- The slot that `AdoptSlot` fills in, from the cleared one.
unfoldable pub adopted : Manager → ℕ → ManagedSlot → Persona → ManagedSlot
adopted m now s p =
    let baseline = (draw_baseline m).1 in
    record s {
      jitter = new_jitter now baseline m.fake_ping_minimum m.fake_ping_maximum;
      snapshot = record s.snapshot {
        steam_id = p.steam_id64;
        base_steam_id = p.steam_id64;
        incarnation = advance_incarnation m.next_incarnation;
        managed = 1;
        ping = if m.fake_ping_enabled then baseline else 0;
        scoreboard_flair = p.scoreboard_flair;
        clan_group_id = p.clan_group_id;
        name = copy_text name_len p.name;
        base_name = copy_text name_len p.name;
        crosshair = copy_text crosshair_len p.crosshair_code;
        clan_tag = copy_text clan_tag_len p.clan_tag;
      };
    }

unfoldable pub adopt_slot : Manager → ℕ → ℕ → Persona → Manager
adopt_slot m now slot p =
    let c = clear_slot m slot in
    record c {
      rng_state = (draw_baseline c).0;
      next_incarnation = advance_incarnation c.next_incarnation;
      slots = update c.slots slot (adopted c now (c.slots slot) p);
    }

unfoldable pub release_slot : Manager → ℕ → Manager
unfolding clear_slot
release_slot m slot = clear_slot m slot

-- The loop of `ReleaseAll`, over the slots below `n`.
unfoldable pub release_below : ℕ → Manager → Manager
unfolding clear_slot
release_below zero m = m
release_below (suc n) m = clear_slot (release_below n m) n

unfoldable pub release_all : Manager → Manager
unfolding release_below
release_all m = release_below max_slots m

unfoldable pub is_managed : Manager → ℕ → Bool
is_managed m slot = not ((m.slots slot).snapshot.managed == 0)

-- `if (produced >= 0) s.snapshot.ping = produced;`
abbrev pub show_ping : ManagedSlot → Option ℕ → ManagedSlot
show_ping s none = s
show_ping s (some produced) = record s { snapshot = record s.snapshot { ping = produced } }

-- The turn of `OnTick` for one slot.
unfoldable pub tick_slot : Bool → ManagedSlot → ManagedSlot
tick_slot enabled s =
    let sampled = next_sample s.jitter in
    let produced = maybe_produce (record_sample s.display sampled.1) in
    if s.snapshot.managed == 0 || not enabled
    then s
    else show_ping (record s { jitter = sampled.0; display = produced.0 }) produced.1

unfoldable pub on_tick : Manager → Manager
unfolding tick_slot
on_tick m = record m {
  slots = λ slot.
      if ltb slot max_slots then tick_slot m.fake_ping_enabled (m.slots slot) else m.slots slot;
}

unfoldable pub get_synthetic_sid : Manager → ℕ → ℕ
get_synthetic_sid m slot = (m.slots slot).snapshot.steam_id

unfoldable pub set_synthetic_sid : Manager → ℕ → ℕ → Manager
set_synthetic_sid m slot sid =
    with_snapshot m slot (record (m.slots slot).snapshot { steam_id = sid })

unfoldable pub get_slot_name : Manager → ℕ → List ℕ
get_slot_name m slot = c_string (m.slots slot).snapshot.name

unfoldable pub set_slot_name : Manager → ℕ → Option (List ℕ) → Manager
set_slot_name m slot name =
    with_snapshot m slot (record (m.slots slot).snapshot { name = copy_text name_len name })

unfoldable pub get_incarnation : Manager → ℕ → ℕ
get_incarnation m slot = (m.slots slot).snapshot.incarnation

unfoldable pub update_crosshair : Manager → ℕ → Option (List ℕ) → Manager
update_crosshair m slot code =
    with_snapshot m slot
      (record (m.slots slot).snapshot { crosshair = copy_text crosshair_len code })

unfoldable pub update_scoreboard_flair : Manager → ℕ → ℕ → Manager
update_scoreboard_flair m slot flair =
    with_snapshot m slot (record (m.slots slot).snapshot { scoreboard_flair = flair })

abbrev pub published : SlotSnapshot → Bool → ℕ → SlotSnapshot
published state applied steam_id = record state {
  avatar_applied = if applied then 1 else 0;
  avatar_steam_id = if applied then steam_id else 0;
}

unfoldable pub publish_avatar_state : Manager → ℕ → Bool → ℕ → Manager
publish_avatar_state m slot applied steam_id =
    with_snapshot m slot (published (m.slots slot).snapshot applied steam_id)

unfoldable pub set_avatar_request : Manager → ℕ → List ℕ → ℕ → Manager
unfolding publish_avatar_state
set_avatar_request m slot bytes len =
    let s = m.slots slot in
    let request : AvatarRequest = record {
      sequence = next_u32 s.avatar.sequence;
      len = len;
      incarnation = s.snapshot.incarnation;
      bytes = if len == 0 then [] else take len bytes;
    } in
    let asked =
      with_slot m slot
        (record s { avatar = request; snapshot = record s.snapshot { avatar_length = len } }) in
    publish_avatar_state asked slot false 0

unfoldable pub publish_signature : Manager → List ℕ → ℕ → Manager
publish_signature m name address = record m {
  signature_count = m.signature_count + 1;
  signatures =
      set m.signatures m.signature_count
        (record { name = copy_text name_len (some name); address = address });
}
