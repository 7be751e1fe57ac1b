-- ===== src/Detours/Skeleton.antt =====
-- What the scopes of src/features/identity/identity_hooks.cpp do not write: the skeleton of the
-- engine's memory. The clients and controllers that a scope finds depend on the skeleton only.
use cs2_bot_hider.Base.{
  ℕ, ◌≡◌, refl, ap, Bool, true, false, [], Option, none, some, arith, bit_or, ◌==◌, ==_iff,
  if◌then◌else◌, update, Bool-cases, inl, inr, if_both,
}
use cs2_bot_hider.Base.Int.{ℤ, pos}
use cs2_bot_hider.Engine.{
  Engine, EngineCall, Client, Entity, with_entity, clear_byte, entity_flag_fake_client,
  resolve_client_by_slot, resolve_entity_instance, is_entity_being_deleted, call_engine,
  mark_entity_field_changed,
}
use cs2_bot_hider.Manager.{is_managed}
use cs2_bot_hider.World.{World}
use cs2_bot_hider.Runtime.{client_controller, names, write_entity_flags}
use cs2_bot_hider.Detours.{write_flags}

abbrev bare_client : Client → Client
bare_client c = record c { connection_flags = 0; fake_player = 0 }

abbrev bare_entity : Entity → Entity
bare_entity x = record x { flags = 0 }

abbrev pub skeleton : Engine → Engine
skeleton e = record e {
  client = λ ptr. bare_client (e.client ptr);
  entity = λ ptr. bare_entity (e.entity ptr);
  calls = [];
}

-- A client's and an entity's flags while a scope is open.
abbrev pub disguised : Client → Client
disguised c = record c {
  connection_flags = bit_or (clear_byte c.connection_flags 0x01) 0x08;
  fake_player = 1;
}

abbrev pub flagged : Entity → Entity
flagged x = record x { flags = bit_or x.flags entity_flag_fake_client }

-- A function changed at one place, if there is one.
abbrev pub change {ℓ} : {A : Type ℓ} → (ℕ → A) → Option ℕ → (A → A) → ℕ → A
change f none g = f
change f (some i) g = update f i (g (f i))

pub change-hit {ℓ} :
    {A : Type ℓ} (f : ℕ → A) (o : Option ℕ) (g : A → A) (j : ℕ)
    → names o j ≡ true
    → change f o g j ≡ g (f j)
change-hit f none g j h = absurd (ground arith)
change-hit f (some i) g j h = rw (h, (==_iff i j).0 h) refl

pub change-miss {ℓ} :
    {A : Type ℓ} (f : ℕ → A) (o : Option ℕ) (g : A → A) (j : ℕ)
    → names o j ≡ false
    → change f o g j ≡ f j
change-miss f none g j h = refl
change-miss f (some i) g j h = rw h refl

pub names_self : (i : ℕ) → names (some i) i ≡ true
names_self i = ground arith

-- The client and the controller that a scope changes for a slot.
unfoldable pub slot_client : World → ℕ → Option ℕ
slot_client w slot =
    if is_managed w.manager slot then resolve_client_by_slot w.engine (pos slot) else none

abbrev pub if_live : Engine → Option ℕ → Option ℕ
if_live e none = none
if_live e (some controller) =
    if is_entity_being_deleted e (some controller) then none else some controller

unfoldable pub live_controller : Engine → ℕ → Option ℕ
live_controller e ptr = if_live e (client_controller e ptr)

abbrev pub controller_for : Engine → Option ℕ → Option ℕ
controller_for e none = none
controller_for e (some ptr) = live_controller e ptr

pub resolve_client_by_slot-skeleton :
    (e : Engine) (slot : ℤ)
    → resolve_client_by_slot (skeleton e) slot ≡ resolve_client_by_slot e slot
unfolding resolve_client_by_slot
resolve_client_by_slot-skeleton e slot = refl

client_controller-skeleton :
    (e : Engine) (ptr : ℕ) → client_controller (skeleton e) ptr ≡ client_controller e ptr
unfolding resolve_entity_instance
client_controller-skeleton e ptr = refl

pub live_controller-skeleton :
    (e : Engine) (ptr : ℕ) → live_controller (skeleton e) ptr ≡ live_controller e ptr
unfolding live_controller resolve_entity_instance is_entity_being_deleted
live_controller-skeleton e ptr = refl

-- A change that the skeleton does not see.
change-unseen {ℓ κ} :
    {A : Type ℓ} {B : Type κ} (see : A → B) (f : ℕ → A) (o : Option ℕ) (g : A → A)
    → ((a : A) → see (g a) ≡ see a)
    → ◌≡◌ {A = ℕ → B} (λ j. see (change f o g j)) (λ j. see (f j))
change-unseen see f none g h = refl
change-unseen see f (some i) g h = λ t j. at j t
  where
    at : (j : ℕ) → see (change f (some i) g j) ≡ see (f j)
    at j = elim (Bool-cases (i == j)) [
      | inl e ↦ rw (e, (==_iff i j).0 e) (h (f j))
      | inr e ↦ rw e refl
    ]

-- The engine with the clients and entities changed at one place each.
abbrev pub with_changes :
    Engine → Option ℕ → (Client → Client) → Option ℕ → (Entity → Entity) → Engine
with_changes e ptr g controller h = record e {
  client = change e.client ptr g;
  entity = change e.entity controller h;
}

pub with_changes-skeleton :
    (e : Engine) (ptr : Option ℕ) (g : Client → Client) (controller : Option ℕ)
    (h : Entity → Entity)
    → ((c : Client) → bare_client (g c) ≡ bare_client c)
    → ((x : Entity) → bare_entity (h x) ≡ bare_entity x)
    → skeleton (with_changes e ptr g controller h) ≡ skeleton e
with_changes-skeleton e ptr g controller h p q =
    rw
      (
        change-unseen bare_client e.client ptr g p,
        change-unseen bare_entity e.entity controller h q,
      )
      refl

-- The reactions of the engine change nothing that the program reads.
abbrev pub IsQuiet : (EngineCall → Engine → Engine) → Type 0
IsQuiet react = (c : EngineCall) (e : Engine) → react c e ≡ e

-- Two engines that differ in the calls that were made.
abbrev pub without_calls : Engine → Engine
without_calls e = record e { calls = [] }

pub write_flags-quiet :
    (react : EngineCall → Engine → Engine) (mark : Bool) (e : Engine) (controller flags : ℕ)
    → IsQuiet react
    → without_calls (write_flags react mark e controller flags)
      ≡ without_calls (with_entity e controller (record (e.entity controller) { flags = flags }))
unfolding write_entity_flags mark_entity_field_changed call_engine
write_flags-quiet react false e controller flags quiet = refl
write_flags-quiet react true e controller flags quiet =
    if_both
      (λ (v : Engine).
        without_calls v
        ≡ without_calls (with_entity e controller (record (e.entity controller) { flags = flags })))
      (flags == (e.entity controller).flags) refl (ap without_calls (quiet _ _))
