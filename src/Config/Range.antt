-- ===== src/Config/Range.antt =====
-- Every configuration gives a range of pings that the manager can draw from.
use cs2_bot_hider.Base.{
  ℕ, ◌≤◌, ◌≡◌, ◌&&◌, List, Option, none, some, refl, leb→le, Bool-cases, if◌then◌else◌, arith,
  if_both, leb, Option-cases, inl, inr,
}
use cs2_bot_hider.BotInfo.Load.{Json}
use cs2_bot_hider.Manager.{Manager, configure_fake_ping}
use cs2_bot_hider.Config.{
  Settings, default_settings, with_range, read_ping, read_mode, read_fake_ping, load_settings,
  key_min, key_max, key_enabled, key_fake_ping,
}

-- A range in 1 to 999.
pub record IsValid (s : Settings) : Type 0 where
  pub above : 1 ≤ s.fake_ping_min
  pub order : s.fake_ping_min ≤ s.fake_ping_max
  pub below : s.fake_ping_max ≤ 999

default-IsValid : IsValid default_settings
default-IsValid = record { above = omega arith; order = omega arith; below = omega arith }

-- A bound on each end is a bound on the range, which is taken only in order.
with_range-IsValid :
    (s : Settings) (minimum maximum : Option ℕ)
    → IsValid s
    → ((n : ℕ) → minimum ≡ some n → (1 ≤ n) × (n ≤ 999))
    → ((n : ℕ) → maximum ≡ some n → (1 ≤ n) × (n ≤ 999))
    → IsValid (with_range s minimum maximum)
with_range-IsValid s none maximum h k l = h
with_range-IsValid s (some a) none h k l = h
with_range-IsValid s (some a) (some b) h k l = elim (Bool-cases (leb a b)) [
  | inl e ↦ rw e (record { above = (k a refl).0; order = leb→le a b e; below = (l b refl).1 })
  | inr e ↦ rw e h
]

module _ (json : Json) where
  read_ping-bounds :
      (v : json.Value) (key : List ℕ) (output n : ℕ)
      → 1 ≤ output
      → output ≤ 999
      → read_ping json v key output ≡ some n
      → (1 ≤ n) × (n ≤ 999)
  unfolding read_ping
  read_ping-bounds v key output n h k e = ground arith

  read_mode-IsValid : (v : json.Value) (s : Settings) → IsValid s → IsValid (read_mode json v s)
  unfolding read_mode
  read_mode-IsValid v s h = ground arith

  read_fake_ping-IsValid :
      (v : json.Value) (s : Settings) → IsValid s → IsValid (read_fake_ping json v s)
  unfolding read_fake_ping
  read_fake_ping-IsValid v s h =
      let fake_ping = json.field v key_fake_ping in
      let enabled = json.field fake_ping key_enabled in
      let on = json.contains fake_ping key_enabled && json.is_boolean enabled in
      let set_on = record s { fake_ping_enabled = json.get_boolean enabled } in
      let kept : IsValid set_on = record { above = h.above; order = h.order; below = h.below } in
      let switched : IsValid (if on then set_on else s) = if_both IsValid on kept h in
      if_both IsValid (json.contains v key_fake_ping && json.is_object fake_ping)
        (with_range-IsValid _ _ _ switched
          (λ n e.
            read_ping-bounds fake_ping key_min _ n switched.above
              (omega (arith, switched.order, switched.below)) e)
          (λ n e.
            read_ping-bounds fake_ping key_max _ n (omega (arith, switched.above, switched.order))
              switched.below e))
        h

  load_settings-IsValid_lem : (file : Option (List ℕ)) → IsValid (load_settings json file)
  unfolding load_settings
  load_settings-IsValid_lem none = default-IsValid
  load_settings-IsValid_lem (some text) = elim (Option-cases (json.parse text)) [
    | inl e ↦ rw (e, load_settings) default-IsValid
    | inr (config, e) ↦
        rw (e, load_settings)
          (if_both IsValid (json.is_object config)
            (read_fake_ping-IsValid config _
              (read_mode-IsValid config default_settings default-IsValid))
            default-IsValid)
  ]

-- Whatever config.json holds, or if there is none: the settings have a range of pings from 1 to 999,
-- its minimum at most its maximum, and the manager that is configured with them has that range.
pub load_settings-IsValid :
    (json : Json) (file : Option (List ℕ)) (m : Manager)
    → let s = load_settings json file in
      let c = configure_fake_ping m s.fake_ping_enabled s.fake_ping_min s.fake_ping_max in
      IsValid s
      × (1 ≤ c.fake_ping_minimum)
      × (c.fake_ping_minimum ≤ c.fake_ping_maximum)
      × (c.fake_ping_maximum ≤ 999)
unfolding load_settings configure_fake_ping
load_settings-IsValid json file m =
    let v = load_settings-IsValid_lem json file in (v, v.above, v.order, v.below)
