-- ===== src/Detours/FlagLaws.antt =====
-- The flags that a scope changes are bytes and 32-bit words: they are changed once, and what was saved
-- puts them back.
use cs2_bot_hider.Base.{ℕ, ◌≡◌, ◌≤◌, refl, ap, true, ◌&&◌, arith, bit_or, ltb, ◌==◌, if◌then◌else◌}
use cs2_bot_hider.Base.Bits.{
  holds_below, holds_below-apply, restored_changed, restored_unchanged, xor_self, or_twice,
  or_bound,
}
use cs2_bot_hider.Engine.{Client, Entity, clear_byte, entity_flag_fake_client}
use cs2_bot_hider.Detours.Skeleton.{disguised, flagged}
use cs2_bot_hider.Detours.Restored.{undisguised, unflagged}

abbrev opened_flags : ℕ → ℕ
opened_flags x = bit_or (clear_byte x 0x01) 0x08

opened_table :
    holds_below
      (λ x. ltb (opened_flags x) 256 && opened_flags (opened_flags x) == opened_flags x)
      256
    ≡ true
unfolding holds_below
opened_table = refl

opened_once :
    (x : ℕ) → x ≤ 255 → (opened_flags x ≤ 255) × (opened_flags (opened_flags x) ≡ opened_flags x)
opened_once x p = let h = holds_below-apply _ 256 x opened_table (omega arith) in ground arith

pub disguised_once : (c : Client) → c.connection_flags ≤ 255 → disguised (disguised c) ≡ disguised c
disguised_once c p =
    ap (λ (f : ℕ). record (disguised c) { connection_flags = f })
      (opened_once c.connection_flags p).1

kept_fake_player : (n : ℕ) → (if n == 1 then 1 else n) ≡ n
kept_fake_player n = ground arith

pub undisguised-disguised :
    (c : Client) → c.connection_flags ≤ 255 → undisguised c (disguised c) ≡ c
undisguised-disguised c p =
    let x = c.connection_flags in
    rw (restored_changed 8 (opened_flags x) x (opened_once x p).0 p, kept_fake_player c.fake_player)
      refl

pub undisguised-kept : (c : Client) → c.connection_flags ≤ 255 → undisguised (disguised c) c ≡ c
undisguised-kept c p =
    let x = c.connection_flags in
    rw
      (
        (opened_once x p).1,
        xor_self 8 (opened_flags x) (opened_once x p).0,
        restored_unchanged 8 x (opened_flags x) p (opened_once x p).0,
      )
      refl

pub flagged_once : (x : Entity) → x.flags ≤ 0xFFFF_FFFF → flagged (flagged x) ≡ flagged x
flagged_once x p =
    ap (λ (f : ℕ). record x { flags = f })
      (or_twice 32 x.flags entity_flag_fake_client p (omega arith))

flagged_bound : (f : ℕ) → f ≤ 0xFFFF_FFFF → bit_or f entity_flag_fake_client ≤ 0xFFFF_FFFF
flagged_bound f p = or_bound 32 f entity_flag_fake_client p (omega arith)

pub unflagged-flagged : (x : Entity) → x.flags ≤ 0xFFFF_FFFF → unflagged x (flagged x) ≡ x
unflagged-flagged x p =
    let f = x.flags in
    rw (restored_changed 32 (bit_or f entity_flag_fake_client) f (flagged_bound f p) p) refl

pub unflagged-kept : (x : Entity) → x.flags ≤ 0xFFFF_FFFF → unflagged (flagged x) x ≡ x
unflagged-kept x p =
    let f = x.flags in
    let g = bit_or f entity_flag_fake_client in
    rw
      (
        or_twice 32 f entity_flag_fake_client p (omega arith),
        xor_self 32 g (flagged_bound f p),
        restored_unchanged 32 f g p (flagged_bound f p),
      )
      refl
