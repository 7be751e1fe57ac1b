-- ===== src/Random.antt =====
-- The xorshift64* generator, of which src/features/identity/fake_client_manager.cpp,
-- src/features/botinfo/bot_info.cpp and src/features/ping/ping_display.cpp each hold a copy.
use cs2_bot_hider.Base.{ℕ, ◌*◌, ◌/◌, ◌%◌, ◌^◌, bit_xor, ◌==◌, if◌then◌else◌}

-- A 64-bit word; shifts and products wrap.
abbrev pub u64 : ℕ → ℕ
u64 n = n % 2 ^ 64

-- The three shifts and xors.
unfoldable pub scramble : ℕ → ℕ
scramble x =
    let a = bit_xor x (x / 2 ^ 12) in let b = bit_xor a (u64 (a * 2 ^ 25)) in bit_xor b (b / 2 ^ 27)

-- The word that is drawn from the scrambled state.
unfoldable pub draw : ℕ → ℕ
draw x = u64 (x * 0x2545F4914F6CDD1D)

-- The new state and the word; a zero state is replaced by a constant.
unfoldable pub next_rand : ℕ → ℕ × ℕ
next_rand s = let x = scramble (if s == 0 then 0x9E3779B97F4A7C15 else s) in (x, draw x)
