-- ===== src/Numbers.antt =====
-- core/native/numbers/numbers.h: rounding up to a power of two by smearing bits.
pub mod Smear
pub mod Rounding
mod Tests
use feng_shui.Prelude.{ℕ, ◌+◌, ◌-◌, ◌^◌, u64, ◌>>>◌, bit_or}

-- `x | (x >> s)`
unfoldable pub smear : ℕ → ℕ → ℕ
smear s x = bit_or x (x >>> s)

-- `uint64_t` arithmetic: `x - 1` and `x + 1` wrap.
unfoldable pub round_up_to_power_of_two : ℕ → ℕ
round_up_to_power_of_two x0 =
    let x = u64 (x0 + 2 ^ 64 - 1) in
    u64 (smear 32 (smear 16 (smear 8 (smear 4 (smear 2 (smear 1 x))))) + 1)
