-- ===== src/Prelude/Signed.antt =====
-- Signed integers in words of 64 bits, in two's complement.
use feng_shui.Prelude.{ℕ, ◌-◌, ◌%◌, ◌^◌, ◌<◌, ◌≡◌, arith, ltb, if◌then◌else◌}
use feng_shui.Prelude.Int.{ℤ, pos, negsuc}

abbrev pub word_of : ℤ → ℕ
word_of (pos n) = n % 2 ^ 64
word_of (negsuc n) = 2 ^ 64 - 1 - n % 2 ^ 64

abbrev pub signed_of : ℕ → ℤ
signed_of w = if ltb w (2 ^ 63) then pos w else negsuc (2 ^ 64 - 1 - w)

-- The range of `int64_t`
abbrev pub IsInt64 : ℤ → Type 0
IsInt64 (pos n) = n < 2 ^ 63
IsInt64 (negsuc n) = n < 2 ^ 63

pub signed_of-word_of : (z : ℤ) → IsInt64 z → signed_of (word_of z) ≡ z
signed_of-word_of (pos n) h = ground arith
signed_of-word_of (negsuc n) h = ground arith
