-- ===== src/Prelude/Bits.antt =====
-- Laws of `|` and `&` at variables, from the digit recursion behind the native operations.
use Prim.Native.Nat.{
  ℕ, zero, suc, ◌+◌, ◌*◌, ◌/◌, ◌%◌, ◌^◌, ◌-◌, ◌≤◌, ◌<◌, min, max, bit_and, bit_or, digits, bitwise,
  bit_and-bitwise, bit_or-bitwise,
}
use mathlib.Core.Path.{◌≡◌, refl, sym, ap, ◌∙◌}
use native.Mathlib.Nat.{div-div-eq-div-mul, one-le-pow, le_refl}
use native.Mathlib.Omega.{arith}
use feng_shui.Prelude.Powers.{two-pow-suc, two-pow-pos}

add_suc : (k n : ℕ) → suc k + n ≡ suc (k + n)
add_suc k n = omega arith

split : {n a : ℕ} → a ≤ n → n ≡ n - a + a
split h = omega arith

-- More fuel than digits changes nothing.
module _ (z : ℕ → ℕ) (f : ℕ → ℕ → ℕ) where
  digits_enough : (n a b : ℕ) → a ≤ n → digits z f n a b ≡ digits z f (suc n) a b
  digits_enough zero zero b h = refl
  digits_enough zero (suc a) b h = absurd (omega arith)
  digits_enough (suc n) zero b h = refl
  digits_enough (suc n) (suc a) b h = rw (digits_enough n (suc a / 2) (b / 2) (omega arith))

  digits_grow : (k n a b : ℕ) → a ≤ n → digits z f (k + n) a b ≡ digits z f n a b
  digits_grow zero n a b h = ap (λ (m : ℕ). digits z f m a b) (omega arith)
  digits_grow (suc k) n a b h =
      ap (λ (m : ℕ). digits z f m a b) (add_suc k n)
      ∙ sym (digits_enough (k + n) a b (omega arith))
      ∙ digits_grow k n a b h

  digits_exact : (n a b : ℕ) → a ≤ n → digits z f n a b ≡ bitwise z f a b
  digits_exact n a b h =
      ap (λ (m : ℕ). digits z f m a b) (split h) ∙ digits_grow (n - a) a a b (omega arith)

-- How the lowest binary digit of a result comes from those of the operands.
abbrev pub LowDigit : (ℕ → ℕ → ℕ) → (ℕ → ℕ → ℕ) → Type 0
LowDigit op digit = (x y : ℕ) → op x y ≡ digit (x % 2) (y % 2) + 2 * op (x / 2) (y / 2)

pub bit_or-LowDigit : LowDigit bit_or max
bit_or-LowDigit zero y = omega (arith, bit_or-bitwise 0 y, bit_or-bitwise 0 (y / 2))
bit_or-LowDigit (suc x) y = omega (
  arith,
  bit_or-bitwise (suc x) y,
  bit_or-bitwise (suc x / 2) (y / 2),
  digits_exact (λ m. m) max x (suc x / 2) (y / 2) (omega arith),
)

pub bit_and-LowDigit : LowDigit bit_and min
bit_and-LowDigit zero y = omega (arith, bit_and-bitwise 0 y, bit_and-bitwise 0 (y / 2))
bit_and-LowDigit (suc x) y = omega (
  arith,
  bit_and-bitwise (suc x) y,
  bit_and-bitwise (suc x / 2) (y / 2),
  digits_exact (λ m. zero) min x (suc x / 2) (y / 2) (omega arith),
)

-- Each law below goes by the number of digits.
scale : (q k : ℕ) → q * 2 ^ suc k ≡ 2 * (q * 2 ^ k)
scale q k = omega (arith, ap (λ (t : ℕ). q * t) (two-pow-suc k))

zero-bit_or : (b : ℕ) → bit_or 0 b ≡ b
zero-bit_or b = bit_or-bitwise 0 b

bit_or-zero_within : (bound x : ℕ) → x ≤ bound → bit_or x 0 ≡ x
bit_or-zero_within bound zero small = zero-bit_or 0
bit_or-zero_within zero (suc x) small = elim small [ ]
bit_or-zero_within (suc bound) (suc x) small =
    omega (arith, bit_or-zero_within bound (suc x / 2) (omega arith), bit_or-LowDigit (suc x) 0)

pub bit_or-zero : (a : ℕ) → bit_or a 0 ≡ a
bit_or-zero a = bit_or-zero_within a a (le_refl a)

pub bit_or-lt : (k a b : ℕ) → a < 2 ^ k → b < 2 ^ k → bit_or a b < 2 ^ k
bit_or-lt zero a b p q = ground (arith, zero-bit_or 0)
bit_or-lt (suc k) a b p q =
    ground (arith, two-pow-suc k, bit_or-LowDigit a b, bit_or-lt k (a / 2) (b / 2))

-- `|` loses no bit of its right operand.
pub le-bit_or : (k a b : ℕ) → b < 2 ^ k → b ≤ bit_or a b
le-bit_or zero a b q = omega arith
le-bit_or (suc k) a b q =
    ground (arith, two-pow-suc k, bit_or-LowDigit a b, le-bit_or k (a / 2) (b / 2))

-- Digits from `k` up are kept when the right operand has none of them.
pub bit_or-high :
    (k q r s : ℕ) → r < 2 ^ k → s < 2 ^ k → bit_or (q * 2 ^ k + r) s ≡ q * 2 ^ k + bit_or r s
bit_or-high zero q r s p h = ground (arith, bit_or-zero q, bit_or-zero 0)
bit_or-high (suc k) q r s p h = ground (
  arith,
  scale q k,
  two-pow-suc k,
  bit_or-LowDigit (q * 2 ^ suc k + r) s,
  bit_or-LowDigit r s,
  bit_or-high k q (r / 2) (s / 2),
)

-- `(q << k) | s` is a sum where `s` fits `k` bits.
pub bit_or-disjoint : (k q s : ℕ) → s < 2 ^ k → bit_or (q * 2 ^ k) s ≡ q * 2 ^ k + s
bit_or-disjoint k q s h = ground (arith, one-le-pow k 2, bit_or-high k q 0 s, zero-bit_or s)

zero-bit_and : (b : ℕ) → bit_and 0 b ≡ 0
zero-bit_and b = bit_and-bitwise 0 b

bit_and-zero_within : (bound x : ℕ) → x ≤ bound → bit_and x 0 ≡ 0
bit_and-zero_within bound zero small = zero-bit_and 0
bit_and-zero_within zero (suc x) small = elim small [ ]
bit_and-zero_within (suc bound) (suc x) small =
    omega (arith, bit_and-zero_within bound (suc x / 2) (omega arith), bit_and-LowDigit (suc x) 0)

-- `a & (1 << k)` is `1 << k` or 0, as the digit of `a` there is 1 or 0.
pub bit_and-pow : (k a : ℕ) → bit_and a (2 ^ k) ≡ a / 2 ^ k % 2 * 2 ^ k
bit_and-pow zero a = ground (arith, bit_and-LowDigit a 1, bit_and-zero_within (a / 2) (a / 2))
bit_and-pow (suc k) a = ground (
  arith,
  two-pow-suc k,
  bit_and-LowDigit a (2 ^ suc k),
  bit_and-pow k (a / 2),
  div-div-eq-div-mul a 2 (2 ^ k),
  scale (a / 2 ^ suc k % 2) k,
)

-- `&` with a mask of `k` ones drops what lies above.
pub bit_and-low : (k high low : ℕ) → low < 2 ^ k → bit_and (high * 2 ^ k + low) (2 ^ k - 1) ≡ low
bit_and-low zero high low h = ground (arith, bit_and-zero_within (high + low) (high + low))
bit_and-low (suc k) high low h = ground (
  arith,
  two-pow-suc k,
  two-pow-pos k,
  scale high k,
  bit_and-low k high (low / 2),
  bit_and-LowDigit (high * 2 ^ suc k + low) (2 ^ suc k - 1),
)
