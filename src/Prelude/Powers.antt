-- ===== src/Prelude/Powers.antt =====
-- Powers of two.
use Prim.Native.Nat.{ℕ, zero, suc, ◌+◌, ◌*◌, ◌^◌, ◌≤◌, ◌<◌}
use mathlib.Core.Path.{◌≡◌}
use native.Mathlib.Nat.{pow-suc, one-le-pow, pow-le-pow_right}
use native.Mathlib.Decide.{dec_lt}
use native.Mathlib.Omega.{arith}

pub two-pow-suc : (k : ℕ) → 2 ^ suc k ≡ 2 * 2 ^ k
two-pow-suc k = omega (arith, pow-suc 2 k)

pub two-pow-pos : (k : ℕ) → 0 < 2 ^ k
two-pow-pos k = one-le-pow k 2 (omega arith)

pub two-pow-add : (a b : ℕ) → 2 ^ (a + b) ≡ 2 ^ a * 2 ^ b
two-pow-add zero b = ground arith
two-pow-add (suc a) b = grind (arith, two-pow-suc a, two-pow-suc (a + b), two-pow-add a b)

pub two-pow_mono : {a b : ℕ} → a ≤ b → 2 ^ a ≤ 2 ^ b
two-pow_mono h = pow-le-pow_right (omega arith) h

-- Powers of two are ordered as their exponents.
pub two-pow_reflect : (a b : ℕ) → 2 ^ a < 2 ^ b → a < b
two-pow_reflect a b h = elim (dec_lt a b) [
  | yes p ↦ p
  | no p ↦ absurd (omega (arith, two-pow_mono {a = b} {b = a} (omega arith)))
]
