-- ===== src/Numbers/Smear.antt =====
-- What one smearing step does to a number whose `m` top digits, of `k`, are ones.
use native.Mathlib.Nat.{le-div_iff_mul-le, div-lt_iff_lt-mul, div-le_self}
use feng_shui.Prelude.{
  ℕ, ◌+◌, ◌-◌, ◌*◌, ◌/◌, ◌%◌, ◌^◌, ◌≤◌, ◌<◌, ◌≡◌, ◌⊎◌, inl, inr, ap, sym, ◌∙◌, arith, bit_or,
  dec_lt,
}
use feng_shui.Prelude.Bits.{bit_or-lt, le-bit_or, bit_or-high, bit_or-zero}
use feng_shui.Prelude.Powers.{two-pow-pos, two-pow-add, two-pow_mono}
use feng_shui.Numbers.{smear}

-- `x` has at most `k` digits, the `m` highest of them ones (all of them, if `k ≤ m`).
pub record TopOnes (k m x : ℕ) : Type 0 where
  pub below : x < 2 ^ k
  pub ones : 2 ^ k ≤ x + 2 ^ (k - m)

-- Ones enough to fill the number make it `2 ^ k - 1`.
pub TopOnes-full : {k m x : ℕ} → k ≤ m → TopOnes k m x → x + 1 ≡ 2 ^ k
TopOnes-full {k} {m} {x} h t = omega (arith, two-pow_mono {a = k - m} {b = 0} (omega arith))

le_or_lt : (a b : ℕ) → (a ≤ b) ⊎ (b < a)
le_or_lt a b = elim (dec_lt b a) [ yes h ↦ inr h | no h ↦ inl (omega arith) ]

shrink : (m p : ℕ) → 2 ^ p ≤ 2 ^ m * 2 ^ (p - m)
shrink m p =
    omega (arith, two-pow-add m (p - m), two-pow_mono {a = p} {b = m + (p - m)} (omega arith))

pred-mul : (a b : ℕ) → 0 < a → (a - 1) * b + b ≡ a * b
pred-mul a b h = omega (arith, ap (λ (t : ℕ). t * b) (restore h))
  where
    restore : {n : ℕ} → 0 < n → n ≡ n - 1 + 1
    restore q = omega arith

module _ (m p x : ℕ) (below : x < 2 ^ m * 2 ^ p) (ones : 2 ^ m * 2 ^ p ≤ x + 2 ^ p) where
  -- The digits above the lowest `p` are all ones.
  high_ones : x / 2 ^ p + 1 ≡ 2 ^ m
  high_ones = omega (arith, above, (div-lt_iff_lt-mul (two-pow-pos p)).1 below)
    where
      above : 2 ^ m - 1 ≤ x / 2 ^ p
      above =
          (le-div_iff_mul-le (two-pow-pos p)).1
            (omega (arith, pred-mul (2 ^ m) (2 ^ p) (two-pow-pos m)))

  -- Shifted down they cover the next `m` digits.
  shifted_below : x / 2 ^ m < 2 ^ p
  shifted_below = (div-lt_iff_lt-mul (two-pow-pos m)).1 (grind arith)

  shifted_ones : 2 ^ p ≤ x / 2 ^ m + 2 ^ (p - m)
  shifted_ones = omega (arith, above)
    where
      above : 2 ^ p - 2 ^ (p - m) ≤ x / 2 ^ m
      above = (le-div_iff_mul-le (two-pow-pos m)).1 (grind (arith, shrink m p))

  parts : x / 2 ^ p * 2 ^ p + x % 2 ^ p ≡ x
  parts = grind (arith, two-pow-pos p)

  low : x % 2 ^ p < 2 ^ p
  low = grind (arith, two-pow-pos p)

  merged : bit_or x (x / 2 ^ m) ≡ x / 2 ^ p * 2 ^ p + bit_or (x % 2 ^ p) (x / 2 ^ m)
  merged =
      ap (λ (t : ℕ). bit_or t (x / 2 ^ m)) (sym parts)
      ∙ bit_or-high p (x / 2 ^ p) (x % 2 ^ p) (x / 2 ^ m) low shifted_below

  merged_ones : 2 ^ m * 2 ^ p ≤ bit_or x (x / 2 ^ m) + 2 ^ (p - m)
  merged_ones = omega (
    arith,
    merged,
    shifted_ones,
    le-bit_or p (x % 2 ^ p) (x / 2 ^ m) shifted_below,
    ap (λ (t : ℕ). t * 2 ^ p) high_ones,
  )

two-pow-split : {k m : ℕ} → m ≤ k → 2 ^ k ≡ 2 ^ m * 2 ^ (k - m)
two-pow-split {k} {m} h = ap (λ (t : ℕ). 2 ^ t) (restore h) ∙ two-pow-add m (k - m)
  where
    restore : {n j : ℕ} → j ≤ n → n ≡ j + (n - j)
    restore q = omega arith

two-pow-sub-sub : (k m : ℕ) → 2 ^ (k - m - m) ≡ 2 ^ (k - (m + m))
two-pow-sub-sub k m = ap (λ (t : ℕ). 2 ^ t) (regroup k m)
  where
    regroup : (a b : ℕ) → a - b - b ≡ a - (b + b)
    regroup a b = omega arith

smear-ones : {k m x : ℕ} → m ≤ k → TopOnes k m x → 2 ^ k ≤ smear m x + 2 ^ (k - (m + m))
unfolding smear
smear-ones {k} {m} {x} h t =
    omega (arith, two-pow-split h, two-pow-sub-sub k m, merged_ones m (k - m) x below ones)
  where
    below : x < 2 ^ m * 2 ^ (k - m)
    below = omega (arith, two-pow-split h, t.below)

    ones : 2 ^ m * 2 ^ (k - m) ≤ x + 2 ^ (k - m)
    ones = omega (arith, two-pow-split h, t.ones)

-- Once all digits are ones, smearing changes nothing.
smear_full : {k m x : ℕ} → k < m → TopOnes k m x → smear m x ≡ x
unfolding smear
smear_full {k} {m} {x} h t = ap (bit_or x) none ∙ bit_or-zero x
  where
    none : x / 2 ^ m ≡ 0
    none = omega (
      arith,
      (div-lt_iff_lt-mul {x = x} {y = 1} (two-pow-pos m)).1
          (omega (arith, t.below, two-pow_mono {a = k} {b = m} (omega arith))),
    )

-- Smearing by `m` doubles the number of ones at the top.
pub smear-TopOnes : {k m x : ℕ} → TopOnes k m x → TopOnes k (m + m) (smear m x)
unfolding smear
smear-TopOnes {k} {m} {x} t = record { below = below; ones = ones (le_or_lt m k) }
  where
    shifted-le : x / 2 ^ m ≤ x
    shifted-le = div-le_self x (2 ^ m)

    below : bit_or x (x / 2 ^ m) < 2 ^ k
    below = bit_or-lt k x (x / 2 ^ m) t.below (omega (arith, t.below))

    ones : (m ≤ k) ⊎ (k < m) → 2 ^ k ≤ bit_or x (x / 2 ^ m) + 2 ^ (k - (m + m))
    ones (inl h) = smear-ones h t
    ones (inr h) = omega (
      arith,
      smear_full h t,
      TopOnes-full {k = k} {m = m} (omega arith) t,
      two-pow-pos (k - (m + m)),
    )
