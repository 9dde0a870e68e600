-- ===== src/Numbers/Rounding.antt =====
-- `round_up_to_power_of_two` gives the least power of two that is not below its argument.
use feng_shui.Prelude.{ℕ, zero, suc, ◌+◌, ◌-◌, ◌^◌, ◌≤◌, ◌<◌, ◌≡◌, ◌⊎◌, ap, ◌∙◌, arith, dec_lt, u64}
use feng_shui.Prelude.Powers.{two-pow-suc, two-pow_mono, two-pow_reflect}
use feng_shui.Numbers.{smear, round_up_to_power_of_two}
use feng_shui.Numbers.Smear.{TopOnes, TopOnes-full, smear-TopOnes}

pred-suc : (j : ℕ) → suc j - 1 ≡ j
pred-suc j = omega arith

back : (m : ℕ) → 2 ^ (suc m - 1) ≡ 2 ^ m
back m = ap (λ (t : ℕ). 2 ^ t) (pred-suc m)

-- The number of binary digits.
bit_length : (n x : ℕ) → x < 2 ^ n → (k : ℕ) × (k ≤ n) × TopOnes k 1 x
bit_length zero x h = (0, omega arith, record { below = h; ones = omega arith })
bit_length (suc n) x h = elim (dec_lt x (2 ^ n)) [
  | yes p ↦ let (k, small, t) = bit_length n x p in (k, omega arith, t)
  | no p ↦ (suc n, omega arith, record { below = h; ones = omega (arith, two-pow-suc n, back n) })
]

abbrev smear_all : ℕ → ℕ
smear_all x = smear 32 (smear 16 (smear 8 (smear 4 (smear 2 (smear 1 x)))))

-- Six doublings turn one leading one into 64.
smear_all-full : {k x : ℕ} → k ≤ 64 → TopOnes k 1 x → smear_all x + 1 ≡ 2 ^ k
smear_all-full {k} {x} h t = TopOnes-full {k = k} {m = 64} h (
    smear-TopOnes (smear-TopOnes (smear-TopOnes (smear-TopOnes (smear-TopOnes (smear-TopOnes t))))))

-- A power of two above the argument is above its digit count.
digits-le : {k x : ℕ} (j : ℕ) → TopOnes k 1 x → x + 1 ≤ 2 ^ j → 2 ^ k ≤ 2 ^ j
digits-le {k = zero} j t h = two-pow_mono {a = 0} {b = j} (omega arith)
digits-le {k = suc k} j t h =
    two-pow_mono {a = suc k} (two-pow_reflect k j (omega (arith, t.ones, two-pow-suc k, back k)))

unwrapped : {x : ℕ} → 1 ≤ x → x ≤ 2 ^ 63 → u64 (x + 2 ^ 64 - 1) ≡ x - 1
unwrapped lower upper = omega arith

fits : (x k : ℕ) → k ≤ 63 → TopOnes k 1 x → u64 (smear_all x + 1) ≡ 2 ^ k
fits x k small t =
    omega (arith, smear_all-full (omega arith) t, two-pow_mono {a = k} {b = 63} small)

overflows : (x k : ℕ) → 2 ^ 63 ≤ x → k ≤ 64 → TopOnes k 1 x → u64 (smear_all x + 1) ≡ 0
overflows x k large small t =
    omega (arith, smear_all-full small t, ap (λ (j : ℕ). 2 ^ j) all_digits)
  where
    all_digits : k ≡ 64
    all_digits = omega (arith, two-pow_reflect 63 k (omega (arith, t.below)))

least_power :
    (x k : ℕ)
    → 1 ≤ x
    → x ≤ 2 ^ 63
    → (k ≤ 63) × TopOnes k 1 (x - 1)
    → (round_up_to_power_of_two x ≡ 2 ^ k) × (x ≤ 2 ^ k) × ((j : ℕ) → x ≤ 2 ^ j → 2 ^ k ≤ 2 ^ j)
unfolding round_up_to_power_of_two
least_power x k lower upper (small, t) = (
  ap (λ (y : ℕ). u64 (smear_all y + 1)) (unwrapped lower upper) ∙ fits (x - 1) k small t,
  omega (arith, t.below),
  λ j h. digits-le j t (omega arith),
)

-- From 1 to 2 ^ 63 the result is a power of two, is not below the argument, and no smaller power of
-- two is not below it.
pub round_up-least :
    (x : ℕ)
    → 1 ≤ x
    → x ≤ 2 ^ 63
    → (k : ℕ) × (round_up_to_power_of_two x ≡ 2 ^ k)
      × (x ≤ 2 ^ k)
      × ((j : ℕ) → x ≤ 2 ^ j → 2 ^ k ≤ 2 ^ j)
round_up-least x lower upper =
    let (k, small, t) = bit_length 63 (x - 1) (omega arith) in
    let (found, above, least) = least_power x k lower upper (small, t) in (k, found, above, least)

large : (x : ℕ) → x < 2 ^ 64 → (x ≡ 0) ⊎ (2 ^ 63 < x) → 2 ^ 63 ≤ u64 (x + 2 ^ 64 - 1)
large x h outside = omega arith

-- For 0, and above 2 ^ 63, where 64 bits hold no such power, the result is 0.
pub round_up-none : (x : ℕ) → x < 2 ^ 64 → (x ≡ 0) ⊎ (2 ^ 63 < x) → round_up_to_power_of_two x ≡ 0
unfolding round_up_to_power_of_two
round_up-none x h outside =
    let (k, small, t) = bit_length 64 (u64 (x + 2 ^ 64 - 1)) (omega arith) in
    overflows (u64 (x + 2 ^ 64 - 1)) k (large x h outside) small t
