-- ===== src/Numbers/Tests.antt =====
-- `round_up_to_power_of_two` at concrete values, and its theorems there.
use feng_shui.Prelude.{ℕ, ◌^◌, ◌≤◌, ◌≡◌, refl, arith}
use feng_shui.Numbers.{smear, round_up_to_power_of_two}
use feng_shui.Numbers.Rounding.{round_up-least}

rounds_100 : round_up_to_power_of_two 100 ≡ 128
unfolding round_up_to_power_of_two smear
rounds_100 = refl

keeps_powers : round_up_to_power_of_two (2 ^ 40) ≡ 2 ^ 40
unfolding round_up_to_power_of_two smear
keeps_powers = refl

round_up-least_example :
    (k : ℕ) × (round_up_to_power_of_two 100 ≡ 2 ^ k)
    × (100 ≤ 2 ^ k)
    × ((j : ℕ) → 100 ≤ 2 ^ j → 2 ^ k ≤ 2 ^ j)
round_up-least_example = round_up-least 100 (omega arith) (omega arith)
