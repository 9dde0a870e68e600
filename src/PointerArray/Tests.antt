-- ===== src/PointerArray/Tests.antt =====
-- A small array, and the theorems there.
use feng_shui.Prelude.{ℕ, ◌≡◌, inr, refl, Bool, true, arith, some, none, [], ◌∷◌}
use feng_shui.Numbers.{round_up_to_power_of_two, smear}
use feng_shui.PointerArray.{
  PointerArray, grown_capacity, create_default, zeroed, add, grow, store_last, reallocated, put,
  move, remove, remove_range,
}
use feng_shui.PointerArray.Invariant.{IsValid, contents}
use feng_shui.PointerArray.Grow.{Growable}
use feng_shui.PointerArray.Stack.{add_appends}
use feng_shui.PointerArray.Removal.{remove_range_faults}

abbrev always : ℕ → Bool
always n = true

-- Two cells, both in use.
abbrev full : PointerArray
full = record { capacity = 2; size = 2; resize_factor = 2; memory = 5 ∷ 6 ∷ [] }

-- Three pointers in sixteen cells.
abbrev three : PointerArray
three = record {
  capacity = 16;
  size = 3;
  resize_factor = 2;
  memory = 5 ∷ 6 ∷ 7 ∷ 0 ∷ 0 ∷ 0 ∷ 0 ∷ 0 ∷ 0 ∷ 0 ∷ 0 ∷ 0 ∷ 0 ∷ 0 ∷ 0 ∷ 0 ∷ [];
}

-- Three pointers in four cells.
abbrev tight : PointerArray
tight = record { capacity = 4; size = 3; resize_factor = 2; memory = 5 ∷ 6 ∷ 7 ∷ 0 ∷ [] }

full-IsValid : IsValid full
full-IsValid = omega arith

three-IsValid : IsValid three
three-IsValid = omega arith

tight-IsValid : IsValid tight
tight-IsValid = omega arith

full-Growable : Growable always full
full-Growable = record {
  nonempty = omega arith;
  factor = omega arith;
  bounded = omega arith;
  memory = refl;
}

grows :
    add always 9 full 7 ≡ some (record full { capacity = 4; size = 3; memory = 5 ∷ 6 ∷ 7 ∷ 9 ∷ [] })
unfolding add grow grown_capacity reallocated store_last round_up_to_power_of_two smear
grows = refl

-- An array made with capacity 0 cannot take a pointer.
capacity_zero_faults :
    add always 9 (record { capacity = 0; size = 0; resize_factor = 2; memory = [] }) 7 ≡ none
unfolding add grow grown_capacity reallocated store_last round_up_to_power_of_two smear
capacity_zero_faults = refl

puts : put tight 1 9 ≡ some (6, record tight { memory = 5 ∷ 9 ∷ 7 ∷ 0 ∷ [] })
unfolding put
puts = refl

remove_middle_faults : remove tight 0 ≡ none
unfolding remove move
remove_middle_faults = refl

starts_empty :
    create_default always 9
    ≡ some (record {
      capacity = 16;
      size = 0;
      resize_factor = 2;
      memory = 0 ∷ 0 ∷ 0 ∷ 0 ∷ 0 ∷ 0 ∷ 0 ∷ 0 ∷ 0 ∷ 0 ∷ 0 ∷ 0 ∷ 0 ∷ 0 ∷ 0 ∷ 0 ∷ [];
    })
unfolding create_default zeroed
starts_empty = refl

add_appends_example :
    (b : PointerArray) × (add always 9 full 7 ≡ some b) × IsValid b × (contents b ≡ 5 ∷ 6 ∷ 7 ∷ [])
add_appends_example = add_appends always 9 full 7 full-IsValid (inr full-Growable)

remove_range_faults_example : remove_range tight 0 1 ≡ none
remove_range_faults_example =
    remove_range_faults tight 0 1 tight-IsValid (omega arith) (omega arith)
