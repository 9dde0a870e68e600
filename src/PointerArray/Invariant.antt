-- ===== src/PointerArray/Invariant.antt =====
-- When the fields of a `pointer_array` agree with its block of memory.
use feng_shui.Prelude.{ℕ, ◌^◌, ◌≤◌, ◌≡◌, List, length, take}
use feng_shui.PointerArray.{PointerArray}

-- Within these bounds no byte count of the component wraps.
abbrev pub largest_capacity : ℕ
largest_capacity = 2 ^ 60

pub record IsValid (a : PointerArray) : Type 0 where
  pub block : length a.memory ≡ a.capacity
  pub within : a.size ≤ a.capacity
  pub small : a.capacity ≤ largest_capacity

-- The pointers that a client can see.
abbrev pub contents : PointerArray → List ℕ
contents a = take a.size a.memory
