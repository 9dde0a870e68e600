-- ===== src/PointerArray/Grow.antt =====
-- Growing an array keeps what it holds and makes room.
use native.Mathlib.Nat.{mod-eq_of_lt}
use feng_shui.Prelude.{
  suc, ℕ, ◌+◌, ◌-◌, ◌*◌, ◌/◌, ◌^◌, ◌≤◌, ◌<◌, ◌≡◌, refl, ap, ◌∙◌, Bool, true, some, [], ◌∷◌, ◌++◌,
  u64, arith, take, replicate, set, write-some, length-append, length-replicate, length-set,
  take-all, take-append_left, take-set_end,
}
use feng_shui.Numbers.Rounding.{round_up-least}
use feng_shui.PointerArray.{PointerArray, word, grown_capacity, grow, reallocated, store_last}
use feng_shui.PointerArray.Invariant.{IsValid, largest_capacity, contents}

-- What `pointer_array_grow` needs: a capacity that multiplying enlarges, no wrap, and the memory.
pub record Growable (granted : ℕ → Bool) (a : PointerArray) : Type 0 where
  pub nonempty : 1 ≤ a.capacity
  pub factor : 2 ≤ a.resize_factor
  pub bounded : a.resize_factor * a.capacity ≤ largest_capacity
  pub memory : granted (grown_capacity a * word) ≡ true

product-fits : (f c : ℕ) → f * c ≤ 2 ^ 60 → u64 (f * c) ≡ f * c
product-fits f c h = mod-eq_of_lt (omega arith)

-- A capacity of at least 1 is at least doubled.
pub grown_capacity_bounds :
    (a : PointerArray)
    → 1 ≤ a.capacity
    → 2 ≤ a.resize_factor
    → a.resize_factor * a.capacity ≤ largest_capacity
    → (2 * a.capacity ≤ grown_capacity a) × (grown_capacity a ≤ largest_capacity)
unfolding grown_capacity
grown_capacity_bounds a n f b =
    let (k, found, above, least) =
      round_up-least (a.resize_factor * a.capacity) (grind arith) (omega arith) in
    rw (product-fits a.resize_factor a.capacity b) (rw found (grind arith, least 60 b))

module _ (granted : ℕ → Bool) (junk : ℕ) where
  grow-memory :
      (a : PointerArray)
      → IsValid a
      → Growable granted a
      → (grow granted junk a).memory ≡ a.memory ++ replicate (grown_capacity a - a.capacity) junk
  unfolding grow reallocated
  grow-memory a v g =
      rw (cells, g.memory, words)
        (rw (v.block, take-all (grown_capacity a) a.memory (omega (arith, bounds, v.block))))
    where
      bounds : (2 * a.capacity ≤ grown_capacity a) × (grown_capacity a ≤ largest_capacity)
      bounds = grown_capacity_bounds a g.nonempty g.factor g.bounded

      cells : u64 (grown_capacity a * word) ≡ grown_capacity a * word
      cells = omega (arith, bounds)

      words : grown_capacity a * word / word ≡ grown_capacity a
      words = omega arith

  -- Growing keeps the array valid and its contents, and makes room.
  pub grow-IsValid :
      (a : PointerArray)
      → IsValid a
      → Growable granted a
      → IsValid (grow granted junk a)
        × (2 * a.capacity ≤ (grow granted junk a).capacity)
        × (contents (grow granted junk a) ≡ contents a)
  unfolding grow
  grow-IsValid a v g = (
    record {
      block =
          rw (grow-memory a v g, length-append)
            (omega (arith, length-replicate (grown_capacity a - a.capacity) junk, v.block, bounds));
      within = omega (arith, bounds, v.within);
      small = bounds.1;
    },
    bounds.0,
    rw (grow-memory a v g) (take-append_left a.size a.memory _ (omega (arith, v.within, v.block))),
  )
    where
      bounds : (2 * a.capacity ≤ grown_capacity a) × (grown_capacity a ≤ largest_capacity)
      bounds = grown_capacity_bounds a g.nonempty g.factor g.bounded

pub store_last-some :
    (a : PointerArray) (value : ℕ)
    → IsValid a
    → a.size < a.capacity
    → (b : PointerArray) × (store_last a value ≡ some b)
      × IsValid b
      × (contents b ≡ contents a ++ value ∷ [])
unfolding store_last
store_last-some a value v room = (
  record a { memory = set a.memory a.size value; size = u64 (a.size + 1) },
  rw (write-some a.memory a.size value (omega (arith, v.block))),
  record {
    block = length-set a.memory a.size value ∙ v.block;
    within = omega arith;
    small = v.small;
  },
  ap (λ (n : ℕ). take n (set a.memory a.size value)) counted
      ∙ take-set_end a.size a.memory value (omega (arith, v.block)),
)
  where
    counted : u64 (a.size + 1) ≡ suc a.size
    counted = omega (arith, v.small)

pub size-grow :
    (granted : ℕ → Bool) (junk : ℕ) (a : PointerArray) → (grow granted junk a).size ≡ a.size
unfolding grow
size-grow granted junk a = refl
