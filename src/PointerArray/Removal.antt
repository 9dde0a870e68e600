-- ===== src/PointerArray/Removal.antt =====
-- `pointer_array_remove_range`: what it does at the end of the array, and where its cell offsets,
-- which are eight times too large, take it.
use feng_shui.Prelude.{
  ℕ, ◌+◌, ◌-◌, ◌*◌, ◌/◌, ◌^◌, ◌≤◌, ◌<◌, ◌≡◌, ◌≢◌, refl, sym, ap, ◌∙◌, false, none, some, List, ◌++◌,
  arith, u64, leb, length, take, drop, take-append_left, length-take, length-drop, take-take, bind,
}
use feng_shui.PointerArray.{PointerArray, word, move, remove_range}
use feng_shui.PointerArray.Invariant.{IsValid, contents}

move-nothing : (memory : List ℕ) (to from : ℕ) → move memory to from 0 ≡ some memory
unfolding move
move-nothing memory to from = refl

move-outside :
    (memory : List ℕ) (to from n : ℕ)
    → n ≢ 0
    → length memory < from + n
    → move memory to from n ≡ none
unfolding move
move-outside memory to from n ne out = ground arith

move-inside :
    (memory : List ℕ) (to from n : ℕ)
    → n ≢ 0
    → to + n ≤ length memory
    → from + n ≤ length memory
    → move memory to from n
      ≡ some (take to memory ++ (take n (drop from memory) ++ drop (to + n) memory))
unfolding move
move-inside memory to from n ne h k = ground arith

-- The arguments of `memmove`, which wrap nowhere on a valid array.
module _ (a : PointerArray) (from count : ℕ) (v : IsValid a) (h : from + count ≤ a.size) where
  abbrev moved : ℕ
  moved = a.size - (from + count)

  end_fits : u64 (from + count) ≡ from + count
  end_fits = omega (arith, v.small, v.within)

  target_fits : u64 (from * word) ≡ from * word
  target_fits = omega (arith, v.small, v.within)

  source_fits : u64 (u64 (from + count) * word) ≡ (from + count) * word
  source_fits = omega (arith, v.small, v.within)

  bytes_fit : u64 ((a.size + 2 ^ 64 * 2 - from - count) * word) / word ≡ moved
  bytes_fit = omega (arith, v.small, v.within)

  size_fits : u64 (a.size + 2 ^ 64 - count) ≡ a.size - count
  size_fits = omega (arith, v.small, v.within)

  -- What the call comes to.
  pub remove_range-move :
      from + count < a.capacity
      → remove_range a from count
        ≡ bind
            (move a.memory (from * word) ((from + count) * word) moved)
            (λ memory. some (record a { memory = memory; size = a.size - count }))
  unfolding remove_range
  remove_range-move inside =
      rw (source_fits, target_fits, bytes_fit, size_fits, end_fits) (rw (outside) refl)
    where
      outside : leb a.capacity (from + count) ≡ false
      outside = ground arith

-- Removing the last pointers of a valid array that is not full leaves a valid array with those in
-- front of them.
pub remove_range-end :
    (a : PointerArray) (from count : ℕ)
    → IsValid a
    → from + count ≡ a.size
    → a.size < a.capacity
    → (b : PointerArray) × (remove_range a from count ≡ some b)
      × IsValid b
      × (contents b ≡ take from (contents a))
remove_range-end a from count v h room = (
  record a { size = a.size - count },
  remove_range-move a from count v (omega arith) (omega arith) ∙ untouched,
  record { block = v.block; within = omega arith; small = v.small },
  ap (λ (n : ℕ). take n a.memory) kept ∙ sym (take-take from a.size a.memory (omega arith)),
)
  where
    kept : a.size - count ≡ from
    kept = omega arith

    none_moved : a.size - (from + count) ≡ 0
    none_moved = omega arith

    untouched :
        bind
          (move a.memory (from * word) ((from + count) * word) (a.size - (from + count)))
          (λ memory. some (record a { memory = memory; size = a.size - count }))
        ≡ some (record a { size = a.size - count })
    untouched = rw (none_moved, move-nothing)

-- Removing before the end: where the cells from eight times the range's end on do not lie in the
-- block, the call runs outside it.
pub remove_range_faults :
    (a : PointerArray) (from count : ℕ)
    → IsValid a
    → from + count < a.size
    → a.capacity < (from + count) * 8 + (a.size - (from + count))
    → remove_range a from count ≡ none
remove_range_faults a from count v h outside =
    remove_range-move a from count v (omega arith) (omega (arith, v.within))
    ∙ rw (
        move-outside a.memory (from * word) ((from + count) * word) (a.size - (from + count))
          (omega arith) (omega (arith, v.block)))

-- Where the cells from `8 * count` on lie in the block of a valid array, removing its first `count`
-- pointers, but not all, leaves those cells as the contents, not the pointers behind the first.
pub remove_range_misplaces :
    (a : PointerArray) (count : ℕ)
    → IsValid a
    → count < a.size
    → count * 8 + (a.size - count) ≤ a.capacity
    → (b : PointerArray) × (remove_range a 0 count ≡ some b)
      × (contents b ≡ take (a.size - count) (drop (count * 8) a.memory))
remove_range_misplaces a count v h inside = (
  record a { memory = after; size = n },
  remove_range-move a 0 count v (omega arith) (omega (arith, v.within))
      ∙ rw (from_zero count) (
          rw (
            move-inside a.memory 0 (count * word) n (omega arith) (omega (arith, v.block))
                (omega (arith, v.block)),
            from_zero n,
          )),
  take-append_left n (take n (drop (count * 8) a.memory)) (drop n a.memory) (
        omega (
          arith,
          length-take n (drop (count * 8) a.memory),
          length-drop (count * 8) a.memory,
          v.block,
        ))
      ∙ take-take n n (drop (count * 8) a.memory) (omega arith),
)
  where
    n : ℕ
    n = a.size - count

    from_zero : (c : ℕ) → 0 + c ≡ c
    from_zero c = omega arith

    after : List ℕ
    after = take n (drop (count * 8) a.memory) ++ drop n a.memory
