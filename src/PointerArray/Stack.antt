-- ===== src/PointerArray/Stack.antt =====
-- Adding and removing at the end: the array is a stack of pointers.
use feng_shui.Prelude.{
  ℕ, suc, ◌-◌, ◌<◌, ◌≡◌, ◌≢◌, ◌⊎◌, inl, inr, sym, ap, ◌∙◌, Bool, true, some, List, [], ◌∷◌, ◌++◌,
  arith, leb, leb→le, Option, none, get_elem?-take_past, Bool-cases, take, set, get_elem?,
  get_elem?-take, write-some, length-set, take-set_behind, take-suc,
}
use feng_shui.PointerArray.{PointerArray, grow, add, store_last, get, remove_last}
use feng_shui.PointerArray.Invariant.{IsValid, contents}
use feng_shui.PointerArray.Grow.{Growable, grow-IsValid, size-grow, store_last-some}

room_to_grow :
    {granted : ℕ → Bool} (a : PointerArray)
    → IsValid a
    → leb a.capacity a.size ≡ true
    → (a.size < a.capacity) ⊎ Growable granted a
    → Growable granted a
room_to_grow a v full (inl space) = absurd (ground arith)
room_to_grow a v full (inr g) = g

module _ (granted : ℕ → Bool) (junk : ℕ) where
  after_growth :
      (a : PointerArray) (value : ℕ)
      → IsValid a
      → Growable granted a
      → (b : PointerArray) × (store_last (grow granted junk a) value ≡ some b)
        × IsValid b
        × (contents b ≡ contents a ++ value ∷ [])
  after_growth a value v g =
      let (valid, room, kept) = grow-IsValid granted junk a v g in
      rw (← kept) (
        store_last-some (grow granted junk a) value valid
          (omega (arith, size-grow granted junk a, room, g.nonempty, v.within)))

  -- On a valid array with room, or that can grow, `pointer_array_add` succeeds: the new array is
  -- valid, and holds what the old one held with the pointer behind it.
  pub add_appends :
      (a : PointerArray) (value : ℕ)
      → IsValid a
      → (a.size < a.capacity) ⊎ Growable granted a
      → (b : PointerArray) × (add granted junk a value ≡ some b)
        × IsValid b
        × (contents b ≡ contents a ++ value ∷ [])
  unfolding add
  add_appends a value v room = elim (Bool-cases (leb a.capacity a.size)) [
    | inl full ↦ rw full (after_growth a value v (room_to_grow a v full room))
    | inr space ↦ rw space (store_last-some a value v (ground arith))
  ]

-- What a reader that takes a missing element for NULL gets.
abbrev pub or_null : Option ℕ → ℕ
or_null none = 0
or_null (some p) = p

-- `pointer_array_get` reads the contents of a valid array, and gives NULL past their end.
pub get-contents :
    (a : PointerArray) (index : ℕ)
    → IsValid a
    → get a index ≡ some (or_null (get_elem? (contents a) index))
unfolding get
get-contents a index v = elim (Bool-cases (leb a.size index)) [
  | inl outside ↦
      rw (outside, get, get_elem?-take_past a.size a.memory index (leb→le a.size index outside))
  | inr inside ↦
      let h : index < a.size = ground arith in
      let (p, found, parts) = take-suc index a.memory (omega (arith, v.block, v.within)) in
      rw (inside, get, get_elem?-take a.size a.memory index h, found)
]

shortened : PointerArray → PointerArray
shortened a = record a { memory = set a.memory (a.size - 1) 0; size = a.size - 1 }

shortened-IsValid : (a : PointerArray) → IsValid a → IsValid (shortened a)
unfolding shortened
shortened-IsValid a v = record {
  block = length-set a.memory (a.size - 1) 0 ∙ v.block;
  within = omega arith;
  small = v.small;
}

pop_parts :
    (a : PointerArray) (last : ℕ)
    → IsValid a
    → a.size ≢ 0
    → get_elem? a.memory (a.size - 1) ≡ some last
    → take (suc (a.size - 1)) a.memory ≡ take (a.size - 1) a.memory ++ last ∷ []
    → (remove_last a ≡ some (last, shortened a))
      × (contents a ≡ contents (shortened a) ++ last ∷ [])
unfolding remove_last shortened
pop_parts a last v h found parts = (
  ground (arith, write-some a.memory (a.size - 1) 0),
  ap (λ (n : ℕ). take n a.memory) counted
      ∙ parts
      ∙ ap (λ (xs : List ℕ). xs ++ last ∷ [])
          (sym (take-set_behind (a.size - 1) a.memory (a.size - 1) 0 (omega arith))),
)
  where
    counted : a.size ≡ suc (a.size - 1)
    counted = omega arith

-- `pointer_array_remove_last` takes the last pointer off the contents of a valid array that is not
-- empty, and the array stays valid.
pub remove_last_pops :
    (a : PointerArray)
    → IsValid a
    → a.size ≢ 0
    → (last : ℕ) × (b : PointerArray) × (remove_last a ≡ some (last, b))
      × IsValid b
      × (contents a ≡ contents b ++ last ∷ [])
remove_last_pops a v h =
    let (last, found, parts) = take-suc (a.size - 1) a.memory (omega (arith, v.block)) in
    let (ran, split) = pop_parts a last v h found parts in
    (last, shortened a, ran, shortened-IsValid a v, split)
