-- ===== src/StaticBuffers/Creation.antt =====
-- `memory_static_buffers_create` ends with a pool of which every id is free, or with none.
use mathlib.Core.List.{Perm, perm_middle, append-nil}
use mathlib.Core.List.Perm
use mathlib.Core.Path.{subst}
use feng_shui.Prelude.{
  ℕ, zero, suc, ◌+◌, ◌*◌, ◌^◌, ◌≤◌, ◌<◌, ◌≡◌, if◌then◌else◌, inl, inr, refl, sym, ap, ◌∙◌, Bool,
  some, List, [], ◌∷◌, ◌++◌, arith, u32, Bool-cases, ◌&&◌, length, take, set, take-set_end,
  length-set, length-replicate,
}
use feng_shui.StaticBuffers.{
  StaticBuffers, Created, created, null, panic, fault, fill_slot, fill_slots, unset, unfilled,
  create, cleared, pool_bytes,
}
use feng_shui.StaticBuffers.Ownership.{Owns, ids_below, free}

-- The state of the loop with `index` buffers made.
record Filling (pool : StaticBuffers) (capacity size index : ℕ) : Type 0 where
  done : pool.available ≡ index
  room : pool.capacity ≡ capacity
  sized : pool.size ≡ size
  slots : length pool.ids ≡ capacity
  blocks : length pool.buffers ≡ capacity
  made : Perm (free pool) (ids_below index)

filled : StaticBuffers → ℕ → StaticBuffers
filled pool index = record pool {
  buffers = set pool.buffers index (cleared pool.size);
  ids = set pool.ids pool.available index;
  available = pool.available + 1;
}

module _ {capacity size index : ℕ} (pool : StaticBuffers) (f : Filling pool capacity size index)
    (h : index < capacity) where
  fill_slot-filled : fill_slot pool index ≡ some (filled pool index)
  unfolding fill_slot filled
  fill_slot-filled = ground (arith, f.done, f.slots, f.blocks)

  filled-Filling : Filling (filled pool index) capacity size (suc index)
  unfolding filled
  filled-Filling = record {
    done = omega (arith, f.done);
    room = f.room;
    sized = f.sized;
    slots = length-set pool.ids pool.available index ∙ f.slots;
    blocks = length-set pool.buffers index (cleared pool.size) ∙ f.blocks;
    made = subst (λ (xs : List ℕ). Perm xs (ids_below (suc index))) (sym extended) grown;
  }
    where
      next : pool.available + 1 ≡ suc pool.available
      next = omega arith

      extended :
          take (pool.available + 1) (set pool.ids pool.available index) ≡ free pool ++ index ∷ []
      extended =
          ap (λ (n : ℕ). take n (set pool.ids pool.available index)) next
          ∙ take-set_end pool.available pool.ids index (omega (arith, f.done, f.slots))

      grown : Perm (free pool ++ index ∷ []) (ids_below (suc index))
      grown = Perm.trans (perm_middle (free pool) []) (
          subst (λ (xs : List ℕ). Perm (index ∷ xs) (ids_below (suc index)))
            (sym (append-nil (free pool))) (Perm.cons index f.made))

  advance : Filling (filled pool index) capacity size (index + 1)
  advance =
      subst (λ (n : ℕ). Filling (filled pool index) capacity size n) (count index) filled-Filling
    where
      count : (n : ℕ) → suc n ≡ n + 1
      count n = omega arith

  fill_slots-round :
      (aligned : ℕ → Bool) (rounds : ℕ)
      → fill_slots aligned (suc rounds) index pool ≡ (
          if aligned index then fill_slots aligned rounds (index + 1) (filled pool index) else null)
  unfolding fill_slots
  fill_slots-round aligned rounds = rw (fill_slot-filled, fill_slots)

-- Each way the loop may end.
abbrev IsFilled : ℕ → ℕ → Created StaticBuffers → Type 0
IsFilled capacity size (created pool) = Filling pool capacity size capacity
IsFilled capacity size null = Unit
IsFilled capacity size panic = ⊥
IsFilled capacity size fault = ⊥

abbrev pub IsCreated : ℕ → ℕ → Created StaticBuffers → Type 0
IsCreated capacity size (created pool) =
    Owns pool [] × (pool.capacity ≡ capacity) × (pool.available ≡ capacity) × (pool.size ≡ size)
IsCreated capacity size null = Unit
IsCreated capacity size panic = Unit
IsCreated capacity size fault = ⊥

fill_slots-IsFilled :
    (aligned : ℕ → Bool) (capacity size rounds index : ℕ) (pool : StaticBuffers)
    → index + rounds ≡ capacity
    → Filling pool capacity size index
    → IsFilled capacity size (fill_slots aligned rounds index pool)
fill_slots-IsFilled aligned capacity size zero index pool e f =
    unfold fill_slots in subst (λ (n : ℕ). Filling pool capacity size n) (omega arith) f
fill_slots-IsFilled aligned capacity size (suc rounds) index pool e f =
    subst (IsFilled capacity size) (sym (fill_slots-round pool f (omega arith) aligned rounds))
      (elim (Bool-cases (aligned index)) [
        | inl more ↦
            rw (more, IsFilled)
              (fill_slots-IsFilled aligned capacity size rounds (index + 1) (filled pool index)
                (omega arith) (advance pool f (omega arith)))
        | inr stop ↦ rw (stop, IsFilled) tt
      ])

unfilled-Filling :
    (capacity size : ℕ) → capacity ≤ 2 ^ 31 → Filling (unfilled capacity size) capacity size 0
unfolding unfilled
unfilled-Filling capacity size small = record {
  done = refl;
  room = refl;
  sized = refl;
  slots = length-replicate (u32 capacity) 0 ∙ fits;
  blocks = length-replicate (u32 capacity) unset ∙ fits;
  made = Perm.nil;
}
  where
    fits : u32 capacity ≡ capacity
    fits = omega arith

Filling-Owns :
    {capacity size : ℕ} (pool : StaticBuffers) → Filling pool capacity size capacity → Owns pool []
Filling-Owns {capacity} pool f = record {
  slots = f.slots ∙ sym f.room;
  blocks = f.blocks ∙ sym f.room;
  within = omega (arith, f.done, f.room);
  counted = omega (arith, f.done, f.room);
  shares =
      subst (λ (xs : List ℕ). Perm xs (ids_below pool.capacity)) (sym (append-nil (free pool)))
        (subst (λ (n : ℕ). Perm (free pool) (ids_below n)) (sym f.room) f.made);
}

IsFilled-IsCreated :
    (capacity size : ℕ) (c : Created StaticBuffers)
    → IsFilled capacity size c
    → IsCreated capacity size c
IsFilled-IsCreated capacity size (created pool) f = (Filling-Owns pool f, f.room, f.done, f.sized)
IsFilled-IsCreated capacity size null f = tt
IsFilled-IsCreated capacity size panic f = tt
IsFilled-IsCreated capacity size fault f = f

-- A pool that `memory_static_buffers_create` returns has every id free, for a capacity of at most
-- 2 ^ 31; the call never runs outside its memory.
pub create-Owns :
    (granted aligned : ℕ → Bool) (capacity size : ℕ)
    → capacity ≤ 2 ^ 31
    → IsCreated capacity size (create granted aligned capacity size)
unfolding create
create-Owns granted aligned capacity size small =
    elim (Bool-cases
      (granted pool_bytes && granted (u32 capacity * 4) && granted (u32 capacity * 16))) [
        | inl enough ↦
            rw (IsCreated, create, enough)
              (IsFilled-IsCreated capacity size
                (fill_slots aligned capacity 0 (unfilled capacity size))
                (fill_slots-IsFilled aligned capacity size capacity 0 (unfilled capacity size)
                  (omega arith) (unfilled-Filling capacity size small)))
        | inr missing ↦ rw (IsCreated, create, missing) tt
      ]
