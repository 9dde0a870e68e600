-- ===== src/StaticBuffers/Ownership.antt =====
-- Who owns which buffer: every id is free or lent, and never both.
use mathlib.Core.List.{
  Perm, Mem, Nodup, mem-cons_self, append_assoc, not-mem-nil, mem-cons, mem-append_right, Nodup-nil,
  Nodup-cons, Nodup-append,
}
use mathlib.Core.List.Perm
use mathlib.Core.Logic.Or
use mathlib.Core.Path.{subst}
use native.Mathlib.Bridge.{le_prop}
use feng_shui.Prelude.{
  ℕ, zero, suc, ◌+◌, ◌-◌, ◌≤◌, ◌<◌, ◌≡◌, ◌≢◌, sym, ap, ◌∙◌, some, List, [], ◌∷◌, ◌++◌, arith,
  length, take, set, get_elem?, take-suc, take-set_end, length-set, get_elem?-set_self,
}
use feng_shui.Prelude.Int.{pos}
use feng_shui.StaticBuffers.{StaticBuffers, push, pop, used, cleared, module_error_code}

-- 0 to n - 1, highest first.
abbrev pub ids_below : ℕ → List ℕ
ids_below zero = []
ids_below (suc n) = n ∷ ids_below n

-- The ids that `pop` has still to hand out.
abbrev pub free : StaticBuffers → List ℕ
free pool = take pool.available pool.ids

-- `lent` are the ids that clients hold.
pub record Owns (pool : StaticBuffers) (lent : List ℕ) : Type 0 where
  pub slots : length pool.ids ≡ pool.capacity
  pub blocks : length pool.buffers ≡ pool.capacity
  pub within : pool.available ≤ pool.capacity
  pub counted : pool.available + length lent ≡ pool.capacity
  pub shares : Perm (free pool ++ lent) (ids_below pool.capacity)

mem-ids_below : (n x : ℕ) → Mem x (ids_below n) → x < n
mem-ids_below zero x m = absurd (not-mem-nil m)
mem-ids_below (suc n) x m =
    Or.elim le_prop (mem-cons.0 m) (λ e. omega arith) (λ r. omega (arith, mem-ids_below n x r))

ids_below-Nodup : (n : ℕ) → Nodup (ids_below n)
ids_below-Nodup zero = Nodup-nil
ids_below-Nodup (suc n) =
    Nodup-cons.1 (λ m. absurd (omega (arith, mem-ids_below n n m)), ids_below-Nodup n)

-- What clients hold has no id twice, and no id out of range.
pub Owns-lent :
    {pool : StaticBuffers} {lent : List ℕ}
    → Owns pool lent
    → Nodup lent × ((id : ℕ) → Mem id lent → id < pool.capacity)
Owns-lent {pool} {lent} o = (
  (Nodup-append.0 (Perm.nodup (Perm.symm o.shares) (ids_below-Nodup pool.capacity))).1,
  λ id m.
      mem-ids_below pool.capacity id ((Perm.mem_iff o.shares).0 (mem-append_right (free pool) m)),
)

popped : StaticBuffers → StaticBuffers
popped pool = record pool { available = pool.available - 1 }

module _ (pool : StaticBuffers) (lent : List ℕ) (o : Owns pool lent) where
  popped-Owns :
      (id : ℕ)
      → pool.available ≢ 0
      → take (suc (pool.available - 1)) pool.ids ≡ take (pool.available - 1) pool.ids ++ id ∷ []
      → Owns (popped pool) (id ∷ lent)
  unfolding popped
  popped-Owns id h parts = record {
    slots = o.slots;
    blocks = o.blocks;
    within = omega (arith, o.within);
    counted = omega (arith, o.counted);
    shares = subst (λ (xs : List ℕ). Perm xs (ids_below pool.capacity)) moved o.shares;
  }
    where
      counted : pool.available ≡ suc (pool.available - 1)
      counted = omega arith

      moved : free pool ++ lent ≡ take (pool.available - 1) pool.ids ++ id ∷ lent
      moved =
          ap (λ (xs : List ℕ). xs ++ lent) (ap (λ (n : ℕ). take n pool.ids) counted ∙ parts)
          ∙ append_assoc (take (pool.available - 1) pool.ids) (id ∷ []) lent

  pop-popped :
      (id : ℕ)
      → pool.available ≢ 0
      → get_elem? pool.ids (pool.available - 1) ≡ some id
      → pop pool ≡ some (pos id, popped pool)
  unfolding pop popped
  pop-popped id h found = ground arith

  -- From a pool that has one, `pop` takes a free id, which is lent from then on.
  pub pop-Owns :
      pool.available ≢ 0
      → (id : ℕ) × (pool' : StaticBuffers) × (pop pool ≡ some (pos id, pool'))
        × Owns pool' (id ∷ lent)
  pop-Owns h =
      let (id, found, parts) =
        take-suc (pool.available - 1) pool.ids (omega (arith, o.slots, o.within)) in
      (id, popped pool, pop-popped id h found, popped-Owns id h parts)

  -- From an empty pool it gives the error code, and changes nothing.
  pub pop-empty : pool.available ≡ 0 → pop pool ≡ some (module_error_code, pool)
  unfolding pop
  pop-empty h = ground arith

pushed : StaticBuffers → ℕ → StaticBuffers
pushed pool id = record pool {
  buffers = set pool.buffers id (cleared pool.size);
  ids = set pool.ids pool.available id;
  available = pool.available + 1;
}

module _ (pool : StaticBuffers) (id : ℕ) (lent : List ℕ) (o : Owns pool (id ∷ lent)) where
  id_fits : id < pool.capacity
  id_fits = (Owns-lent o).1 id mem-cons_self

  push-pushed : push pool (pos id) ≡ some (pushed pool id)
  unfolding push pushed
  push-pushed = ground (arith, id_fits, o.blocks, o.slots, o.counted)

  pushed-Owns : Owns (pushed pool id) lent
  unfolding pushed
  pushed-Owns = record {
    slots = length-set pool.ids pool.available id ∙ o.slots;
    blocks = length-set pool.buffers id (cleared pool.size) ∙ o.blocks;
    within = omega (arith, o.counted);
    counted = omega (arith, o.counted);
    shares = subst (λ (xs : List ℕ). Perm xs (ids_below pool.capacity)) (sym moved) o.shares;
  }
    where
      next : pool.available + 1 ≡ suc pool.available
      next = omega arith

      moved :
          take (pool.available + 1) (set pool.ids pool.available id) ++ lent
          ≡ free pool ++ id ∷ lent
      moved =
          ap (λ (n : ℕ). take n (set pool.ids pool.available id) ++ lent) next
          ∙ ap (λ (xs : List ℕ). xs ++ lent)
              (take-set_end pool.available pool.ids id (omega (arith, o.slots, o.counted)))
          ∙ append_assoc (free pool) (id ∷ []) lent

  -- Giving back a lent id makes it free again, with its buffer cleared to its full length.
  pub push-Owns :
      (pool' : StaticBuffers) × (push pool (pos id) ≡ some pool')
      × Owns pool' lent
      × (get_elem? pool'.buffers id ≡ some (cleared pool.size))
  push-Owns = (
    pushed pool id,
    push-pushed,
    pushed-Owns,
    unfold pushed in
        get_elem?-set_self pool.buffers id (cleared pool.size) (omega (arith, id_fits, o.blocks)),
  )

-- `used` counts the ids that clients hold.
pub used-Owns : (pool : StaticBuffers) (lent : List ℕ) → Owns pool lent → used pool ≡ length lent
unfolding used
used-Owns pool lent o = omega (arith, o.counted)
