-- ===== src/StaticBuffers/Sessions.antt =====
-- Clients that take buffers and give back what they hold, in any order.
use mathlib.Core.List.{Perm, Nodup, perm_middle}
use mathlib.Core.List.Perm
use mathlib.Core.Path.{subst, subst₂}
use feng_shui.Prelude.{
  ℕ, ◌<◌, ◌≡◌, sym, ◌∙◌, arith, ℕ_discrete, Option, some, List, ◌∷◌, ◌++◌, length, length-append,
  All, All-Mem,
}
use feng_shui.Prelude.Int.{ℤ, pos}
use feng_shui.StaticBuffers.{StaticBuffers, push, pop, used, module_error_code}
use feng_shui.StaticBuffers.Ownership.{
  Owns, free, Owns-lent, pop-Owns, pop-empty, push-Owns, used-Owns,
}

-- A pool, and the ids that clients hold.
pub record Session : Type 0 where
  pub pool : StaticBuffers
  pub lent : List ℕ

pub data Step (s : Session) : Session → Type 0 where
  take :
      (id : ℕ) (pool : StaticBuffers)
      → pop s.pool ≡ some (pos id, pool)
      → Step s (record { pool = pool; lent = id ∷ s.lent })
  refused : s.pool.available ≡ 0 → Step s s
  give :
      (before after : List ℕ) (id : ℕ) (pool : StaticBuffers)
      → s.lent ≡ before ++ id ∷ after
      → push s.pool (pos id) ≡ some pool
      → Step s (record { pool = pool; lent = before ++ after })

pub data Reach (s : Session) : Session → Type 0 where
  here : Reach s s
  later : {t u : Session} → Reach s t → Step t u → Reach s u

-- The order in which clients hold their ids does not matter.
Owns-perm :
    {pool : StaticBuffers} {xs ys : List ℕ}
    → Perm xs ys
    → length xs ≡ length ys
    → Owns pool xs
    → Owns pool ys
Owns-perm {pool} p e o = record {
  slots = o.slots;
  blocks = o.blocks;
  within = o.within;
  counted = omega (arith, o.counted);
  shares = Perm.trans (Perm.append_left (free pool) (Perm.symm p)) o.shares;
}

length-middle : (xs ys : List ℕ) (id : ℕ) → length (xs ++ id ∷ ys) ≡ length (id ∷ (xs ++ ys))
length-middle xs ys id = omega (arith, length-append {0} xs (id ∷ ys), length-append {0} xs ys)

same_take :
    {a b : ℕ} {p q : StaticBuffers} (lent : List ℕ)
    → ◌≡◌ {A = Option (ℤ × StaticBuffers)} (some (pos a, p)) (some (pos b, q))
    → Owns p (a ∷ lent)
    → Owns q (b ∷ lent)
same_take {a} {b} {p} {q} lent e o =
    subst₂ (λ (r : StaticBuffers) (n : ℕ). Owns r (n ∷ lent)) (ground arith) (ground arith) o

same_give : {p q : StaticBuffers} (lent : List ℕ) → some p ≡ some q → Owns p lent → Owns q lent
same_give {p} {q} lent e o = subst (λ (r : StaticBuffers). Owns r lent) (ground arith) o

module _ (s : Session) (o : Owns s.pool s.lent) where
  take-Owns :
      (id : ℕ) (pool : StaticBuffers) → pop s.pool ≡ some (pos id, pool) → Owns pool (id ∷ s.lent)
  take-Owns id pool e = elim (ℕ_discrete s.pool.available 0) [
    | yes none_left ↦ absurd (clash (sym (pop-empty s.pool s.lent o none_left) ∙ e))
    | no left ↦
        let (id', pool', ran, owns) = pop-Owns s.pool s.lent o left in
        same_take s.lent (sym ran ∙ e) owns
  ]
    where
      clash :
          ◌≡◌ {A = Option (ℤ × StaticBuffers)}
            (some (module_error_code, s.pool))
            (some (pos id, pool))
          → ⊥
      clash h = ground arith

  give-Owns :
      (before after : List ℕ) (id : ℕ) (pool : StaticBuffers)
      → s.lent ≡ before ++ id ∷ after
      → push s.pool (pos id) ≡ some pool
      → Owns pool (before ++ after)
  give-Owns before after id pool e ran =
      let (pool', gave, owns, wiped) = push-Owns s.pool id (before ++ after) front in
      same_give (before ++ after) (sym gave ∙ ran) owns
    where
      front : Owns s.pool (id ∷ (before ++ after))
      front =
          Owns-perm (perm_middle before after) (length-middle before after id)
            (subst (Owns s.pool) e o)

Step-Owns : {s t : Session} → Step s t → Owns s.pool s.lent → Owns t.pool t.lent
Step-Owns {s} (take id pool e) o = take-Owns s o id pool e
Step-Owns (refused e) o = o
Step-Owns {s} (give before after id pool e ran) o = give-Owns s o before after id pool e ran

pub Reach-Owns : {s t : Session} → Owns s.pool s.lent → Reach s t → Owns t.pool t.lent
Reach-Owns o here = o
Reach-Owns o (later r st) = Step-Owns st (Reach-Owns o r)

-- However clients take ids, are refused, and give back what they hold, on a pool that owns its ids:
-- no id is held twice, every held id is in range, and `used` counts them.
pub exclusive :
    {s t : Session}
    → Owns s.pool s.lent
    → Reach s t
    → Nodup t.lent × All (λ (id : ℕ). id < t.pool.capacity) t.lent × (used t.pool ≡ length t.lent)
exclusive {s} {t} o r =
    let (once, inside) = Owns-lent (Reach-Owns o r) in
    (
      once,
      All-Mem (λ (id : ℕ). id < t.pool.capacity) t.lent inside,
      used-Owns t.pool t.lent (Reach-Owns o r),
    )

-- On such a pool a client gets an id whenever fewer ids than its capacity are held.
refused_only_full :
    {s t : Session}
    → Owns s.pool s.lent
    → Reach s t
    → length t.lent < t.pool.capacity
    → (id : ℕ) × (pool : StaticBuffers) × (pop t.pool ≡ some (pos id, pool))
refused_only_full {s} {t} o r h =
    let (id, pool, ran, owns) =
      pop-Owns t.pool t.lent (Reach-Owns o r) (omega (arith, (Reach-Owns o r).counted)) in
    (id, pool, ran)
