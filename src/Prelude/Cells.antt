-- ===== src/Prelude/Cells.antt =====
-- Chains of optional results, and cells of a block of memory.
use Prim.Native.Nat.{ℕ, zero, suc, ◌≤◌, ◌<◌}
use mathlib.Core.Path.{◌≡◌, refl, ap}
use mathlib.Core.Option.{Option, none, some}
use mathlib.Core.List.{List, [], ◌∷◌, ◌++◌}
use native.Mathlib.Omega.{arith}
use feng_shui.Prelude.Lists.{length, get_elem?, set, take}
use feng_shui.Prelude.Tests.{ltb, if◌then◌else◌}

abbrev pub bind {ℓ κ} : {A : Type ℓ} {B : Type κ} → Option A → (A → Option B) → Option B
bind none f = none
bind (some a) f = f a

module _ {ℓ} {A : Type ℓ} where
  -- A write outside the block is a fault.
  abbrev pub write : List A → ℕ → A → Option (List A)
  write xs i v = if ltb i (length xs) then some (set xs i v) else none

  pub write-some : (xs : List A) (i : ℕ) (v : A) → i < length xs → write xs i v ≡ some (set xs i v)
  write-some xs i v h = ground arith

  pub write-none : (xs : List A) (i : ℕ) (v : A) → length xs ≤ i → write xs i v ≡ none
  write-none xs i v h = ground arith

module _ {ℓ} {A : Type ℓ} where
  pub get_elem?-take :
      (n : ℕ) (xs : List A) (i : ℕ) → i < n → get_elem? (take n xs) i ≡ get_elem? xs i
  get_elem?-take zero xs i h = elim h [ ]
  get_elem?-take (suc n) [] i h = refl
  get_elem?-take (suc n) (x ∷ xs) zero h = refl
  get_elem?-take (suc n) (x ∷ xs) (suc i) h = get_elem?-take n xs i (omega arith)

  pub get_elem?-take_past : (n : ℕ) (xs : List A) (i : ℕ) → n ≤ i → get_elem? (take n xs) i ≡ none
  get_elem?-take_past zero xs i h = refl
  get_elem?-take_past (suc n) [] i h = refl
  get_elem?-take_past (suc n) (x ∷ xs) zero h = elim h [ ]
  get_elem?-take_past (suc n) (x ∷ xs) (suc i) h = get_elem?-take_past n xs i (omega arith)

  pub get_elem?-inside : (xs : List A) (i : ℕ) (v : A) → get_elem? xs i ≡ some v → i < length xs
  get_elem?-inside [] i v h = cc
  get_elem?-inside (x ∷ xs) zero v h = omega arith
  get_elem?-inside (x ∷ xs) (suc i) v h = omega (arith, get_elem?-inside xs i v h)

  -- Writing at the end of a prefix extends it.
  pub take-set_end :
      (n : ℕ) (xs : List A) (v : A)
      → n < length xs
      → take (suc n) (set xs n v) ≡ take n xs ++ v ∷ []
  take-set_end zero [] v h = elim h [ ]
  take-set_end zero (x ∷ xs) v h = refl
  take-set_end (suc n) [] v h = elim h [ ]
  take-set_end (suc n) (x ∷ xs) v h = ap (◌∷◌ x) (take-set_end n xs v (omega arith))

  -- A prefix is not changed by a write behind it.
  pub take-set_behind :
      (n : ℕ) (xs : List A) (i : ℕ) (v : A) → n ≤ i → take n (set xs i v) ≡ take n xs
  take-set_behind zero xs i v h = refl
  take-set_behind (suc n) [] i v h = refl
  take-set_behind (suc n) (x ∷ xs) zero v h = elim h [ ]
  take-set_behind (suc n) (x ∷ xs) (suc i) v h = ap (◌∷◌ x) (take-set_behind n xs i v (omega arith))

  -- The last cell of a prefix, apart.
  pub take-suc :
      (n : ℕ) (xs : List A)
      → n < length xs
      → (v : A) × (get_elem? xs n ≡ some v) × (take (suc n) xs ≡ take n xs ++ v ∷ [])
  take-suc n [] h = elim h [ ]
  take-suc zero (x ∷ xs) h = (x, refl, refl)
  take-suc (suc n) (x ∷ xs) h =
      let (v, found, parts) = take-suc n xs (omega arith) in (v, found, ap (◌∷◌ x) parts)

  pub take-append_left : (n : ℕ) (xs ys : List A) → n ≤ length xs → take n (xs ++ ys) ≡ take n xs
  take-append_left zero xs ys h = refl
  take-append_left (suc n) [] ys h = elim h [ ]
  take-append_left (suc n) (x ∷ xs) ys h = ap (◌∷◌ x) (take-append_left n xs ys (omega arith))

  pub take-all : (n : ℕ) (xs : List A) → length xs ≤ n → take n xs ≡ xs
  take-all zero [] h = refl
  take-all zero (x ∷ xs) h = elim h [ ]
  take-all (suc n) [] h = refl
  take-all (suc n) (x ∷ xs) h = ap (◌∷◌ x) (take-all n xs (omega arith))

  pub take-take : (n m : ℕ) (xs : List A) → n ≤ m → take n (take m xs) ≡ take n xs
  take-take zero m xs h = refl
  take-take (suc n) zero xs h = elim h [ ]
  take-take (suc n) (suc m) [] h = refl
  take-take (suc n) (suc m) (x ∷ xs) h = ap (◌∷◌ x) (take-take n m xs (omega arith))
