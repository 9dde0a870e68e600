-- ===== src/Events/Finding.antt =====
-- Finding a field after the fields have changed.
use feng_shui.Prelude.{
  ℕ, suc, ◌≡◌, ◌⊎◌, inl, inr, refl, ap, arith, true, false, Bool-cases, none, some, List, [], ◌∷◌,
  ◌++◌, length, set, map, All,
}
use mathlib.Core.Path.{subst}
use feng_shui.Events.{Field, same, find}

pub same_refl : (xs : List ℕ) → same xs xs ≡ true
same_refl [] = refl
same_refl (x ∷ xs) = rw (same_refl xs) (ground arith)

pub same→eq : (xs ys : List ℕ) → same xs ys ≡ true → xs ≡ ys
same→eq [] [] h = refl
same→eq [] (y ∷ ys) h = cc
same→eq (x ∷ xs) [] h = cc
same→eq (x ∷ xs) (y ∷ ys) h = ground (arith, same→eq xs ys)

-- The first field of the name, and where it is.
pub data IsAt (name : List ℕ) : List Field → ℕ → Field → Type 0 where
  here : (f : Field) (fields : List Field) → same name f.name ≡ true → IsAt name (f ∷ fields) 0 f
  later :
      (g : Field) (fields : List Field) (i : ℕ) (f : Field)
      → same name g.name ≡ false
      → IsAt name fields i f
      → IsAt name (g ∷ fields) (suc i) f

abbrev pub names : List Field → List (List ℕ)
names fields = map (λ (f : Field). f.name) fields

-- No field has the name.
abbrev pub IsAbsent : List ℕ → List Field → Type 0
IsAbsent name fields = All (λ (f : Field). same name f.name ≡ false) fields

pub find-cases :
    (name : List ℕ) (fields : List Field)
    → ((find name fields ≡ none) × IsAbsent name fields)
      ⊎ ((i : ℕ) × (f : Field) × (find name fields ≡ some (i, f)) × IsAt name fields i f)
unfolding find
find-cases name [] = inl (refl, tt)
find-cases name (g ∷ fields) = elim (Bool-cases (same name g.name)) [
  | inl match ↦ inr (0, g, rw (match) refl, here g fields match)
  | inr other ↦ elim (find-cases name fields) [
    | inl (missing, away) ↦ inl (rw (other, missing, find) refl, (other, away))
    | inr (i, f, found, at) ↦
        inr (suc i, f, rw (other, found, find) refl, later g fields i f other at)
  ]
]

pub find-IsAt :
    {name : List ℕ} {fields : List Field} {i : ℕ} {f : Field}
    → IsAt name fields i f
    → find name fields ≡ some (i, f)
unfolding find
find-IsAt (here f fields match) = rw (match) refl
find-IsAt (later g fields i f other at) = rw (other, find-IsAt at, find) refl

pub find-IsAbsent :
    (name : List ℕ) (fields : List Field) → IsAbsent name fields → find name fields ≡ none
unfolding find
find-IsAbsent name [] away = refl
find-IsAbsent name (g ∷ fields) (other, away) =
    rw (other, find-IsAbsent name fields away, find) refl

-- A field that is not there goes to the end.
pub append-IsAt :
    {name : List ℕ} (fields : List Field) (f : Field)
    → IsAbsent name fields
    → same name f.name ≡ true
    → IsAt name (fields ++ f ∷ []) (length fields) f
append-IsAt [] f away match = here f [] match
append-IsAt (g ∷ fields) f (other, away) match =
    later g (fields ++ f ∷ []) (length fields) f other (append-IsAt fields f away match)

module _ (write : Field → Field) (keeps : (f : Field) → (write f).name ≡ f.name) where
  pub set-IsAt :
      {name : List ℕ} {fields : List Field} {i : ℕ} {f : Field}
      → IsAt name fields i f
      → IsAt name (set fields i (write f)) i (write f)
  set-IsAt {name} (here f fields match) = here (write f) fields (rw (keeps) match)
  set-IsAt (later g fields i f other at) =
      later g (set fields i (write f)) i (write f) other (set-IsAt at)

  -- The other names find what they found.
  pub find-set_other :
      {name : List ℕ} {fields : List Field} {i : ℕ} {f : Field} (other : List ℕ)
      → IsAt name fields i f
      → same other name ≡ false
      → find other (set fields i (write f)) ≡ find other fields
  unfolding find
  find-set_other {name} other (here f fields match) apart = rw (keeps, differs, find) refl
    where
      differs : same other f.name ≡ false
      differs = subst (λ (n : List ℕ). same other n ≡ false) (same→eq name f.name match) apart
  find-set_other other (later g fields i f away at) apart =
      rw (find-set_other other at apart, find) refl

  pub names-set :
      {name : List ℕ} {fields : List Field} {i : ℕ} {f : Field}
      → IsAt name fields i f
      → names (set fields i (write f)) ≡ names fields
  names-set (here f rest match) = ap (λ (n : List ℕ). n ∷ names rest) (keeps f)
  names-set (later g rest j f away at) = ap (◌∷◌ g.name) (names-set at)

pub find-append_other :
    (other : List ℕ) (fields : List Field) (f : Field)
    → same other f.name ≡ false
    → find other (fields ++ f ∷ []) ≡ find other fields
unfolding find
find-append_other other [] f apart = rw (apart) refl
find-append_other other (g ∷ fields) f apart =
    rw (find-append_other other fields f apart, find) refl
