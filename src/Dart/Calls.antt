-- ===== src/Dart/Calls.antt =====
-- What comes of calls into Dart.
use feng_shui.Prelude.{
  ℕ, zero, suc, ◌≡◌, ◌⊎◌, inl, inr, refl, ap, true, false, ◌||◌, none, List, [], ◌∷◌, ◌++◌, All,
  Bool-cases,
}
use feng_shui.Dart.{
  Dart, Reply, back, propagated, dart_check_with_null, dart_from_string, dart_from_double, class_in,
  dart_find_class, dart_invoke, dart_call_static, dart_call_constructor,
}

module _ (dart : Dart) where
  open dart use {is_error, is_null, new_string, get_class, loaded_libraries}

  -- `dart_from_double` calls itself without end.
  pub from_double_endless : (fuel native : ℕ) → dart_from_double dart fuel native ≡ none
  unfolding dart_from_double
  from_double_endless zero native = refl
  from_double_endless (suc fuel) native =
      rw (from_double_endless fuel native, dart_from_double) refl

  -- A library in which no class is found.
  abbrev pub Skips : ℕ → ℕ → Type 0
  Skips text library =
      (is_error library ≡ false)
      × ((is_null library ≡ true)
          ⊎ ((is_null (get_class library text) || is_error (get_class library text)) ≡ true))

  pub data IsFirst (text : ℕ) (libraries : List ℕ) (out : Reply ℕ) : Type 0 where
    found :
        (before after : List ℕ) (library : ℕ)
        → libraries ≡ before ++ library ∷ after
        → All (Skips text) before
        → is_error library ≡ false
        → is_null library ≡ false
        → (is_null (get_class library text) || is_error (get_class library text)) ≡ false
        → out ≡ back (get_class library text)
        → IsFirst text libraries out
    nowhere : All (Skips text) libraries → out ≡ back 0 → IsFirst text libraries out
    stopped :
        (before after : List ℕ) (library : ℕ)
        → libraries ≡ before ++ library ∷ after
        → All (Skips text) before
        → is_error library ≡ true
        → out ≡ propagated library
        → IsFirst text libraries out

  behind :
      (text library : ℕ) (libraries : List ℕ) (out : Reply ℕ)
      → Skips text library
      → IsFirst text libraries out
      → IsFirst text (library ∷ libraries) out
  behind text library libraries out skip (found before after l parts skips a b c e) =
      found (library ∷ before) after l (ap (◌∷◌ library) parts) (skip, skips) a b c e
  behind text library libraries out skip (nowhere skips e) = nowhere (skip, skips) e
  behind text library libraries out skip (stopped before after l parts skips a e) =
      stopped (library ∷ before) after l (ap (◌∷◌ library) parts) (skip, skips) a e

  module _ (name : List ℕ) (fine : is_error (new_string name) ≡ false)
      (there : is_null (new_string name) ≡ false) where
    from_string : dart_from_string dart name ≡ back (new_string name)
    unfolding dart_from_string dart_check_with_null
    from_string = rw (fine, there, dart_from_string, dart_check_with_null) refl

    class_in-IsFirst :
        (libraries : List ℕ) → IsFirst (new_string name) libraries (class_in dart name libraries)
    unfolding class_in dart_check_with_null
    class_in-IsFirst [] = nowhere tt refl
    class_in-IsFirst (library ∷ libraries) = elim (Bool-cases (is_error library)) [
      | inl error ↦
          rw (error, class_in, dart_check_with_null)
            (stopped [] libraries library refl tt error refl)
      | inr ok ↦ elim (Bool-cases (is_null library)) [
        | inl null ↦
            rw (ok, null, class_in, dart_check_with_null)
              (behind _ library libraries _ (ok, inl null) (class_in-IsFirst libraries))
        | inr given ↦
            elim (Bool-cases (
              is_null (get_class library (new_string name))
              || is_error (get_class library (new_string name)))) [
                | inl none_here ↦
                    rw (ok, given, from_string, none_here, class_in, dart_check_with_null)
                      (behind _ library libraries _ (ok, inr none_here)
                        (class_in-IsFirst libraries))
                | inr here ↦
                    rw (ok, given, from_string, here, class_in, dart_check_with_null)
                      (found [] libraries library refl tt ok given here refl)
              ]
      ]
    ]

    -- When Dart makes a text of the name, `dart_find_class` gives the class of the first loaded
    -- library that has it, and passes over libraries that are null or have none; it gives NULL when
    -- no library has it. Only a library that is an error, met before, is propagated.
    pub find_class-IsFirst : IsFirst (new_string name) loaded_libraries (dart_find_class dart name)
    unfolding dart_find_class
    find_class-IsFirst = class_in-IsFirst loaded_libraries

  -- Of the arguments of a call only the first is passed on: what stands behind it has no effect.
  pub invoke_first_only :
      (owner argument : ℕ) (file class member : List ℕ) (arguments : List ℕ)
      → (dart_invoke dart owner member (argument ∷ arguments)
          ≡ dart_invoke dart owner member (argument ∷ []))
        × (dart_call_static dart file class member (argument ∷ arguments)
            ≡ dart_call_static dart file class member (argument ∷ []))
        × (dart_call_constructor dart owner member (argument ∷ arguments)
            ≡ dart_call_constructor dart owner member (argument ∷ []))
  unfolding dart_invoke dart_call_static dart_call_constructor
  invoke_first_only owner argument file class member arguments = (refl, refl, refl)
