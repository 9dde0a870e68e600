-- ===== src/Dart.antt =====
-- core/native/dart/dart.c: calls into Dart, and what is made of their results. The interface of Dart,
-- which is not part of the repository, is a parameter; a handle is a number, 0 for NULL, and its
-- functions give the same for the same arguments.
pub mod Calls
mod Tests
use feng_shui.Prelude.{
  ℕ, zero, suc, ◌≡◌, Bool, true, false, not, ◌||◌, Option, none, some, List, [], ◌∷◌, ◌==◌,
  if◌then◌else◌,
}
use feng_shui.Prelude.Int.{ℤ}

pub record Dart : Type 0 where
  pub is_error : ℕ → Bool
  pub is_null : ℕ → Bool
  pub new_string : List ℕ → ℕ
  pub new_integer : ℤ → ℕ
  pub new_unsigned : ℕ → ℕ
  pub new_boolean : Bool → ℕ
  pub lookup_library : ℕ → ℕ
  pub get_class : (library name : ℕ) → ℕ
  pub loaded_libraries : List ℕ
  pub call_member : (owner name : ℕ) (arguments : List ℕ) → ℕ
  pub call_new : (class name : ℕ) (arguments : List ℕ) → ℕ
  pub null : ℕ

-- `propagated` is `Dart_PropagateError`, which does not return; `fault` is undefined behaviour.
pub data Reply (A : Type 0) : Type 0 where
  back : A → Reply A
  propagated : ℕ → Reply A
  fault : Reply A

infixl 5 ◌>>=◌
abbrev pub ◌>>=◌ : {A B : Type 0} → Reply A → (A → Reply B) → Reply B
back a >>= f = f a
propagated error >>= f = propagated error
fault >>= f = fault

module _ (dart : Dart) where
  open dart use {
    is_error, is_null, new_string, new_integer, new_unsigned, new_boolean, lookup_library,
    get_class, loaded_libraries, call_member, call_new, null,
  }

  unfoldable pub dart_check : ℕ → Reply Bool
  dart_check handle = if is_error handle then propagated handle else back true

  unfoldable pub dart_check_with_null : ℕ → Reply Bool
  dart_check_with_null handle =
      if is_error handle then propagated handle else back (not (is_null handle))

  -- A result that is no error, or NULL for the null of Dart.
  abbrev pub unless_null : ℕ → Reply ℕ
  unless_null result = dart_check_with_null result >>= λ ok. back (if ok then result else 0)

  unfoldable pub dart_from_string : List ℕ → Reply ℕ
  dart_from_string native = unless_null (new_string native)

  unfoldable pub dart_from_signed : ℤ → Reply ℕ
  dart_from_signed native = unless_null (new_integer native)

  unfoldable pub dart_from_unsigned : ℕ → Reply ℕ
  dart_from_unsigned native = unless_null (new_unsigned native)

  unfoldable pub dart_from_bool : Bool → Reply ℕ
  dart_from_bool native = unless_null (new_boolean native)

  -- The handle and the value that a conversion gives, and whether it went well. A handle that is an
  -- error never comes back.
  abbrev pub converted : {A : Type 0} → ℕ × A → Reply (A × Bool)
  converted (handle, value) = dart_check handle >>= λ ok. back (value, ok)

  unfoldable pub dart_to_signed : ℕ × ℤ → Reply (ℤ × Bool)
  dart_to_signed conversion = converted conversion

  unfoldable pub dart_to_unsigned : ℕ × ℕ → Reply (ℕ × Bool)
  dart_to_unsigned conversion = converted conversion

  unfoldable pub dart_to_bool : ℕ × Bool → Reply (Bool × Bool)
  dart_to_bool conversion = converted conversion

  -- For an empty text, `ok` stays as it was, and the result is NULL.
  unfoldable pub dart_to_string :
      (length : ℕ) → ℕ × List ℕ → (ok : Bool) → Reply (Option (List ℕ) × Bool)
  dart_to_string length (handle, text) ok =
      if length == 0 then back (none, ok) else dart_check handle >>= λ ok'. back (some text, ok')

  -- It calls itself first; `none` means that the calls, as many as there is fuel, were not enough.
  unfoldable pub dart_from_double : (fuel : ℕ) → (native : ℕ) → Option (Reply ℕ)
  dart_from_double zero native = none
  dart_from_double (suc fuel) native = elim (dart_from_double fuel native) [
    | none ↦ none
    | some reply ↦ some (reply >>= unless_null)
  ]

  unfoldable pub dart_get_file : (path : List ℕ) → Reply ℕ
  dart_get_file path = dart_from_string path >>= λ text. unless_null (lookup_library text)

  unfoldable pub dart_get_class : (file name : List ℕ) → Reply ℕ
  dart_get_class file name = dart_get_file file >>= λ library.
      if library == 0
      then back 0
      else dart_from_string name >>= λ text. unless_null (get_class library text)

  -- The loop over libraries. One that is null has no class to look for.
  unfoldable pub class_in : (name : List ℕ) → List ℕ → Reply ℕ
  class_in name [] = back 0
  class_in name (library ∷ libraries) =
      let rest = class_in name libraries in
      dart_check_with_null library >>= λ ok.
      if not ok
      then rest
      else dart_from_string name >>= λ text.
          if is_null (get_class library text) || is_error (get_class library text)
          then rest
          else back (get_class library text)

  unfoldable pub dart_find_class : (name : List ℕ) → Reply ℕ
  dart_find_class name = class_in name loaded_libraries

  -- The size of a pointer over that of what it points to: one argument is passed, whatever there is.
  abbrev pub first_only : List ℕ → Reply (List ℕ)
  first_only [] = fault
  first_only (argument ∷ arguments) = back (argument ∷ [])

  abbrev pub checked_call : ℕ → Reply ℕ
  checked_call result = dart_check result >>= λ ok. back result

  unfoldable pub dart_invoke : (owner : ℕ) (member : List ℕ) → List ℕ → Reply ℕ
  dart_invoke owner member arguments = dart_from_string member >>= λ text.
      first_only arguments >>= λ few. checked_call (call_member owner text few)

  unfoldable pub dart_call_static : (file class member : List ℕ) → List ℕ → Reply ℕ
  dart_call_static file class member arguments = dart_get_class file class >>= λ type.
      if type == 0 then back 0 else dart_invoke type member arguments

  unfoldable pub dart_call_constructor : (class : ℕ) (constructor : List ℕ) → List ℕ → Reply ℕ
  dart_call_constructor class constructor arguments = dart_from_string constructor >>= λ text.
      first_only arguments >>= λ few. checked_call (call_new class text few)

  unfoldable pub dart_new : (class : ℕ) → List ℕ → Reply ℕ
  dart_new class arguments = checked_call (call_new class null arguments)
