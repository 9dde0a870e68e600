-- ===== src/Events/Reading.antt =====
-- All setters write a field, and all getters read one, in the same way.
use mathlib.Core.Path.{subst}
use feng_shui.Prelude.{
  zero, suc, not, ℕ, ◌+◌, ◌*◌, ◌/◌, ◌%◌, ◌<◌, ◌≡◌, inl, inr, refl, sym, ap, ◌∙◌, arith, Bool, true,
  false, Bool-cases, Option, none, some, List, ◌==◌, ne→test, eq→test, ℕ_discrete,
}
use feng_shui.Prelude.Signed.{signed_of, signed_of-word_of}
use feng_shui.Events.{
  Field, Event, got, event_find_field, event_set_field, type_signed, type_unsigned, type_double,
  type_string, type_address, type_character, type_boolean,
}
use feng_shui.Events.Values.{
  event_field_set_boolean, event_field_set_double, event_field_set_unsigned, event_field_set_signed,
  event_field_set_string, event_field_set_character, event_field_set_address, event_set_boolean,
  event_set_signed, event_set_unsigned, event_set_double, event_set_string, event_set_address,
  event_set_character, read_field, event_get_character, event_get_address, event_get_boolean,
  event_get_signed, event_get_unsigned, event_get_double, event_get_string,
}
use feng_shui.Events.Kinds.{
  Kind, a_boolean, a_signed, an_unsigned, a_double, a_string, an_address, a_character, Value,
  boolean, signed, unsigned, double, string, address, character, kind_of, type_of, InRange,
  event_set, outcome_map, event_get, read_as, content_as,
}

outcome_map-read_field {ℓ κ} :
    {A : Type ℓ} {B : Type κ} (h : A → B) (type : ℕ) (read : Field → A) (o : Option (ℕ × Field))
    → outcome_map h (read_field type read o) ≡ read_field type (λ (f : Field). h (read f)) o
outcome_map-read_field h type read none = refl
outcome_map-read_field h type read (some (i, f)) = elim (Bool-cases (f.type == type)) [
  | inl e ↦ rw (e) refl
  | inr e ↦ rw (e) refl
]

-- All getters are one function of the field that is found.
pub event_get-read_field :
    (kind : Kind) (event : Event) (name : List ℕ)
    → event_get kind event name
      ≡ read_field (type_of kind) (content_as kind) (event_find_field event name)
unfolding event_get_boolean event_get_signed event_get_unsigned event_get_double event_get_string
    event_get_address event_get_character
event_get-read_field a_boolean event name =
    outcome_map-read_field boolean type_boolean (λ f. not (f.content % 256 == 0))
      (event_find_field event name)
event_get-read_field a_signed event name =
    outcome_map-read_field signed type_signed (λ f. signed_of f.content)
      (event_find_field event name)
event_get-read_field an_unsigned event name =
    outcome_map-read_field unsigned type_unsigned (λ f. f.content) (event_find_field event name)
event_get-read_field a_double event name =
    outcome_map-read_field double type_double (λ f. f.content) (event_find_field event name)
event_get-read_field a_string event name =
    outcome_map-read_field string type_string (λ f. f.content) (event_find_field event name)
event_get-read_field an_address event name =
    outcome_map-read_field address type_address (λ f. f.content) (event_find_field event name)
event_get-read_field a_character event name =
    outcome_map-read_field character type_character (λ f. f.content % 256)
      (event_find_field event name)

-- All setters are one function of how the field is written.
abbrev pub written_with : Value → Field → Field
written_with (boolean v) = event_field_set_boolean v
written_with (signed v) = event_field_set_signed v
written_with (unsigned v) = event_field_set_unsigned v
written_with (double v) = event_field_set_double v
written_with (string v) = event_field_set_string v
written_with (address v) = event_field_set_address v
written_with (character v) = event_field_set_character v

pub event_set-written_with :
    (v : Value) (event : Event) (name : List ℕ) (granted : Bool)
    → event_set v event name granted ≡ event_set_field event name (written_with v) granted
unfolding event_set_boolean event_set_signed event_set_unsigned event_set_double event_set_string
    event_set_address event_set_character
event_set-written_with (boolean v) event name granted = refl
event_set-written_with (signed v) event name granted = refl
event_set-written_with (unsigned v) event name granted = refl
event_set-written_with (double v) event name granted = refl
event_set-written_with (string v) event name granted = refl
event_set-written_with (address v) event name granted = refl
event_set-written_with (character v) event name granted = refl

pub written_with-name : (v : Value) (f : Field) → (written_with v f).name ≡ f.name
written_with-name (boolean v) f = refl
written_with-name (signed v) f = refl
written_with-name (unsigned v) f = refl
written_with-name (double v) f = refl
written_with-name (string v) f = refl
written_with-name (address v) f = refl
written_with-name (character v) f = refl

written_with-type : (v : Value) (f : Field) → (written_with v f).type ≡ type_of (kind_of v)
written_with-type (boolean v) f = refl
written_with-type (signed v) f = refl
written_with-type (unsigned v) f = refl
written_with-type (double v) f = refl
written_with-type (string v) f = refl
written_with-type (address v) f = refl
written_with-type (character v) f = refl

byte_lem : (content b : ℕ) → b < 256 → (content / 256 * 256 + b) % 256 ≡ b
byte_lem content b h = omega arith

content_as-written_with :
    (v : Value) (f : Field) → InRange v → content_as (kind_of v) (written_with v f) ≡ v
content_as-written_with (boolean true) f h = rw (byte_lem f.content 1 (omega arith)) refl
content_as-written_with (boolean false) f h = rw (byte_lem f.content 0 (omega arith)) refl
content_as-written_with (signed v) f h = ap signed (signed_of-word_of v h)
content_as-written_with (unsigned v) f h = refl
content_as-written_with (double v) f h = refl
content_as-written_with (string v) f h = refl
content_as-written_with (address v) f h = refl
content_as-written_with (character v) f h = ap character (byte_lem f.content v h)

-- The types are different numbers.
kind_at : ℕ → Kind
kind_at zero = a_signed
kind_at (suc zero) = an_unsigned
kind_at (suc (suc zero)) = a_double
kind_at (suc (suc (suc zero))) = a_string
kind_at (suc (suc (suc (suc zero)))) = an_address
kind_at (suc (suc (suc (suc (suc zero))))) = a_character
kind_at (suc (suc (suc (suc (suc (suc n)))))) = a_boolean

kind_at-type_of : (kind : Kind) → kind_at (type_of kind) ≡ kind
unfolding kind_at
kind_at-type_of a_boolean = refl
kind_at-type_of a_signed = refl
kind_at-type_of an_unsigned = refl
kind_at-type_of a_double = refl
kind_at-type_of a_string = refl
kind_at-type_of an_address = refl
kind_at-type_of a_character = refl

-- A field that a value was written to.
pub read-written :
    (kind : Kind) (v : Value) (i : ℕ) (f : Field)
    → InRange v
    → read_field (type_of kind) (content_as kind) (some (i, written_with v f)) ≡ read_as kind v
read-written kind v i f h = elim (ℕ_discrete (type_of (kind_of v)) (type_of kind)) [
  | yes e ↦
      let own : kind_of v ≡ kind =
        sym (kind_at-type_of (kind_of v)) ∙ ap kind_at e ∙ kind_at-type_of kind in
      subst
        (λ (k : Kind).
          read_field (type_of k) (content_as k) (some (i, written_with v f)) ≡ read_as k v)
        own
        (rw (written_with-type v f, eq→test (type_of (kind_of v)) (type_of (kind_of v)) refl)
          (ap got (content_as-written_with v f h)))
  | no e ↦ rw (written_with-type v f, ne→test (type_of (kind_of v)) (type_of kind) e) refl
]
