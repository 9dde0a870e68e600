-- ===== src/Events/Values.antt =====
-- The fields of an event, by the type of what they hold. A character and a Boolean are one byte of
-- the union; the other bytes stay as they are.
use feng_shui.Prelude.{
  ℕ, ◌+◌, ◌*◌, ◌/◌, ◌%◌, Bool, true, false, not, Option, none, some, List, ◌==◌, if◌then◌else◌,
}
use feng_shui.Prelude.Int.{ℤ}
use feng_shui.Prelude.Signed.{word_of, signed_of}
use feng_shui.Events.{
  Field, Event, Outcome, got, raised, field_not_found, field_not_of_type, event_find_field,
  event_set_field, type_signed, type_unsigned, type_double, type_string, type_address,
  type_character, type_boolean,
}

abbrev byte_of : Bool → ℕ
byte_of true = 1
byte_of false = 0

abbrev with_byte : ℕ → ℕ → ℕ
with_byte content byte = content / 256 * 256 + byte

abbrev pub event_field_set_boolean : Bool → Field → Field
event_field_set_boolean value field = record field {
  type = type_boolean;
  content = with_byte field.content (byte_of value);
}

-- A `double` is its 64 bits.
abbrev pub event_field_set_double : ℕ → Field → Field
event_field_set_double value field = record field { type = type_double; content = value }

abbrev pub event_field_set_unsigned : ℕ → Field → Field
event_field_set_unsigned value field = record field { type = type_unsigned; content = value }

abbrev pub event_field_set_signed : ℤ → Field → Field
event_field_set_signed value field = record field { type = type_signed; content = word_of value }

-- The address is that of the copy which `strdup` makes.
abbrev pub event_field_set_string : ℕ → Field → Field
event_field_set_string copied field = record field { type = type_string; content = copied }

abbrev pub event_field_set_character : ℕ → Field → Field
event_field_set_character value field = record field {
  type = type_character;
  content = with_byte field.content value;
}

abbrev pub event_field_set_address : ℕ → Field → Field
event_field_set_address value field = record field { type = type_address; content = value }

-- Its argument is read as a pointer, whatever it is.
abbrev pub event_field_set_any : ℕ → Field → Field
event_field_set_any value field = record field { type = type_address; content = value }

unfoldable pub event_set_boolean : Event → List ℕ → Bool → Bool → Outcome Event
event_set_boolean event name value = event_set_field event name (event_field_set_boolean value)

unfoldable pub event_set_signed : Event → List ℕ → ℤ → Bool → Outcome Event
event_set_signed event name value = event_set_field event name (event_field_set_signed value)

unfoldable pub event_set_unsigned : Event → List ℕ → ℕ → Bool → Outcome Event
event_set_unsigned event name value = event_set_field event name (event_field_set_unsigned value)

unfoldable pub event_set_double : Event → List ℕ → ℕ → Bool → Outcome Event
event_set_double event name value = event_set_field event name (event_field_set_double value)

unfoldable pub event_set_string : Event → List ℕ → ℕ → Bool → Outcome Event
event_set_string event name copied = event_set_field event name (event_field_set_string copied)

unfoldable pub event_set_address : Event → List ℕ → ℕ → Bool → Outcome Event
event_set_address event name value = event_set_field event name (event_field_set_address value)

unfoldable pub event_set_character : Event → List ℕ → ℕ → Bool → Outcome Event
event_set_character event name value = event_set_field event name (event_field_set_character value)

-- What every getter does: the field must be there, and of the type.
abbrev pub read_field {ℓ} : {A : Type ℓ} → ℕ → (Field → A) → Option (ℕ × Field) → Outcome A
read_field type read none = raised field_not_found
read_field type read (some (i, field)) =
    if field.type == type then got (read field) else raised (field_not_of_type type)

unfoldable pub event_get_character : Event → List ℕ → Outcome ℕ
event_get_character event name =
    read_field type_character (λ f. f.content % 256) (event_find_field event name)

unfoldable pub event_get_address : Event → List ℕ → Outcome ℕ
event_get_address event name =
    read_field type_address (λ f. f.content) (event_find_field event name)

unfoldable pub event_get_boolean : Event → List ℕ → Outcome Bool
event_get_boolean event name =
    read_field type_boolean (λ f. not (f.content % 256 == 0)) (event_find_field event name)

unfoldable pub event_get_signed : Event → List ℕ → Outcome ℤ
event_get_signed event name =
    read_field type_signed (λ f. signed_of f.content) (event_find_field event name)

unfoldable pub event_get_unsigned : Event → List ℕ → Outcome ℕ
event_get_unsigned event name =
    read_field type_unsigned (λ f. f.content) (event_find_field event name)

unfoldable pub event_get_double : Event → List ℕ → Outcome ℕ
event_get_double event name = read_field type_double (λ f. f.content) (event_find_field event name)

unfoldable pub event_get_string : Event → List ℕ → Outcome ℕ
event_get_string event name = read_field type_string (λ f. f.content) (event_find_field event name)

abbrev has_type : ℕ → Option (ℕ × Field) → Bool
has_type type none = false
has_type type (some (i, field)) = field.type == type

unfoldable pub event_field_is_signed : Event → List ℕ → Bool
event_field_is_signed event name = has_type type_signed (event_find_field event name)

unfoldable pub event_field_is_unsigned : Event → List ℕ → Bool
event_field_is_unsigned event name = has_type type_unsigned (event_find_field event name)
