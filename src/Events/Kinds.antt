-- ===== src/Events/Kinds.antt =====
-- The setters and the getters of an event, by type.
use feng_shui.Prelude.{not, ℕ, ◌%◌, ◌^◌, ◌<◌, Bool, List, ◌==◌, if◌then◌else◌}
use feng_shui.Prelude.Int.{ℤ}
use feng_shui.Prelude.Signed.{signed_of, IsInt64}
use feng_shui.Events.{
  Field, Event, Outcome, got, raised, fault, field_not_of_type, type_signed, type_unsigned,
  type_double, type_string, type_address, type_character, type_boolean,
}
use feng_shui.Events.Values.{
  event_set_boolean, event_set_signed, event_set_unsigned, event_set_double, event_set_string,
  event_set_address, event_set_character, event_get_character, event_get_address, event_get_boolean,
  event_get_signed, event_get_unsigned, event_get_double, event_get_string,
}

pub data Kind : Type 0 where
  a_boolean : Kind
  a_signed : Kind
  an_unsigned : Kind
  a_double : Kind
  a_string : Kind
  an_address : Kind
  a_character : Kind

pub data Value : Type 0 where
  boolean : Bool → Value
  signed : ℤ → Value
  unsigned : ℕ → Value
  double : ℕ → Value
  string : ℕ → Value
  address : ℕ → Value
  character : ℕ → Value

abbrev pub kind_of : Value → Kind
kind_of (boolean v) = a_boolean
kind_of (signed v) = a_signed
kind_of (unsigned v) = an_unsigned
kind_of (double v) = a_double
kind_of (string v) = a_string
kind_of (address v) = an_address
kind_of (character v) = a_character

abbrev pub type_of : Kind → ℕ
type_of a_boolean = type_boolean
type_of a_signed = type_signed
type_of an_unsigned = type_unsigned
type_of a_double = type_double
type_of a_string = type_string
type_of an_address = type_address
type_of a_character = type_character

-- What the type of the argument can hold.
abbrev pub InRange : Value → Type 0
InRange (boolean v) = Unit
InRange (signed v) = IsInt64 v
InRange (unsigned v) = v < 2 ^ 64
InRange (double v) = v < 2 ^ 64
InRange (string v) = v < 2 ^ 64
InRange (address v) = v < 2 ^ 64
InRange (character v) = v < 256

-- The setter, and the getter, of each type.
abbrev pub event_set : Value → Event → List ℕ → Bool → Outcome Event
event_set (boolean v) event name = event_set_boolean event name v
event_set (signed v) event name = event_set_signed event name v
event_set (unsigned v) event name = event_set_unsigned event name v
event_set (double v) event name = event_set_double event name v
event_set (string v) event name = event_set_string event name v
event_set (address v) event name = event_set_address event name v
event_set (character v) event name = event_set_character event name v

abbrev pub outcome_map {ℓ κ} : {A : Type ℓ} {B : Type κ} → (A → B) → Outcome A → Outcome B
outcome_map f (got a) = got (f a)
outcome_map f (raised reason) = raised reason
outcome_map f fault = fault

abbrev pub event_get : Kind → Event → List ℕ → Outcome Value
event_get a_boolean event name = outcome_map boolean (event_get_boolean event name)
event_get a_signed event name = outcome_map signed (event_get_signed event name)
event_get an_unsigned event name = outcome_map unsigned (event_get_unsigned event name)
event_get a_double event name = outcome_map double (event_get_double event name)
event_get a_string event name = outcome_map string (event_get_string event name)
event_get an_address event name = outcome_map address (event_get_address event name)
event_get a_character event name = outcome_map character (event_get_character event name)

-- A value read by a type: its own type gives it, any other ends the process.
abbrev pub read_as : Kind → Value → Outcome Value
read_as kind v =
    if type_of (kind_of v) == type_of kind then got v else raised (field_not_of_type (type_of kind))

-- What a field holds, read by a type.
abbrev pub content_as : Kind → Field → Value
content_as a_boolean f = boolean (not (f.content % 256 == 0))
content_as a_signed f = signed (signed_of f.content)
content_as an_unsigned f = unsigned f.content
content_as a_double f = double f.content
content_as a_string f = string f.content
content_as an_address f = address f.content
content_as a_character f = character (f.content % 256)
