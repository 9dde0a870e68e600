-- ===== src/Events.antt =====
-- core/native/events: event.c, event.h, field.c and field.h. An event has fields with names of their
-- own, at most 20 of them when they are set one by one.
-- Strings are lists of characters where they are compared, and addresses otherwise.
pub mod Values
pub mod Finding
pub mod Kinds
pub mod Reading
pub mod Setting
pub mod Distinct
pub mod Local
pub mod Format
mod Tests
use feng_shui.Prelude.{
  ℕ, suc, ◌+◌, ◌*◌, ◌/◌, Bool, true, false, not, ◌&&◌, Option, none, some, List, [], ◌∷◌, ◌++◌,
  ◌==◌, if◌then◌else◌, ltb, length, set,
}

-- EVENT_FIELDS_MAXIMUM
abbrev pub fields_maximum : ℕ
fields_maximum = 20

-- The block for the fields is as large as 20 fields, of 24 bytes each, and holds pointers.
abbrev pub fields_room : ℕ
fields_room = 60

-- EVENT_TYPE_*
abbrev pub type_signed : ℕ
type_signed = 0

abbrev pub type_unsigned : ℕ
type_unsigned = 1

abbrev pub type_double : ℕ
type_double = 2

abbrev pub type_string : ℕ
type_string = 3

abbrev pub type_address : ℕ
type_address = 4

abbrev pub type_character : ℕ
type_character = 5

abbrev pub type_boolean : ℕ
type_boolean = 6

-- `struct event_field_structure`: the union is a word, whose lowest byte comes first.
pub record Field : Type 0 where
  pub name : List ℕ
  pub content : ℕ
  pub type : ℕ

-- `struct event`, without its time. The module is NULL, that is `none`, until it is set up.
pub record Event : Type 0 where
  pub raised_module_name : Option (List ℕ)
  pub fields : List Field
  pub function : List ℕ
  pub file : List ℕ
  pub line : ℕ
  pub level : ℕ

-- The messages with which the process ends.
pub data Reason : Type 0 where
  field_not_found : Reason
  field_not_of_type : ℕ → Reason
  field_limit_reached : Reason
  out_of_memory : Reason

-- A result; or the process ends with a message; or undefined behaviour.
pub data Outcome {ℓ} (A : Type ℓ) : Type ℓ where
  got : A → Outcome A
  raised : Reason → Outcome A
  fault : Outcome A

-- `strcmp(…) == 0`
abbrev pub same : List ℕ → List ℕ → Bool
same [] [] = true
same [] (y ∷ ys) = false
same (x ∷ xs) [] = false
same (x ∷ xs) (y ∷ ys) = (x == y) && same xs ys

unfoldable pub event_create :
    (granted : Bool × Bool) (level : ℕ) (function file : List ℕ) (line : ℕ) → Outcome Event
event_create (own, array) level function file line =
    if own && array
    then got (record {
      raised_module_name = none;
      fields = [];
      function = function;
      file = file;
      line = line;
      level = level;
    })
    else raised out_of_memory

-- The first field of the name, and its place.
unfoldable pub find : List ℕ → List Field → Option (ℕ × Field)
find name [] = none
find name (f ∷ fields) =
    let rest = find name fields in
    if same name f.name
    then some (0, f)
    else elim rest [ none ↦ none | some (i, g) ↦ some (suc i, g) ]

abbrev pub event_find_field : Event → List ℕ → Option (ℕ × Field)
event_find_field event name = find name event.fields

unfoldable pub event_has_field : Event → List ℕ → Bool
event_has_field event name = elim (event_find_field event name) [ none ↦ false | some r ↦ true ]

-- `event_field_set_…` on a field that is there, or on a fresh one of zeros. The macro does not look
-- at whether the memory for a fresh field was granted.
unfoldable pub event_set_field : Event → List ℕ → (Field → Field) → Bool → Outcome Event
event_set_field event name write granted = elim (event_find_field event name) [
  | some (i, f) ↦ got (record event { fields = set event.fields i (write f) })
  | none ↦
      if length event.fields == fields_maximum
      then raised field_limit_reached
      else if granted
      then got (record event {
        fields = event.fields ++ write (record { name = name; content = 0; type = 0 }) ∷ [];
      })
      else fault
]

-- The loop of `event_build` over its arguments, which looks at no limit. Its fields are new blocks
-- with the same contents.
unfoldable pub event_append : Event → List Field → Outcome Event
event_append event [] = got event
event_append event (f ∷ fields) =
    let rest = event_append (record event { fields = event.fields ++ f ∷ [] }) fields in
    if ltb (length event.fields) fields_room then rest else fault

abbrev pub when_created : List Field → Outcome Event → Outcome Event
when_created fields (got event) = event_append event fields
when_created fields (raised reason) = raised reason
when_created fields fault = fault

unfoldable pub event_build :
    (granted : Bool × Bool) (level : ℕ) (function file : List ℕ) (line : ℕ)
    → List Field
    → Outcome Event
event_build granted level function file line fields =
    when_created fields (event_create granted level function file line)

unfoldable pub event_setup : Event → List ℕ → Event
event_setup event raised_module_name = record event { raised_module_name = some raised_module_name }

unfoldable pub event_get_module : Event → Option (List ℕ)
event_get_module event = event.raised_module_name

unfoldable pub event_get_level : Event → ℕ
event_get_level event = event.level
