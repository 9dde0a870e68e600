-- ===== src/Storage/Errors.antt =====
-- storage/native/storage/storage.c, where errors and messages of Tarantool become events.
-- A pointer to an error is never NULL. What is printed is left out.
use feng_shui.Prelude.{ℕ, Bool, Option, some, List, [], ◌∷◌}
use feng_shui.Prelude.Int.{ℤ}
use feng_shui.Events.{
  Field, Event, Outcome, got, raised, fault, type_unsigned, type_string, event_build, event_setup,
}
use feng_shui.Events.Values.{
  event_set_signed, event_set_unsigned, event_set_boolean, event_set_double,
}
use feng_shui.Events.Local.{World, event_put_stack_trace}

-- EVENT_LEVEL_*
abbrev pub level_panic : ℕ
level_panic = 0

abbrev pub level_error : ℕ
level_error = 1

abbrev pub level_warning : ℕ
level_warning = 2

abbrev pub level_information : ℕ
level_information = 3

abbrev pub level_trace : ℕ
level_trace = 4

-- EVENT_FIELD_CODE, EVENT_FIELD_MESSAGE: "code" and "message"
abbrev pub field_code : List ℕ
field_code = 99 ∷ 111 ∷ 100 ∷ 101 ∷ []

abbrev pub field_message : List ℕ
field_message = 109 ∷ 101 ∷ 115 ∷ 115 ∷ 97 ∷ 103 ∷ 101 ∷ []

-- The name of the module: "storage"
abbrev pub storage_module_name : List ℕ
storage_module_name = 115 ∷ 116 ∷ 111 ∷ 114 ∷ 97 ∷ 103 ∷ 101 ∷ []

-- A field of an error, as msgpuck decodes it.
pub data Payload : Type 0 where
  mp_str : List ℕ → Payload
  mp_uint : ℕ → Payload
  mp_int : ℤ → Payload
  mp_bool : Bool → Payload
  mp_float : ℕ → Payload
  mp_double : ℕ → Payload
  mp_other : Payload

-- `struct error` of Tarantool. The message is the address of its copy.
pub record Error : Type 0 where
  pub code : ℕ
  pub errmsg : ℕ
  pub file : List ℕ
  pub line : ℕ
  pub payload : List (List ℕ × Payload)

-- The rest of a function, for an event that is there.
abbrev pub when_got {ℓ κ} : {A : Type ℓ} {B : Type κ} → Outcome A → (A → Outcome B) → Outcome B
when_got (got a) f = f a
when_got (raised reason) f = raised reason
when_got fault f = fault

-- A string is decoded from a pointer that has no value yet: the declaration inside the case hides
-- the one outside.
unfoldable pub convert_field : Bool → List ℕ → Payload → Event → Outcome Event
convert_field granted name (mp_str text) event = fault
convert_field granted name (mp_uint n) event = event_set_unsigned event name n granted
convert_field granted name (mp_int z) event = event_set_signed event name z granted
convert_field granted name (mp_bool b) event = event_set_boolean event name b granted
convert_field granted name (mp_float x) event = event_set_double event name x granted
convert_field granted name (mp_double x) event = event_set_double event name x granted
convert_field granted name mp_other event = got event

unfoldable pub convert_fields : Bool → List (List ℕ × Payload) → Event → Outcome Event
convert_fields granted [] event = got event
convert_fields granted ((name, p) ∷ payload) event =
    when_got (convert_field granted name p event) (convert_fields granted payload)

abbrev pub message_field : ℕ → Field
message_field message = record { name = field_message; content = message; type = type_string }

abbrev pub code_field : ℕ → Field
code_field code = record { name = field_code; content = code; type = type_unsigned }

module _ (created : Bool × Bool) where
  -- `storage_module_event` of a new event
  abbrev pub new_event : ℕ → List ℕ → List ℕ → ℕ → List Field → Outcome Event
  new_event level function file line fields =
      when_got (event_build created level function file line fields)
        (λ (e : Event). got (event_setup e storage_module_name))

-- Whether memory is granted, in the order of the calls that look: for the event and its fields, and
-- what happens afterwards.
module _ (created : Bool × Bool) (world : World) where
  unfoldable pub storage_convert_error :
      (function own_file : List ℕ) (own_line : ℕ) → Error → ℕ → Outcome (Option Event)
  storage_convert_error function own_file own_line error level =
      when_got
        (new_event created level function own_file own_line
          (code_field error.code ∷ message_field error.errmsg ∷ []))
        (λ (e : Event).
          when_got
            (convert_fields world.granted error.payload
              (record e { file = error.file; line = error.line }))
            (λ (f : Event). event_put_stack_trace world (some f)))

  unfoldable pub storage_get_diagnostic_event :
      (function own_file : List ℕ) (own_line : ℕ) → Error → Outcome (Option Event)
  storage_get_diagnostic_event function own_file own_line error =
      storage_convert_error function own_file own_line error level_error

  unfoldable pub storage_create_error :
      (function own_file : List ℕ) (own_line : ℕ) → ℕ → Outcome (Option Event)
  storage_create_error function own_file own_line message =
      when_got
        (new_event created level_error function own_file own_line (message_field message ∷ []))
        (λ (e : Event). event_put_stack_trace world (some e))
