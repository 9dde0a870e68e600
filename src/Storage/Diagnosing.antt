-- ===== src/Storage/Diagnosing.antt =====
-- The event that an error becomes.
use feng_shui.Prelude.{ℕ, ◌≡◌, refl, arith, Bool, true, false, Option, none, some, List, [], ◌∷◌}
use feng_shui.Events.{
  Event, Outcome, got, raised, fault, event_append, event_build, event_create, event_setup,
}
use feng_shui.Events.Values.{event_set_string}
use feng_shui.Events.Kinds.{signed, unsigned, double, boolean, string}
use feng_shui.Events.Distinct.{IsValid, GivesValid, event_set-IsValid}
use feng_shui.Events.Local.{World, field_stack_trace, event_put_stack_trace, pointed}
use feng_shui.Storage.Errors.{
  Payload, mp_str, mp_uint, mp_int, mp_bool, mp_float, mp_double, mp_other, Error, when_got,
  convert_field, convert_fields, new_event, storage_convert_error, code_field, message_field,
}

-- An event behind a pointer is valid.
abbrev pub GivesValidPointer : Outcome (Option Event) → Type 0
GivesValidPointer (got none) = Unit
GivesValidPointer (got (some event)) = IsValid event
GivesValidPointer (raised reason) = Unit
GivesValidPointer fault = Unit

when_got-GivesValid :
    (out : Outcome Event) (f : Event → Outcome Event)
    → GivesValid out
    → ((e : Event) → IsValid e → GivesValid (f e))
    → GivesValid (when_got out f)
when_got-GivesValid (got e) f valid h = h e valid
when_got-GivesValid (raised reason) f valid h = tt
when_got-GivesValid fault f valid h = tt

when_got-GivesValidPointer :
    (out : Outcome Event) (f : Event → Outcome (Option Event))
    → GivesValid out
    → ((e : Event) → IsValid e → GivesValidPointer (f e))
    → GivesValidPointer (when_got out f)
when_got-GivesValidPointer (got e) f valid h = h e valid
when_got-GivesValidPointer (raised reason) f valid h = tt
when_got-GivesValidPointer fault f valid h = tt

convert_field-GivesValid :
    (granted : Bool) (name : List ℕ) (p : Payload) (e : Event)
    → IsValid e
    → GivesValid (convert_field granted name p e)
unfolding convert_field
convert_field-GivesValid granted name (mp_str text) e valid = tt
convert_field-GivesValid granted name (mp_uint n) e valid =
    event_set-IsValid e name (unsigned n) granted valid
convert_field-GivesValid granted name (mp_int z) e valid =
    event_set-IsValid e name (signed z) granted valid
convert_field-GivesValid granted name (mp_bool b) e valid =
    event_set-IsValid e name (boolean b) granted valid
convert_field-GivesValid granted name (mp_float x) e valid =
    event_set-IsValid e name (double x) granted valid
convert_field-GivesValid granted name (mp_double x) e valid =
    event_set-IsValid e name (double x) granted valid
convert_field-GivesValid granted name mp_other e valid = valid

convert_fields-GivesValid :
    (granted : Bool) (payload : List (List ℕ × Payload)) (e : Event)
    → IsValid e
    → GivesValid (convert_fields granted payload e)
unfolding convert_fields
convert_fields-GivesValid granted [] e valid = valid
convert_fields-GivesValid granted ((name, p) ∷ payload) e valid =
    when_got-GivesValid (convert_field granted name p e) (convert_fields granted payload)
      (convert_field-GivesValid granted name p e valid) (convert_fields-GivesValid granted payload)

pointed-GivesValid : (out : Outcome Event) → GivesValid out → GivesValidPointer (pointed out)
pointed-GivesValid (got e) valid = valid
pointed-GivesValid (raised reason) valid = tt
pointed-GivesValid fault valid = tt

trace-GivesValid :
    (world : World) (e : Event) (trace : Option ℕ)
    → world.trace ≡ trace
    → IsValid e
    → GivesValidPointer (event_put_stack_trace world (some e))
unfolding event_put_stack_trace
trace-GivesValid world e none h valid = rw (h, event_put_stack_trace) valid
trace-GivesValid world e (some copied) h valid =
    rw (h, event_put_stack_trace)
      (pointed-GivesValid (event_set_string e field_stack_trace copied world.granted)
        (event_set-IsValid e field_stack_trace (string copied) world.granted valid))

-- A new event with a code and a message.
built-GivesValid :
    (created : Bool × Bool) (level : ℕ) (function file : List ℕ) (line code message : ℕ)
    → GivesValid
        (new_event created level function file line (code_field code ∷ message_field message ∷ []))
unfolding event_build event_create event_append event_setup
built-GivesValid (true, true) level function file line code message =
    (omega arith, ((refl, tt), (tt, tt)))
built-GivesValid (true, false) level function file line code message = tt
built-GivesValid (false, b) level function file line code message = tt

-- An error becomes an event of at most 20 fields, no two of the same name, whatever its payload; or
-- the conversion does not end with an event.
pub storage_convert_error-GivesValid :
    (created : Bool × Bool) (world : World) (function file : List ℕ) (line : ℕ) (error : Error)
    (level : ℕ)
    → GivesValidPointer (storage_convert_error created world function file line error level)
unfolding storage_convert_error
storage_convert_error-GivesValid created world function file line error level =
    when_got-GivesValidPointer
      (new_event created level function file line
        (code_field error.code ∷ message_field error.errmsg ∷ []))
      (λ e.
        when_got
          (convert_fields world.granted error.payload
            (record e { file = error.file; line = error.line }))
          (λ f. event_put_stack_trace world (some f)))
      (built-GivesValid created level function file line error.code error.errmsg)
      (λ e valid.
        when_got-GivesValidPointer
          (convert_fields world.granted error.payload
            (record e { file = error.file; line = error.line }))
          (λ f. event_put_stack_trace world (some f))
          (convert_fields-GivesValid world.granted error.payload
            (record e { file = error.file; line = error.line }) valid)
          (λ f valid'. trace-GivesValid world f world.trace refl valid'))
