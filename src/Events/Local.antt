-- ===== src/Events/Local.antt =====
-- The event of a thread, and stack traces. A pointer to an event is the event, or `none` for NULL.
use feng_shui.Prelude.{◌≡◌, refl, ℕ, Bool, true, false, Option, none, some, List, [], ◌∷◌}
use feng_shui.Events.{Event, Outcome, got, raised, fault}
use feng_shui.Events.Values.{event_set_string}

-- EVENT_FIELD_STACK_TRACE: "stack-trace"
abbrev pub field_stack_trace : List ℕ
field_stack_trace = 115 ∷ 116 ∷ 97 ∷ 99 ∷ 107 ∷ 45 ∷ 116 ∷ 114 ∷ 97 ∷ 99 ∷ 101 ∷ []

-- What the machine and Dart do meanwhile: where the copy of the formatted trace lies, if there is
-- one; whether memory for a field is granted; whether Dart answers.
pub record World : Type 0 where
  pub trace : Option ℕ
  pub granted : Bool
  pub answered : Bool

abbrev pub pointed : Outcome Event → Outcome (Option Event)
pointed (got event) = got (some event)
pointed (raised reason) = raised reason
pointed fault = fault

unfoldable pub event_put_stack_trace : World → Option Event → Outcome (Option Event)
event_put_stack_trace world event = elim world.trace [
  | none ↦ got event
  | some copied ↦ elim event [
    | none ↦ fault
    | some e ↦ pointed (event_set_string e field_stack_trace copied world.granted)
  ]
]

unfoldable pub event_set_local : Option Event → Option Event
event_set_local event = event

-- The new local event. It is set once when Dart answers, and again in any case.
unfoldable pub event_propagate_local : World → Option Event → Outcome (Option Event)
event_propagate_local world event = elim (event_put_stack_trace world event) [
  | got e ↦ got (event_set_local e)
  | raised reason ↦ raised reason
  | fault ↦ fault
]

unfoldable pub event_has_local : Option Event → Bool
event_has_local none = false
event_has_local (some e) = true

unfoldable pub event_clear_local : World → Bool → Outcome (Option Event)
event_clear_local world true = event_propagate_local world none
event_clear_local world false = got (event_set_local none)

-- To clear the local event with Dart told is a fault, whenever there is a stack trace.
clear_local_faults :
    (copied : ℕ) (granted answered : Bool)
    → event_clear_local
        (record { trace = some copied; granted = granted; answered = answered })
        true
      ≡ fault
unfolding event_clear_local event_propagate_local event_put_stack_trace
clear_local_faults copied granted answered = refl
