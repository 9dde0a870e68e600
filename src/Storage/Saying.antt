-- ===== src/Storage/Saying.antt =====
-- storage/native/storage/storage.c, what Tarantool logs: a message becomes an event of the level that
-- its own level stands for, at the place in the source that it names.
use mathlib.Core.Path.{subst}
use feng_shui.Prelude.{
  ℕ, ◌≡◌, refl, Bool, true, false, Option, none, some, List, [], ◌∷◌, ◌++◌, ◌==◌, if◌then◌else◌,
  set, length,
}
use feng_shui.Events.{
  Field, Event, Outcome, got, raised, fault, event_append, event_build, event_create, event_setup,
  event_set_field, field_limit_reached, fields_maximum, event_find_field,
}
use feng_shui.Events.Values.{event_set_string, event_field_set_string}
use feng_shui.Events.Local.{World, event_put_stack_trace, field_stack_trace, pointed}
use feng_shui.Storage.Errors.{
  level_error, level_warning, level_information, level_trace, when_got, new_event, message_field,
}

-- `enum say_level` of Tarantool; `beyond` is any other number.
pub data SayLevel : Type 0 where
  fatal : SayLevel
  syserror : SayLevel
  error : SayLevel
  crit : SayLevel
  warn : SayLevel
  info : SayLevel
  verbose : SayLevel
  debug : SayLevel
  beyond : SayLevel

-- The rest of a function behind a pointer to an event.
abbrev behind_pointer : Outcome (Option Event) → (Event → Outcome Event) → Outcome Event
behind_pointer (got (some event)) f = f event
behind_pointer (got none) f = fault
behind_pointer (raised reason) f = raised reason
behind_pointer fault f = fault

module _ (created : Bool × Bool) (world : World) (function own_file : List ℕ) (own_line : ℕ) where
  abbrev said : ℕ → ℕ → Outcome Event
  said level message =
      new_event created level function own_file own_line (message_field message ∷ [])

  abbrev said_traced : ℕ → ℕ → Outcome Event
  said_traced level message =
      when_got (said level message) (λ (e : Event).
        behind_pointer (event_put_stack_trace world (some e)) (λ (f : Event). got f))

  -- In any other case the event is a pointer that has no value.
  unfoldable pub say_event : SayLevel → ℕ → Outcome Event
  say_event fatal message = said_traced level_error message
  say_event syserror message = said_traced level_error message
  say_event error message = said_traced level_error message
  say_event crit message = said_traced level_error message
  say_event warn message = said level_warning message
  say_event info message = said level_information message
  say_event verbose message = said level_trace message
  say_event debug message = said level_trace message
  say_event beyond message = fault

  -- The event that is printed.
  unfoldable pub storage_say : SayLevel → (filename : List ℕ) (line message : ℕ) → Outcome Event
  storage_say level filename line message =
      when_got (say_event level message)
        (λ (e : Event). got (record e { file = filename; line = line }))

-- The event level of each level of Tarantool.
abbrev pub level_of : SayLevel → ℕ
level_of fatal = level_error
level_of syserror = level_error
level_of error = level_error
level_of crit = level_error
level_of warn = level_warning
level_of info = level_information
level_of verbose = level_trace
level_of debug = level_trace
level_of beyond = 0

-- An event, if there is one, has the level.
abbrev HasLevel : ℕ → Outcome Event → Type 0
HasLevel level (got e) = e.level ≡ level
HasLevel level (raised reason) = Unit
HasLevel level fault = Unit

found_or_not :
    (e : Event) (write : Field → Field) (name : List ℕ) (granted full : Bool)
    (found : Option (ℕ × Field))
    → HasLevel e.level (elim found [
      | some (i, f) ↦ got (record e { fields = set e.fields i (write f) })
      | none ↦
          if full
          then raised field_limit_reached
          else if granted
          then got (record e {
            fields = e.fields ++ write (record { name = name; content = 0; type = 0 }) ∷ [];
          })
          else fault
    ])
found_or_not e write name granted full (some (i, f)) = refl
found_or_not e write name granted true none = tt
found_or_not e write name true false none = refl
found_or_not e write name false false none = tt

set_string-HasLevel :
    (e : Event) (name : List ℕ) (text : ℕ) (granted : Bool)
    → HasLevel e.level (event_set_string e name text granted)
unfolding event_set_string event_set_field
set_string-HasLevel e name text granted =
    found_or_not e (event_field_set_string text) name granted (length e.fields == fields_maximum)
      (event_find_field e name)

-- The printed event has the level, and names the place that Tarantool gave.
abbrev pub IsSaid : SayLevel → List ℕ → ℕ → Outcome Event → Type 0
IsSaid level filename line (got e) =
    (e.level ≡ level_of level) × (e.file ≡ filename) × (e.line ≡ line)
IsSaid level filename line (raised reason) = Unit
IsSaid level filename line fault = Unit

placed-IsSaid :
    (level : SayLevel) (filename : List ℕ) (line : ℕ) (out : Outcome Event)
    → HasLevel (level_of level) out
    → IsSaid level filename line
        (when_got out (λ (e : Event). got (record e { file = filename; line = line })))
placed-IsSaid level filename line (got e) h = (h, refl, refl)
placed-IsSaid level filename line (raised reason) h = tt
placed-IsSaid level filename line fault h = tt

module _ (created : Bool × Bool) (world : World) (function own_file : List ℕ) (own_line : ℕ) where
  traced-HasLevel :
      (level : ℕ) (out : Outcome Event) (trace : Option ℕ)
      → world.trace ≡ trace
      → HasLevel level out
      → HasLevel level (
          when_got out (λ (e : Event).
            behind_pointer (event_put_stack_trace world (some e)) (λ (f : Event). got f)))
  unfolding event_put_stack_trace
  traced-HasLevel level (got e) none there h = rw (there, event_put_stack_trace) h
  traced-HasLevel level (got e) (some copied) there h =
      rw (there, event_put_stack_trace)
        (through (event_set_string e field_stack_trace copied world.granted) (
          subst (λ (n : ℕ). HasLevel n (event_set_string e field_stack_trace copied world.granted))
            h (set_string-HasLevel e field_stack_trace copied world.granted)))
    where
      through :
          (out : Outcome Event)
          → HasLevel level out
          → HasLevel level (behind_pointer (pointed out) (λ (f : Event). got f))
      through (got f) k = k
      through (raised reason) k = tt
      through fault k = tt
  traced-HasLevel level (raised reason) trace there h = tt
  traced-HasLevel level fault trace there h = tt

  said-HasLevel :
      (level message : ℕ)
      → HasLevel level (said created world function own_file own_line level message)
  unfolding event_build event_create event_append event_setup
  said-HasLevel level message = go created.0 created.1 refl refl
    where
      go :
          (own array : Bool)
          → created.0 ≡ own
          → created.1 ≡ array
          → HasLevel level (said created world function own_file own_line level message)
      go true true e f = rw (e, f, event_create) refl
      go true false e f = rw (e, f, event_create) tt
      go false array e f = rw (e, event_create) tt

  said_traced-HasLevel :
      (level message : ℕ)
      → HasLevel level (said_traced created world function own_file own_line level message)
  said_traced-HasLevel level message =
      traced-HasLevel level (said created world function own_file own_line level message)
        world.trace refl (said-HasLevel level message)

  say_event-HasLevel :
      (level : SayLevel) (message : ℕ)
      → HasLevel (level_of level) (say_event created world function own_file own_line level message)
  unfolding say_event
  say_event-HasLevel fatal message = said_traced-HasLevel level_error message
  say_event-HasLevel syserror message = said_traced-HasLevel level_error message
  say_event-HasLevel error message = said_traced-HasLevel level_error message
  say_event-HasLevel crit message = said_traced-HasLevel level_error message
  say_event-HasLevel warn message = said-HasLevel level_warning message
  say_event-HasLevel info message = said-HasLevel level_information message
  say_event-HasLevel verbose message = said-HasLevel level_trace message
  say_event-HasLevel debug message = said-HasLevel level_trace message
  say_event-HasLevel beyond message = tt

  -- A message of Tarantool becomes an event of the level that stands for its own, an error from
  -- S_FATAL to S_CRIT, at the place that the message names; or no event comes out.
  pub storage_say-IsSaid :
      (level : SayLevel) (filename : List ℕ) (line message : ℕ)
      → IsSaid level filename line
          (storage_say created world function own_file own_line level filename line message)
  unfolding storage_say
  storage_say-IsSaid level filename line message =
      placed-IsSaid level filename line
        (say_event created world function own_file own_line level message)
        (say_event-HasLevel level message)
