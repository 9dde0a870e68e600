-- ===== src/Crash.antt =====
-- core/native/crash/crash.c: what is given for printing of a signal that ends the process, before it
-- aborts.
-- Strings of events are addresses of copies; `copy` is where a text has its copy.
pub mod Reports
mod Tests
use feng_shui.Prelude.{ℕ, Bool, true, false, Option, none, some, List, [], ◌∷◌, ◌==◌, if◌then◌else◌}
use feng_shui.Prelude.Int.{ℤ, pos, negsuc}
use feng_shui.Events.{Event, Outcome, got, raised, fault, event_build}
use feng_shui.Events.Values.{event_set_string, event_set_signed, event_set_address}
use feng_shui.Storage.Errors.{level_panic, field_code, message_field, when_got}

-- The signals of `crash_signals`.
pub data CrashSignal : Type 0 where
  sigill : CrashSignal
  sigbus : CrashSignal
  sigfpe : CrashSignal
  sigsegv : CrashSignal

-- CRASH_ILLEGAL_INSTRUCTION, CRASH_BUS_ERROR, CRASH_FLOATING_POINT_ERROR and
-- CRASH_SEGMENTATION_FAULT
abbrev pub crash_message : CrashSignal → List ℕ
crash_message sigill =
    67 ∷ 114 ∷ 97 ∷ 115 ∷ 104 ∷ 101 ∷ 100 ∷ 58 ∷ 32 ∷ 73 ∷ 108 ∷ 108 ∷ 101 ∷ 103 ∷ 97 ∷ 108 ∷ 32
    ∷ 105 ∷ 110 ∷ 115 ∷ 116 ∷ 114 ∷ 117 ∷ 99 ∷ 116 ∷ 105 ∷ 111 ∷ 110 ∷ []
crash_message sigbus =
    67 ∷ 114 ∷ 97 ∷ 115 ∷ 104 ∷ 101 ∷ 100 ∷ 58 ∷ 32 ∷ 66 ∷ 117 ∷ 115 ∷ 32 ∷ 101 ∷ 114 ∷ 114 ∷ 111
    ∷ 114 ∷ []
crash_message sigfpe =
    67 ∷ 114 ∷ 97 ∷ 115 ∷ 104 ∷ 101 ∷ 100 ∷ 58 ∷ 32 ∷ 70 ∷ 108 ∷ 111 ∷ 97 ∷ 116 ∷ 105 ∷ 110 ∷ 103
    ∷ 45 ∷ 112 ∷ 111 ∷ 105 ∷ 110 ∷ 116 ∷ 32 ∷ 101 ∷ 114 ∷ 114 ∷ 111 ∷ 114 ∷ []
crash_message sigsegv =
    67 ∷ 114 ∷ 97 ∷ 115 ∷ 104 ∷ 101 ∷ 100 ∷ 58 ∷ 32 ∷ 83 ∷ 101 ∷ 103 ∷ 109 ∷ 101 ∷ 110 ∷ 116 ∷ 97
    ∷ 116 ∷ 105 ∷ 111 ∷ 110 ∷ 32 ∷ 102 ∷ 97 ∷ 117 ∷ 108 ∷ 116 ∷ []

-- SIGNAL_CODE_MAPPER and SIGNAL_CODE_ACCERR are both "SEGV_MAPERR".
abbrev pub signal_code_mapper : List ℕ
signal_code_mapper = 83 ∷ 69 ∷ 71 ∷ 86 ∷ 95 ∷ 77 ∷ 65 ∷ 80 ∷ 69 ∷ 82 ∷ 82 ∷ []

abbrev pub signal_code_accerr : List ℕ
signal_code_accerr = 83 ∷ 69 ∷ 71 ∷ 86 ∷ 95 ∷ 77 ∷ 65 ∷ 80 ∷ 69 ∷ 82 ∷ 82 ∷ []

-- EVENT_FIELD_ADDRESS and EVENT_FIELD_SIGNAL_INFORMATION
abbrev pub field_address : List ℕ
field_address = 97 ∷ 100 ∷ 100 ∷ 114 ∷ 101 ∷ 115 ∷ 115 ∷ []

abbrev pub field_signal_information : List ℕ
field_signal_information =
    115 ∷ 105 ∷ 103 ∷ 110 ∷ 97 ∷ 108 ∷ 45 ∷ 105 ∷ 110 ∷ 102 ∷ 111 ∷ 114 ∷ 109 ∷ 97 ∷ 116 ∷ 105 ∷ 111
    ∷ 110 ∷ []

-- `siginfo_t`, and where it lies.
pub record Information : Type 0 where
  pub si_code : ℤ
  pub si_addr : ℕ
  pub at : ℕ

-- SEGV_MAPERR is 1 and SEGV_ACCERR is 2 in Linux.
abbrev pub segment_code : ℤ → Option (List ℕ)
segment_code (pos n) =
    if n == 1 then some signal_code_mapper else if n == 2 then some signal_code_accerr else none
segment_code (negsuc n) = none

abbrev pub signal_code : CrashSignal → ℤ → Option (List ℕ)
signal_code sigill code = none
signal_code sigbus code = none
signal_code sigfpe code = none
signal_code sigsegv code = segment_code code

unfoldable pub set_code :
    (granted : Bool) (copy : List ℕ → ℕ) → Option (List ℕ) → ℤ → Event → Outcome Event
set_code granted copy none code event = event_set_signed event field_code code granted
set_code granted copy (some text) code event = event_set_string event field_code (copy text) granted

unfoldable pub set_address : (granted : Bool) → ℕ → Event → Outcome Event
set_address granted si_addr event =
    if si_addr == 0 then got event else event_set_address event field_address si_addr granted

module _ (created : Bool × Bool) (granted : Bool) (copy : List ℕ → ℕ) (function file : List ℕ)
    (line : CrashSignal → ℕ) where
  unfoldable pub crash_event : CrashSignal → Outcome Event
  crash_event signal =
      event_build created level_panic function file (line signal)
        (message_field (copy (crash_message signal)) ∷ [])

  -- `none` is any other signal: its event is NULL, and a field of it is set.
  unfoldable pub described : Option CrashSignal → Information → Outcome Event
  described none information = fault
  described (some signal) information = when_got (crash_event signal) (λ (e : Event).
      when_got
        (set_code granted copy (signal_code signal information.si_code) information.si_code e)
        (λ (f : Event).
          when_got (set_address granted information.si_addr f)
            (λ (g : Event). event_set_address g field_signal_information information.at granted)))

  -- `crashing` as it is left, and the event that is given to `print_event`, before the process aborts.
  -- The printing itself is left out.
  unfoldable pub crash_signal_callback :
      (crashing : Bool) → Option CrashSignal → Information → Outcome (Bool × Option Event)
  crash_signal_callback true signal information = got (true, none)
  crash_signal_callback false signal information =
      when_got (described signal information) (λ (e : Event). got (true, some e))
