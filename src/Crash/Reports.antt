-- ===== src/Crash/Reports.antt =====
-- core/native/crash/crash.c: what can be read from the event of a signal.
use mathlib.Core.Path.{subst, ap₂}
use feng_shui.Prelude.{
  ne→test, arith, ℕ, zero, suc, ◌<◌, ◌^◌, ◌≡◌, refl, ap, ◌∙◌, inl, inr, Bool, true, false,
  Bool-cases, Option, none, some, List, [], ◌∷◌, ◌++◌, ◌==◌, if◌then◌else◌,
}
use feng_shui.Prelude.Int.{ℤ, pos, negsuc}
use feng_shui.Prelude.Signed.{IsInt64, word_of}
use feng_shui.Events.{
  Field, Event, Outcome, got, raised, fault, field_not_found, same, find, event_set_field,
  event_build, event_create, event_append, type_signed, type_string,
}
use feng_shui.Events.Values.{read_field, event_set_string, event_set_signed, event_set_address}
use feng_shui.Events.Kinds.{
  Kind, Value, InRange, event_set, signed, string, address, event_get, read_as, type_of, content_as,
  a_boolean, a_signed, an_unsigned, a_double, a_string, an_address, a_character,
}
use feng_shui.Events.Reading.{event_get-read_field}
use feng_shui.Events.Setting.{Updates, IsUpdate, updated, event_set-IsUpdate}
use feng_shui.Storage.Errors.{level_panic, field_code, field_message, message_field, when_got}
use feng_shui.Crash.{
  CrashSignal, sigill, sigbus, sigfpe, sigsegv, crash_message, Information, signal_code,
  field_address, field_signal_information, crash_event, set_code, set_address, described,
  crash_signal_callback,
}

-- What a list of names with values gives, read by a type.
abbrev pub lookup : Kind → List ℕ → List (List ℕ × Value) → Outcome Value
lookup kind name [] = raised field_not_found
lookup kind name ((n, v) ∷ report) =
    let rest = lookup kind name report in if same name n then read_as kind v else rest

-- The event reads as the list, by every name and type.
abbrev pub Reads : List (List ℕ × Value) → Event → Type 0
Reads report e = (kind : Kind) (name : List ℕ) → event_get kind e name ≡ lookup kind name report

-- What a reader of the report is told of each signal, and of each code of a segment: a code by its
-- name is reported for no other signal, and both names are "SEGV_MAPERR".
abbrev pub told : CrashSignal → List ℕ
told sigill =
    67 ∷ 114 ∷ 97 ∷ 115 ∷ 104 ∷ 101 ∷ 100 ∷ 58 ∷ 32 ∷ 73 ∷ 108 ∷ 108 ∷ 101 ∷ 103 ∷ 97 ∷ 108 ∷ 32
    ∷ 105 ∷ 110 ∷ 115 ∷ 116 ∷ 114 ∷ 117 ∷ 99 ∷ 116 ∷ 105 ∷ 111 ∷ 110 ∷ []
told sigbus =
    67 ∷ 114 ∷ 97 ∷ 115 ∷ 104 ∷ 101 ∷ 100 ∷ 58 ∷ 32 ∷ 66 ∷ 117 ∷ 115 ∷ 32 ∷ 101 ∷ 114 ∷ 114 ∷ 111
    ∷ 114 ∷ []
told sigfpe =
    67 ∷ 114 ∷ 97 ∷ 115 ∷ 104 ∷ 101 ∷ 100 ∷ 58 ∷ 32 ∷ 70 ∷ 108 ∷ 111 ∷ 97 ∷ 116 ∷ 105 ∷ 110 ∷ 103
    ∷ 45 ∷ 112 ∷ 111 ∷ 105 ∷ 110 ∷ 116 ∷ 32 ∷ 101 ∷ 114 ∷ 114 ∷ 111 ∷ 114 ∷ []
told sigsegv =
    67 ∷ 114 ∷ 97 ∷ 115 ∷ 104 ∷ 101 ∷ 100 ∷ 58 ∷ 32 ∷ 83 ∷ 101 ∷ 103 ∷ 109 ∷ 101 ∷ 110 ∷ 116 ∷ 97
    ∷ 116 ∷ 105 ∷ 111 ∷ 110 ∷ 32 ∷ 102 ∷ 97 ∷ 117 ∷ 108 ∷ 116 ∷ []

abbrev segv_maperr : List ℕ
segv_maperr = 83 ∷ 69 ∷ 71 ∷ 86 ∷ 95 ∷ 77 ∷ 65 ∷ 80 ∷ 69 ∷ 82 ∷ 82 ∷ []

abbrev pub code_value : (List ℕ → ℕ) → CrashSignal → ℤ → Value
code_value copy sigill code = signed code
code_value copy sigbus code = signed code
code_value copy sigfpe code = signed code
code_value copy sigsegv (pos zero) = signed (pos 0)
code_value copy sigsegv (pos (suc zero)) = string (copy segv_maperr)
code_value copy sigsegv (pos (suc (suc zero))) = string (copy segv_maperr)
code_value copy sigsegv (pos (suc (suc (suc n)))) = signed (pos (suc (suc (suc n))))
code_value copy sigsegv (negsuc n) = signed (negsuc n)

-- The value that the handler sets for the name of a code, if it has one.
abbrev set_value : (List ℕ → ℕ) → Option (List ℕ) → ℤ → Value
set_value copy none code = signed code
set_value copy (some text) code = string (copy text)

set_value-code_value :
    (copy : List ℕ → ℕ) (signal : CrashSignal) (code : ℤ)
    → set_value copy (signal_code signal code) code ≡ code_value copy signal code
set_value-code_value copy sigill code = refl
set_value-code_value copy sigbus code = refl
set_value-code_value copy sigfpe code = refl
set_value-code_value copy sigsegv (pos zero) = refl
set_value-code_value copy sigsegv (pos (suc zero)) = refl
set_value-code_value copy sigsegv (pos (suc (suc zero))) = refl
set_value-code_value copy sigsegv (pos (suc (suc (suc n)))) =
    rw (ne→test (suc (suc (suc n))) 1 (omega arith), ne→test (suc (suc (suc n))) 2 (omega arith))
      refl
set_value-code_value copy sigsegv (negsuc n) = refl

crash_message-told : (signal : CrashSignal) → crash_message signal ≡ told signal
crash_message-told sigill = refl
crash_message-told sigbus = refl
crash_message-told sigfpe = refl
crash_message-told sigsegv = refl

abbrev pub address_report : ℕ → List (List ℕ × Value)
address_report si_addr = if si_addr == 0 then [] else (field_address, address si_addr) ∷ []

-- A report with a message and a code, and the report of a signal.
abbrev report_with : Information → (text : ℕ) → (code : Value) → List (List ℕ × Value)
report_with information text code =
    (field_signal_information, address information.at)
    ∷ (address_report information.si_addr ++ (field_code, code) ∷ (field_message, string text) ∷ [])

abbrev pub report_of : (List ℕ → ℕ) → CrashSignal → Information → List (List ℕ × Value)
report_of copy signal information =
    report_with information (copy (told signal)) (code_value copy signal information.si_code)

abbrev pub IsReport : List (List ℕ × Value) → Outcome (Bool × Option Event) → Type 0
IsReport report (got (true, some e)) = (e.level ≡ level_panic) × Reads report e
IsReport report (got (true, none)) = ⊥
IsReport report (got (false, e)) = ⊥
IsReport report (raised reason) = ⊥
IsReport report fault = ⊥

update_of :
    {event after : Event} {name : List ℕ} {v : Value} {granted : Bool}
    → IsUpdate event name v granted (got after)
    → Updates event name v after
update_of (updated after u) = u

Reads-update :
    (e after : Event) (name : List ℕ) (v : Value) (report : List (List ℕ × Value))
    → IsUpdate e name v true (got after)
    → Reads report e
    → Reads ((name, v) ∷ report) after
Reads-update e after name v report u r kind other =
    update_of u kind other
    ∙ ap (λ (o : Outcome Value). if same other name then read_as kind v else o) (r kind other)

by_kind :
    (kind : Kind) (text : ℕ)
    → read_field (type_of kind) (content_as kind) (some (0, message_field text))
      ≡ read_as kind (string text)
by_kind a_boolean text = refl
by_kind a_signed text = refl
by_kind an_unsigned text = refl
by_kind a_double text = refl
by_kind a_string text = refl
by_kind an_address text = refl
by_kind a_character text = refl

Reads-message :
    (e : Event) (text : ℕ)
    → e.fields ≡ message_field text ∷ []
    → Reads ((field_message, string text) ∷ []) e
unfolding find
Reads-message e text own kind name =
    rw (event_get-read_field kind e name, own, find)
      (elim (Bool-cases (same name field_message)) [
        | inl match ↦ rw match (by_kind kind text)
        | inr other ↦ rw other refl
      ])

Reads-set :
    {e after : Event} (report : List (List ℕ × Value)) (name : List ℕ) (v : Value)
    → event_set v e name true ≡ got after
    → InRange v
    → Reads report e
    → Reads ((name, v) ∷ report) after
Reads-set {e} {after} report name v done h r =
    Reads-update e after name v report
      (subst (λ (o : Outcome Event). IsUpdate e name v true o) done
        (event_set-IsUpdate v e name true h))
      r

-- An event of the level of a crash that reads as a report.
abbrev GotReport : List (List ℕ × Value) → Outcome Event → Type 0
GotReport report (got e) = (e.level ≡ level_panic) × Reads report e
GotReport report (raised reason) = ⊥
GotReport report fault = ⊥

module _ (copy : List ℕ → ℕ) (short : (text : List ℕ) → copy text < 2 ^ 64) (function file : List ℕ)
    (line : CrashSignal → ℕ) where
  abbrev message_report : CrashSignal → List (List ℕ × Value)
  message_report signal = (field_message, string (copy (crash_message signal))) ∷ []

  abbrev event_with : CrashSignal → List Field → Event
  event_with signal fields = record {
    raised_module_name = none;
    fields = message_field (copy (crash_message signal)) ∷ fields;
    function = function;
    file = file;
    line = line signal;
    level = level_panic;
  }

  module _ (signal : CrashSignal) (information : Information)
      (code_range : IsInt64 information.si_code) (addr_range : information.si_addr < 2 ^ 64)
      (at_range : information.at < 2 ^ 64) where
    -- What is set behind the code.
    set_address-Reads :
        (content type : ℕ) (report : List (List ℕ × Value)) (f : Event)
        → f ≡ event_with signal (record { name = field_code; content = content; type = type } ∷ [])
        → Reads report f
        → GotReport
            ((field_signal_information, address information.at)
              ∷ (address_report information.si_addr ++ report))
            (when_got
              (set_address true information.si_addr f)
              (λ (g : Event). event_set_address g field_signal_information information.at true))
    unfolding set_address event_set_address event_set_field find
    set_address-Reads content type report f own r =
        rw own (elim (Bool-cases (information.si_addr == 0)) [
          | inl null ↦
              rw null (refl, Reads-set report field_signal_information at_value refl at_range r')
          | inr there ↦ rw there (
            refl,
            Reads-set ((field_address, address information.si_addr) ∷ report)
                field_signal_information at_value refl at_range
                (Reads-set report field_address (address information.si_addr) refl addr_range r'),
          )
        ])
      where
        at_value : Value
        at_value = address information.at

        r' :
            Reads report (
              event_with signal (record { name = field_code; content = content; type = type } ∷ []))
        r' = subst (Reads report) own r

    set_code-Reads :
        (text : Option (List ℕ))
        → GotReport
            ((field_signal_information, address information.at)
              ∷ (address_report information.si_addr
                  ++ (field_code, set_value copy text information.si_code) ∷ message_report signal))
            (when_got
              (set_code true copy text information.si_code (event_with signal []))
              (λ (f : Event).
                when_got (set_address true information.si_addr f) (λ (g : Event).
                  event_set_address g field_signal_information information.at true)))
    unfolding set_code event_set_string event_set_signed event_set_field find
    set_code-Reads none =
        set_address-Reads (word_of information.si_code) type_signed
          ((field_code, signed information.si_code) ∷ message_report signal) _ refl
          (Reads-set (message_report signal) field_code (signed information.si_code) refl code_range
            (Reads-message (event_with signal []) (copy (crash_message signal)) refl))
    set_code-Reads (some text) =
        set_address-Reads (copy text) type_string
          ((field_code, string (copy text)) ∷ message_report signal) _ refl
          (Reads-set (message_report signal) field_code (string (copy text)) refl (short text)
            (Reads-message (event_with signal []) (copy (crash_message signal)) refl))

printed_when_got :
    (report : List (List ℕ × Value)) (out : Outcome Event)
    → GotReport report out
    → IsReport report (when_got out (λ (e : Event). got (true, some e)))
printed_when_got report (got e) h = h
printed_when_got report (raised reason) h = elim h [ ]
printed_when_got report fault h = elim h [ ]

-- With memory granted, copies and addresses of 64 bits and a code of 64 bits: for each of the signals
-- that are handled, the first call of the handler, up to the printing, meets no undefined behaviour and
-- gives for printing an event of the level of a panic. By every name and type the event reads as the report: the message of the
-- signal, its code (by name where it is that of a segment, else as a signed number), its address
-- unless that is NULL, and where its information lies. Every other name ends the process.
pub crash_signal_callback-IsReport :
    (copy : List ℕ → ℕ) (function file : List ℕ) (line : CrashSignal → ℕ) (signal : CrashSignal)
    (information : Information)
    → ((text : List ℕ) → copy text < 2 ^ 64)
    → IsInt64 information.si_code
    → information.si_addr < 2 ^ 64
    → information.at < 2 ^ 64
    → IsReport (report_of copy signal information) (
        crash_signal_callback
          (true, true)
          true
          copy
          function
          file
          line
          false
          (some signal)
          information)
unfolding crash_signal_callback described crash_event event_build event_create event_append
crash_signal_callback-IsReport copy function file line signal information short code addr at =
    subst
      (λ (r : List (List ℕ × Value)). IsReport r (
        crash_signal_callback (true, true) true copy function file line false (some signal)
          information))
      (ap₂ (report_with information) (ap copy (crash_message-told signal))
        (set_value-code_value copy signal information.si_code))
      (printed_when_got
        (report_with information (copy (crash_message signal))
          (set_value copy (signal_code signal information.si_code) information.si_code))
        _
        (set_code-Reads copy short function file line signal information code addr at
          (signal_code signal information.si_code)))

-- A page that may not be accessed is reported as one that is not mapped.
accerr_as_mapper :
    (copy : List ℕ → ℕ) (si_addr at : ℕ)
    → report_of copy sigsegv (record { si_code = pos 2; si_addr = si_addr; at = at })
      ≡ report_of copy sigsegv (record { si_code = pos 1; si_addr = si_addr; at = at })
accerr_as_mapper copy si_addr at = refl
