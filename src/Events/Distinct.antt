-- ===== src/Events/Distinct.antt =====
-- The names of an event whose fields are set one by one.
use mathlib.Core.Path.{subst}
use feng_shui.Prelude.{
  ℕ, ◌≤◌, ◌≡◌, ◌≢◌, inl, inr, refl, sym, ap, ◌∙◌, arith, Bool, true, false, none, List, [], ◌∷◌,
  ◌++◌, length, length-append, length-set, ne→test, eq→test, ℕ_discrete, All,
}
use feng_shui.Events.{
  Field, Event, Outcome, got, raised, fault, same, find, event_create, event_set_field,
  fields_maximum,
}
use feng_shui.Events.Kinds.{Value, event_set}
use feng_shui.Events.Reading.{written_with, event_set-written_with, written_with-name}
use feng_shui.Events.Finding.{IsAbsent, names, find-cases, names-set}

abbrev pub IsDistinct : List (List ℕ) → Type 0
IsDistinct [] = Unit
IsDistinct (n ∷ ns) = All (λ (m : List ℕ). same n m ≡ false) ns × IsDistinct ns

-- At most 20 fields, no two of the same name.
abbrev pub IsValid : Event → Type 0
IsValid event = (length event.fields ≤ fields_maximum) × IsDistinct (names event.fields)

-- A result, if there is one, is valid.
abbrev pub GivesValid : Outcome Event → Type 0
GivesValid (got event) = IsValid event
GivesValid (raised reason) = Unit
GivesValid fault = Unit

-- A field to be set: its name and value, and whether memory is granted.
abbrev pub Setting : Type 0
Setting = List ℕ × Value × Bool

-- One setter after another.
unfoldable pub set_all : List Setting → Outcome Event → Outcome Event
set_all [] (got event) = got event
set_all ((name, v, granted) ∷ settings) (got event) =
    set_all settings (event_set v event name granted)
set_all settings (raised reason) = raised reason
set_all settings fault = fault

same_comm : (xs ys : List ℕ) → same xs ys ≡ same ys xs
same_comm [] [] = refl
same_comm [] (y ∷ ys) = refl
same_comm (x ∷ xs) [] = refl
same_comm (x ∷ xs) (y ∷ ys) = rw (same_comm xs ys) (ground arith)

names-append :
    (fields : List Field) (f : Field) → names (fields ++ f ∷ []) ≡ names fields ++ f.name ∷ []
names-append [] f = refl
names-append (g ∷ fields) f = ap (◌∷◌ g.name) (names-append fields f)

apart_append :
    (n name : List ℕ) (ns : List (List ℕ))
    → same name n ≡ false
    → All (λ (m : List ℕ). same n m ≡ false) ns
    → All (λ (m : List ℕ). same n m ≡ false) (ns ++ name ∷ [])
apart_append n name [] h each = (same_comm n name ∙ h, tt)
apart_append n name (m ∷ ns) h (one, each) = (one, apart_append n name ns h each)

append-IsDistinct :
    (name : List ℕ) (fields : List Field)
    → IsAbsent name fields
    → IsDistinct (names fields)
    → IsDistinct (names fields ++ name ∷ [])
append-IsDistinct name [] away once = (tt, tt)
append-IsDistinct name (f ∷ fields) (other, away) (each, once) =
    (apart_append f.name name (names fields) other each, append-IsDistinct name fields away once)

appended :
    (event : Event) (name : List ℕ) (v : Value) (granted : Bool)
    → IsValid event
    → find name event.fields ≡ none
    → IsAbsent name event.fields
    → length event.fields ≢ fields_maximum
    → GivesValid (event_set_field event name (written_with v) granted)
unfolding event_set_field
appended event name v false (few, once) missing away room =
    rw (missing, ne→test (length event.fields) 20 room, event_set_field) tt
appended event name v true (few, once) missing away room =
    let blank : Field = record { name = name; content = 0; type = 0 } in
    let fresh : Field = written_with v blank in
    rw (missing, ne→test (length event.fields) 20 room, event_set_field)
      (
        omega (arith, few, room, length-append {0} event.fields (fresh ∷ [])),
        rw (names-append event.fields fresh, written_with-name v blank)
            (append-IsDistinct name event.fields away once),
      )

event_set_field-IsValid :
    (event : Event) (name : List ℕ) (v : Value) (granted : Bool)
    → IsValid event
    → GivesValid (event_set_field event name (written_with v) granted)
unfolding event_set_field
event_set_field-IsValid event name v granted (few, once) = elim (find-cases name event.fields) [
  | inr (i, f, found, at) ↦
      rw (found, event_set_field)
        (
          omega (arith, few, length-set {0} event.fields i (written_with v f)),
          subst IsDistinct (sym (names-set (written_with v) (written_with-name v) at)) once,
        )
  | inl (missing, away) ↦ elim (ℕ_discrete (length event.fields) fields_maximum) [
    | yes full ↦ rw (missing, eq→test (length event.fields) 20 full, event_set_field) tt
    | no room ↦ appended event name v granted (few, once) missing away room
  ]
]

pub event_set-IsValid :
    (event : Event) (name : List ℕ) (v : Value) (granted : Bool)
    → IsValid event
    → GivesValid (event_set v event name granted)
event_set-IsValid event name v granted valid =
    rw (event_set-written_with v event name granted)
      (event_set_field-IsValid event name v granted valid)

set_all_keeps :
    (settings : List Setting) (out : Outcome Event)
    → GivesValid out
    → GivesValid (set_all settings out)
unfolding set_all
set_all_keeps [] (got event) valid = valid
set_all_keeps [] (raised reason) valid = tt
set_all_keeps [] fault valid = tt
set_all_keeps (s ∷ settings) (raised reason) valid = tt
set_all_keeps (s ∷ settings) fault valid = tt
set_all_keeps ((name, v, granted) ∷ settings) (got event) valid =
    set_all_keeps settings (event_set v event name granted)
      (event_set-IsValid event name v granted valid)

event_create-IsValid :
    (created : Bool × Bool) (level : ℕ) (function file : List ℕ) (line : ℕ)
    → GivesValid (event_create created level function file line)
unfolding event_create
event_create-IsValid (true, true) level function file line = (omega arith, tt)
event_create-IsValid (true, false) level function file line = tt
event_create-IsValid (false, b) level function file line = tt

-- However fields are set on a new event, the result, if there is one, has at most 20 fields, and no
-- two of them have the same name.
pub set_all-IsValid :
    (settings : List Setting) (created : Bool × Bool) (level : ℕ) (function file : List ℕ)
    (line : ℕ)
    → GivesValid (set_all settings (event_create created level function file line))
set_all-IsValid settings created level function file line =
    set_all_keeps settings (event_create created level function file line)
      (event_create-IsValid created level function file line)
