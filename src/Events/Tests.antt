-- ===== src/Events/Tests.antt =====
-- An event with a code, set, read, listed and printed.
use feng_shui.Prelude.{
  ℕ, ◌-◌, ◌^◌, ◌≡◌, refl, true, Option, none, some, List, [], ◌∷◌, ◌++◌, if◌then◌else◌, take,
}
use feng_shui.Prelude.Int.{pos, negsuc}
use feng_shui.Events.{Field, Event, got, fault, event_create, event_set_field, find}
use feng_shui.Events.Values.{event_set_signed, event_get_signed}
use feng_shui.Events.Kinds.{signed, character}
use feng_shui.Events.Distinct.{Setting, GivesValid, set_all, set_all-IsValid}
use feng_shui.Events.Format.{
  Label, event_buffer, overruns, joined, event_format, event_format-joined,
}

abbrev bare : Event
bare = record {
  raised_module_name = none;
  fields = [];
  function = 102 ∷ [];
  file = 99 ∷ [];
  line = 3;
  level = 1;
}

abbrev code : List ℕ
code = 99 ∷ 111 ∷ 100 ∷ 101 ∷ []

abbrev coded : Event
coded = record bare { fields = record { name = code; content = 2 ^ 64 - 5; type = 0 } ∷ [] }

sets : event_set_signed bare code (negsuc 4) true ≡ got coded
unfolding event_set_signed event_set_field find
sets = refl

reads : event_get_signed coded code ≡ got (negsuc 4)
unfolding event_get_signed find
reads = refl

abbrev settings : List Setting
settings =
    (code, signed (pos 7), true) ∷ (99 ∷ [], character 65, true) ∷ (code, character 66, true) ∷ []

set_all-IsValid_example :
    GivesValid (set_all settings (event_create (true, true) 1 (102 ∷ []) (99 ∷ []) 3))
set_all-IsValid_example = set_all-IsValid settings (true, true) 1 (102 ∷ []) (99 ∷ []) 3

abbrev printed_header : Label → Event → Option (List ℕ)
printed_header label event = some (91 ∷ 93 ∷ event.function)

abbrev printed_field : Field → Option (List ℕ)
printed_field f = some (f.name ++ 10 ∷ [])

event_format-joined_example : event_format printed_header some printed_field true coded ≡ (
    if overruns event_buffer ((91 ∷ 93 ∷ 102 ∷ []) ∷ (code ++ 10 ∷ []) ∷ []) 0
    then fault
    else got (take (event_buffer - 1) (joined ((91 ∷ 93 ∷ 102 ∷ []) ∷ (code ++ 10 ∷ []) ∷ []))))
event_format-joined_example =
    event_format-joined printed_header some printed_field coded
      ((91 ∷ 93 ∷ 102 ∷ []) ∷ (code ++ 10 ∷ []) ∷ []) refl
