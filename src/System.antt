-- ===== src/System.antt =====
-- core/native/system/system.c, what is done with events by default, less what is printed. Libraries
-- has the libraries and the environment.
pub mod Libraries
pub mod Loading
mod Tests
use feng_shui.Prelude.{ℕ, ◌≡◌, refl, Bool, false, Option, none, some, List, if◌then◌else◌}
use feng_shui.Prelude.Int.{ℤ, pos, negsuc, ltb_ℤ}
use feng_shui.Events.{
  Field, Event, Outcome, got, raised, field_not_of_type, find, event_has_field, type_signed,
  type_unsigned,
}
use feng_shui.Events.Values.{event_get_unsigned}
use feng_shui.Events.Kinds.{outcome_map}
use feng_shui.Events.Format.{Label, event_format}
use feng_shui.Storage.Errors.{field_code}

-- An event above the level of the system is neither printed nor freed.
module _ (header : Label → Event → Option (List ℕ)) (module_part : List ℕ → Option (List ℕ))
    (field_text : Field → Option (List ℕ)) where
  unfoldable pub system_default_event_printer : ℤ → Bool → Event → Outcome (Option (List ℕ))
  system_default_event_printer print_level granted event =
      if ltb_ℤ print_level (pos event.level)
      then got none
      else outcome_map some (event_format header module_part field_text granted event)

-- The code with which the process ends; none when the function returns.
unfoldable pub system_default_event_raiser : ℤ → Event → Outcome (Option ℤ)
system_default_event_raiser print_level event =
    if ltb_ℤ print_level (pos event.level)
    then got none
    else if event_has_field event field_code
    then outcome_map (λ (n : ℕ). some (pos n)) (event_get_unsigned event field_code)
    else got (some (negsuc 0))

-- A code that is signed, as the codes of the system are, is not the code with which the process ends:
-- to read it ends the process.
raiser_signed :
    (print_level : ℤ) (event : Event) (i : ℕ) (f : Field)
    → ltb_ℤ print_level (pos event.level) ≡ false
    → find field_code event.fields ≡ some (i, f)
    → f.type ≡ type_signed
    → system_default_event_raiser print_level event ≡ raised (field_not_of_type type_unsigned)
unfolding system_default_event_raiser event_has_field event_get_unsigned
raiser_signed print_level event i f level there signed =
    rw (level, there, signed, system_default_event_raiser, event_has_field, event_get_unsigned) refl
