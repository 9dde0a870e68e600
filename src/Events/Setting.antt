-- ===== src/Events/Setting.antt =====
-- An event is a map from names to values with types.
use feng_shui.Prelude.{
  ℕ, ◌≡◌, ◌≢◌, inl, inr, refl, sym, ap, ◌∙◌, Bool, true, false, Bool-cases, none, some, List, [],
  ◌∷◌, ◌++◌, if◌then◌else◌, length, set, ne→test, eq→test, ℕ_discrete,
}
use feng_shui.Events.{
  Field, Event, Outcome, got, raised, fault, field_limit_reached, same, find, event_set_field,
  fields_maximum,
}
use feng_shui.Events.Values.{read_field}
use feng_shui.Events.Finding.{
  IsAbsent, find-cases, find-IsAt, append-IsAt, set-IsAt, find-set_other, find-append_other,
  same_refl, same→eq,
}
use feng_shui.Events.Kinds.{
  Kind, Value, type_of, InRange, event_set, event_get, read_as, content_as,
}
use feng_shui.Events.Reading.{
  written_with, event_get-read_field, event_set-written_with, written_with-name, read-written,
}

-- The event reads as before, but for the name, which reads as the value.
abbrev pub Updates : Event → List ℕ → Value → Event → Type 0
Updates event name v after =
    (kind : Kind) (other : List ℕ)
    → event_get kind after other
      ≡ (if same other name then read_as kind v else event_get kind event other)

-- What a setter does.
pub data IsUpdate (event : Event) (name : List ℕ) (v : Value) (granted : Bool)
    : Outcome Event → Type 0 where
  updated : (after : Event) → Updates event name v after → IsUpdate event name v granted (got after)
  limit :
      IsAbsent name event.fields
      → length event.fields ≡ fields_maximum
      → IsUpdate event name v granted (raised field_limit_reached)
  no_memory :
      IsAbsent name event.fields
      → length event.fields ≢ fields_maximum
      → granted ≡ false
      → IsUpdate event name v granted fault

module _ (event : Event) (name : List ℕ) (v : Value) (h : InRange v) where
  -- The fields changed so that only the name reads otherwise.
  updates :
      (fields : List Field) (i : ℕ) (f : Field)
      → find name fields ≡ some (i, written_with v f)
      → ((other : List ℕ) (apart : same other name ≡ false)
          → find other fields ≡ find other event.fields)
      → Updates event name v (record event { fields = fields })
  updates fields i f own others kind other = elim (Bool-cases (same other name)) [
    | inl match ↦
        rw
          (
            match,
            event_get-read_field kind (record event { fields = fields }) other,
            same→eq other name match,
            own,
          )
          (read-written kind v i f h)
    | inr apart ↦ rw (apart) (
        event_get-read_field kind (record event { fields = fields }) other
        ∙ ap (read_field (type_of kind) (content_as kind)) (others other apart)
        ∙ sym (event_get-read_field kind event other))
  ]

  appended :
      (granted : Bool)
      → find name event.fields ≡ none
      → IsAbsent name event.fields
      → length event.fields ≢ fields_maximum
      → IsUpdate event name v granted (event_set_field event name (written_with v) granted)
  unfolding event_set_field
  appended false missing away room =
      rw (missing, ne→test (length event.fields) 20 room, event_set_field)
        (no_memory away room refl)
  appended true missing away room =
      let blank : Field = record { name = name; content = 0; type = 0 } in
      let fresh : Field = written_with v blank in
      let named : fresh.name ≡ name = written_with-name v blank in
      rw (missing, ne→test (length event.fields) 20 room, event_set_field)
        (updated (record event { fields = event.fields ++ fresh ∷ [] })
          (updates (event.fields ++ fresh ∷ []) (length event.fields) blank
            (find-IsAt (append-IsAt event.fields fresh away (rw (named) (same_refl name))))
            (λ other apart. find-append_other other event.fields fresh (rw (named) apart))))

  set_field-IsUpdate :
      (granted : Bool)
      → IsUpdate event name v granted (event_set_field event name (written_with v) granted)
  unfolding event_set_field
  set_field-IsUpdate granted = elim (find-cases name event.fields) [
    | inr (i, f, found, at) ↦
        rw (found, event_set_field)
          (updated (record event { fields = set event.fields i (written_with v f) })
            (updates (set event.fields i (written_with v f)) i f
              (find-IsAt (set-IsAt (written_with v) (written_with-name v) at))
              (λ other apart.
                find-set_other (written_with v) (written_with-name v) other at apart)))
    | inl (missing, away) ↦ elim (ℕ_discrete (length event.fields) fields_maximum) [
      | yes full ↦
          rw (missing, eq→test (length event.fields) 20 full, event_set_field) (limit away full)
      | no room ↦ appended granted missing away room
    ]
  ]

pub event_set-IsUpdate :
    (v : Value) (event : Event) (name : List ℕ) (granted : Bool)
    → InRange v
    → IsUpdate event name v granted (event_set v event name granted)
event_set-IsUpdate v event name granted h =
    rw (event_set-written_with v event name granted) (set_field-IsUpdate event name v h granted)
