-- ===== src/Events/Format.antt =====
-- The text of an event, which `event_format` puts piece by piece into a block.
-- What the calls of `snprintf` print is a parameter.
use feng_shui.Prelude.{
  ℕ, ◌+◌, ◌-◌, ◌≤◌, ◌≡◌, inl, inr, refl, sym, ap, ◌∙◌, arith, Bool, true, false, Bool-cases, ◌||◌,
  Option, none, some, List, [], ◌∷◌, ◌++◌, ◌==◌, if◌then◌else◌, ltb, length, length-append, take,
  map, take-all, take-append_left, ne→test, eq→test, ℕ_discrete,
}
use mathlib.Core.List.{append_assoc, append-nil}
use feng_shui.Events.{Field, Event, Outcome, got, raised, fault, out_of_memory}

-- EVENT_BUFFER
abbrev pub event_buffer : ℕ
event_buffer = 16384

pub data Label : Type 0 where
  unknown : Label
  trace : Label
  information : Label
  warning : Label
  error : Label
  panic : Label

-- EVENT_LEVEL_*, with the label of each
abbrev pub label_of : ℕ → Label
label_of level =
    if level == 4
    then trace
    else if level == 3
    then information
    else if level == 2
    then warning
    else if level == 1
    then error
    else if level == 0
    then panic
    else unknown

-- The text in the block, up to its end, and the length of all that should be there.
pub record Buffer : Type 0 where
  pub held : List ℕ
  pub size : ℕ

-- The pieces put together.
abbrev pub joined : List (List ℕ) → List ℕ
joined [] = []
joined (text ∷ texts) = text ++ joined texts

abbrev pub printed : List (List ℕ) → List (Option (List ℕ))
printed texts = map some texts

ge→test : (a b : ℕ) → b ≤ a → ltb a b ≡ false
ge→test a b h = ground arith

test→ge : (a b : ℕ) → ltb a b ≡ false → b ≤ a
test→ge a b h = ground arith

-- A block of `limit` bytes.
module _ (limit : ℕ) where
  -- `snprintf(buffer + size, EVENT_BUFFER - size, …)`: it cuts the text off where the block ends,
  -- less a byte for the end of the text. Past the block, `buffer + size` is no pointer, and the
  -- difference wraps.
  unfoldable pub append_text : List ℕ → Buffer → Option Buffer
  append_text text b =
      if ltb limit b.size
      then none
      else if b.size == limit
      then some (record b { size = b.size + length text })
      else some (record { held = take (limit - 1) (b.held ++ text); size = b.size + length text })

  -- Piece after piece; `none` where `snprintf` fails, with which the text ends.
  unfoldable pub print_pieces : List (Option (List ℕ)) → Buffer → Outcome (List ℕ)
  print_pieces [] b = got b.held
  print_pieces (none ∷ pieces) b = got b.held
  print_pieces (some text ∷ pieces) b = elim (append_text text b) [
    | none ↦ fault
    | some b' ↦ print_pieces pieces b'
  ]

  -- Whether a piece starts past the end of the block.
  abbrev pub overruns : List (List ℕ) → ℕ → Bool
  overruns [] size = false
  overruns (text ∷ texts) size = ltb limit size || overruns texts (size + length text)

  -- The block, when the texts so far are in it.
  abbrev pub block : List ℕ → Buffer
  block so_far = record { held = take (limit - 1) so_far; size = length so_far }

  pub append_text-inside :
      (so_far text : List ℕ)
      → length so_far ≤ limit
      → append_text text (block so_far) ≡ some (block (so_far ++ text))
  unfolding append_text
  append_text-inside so_far text h = elim (ℕ_discrete (length so_far) limit) [
    | yes full ↦
        rw
          (
            ge→test limit (length so_far) h,
            eq→test (length so_far) limit full,
            length-append {0} so_far text,
            take-append_left (limit - 1) so_far text (omega (arith, full)),
          )
          refl
    | no room ↦
        rw
          (
            ge→test limit (length so_far) h,
            ne→test (length so_far) limit room,
            length-append {0} so_far text,
            take-all (limit - 1) so_far (omega (arith, h, room)),
          )
          refl
  ]

  append_text-outside :
      (so_far text : List ℕ)
      → ltb limit (length so_far) ≡ true
      → append_text text (block so_far) ≡ none
  unfolding append_text
  append_text-outside so_far text h = rw (h) refl

  print_pieces-joined :
      (texts : List (List ℕ)) (so_far : List ℕ)
      → print_pieces (printed texts) (block so_far) ≡ (
          if overruns texts (length so_far)
          then fault
          else got (take (limit - 1) (so_far ++ joined texts)))
  unfolding print_pieces
  print_pieces-joined [] so_far =
      ap (λ (xs : List ℕ). got (take (limit - 1) xs)) (sym (append-nil so_far))
  print_pieces-joined (text ∷ texts) so_far = elim (Bool-cases (ltb limit (length so_far))) [
    | inl past ↦ rw (append_text-outside so_far text past, past, print_pieces) refl
    | inr inside ↦
        rw
          (
            append_text-inside so_far text (test→ge limit (length so_far) inside),
            inside,
            print_pieces,
          )
          (print_pieces-joined texts (so_far ++ text)
            ∙ rw (length-append {0} so_far text, append_assoc so_far text (joined texts)) refl)
  ]

module _ (header : Label → Event → Option (List ℕ)) (module_part : List ℕ → Option (List ℕ))
    (field_text : Field → Option (List ℕ)) where
  abbrev module_pieces : Option (List ℕ) → List (Option (List ℕ))
  module_pieces none = []
  module_pieces (some name) = module_part name ∷ []

  abbrev pub pieces_of : Event → List (Option (List ℕ))
  pieces_of event =
      header (label_of event.level) event ∷ module_pieces event.raised_module_name
      ++ map field_text event.fields

  unfoldable pub event_format : Bool → Event → Outcome (List ℕ)
  event_format granted event =
      if granted
      then print_pieces event_buffer (pieces_of event) (record { held = []; size = 0 })
      else raised out_of_memory

  -- Where every piece of an event can be printed, `event_format` gives all pieces one after another,
  -- cut off a byte before the end of its block; unless a piece starts past the end of the block,
  -- where the call leaves it.
  pub event_format-joined :
      (event : Event) (texts : List (List ℕ))
      → pieces_of event ≡ printed texts
      → event_format true event ≡ (
          if overruns event_buffer texts 0
          then fault
          else got (take (event_buffer - 1) (joined texts)))
  unfolding event_format
  event_format-joined event texts h = rw (h) (print_pieces-joined event_buffer texts [])
