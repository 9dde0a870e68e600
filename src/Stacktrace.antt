-- ===== src/Stacktrace.antt =====
-- core/native/stacktrace/stacktrace.cc: the frames of the caller, and their text. What libunwind finds,
-- and what `snprintf` prints, are parameters.
mod Tests
use mathlib.Core.Path.{subst}
use mathlib.Core.List.{append_assoc, append-nil}
use feng_shui.Prelude.{
  ℕ, suc, ◌+◌, ◌-◌, ◌≤◌, ◌<◌, ◌≡◌, refl, sym, ap, ◌∙◌, arith, Bool, true, false, Bool-cases, inl,
  inr, Option, none, some, List, [], ◌∷◌, ◌++◌, ◌==◌, if◌then◌else◌, ltb, leb, length,
  length-append, take, drop, length-take, length-drop, take-append_left, take-all,
}
use feng_shui.Events.Format.{Buffer, append_text, append_text-inside, block, joined}

-- STACKTRACE_PRINT_BUFFER
abbrev pub print_buffer : ℕ
print_buffer = 2048

abbrev pub minimum : ℕ → ℕ → ℕ
minimum a b = if ltb a b then a else b

-- A frame is its instruction. `found` is what `unw_backtrace` puts into the frames.
unfoldable pub stacktrace_collect_current : (found : List ℕ) → (skip : ℕ) → List ℕ
stacktrace_collect_current found skip =
    let size = length found - minimum skip (length found) in take size (drop skip found)

-- The name of a procedure, if libunwind has one, and what it is called without its encoding.
unfoldable pub stacktrace_frame_read : Option (List ℕ) → Option (List ℕ) → Option (List ℕ)
stacktrace_frame_read none demangled = none
stacktrace_frame_read (some name) (some demangled) = some demangled
stacktrace_frame_read (some name) none = some name

-- The lines for frames, from a number on.
abbrev pub lines_from : (ℕ → ℕ → Option (List ℕ)) → ℕ → List ℕ → List (Option (List ℕ))
lines_from line number [] = []
lines_from line number (frame ∷ frames) = line number frame ∷ lines_from line (suc number) frames

-- `none` is a write outside the block of `buffer_size` bytes.
unfoldable pub format_lines : (buffer_size : ℕ) → List (Option (List ℕ)) → Buffer → Option Buffer
format_lines buffer_size [] b = some b
format_lines buffer_size (none ∷ lines) b = some b
format_lines buffer_size (some text ∷ lines) b = elim (append_text buffer_size text b) [
  | none ↦ none
  | some b' ↦
      let rest = format_lines buffer_size lines b' in
      if leb buffer_size b'.size then some b' else rest
]

-- The text in the block and the total that is returned.
unfoldable pub stacktrace_format :
    (line : ℕ → ℕ → Option (List ℕ)) → List ℕ → (buffer_size : ℕ) → Option Buffer
stacktrace_format line frames buffer_size =
    format_lines buffer_size (lines_from line 1 frames) (record { held = []; size = 0 })

-- What is printed, if anything.
unfoldable pub stacktrace_print :
    (line : ℕ → ℕ → Option (List ℕ)) → (found : List ℕ) → (skip : ℕ) → Option (Option (List ℕ))
stacktrace_print line found skip =
    elim (stacktrace_format line (stacktrace_collect_current found (skip + 2)) print_buffer) [
      | none ↦ none
      | some b ↦ if ltb 0 b.size then some (some b.held) else some none
    ]

-- The texts in front of the first that cannot be printed.
abbrev pub readable : List (Option (List ℕ)) → List (List ℕ)
readable [] = []
readable (none ∷ lines) = []
readable (some text ∷ lines) = text ∷ readable lines

collect-drop : (found : List ℕ) (skip : ℕ) → stacktrace_collect_current found skip ≡ drop skip found
unfolding stacktrace_collect_current
collect-drop found skip = take-all _ (drop skip found) (ground (arith, length-drop skip found))

-- A block with the text, cut off a byte before its end.
abbrev pub Holds : ℕ → List ℕ → Option Buffer → Type 0
Holds buffer_size text none = ⊥
Holds buffer_size text (some b) = b.held ≡ take (buffer_size - 1) text

format_lines-Holds :
    (buffer_size : ℕ) (lines : List (Option (List ℕ))) (so_far : List ℕ)
    → length so_far ≤ buffer_size
    → Holds buffer_size
        (so_far ++ joined (readable lines))
        (format_lines buffer_size lines (block buffer_size so_far))
unfolding format_lines
format_lines-Holds buffer_size [] so_far h = rw (append-nil so_far) refl
format_lines-Holds buffer_size (none ∷ lines) so_far h = rw (append-nil so_far) refl
format_lines-Holds buffer_size (some text ∷ lines) so_far h =
    rw (append_text-inside buffer_size so_far text h, Holds, format_lines)
      (elim (Bool-cases (leb buffer_size (length (so_far ++ text)))) [
        | inl full ↦ rw full (
            sym (
              ap (take (buffer_size - 1)) (sym (append_assoc so_far text rest))
              ∙ take-append_left (buffer_size - 1) (so_far ++ text) rest (ground arith)))
        | inr room ↦ rw room (
            subst
              (λ (xs : List ℕ).
                Holds buffer_size xs
                  (format_lines buffer_size lines (block buffer_size (so_far ++ text))))
              (append_assoc so_far text rest)
              (format_lines-Holds buffer_size lines (so_far ++ text) (ground arith)))
      ])
  where
    rest : List ℕ
    rest = joined (readable lines)

-- Whatever frames there are and whatever can be printed of them, `stacktrace_format` writes within
-- its block. It leaves there the lines of the frames, numbered from 1, up to the first that cannot
-- be printed, cut off a byte before the end of the block.
pub stacktrace_format-Holds :
    (line : ℕ → ℕ → Option (List ℕ)) (frames : List ℕ) (buffer_size : ℕ)
    → Holds buffer_size
        (joined (readable (lines_from line 1 frames)))
        (stacktrace_format line frames buffer_size)
unfolding stacktrace_format
stacktrace_format-Holds line frames buffer_size =
    subst
      (λ (xs : List ℕ).
        Holds buffer_size (joined (readable (lines_from line 1 frames)))
          (format_lines buffer_size (lines_from line 1 frames) (record { held = xs; size = 0 })))
      (take-all (buffer_size - 1) [] (omega arith))
      (format_lines-Holds buffer_size (lines_from line 1 frames) [] (omega arith))
