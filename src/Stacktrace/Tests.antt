-- ===== src/Stacktrace/Tests.antt =====
-- Lines of three bytes: a digit, the frame and the end of the line.
use feng_shui.Prelude.{ℕ, ◌+◌, ◌≡◌, refl, Option, some, List, [], ◌∷◌, ◌==◌, if◌then◌else◌, none}
use feng_shui.Events.Format.{append_text, joined}
use feng_shui.Stacktrace.{
  stacktrace_collect_current, stacktrace_frame_read, lines_from, format_lines, stacktrace_format,
  stacktrace_print, readable, Holds, stacktrace_format-Holds,
}

-- Frame 7 cannot be printed.
abbrev line : ℕ → ℕ → Option (List ℕ)
line number frame = if frame == 7 then none else some ((48 + number) ∷ frame ∷ 10 ∷ [])

cut_off :
    stacktrace_format line (5 ∷ 6 ∷ []) 5 ≡ some (record { held = 49 ∷ 5 ∷ 10 ∷ 50 ∷ []; size = 6 })
unfolding stacktrace_format format_lines append_text
cut_off = refl

prints : stacktrace_print line (1 ∷ 2 ∷ 5 ∷ 7 ∷ 6 ∷ []) 0 ≡ some (some (49 ∷ 5 ∷ 10 ∷ []))
unfolding stacktrace_print stacktrace_collect_current stacktrace_format format_lines append_text
prints = refl

reads : stacktrace_frame_read (some (95 ∷ [])) none ≡ some (95 ∷ [])
unfolding stacktrace_frame_read
reads = refl

stacktrace_format-Holds_example :
    Holds 5
      (joined (readable (lines_from line 1 (5 ∷ 6 ∷ []))))
      (stacktrace_format line (5 ∷ 6 ∷ []) 5)
stacktrace_format-Holds_example = stacktrace_format-Holds line (5 ∷ 6 ∷ []) 5
