-- ===== src/Storage/Exits.antt =====
-- storage/native/storage/launcher.cc: what is called, and with what exit code, however signals, calls
-- and turns of the loop follow each other.
use feng_shui.Prelude.{
  ℕ, Bool, true, false, Option, none, some, List, [], ◌∷◌, ◌++◌, ◌≡◌, refl, ◌==◌, if◌then◌else◌,
}
use feng_shui.Prelude.Int.{ℤ, pos}
use feng_shui.Storage.Launcher.{
  Called, broadcast, run_triggers, diag_clear, box_shutdown, Launcher, Act, signal, shutdown, turn,
  leave, storage_exit, signal_cb, storage_launcher_shutdown, on_shutdown_f, act, acts,
  launched_with,
}

-- The codes of the requests that stand behind the end of the loop: signals are none.
abbrev pub late_request : List Act → Option ℤ
late_request [] = none
late_request (shutdown code ∷ rest) = some code
late_request (signal ∷ rest) = late_request rest
late_request (turn triggers ∷ rest) = late_request rest
late_request (leave ∷ rest) = late_request rest

-- The code of the first request.
abbrev pub request : List Act → Option ℤ
request [] = none
request (signal ∷ rest) = some (pos 0)
request (shutdown code ∷ rest) = some code
request (turn triggers ∷ rest) = request rest
request (leave ∷ rest) = late_request rest

-- The first turn of the fiber, if the loop has one before it is left.
abbrev pub next_turn : List Act → Option ℕ
next_turn [] = none
next_turn (leave ∷ rest) = none
next_turn (turn triggers ∷ rest) = some triggers
next_turn (signal ∷ rest) = next_turn rest
next_turn (shutdown code ∷ rest) = next_turn rest

-- The first turn behind a request.
abbrev pub answering_turn : List Act → Option ℕ
answering_turn [] = none
answering_turn (leave ∷ rest) = none
answering_turn (turn triggers ∷ rest) = answering_turn rest
answering_turn (signal ∷ rest) = next_turn rest
answering_turn (shutdown code ∷ rest) = next_turn rest

abbrev pub calls_after : Option ℤ → Option ℕ → List Called
calls_after none answer = []
calls_after (some code) none = broadcast ∷ []
calls_after (some code) (some triggers) =
    broadcast
    ∷ run_triggers
    ∷ ((if triggers == 0 then [] else diag_clear ∷ []) ++ box_shutdown ∷ [])

-- A launcher with the code of a request and the result of the triggers, if there are.
abbrev pub IsExit : Option ℤ → Option ℕ → Option Launcher → Type 0
IsExit asked answer none = ⊥
IsExit none answer (some l) =
    (l.shutdown_started ≡ false)
    × (l.shutdown_finished ≡ false)
    × (l.exit_code ≡ pos 0)
    × (l.calls ≡ [])
IsExit (some code) none (some l) =
    (l.shutdown_started ≡ true)
    × (l.shutdown_finished ≡ false)
    × (l.exit_code ≡ code)
    × (l.calls ≡ calls_after (some code) none)
IsExit (some code) (some triggers) (some l) =
    (l.shutdown_started ≡ true)
    × (l.shutdown_finished ≡ true)
    × (l.exit_code ≡ code)
    × (l.calls ≡ calls_after (some code) (some triggers))

-- Asked with a code, before the fiber has had its turn.
abbrev asked_with : (code : ℤ) (running : Bool) → Launcher
asked_with code running = record {
  start_loop = false;
  shutdown_started = true;
  shutdown_finished = false;
  exit_code = code;
  made = true;
  woken = true;
  running = running;
  calls = broadcast ∷ [];
}

abbrev ended_with : (code : ℤ) (triggers : ℕ) → Launcher
ended_with code triggers = record (asked_with code false) {
  shutdown_finished = true;
  woken = false;
  calls = calls_after (some code) (some triggers);
}

acts-ended :
    (code : ℤ) (triggers : ℕ) (rest : List Act)
    → acts rest (ended_with code triggers) ≡ some (ended_with code triggers)
unfolding acts act storage_launcher_shutdown
acts-ended code triggers [] = refl
acts-ended code triggers (signal ∷ rest) = acts-ended code triggers rest
acts-ended code triggers (shutdown other ∷ rest) = acts-ended code triggers rest
acts-ended code triggers (turn other ∷ rest) = acts-ended code triggers rest
acts-ended code triggers (leave ∷ rest) = acts-ended code triggers rest

acts-late :
    (code : ℤ) (rest : List Act) → acts rest (asked_with code false) ≡ some (asked_with code false)
unfolding acts act storage_launcher_shutdown
acts-late code [] = refl
acts-late code (signal ∷ rest) = acts-late code rest
acts-late code (shutdown other ∷ rest) = acts-late code rest
acts-late code (turn other ∷ rest) = acts-late code rest
acts-late code (leave ∷ rest) = acts-late code rest

acts-asked :
    (code : ℤ) (rest : List Act)
    → IsExit (some code) (next_turn rest) (acts rest (asked_with code true))
unfolding acts act storage_launcher_shutdown signal_cb storage_exit on_shutdown_f
acts-asked code [] = (refl, refl, refl, refl)
acts-asked code (signal ∷ rest) = acts-asked code rest
acts-asked code (shutdown other ∷ rest) = acts-asked code rest
acts-asked code (turn triggers ∷ rest) = rw (acts-ended code triggers rest) (refl, refl, refl, refl)
acts-asked code (leave ∷ rest) = rw (acts-late code rest) (refl, refl, refl, refl)

-- The loop is left before any request.
acts-left :
    (b : Bool) (rest : List Act)
    → IsExit (late_request rest) none (acts rest (record (launched_with b) { running = false }))
unfolding acts act storage_launcher_shutdown storage_exit
acts-left b [] = (refl, refl, refl, refl)
acts-left b (signal ∷ rest) = acts-left b rest
acts-left b (shutdown code ∷ rest) = rw (acts-late code rest) (refl, refl, refl, refl)
acts-left b (turn triggers ∷ rest) = acts-left b rest
acts-left b (leave ∷ rest) = acts-left b rest

-- However signals, calls of `storage_launcher_shutdown`, turns of the fiber and the end of the loop
-- follow each other after the launch: no NULL fiber is woken, the exit code is that of the first
-- request, which alone is broadcast, and the triggers and `box_shutdown` run once, at the first turn
-- of the fiber behind it; they do not run when the loop is left before that turn.
pub acts-IsExit :
    (start_loop : Bool) (happened : List Act)
    → IsExit (request happened) (answering_turn happened) (acts happened (launched_with start_loop))
unfolding acts act storage_launcher_shutdown signal_cb storage_exit
acts-IsExit b [] = (refl, refl, refl, refl)
acts-IsExit b (signal ∷ rest) = acts-asked (pos 0) rest
acts-IsExit b (shutdown code ∷ rest) = acts-asked code rest
acts-IsExit b (turn triggers ∷ rest) = acts-IsExit b rest
acts-IsExit b (leave ∷ rest) = acts-left b rest
