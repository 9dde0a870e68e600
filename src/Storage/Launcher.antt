-- ===== src/Storage/Launcher.antt =====
-- storage/native/storage/launcher.cc: how the loop of Tarantool is asked to shut down. Calls of the
-- fibers and of the loop of Tarantool are fields of the state; what is logged is left out.
use feng_shui.Prelude.{
  ℕ, Bool, true, false, not, Option, none, some, List, [], ◌∷◌, ◌++◌, ◌==◌, if◌then◌else◌,
}
use feng_shui.Prelude.Int.{ℤ, pos}

-- What is called of Tarantool, in order.
pub data Called : Type 0 where
  broadcast : Called
  run_triggers : Called
  diag_clear : Called
  box_shutdown : Called

-- The variables of launcher.cc. `made` is that `on_shutdown_fiber` is not NULL, `woken` that it is
-- to run, `running` that the loop has not been left.
pub record Launcher : Type 0 where
  pub start_loop : Bool
  pub shutdown_started : Bool
  pub shutdown_finished : Bool
  pub exit_code : ℤ
  pub made : Bool
  pub woken : Bool
  pub running : Bool
  pub calls : List Called

-- `none` is the NULL fiber that is woken.
abbrev pub fiber_wakeup : Launcher → Option Launcher
fiber_wakeup l = if l.made then some (record l { woken = true }) else none

unfoldable pub storage_exit : (code : ℤ) → Launcher → Option Launcher
storage_exit code l =
    if l.shutdown_started
    then some (record l { start_loop = false })
    else fiber_wakeup (record l {
      start_loop = false;
      shutdown_started = true;
      exit_code = code;
      calls = l.calls ++ broadcast ∷ [];
    })

unfoldable pub signal_cb : Launcher → Option Launcher
signal_cb l = storage_exit (pos 0) l

unfoldable pub storage_launcher_shutdown : (code : ℤ) → Launcher → Option Launcher
storage_launcher_shutdown code l = if not l.shutdown_started then storage_exit code l else some l

-- The fiber from where it waits, to where it waits again or ends. `triggers` is what the triggers
-- give; the pause when the loop is not yet entered is left out.
unfoldable pub on_shutdown_f : (triggers : ℕ) → Launcher → Launcher
on_shutdown_f triggers l =
    let cleared = if triggers == 0 then [] else diag_clear ∷ [] in
    if not l.shutdown_started then record l { woken = false } else record l {
      calls = l.calls ++ run_triggers ∷ (cleared ++ box_shutdown ∷ []);
      shutdown_finished = true;
      woken = false;
      running = false;
    }

-- What happens: a signal, a call of `storage_launcher_shutdown`, a turn of the fiber, or the break
-- of the loop by others. The loop gives signals and turns only until it is left.
pub data Act : Type 0 where
  signal : Act
  shutdown : (code : ℤ) → Act
  turn : (triggers : ℕ) → Act
  leave : Act

unfoldable pub act : Act → Launcher → Option Launcher
act signal l = if l.running then signal_cb l else some l
act (shutdown code) l = storage_launcher_shutdown code l
act (turn triggers) l =
    let turned = on_shutdown_f triggers l in
    if not l.running then some l else if l.woken then some turned else some l
act leave l = some (record l { running = false })

unfoldable pub acts : List Act → Launcher → Option Launcher
acts [] l = some l
acts (a ∷ rest) l = elim (act a l) [ none ↦ none | some l' ↦ acts rest l' ]

-- When `storage_launcher_launch` is done.
abbrev pub launched_with : (start_loop : Bool) → Launcher
launched_with start_loop = record {
  start_loop = start_loop;
  shutdown_started = false;
  shutdown_finished = false;
  exit_code = pos 0;
  made = true;
  woken = false;
  running = true;
  calls = [];
}
