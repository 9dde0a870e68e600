-- ===== src/Storage/Tests.antt =====
-- The storage with one task and one completion that carries none, on a database that keeps the writes
-- made.
use feng_shui.Prelude.{true, false, ◌≡◌, ℕ, inl, inr, refl, none, some, List, [], ◌∷◌, ◌++◌, arith}
use feng_shui.Prelude.Int.{pos}
use feng_shui.Uring.{Uring, Cqe, posted}
use feng_shui.Uring.Bounded.{bounded}
use feng_shui.Executor.{
  Executor, Task, call, waking, message, call_native, executor_submit, executor_need_submit,
}
use feng_shui.Storage.Requests.{IsServed, request-IsServed}
use feng_shui.Tarantool.Recorder.{Log, recorder}
use feng_shui.Box.{Errors}
use feng_shui.Box.Answers.{Change, put}
use feng_shui.Storage.{StorageExecutor, Serving, put_task, round}
use feng_shui.Storage.Lifecycle.{
  Instance, InitializeCalls, ShutdownCalls, storage_initialize, storage_shutdown, wait_while,
}
use feng_shui.Storage.Started.{IsStart, IsShutdown, lifecycle_reports}
use feng_shui.Storage.Process.{ProcessCalls, launched, storage_lua_error}
use feng_shui.Storage.Launched.{Unanswered, lost_start-Unanswered}
use feng_shui.Storage.Launcher.{
  broadcast, run_triggers, diag_clear, box_shutdown, Act, signal, shutdown, turn, leave,
  storage_exit, signal_cb, storage_launcher_shutdown, on_shutdown_f, act, acts, launched_with,
}
use feng_shui.Storage.Exits.{IsExit, acts-IsExit}
use feng_shui.Storage.Saying.{warn, say_event, storage_say}
use feng_shui.Storage.Errors.{storage_module_name, message_field}
use feng_shui.Events.{got, event_build, event_create, event_append, event_setup}
use feng_shui.Storage.Rounds.{IsRound, round-IsRound, box_method, box_method-KeepsSource}

abbrev errors : Errors recorder
errors = record { storage_get_diagnostic_event = λ s. 256; storage_create_empty_error = λ s. 512 }

abbrev always_put : ℕ → ℕ → Change
always_put method input = put (record { tuple_size = 2; tuple = 1 ∷ 5 ∷ []; space_id = 512 })

abbrev arrived : List Cqe
arrived = record { result = pos 0; completed = 500 } ∷ record { result = pos 0; completed = 0 } ∷ []

abbrev loaded : Uring
loaded = record bounded { ready = λ r. arrived }

abbrev task : Task
task = record {
  id = 7;
  source = 10;
  target = 30;
  owner = 1;
  method = 2;
  input = 3;
  input_size = 4;
  output = 0;
  output_size = 0;
  flags = 0;
}

abbrev method : ℕ → Task → Log → Task × Log
method = box_method recorder errors always_put

abbrev start : Serving loaded method 30
start = record {
  tasks = put_task (λ address. none) 500 task;
  world = record { view = ([], none); port = [] };
  ring = record { spare = 3; waiting = []; given = [] };
}

round-IsRound_example : IsRound loaded method 30 start arrived (round loaded method 30 start)
round-IsRound_example =
    round-IsRound loaded method 30 start
      (box_method-KeepsSource recorder errors always_put loaded 30)
      (inr (task, refl), (inl refl, tt)) ((inl refl, tt), (tt, tt))

abbrev down : Instance
down = record { initialization_error = 0; shutdown_error = 0; initialized = false }

abbrev up : Instance
up = record down { initialized = true }

abbrev starting : InitializeCalls
starting = record {
  granted = true;
  create = 0;
  lock = 0;
  found = down;
  waits = (0, up) ∷ [];
  unlock = 0;
  condition_destroy = 0;
  mutex_destroy = 0;
}

-- The wait to shut down runs out of time.
abbrev stopping : ShutdownCalls
stopping = record {
  lock = 0;
  found = up;
  waits = (0, up) ∷ (110, up) ∷ [];
  unlock = 0;
  condition_destroy = 0;
  mutex_destroy = 0;
}

starts : storage_initialize starting down ≡ some (true, up)
unfolding storage_initialize wait_while
starts = refl

abbrev serving_executor : StorageExecutor bounded
serving_executor = record {
  ring = record { spare = 3; waiting = []; given = [] };
  descriptor = 30;
  active = true;
}

lifecycle_reports_example :
    IsStart starting down (storage_initialize starting down)
    × IsShutdown bounded [] serving_executor stopping up
        (storage_shutdown bounded [] serving_executor stopping up)
lifecycle_reports_example = lifecycle_reports bounded starting stopping [] serving_executor down up

-- The script fails: nothing comes of the start but a wait that runs out of time.
abbrev bad_script : ProcessCalls
bad_script = record {
  script = 1;
  registered = 0;
  errno = 0;
  fiber = record { executor_initialize = 0; lock = 0; broadcast = 0; unlock = 0 };
  lock = 0;
  broadcast = 0;
  unlock = 0;
}

abbrev waits_in_vain : InitializeCalls
waits_in_vain = record starting {
  waits = (0, down) ∷ (110, record down { initialization_error = storage_lua_error }) ∷ [];
}

lost_start-Unanswered_example :
    Unanswered waits_in_vain down (storage_initialize waits_in_vain down)
unfolding launched
lost_start-Unanswered_example =
    lost_start-Unanswered bad_script waits_in_vain down refl refl (inl refl)
      (inl refl, (inr refl, tt))

-- A log message of the level S_WARN.
says_warning :
    storage_say
      (true, true)
      (record { trace = none; granted = true; answered = true })
      []
      []
      0
      warn
      (97 ∷ [])
      12
      900
    ≡ got (record {
      raised_module_name = some storage_module_name;
      fields = message_field 900 ∷ [];
      function = [];
      file = 97 ∷ [];
      line = 12;
      level = 2;
    })
unfolding storage_say say_event event_build event_create event_append event_setup
says_warning = refl

-- An executor with descriptor 10 calls the storage, with descriptor 30.
abbrev one_arrived : Uring
one_arrived = record bounded { ready = λ r. record { result = pos 1; completed = 500 } ∷ [] }

abbrev caller : Executor one_arrived
caller = record {
  address = 900;
  callback_port = pos 0;
  scheduler = 5;
  ring = record { spare = 3; waiting = []; given = [] };
  ring_size = 4;
  descriptor = 10;
  id = 1;
  state = waking;
}

abbrev called : Task
called = record task { source = 10; target = 30 }

abbrev asked_by : Executor one_arrived
asked_by = record caller {
  ring = record { spare = 3; waiting = message 30 call 500 ∷ []; given = [] };
}

caller_calls : call_native one_arrived caller 30 500 task ≡ (pos 0, called, asked_by)
unfolding call_native executor_submit executor_need_submit
caller_calls = refl

abbrev serving : Serving one_arrived method 30
serving = record {
  tasks = put_task (λ address. none) 500 called;
  world = record { view = ([], none); port = [] };
  ring = record { spare = 3; waiting = []; given = [] };
}

request-IsServed_example :
    (after : Serving one_arrived method 30) × (round one_arrived method 30 serving ≡ some after)
    × (posted one_arrived asked_by.ring
        ≡ posted one_arrived caller.ring ++ message 30 call 500 ∷ [])
    × IsServed one_arrived recorder errors always_put 30 10 500 called serving after
request-IsServed_example =
    request-IsServed one_arrived recorder errors always_put 30 caller asked_by task called
      (record { result = pos 1; completed = 500 }) serving caller_calls (omega arith) refl refl
      (λ e. cc)

-- Two signals, a call, and a turn of the fiber on which the triggers fail.
abbrev signalled : List Act
signalled = signal ∷ shutdown (pos 7) ∷ signal ∷ turn 3 ∷ shutdown (pos 9) ∷ []

signalled_calls :
    acts signalled (launched_with true)
    ≡ some (record {
      start_loop = false;
      shutdown_started = true;
      shutdown_finished = true;
      exit_code = pos 0;
      made = true;
      woken = false;
      running = false;
      calls = broadcast ∷ run_triggers ∷ diag_clear ∷ box_shutdown ∷ [];
    })
unfolding acts act storage_launcher_shutdown signal_cb storage_exit on_shutdown_f
signalled_calls = refl

-- What the thread of the storage does: the launcher is asked when the loop has been left.
acts_left : IsExit (some (pos 0)) none (acts (leave ∷ shutdown (pos 0) ∷ []) (launched_with true))
acts_left = acts-IsExit true (leave ∷ shutdown (pos 0) ∷ [])

acts-IsExit_example : IsExit (some (pos 0)) (some 3) (acts signalled (launched_with true))
acts-IsExit_example = acts-IsExit true signalled
