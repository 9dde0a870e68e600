-- ===== src/Executor/Tests.antt =====
-- Two executors with rings of four entries, and the theorems there.
use feng_shui.Prelude.{◌≡◌, ◌↔◌, refl, true, List, [], ◌∷◌, ◌++◌, arith}
use feng_shui.Prelude.Int.{pos}
use feng_shui.Uring.{posted}
use feng_shui.Uring.Bounded.{Bounded, bounded}
use feng_shui.Executor.{
  Executor, Task, call, callback, idle, waking, paused, stopped, scheduler_poll, message,
  module_error_code, executor_need_submit, executor_submit, register_on_scheduler,
  unregister_from_scheduler, peek, call_native, callback_to_native, call_dart, callback_to_dart,
  awake_begin, awake_complete,
}
use feng_shui.Executor.Delivery.{call_native_lem, Delivers, answer_returns}
use feng_shui.Executor.Ids.{
  IdStep, fetch_add, load, next_ids, counter, executor_next_id, adds, equal_ids_iff,
}
use feng_shui.Executor.Awaking.{calls, Issues, done, called, awake_submits_all}

abbrev fresh_ring : Bounded
fresh_ring = record { spare = 3; waiting = []; given = [] }

-- The executor on ring 10, at address 1000.
abbrev left : Executor bounded
left = record {
  address = 1000;
  callback_port = pos 0;
  scheduler = 9;
  ring = fresh_ring;
  ring_size = 4;
  descriptor = 10;
  id = 0;
  state = idle;
}

abbrev right : Executor bounded
right = record left { address = 2000; descriptor = 20; id = 1 }

abbrev task : Task
task = record {
  id = 7;
  source = 0;
  target = 0;
  owner = 1;
  method = 2;
  input = 3;
  input_size = 4;
  output = 0;
  output_size = 0;
  flags = 0;
}

-- The task at address 500 on its way from left to right.
abbrev asked : Task
asked = record task { source = 10; target = 20 }

abbrev left_sent : Executor bounded
left_sent = record left { ring = record fresh_ring { given = message 20 call 500 ∷ [] } }

abbrev right_sent : Executor bounded
right_sent = record right { ring = record fresh_ring { given = message 10 callback 500 ∷ [] } }

call_native_lem_example :
    Delivers bounded (message 20 call 500) 10 20 (task, left) (call_native bounded left 20 500 task)
call_native_lem_example = call_native_lem bounded left 20 500 task

answer_returns_example :
    (record task { source = 20; target = 10 } ≡ record task { source = 20; target = 10 })
    × (posted bounded left_sent.ring ≡ message 20 call 500 ∷ [])
    × (posted bounded right_sent.ring ≡ message 10 callback 500 ∷ [])
unfolding call_native callback_to_native executor_submit executor_need_submit
answer_returns_example =
    answer_returns bounded left left_sent right right_sent 500 task asked
      (record task { source = 20; target = 10 }) refl refl

-- Left while it handles completions: its poll request is queued, then one call.
abbrev woken : Executor bounded
woken = record left {
  state = waking;
  ring = record fresh_ring { waiting = message 9 scheduler_poll 1000 ∷ [] };
}

abbrev woken_sent : Executor bounded
woken_sent = record left {
  state = waking;
  ring = record fresh_ring { waiting = message 9 scheduler_poll 1000 ∷ message 20 call 500 ∷ [] };
}

one_call : Issues bounded woken (calls 20 500 task ∷ []) woken_sent
unfolding call_native executor_submit executor_need_submit
one_call = called 20 500 task asked refl done

awake_submits_all_example :
    (woken_sent.ring.given ≡ [])
    × ((awake_complete bounded woken_sent 1).ring.given
        ≡ message 9 scheduler_poll 1000 ∷ message 20 call 500 ∷ [])
    × ((awake_complete bounded woken_sent 1).ring.waiting ≡ [])
    × ((awake_complete bounded woken_sent 1).state ≡ idle)
unfolding awake_begin
awake_submits_all_example =
    awake_submits_all bounded left woken woken_sent (calls 20 500 task ∷ []) 1 refl one_call

-- A full ring: the executor says that it is idle though the scheduler knows nothing of it.
register_full :
    register_on_scheduler bounded
      (record left {
        state = paused;
        ring = record { spare = 0; waiting = message 1 1 1 ∷ []; given = [] };
      })
      (pos 5)
    ≡ (
      module_error_code,
      record left {
        callback_port = pos 5;
        ring = record { spare = 0; waiting = message 1 1 1 ∷ []; given = [] };
      },
    )
unfolding register_on_scheduler
register_full = refl

unregisters : (unregister_from_scheduler bounded left true).1.state ≡ stopped
unfolding unregister_from_scheduler
unregisters = refl

dart_calls : callback_to_dart bounded fresh_ring 20 500 asked ≡ (
  pos 0,
  record task { source = 20; target = 10 },
  record fresh_ring { waiting = message 10 callback 500 ∷ [] },
)
unfolding callback_to_dart
dart_calls = refl

dart_answers :
    call_dart bounded fresh_ring 10 20 500 task
    ≡ (pos 0, asked, record fresh_ring { waiting = message 20 call 500 ∷ [] })
unfolding call_dart
dart_answers = refl

peeks : (peek bounded left).0 ≡ []
unfolding peek
peeks = refl

-- Threads 1 and 2 both count up, and then both read.
both_get_two : next_ids 0 (fetch_add 1 ∷ fetch_add 2 ∷ load 1 ∷ load 2 ∷ []) ≡ (1, 2) ∷ (2, 2) ∷ []
unfolding next_ids
both_get_two = refl

-- One call behind the other.
one_by_one : next_ids 0 (executor_next_id 1 ++ executor_next_id 2) ≡ (1, 1) ∷ (2, 2) ∷ []
unfolding next_ids
one_by_one = refl

abbrev both_counted : List IdStep
both_counted = fetch_add 1 ∷ fetch_add 2 ∷ []

equal_ids_iff_example :
    (next_ids 0 (both_counted ++ load 1 ∷ ([] ++ load 2 ∷ []))
      ≡ next_ids 0 both_counted
        ++ (1, counter 0 both_counted)
          ∷ (next_ids (counter 0 both_counted) [] ++ (2, counter (counter 0 both_counted) []) ∷ []))
    × ((counter 0 both_counted ≡ counter (counter 0 both_counted) []) ↔ (adds [] ≡ 0))
equal_ids_iff_example = equal_ids_iff 0 both_counted [] 1 2 (omega arith) (omega arith)
