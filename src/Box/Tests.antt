-- ===== src/Box/Tests.antt =====
-- The handlers on a database that keeps the writes made.
use feng_shui.Prelude.{ℕ, ◌≡◌, refl, arith, none, some, [], ◌∷◌}
use feng_shui.Executor.{Task}
use feng_shui.Tarantool.{Write, box_insert}
use feng_shui.Tarantool.Recorder.{Log, recorder}
use feng_shui.Box.{Errors, SpaceRequest, EvaluateRequest}
use feng_shui.Box.Many.{storage_space_insert_many, transact, storage_space_delete_many}
use feng_shui.Box.Cursors.{batch}
use feng_shui.Box.Lua.{storage_evaluate, fill, copy, copy_pieces}
use feng_shui.Box.Atomic.{insert_many, changes, IsAtomic, run, run-IsAtomic}
use feng_shui.Box.Replies.{evaluate, IsReply, run_script, run_script-IsReply}
use feng_shui.Box.Answers.{put, call_of, IsAnswer, perform, perform-IsAnswer}
use feng_shui.Box.Missing.{delete_many_missing}

abbrev errors : Errors recorder
errors = record { storage_get_diagnostic_event = λ s. 256; storage_create_empty_error = λ s. 512 }

abbrev empty : Log
empty = record { view = ([], none); port = [] }

abbrev task : Task
task = record {
  id = 1;
  source = 5;
  target = 6;
  owner = 0;
  method = 0;
  input = 1024;
  input_size = 5;
  output = 0;
  output_size = 0;
  flags = 0;
}

-- Two arrays of one value each.
abbrev two : SpaceRequest
two = record { tuple_size = 5; tuple = 2 ∷ 1 ∷ 5 ∷ 1 ∷ 6 ∷ []; space_id = 512 }

abbrev insertion : (start stop : ℕ) → Write
insertion start stop = box_insert 512 (record { bytes = two.tuple; start = start; stop = stop })

inserts_two :
    storage_space_insert_many recorder errors two task empty
    ≡ some (
      record task { output = 64 },
      record { view = (insertion 1 3 ∷ insertion 3 5 ∷ [], none); port = 7 ∷ 7 ∷ [] },
    )
unfolding storage_space_insert_many transact batch
inserts_two = refl

run-IsAtomic_example :
    IsAtomic recorder errors
      (changes recorder (insert_many two))
      (record { view = ([], some []); port = [] })
      []
      64
      task
      (run recorder errors (insert_many two) task empty)
run-IsAtomic_example =
    run-IsAtomic recorder errors (insert_many two) task empty [] refl refl (omega arith) refl

abbrev script : EvaluateRequest
script = record {
  expression = 114 ∷ 101 ∷ [];
  input = 9 ∷ 8 ∷ 7 ∷ [];
  input_size = 2;
  expression_length = 2;
}

evaluates :
    storage_evaluate recorder errors script task empty
    ≡ some (record task { output = 128; output_size = 3 }, 1 ∷ 9 ∷ 8 ∷ [], empty)
unfolding storage_evaluate fill copy copy_pieces
evaluates = refl

run_script-IsReply_example :
    IsReply recorder errors task
      (some (record { values = 1; pieces = (9 ∷ 8 ∷ []) ∷ [] }))
      128
      (run_script recorder errors (evaluate script) task empty)
run_script-IsReply_example = run_script-IsReply recorder errors (evaluate script) task empty

perform-IsAnswer_example :
    IsAnswer recorder errors
      (call_of (put two))
      ([], none)
      task
      (some 7)
      (perform recorder errors (put two) task empty)
perform-IsAnswer_example = perform-IsAnswer recorder errors (put two) task empty

deletes_missing : storage_space_delete_many recorder errors two task empty ≡ none
deletes_missing = delete_many_missing recorder errors two task empty 1 refl refl refl refl
