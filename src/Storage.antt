-- ===== src/Storage.antt =====
-- storage/native/storage/executor.c and executor.h: the executor of the storage, which runs the tasks
-- that arrive on its ring and answers each of them.
-- What a method does is a parameter; the handlers of box.c are the methods there are. A task lies at
-- an address. Events of the loop of Tarantool and the switches of its fibers are left out.
pub mod Replies
pub mod Answering
pub mod Rounds
pub mod Errors
pub mod Diagnosing
pub mod Lifecycle
pub mod Waiting
pub mod Started
pub mod Process
pub mod Launched
pub mod Launcher
pub mod Exits
pub mod Saying
pub mod Requests
mod Tests
use feng_shui.Prelude.{
  ℕ, Bool, true, false, Option, none, some, List, [], ◌∷◌, ◌==◌, if◌then◌else◌, length, not,
}
use feng_shui.Prelude.Int.{ℤ, pos}
use feng_shui.Uring.{Uring, Sqe, Cqe, no_op}
use feng_shui.Executor.{Task, callback, message}

abbrev pub put_task : (ℕ → Option Task) → ℕ → Task → ℕ → Option Task
put_task tasks address task at = if at == address then some task else tasks at

abbrev awakening : Sqe
awakening = record { request = no_op; user_data = 0; flags = 0 }

module _ (uring : Uring) where
  open uring use {Ring, ready, enqueue, submit, cq_advance}

  -- `struct storage_executor`, less its configuration
  pub record StorageExecutor : Type 0 where
    pub ring : Ring
    pub descriptor : ℕ
    pub active : Bool

  -- The result of `io_uring_queue_init` is only reported: the executor is active all the same, on
  -- whatever ring and descriptor are there.
  unfoldable pub storage_executor_initialize : (result : ℤ) → Ring → ℕ → ℤ × StorageExecutor
  storage_executor_initialize result ring ring_fd =
      (pos 0, record { ring = ring; descriptor = ring_fd; active = true })

  unfoldable pub storage_executor_descriptor : StorageExecutor → ℕ
  storage_executor_descriptor e = e.descriptor

  -- To stop, an entry that does nothing wakes the loop. While there is none, the code waits, and the
  -- loop, on its own thread, may change the ring: `seen` are the rings that it finds. `none` when it
  -- still waits after them.
  unfoldable pub wake : List Ring → Ring → Option Ring
  wake [] ring = elim (enqueue ring awakening) [ none ↦ none | some r ↦ some (submit r) ]
  wake (later ∷ seen) ring =
      let again = wake seen later in
      elim (enqueue ring awakening) [ none ↦ again | some r ↦ some (submit r) ]

  unfoldable pub storage_executor_stop : List Ring → StorageExecutor → Option StorageExecutor
  storage_executor_stop seen e = elim (wake seen e.ring) [
    | none ↦ none
    | some r ↦ some (record e { ring = r; active = false })
  ]

  module _ {W : Type 0} (invoke : ℕ → Task → W → Task × W) (descriptor : ℕ) where
    -- The tasks in memory, all else that methods change, and the ring.
    pub record Serving : Type 0 where
      pub tasks : ℕ → Option Task
      pub world : W
      pub ring : Ring

    abbrev pub turned : Task → Task
    turned task = record task { source = descriptor; target = task.source }

    -- One completion. Its task is run where it lies, and sent back. `none` where there is no task at
    -- the address, or no entry, which the code does not check.
    unfoldable pub answer : Cqe → Serving → Option Serving
    answer c s = if c.completed == 0 then some s else elim (s.tasks c.completed) [
      | none ↦ none
      | some task ↦
          let (done, world) = invoke task.method task s.world in
          elim (enqueue s.ring (message done.source callback c.completed)) [
            | none ↦ none
            | some r ↦ some (record {
              tasks = put_task s.tasks c.completed (turned done);
              world = world;
              ring = r;
            })
          ]
    ]

    unfoldable pub answer_all : List Cqe → Serving → Option Serving
    answer_all [] s = some s
    answer_all (c ∷ completions) s = elim (answer c s) [
      | none ↦ none
      | some s' ↦ answer_all completions s'
    ]

    abbrev pub finish : ℕ → Serving → Serving
    finish count s = record s { ring = submit (cq_advance s.ring count) }

    -- One round of the loop, while the executor is active.
    unfoldable pub round : Serving → Option Serving
    round s =
        let r = submit s.ring in
        elim (ready r) [
          | [] ↦ some (record s { ring = r })
          | c ∷ completions ↦ elim (answer_all (c ∷ completions) (record s { ring = r })) [
            | none ↦ none
            | some s' ↦ some (finish (length (c ∷ completions)) s')
          ]
        ]
