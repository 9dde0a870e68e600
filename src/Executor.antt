-- ===== src/Executor.antt =====
-- executor/native/executor/executor.c, executor.h and task.h: an executor owns a ring, and talks
-- to the scheduler and to other executors by messages on rings.
-- An operation returns its code beside the new state; 0 is success. The event that a failure
-- reports goes to the caller's thread, and is no part of this state.
pub mod Delivery
pub mod Awaking
pub mod Ids
mod Tests
use feng_shui.Prelude.{
  ℕ, zero, suc, ◌+◌, ◌*◌, Bool, true, false, not, ◌&&◌, Option, none, some, List, [], ◌∷◌, bit_and,
  ◌==◌, if◌then◌else◌, take, length,
}
use feng_shui.Prelude.Int.{ℤ, pos, negsuc}
use feng_shui.Uring.{Uring, Sqe, Cqe, Request, message_ring, skip_success}

-- `struct executor_task`
pub record Task : Type 0 where
  pub id : ℕ
  pub source : ℕ
  pub target : ℕ
  pub owner : ℕ
  pub method : ℕ
  pub input : ℕ
  pub input_size : ℕ
  pub output : ℕ
  pub output_size : ℕ
  pub flags : ℕ

-- EXECUTOR_CALL, EXECUTOR_CALLBACK
abbrev pub call : ℕ
call = 1

abbrev pub callback : ℕ
callback = 2

-- EXECUTOR_STATE_*
abbrev pub paused : ℕ
paused = 1

abbrev pub idle : ℕ
idle = 2

abbrev pub waking : ℕ
waking = 4

abbrev pub stopped : ℕ
stopped = 16

-- EXECUTOR_SCHEDULER_*
abbrev pub scheduler_register : ℕ
scheduler_register = 1024

abbrev pub scheduler_unregister : ℕ
scheduler_unregister = 2048

abbrev pub scheduler_poll : ℕ
scheduler_poll = 4096

-- MODULE_ERROR_CODE
abbrev pub module_error_code : ℤ
module_error_code = negsuc 1996

-- A message to another ring, as `io_uring_prep_msg_ring` and the flag make it.
abbrev pub message : ℕ → ℕ → ℕ → Sqe
message fd result user_data = record {
  request = message_ring fd result user_data;
  user_data = 0;
  flags = skip_success;
}

module _ (uring : Uring) where
  open uring use {Ring, ready, enqueue, submit, submit_and_wait, cq_advance}

  -- `struct executor_instance`. Of the scheduler it uses the descriptor; `address` is where the
  -- executor lies.
  pub record Executor : Type 0 where
    pub address : ℕ
    pub callback_port : ℤ
    pub scheduler : ℕ
    pub ring : Ring
    pub ring_size : ℕ
    pub descriptor : ℕ
    pub id : ℕ
    pub state : ℕ

  -- `executor_create`, when its requests for memory and the ring's initialization (`none`: it
  -- failed) end so. NULL is `none`.
  pub create :
      (granted : Bool × Bool × Bool)
      → Option (Ring × ℕ)
      → (address ring_size scheduler id : ℕ) → Option Executor
  create (own, completions, ring) initialized address ring_size scheduler id =
      if own && completions && ring
      then elim initialized [
        | none ↦ none
        | some (r, descriptor) ↦ some (record {
          address = address;
          callback_port = pos 0;
          scheduler = scheduler;
          ring = r;
          ring_size = ring_size;
          descriptor = descriptor;
          id = id;
          state = paused;
        })
      ]
      else none

  unfoldable pub executor_need_submit : Executor → Bool
  executor_need_submit e = not (bit_and e.state idle == 0)

  unfoldable pub executor_submit : Executor → Executor
  executor_submit e = if executor_need_submit e then record e { ring = submit e.ring } else e

  unfoldable pub register_on_scheduler : Executor → ℤ → ℤ × Executor
  register_on_scheduler e port =
      let e' : Executor = record e { callback_port = port; state = idle } in
      elim (enqueue e.ring (message e.scheduler scheduler_register e.address)) [
        | none ↦ (module_error_code, e')
        | some r ↦ (pos 0, record e' { ring = submit r })
      ]

  unfoldable pub unregister_from_scheduler : Executor → Bool → ℤ × Executor
  unregister_from_scheduler e stop =
      let e' : Executor = record e { state = if stop then stopped else paused } in
      elim (enqueue e.ring (message e.scheduler scheduler_unregister e.id)) [
        | none ↦ (module_error_code, e')
        | some r ↦ (pos 0, record e' { ring = submit r })
      ]

  -- The completions that are ready, at most as many as the ring has entries.
  unfoldable pub peek : Executor → List Cqe × Executor
  peek e = let r = submit_and_wait e.ring in (take e.ring_size (ready r), record e { ring = r })

  -- A task is passed by its address; its new contents are returned.
  unfoldable pub call_native : Executor → ℕ → ℕ → Task → ℤ × Task × Executor
  call_native e target_ring_fd address task =
      elim (enqueue e.ring (message target_ring_fd call address)) [
        | none ↦ (module_error_code, task, e)
        | some r ↦ (
          pos 0,
          record task { source = e.descriptor; target = target_ring_fd },
          executor_submit (record e { ring = r }),
        )
      ]

  unfoldable pub callback_to_native : Executor → ℕ → Task → ℤ × Task × Executor
  callback_to_native e address task = elim (enqueue e.ring (message task.source callback address)) [
    | none ↦ (module_error_code, task, e)
    | some r ↦ (
      pos 0,
      record task { source = e.descriptor; target = task.source },
      executor_submit (record e { ring = r }),
    )
  ]

  -- These two work on a bare ring and submit nothing.
  unfoldable pub call_dart : Ring → ℕ → ℕ → ℕ → Task → ℤ × Task × Ring
  call_dart ring source_ring_fd target_ring_fd address task =
      elim (enqueue ring (message target_ring_fd call address)) [
        | none ↦ (module_error_code, task, ring)
        | some r ↦ (pos 0, record task { source = source_ring_fd; target = target_ring_fd }, r)
      ]

  unfoldable pub callback_to_dart : Ring → ℕ → ℕ → Task → ℤ × Task × Ring
  callback_to_dart ring source_ring_fd address task =
      elim (enqueue ring (message task.source callback address)) [
        | none ↦ (module_error_code, task, ring)
        | some r ↦ (pos 0, record task { source = source_ring_fd; target = task.source }, r)
      ]

  unfoldable pub awake_begin : Executor → ℤ × Executor
  awake_begin e =
      let e' : Executor = record e { state = waking } in
      elim (enqueue e.ring (message e.scheduler scheduler_poll e.address)) [
        | none ↦ (module_error_code, e')
        | some r ↦ (pos 0, record e' { ring = r })
      ]

  unfoldable pub awake_complete : Executor → ℕ → Executor
  awake_complete e completions = record e {
    ring = submit (cq_advance e.ring completions);
    state = idle;
  }
