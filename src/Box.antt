-- ===== src/Box.antt =====
-- storage/native/storage/box.c and box.h: what the storage does with a task, over Tarantool.
-- A handler gets the task and the request its input points to, and gives `none` where the code
-- works on NULL. The task that a request embeds is the task itself, and no field here.
pub mod Single
pub mod Cursors
pub mod Many
pub mod Values
pub mod Lua
pub mod Batches
pub mod Atomic
pub mod Replies
pub mod Answers
pub mod Missing
mod Tests
use feng_shui.Prelude.{ℕ, ◌+◌, ◌≡◌, refl, Bool, true, Option, none, some, List, ◌==◌, if◌then◌else◌}
use feng_shui.Prelude.Int.{ℤ}
use feng_shui.Executor.{Task}
use feng_shui.Tarantool.{Tarantool, Part}

-- STORAGE_PRIMARY_INDEX_ID, STORAGE_INDEX_BASE_C
abbrev pub primary_index : ℕ
primary_index = 0

abbrev pub index_base_c : ℕ
index_base_c = 0

-- EXECUTOR_TASK_OUTPUT_EVENT
abbrev pub output_event : ℕ
output_event = 1

-- `sizeof(task->output)`
abbrev pub pointer_size : ℕ
pointer_size = 8

-- `struct storage_space_request`
pub record SpaceRequest : Type 0 where
  pub tuple_size : ℕ
  pub tuple : List ℕ
  pub space_id : ℕ

pub record SpaceCountRequest : Type 0 where
  pub key_size : ℕ
  pub key : List ℕ
  pub space_id : ℕ
  pub iterator_type : ℤ

pub record SpaceSelectRequest : Type 0 where
  pub key_size : ℕ
  pub key : List ℕ
  pub space_id : ℕ
  pub offset : ℕ
  pub limit : ℕ
  pub iterator_type : ℤ

pub record SpaceUpdateRequest : Type 0 where
  pub key_size : ℕ
  pub operations_size : ℕ
  pub key : List ℕ
  pub operations : List ℕ
  pub space_id : ℕ

pub record SpaceUpsertRequest : Type 0 where
  pub tuple_size : ℕ
  pub tuple : List ℕ
  pub operations : List ℕ
  pub operations_size : ℕ
  pub space_id : ℕ

pub record SpaceIteratorRequest : Type 0 where
  pub key_size : ℕ
  pub key : List ℕ
  pub space_id : ℕ
  pub type : ℤ

pub record IndexRequest : Type 0 where
  pub tuple_size : ℕ
  pub tuple : List ℕ
  pub space_id : ℕ
  pub index_id : ℕ

pub record IndexCountRequest : Type 0 where
  pub key_size : ℕ
  pub key : List ℕ
  pub space_id : ℕ
  pub index_id : ℕ
  pub iterator_type : ℤ

pub record IndexIdByNameRequest : Type 0 where
  pub name : ℕ
  pub name_length : ℕ
  pub space_id : ℕ

pub record IndexUpdateRequest : Type 0 where
  pub key : List ℕ
  pub key_size : ℕ
  pub operations : List ℕ
  pub operations_size : ℕ
  pub space_id : ℕ
  pub index_id : ℕ

pub record CallRequest : Type 0 where
  pub function : List ℕ
  pub input : List ℕ
  pub input_size : ℕ
  pub function_length : ℕ

pub record EvaluateRequest : Type 0 where
  pub expression : List ℕ
  pub input : List ℕ
  pub input_size : ℕ
  pub expression_length : ℕ

pub record IndexIteratorRequest : Type 0 where
  pub key : List ℕ
  pub key_size : ℕ
  pub space_id : ℕ
  pub index_id : ℕ
  pub type : ℤ

pub record IndexSelectRequest : Type 0 where
  pub key : List ℕ
  pub key_size : ℕ
  pub space_id : ℕ
  pub index_id : ℕ
  pub offset : ℕ
  pub limit : ℕ
  pub iterator_type : ℤ

pub record IndexIdRequest : Type 0 where
  pub space_id : ℕ
  pub index_id : ℕ

-- The first bytes of a buffer.
abbrev pub whole : List ℕ → ℕ → Part
whole bytes size = record { bytes = bytes; start = 0; stop = size }

module _ (tarantool : Tarantool) where
  open tarantool use {State, tuple_ref, diagnosed}

  -- The addresses of the events that storage.c makes of the last error, and for none.
  pub record Errors : Type 0 where
    pub storage_get_diagnostic_event : State → ℕ
    pub storage_create_empty_error : State → ℕ

  module _ (errors : Errors) where
    open errors use {storage_get_diagnostic_event, storage_create_empty_error}

    unfoldable pub storage_send_error : Task → State → Task
    storage_send_error task s =
        if diagnosed s
        then record task {
          output = storage_get_diagnostic_event s;
          output_size = pointer_size;
          flags = output_event;
        }
        else record task {
          output = storage_create_empty_error s;
          output_size = pointer_size;
          flags = output_event;
        }

    -- The end that all handlers for one tuple share: the result of the call, 0 for NULL.
    abbrev pub answer : Task → Option ℕ × State → Task × State
    answer task (result, s) = elim result [
      | none ↦ (storage_send_error task s, s)
      | some t ↦ if t == 0 then (task, s) else (record task { output = t }, tuple_ref t s)
    ]
