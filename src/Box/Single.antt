-- ===== src/Box/Single.antt =====
-- The handlers of box.c that work on one tuple.
use feng_shui.Prelude.{none, some, ◌==◌, if◌then◌else◌}
use feng_shui.Executor.{Task}
use feng_shui.Tarantool.{
  Tarantool, box_replace, box_insert, box_delete, box_update, box_upsert, box_index_get,
  box_index_min, box_index_max,
}
use feng_shui.Box.{
  Errors, SpaceRequest, SpaceUpdateRequest, SpaceUpsertRequest, IndexRequest, IndexUpdateRequest,
  primary_index, index_base_c, whole, answer, storage_send_error,
}

module _ (tarantool : Tarantool) (errors : Errors tarantool) where
  open tarantool use {State, box_write, box_read, box_iterator_next, tuple_ref}

  unfoldable pub storage_space_put_single : SpaceRequest → Task → State → Task × State
  storage_space_put_single request task s =
      answer tarantool errors task
        (box_write (box_replace request.space_id (whole request.tuple request.tuple_size)) s)

  unfoldable pub storage_space_insert_single : SpaceRequest → Task → State → Task × State
  storage_space_insert_single request task s =
      answer tarantool errors task
        (box_write (box_insert request.space_id (whole request.tuple request.tuple_size)) s)

  unfoldable pub storage_space_delete_single : SpaceRequest → Task → State → Task × State
  storage_space_delete_single request task s = answer tarantool errors task (
      box_write (box_delete request.space_id primary_index (whole request.tuple request.tuple_size))
        s)

  unfoldable pub storage_space_update_single : SpaceUpdateRequest → Task → State → Task × State
  storage_space_update_single request task s = answer tarantool errors task (
      box_write
        (box_update request.space_id primary_index (whole request.key request.key_size)
          (whole request.operations request.operations_size) index_base_c)
        s)

  unfoldable pub storage_space_upsert : SpaceUpsertRequest → Task → State → Task × State
  storage_space_upsert request task s = answer tarantool errors task (
      box_write
        (box_upsert request.space_id primary_index (whole request.tuple request.tuple_size)
          (whole request.operations request.operations_size) index_base_c)
        s)

  unfoldable pub storage_index_update_single : IndexUpdateRequest → Task → State → Task × State
  storage_index_update_single request task s = answer tarantool errors task (
      box_write
        (box_update request.space_id request.index_id (whole request.key request.key_size)
          (whole request.operations request.operations_size) index_base_c)
        s)

  unfoldable pub storage_space_get : SpaceRequest → Task → State → Task × State
  storage_space_get request task s = answer tarantool errors task (
      box_read
        (box_index_get request.space_id primary_index (whole request.tuple request.tuple_size)) s)

  unfoldable pub storage_space_min : SpaceRequest → Task → State → Task × State
  storage_space_min request task s = answer tarantool errors task (
      box_read
        (box_index_min request.space_id primary_index (whole request.tuple request.tuple_size)) s)

  unfoldable pub storage_space_max : SpaceRequest → Task → State → Task × State
  storage_space_max request task s = answer tarantool errors task (
      box_read
        (box_index_max request.space_id primary_index (whole request.tuple request.tuple_size)) s)

  unfoldable pub storage_index_get : IndexRequest → Task → State → Task × State
  storage_index_get request task s = answer tarantool errors task (
      box_read
        (box_index_get request.space_id request.index_id (whole request.tuple request.tuple_size))
        s)

  unfoldable pub storage_index_min : IndexRequest → Task → State → Task × State
  storage_index_min request task s = answer tarantool errors task (
      box_read
        (box_index_min request.space_id request.index_id (whole request.tuple request.tuple_size))
        s)

  unfoldable pub storage_index_max : IndexRequest → Task → State → Task × State
  storage_index_max request task s = answer tarantool errors task (
      box_read
        (box_index_max request.space_id request.index_id (whole request.tuple request.tuple_size))
        s)

  -- An iterator at its end gives NULL, and counts as an error here.
  unfoldable pub storage_iterator_next_single : Task → State → Task × State
  storage_iterator_next_single task s =
      let (result, s') = box_iterator_next task.input s in
      elim result [
        | none ↦ (storage_send_error tarantool errors task s', s')
        | some t ↦
            if t == 0
            then (storage_send_error tarantool errors task s', s')
            else (record task { output = t }, tuple_ref t s')
      ]
