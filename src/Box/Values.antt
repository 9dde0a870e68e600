-- ===== src/Box/Values.antt =====
-- The handlers of box.c whose output is a number or a port, and those that free. An output is a
-- pointer: an integer put into it wraps.
use feng_shui.Prelude.{ℕ, ◌-◌, ◌%◌, ◌^◌, true, false}
use feng_shui.Prelude.Int.{ℤ, pos, negsuc}
use feng_shui.Executor.{Task}
use feng_shui.Tarantool.{Tarantool, Selection}
use feng_shui.Box.{
  Errors, SpaceCountRequest, SpaceSelectRequest, SpaceIteratorRequest, IndexCountRequest,
  IndexIdByNameRequest, IndexIteratorRequest, IndexSelectRequest, IndexIdRequest, primary_index,
  whole, storage_send_error,
}

abbrev pub pointer_of : ℤ → ℕ
pointer_of (pos n) = n % 2 ^ 64
pointer_of (negsuc n) = 2 ^ 64 - 1 - n % 2 ^ 64

module _ (tarantool : Tarantool) (errors : Errors tarantool) where
  open tarantool use {
    State, box_index_count, box_index_len, box_index_iterator, box_iterator_free, box_truncate,
    box_space_id_by_name, box_index_id_by_name, box_select, port_alloc, port_free, port_destroy,
    tuple_unref, smfree,
  }

  abbrev counted : Task → ℤ × State → Task × State
  counted task (n, s) = (record task { output = pointer_of n }, s)

  abbrev named : Task → ℕ × State → Task × State
  named task (n, s) = (record task { output = n }, s)

  unfoldable pub storage_space_count : SpaceCountRequest → Task → State → Task × State
  storage_space_count request task s = counted task (
      box_index_count request.space_id primary_index request.iterator_type
        (whole request.key request.key_size) s)

  unfoldable pub storage_index_count : IndexCountRequest → Task → State → Task × State
  storage_index_count request task s = counted task (
      box_index_count request.space_id request.index_id request.iterator_type
        (whole request.key request.key_size) s)

  -- The id of the space is the input itself.
  unfoldable pub storage_space_length : Task → State → Task × State
  storage_space_length task s = counted task (box_index_len (task.input % 2 ^ 32) primary_index s)

  unfoldable pub storage_index_length : IndexIdRequest → Task → State → Task × State
  storage_index_length request task s =
      counted task (box_index_len request.space_id request.index_id s)

  unfoldable pub storage_space_iterator : SpaceIteratorRequest → Task → State → Task × State
  storage_space_iterator request task s = named task (
      box_index_iterator request.space_id primary_index request.type
        (whole request.key request.key_size) s)

  unfoldable pub storage_index_iterator : IndexIteratorRequest → Task → State → Task × State
  storage_index_iterator request task s = named task (
      box_index_iterator request.space_id request.index_id request.type
        (whole request.key request.key_size) s)

  unfoldable pub storage_space_id_by_name : Task → State → Task × State
  storage_space_id_by_name task s =
      named task (box_space_id_by_name task.input (task.input_size % 2 ^ 32) s)

  unfoldable pub storage_index_id_by_name : IndexIdByNameRequest → Task → State → Task × State
  storage_index_id_by_name request task s =
      named task
        (box_index_id_by_name request.space_id request.name (request.name_length % 2 ^ 32) s)

  -- The end of both selects. A port that was allocated stays so when the call fails.
  abbrev selected : Task → Selection → ℕ × State → Task × State
  selected task selection (port, s) =
      let (found, s') = box_select selection port s in
      elim found [
        | true ↦ (record task { output = port }, s')
        | false ↦ (storage_send_error tarantool errors task s', s')
      ]

  unfoldable pub storage_space_select : SpaceSelectRequest → Task → State → Task × State
  storage_space_select request task s =
      selected task
        (record {
          space = request.space_id;
          index = primary_index;
          iterator_type = request.iterator_type;
          offset = request.offset;
          limit = request.limit;
          key = whole request.key request.key_size;
        })
        (port_alloc s)

  unfoldable pub storage_index_select : IndexSelectRequest → Task → State → Task × State
  storage_index_select request task s =
      selected task
        (record {
          space = request.space_id;
          index = request.index_id;
          iterator_type = request.iterator_type;
          offset = request.offset;
          limit = request.limit;
          key = whole request.key request.key_size;
        })
        (port_alloc s)

  -- Its result is not looked at.
  unfoldable pub storage_space_truncate : Task → State → Task × State
  storage_space_truncate task s = (task, box_truncate (task.input % 2 ^ 32) s)

  unfoldable pub storage_iterator_destroy : Task → State → Task × State
  storage_iterator_destroy task s = (task, box_iterator_free task.input s)

  unfoldable pub storage_free_output_buffer : Task → State → Task × State
  storage_free_output_buffer task s = (task, smfree task.input task.input_size s)

  unfoldable pub storage_free_output_port : Task → State → Task × State
  storage_free_output_port task s = (task, port_free task.input (port_destroy task.input s))

  unfoldable pub storage_free_output_tuple : Task → State → Task × State
  storage_free_output_tuple task s = (task, tuple_unref task.input s)
