-- ===== src/Box/Many.antt =====
-- The handlers of box.c that work on many tuples.
use feng_shui.Prelude.{ℕ, Bool, ◌&&◌, Option, none, some, ◌==◌, if◌then◌else◌, not, ◌||◌}
use feng_shui.Executor.{Task}
use feng_shui.Tarantool.{Tarantool, Write}
use feng_shui.Box.{
  Errors, SpaceRequest, SpaceUpdateRequest, IndexUpdateRequest, primary_index, storage_send_error,
}
use feng_shui.Box.Cursors.{
  next_put, next_insert, next_delete, next_update, batch, collect, tuple_decodable,
  update_decodable, not_decoded,
}

module _ (tarantool : Tarantool) (errors : Errors tarantool) where
  open tarantool use {
    State, txn_begin, txn_commit, port_alloc, port_c_create, port_destroy, mp_decode_array,
    is_array,
  }

  -- What surrounds the loop: the port, and the transaction. `txn_begin` may give NULL, which then
  -- goes to the end of a transaction.
  unfoldable pub transact :
      {C : Type 0} (next : C → Write × C) (decodable : C → Bool) (count : ℕ)
      → C
      → Task
      → State
      → Option (Task × State)
  transact next decodable count c task s =
      let (port, s1) = port_alloc s in
      let (begun, s2) = txn_begin (port_c_create port s1) in
      if (port == 0) || not begun
      then none
      else elim (batch tarantool next decodable count c port s2) [
        | none ↦ none
        | some (finished, s3) ↦
            let (committed, s4) = txn_commit s3 in
            if not finished
            then some (storage_send_error tarantool errors task s3, s3)
            else if committed
            then some (record task { output = port }, s4)
            else (let s5 = port_destroy port s4 in
                some (storage_send_error tarantool errors task s5, s5))
      ]

  unfoldable pub storage_space_put_many : SpaceRequest → Task → State → Option (Task × State)
  storage_space_put_many request task s =
      let (count, first) = mp_decode_array request.tuple 0 in
      let changed =
        transact (next_put tarantool request) (tuple_decodable tarantool request) count first task
          s in
      if is_array request.tuple 0 then changed else none

  unfoldable pub storage_space_insert_many : SpaceRequest → Task → State → Option (Task × State)
  storage_space_insert_many request task s =
      let (count, first) = mp_decode_array request.tuple 0 in
      let changed =
        transact (next_insert tarantool request) (not_decoded tarantool request) count first task
          s in
      if is_array request.tuple 0 then changed else none

  unfoldable pub storage_space_delete_many : SpaceRequest → Task → State → Option (Task × State)
  storage_space_delete_many request task s =
      let (count, first) = mp_decode_array request.tuple 0 in
      let changed =
        transact (next_delete tarantool request) (tuple_decodable tarantool request) count first
          task s in
      if is_array request.tuple 0 then changed else none

  -- The number of the operations is read, and not used.
  unfoldable pub storage_space_update_many :
      SpaceUpdateRequest → Task → State → Option (Task × State)
  storage_space_update_many request task s =
      let (count, key) = mp_decode_array request.key 0 in
      let (operations_count, operation) = mp_decode_array request.operations 0 in
      let changed =
        transact
          (next_update tarantool request.space_id primary_index request.key request.operations)
          (update_decodable tarantool request.key request.operations) count
          (record { key = key; operation = operation }) task s in
      if is_array request.key 0 && is_array request.operations 0 then changed else none

  unfoldable pub storage_index_update_many :
      IndexUpdateRequest → Task → State → Option (Task × State)
  storage_index_update_many request task s =
      let (count, key) = mp_decode_array request.key 0 in
      let (operations_count, operation) = mp_decode_array request.operations 0 in
      let changed =
        transact
          (next_update tarantool request.space_id request.index_id request.key request.operations)
          (update_decodable tarantool request.key request.operations) count
          (record { key = key; operation = operation }) task s in
      if is_array request.key 0 && is_array request.operations 0 then changed else none

  unfoldable pub storage_iterator_next_many : Task → State → Option (Task × State)
  storage_iterator_next_many task s =
      let (port, s1) = port_alloc s in
      let (finished, s2) =
        collect tarantool task.input_size task.input port (port_c_create port s1) in
      if port == 0
      then none
      else if finished
      then some (record task { output = port }, s2)
      else some (storage_send_error tarantool errors task s2, s2)
