-- ===== src/Box/Atomic.antt =====
-- A request for many changes is one transaction.
use feng_shui.Prelude.{
  ℕ, zero, suc, ◌≡◌, ◌≢◌, inl, inr, refl, arith, Bool, true, false, Bool-cases, Option, none, some,
  List, length, ne→test,
}
use feng_shui.Executor.{Task}
use feng_shui.Tarantool.{Tarantool, Write}
use feng_shui.Box.{
  Errors, SpaceRequest, SpaceUpdateRequest, IndexUpdateRequest, output_event, primary_index,
  storage_send_error,
}
use feng_shui.Box.Cursors.{
  next_put, next_insert, next_delete, next_update, batch, tuple_decodable, update_decodable,
  not_decoded,
}
use feng_shui.Box.Many.{
  transact, storage_space_put_many, storage_space_insert_many, storage_space_delete_many,
  storage_space_update_many, storage_index_update_many,
}
use feng_shui.Box.Batches.{
  calls, effects, Decodes, refusal, null_tuple, Stops, Ran, finished, given_up, faulted, batch-Ran,
}

-- The requests for many changes.
pub data Request : Type 0 where
  put_many : SpaceRequest → Request
  insert_many : SpaceRequest → Request
  delete_many : SpaceRequest → Request
  update_many : SpaceUpdateRequest → Request
  index_update_many : IndexUpdateRequest → Request

module _ (tarantool : Tarantool) where
  open tarantool use {State, mp_decode_array, is_array, txn_begin, port_alloc, port_c_create}

  -- The state in which the loop starts.
  abbrev pub begun : State → Bool × State
  begun s = txn_begin (port_c_create (port_alloc s).0 (port_alloc s).1)

  abbrev updates : (space index : ℕ) (keys operations : List ℕ) → List Write
  updates space index keys operations =
      calls (next_update tarantool space index keys operations) (mp_decode_array keys 0).0
        (record { key = (mp_decode_array keys 0).1; operation = (mp_decode_array operations 0).1 })

  -- The changes that a request asks for.
  abbrev pub changes : Request → List Write
  changes (put_many r) =
      calls (next_put tarantool r) (mp_decode_array r.tuple 0).0 (mp_decode_array r.tuple 0).1
  changes (insert_many r) =
      calls (next_insert tarantool r) (mp_decode_array r.tuple 0).0 (mp_decode_array r.tuple 0).1
  changes (delete_many r) =
      calls (next_delete tarantool r) (mp_decode_array r.tuple 0).0 (mp_decode_array r.tuple 0).1
  changes (update_many r) = updates r.space_id primary_index r.key r.operations
  changes (index_update_many r) = updates r.space_id r.index_id r.key r.operations

  -- What a request makes the code decode are arrays: the batches, and for all but an insertion the
  -- elements that are reached.
  abbrev UpdatesDecode : (space index : ℕ) (keys operations : List ℕ) → Type 0
  UpdatesDecode space index keys operations =
      (is_array keys 0 ≡ true)
      × (is_array operations 0 ≡ true)
      × Decodes (next_update tarantool space index keys operations)
          (update_decodable tarantool keys operations) (mp_decode_array keys 0).0
          (record {
            key = (mp_decode_array keys 0).1;
            operation = (mp_decode_array operations 0).1;
          })

  abbrev pub IsDecodable : Request → Type 0
  IsDecodable (put_many r) =
      (is_array r.tuple 0 ≡ true)
      × Decodes (next_put tarantool r) (tuple_decodable tarantool r) (mp_decode_array r.tuple 0).0
          (mp_decode_array r.tuple 0).1
  IsDecodable (insert_many r) = is_array r.tuple 0 ≡ true
  IsDecodable (delete_many r) =
      (is_array r.tuple 0 ≡ true)
      × Decodes (next_delete tarantool r) (tuple_decodable tarantool r)
          (mp_decode_array r.tuple 0).0 (mp_decode_array r.tuple 0).1
  IsDecodable (update_many r) = UpdatesDecode r.space_id primary_index r.key r.operations
  IsDecodable (index_update_many r) = UpdatesDecode r.space_id r.index_id r.key r.operations

  insert-Decodes :
      (r : SpaceRequest) (count c : ℕ)
      → Decodes (next_insert tarantool r) (not_decoded tarantool r) count c
  insert-Decodes r zero c = tt
  insert-Decodes r (suc count) c = (refl, insert-Decodes r count (next_insert tarantool r c).1)

module _ (tarantool : Tarantool) (errors : Errors tarantool) where
  open tarantool use {
    State, Store, view, effect, tuples, txn_begin, txn_commit, port_alloc, port_c_create,
    port_destroy, mp_decode_array, view-txn_begin, view-txn_commit, view-port_alloc,
    view-port_c_create, view-port_destroy, tuples-port_c_create, tuples-txn_begin,
    tuples-txn_commit,
  }

  abbrev pub run : Request → Task → State → Option (Task × State)
  run (put_many r) = storage_space_put_many tarantool errors r
  run (insert_many r) = storage_space_insert_many tarantool errors r
  run (delete_many r) = storage_space_delete_many tarantool errors r
  run (update_many r) = storage_space_update_many tarantool errors r
  run (index_update_many r) = storage_index_update_many tarantool errors r

  -- All changes committed, in order, and their tuples in the port that the task gets; or none of
  -- them, and an error, where a call, the port or the commit is refused; or a NULL for a tuple, which
  -- the code does not check.
  pub data IsAtomic (ws : List Write) (start : State) (store : Store) (port : ℕ) (task : Task)
      : Option (Task × State) → Type 0 where
    committed :
        (s : State)
        → view s ≡ (effects tarantool ws store, none)
        → length (tuples s port) ≡ length ws
        → IsAtomic ws start store port task (some (record task { output = port }, s))
    undone :
        (s : State) (t : Task)
        → view s ≡ (store, none)
        → t.flags ≡ output_event
        → Stops tarantool port refusal ws start
        → IsAtomic ws start store port task (some (t, s))
    not_committed :
        (last s : State) (t : Task)
        → view last ≡ (store, some (effects tarantool ws store))
        → (txn_commit last).0 ≡ false
        → view s ≡ (store, none)
        → t.flags ≡ output_event
        → IsAtomic ws start store port task (some (t, s))
    no_tuple : Stops tarantool port null_tuple ws start → IsAtomic ws start store port task none

  pub send_error-flags :
      (task : Task) (s : State) → (storage_send_error tarantool errors task s).flags ≡ output_event
  unfolding storage_send_error
  send_error-flags task s = ground arith

  module _ {C : Type 0} (next : C → Write × C) (decodable : C → Bool) (count : ℕ) (c : C)
      (task : Task) (s : State) (store : Store) (fine : Decodes next decodable count c)
      (idle : view s ≡ (store, none)) (granted : (port_alloc s).0 ≢ 0)
      (opened : (begun tarantool s).0 ≡ true) where
    abbrev port : ℕ
    port = (port_alloc s).0

    begun_view : view (begun tarantool s).1 ≡ (store, some store)
    begun_view =
        view-txn_begin store (port_c_create port (port_alloc s).1)
          (rw (view-port_c_create, view-port_alloc) idle) opened

    begun_tuples : length (tuples (begun tarantool s).1 port) ≡ 0
    begun_tuples = rw (tuples-txn_begin, tuples-port_c_create) refl

    abbrev loop : Option (Bool × State)
    loop = batch tarantool next decodable count c port (begun tarantool s).1

    ran : Ran tarantool (calls next count c) (begun tarantool s).1 store store port 0 loop
    ran =
        batch-Ran tarantool next decodable count c port 0 (begun tarantool s).1 store store fine
          begun_view begun_tuples

    abbrev Goal : Option (Task × State) → Type 0
    Goal = IsAtomic (calls next count c) (begun tarantool s).1 store port task

    ended :
        (out : Option (Bool × State))
        → loop ≡ out
        → Ran tarantool (calls next count c) (begun tarantool s).1 store store port 0 out
        → Goal (transact tarantool errors next decodable count c task s)
    unfolding transact
    ended out e (faulted stop) = rw (ne→test port 0 granted, opened, e) (no_tuple stop)
    ended out e (given_up s3 seen stop) =
        rw (ne→test port 0 granted, opened, e)
          (undone s3 (storage_send_error tarantool errors task s3) seen (send_error-flags task s3)
            stop)
    ended out e (finished s3 seen many) = elim (Bool-cases (txn_commit s3).0) [
      | inl done ↦
          rw (ne→test port 0 granted, opened, e, done)
            (committed (txn_commit s3).1 (rw (view-txn_commit, done, seen) refl)
              (rw (tuples-txn_commit) (omega (arith, many))))
      | inr failed ↦
          rw (ne→test port 0 granted, opened, e, failed)
            (not_committed s3 (port_destroy port (txn_commit s3).1)
              (storage_send_error tarantool errors task (port_destroy port (txn_commit s3).1)) seen
              failed (rw (view-port_destroy, view-txn_commit, failed, seen) refl)
              (send_error-flags task (port_destroy port (txn_commit s3).1)))
    ]

    transact-IsAtomic : Goal (transact tarantool errors next decodable count c task s)
    transact-IsAtomic = ended loop refl ran

  -- When the batches of a request are arrays, and the elements are where the code decodes them, and no
  -- transaction is open, and Tarantool grants a port and a transaction, each request for many changes
  -- commits all its changes, in order, and answers with a port that holds a tuple for
  -- each; or it commits none of them and answers with an error, which happens only when a call, the
  -- port or the commit is refused. It works on NULL only when a delete or an update gives NULL for a
  -- tuple. No transaction stays open.
  pub run-IsAtomic :
      (request : Request) (task : Task) (s : State) (store : Store)
      → IsDecodable tarantool request
      → view s ≡ (store, none)
      → (port_alloc s).0 ≢ 0
      → (begun tarantool s).0 ≡ true
      → IsAtomic
          (changes tarantool request)
          (begun tarantool s).1
          store
          (port_alloc s).0
          task
          (run request task s)
  unfolding storage_space_put_many storage_space_insert_many storage_space_delete_many
      storage_space_update_many storage_index_update_many
  run-IsAtomic (put_many r) task s store (outer, fine) idle granted opened = rw outer (
      transact-IsAtomic (next_put tarantool r) (tuple_decodable tarantool r)
        (mp_decode_array r.tuple 0).0 (mp_decode_array r.tuple 0).1 task s store fine idle granted
        opened)
  run-IsAtomic (insert_many r) task s store outer idle granted opened = rw outer (
      transact-IsAtomic (next_insert tarantool r) (not_decoded tarantool r)
        (mp_decode_array r.tuple 0).0 (mp_decode_array r.tuple 0).1 task s store
        (insert-Decodes tarantool r (mp_decode_array r.tuple 0).0 (mp_decode_array r.tuple 0).1)
        idle granted opened)
  run-IsAtomic (delete_many r) task s store (outer, fine) idle granted opened = rw outer (
      transact-IsAtomic (next_delete tarantool r) (tuple_decodable tarantool r)
        (mp_decode_array r.tuple 0).0 (mp_decode_array r.tuple 0).1 task s store fine idle granted
        opened)
  run-IsAtomic (update_many r) task s store (keys, operations, fine) idle granted opened =
      rw (keys, operations)
        (transact-IsAtomic (next_update tarantool r.space_id primary_index r.key r.operations)
          (update_decodable tarantool r.key r.operations) (mp_decode_array r.key 0).0
          (record {
            key = (mp_decode_array r.key 0).1;
            operation = (mp_decode_array r.operations 0).1;
          })
          task s store fine idle granted opened)
  run-IsAtomic (index_update_many r) task s store (keys, operations, fine) idle granted opened =
      rw (keys, operations)
        (transact-IsAtomic (next_update tarantool r.space_id r.index_id r.key r.operations)
          (update_decodable tarantool r.key r.operations) (mp_decode_array r.key 0).0
          (record {
            key = (mp_decode_array r.key 0).1;
            operation = (mp_decode_array r.operations 0).1;
          })
          task s store fine idle granted opened)
