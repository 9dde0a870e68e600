-- ===== src/Box/Answers.antt =====
-- What a request for one change does.
use feng_shui.Prelude.{
  ℕ, ◌≡◌, ◌≢◌, inl, inr, refl, Option-cases, Option, none, some, some, ne→test, ℕ_discrete,
}
use feng_shui.Executor.{Task}
use feng_shui.Tarantool.{
  Tarantool, Write, View, written, box_replace, box_insert, box_delete, box_update, box_upsert,
}
use feng_shui.Box.{
  Errors, SpaceRequest, SpaceUpdateRequest, SpaceUpsertRequest, IndexUpdateRequest, output_event,
  primary_index, index_base_c, whole, answer, storage_send_error,
}
use feng_shui.Box.Single.{
  storage_space_put_single, storage_space_insert_single, storage_space_delete_single,
  storage_space_update_single, storage_space_upsert, storage_index_update_single,
}
use feng_shui.Box.Atomic.{send_error-flags}

-- The requests for one change.
pub data Change : Type 0 where
  put : SpaceRequest → Change
  insert : SpaceRequest → Change
  delete : SpaceRequest → Change
  update : SpaceUpdateRequest → Change
  upsert : SpaceUpsertRequest → Change
  index_update : IndexUpdateRequest → Change

-- The call that a request stands for.
abbrev pub call_of : Change → Write
call_of (put r) = box_replace r.space_id (whole r.tuple r.tuple_size)
call_of (insert r) = box_insert r.space_id (whole r.tuple r.tuple_size)
call_of (delete r) = box_delete r.space_id primary_index (whole r.tuple r.tuple_size)
call_of (update r) =
    box_update r.space_id primary_index (whole r.key r.key_size)
      (whole r.operations r.operations_size) index_base_c
call_of (upsert r) =
    box_upsert r.space_id primary_index (whole r.tuple r.tuple_size)
      (whole r.operations r.operations_size) index_base_c
call_of (index_update r) =
    box_update r.space_id r.index_id (whole r.key r.key_size) (whole r.operations r.operations_size)
      index_base_c

module _ (tarantool : Tarantool) (errors : Errors tarantool) where
  open tarantool use {
    State, Store, view, effect, box_write, tuple_ref, txn_begin, port_alloc, port_c_create,
    mp_decode_array, view-box_write, view-tuple_ref,
  }

  abbrev pub perform : Change → Task → State → Task × State
  perform (put r) = storage_space_put_single tarantool errors r
  perform (insert r) = storage_space_insert_single tarantool errors r
  perform (delete r) = storage_space_delete_single tarantool errors r
  perform (update r) = storage_space_update_single tarantool errors r
  perform (upsert r) = storage_space_upsert tarantool errors r
  perform (index_update r) = storage_index_update_single tarantool errors r

  -- By what the call gave: an error changes nothing; a success makes the change, and a tuple goes to
  -- the task.
  pub data IsAnswer (w : Write) (before : View Store) (task : Task)
      : Option ℕ → Task × State → Type 0 where
    failed :
        (t : Task) (s : State)
        → view s ≡ before
        → t.flags ≡ output_event
        → IsAnswer w before task none (t, s)
    no_tuple :
        (s : State)
        → view s ≡ written (effect w) (some 0) before
        → IsAnswer w before task (some 0) (task, s)
    tuple :
        (t : ℕ) (s : State)
        → t ≢ 0
        → view s ≡ written (effect w) (some t) before
        → IsAnswer w before task (some t) (record task { output = t }, s)

  answer-IsAnswer :
      (w : Write) (task : Task) (s : State)
      → IsAnswer w (view s) task (box_write w s).0 (answer tarantool errors task (box_write w s))
  answer-IsAnswer w task s = elim (Option-cases (box_write w s).0) [
    | inl refused ↦ rw (refused) (
        failed (storage_send_error tarantool errors task (box_write w s).1) (box_write w s).1
          (rw (view-box_write, refused) refl)
          (send_error-flags tarantool errors task (box_write w s).1))
    | inr (t, gave) ↦ elim (ℕ_discrete t 0) [
      | yes null ↦
          rw (gave, null) (no_tuple (box_write w s).1 (rw (view-box_write, gave, null) refl))
      | no given ↦
          rw (gave, ne→test t 0 given)
            (tuple t (tuple_ref t (box_write w s).1) given
              (rw (view-tuple_ref, view-box_write, gave) refl))
    ]
  ]

  -- A request for one change makes it, in the open transaction if there is one and otherwise at
  -- once, and answers with the tuple, if there is one; or it changes nothing and answers with an
  -- error, which happens only when the call fails. It leaves no transaction open that was not open.
  pub perform-IsAnswer :
      (change : Change) (task : Task) (s : State)
      → IsAnswer
          (call_of change)
          (view s)
          task
          (box_write (call_of change) s).0
          (perform change task s)
  unfolding storage_space_put_single storage_space_insert_single storage_space_delete_single
      storage_space_update_single storage_space_upsert storage_index_update_single
  perform-IsAnswer (put r) task s = answer-IsAnswer (call_of (put r)) task s
  perform-IsAnswer (insert r) task s = answer-IsAnswer (call_of (insert r)) task s
  perform-IsAnswer (delete r) task s = answer-IsAnswer (call_of (delete r)) task s
  perform-IsAnswer (update r) task s = answer-IsAnswer (call_of (update r)) task s
  perform-IsAnswer (upsert r) task s = answer-IsAnswer (call_of (upsert r)) task s
  perform-IsAnswer (index_update r) task s = answer-IsAnswer (call_of (index_update r)) task s
