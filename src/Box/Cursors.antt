-- ===== src/Box/Cursors.antt =====
-- The loops of the handlers of box.c that work on many tuples. Those that write read a cursor over
-- the batch, which gives the call for the next element, and share their loop.
use feng_shui.Prelude.{
  ℕ, zero, suc, ◌+◌, Bool, true, false, ◌&&◌, Option, none, some, List, ◌==◌, if◌then◌else◌,
}
use feng_shui.Tarantool.{Tarantool, Part, Write, box_replace, box_insert, box_delete, box_update}
use feng_shui.Box.{SpaceRequest, primary_index, index_base_c}

-- Where the loop of an update is in the two batches.
pub record Cursors : Type 0 where
  pub key : ℕ
  pub operation : ℕ

module _ (tarantool : Tarantool) where
  open tarantool use {
    State, box_write, box_iterator_next, txn_begin, txn_commit, txn_rollback, tuple_ref, port_alloc,
    port_c_create, port_c_add_tuple, port_destroy, mp_decode_array, mp_next, is_array,
  }

  -- The part of a batch that `mp_decode_array` delimits: it takes the number of elements for a size.
  abbrev pub counted_part : List ℕ → ℕ → Part
  counted_part bytes p = record { bytes = bytes; start = p; stop = p + (mp_decode_array bytes p).0 }

  abbrev pub next_put : SpaceRequest → ℕ → Write × ℕ
  next_put request p =
      (box_replace request.space_id (counted_part request.tuple p), mp_next request.tuple p)

  abbrev pub next_insert : SpaceRequest → ℕ → Write × ℕ
  next_insert request p =
      let next = mp_next request.tuple p in
      (box_insert request.space_id (record { bytes = request.tuple; start = p; stop = next }), next)

  abbrev pub next_delete : SpaceRequest → ℕ → Write × ℕ
  next_delete request p = (
    box_delete request.space_id primary_index (counted_part request.tuple p),
    mp_next request.tuple p,
  )

  abbrev pub next_update : (space index : ℕ) (keys operations : List ℕ) → Cursors → Write × Cursors
  next_update space index keys operations c = (
    box_update space index (counted_part keys c.key) (counted_part operations c.operation)
        index_base_c,
    record { key = mp_next keys c.key; operation = mp_next operations c.operation },
  )

  abbrev pub abandon : ℕ → State → State
  abandon port s = txn_rollback (port_destroy port s)

  -- Where `mp_decode_array` is defined: on an array.
  abbrev pub tuple_decodable : SpaceRequest → ℕ → Bool
  tuple_decodable request p = is_array request.tuple p

  abbrev pub update_decodable : (keys operations : List ℕ) → Cursors → Bool
  update_decodable keys operations c = is_array keys c.key && is_array operations c.operation

  -- An insertion decodes nothing.
  abbrev pub not_decoded : SpaceRequest → ℕ → Bool
  not_decoded request p = true

  -- The loop: whether it came to its end. The count goes down. `decodable` is that what it decodes
  -- for the next call is an array; otherwise the behaviour is undefined.
  unfoldable pub batch :
      {C : Type 0} (next : C → Write × C) (decodable : C → Bool) (count : ℕ)
      → C
      → ℕ
      → State
      → Option (Bool × State)
  batch next decodable zero c port s = some (true, s)
  batch next decodable (suc count) c port s =
      let (result, s1) = box_write (next c).0 s in
      let called : Option (Bool × State) = elim result [
        | none ↦ some (false, abandon port s1)
        | some t ↦
            let (added, s2) = port_c_add_tuple port t (tuple_ref t s1) in
            let rest = batch next decodable count (next c).1 port s2 in
            if t == 0 then none else if added then rest else some (false, abandon port s2)
      ] in
      if decodable c then called else none

  -- The tuples are not referenced before they go to the port.
  unfoldable pub collect : (count : ℕ) (iterator port : ℕ) → State → Bool × State
  collect zero iterator port s = (true, s)
  collect (suc count) iterator port s =
      let (result, s1) = box_iterator_next iterator s in
      elim result [
        | none ↦ (false, port_destroy port s1)
        | some t ↦
            let (added, s2) = port_c_add_tuple port t s1 in
            let rest = collect count iterator port s2 in
            if t == 0
            then (false, port_destroy port s1)
            else if added
            then rest
            else (false, port_destroy port s2)
      ]
