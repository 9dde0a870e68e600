-- ===== src/Box/Missing.antt =====
-- A request to delete many, one of which is not there.
use feng_shui.Prelude.{
  ℕ, suc, ◌≡◌, refl, Bool, true, Bool-cases, inl, inr, none, some, ◌==◌, not, ◌||◌,
}
use feng_shui.Executor.{Task}
use feng_shui.Tarantool.{Tarantool, Write, box_delete}
use feng_shui.Box.{Errors, SpaceRequest, primary_index}
use feng_shui.Box.Cursors.{next_delete, batch, counted_part, tuple_decodable}
use feng_shui.Box.Many.{transact, storage_space_delete_many}
use feng_shui.Box.Atomic.{begun}

module _ (tarantool : Tarantool) (errors : Errors tarantool) where
  open tarantool use {State, box_write, port_alloc, mp_decode_array, is_array}

  stuck :
      {C : Type 0} (next : C → Write × C) (decodable : C → Bool) (count n : ℕ) (c : C) (port : ℕ)
      (s : State)
      → count ≡ suc n
      → decodable c ≡ true
      → (box_write (next c).0 s).0 ≡ some 0
      → batch tarantool next decodable count c port s ≡ none
  unfolding batch
  stuck next decodable count n c port s some_left now null = rw (some_left, now, null, batch) refl

  -- A request to delete many whose first key finds nothing, so that `box_delete` succeeds and gives
  -- NULL for a tuple, takes a reference of NULL, whatever else holds.
  pub delete_many_missing :
      (r : SpaceRequest) (task : Task) (s : State) (n : ℕ)
      → is_array r.tuple 0 ≡ true
      → (mp_decode_array r.tuple 0).0 ≡ suc n
      → is_array r.tuple (mp_decode_array r.tuple 0).1 ≡ true
      → (box_write
          (box_delete r.space_id primary_index
            (counted_part tarantool r.tuple (mp_decode_array r.tuple 0).1))
          (begun tarantool s).1).0
        ≡ some 0
      → storage_space_delete_many tarantool errors r task s ≡ none
  unfolding storage_space_delete_many transact
  delete_many_missing r task s n outer some_left now null =
      elim (Bool-cases (((port_alloc s).0 == 0) || not (begun tarantool s).0)) [
        | inl refused ↦ rw (outer, refused) refl
        | inr granted ↦
            rw
              (
                outer,
                granted,
                stuck (next_delete tarantool r) (tuple_decodable tarantool r)
                    (mp_decode_array r.tuple 0).0 n (mp_decode_array r.tuple 0).1 (port_alloc s).0
                    (begun tarantool s).1 some_left now null,
              )
              refl
      ]
