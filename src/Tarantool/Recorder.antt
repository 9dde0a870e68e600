-- ===== src/Tarantool/Recorder.antt =====
-- A database that keeps the writes made, and one port, and that meets the laws. A delete finds
-- nothing; every other write gives tuple 7.
use feng_shui.Prelude.{
  ℕ, zero, suc, arith, ◌+◌, ◌≡◌, ◌≢◌, refl, true, false, Option, none, some, List, [], ◌∷◌, ◌++◌,
}
use feng_shui.Prelude.Int.{pos}
use feng_shui.Tarantool.{
  Tarantool, Write, View, stores, written, settled, box_replace, box_insert, box_delete, box_update,
  box_upsert,
}

pub record Log : Type 0 where
  pub view : View (List Write)
  pub port : List ℕ

abbrev result_of : Write → Option ℕ
result_of (box_replace space tuple) = some 7
result_of (box_insert space tuple) = some 7
result_of (box_delete space index key) = some 0
result_of (box_update space index key operations base) = some 7
result_of (box_upsert space index tuple operations base) = some 7

pub result_of-stores : (w : Write) → stores w ≡ true → result_of w ≢ some 0
result_of-stores (box_replace space tuple) h e = ground arith
result_of-stores (box_insert space tuple) h e = ground arith
result_of-stores (box_delete space index key) h e = ground arith
result_of-stores (box_update space index key operations base) h e = ground arith
result_of-stores (box_upsert space index tuple operations base) h e = ground arith

abbrev opened : View (List Write) → View (List Write)
opened (store, none) = (store, some store)
opened (store, some open_store) = (store, some open_store)

-- Arrays are flat, of fewer than 16 values of one byte.
abbrev pub byte_at : List ℕ → ℕ → ℕ
byte_at [] i = 0
byte_at (b ∷ bytes) zero = b
byte_at (b ∷ bytes) (suc i) = byte_at bytes i

abbrev pub recorder : Tarantool
recorder = record {
  State = Log;
  Store = List Write;
  view = λ s. s.view;
  effect = λ w store. store ++ w ∷ [];
  tuples = λ s port. s.port;
  box_write = λ w s.
      (result_of w, record s { view = written (λ store. store ++ w ∷ []) (result_of w) s.view });
  box_read = λ r s. (some 7, s);
  box_iterator_next = λ i s. (some 7, s);
  box_select = λ c port s. (true, s);
  box_index_count = λ space index type key s. (pos 0, s);
  box_index_len = λ space index s. (pos 0, s);
  box_index_iterator = λ space index type key s. (0, s);
  box_iterator_free = λ i s. s;
  box_truncate = λ space s. s;
  box_space_id_by_name = λ name size s. (0, s);
  box_index_id_by_name = λ space name size s. (0, s);
  box_lua_eval = λ text input s. (some (record { values = 1; pieces = input ∷ [] }), s);
  box_lua_call = λ text input s. (none, s);
  txn_begin = λ s. (true, record s { view = opened s.view });
  txn_commit = λ s. (true, record s { view = settled true s.view });
  txn_rollback = λ s. record s { view = settled false s.view };
  tuple_ref = λ t s. s;
  tuple_unref = λ t s. s;
  port_alloc = λ s. (64, s);
  port_free = λ port s. s;
  port_c_create = λ port s. record s { port = [] };
  port_c_add_tuple = λ port t s. (true, record s { port = s.port ++ t ∷ [] });
  port_destroy = λ port s. s;
  diagnosed = λ s. false;
  smalloc = λ size s. (128, s);
  smfree = λ address size s. s;
  mp_decode_array = λ bytes p. (byte_at bytes p, p + 1);
  mp_next = λ bytes p. p + 1 + byte_at bytes p;
  is_array = λ bytes p. true;
  mp_encode_array = λ n. n ∷ [];
  mp_sizeof_array = λ n. 1;
  view-box_write = λ w s. refl;
  box_write-stores = λ w s. result_of-stores w;
  view-txn_begin = λ store s h begun. rw (h) refl;
  view-txn_commit = λ s. refl;
  view-txn_rollback = λ s. refl;
  view-tuple_ref = λ t s. refl;
  view-port_alloc = λ s. refl;
  view-port_c_create = λ port s. refl;
  view-port_c_add_tuple = λ port t s. refl;
  view-port_destroy = λ port s. refl;
  tuples-port_c_create = λ port s. refl;
  tuples-port_c_add_tuple = λ port t s h. refl;
  tuples-box_write = λ w s. refl;
  tuples-tuple_ref = λ t s. refl;
  tuples-txn_begin = λ s. refl;
  tuples-txn_commit = λ s. refl;
  length-mp_encode_array = λ n. refl;
}
