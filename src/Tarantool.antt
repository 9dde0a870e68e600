-- ===== src/Tarantool.antt =====
-- Tarantool and msgpuck, which are not part of the repository, as storage/native calls them: the
-- database with its transactions, tuples by reference, ports that hold tuples, and Lua.
-- The laws are what their documentation states.
pub mod Recorder
use feng_shui.Prelude.{
  ℕ, ◌+◌, ◌<◌, ◌≡◌, ◌≢◌, Bool, true, false, Option, none, some, List, [], ◌∷◌, ◌++◌, length,
}
use feng_shui.Prelude.Int.{ℤ}

-- Two pointers into a buffer: the bytes from the first up to the second.
pub record Part : Type 0 where
  pub bytes : List ℕ
  pub start : ℕ
  pub stop : ℕ

-- The calls that change a space. The last number of an update is the index base.
pub data Write : Type 0 where
  box_replace : (space : ℕ) (tuple : Part) → Write
  box_insert : (space : ℕ) (tuple : Part) → Write
  box_delete : (space index : ℕ) (key : Part) → Write
  box_update : (space index : ℕ) (key operations : Part) (base : ℕ) → Write
  box_upsert : (space index : ℕ) (tuple operations : Part) (base : ℕ) → Write

-- The calls that read one tuple.
pub data Read : Type 0 where
  box_index_get : (space index : ℕ) (key : Part) → Read
  box_index_min : (space index : ℕ) (key : Part) → Read
  box_index_max : (space index : ℕ) (key : Part) → Read

-- The arguments of box_select, but for the positions, which are NULL.
pub record Selection : Type 0 where
  pub space : ℕ
  pub index : ℕ
  pub iterator_type : ℤ
  pub offset : ℕ
  pub limit : ℕ
  pub key : Part

-- A result of Lua as a port dumps it: how many values, and the pieces of the buffer.
pub record Dump : Type 0 where
  pub values : ℕ
  pub pieces : List (List ℕ)

-- A write that stores a tuple gives that tuple, never NULL.
abbrev pub stores : Write → Bool
stores (box_replace space tuple) = true
stores (box_insert space tuple) = true
stores (box_delete space index key) = false
stores (box_update space index key operations base) = false
stores (box_upsert space index tuple operations base) = false

-- What is committed, and what the open transaction sees, if one is open.
abbrev pub View : Type 0 → Type 0
View S = S × Option S

module _ {S : Type 0} where
  -- A call that succeeds acts on the open transaction, or at once where none is open.
  abbrev pub written : (S → S) → Option ℕ → View S → View S
  written f none v = v
  written f (some t) (store, none) = (f store, none)
  written f (some t) (store, some open_store) = (store, some (f open_store))

  -- A transaction ends with its changes, or without them.
  abbrev pub settled : Bool → View S → View S
  settled done (store, none) = (store, none)
  settled true (store, some open_store) = (open_store, none)
  settled false (store, some open_store) = (store, none)

pub record Tarantool : Type 1 where
  pub State : Type 0
  pub Store : Type 0
  pub view : State → View Store
  pub effect : Write → Store → Store
  -- The tuples in the port at an address.
  pub tuples : State → ℕ → List ℕ
  -- `none` for an error; otherwise the tuple, 0 for NULL.
  pub box_write : Write → State → Option ℕ × State
  pub box_read : Read → State → Option ℕ × State
  pub box_iterator_next : ℕ → State → Option ℕ × State
  pub box_select : Selection → ℕ → State → Bool × State
  pub box_index_count : (space index : ℕ) → ℤ → Part → State → ℤ × State
  pub box_index_len : (space index : ℕ) → State → ℤ × State
  pub box_index_iterator : (space index : ℕ) → ℤ → Part → State → ℕ × State
  pub box_iterator_free : ℕ → State → State
  pub box_truncate : ℕ → State → State
  pub box_space_id_by_name : ℕ → ℕ → State → ℕ × State
  pub box_index_id_by_name : (space name length : ℕ) → State → ℕ × State
  pub box_lua_eval : (expression input : List ℕ) → State → Option Dump × State
  pub box_lua_call : (function input : List ℕ) → State → Option Dump × State
  -- `false` where the C function gives NULL or an error.
  pub txn_begin : State → Bool × State
  pub txn_commit : State → Bool × State
  pub txn_rollback : State → State
  pub tuple_ref : ℕ → State → State
  pub tuple_unref : ℕ → State → State
  pub port_alloc : State → ℕ × State
  pub port_free : ℕ → State → State
  pub port_c_create : ℕ → State → State
  pub port_c_add_tuple : ℕ → ℕ → State → Bool × State
  pub port_destroy : ℕ → State → State
  -- Whether `diag_last_error` gives an error.
  pub diagnosed : State → Bool
  -- Memory for bytes, 0 for NULL.
  pub smalloc : ℕ → State → ℕ × State
  pub smfree : (address size : ℕ) → State → State
  -- `mp_decode_array` gives the count and where the elements start; `mp_next` skips a value.
  pub mp_decode_array : List ℕ → ℕ → ℕ × ℕ
  pub mp_next : List ℕ → ℕ → ℕ
  pub is_array : List ℕ → ℕ → Bool
  pub mp_encode_array : ℕ → List ℕ
  pub mp_sizeof_array : ℕ → ℕ
  pub view-box_write :
      (w : Write) (s : State)
      → view (box_write w s).1 ≡ written (effect w) (box_write w s).0 (view s)
  pub box_write-stores : (w : Write) (s : State) → stores w ≡ true → (box_write w s).0 ≢ some 0
  pub view-txn_begin :
      (store : Store) (s : State)
      → view s ≡ (store, none)
      → (txn_begin s).0 ≡ true
      → view (txn_begin s).1 ≡ (store, some store)
  pub view-txn_commit : (s : State) → view (txn_commit s).1 ≡ settled (txn_commit s).0 (view s)
  pub view-txn_rollback : (s : State) → view (txn_rollback s) ≡ settled false (view s)
  pub view-tuple_ref : (t : ℕ) (s : State) → view (tuple_ref t s) ≡ view s
  pub view-port_alloc : (s : State) → view (port_alloc s).1 ≡ view s
  pub view-port_c_create : (port : ℕ) (s : State) → view (port_c_create port s) ≡ view s
  pub view-port_c_add_tuple : (port t : ℕ) (s : State) → view (port_c_add_tuple port t s).1 ≡ view s
  pub view-port_destroy : (port : ℕ) (s : State) → view (port_destroy port s) ≡ view s
  pub tuples-port_c_create : (port : ℕ) (s : State) → tuples (port_c_create port s) port ≡ []
  pub tuples-port_c_add_tuple :
      (port t : ℕ) (s : State)
      → (port_c_add_tuple port t s).0 ≡ true
      → tuples (port_c_add_tuple port t s).1 port ≡ tuples s port ++ t ∷ []
  pub tuples-box_write : (w : Write) (s : State) → tuples (box_write w s).1 ≡ tuples s
  pub tuples-tuple_ref : (t : ℕ) (s : State) → tuples (tuple_ref t s) ≡ tuples s
  pub tuples-txn_begin : (s : State) → tuples (txn_begin s).1 ≡ tuples s
  pub tuples-txn_commit : (s : State) → tuples (txn_commit s).1 ≡ tuples s
  pub length-mp_encode_array : (n : ℕ) → length (mp_encode_array n) ≡ mp_sizeof_array n
