-- ===== src/StaticBuffers.antt =====
-- memory/native/memory/static_buffers.h: a pool of fixed buffers, handed out by number.
-- A buffer is the list of its bytes with the length that its `iovec` states. What the C library
-- decides is a parameter: which requests for memory succeed.
pub mod Ownership
pub mod Creation
pub mod Sessions
mod Tests
use feng_shui.Prelude.{
  ℕ, zero, suc, ◌+◌, ◌-◌, ◌*◌, Bool, ◌&&◌, Option, none, some, List, [], ◌∷◌, ◌++◌, u32, ◌==◌,
  if◌then◌else◌, get_elem?, set, replicate, bind, write,
}
use feng_shui.Prelude.Int.{ℤ, pos, negsuc}

pub record Buffer : Type 0 where
  pub iov_base : List ℕ
  pub iov_len : ℕ

-- `struct memory_static_buffers`
pub record StaticBuffers : Type 0 where
  pub available : ℕ
  pub size : ℕ
  pub capacity : ℕ
  pub ids : List ℕ
  pub buffers : List Buffer

-- How a constructor ends: with an object, with NULL, by a panic (a checked allocation failed), or
-- outside its memory.
pub data Created (A : Type 0) : Type 0 where
  created : A → Created A
  null : Created A
  panic : Created A
  fault : Created A

-- -1997
abbrev pub module_error_code : ℤ
module_error_code = negsuc 1996

abbrev pub cleared : ℕ → Buffer
cleared size = record { iov_base = replicate size 0; iov_len = size }

abbrev pub unset : Buffer
unset = record { iov_base = []; iov_len = 0 }

-- One round of the loop of `memory_static_buffers_create`.
unfoldable pub fill_slot : StaticBuffers → ℕ → Option StaticBuffers
fill_slot pool index = bind (write pool.buffers index (cleared pool.size)) λ buffers.
    bind (write pool.ids pool.available index)
      λ ids. some (record pool { buffers = buffers; ids = ids; available = pool.available + 1 })

-- The loop, with the rounds left and the index. `aligned i` says whether the request for buffer `i`
-- succeeds.
unfoldable pub fill_slots : (ℕ → Bool) → ℕ → ℕ → StaticBuffers → Created StaticBuffers
fill_slots aligned zero index pool = created pool
fill_slots aligned (suc rounds) index pool = elim (fill_slot pool index) [
  | none ↦ if aligned index then fault else null
  | some next ↦
      let rest = fill_slots aligned rounds (index + 1) next in if aligned index then rest else null
]

abbrev pub pool_bytes : ℕ
pool_bytes = 40

-- The pool before the loop. `memory_module_allocate_checked` takes its count as a `uint32_t`.
unfoldable pub unfilled : ℕ → ℕ → StaticBuffers
unfilled capacity size = record {
  available = 0;
  size = size;
  capacity = capacity;
  ids = replicate (u32 capacity) 0;
  buffers = replicate (u32 capacity) unset;
}

unfoldable pub create : (ℕ → Bool) → (ℕ → Bool) → ℕ → ℕ → Created StaticBuffers
create granted aligned capacity size =
    if granted pool_bytes && granted (u32 capacity * 4) && granted (u32 capacity * 16)
    then fill_slots aligned capacity 0 (unfilled capacity size)
    else panic

-- A negative `id` lies outside the buffers.
unfoldable pub push : StaticBuffers → ℤ → Option StaticBuffers
push pool (negsuc n) = none
push pool (pos id) = bind (write pool.buffers id (cleared pool.size)) λ buffers.
    bind (write pool.ids pool.available id)
      λ ids. some (record pool { buffers = buffers; ids = ids; available = pool.available + 1 })

-- An empty pool reports an error (the event goes to the caller's thread, `Events`) and gives the
-- error code.
unfoldable pub pop : StaticBuffers → Option (ℤ × StaticBuffers)
pop pool =
    if pool.available == 0
    then some (module_error_code, pool)
    else bind (get_elem? pool.ids (pool.available - 1))
        λ id. some (pos id, record pool { available = pool.available - 1 })

-- An `int32_t` in C: the same for a capacity below 2 ^ 31.
unfoldable pub used : StaticBuffers → ℕ
used pool = pool.capacity - pool.available
