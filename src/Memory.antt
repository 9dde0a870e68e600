-- ===== src/Memory.antt =====
-- memory/native/memory/memory.h and io_buffers.h: pools of objects, and the buffers for input and
-- output, over the library small, which is not part of the repository.
-- `none` is undefined behaviour: a block of NULL that is cleared. The contents of the memory are not
-- modelled.
pub mod Mirrors
pub mod Lifecycle
pub mod Leaks
mod Tests
use feng_shui.Prelude.{
  ℕ, ◌+◌, ◌≤◌, ◌≡◌, refl, Bool, true, false, Option, none, some, ◌==◌, if◌then◌else◌, ◌&&◌,
}

-- What the code uses of small. A result of `none` is NULL, and then nothing has changed.
pub record Small : Type 1 where
  pub Pool : Type 0
  pub Ibuf : Type 0
  pub Obuf : Type 0
  pub mempool_alloc : Pool → Option (ℕ × Pool)
  pub mempool_free : Pool → ℕ → Pool
  pub rpos : Ibuf → ℕ
  pub wpos : Ibuf → ℕ
  pub ibuf_used : Ibuf → ℕ
  pub ibuf_unused : Ibuf → ℕ
  pub start_capacity : Ibuf → ℕ
  pub ibuf_create : ℕ → Ibuf
  pub ibuf_reserve : Ibuf → ℕ → Option (ℕ × Ibuf)
  pub ibuf_alloc : Ibuf → ℕ → Option (ℕ × Ibuf)
  pub obuf_create : ℕ → Obuf
  pub obuf_start_capacity : Obuf → ℕ
  pub obuf_reserve : Obuf → ℕ → Option (ℕ × Obuf)
  pub obuf_alloc : Obuf → ℕ → Option (ℕ × Obuf)
  pub obuf_size : Obuf → ℕ
  pub n_iov : Obuf → ℕ
  -- `capacity[pos] - iov[pos].iov_len`, the room in the last piece
  pub last_room : Obuf → ℕ
  pub ibuf_used-ibuf_create : (capacity : ℕ) → ibuf_used (ibuf_create capacity) ≡ 0
  pub ibuf_used-ibuf_reserve :
      (b : Ibuf) (size p : ℕ) (after : Ibuf)
      → ibuf_reserve b size ≡ some (p, after)
      → (ibuf_used after ≡ ibuf_used b) × (size ≤ ibuf_unused after)
  pub ibuf_used-ibuf_alloc :
      (b : Ibuf) (size p : ℕ) (after : Ibuf)
      → ibuf_alloc b size ≡ some (p, after)
      → ibuf_used after ≡ ibuf_used b + size

module _ (small : Small) where
  open small use {
    Pool, Ibuf, Obuf, mempool_alloc, mempool_free, rpos, wpos, ibuf_used, ibuf_unused,
    start_capacity, ibuf_create, ibuf_reserve, ibuf_alloc, obuf_create, obuf_start_capacity,
    obuf_reserve, obuf_alloc, obuf_size, n_iov, last_room,
  }

  -- `struct memory_pool`
  pub record MemoryPool : Type 0 where
    pub object_size : ℕ
    pub pool : Pool

  -- `struct memory_input_buffer`
  pub record InputBuffer : Type 0 where
    pub read_position : ℕ
    pub write_position : ℕ
    pub used : ℕ
    pub unused : ℕ
    pub buffer : Ibuf

  -- `struct memory_output_buffer`, less the address of its first piece
  pub record OutputBuffer : Type 0 where
    pub vectors : ℕ
    pub size : ℕ
    pub last_reserved_size : ℕ
    pub buffer : Obuf

  -- The object is cleared whether there is one or not.
  unfoldable pub memory_pool_allocate : MemoryPool → Option (Option ℕ × MemoryPool)
  memory_pool_allocate p = elim (mempool_alloc p.pool) [
    | none ↦ if p.object_size == 0 then some (none, p) else none
    | some (object, pool) ↦ some (some object, record p { pool = pool })
  ]

  unfoldable pub memory_pool_free : MemoryPool → ℕ → MemoryPool
  memory_pool_free p object = record p { pool = mempool_free p.pool object }

  -- Of a fresh buffer only the positions are set; the object is clear.
  unfoldable pub memory_io_buffers_allocate_input :
      MemoryPool → ℕ → Option (Option (ℕ × InputBuffer) × MemoryPool)
  memory_io_buffers_allocate_input inputs initial_capacity =
      let b = ibuf_create initial_capacity in
      elim (memory_pool_allocate inputs) [
        | none ↦ none
        | some (object, pool) ↦ elim object [
          | none ↦ some (none, pool)
          | some address ↦ some (
            some (
              address,
              record {
                read_position = rpos b;
                write_position = wpos b;
                used = 0;
                unused = 0;
                buffer = b;
              },
            ),
            pool,
          )
        ]
      ]

  unfoldable pub memory_io_buffers_allocate_output :
      MemoryPool → ℕ → Option (Option (ℕ × OutputBuffer) × MemoryPool)
  memory_io_buffers_allocate_output outputs initial_capacity = elim (memory_pool_allocate outputs) [
    | none ↦ none
    | some (object, pool) ↦ elim object [
      | none ↦ some (none, pool)
      | some address ↦ some (
        some (
          address,
          record {
            vectors = 0;
            size = 0;
            last_reserved_size = 0;
            buffer = obuf_create initial_capacity;
          },
        ),
        pool,
      )
    ]
  ]

  -- The fields as the buffer below has them.
  abbrev pub mirrored : Ibuf → InputBuffer
  mirrored b = record {
    read_position = rpos b;
    write_position = wpos b;
    used = ibuf_used b;
    unused = ibuf_unused b;
    buffer = b;
  }

  -- The block is cleared before it is looked at whether there is one.
  unfoldable pub memory_input_buffer_reserve : InputBuffer → ℕ → Option (Option ℕ × InputBuffer)
  memory_input_buffer_reserve b size =
      elim (ibuf_reserve b.buffer (if size == 0 then start_capacity b.buffer else size)) [
        | none ↦ if size == 0 then some (none, b) else none
        | some (reserved, buffer) ↦ some (some reserved, mirrored buffer)
      ]

  unfoldable pub memory_input_buffer_finalize : InputBuffer → ℕ → Option ℕ × InputBuffer
  memory_input_buffer_finalize b size = elim (ibuf_alloc b.buffer size) [
    | none ↦ (none, b)
    | some (allocated, buffer) ↦ (some allocated, mirrored buffer)
  ]

  -- The result of the first call is not looked at.
  abbrev advanced : InputBuffer → Option (ℕ × Ibuf) → InputBuffer
  advanced b none = b
  advanced b (some (allocated, buffer)) = record b { buffer = buffer }

  unfoldable pub memory_input_buffer_finalize_reserve :
      InputBuffer → (delta size : ℕ) → Option (Option ℕ × InputBuffer)
  memory_input_buffer_finalize_reserve b delta size =
      memory_input_buffer_reserve (advanced b (ibuf_alloc b.buffer delta)) size

  unfoldable pub memory_output_buffer_reserve : OutputBuffer → ℕ → Option (Option ℕ × OutputBuffer)
  memory_output_buffer_reserve b size =
      elim (obuf_reserve b.buffer (if size == 0 then obuf_start_capacity b.buffer else size)) [
        | none ↦
            if size == 0
            then some (
              none,
              record b {
                size = obuf_size b.buffer;
                vectors = n_iov b.buffer;
                last_reserved_size = last_room b.buffer;
              },
            )
            else none
        | some (reserved, buffer) ↦ some (
          some reserved,
          record {
            size = obuf_size buffer;
            vectors = n_iov buffer;
            last_reserved_size = last_room buffer;
            buffer = buffer;
          },
        )
      ]

  -- The room in the last piece is left as it was.
  unfoldable pub memory_output_buffer_finalize : OutputBuffer → ℕ → Option ℕ × OutputBuffer
  memory_output_buffer_finalize b size = elim (obuf_alloc b.buffer size) [
    | none ↦ (none, record b { size = obuf_size b.buffer; vectors = n_iov b.buffer })
    | some (allocated, buffer) ↦ (
      some allocated,
      record b { size = obuf_size buffer; vectors = n_iov buffer; buffer = buffer },
    )
  ]

  abbrev advanced_output : OutputBuffer → Option (ℕ × Obuf) → OutputBuffer
  advanced_output b none = b
  advanced_output b (some (allocated, buffer)) = record b { buffer = buffer }

  unfoldable pub memory_output_buffer_finalize_reserve :
      OutputBuffer → (delta size : ℕ) → Option (Option ℕ × OutputBuffer)
  memory_output_buffer_finalize_reserve b delta size =
      memory_output_buffer_reserve (advanced_output b (obuf_alloc b.buffer delta)) size
