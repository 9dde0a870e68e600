-- ===== src/Memory/Lifecycle.antt =====
-- memory/native/memory/memory.h, io_buffers.h and storage/native/storage/factory.c: what is created
-- and destroyed. What lives is a list of what calloc and the library small gave, each by the address
-- of the block that it stands in; to free what does not live is undefined behaviour, `none`, and so
-- is a write to a block of NULL.
use feng_shui.Prelude.{ℕ, Bool, false, Option, none, some, List, [], ◌∷◌, ◌==◌, if◌then◌else◌, bind}
use feng_shui.Prelude.Int.{ℤ, pos, negsuc}

pub data Resource : Type 0 where
  block : ℕ → Resource
  arena : ℕ → Resource
  cache : ℕ → Resource
  mempool : ℕ → Resource
  small_alloc : ℕ → Resource

abbrev pub same_resource : Resource → Resource → Bool
same_resource (block a) (block b) = a == b
same_resource (arena a) (arena b) = a == b
same_resource (cache a) (cache b) = a == b
same_resource (mempool a) (mempool b) = a == b
same_resource (small_alloc a) (small_alloc b) = a == b
same_resource r s = false

abbrev pub Live : Type 0
Live = List Resource

unfoldable pub release : Resource → Live → Option Live
release r [] = none
release r (s ∷ live) =
    let rest = release r live in
    if same_resource r s then some live else bind rest (λ l. some (s ∷ l))

-- `own` is where calloc puts the block, if it does; `result` is that of `slab_arena_create`.
unfoldable pub memory_create : (own : Option ℕ) (result : ℕ) → Live → Option (Option ℕ × Live)
memory_create none result live = some (none, live)
memory_create (some m) result live =
    if result == 0
    then some (some m, cache m ∷ arena m ∷ block m ∷ live)
    else bind (release (block m) (block m ∷ live)) (λ l. some (none, l))

unfoldable pub memory_destroy : ℕ → Live → Option Live
memory_destroy m live =
    bind (release (cache m) live) (λ l. bind (release (arena m) l) (λ k. release (block m) k))

-- A pool that is not initialized is not given to the caller, and its block stays.
unfoldable pub memory_pool_create :
    (own : Option ℕ) (initialized : Bool) → Live → Option (Option ℕ × Live)
memory_pool_create none initialized live = none
memory_pool_create (some p) initialized live =
    if initialized then some (some p, mempool p ∷ block p ∷ live) else some (none, block p ∷ live)

unfoldable pub memory_pool_destroy : ℕ → Live → Option Live
memory_pool_destroy p live = bind (release (mempool p) live) (λ l. release (block p) l)

unfoldable pub memory_small_allocator_create :
    (own : Option ℕ) (initialized : Bool) → Live → Option (Option ℕ × Live)
memory_small_allocator_create none initialized live = none
memory_small_allocator_create (some a) initialized live =
    if initialized
    then some (some a, small_alloc a ∷ block a ∷ live)
    else some (none, block a ∷ live)

-- The block of the allocator is not freed.
unfoldable pub memory_small_allocator_destroy : ℕ → Live → Option Live
memory_small_allocator_destroy a live = release (small_alloc a) live

-- `struct memory_io_buffers`, less the memory that it is told of.
pub record IoBuffers : Type 0 where
  pub address : ℕ
  pub input_buffers : ℕ
  pub output_buffers : ℕ

-- The results for its own block, and for either pool.
pub record IoCalls : Type 0 where
  pub own : Option ℕ
  pub input : Option ℕ
  pub input_initialized : Bool
  pub output : Option ℕ
  pub output_initialized : Bool

abbrev without_block : ℕ → Live → Option (Option IoBuffers × Live)
without_block b live = bind (release (block b) live) (λ l. some (none, l))

unfoldable pub memory_io_buffers_create : IoCalls → Live → Option (Option IoBuffers × Live)
memory_io_buffers_create calls live = elim calls.own [
  | none ↦ some (none, live)
  | some b ↦ bind (memory_pool_create calls.input calls.input_initialized (block b ∷ live)) (λ r.
      elim r.0 [
        | none ↦ without_block b r.1
        | some input ↦ bind (memory_pool_create calls.output calls.output_initialized r.1) (λ q.
            elim q.0 [
              | none ↦ without_block b q.1
              | some output ↦ some (
                some (record { address = b; input_buffers = input; output_buffers = output }),
                q.1,
              )
            ])
      ])
]

unfoldable pub memory_io_buffers_destroy : IoBuffers → Live → Option Live
memory_io_buffers_destroy b live =
    bind (memory_pool_destroy b.input_buffers live)
      (λ l. bind (memory_pool_destroy b.output_buffers l) (λ k. release (block b.address) k))

-- `struct storage_factory`
pub record Factory : Type 0 where
  pub memory : ℕ
  pub storage_datas : ℕ

-- -ENOMEM
abbrev pub no_memory : ℤ
no_memory = negsuc 11

-- `datas` is where calloc puts the block of the allocator, if it does.
unfoldable pub storage_factory_initialize :
    (own : Option ℕ) (result : ℕ) (datas : Option ℕ) → Live → Option (ℤ × Option Factory × Live)
storage_factory_initialize own result datas live = bind (memory_create own result live) (λ r.
    elim r.0 [
      | none ↦ some (no_memory, none, r.1)
      | some m ↦ elim datas [
        | none ↦ some (no_memory, none, r.1)
        | some d ↦
            some (
              pos 0,
              some (record { memory = m; storage_datas = d }),
              small_alloc d ∷ block d ∷ r.1,
            )
      ]
    ])

unfoldable pub storage_factory_destroy : Factory → Live → Option Live
storage_factory_destroy f live =
    bind (release (small_alloc f.storage_datas) live)
      (λ l. bind (memory_destroy f.memory l) (λ k. release (block f.storage_datas) k))
