-- ===== src/Memory/Leaks.antt =====
-- What lives after memory is created and destroyed.
use feng_shui.Prelude.{
  ℕ, ◌≡◌, ◌≢◌, ◌⊎◌, inl, inr, refl, arith, Bool, true, false, Option, none, some, ◌∷◌, eq→test,
  ne→test, ℕ_discrete,
}
use feng_shui.Prelude.Int.{ℤ, pos}
use feng_shui.Memory.Lifecycle.{
  block, arena, cache, mempool, small_alloc, Live, release, memory_create, memory_destroy,
  memory_pool_create, memory_pool_destroy, IoBuffers, IoCalls, memory_io_buffers_create,
  memory_small_allocator_create, memory_small_allocator_destroy, memory_io_buffers_destroy, Factory,
  no_memory, storage_factory_initialize, storage_factory_destroy,
}

-- The set-up of a factory ends with one that, destroyed, leaves what lived before; or it reports that
-- there is no memory, and then either nothing is left, or all of the memory that it had created.
pub data IsFactory (own : Option ℕ) (result : ℕ) (datas : Option ℕ) (live : Live)
    (out : Option (ℤ × Option Factory × Live)) : Type 0 where
  ready :
      (f : Factory) (l : Live)
      → out ≡ some (pos 0, some f, l)
      → storage_factory_destroy f l ≡ some live
      → IsFactory own result datas live out
  refused :
      (own ≡ none) ⊎ (result ≢ 0)
      → out ≡ some (no_memory, none, live)
      → IsFactory own result datas live out
  leaks :
      (m : ℕ)
      → own ≡ some m
      → datas ≡ none
      → out ≡ some (no_memory, none, cache m ∷ arena m ∷ block m ∷ live)
      → IsFactory own result datas live out

destroyed :
    (m d : ℕ) (live : Live)
    → storage_factory_destroy
        (record { memory = m; storage_datas = d })
        (small_alloc d ∷ block d ∷ cache m ∷ arena m ∷ block m ∷ live)
      ≡ some live
unfolding storage_factory_destroy memory_destroy release
destroyed m d live = ground arith

created :
    (m result : ℕ) (datas : Option ℕ) (live : Live)
    → result ≡ 0
    → IsFactory (some m) result datas live (storage_factory_initialize (some m) result datas live)
unfolding storage_factory_initialize memory_create
created m result none live ok =
    rw (eq→test result 0 ok, storage_factory_initialize, memory_create) (leaks m refl refl refl)
created m result (some d) live ok =
    rw (eq→test result 0 ok, storage_factory_initialize, memory_create)
      (ready (record { memory = m; storage_datas = d }) _ refl (destroyed m d live))

-- However calloc and the library small answer, `storage_factory_initialize` runs no undefined
-- behaviour. It gives 0 and a factory that, destroyed, leaves exactly what lived before; or it
-- reports that there is no memory. Then the memory could not be created, and nothing is left of it;
-- or there was no block for the allocator, and the memory that was created is never freed.
pub factory-IsFactory :
    (own : Option ℕ) (result : ℕ) (datas : Option ℕ) (live : Live)
    → IsFactory own result datas live (storage_factory_initialize own result datas live)
unfolding storage_factory_initialize memory_create release
factory-IsFactory none result datas live = refused (inl refl) refl
factory-IsFactory (some m) result datas live = elim (ℕ_discrete result 0) [
  | yes ok ↦ created m result datas live ok
  | no failed ↦
      rw
        (
          ne→test result 0 failed,
          eq→test m m refl,
          storage_factory_initialize,
          memory_create,
          release,
        )
        (refused (inr failed) refl)
]

-- The same of the buffers for input and output, of which each pool is created on its own.
pub data Settles (calls : IoCalls) (live : Live) (out : Option (Option IoBuffers × Live))
    : Type 0 where
  given :
      (b : IoBuffers) (l : Live)
      → out ≡ some (some b, l)
      → memory_io_buffers_destroy b l ≡ some live
      → Settles calls live out
  no_block : calls.own ≡ none → out ≡ some (none, live) → Settles calls live out
  no_input :
      (p : ℕ)
      → calls.input ≡ some p
      → calls.input_initialized ≡ false
      → out ≡ some (none, block p ∷ live)
      → Settles calls live out
  no_output :
      (p q : ℕ)
      → calls.input ≡ some p
      → calls.output ≡ some q
      → calls.output_initialized ≡ false
      → out ≡ some (none, block q ∷ mempool p ∷ block p ∷ live)
      → Settles calls live out
  null_pool : (calls.input ≡ none) ⊎ (calls.output ≡ none) → out ≡ none → Settles calls live out

buffers_destroyed :
    (b p q : ℕ) (live : Live)
    → memory_io_buffers_destroy
        (record { address = b; input_buffers = p; output_buffers = q })
        (mempool q ∷ block q ∷ mempool p ∷ block p ∷ block b ∷ live)
      ≡ some live
unfolding memory_io_buffers_destroy memory_pool_destroy release
buffers_destroyed b p q live = ground arith

-- calloc never gives a block that is still in use.
abbrev pub IsApart : Option ℕ → Option ℕ → Type 0
IsApart (some b) (some q) = b ≢ q
IsApart (some b) none = Unit
IsApart none q = Unit

buffers_created :
    (own input output : Option ℕ) (in_up out_up : Bool) (live : Live)
    → IsApart own output
    → let calls : IoCalls = record {
      own = own;
      input = input;
      input_initialized = in_up;
      output = output;
      output_initialized = out_up;
    } in
      Settles calls live (memory_io_buffers_create calls live)
unfolding memory_io_buffers_create memory_pool_create release
buffers_created none input output in_up out_up live apart = no_block refl refl
buffers_created (some b) none output in_up out_up live apart = null_pool (inl refl) refl
buffers_created (some b) (some p) output false out_up live apart =
    no_input p refl refl (ground arith)
buffers_created (some b) (some p) none true out_up live apart = null_pool (inr refl) refl
buffers_created (some b) (some p) (some q) true false live apart =
    no_output p q refl refl refl (ground arith)
buffers_created (some b) (some p) (some q) true true live apart =
    given (record { address = b; input_buffers = p; output_buffers = q }) _ refl
      (buffers_destroyed b p q live)

-- When the blocks of the buffers and of the second pool differ, `memory_io_buffers_create` gives buffers that, destroyed, leave exactly what lived before; or NULL,
-- when it gets no block, and then nothing is left, or when a pool is not initialized. Then the block
-- of that pool is never freed, nor, where it is the second, the first pool. Only when there is no
-- block for a pool it writes to NULL.
pub memory_io_buffers_create-Settles :
    (calls : IoCalls) (live : Live)
    → IsApart calls.own calls.output
    → Settles calls live (memory_io_buffers_create calls live)
memory_io_buffers_create-Settles calls live apart =
    buffers_created calls.own calls.input calls.output calls.input_initialized
      calls.output_initialized live apart

-- A small allocator that is created and destroyed leaves its block behind.
pub small_allocator_leaks :
    (a : ℕ) (live : Live)
    → (l : Live) × (memory_small_allocator_create (some a) true live ≡ some (some a, l))
      × (memory_small_allocator_destroy a l ≡ some (block a ∷ live))
unfolding memory_small_allocator_create memory_small_allocator_destroy release
small_allocator_leaks a live = (small_alloc a ∷ block a ∷ live, refl, ground arith)
