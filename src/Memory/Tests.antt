-- ===== src/Memory/Tests.antt =====
-- Memory for a factory at 100 and 200, and buffers of which the second pool is not initialized.
use feng_shui.Prelude.{◌≡◌, refl, arith, true, false, none, some, [], ◌∷◌}
use feng_shui.Prelude.Int.{pos}
use feng_shui.Memory.Lifecycle.{
  block, arena, cache, mempool, small_alloc, Live, release, memory_create, memory_pool_create,
  IoCalls, memory_io_buffers_create, storage_factory_initialize,
}
use feng_shui.Memory.Leaks.{IsFactory, factory-IsFactory, Settles, memory_io_buffers_create-Settles}

abbrev before : Live
before = block 7 ∷ []

factory_there :
    storage_factory_initialize (some 100) 0 (some 200) before
    ≡ some (
      pos 0,
      some (record { memory = 100; storage_datas = 200 }),
      small_alloc 200 ∷ block 200 ∷ cache 100 ∷ arena 100 ∷ block 100 ∷ before,
    )
unfolding storage_factory_initialize memory_create
factory_there = refl

factory-IsFactory_example :
    IsFactory
      (some 100)
      0
      (some 200)
      before
      (storage_factory_initialize (some 100) 0 (some 200) before)
factory-IsFactory_example = factory-IsFactory (some 100) 0 (some 200) before

abbrev half : IoCalls
half = record {
  own = some 10;
  input = some 11;
  input_initialized = true;
  output = some 12;
  output_initialized = false;
}

half_leaks :
    memory_io_buffers_create half before ≡ some (none, block 12 ∷ mempool 11 ∷ block 11 ∷ before)
unfolding memory_io_buffers_create memory_pool_create release
half_leaks = refl

memory_io_buffers_create-Settles_example :
    Settles half before (memory_io_buffers_create half before)
memory_io_buffers_create-Settles_example =
    memory_io_buffers_create-Settles half before (omega arith)
