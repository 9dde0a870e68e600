-- ===== src/Memory/Mirrors.antt =====
-- The fields of an input buffer that Dart reads follow the buffer below.
use feng_shui.Prelude.{
  ℕ, ◌+◌, ◌≤◌, ◌≡◌, ◌≢◌, inl, inr, refl, Option-cases, Option, none, some, ne→test,
}
use feng_shui.Memory.{
  Small, InputBuffer, mirrored, memory_input_buffer_reserve, memory_input_buffer_finalize,
}

module _ (small : Small) where
  open small use {
    Ibuf, ibuf_used, ibuf_unused, start_capacity, ibuf_reserve, ibuf_alloc, ibuf_used-ibuf_reserve,
    ibuf_used-ibuf_alloc,
  }

  abbrev pub IsMirror : InputBuffer small → Type 0
  IsMirror b = b ≡ mirrored small b.buffer

  -- What a reserve of some bytes gives: room for them behind what is used; or it clears NULL.
  pub data IsReserve (b : InputBuffer small) (size : ℕ)
      : Option (Option ℕ × InputBuffer small) → Type 0 where
    reserved :
        (address : ℕ) (after : InputBuffer small)
        → IsMirror after
        → after.used ≡ ibuf_used b.buffer
        → size ≤ after.unused
        → IsReserve b size (some (some address, after))
    cleared_null : ibuf_reserve b.buffer size ≡ none → IsReserve b size none

  pub memory_input_buffer_reserve-IsReserve :
      (b : InputBuffer small) (size : ℕ)
      → size ≢ 0
      → IsReserve b size (memory_input_buffer_reserve small b size)
  unfolding memory_input_buffer_reserve
  memory_input_buffer_reserve-IsReserve b size h =
      elim (Option-cases (ibuf_reserve b.buffer size)) [
        | inl null ↦
            rw (ne→test size 0 h, null, memory_input_buffer_reserve, ne→test size 0 h)
              (cleared_null null)
        | inr ((address, buffer), there) ↦
            let (same, room) = ibuf_used-ibuf_reserve b.buffer size address buffer there in
            rw (ne→test size 0 h, there, memory_input_buffer_reserve)
              (reserved address (mirrored small buffer) refl same room)
      ]

  -- A finalize makes as many bytes used as it is given; or nothing changes.
  pub data IsFinalize (b : InputBuffer small) (size : ℕ)
      : Option ℕ × InputBuffer small → Type 0 where
    finalized :
        (address : ℕ) (after : InputBuffer small)
        → IsMirror after
        → after.used ≡ ibuf_used b.buffer + size
        → IsFinalize b size (some address, after)
    refused : ibuf_alloc b.buffer size ≡ none → IsFinalize b size (none, b)

  pub memory_input_buffer_finalize-IsFinalize :
      (b : InputBuffer small) (size : ℕ)
      → IsFinalize b size (memory_input_buffer_finalize small b size)
  unfolding memory_input_buffer_finalize
  memory_input_buffer_finalize-IsFinalize b size = elim (Option-cases (ibuf_alloc b.buffer size)) [
    | inl null ↦ rw (null, memory_input_buffer_finalize) (refused null)
    | inr ((address, buffer), there) ↦
        rw (there, memory_input_buffer_finalize)
          (finalized address (mirrored small buffer) refl
            (ibuf_used-ibuf_alloc b.buffer size address buffer there))
  ]
