-- ===== src/Transport/Tags.antt =====
-- The user data of a request: what is packed comes out again, so operations on different
-- descriptors, buffers or events have different keys in the table.
use feng_shui.Prelude.{ℕ, ◌+◌, ◌*◌, ◌^◌, ◌<◌, ◌≡◌, ap, ◌∙◌, arith, bit_and, low_mask, ◌<<<◌, ◌>>>◌}
use feng_shui.Prelude.Bits.{bit_or-disjoint, bit_and-low}
use feng_shui.Transport.{tag, parts_of_tag}

packed : ℕ → ℕ → ℕ → ℕ
packed fd buffer event = fd * 2 ^ 32 + (buffer * 2 ^ 16 + event)

tag-packed :
    (fd buffer event : ℕ)
    → fd < 2 ^ 32
    → buffer < 2 ^ 16
    → event < 2 ^ 16
    → tag fd buffer event ≡ packed fd buffer event
unfolding tag packed
tag-packed fd buffer event f b e =
    rw (shift32, shift16, bit_or-disjoint 32 fd (buffer * 2 ^ 16) (omega arith), regroup)
      (bit_or-disjoint 16 (fd * 2 ^ 16 + buffer) event e ∙ omega arith)
  where
    shift32 : fd <<< 32 ≡ fd * 2 ^ 32
    shift32 = omega arith

    shift16 : buffer <<< 16 ≡ buffer * 2 ^ 16
    shift16 = omega arith

    regroup : fd * 2 ^ 32 + buffer * 2 ^ 16 ≡ (fd * 2 ^ 16 + buffer) * 2 ^ 16
    regroup = omega arith

field : (k high low n : ℕ) → n ≡ high * 2 ^ k + low → low < 2 ^ k → bit_and n (low_mask k) ≡ low
field k high low n h small = ap (λ (x : ℕ). bit_and x (low_mask k)) h ∙ bit_and-low k high low small

parts-packed :
    (fd buffer event : ℕ)
    → fd < 2 ^ 32
    → buffer < 2 ^ 16
    → event < 2 ^ 16
    → parts_of_tag (packed fd buffer event) ≡ (event, fd, buffer)
unfolding packed parts_of_tag
parts-packed fd buffer event f b e = rw (
  field 16 (fd * 2 ^ 16 + buffer) event (packed fd buffer event) (omega arith) e,
  field 32 0 fd (packed fd buffer event >>> 32) (omega arith) f,
  field 16 fd buffer (packed fd buffer event >>> 16) (omega arith) b,
)

-- What is packed into the user data of a request comes out of it: the event, the descriptor and the
-- buffer, each within the bits of its type.
parts_of_tag-tag :
    (fd buffer event : ℕ)
    → fd < 2 ^ 32
    → buffer < 2 ^ 16
    → event < 2 ^ 16
    → parts_of_tag (tag fd buffer event) ≡ (event, fd, buffer)
parts_of_tag-tag fd buffer event f b e =
    ap parts_of_tag (tag-packed fd buffer event f b e) ∙ parts-packed fd buffer event f b e
