-- ===== src/Box/Replies.antt =====
-- What a script answers lies in its block from end to end.
use feng_shui.Prelude.{
  ℕ, suc, ◌+◌, ◌≤◌, ◌≡◌, ◌≢◌, refl, sym, ap, ◌∙◌, arith, Option, none, some, List, [], ◌∷◌, ◌++◌,
  ne→test, ℕ_discrete, length, length-append, take, set, replicate, write-some, bind, take-set_end,
  take-all, length-set, length-replicate,
}
use mathlib.Core.List.{append_assoc, append-nil}
use feng_shui.Tarantool.{Tarantool, Dump}
use feng_shui.Executor.{Task}
use feng_shui.Box.{Errors, CallRequest, EvaluateRequest, output_event, storage_send_error}
use feng_shui.Box.Lua.{
  obuf_size, copy, copy_pieces, fill, size_of, hand_over, storage_evaluate, storage_call,
}
use feng_shui.Box.Atomic.{send_error-flags}

-- The bytes of the pieces, one after another.
abbrev pub joined : List (List ℕ) → List ℕ
joined [] = []
joined (piece ∷ pieces) = piece ++ joined pieces

length-joined : (pieces : List (List ℕ)) → length (joined pieces) ≡ obuf_size pieces
length-joined [] = refl
length-joined (piece ∷ pieces) =
    omega (arith, length-append {0} piece (joined pieces), length-joined pieces)

-- A copy that fits extends what the block holds.
abbrev Extended : List ℕ → ℕ → List ℕ → Option (List ℕ) → Type 0
Extended bytes at block out =
    (done : List ℕ) × (out ≡ some done)
    × (length done ≡ length block)
    × (take (at + length bytes) done ≡ take at block ++ bytes)

copy-Extended :
    (bytes : List ℕ) (at : ℕ) (block : List ℕ)
    → at + length bytes ≤ length block
    → Extended bytes at block (copy bytes at block)
unfolding copy
copy-Extended [] at block h = (
  block,
  refl,
  refl,
  ap (λ (n : ℕ). take n block) (omega arith) ∙ sym (append-nil (take at block)),
)
copy-Extended (b ∷ bytes) at block h =
    let (done, ran, size, held) =
      copy-Extended bytes (at + 1) (set block at b) (omega (arith, length-set {0} block at b, h)) in
    (
      done,
      rw (write-some {0} block at b (omega (arith, h)), copy) ran,
      omega (arith, size, length-set {0} block at b),
      ap (λ (n : ℕ). take n done) (omega arith)
          ∙ held
          ∙ ap (λ (n : ℕ). take n (set block at b) ++ bytes) {y = suc at} (omega arith)
          ∙ ap (λ (xs : List ℕ). xs ++ bytes) (take-set_end at block b (omega (arith, h)))
          ∙ append_assoc (take at block) (b ∷ []) bytes,
    )

copy_pieces-Extended :
    (pieces : List (List ℕ)) (at : ℕ) (block : List ℕ)
    → at + obuf_size pieces ≤ length block
    → (done : List ℕ) × (copy_pieces pieces at block ≡ some done)
      × (length done ≡ length block)
      × (take (at + obuf_size pieces) done ≡ take at block ++ joined pieces)
unfolding copy_pieces
copy_pieces-Extended [] at block h = (
  block,
  refl,
  refl,
  ap (λ (n : ℕ). take n block) (omega arith) ∙ sym (append-nil (take at block)),
)
copy_pieces-Extended (piece ∷ pieces) at block h =
    let (front, first, size, held) = copy-Extended piece at block (omega (arith, h)) in
    let (done, rest, size', held') =
      copy_pieces-Extended pieces (at + length piece) front (omega (arith, h, size)) in
    (
      done,
      rw (first) rest,
      size' ∙ size,
      ap (λ (n : ℕ). take n done) (omega arith)
          ∙ held'
          ∙ ap (λ (xs : List ℕ). xs ++ joined pieces) held
          ∙ append_assoc (take at block) piece (joined pieces),
    )

-- A header and the pieces behind it fill a block of their length.
copy_all :
    (header : List ℕ) (pieces : List (List ℕ)) (block : List ℕ)
    → length block ≡ length header + obuf_size pieces
    → bind (copy header 0 block) (copy_pieces pieces (length header))
      ≡ some (header ++ joined pieces)
copy_all header pieces block fits =
    let (front, first, size, held) = copy-Extended header 0 block (omega (arith, fits)) in
    let (done, rest, size', held') =
      copy_pieces-Extended pieces (length header) front (omega (arith, fits, size)) in
    rw (first) (
      rest
      ∙ ap some (
          sym (take-all (length header + obuf_size pieces) done (omega (arith, fits, size, size')))
          ∙ held'
          ∙ ap (λ (n : ℕ). take n front ++ joined pieces) {x = length header}
              {y = 0 + length header} (omega arith)
          ∙ ap (λ (xs : List ℕ). xs ++ joined pieces) held))

-- The requests that run Lua.
pub data Script : Type 0 where
  evaluate : EvaluateRequest → Script
  invoke : CallRequest → Script

module _ (tarantool : Tarantool) (errors : Errors tarantool) where
  open tarantool use {
    State, box_lua_eval, box_lua_call, smalloc, mp_encode_array, mp_sizeof_array,
    length-mp_encode_array,
  }

  abbrev pub run_script : Script → Task → State → Option (Task × List ℕ × State)
  run_script (evaluate r) = storage_evaluate tarantool errors r
  run_script (invoke r) = storage_call tarantool errors r

  abbrev pub outcome : Script → State → Option Dump × State
  outcome (evaluate r) =
      box_lua_eval (take r.expression_length r.expression) (take r.input_size r.input)
  outcome (invoke r) = box_lua_call (take r.function_length r.function) (take r.input_size r.input)

  -- The header of an array, and the bytes of its values behind it.
  abbrev pub packed : Dump → List ℕ
  packed dump = mp_encode_array dump.values ++ joined dump.pieces

  fill-packed : (dump : Dump) → fill tarantool dump ≡ some (packed dump)
  unfolding fill
  fill-packed dump =
      copy_all (mp_encode_array dump.values) dump.pieces (replicate (size_of tarantool dump) 0) (
        length-replicate {0} {A = ℕ} (size_of tarantool dump) 0
        ∙ omega (arith, length-mp_encode_array dump.values))

  -- What a script leads to, by what Lua and the allocation gave.
  pub data IsReply (task : Task)
      : Option Dump → (address : ℕ) → Option (Task × List ℕ × State) → Type 0 where
    replied :
        (dump : Dump) (address size : ℕ) (s : State)
        → address ≢ 0
        → size ≡ length (packed dump)
        → IsReply task
            (some dump)
            address
            (some (record task { output = address; output_size = size }, packed dump, s))
    refused :
        (address : ℕ) (s : State) (t : Task)
        → t.flags ≡ output_event
        → IsReply task none address (some (t, [], s))
    no_memory : (dump : Dump) → IsReply task (some dump) 0 none

  abbrev memory : Option Dump × State → ℕ
  memory (none, s) = 0
  memory (some dump, s) = (smalloc (size_of tarantool dump) s).0

  length-packed : (dump : Dump) → size_of tarantool dump ≡ length (packed dump)
  length-packed dump = omega (
    arith,
    length-append {0} (mp_encode_array dump.values) (joined dump.pieces),
    length-joined dump.pieces,
    length-mp_encode_array dump.values,
  )

  hand_over-IsReply :
      (task : Task) (result : Option Dump × State)
      → IsReply task result.0 (memory result) (hand_over tarantool errors task result)
  hand_over-IsReply task (none, s) =
      refused 0 s (storage_send_error tarantool errors task s)
        (send_error-flags tarantool errors task s)
  hand_over-IsReply task (some dump, s) =
      elim (ℕ_discrete (smalloc (size_of tarantool dump) s).0 0) [
        | yes null ↦ rw (null) (no_memory dump)
        | no given ↦
            let address = (smalloc (size_of tarantool dump) s).0 in
            rw (ne→test address 0 given, fill-packed dump)
              (replied dump address (size_of tarantool dump) (smalloc (size_of tarantool dump) s).1
                given (length-packed dump))
      ]

  -- A script whose Lua code fails is answered with an error. One that succeeds, when memory is
  -- granted, is answered with a block that holds the header of an array and behind it the bytes of
  -- the values, and whose size the task gets; no byte is written outside it. Without memory, the
  -- code writes to NULL.
  pub run_script-IsReply :
      (script : Script) (task : Task) (s : State)
      → IsReply task (outcome script s).0 (memory (outcome script s)) (run_script script task s)
  unfolding storage_evaluate storage_call
  run_script-IsReply (evaluate r) task s = hand_over-IsReply task (outcome (evaluate r) s)
  run_script-IsReply (invoke r) task s = hand_over-IsReply task (outcome (invoke r) s)
