-- ===== src/Box/Lua.antt =====
-- The two handlers of box.c that run Lua. The values come as pieces of a buffer, which are copied
-- behind the header of an array into one block of memory.
use feng_shui.Prelude.{
  ℕ, ◌+◌, Option, none, some, List, [], ◌∷◌, ◌==◌, if◌then◌else◌, length, take, replicate, write,
  bind,
}
use feng_shui.Executor.{Task}
use feng_shui.Tarantool.{Tarantool, Dump}
use feng_shui.Box.{Errors, CallRequest, EvaluateRequest, storage_send_error}

-- `obuf_size`
abbrev pub obuf_size : List (List ℕ) → ℕ
obuf_size [] = 0
obuf_size (piece ∷ pieces) = length piece + obuf_size pieces

-- `memcpy` into a block, and where it ends.
unfoldable pub copy : List ℕ → ℕ → List ℕ → Option (List ℕ)
copy [] at block = some block
copy (b ∷ bytes) at block = bind (write block at b) (copy bytes (at + 1))

unfoldable pub copy_pieces : List (List ℕ) → ℕ → List ℕ → Option (List ℕ)
copy_pieces [] at block = some block
copy_pieces (piece ∷ pieces) at block =
    bind (copy piece at block) (copy_pieces pieces (at + length piece))

module _ (tarantool : Tarantool) where
  open tarantool use {mp_encode_array, mp_sizeof_array}

  abbrev pub size_of : Dump → ℕ
  size_of dump = obuf_size dump.pieces + mp_sizeof_array dump.values

  -- What is written to the block, which is fresh.
  unfoldable pub fill : Dump → Option (List ℕ)
  fill dump =
      let header = mp_encode_array dump.values in
      bind (copy header 0 (replicate (size_of dump) 0)) (copy_pieces dump.pieces (length header))

module _ (tarantool : Tarantool) (errors : Errors tarantool) where
  open tarantool use {State, box_lua_eval, box_lua_call, smalloc}

  -- The end of both: the task, the block it points to, and the state. Nothing is written for an error.
  abbrev pub hand_over : Task → Option Dump × State → Option (Task × List ℕ × State)
  hand_over task (result, s) = elim result [
    | none ↦ some (storage_send_error tarantool errors task s, [], s)
    | some dump ↦
        let (output, s') = smalloc (size_of tarantool dump) s in
        if output == 0
        then none
        else bind (fill tarantool dump) (λ (block : List ℕ).
          some (record task { output = output; output_size = size_of tarantool dump }, block, s'))
  ]

  unfoldable pub storage_evaluate : EvaluateRequest → Task → State → Option (Task × List ℕ × State)
  storage_evaluate request task s = hand_over task (
      box_lua_eval (take request.expression_length request.expression)
        (take request.input_size request.input) s)

  unfoldable pub storage_call : CallRequest → Task → State → Option (Task × List ℕ × State)
  storage_call request task s = hand_over task (
      box_lua_call (take request.function_length request.function)
        (take request.input_size request.input) s)
