-- ===== src/Storage/Lifecycle.antt =====
-- storage/native/storage/storage.c, the start and the shutdown of the storage. What the calls of
-- pthread give is a parameter, 0 for success; other threads act while this one waits.
use feng_shui.Prelude.{
  ℕ, Bool, true, false, not, Option, none, some, List, [], ◌∷◌, ◌==◌, if◌then◌else◌,
}
use feng_shui.Uring.{Uring}
use feng_shui.Storage.{StorageExecutor, storage_executor_stop}

-- `struct storage_instance`: an error is its number, 0 for none. The text "STORAGE_LUA_ERROR" is a
-- number that no call gives.
pub record Instance : Type 0 where
  pub initialization_error : ℕ
  pub shutdown_error : ℕ
  pub initialized : Bool

-- ENOMEM of the C library
abbrev pub enomem : ℕ
enomem = 12

-- Calls in a row, up to the first that fails: what it gives, or 0.
abbrev pub first_failure : List ℕ → ℕ
first_failure [] = 0
first_failure (code ∷ codes) = if code == 0 then first_failure codes else code

-- The results of the calls of `storage_fiber`, in their order.
pub record FiberCalls : Type 0 where
  pub executor_initialize : ℕ
  pub lock : ℕ
  pub broadcast : ℕ
  pub unlock : ℕ

-- Whether it goes on to serve; else it has destroyed the executor.
unfoldable pub storage_fiber : FiberCalls → Instance → Bool × Instance
storage_fiber calls i =
    let failed = first_failure (calls.executor_initialize ∷ calls.lock ∷ []) in
    let failed' = first_failure (calls.broadcast ∷ calls.unlock ∷ []) in
    if not (failed == 0)
    then (false, record i { initialization_error = failed })
    else if not (failed' == 0)
    then (false, record i { initialized = false; initialization_error = failed' })
    else (true, record i { initialized = true })

-- A loop around `pthread_cond_timedwait`, as long as `more`: the result of each wait, and the instance
-- after it. `none` when the loop has not ended.
unfoldable pub wait_while :
    (more : Instance → Bool) → List (ℕ × Instance) → Instance → Option (ℕ × Instance)
wait_while more [] i = if more i then none else some (0, i)
wait_while more ((code, after) ∷ waits) i =
    let rest = wait_while more waits after in
    if more i then (if code == 0 then rest else some (code, after)) else some (0, i)

abbrev pub down_yet : Instance → Bool
down_yet i = not i.initialized

abbrev pub up_yet : Instance → Bool
up_yet i = i.initialized

abbrev pub wait_initialized : List (ℕ × Instance) → Instance → Option (ℕ × Instance)
wait_initialized = wait_while down_yet

abbrev pub wait_shut_down : List (ℕ × Instance) → Instance → Option (ℕ × Instance)
wait_shut_down = wait_while up_yet

-- The results of the calls of `storage_initialize`. `found` is the instance when the call that locks
-- returns: the thread may have acted before.
pub record InitializeCalls : Type 0 where
  pub granted : Bool
  pub create : ℕ
  pub lock : ℕ
  pub found : Instance
  pub waits : List (ℕ × Instance)
  pub unlock : ℕ
  pub condition_destroy : ℕ
  pub mutex_destroy : ℕ

abbrev pub failed_start : ℕ → Instance → Bool × Instance
failed_start code i = (false, record i { initialization_error = code })

-- What it gives once the wait is over.
abbrev pub started : InitializeCalls → ℕ × Instance → Bool × Instance
started calls (code, i) =
    let failed =
      first_failure (code ∷ calls.unlock ∷ calls.condition_destroy ∷ calls.mutex_destroy ∷ []) in
    if failed == 0 then (i.initialization_error == 0, i) else failed_start failed i

unfoldable pub storage_initialize : InitializeCalls → Instance → Option (Bool × Instance)
storage_initialize calls i =
    let fresh : Instance = record i { initialization_error = 0 } in
    if i.initialized
    then some (true, i)
    else if not calls.granted
    then some (failed_start enomem fresh)
    else if not (calls.create == 0)
    then some (failed_start calls.create fresh)
    else if not (calls.lock == 0)
    then some (failed_start calls.lock calls.found)
    else elim (wait_initialized calls.waits calls.found) [
      | none ↦ none
      | some r ↦ some (started calls r)
    ]

-- Those of `storage_shutdown`.
pub record ShutdownCalls : Type 0 where
  pub lock : ℕ
  pub found : Instance
  pub waits : List (ℕ × Instance)
  pub unlock : ℕ
  pub condition_destroy : ℕ
  pub mutex_destroy : ℕ

abbrev pub failed_shutdown : ℕ → Instance → Bool × Instance
failed_shutdown code i = (false, record i { shutdown_error = code })

abbrev pub shut_down : ShutdownCalls → ℕ × Instance → Bool × Instance
shut_down calls (code, i) =
    let failed =
      first_failure (code ∷ calls.unlock ∷ calls.condition_destroy ∷ calls.mutex_destroy ∷ []) in
    if failed == 0 then (true, i) else failed_shutdown failed i

module _ (uring : Uring) where
  open uring use {Ring}

  -- Behind the stop of the executor.
  abbrev pub shut_down_stopped : ShutdownCalls → Option (Bool × Instance)
  shut_down_stopped calls =
      if not (calls.lock == 0)
      then some (failed_shutdown calls.lock calls.found)
      else elim (wait_shut_down calls.waits calls.found) [
        | none ↦ none
        | some r ↦ some (shut_down calls r)
      ]

  -- `seen` are the rings that the stop of the executor finds while it waits. `none` when it has not
  -- ended.
  unfoldable pub storage_shutdown :
      (seen : List Ring)
      → StorageExecutor uring
      → ShutdownCalls
      → Instance
      → Option (Bool × Instance)
  storage_shutdown seen executor calls i =
      if not i.initialized
      then some (true, i)
      else elim (storage_executor_stop uring seen executor) [
        | none ↦ none
        | some stopped ↦ shut_down_stopped calls
      ]
