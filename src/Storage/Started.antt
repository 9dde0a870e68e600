-- ===== src/Storage/Started.antt =====
-- What callers learn from the start and the shutdown of the storage.
use feng_shui.Prelude.{
  ℕ, zero, suc, ◌≡◌, ◌≢◌, refl, ap, Bool, true, false, not, Option, none, some, List, [], ◌∷◌, ◌==◌,
  if◌then◌else◌, ne→test, eq→test, ℕ_discrete,
}
use feng_shui.Prelude.Waits.{CameAt, FailsAt, LastsFor}
use feng_shui.Uring.{Uring}
use feng_shui.Storage.{StorageExecutor, storage_executor_stop}
use feng_shui.Storage.Lifecycle.{
  Instance, first_failure, wait_initialized, wait_shut_down, InitializeCalls, storage_initialize,
  ShutdownCalls, storage_shutdown, started, shut_down, failed_start, failed_shutdown, enomem,
  down_yet, up_yet, shut_down_stopped,
}
use feng_shui.Storage.Waiting.{Waited, came, broke, lasts, wait_while-Waited}

-- The first failure of the calls behind the wait.
abbrev pub start_closed : InitializeCalls → ℕ
start_closed calls =
    first_failure (calls.unlock ∷ calls.condition_destroy ∷ calls.mutex_destroy ∷ [])

abbrev pub shutdown_closed : ShutdownCalls → ℕ
shutdown_closed calls =
    first_failure (calls.unlock ∷ calls.condition_destroy ∷ calls.mutex_destroy ∷ [])

-- How a start ends.
pub data IsStart (calls : InitializeCalls) (i : Instance) (e : Option (Bool × Instance))
    : Type 0 where
  was_up : i.initialized ≡ true → e ≡ some (true, i) → IsStart calls i e
  no_memory : calls.granted ≡ false → e ≡ some (failed_start enomem i) → IsStart calls i e
  no_thread : calls.create ≢ 0 → e ≡ some (failed_start calls.create i) → IsStart calls i e
  not_locked : calls.lock ≢ 0 → e ≡ some (failed_start calls.lock calls.found) → IsStart calls i e
  wait_failed :
      (n code : ℕ) (t : Instance)
      → FailsAt down_yet calls.found calls.waits n code t
      → e ≡ some (failed_start code t)
      → IsStart calls i e
  came_up :
      (n : ℕ) (t : Instance)
      → CameAt down_yet calls.found calls.waits n t
      → start_closed calls ≡ 0
      → e ≡ some (t.initialization_error == 0, t)
      → IsStart calls i e
  not_closed :
      (n : ℕ) (t : Instance)
      → CameAt down_yet calls.found calls.waits n t
      → start_closed calls ≢ 0
      → e ≡ some (failed_start (start_closed calls) t)
      → IsStart calls i e
  still_waits : LastsFor down_yet calls.found calls.waits → e ≡ none → IsStart calls i e

closed_start :
    (calls : InitializeCalls) (i : Instance) (n : ℕ) (t : Instance)
    → CameAt down_yet calls.found calls.waits n t
    → IsStart calls i (some (started calls (0, t)))
closed_start calls i n t at = elim (ℕ_discrete (start_closed calls) 0) [
  | yes ok ↦ came_up n t at ok (rw (eq→test (start_closed calls) 0 ok) refl)
  | no failed ↦ not_closed n t at failed (rw (ne→test (start_closed calls) 0 failed) refl)
]

failed_wait :
    (calls : InitializeCalls) (code : ℕ) (t : Instance)
    → code ≢ 0
    → started calls (code, t) ≡ failed_start code t
failed_wait calls code t failed = rw (ne→test code 0 failed) (rw (ne→test code 0 failed) refl)

FailsAt-ne :
    (more : Instance → Bool) (s : Instance) (waits : List (ℕ × Instance)) (n code : ℕ)
    (t : Instance)
    → FailsAt more s waits n code t
    → code ≢ 0
FailsAt-ne more s [] n code t at = absurd at
FailsAt-ne more s ((c, after) ∷ waits) zero code t (m, same, failed, e) = failed
FailsAt-ne more s ((c, after) ∷ waits) (suc n) code t (m, ok, at) =
    FailsAt-ne more after waits n code t at

waited_start :
    (calls : InitializeCalls) (i : Instance) (r : Option (ℕ × Instance))
    → Waited down_yet calls.found calls.waits r
    → IsStart calls i (elim r [ none ↦ none | some x ↦ some (started calls x) ])
waited_start calls i r (came n t at e) = rw e (closed_start calls i n t at)
waited_start calls i r (broke n code t at e) = rw e (
    wait_failed n code t at (
      ap some (failed_wait calls code t (FailsAt-ne down_yet calls.found calls.waits n code t at))))
waited_start calls i r (lasts fine e) = rw e (still_waits fine refl)

-- The branches in front of the wait, on the values that they test.
begun :
    (calls : InitializeCalls) (i : Instance) (up granted : Bool) (rest : Option (Bool × Instance))
    → i.initialized ≡ up
    → calls.granted ≡ granted
    → IsStart calls i rest
    → IsStart calls i (
        if up
        then some (true, i)
        else if not granted
        then some (failed_start enomem i)
        else if not (calls.create == 0)
        then some (failed_start calls.create i)
        else if not (calls.lock == 0)
        then some (failed_start calls.lock calls.found)
        else rest)
begun calls i true granted rest e f w = was_up e refl
begun calls i false false rest e f w = no_memory f refl
begun calls i false true rest e f w = elim (ℕ_discrete calls.create 0) [
  | no failed ↦ rw (ne→test calls.create 0 failed) (no_thread failed refl)
  | yes made ↦ rw (eq→test calls.create 0 made) (elim (ℕ_discrete calls.lock 0) [
    | no failed ↦ rw (ne→test calls.lock 0 failed) (not_locked failed refl)
    | yes locked ↦ rw (eq→test calls.lock 0 locked) w
  ])
]

pub storage_initialize-IsStart :
    (calls : InitializeCalls) (i : Instance) → IsStart calls i (storage_initialize calls i)
unfolding storage_initialize
storage_initialize-IsStart calls i = begun calls i i.initialized calls.granted _ refl refl (
    waited_start calls i (wait_initialized calls.waits calls.found)
      (wait_while-Waited down_yet calls.waits calls.found))

module _ (uring : Uring) where
  open uring use {Ring}

  -- How a shutdown ends.
  pub data IsShutdown (seen : List Ring) (executor : StorageExecutor uring) (calls : ShutdownCalls)
      (i : Instance) (e : Option (Bool × Instance)) : Type 0 where
    was_down : i.initialized ≡ false → e ≡ some (true, i) → IsShutdown seen executor calls i e
    not_stopped :
        storage_executor_stop uring seen executor ≡ none
        → e ≡ none
        → IsShutdown seen executor calls i e
    not_locked :
        calls.lock ≢ 0
        → e ≡ some (failed_shutdown calls.lock calls.found)
        → IsShutdown seen executor calls i e
    wait_failed :
        (n code : ℕ) (t : Instance)
        → FailsAt up_yet calls.found calls.waits n code t
        → e ≡ some (failed_shutdown code t)
        → IsShutdown seen executor calls i e
    went_down :
        (n : ℕ) (t : Instance)
        → CameAt up_yet calls.found calls.waits n t
        → shutdown_closed calls ≡ 0
        → e ≡ some (true, t)
        → IsShutdown seen executor calls i e
    not_closed :
        (n : ℕ) (t : Instance)
        → CameAt up_yet calls.found calls.waits n t
        → shutdown_closed calls ≢ 0
        → e ≡ some (failed_shutdown (shutdown_closed calls) t)
        → IsShutdown seen executor calls i e
    still_waits :
        LastsFor up_yet calls.found calls.waits → e ≡ none → IsShutdown seen executor calls i e

  module _ (seen : List Ring) (executor : StorageExecutor uring) (calls : ShutdownCalls)
      (i : Instance) where
    closed_shutdown :
        (n : ℕ) (t : Instance)
        → CameAt up_yet calls.found calls.waits n t
        → IsShutdown seen executor calls i (some (shut_down calls (0, t)))
    closed_shutdown n t at = elim (ℕ_discrete (shutdown_closed calls) 0) [
      | yes ok ↦ went_down n t at ok (rw (eq→test (shutdown_closed calls) 0 ok) refl)
      | no failed ↦ not_closed n t at failed (rw (ne→test (shutdown_closed calls) 0 failed) refl)
    ]

    failed_down :
        (code : ℕ) (t : Instance) → code ≢ 0 → shut_down calls (code, t) ≡ failed_shutdown code t
    failed_down code t failed = rw (ne→test code 0 failed) (rw (ne→test code 0 failed) refl)

    waited_shutdown :
        (r : Option (ℕ × Instance))
        → Waited up_yet calls.found calls.waits r
        → IsShutdown seen executor calls i
            (elim r [ none ↦ none | some x ↦ some (shut_down calls x) ])
    waited_shutdown r (came n t at e) = rw e (closed_shutdown n t at)
    waited_shutdown r (broke n code t at e) = rw e (
        wait_failed n code t at
          (ap some (failed_down code t (FailsAt-ne up_yet calls.found calls.waits n code t at))))
    waited_shutdown r (lasts fine e) = rw e (still_waits fine refl)

    stopped-IsShutdown : IsShutdown seen executor calls i (shut_down_stopped uring calls)
    stopped-IsShutdown = elim (ℕ_discrete calls.lock 0) [
      | no failed ↦ rw (ne→test calls.lock 0 failed) (not_locked failed refl)
      | yes locked ↦ rw (eq→test calls.lock 0 locked) (
          waited_shutdown (wait_shut_down calls.waits calls.found)
            (wait_while-Waited up_yet calls.waits calls.found))
    ]

    from_stop :
        (up : Bool) (stopped : Option (StorageExecutor uring))
        → i.initialized ≡ up
        → storage_executor_stop uring seen executor ≡ stopped
        → IsShutdown seen executor calls i (
            if not up
            then some (true, i)
            else elim stopped [ none ↦ none | some after ↦ shut_down_stopped uring calls ])
    from_stop false stopped e f = was_down e refl
    from_stop true none e f = not_stopped f refl
    from_stop true (some after) e f = stopped-IsShutdown

    storage_shutdown-IsShutdown :
        IsShutdown seen executor calls i (storage_shutdown uring seen executor calls i)
    unfolding storage_shutdown
    storage_shutdown-IsShutdown =
        from_stop i.initialized (storage_executor_stop uring seen executor) refl refl

  -- `storage_initialize` gives true only for a storage that was initialized before, or that it finds
  -- initialized, with no error, when all calls behind the wait succeed; it gives false only without
  -- memory, with the error of the call that failed, be it the first wait that did, or with an error
  -- that the thread has left. `storage_shutdown` gives true only for a storage that was not
  -- initialized before, or that it finds so, when all calls behind the wait succeed; it gives false
  -- only with the error of the call that failed. Before each wait the storage is found not yet up, or
  -- not yet down. A start that has not ended is in its wait, and all waits so far succeeded; a
  -- shutdown that has not ended is there too, or waits for an entry to stop the executor.
  pub lifecycle_reports :
      (start : InitializeCalls) (stop : ShutdownCalls) (seen : List Ring)
      (executor : StorageExecutor uring) (i j : Instance)
      → IsStart start i (storage_initialize start i)
        × IsShutdown seen executor stop j (storage_shutdown uring seen executor stop j)
  lifecycle_reports start stop seen executor i j =
      (storage_initialize-IsStart start i, storage_shutdown-IsShutdown seen executor stop j)
