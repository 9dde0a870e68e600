-- ===== src/Scheduler/Starting.antt =====
-- executor/native/scheduler/scheduler.c, the start of the thread and the whole of the shutdown: the
-- calls of pthread, in the order in which they are made. What a call gives is a parameter, 0 for
-- success; the other thread acts while this one waits.
use feng_shui.Prelude.{
  ℕ, zero, suc, Bool, true, false, not, Option, none, some, List, [], ◌∷◌, ◌++◌, ◌==◌,
  if◌then◌else◌,
}
use feng_shui.Prelude.Int.{ℤ, pos, negsuc}
use feng_shui.Uring.{Uring}
use feng_shui.Scheduler.{Scheduler, Instance, request_shutdown}

-- A call on the mutex or the condition of the start, or of the shutdown.
pub data PthreadCall : Type 0 where
  lock : PthreadCall
  unlock : PthreadCall
  wait : PthreadCall
  broadcast : PthreadCall
  condition_destroy : PthreadCall
  mutex_destroy : PthreadCall

-- What has been done, and how far it came. A panic ends the process.
pub data Ended {ℓ} (A : Type ℓ) : Type ℓ where
  returned : List PthreadCall → A → Ended A
  panicked : List PthreadCall → Ended A
  waiting : List PthreadCall → Ended A

-- The results of the calls behind a wait.
pub record ClosingCalls : Type 0 where
  pub unlocking : ℕ
  pub destroying_condition : ℕ
  pub destroying_mutex : ℕ

module _ {ℓ} {A : Type ℓ} where
  abbrev pub did : List PthreadCall → Ended A → Ended A
  did before (returned actions a) = returned (before ++ actions) a
  did before (panicked actions) = panicked (before ++ actions)
  did before (waiting actions) = waiting (before ++ actions)

  -- `executor_module_check_code`
  abbrev pub check_code : ℕ → PthreadCall → Ended A → Ended A
  check_code code action rest = if code == 0 then did (action ∷ []) rest else panicked (action ∷ [])

  -- A loop around `pthread_cond_timedwait`: the result of each wait, and the state after it.
  unfoldable pub await {κ} :
      {S : Type κ} → (S → Bool) → (S → Ended A) → (ℕ → S → Ended A) → List (ℕ × S) → S → Ended A
  await more over failed [] s = if more s then waiting [] else over s
  await more over failed ((code, after) ∷ waits) s =
      let rest = await more over failed waits after in
      if more s then did (wait ∷ []) (if code == 0 then rest else failed code after) else over s

  abbrev pub closing : ClosingCalls → A → Ended A
  closing calls a = check_code calls.unlocking unlock (
      check_code calls.destroying_condition condition_destroy
        (check_code calls.destroying_mutex mutex_destroy (returned [] a)))

-- The fields of `struct executor_scheduler` that the start writes: an error is the number given to
-- `strerror`. A pointer to it that is not given to the caller is lost.
pub record Status : Type 0 where
  pub active : Bool
  pub initialized : Bool
  pub initialization_error : Option ℤ

-- The block is cleared.
abbrev pub fresh : Status
fresh = record { active = false; initialized = false; initialization_error = none }

-- The results of the calls of the thread up to its loop.
pub record ListenCalls : Type 0 where
  pub locking : ℕ
  pub queue_init : ℤ
  pub broadcasting : ℕ
  pub unlocking : ℕ

-- What the thread makes of the status when it has no ring, and when it has one.
abbrev pub ring_status : ℤ → Status → Bool × Status
ring_status (pos zero) s = (true, record s { active = true })
ring_status (pos (suc n)) s = (false, record s { initialization_error = some (pos (suc n)) })
ring_status (negsuc n) s = (false, record s { initialization_error = some (negsuc n) })

-- `executor_scheduler_listen` up to its loop: whether it goes on to it.
unfoldable pub listen_start : ListenCalls → Status → Ended (Bool × Status)
listen_start calls s = check_code calls.locking lock (
    check_code calls.broadcasting broadcast
      (check_code calls.unlocking unlock (returned [] (ring_status calls.queue_init s))))

-- `found` is the status when the mutex is got: the thread may have started before.
pub record InitializeCalls : Type 0 where
  pub granted : Bool
  pub creating : ℕ
  pub locking : ℕ
  pub found : Status
  pub waits : List (ℕ × Status)
  pub closes : ClosingCalls

abbrev pub idle_yet : Status → Bool
idle_yet s = not s.active

abbrev pub come_up : InitializeCalls → Status → Ended (Bool × Status)
come_up calls s = closing calls.closes (true, record s { initialized = true })

abbrev pub given_up : InitializeCalls → ℕ → Status → Ended (Bool × Status)
given_up calls code s =
    closing calls.closes (false, record s { initialization_error = some (pos code) })

-- Whether a scheduler is given to the caller, which otherwise gets NULL, and its status.
unfoldable pub executor_scheduler_initialize : InitializeCalls → Ended (Bool × Status)
executor_scheduler_initialize calls =
    if not calls.granted
    then panicked []
    else if calls.creating == 0
    then check_code calls.locking lock
        (await idle_yet (come_up calls) (given_up calls) calls.waits calls.found)
    else returned [] (false, record fresh { initialization_error = some (pos calls.creating) })

module _ (uring : Uring) (instances : ℕ → Option Instance) where
  -- `found` is the scheduler when the mutex is got, after what the thread did since the request.
  pub record ShutdownCalls : Type 0 where
    pub locking : ℕ
    pub found : Scheduler uring instances
    pub waits : List (ℕ × Scheduler uring instances)
    pub closes : ClosingCalls

  -- The result, the number given to `strerror` for `shutdown_error`, and the scheduler.
  abbrev pub Stopped : Type 0
  Stopped = Bool × Option ℕ × Scheduler uring instances

  abbrev pub running_yet : Scheduler uring instances → Bool
  running_yet s = s.initialized

  abbrev pub went_down : ShutdownCalls → Scheduler uring instances → Ended Stopped
  went_down calls s = closing calls.closes (true, none, s)

  abbrev pub stayed_up : ShutdownCalls → ℕ → Scheduler uring instances → Ended Stopped
  stayed_up calls code s = closing calls.closes (false, some code, s)

  unfoldable pub executor_scheduler_shutdown :
      Scheduler uring instances → ShutdownCalls → Ended Stopped
  executor_scheduler_shutdown s calls = elim (request_shutdown uring instances s) [
    | none ↦ returned [] (true, none, s)
    | some requested ↦
        check_code calls.locking lock
          (await running_yet (went_down calls) (stayed_up calls) calls.waits calls.found)
  ]
