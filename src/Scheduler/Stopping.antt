-- ===== src/Scheduler/Stopping.antt =====
-- How the shutdown of the scheduler ends.
use feng_shui.Prelude.{
  ℕ, suc, ◌≡◌, ◌≢◌, ◌⊎◌, inl, inr, refl, Bool, true, false, Option, none, some, List, [], ◌∷◌, All,
  length, replicate,
}
use feng_shui.Uring.{Uring, no_op}
use feng_shui.Scheduler.{Scheduler, Instance, request_shutdown}
use feng_shui.Scheduler.Registry.{provide_sqe-posted}
use feng_shui.Prelude.Waits.{CameAt, FailsAt, LastsFor}
use feng_shui.Scheduler.Starting.{
  PthreadCall, lock, wait, Ended, returned, panicked, waiting, ShutdownCalls, Stopped, running_yet,
  executor_scheduler_shutdown,
}
use feng_shui.Scheduler.Awaiting.{Guarded, well, ill, dies, stays, wait-Guarded, Closed, between}

module _ (uring : Uring) (instances : ℕ → Option Instance) where
  pub data IsStop (P : Scheduler uring instances → Type 0) (s : Scheduler uring instances)
      (calls : ShutdownCalls uring instances) (e : Ended (Stopped uring instances)) : Type 0 where
    at_once :
        (s.initialized ≡ false) ⊎ (s.active ≡ false)
        → e ≡ returned [] (true, none, s)
        → IsStop P s calls e
    down :
        (n : ℕ) (t : Scheduler uring instances)
        → s.active ≡ true
        → CameAt (running_yet uring instances) calls.found calls.waits n t
        → P t
        → e ≡ returned (between n) (true, none, t)
        → IsStop P s calls e
    still_up :
        (n code : ℕ) (t : Scheduler uring instances)
        → FailsAt (running_yet uring instances) calls.found calls.waits n code t
        → P t
        → e ≡ returned (between (suc n)) (false, some code, t)
        → IsStop P s calls e
    ends_process :
        (actions : List PthreadCall)
        → (calls.locking ≢ 0) ⊎ (¬ Closed calls.closes)
        → e ≡ panicked actions
        → IsStop P s calls e
    still_waits :
        LastsFor (running_yet uring instances) calls.found calls.waits
        → e ≡ waiting (lock ∷ replicate (length calls.waits) wait)
        → IsStop P s calls e

  request_cases :
      (s : Scheduler uring instances)
      → ((request_shutdown uring instances s ≡ none)
          × ((s.initialized ≡ false) ⊎ (s.active ≡ false)))
        ⊎ ((t : Scheduler uring instances) × (request_shutdown uring instances s ≡ some t)
            × (s.active ≡ true))
  unfolding request_shutdown
  request_cases s = go s.initialized s.active refl refl
    where
      go :
          (up awake : Bool)
          → s.initialized ≡ up
          → s.active ≡ awake
          → ((request_shutdown uring instances s ≡ none)
              × ((s.initialized ≡ false) ⊎ (s.active ≡ false)))
            ⊎ ((t : Scheduler uring instances) × (request_shutdown uring instances s ≡ some t)
                × (s.active ≡ true))
      go false awake e f = inl (rw (e, request_shutdown) refl, inl e)
      go true false e f = inl (rw (e, f, request_shutdown) refl, inr f)
      go true true e f =
          let (r, got, put) =
            provide_sqe-posted uring instances s.ring
              (record { request = no_op; user_data = 0; flags = 0 }) in
          inr (
            record s { active = false; ring = uring.submit r },
            rw (e, f, got, request_shutdown) refl,
            f,
          )

  waited :
      (P : Scheduler uring instances → Type 0) (s : Scheduler uring instances)
      (calls : ShutdownCalls uring instances) (e : Ended (Stopped uring instances))
      → s.active ≡ true
      → Guarded P
          (running_yet uring instances)
          (λ t. (true, none, t))
          (λ code t. (false, some code, t))
          calls.locking
          calls.closes
          calls.found
          calls.waits
          e
      → IsStop P s calls e
  waited P s calls e awake (well n t at p same) = down n t awake at p same
  waited P s calls e awake (ill n code t at p same) = still_up n code t at p same
  waited P s calls e awake (dies actions failed same) = ends_process actions failed same
  waited P s calls e awake (stays fine same) = still_waits fine same

  -- `executor_scheduler_shutdown` gives true only for a scheduler that is not running, or once it has
  -- found it no longer initialized; it gives false only when a wait failed, with the code of the first that did as the error.
  -- Once it has the lock, it waits, and where it returns it unlocks and destroys the condition and
  -- the mutex, once each and in this order. A panic ends it only when another call fails. If it has
  -- not ended, it is in its wait, and all waits so far succeeded. Before each wait the scheduler is
  -- initialized, and a wait that succeeds is followed by a look at it. A property of every scheduler that
  -- it finds is one of that with which it ends.
  pub shutdown-IsStop :
      (P : Scheduler uring instances → Type 0) (s : Scheduler uring instances)
      (calls : ShutdownCalls uring instances)
      → P calls.found
      → All (λ w. P w.1) calls.waits
      → IsStop P s calls (executor_scheduler_shutdown uring instances s calls)
  unfolding executor_scheduler_shutdown
  shutdown-IsStop P s calls p ps = elim (request_cases s) [
    | inl (early, idle) ↦ rw (early, executor_scheduler_shutdown) (at_once idle refl)
    | inr (t, asked, awake) ↦
        rw (asked, executor_scheduler_shutdown)
          (waited P s calls _ awake (
            wait-Guarded P (running_yet uring instances) (λ u. (true, none, u))
              (λ code u. (false, some code, u)) calls.locking calls.closes calls.found calls.waits p
              ps))
  ]
