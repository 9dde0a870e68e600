-- ===== src/Scheduler/Tests.antt =====
-- A scheduler that knows one executor, at address 1000, and the theorems there.
use mathlib.Core.Path.{subst}
use feng_shui.Prelude.{
  ℕ, ◌≡◌, refl, sym, ap, ◌∙◌, arith, true, false, Option, none, some, List, [], ◌∷◌, ◌++◌, ◌==◌,
  if◌then◌else◌, inl, inr,
}
use feng_shui.Prelude.Int.{ℤ, pos, negsuc}
use feng_shui.Uring.{Cqe, posted, no_op}
use feng_shui.Uring.Bounded.{bounded}
use feng_shui.Executor.{scheduler_register}
use feng_shui.Scheduler.{
  Scheduler, Instance, handled, has, round, handle, dispatch, on_register, on_pollin, on_unregister,
  provide_sqe, request_shutdown,
}
use feng_shui.Scheduler.Registry.{readable}
use feng_shui.Scheduler.Silence.{Silent, Registers, round-Silent}
use feng_shui.Scheduler.Shutdown.{left, shutdown_ends}
use feng_shui.Scheduler.Starting.{
  lock, unlock, wait, broadcast, condition_destroy, mutex_destroy, returned, await, ClosingCalls,
  Status, fresh, ListenCalls, listen_start, InitializeCalls, executor_scheduler_initialize,
  ShutdownCalls, executor_scheduler_shutdown,
}
use feng_shui.Scheduler.Started.{IsStart, initialize-IsStart, NeverUp, refused_ring-NeverUp}
use feng_shui.Scheduler.Stopping.{IsStop, shutdown-IsStop}

abbrev member : Instance
member = record { id = 3; descriptor = 10; callback = pos 8 }

abbrev memory : ℕ → Option Instance
memory address = if address == 1000 then some member else none

abbrev idle_scheduler : Scheduler bounded memory
idle_scheduler = record {
  descriptor = 9;
  active = true;
  initialized = true;
  ring = record { spare = 3; waiting = []; given = [] };
  executors = λ i. 0;
}

abbrev says : ℕ → ℕ → Cqe
says bits user_data = record { result = pos bits; completed = user_data }

-- Registration, a completion on the executor's ring, and its leave; then the ring speaks again.
life :
    (replies : List (ℤ × ℕ)) × (t : Scheduler bounded memory) × (round bounded memory idle_scheduler
        (says 1024 1000 ∷ says 1 1000 ∷ says 2048 3 ∷ says 1 1000 ∷ [])
      ≡ handled replies t)
    × (replies ≡ (pos 8, 3) ∷ (pos 8, 3) ∷ [])
unfolding round handle dispatch on_register on_pollin on_unregister provide_sqe
life = (_, _, refl, refl)

not_registering : (c : Cqe) → c ≡ says 1 1000 → Registers bounded memory 3 c → ⊥
not_registering c e (bits, x, result, asks, there, same) =
    clash bits (ap (λ (d : Cqe). d.result) (sym e) ∙ result) asks
  where
    clash : (bits : ℕ) → pos 1 ≡ pos bits → has bits scheduler_register ≡ true → ⊥
    clash bits h asks =
        no (subst (λ (b : ℕ). has b scheduler_register ≡ true) (sym (number bits h)) asks)
      where
        number : (bits : ℕ) → pos 1 ≡ pos bits → 1 ≡ bits
        number bits h = cc

        no : has 1 scheduler_register ≡ true → ⊥
        no p = cc

round-Silent_example :
    Silent bounded memory 3 (round bounded memory idle_scheduler (says 1 1000 ∷ []))
round-Silent_example =
    round-Silent bounded memory idle_scheduler 3 (says 1 1000 ∷ []) (λ i h. absurd (h refl)) refl
      (readable 1 refl refl (member, refl, omega arith), tt)
      (not_registering (says 1 1000) refl, tt)

shutdown_ends_example :
    (t : Scheduler bounded memory) × (request_shutdown bounded memory idle_scheduler ≡ some t)
    × (t.active ≡ false)
    × (t.ring.waiting ≡ [])
    × (posted bounded t.ring
        ≡ posted bounded idle_scheduler.ring
          ++ record { request = no_op; user_data = 0; flags = 0 } ∷ [])
    × (round bounded memory t (says 0 0 ∷ []) ≡ left bounded memory t)
shutdown_ends_example =
    shutdown_ends bounded memory idle_scheduler (says 0 0 ∷ []) 0 0 (says 0 0) refl refl refl refl

abbrev closes_well : ClosingCalls
closes_well = record { unlocking = 0; destroying_condition = 0; destroying_mutex = 0 }

abbrev awake_status : Status
awake_status = record { active = true; initialized = false; initialization_error = none }

-- A wait that wakes up for nothing, and one after which the thread is there.
abbrev slow_start : InitializeCalls
slow_start = record {
  granted = true;
  creating = 0;
  locking = 0;
  found = fresh;
  waits = (0, fresh) ∷ (0, awake_status) ∷ [];
  closes = closes_well;
}

slow_start_comes_up :
    executor_scheduler_initialize slow_start
    ≡ returned
        (lock ∷ wait ∷ wait ∷ unlock ∷ condition_destroy ∷ mutex_destroy ∷ [])
        (true, record awake_status { initialized = true })
unfolding executor_scheduler_initialize await
slow_start_comes_up = refl

initialize-IsStart_example :
    IsStart (λ s. s.initialized ≡ false) slow_start (executor_scheduler_initialize slow_start)
initialize-IsStart_example =
    initialize-IsStart (λ s. s.initialized ≡ false) slow_start refl (refl, (refl, tt))

-- ENOMEM from `io_uring_queue_init`, and ETIMEDOUT from the second wait.
abbrev no_ring : ListenCalls
no_ring = record { locking = 0; queue_init = negsuc 11; broadcasting = 0; unlocking = 0 }

abbrev ringless : Status
ringless = record { active = false; initialized = false; initialization_error = some (negsuc 11) }

abbrev timed_out : InitializeCalls
timed_out = record {
  granted = true;
  creating = 0;
  locking = 0;
  found = fresh;
  waits = (0, ringless) ∷ (110, ringless) ∷ [];
  closes = closes_well;
}

no_ring_announced :
    listen_start no_ring fresh ≡ returned (lock ∷ broadcast ∷ unlock ∷ []) (false, ringless)
unfolding listen_start
no_ring_announced = refl

refused_ring-NeverUp_example : NeverUp timed_out (executor_scheduler_initialize timed_out)
refused_ring-NeverUp_example =
    refused_ring-NeverUp no_ring (lock ∷ broadcast ∷ unlock ∷ []) ringless timed_out
      no_ring_announced refl (inl refl) (inr refl, (inr refl, tt))

abbrev stopped_scheduler : Scheduler bounded memory
stopped_scheduler = record idle_scheduler { active = false; initialized = false }

abbrev one_wait : ShutdownCalls bounded memory
one_wait = record {
  locking = 0;
  found = record idle_scheduler { active = false };
  waits = (0, stopped_scheduler) ∷ [];
  closes = closes_well;
}

shutdown-IsStop_example :
    IsStop bounded memory
      (λ s. s.active ≡ false)
      idle_scheduler
      one_wait
      (executor_scheduler_shutdown bounded memory idle_scheduler one_wait)
shutdown-IsStop_example =
    shutdown-IsStop bounded memory (λ s. s.active ≡ false) idle_scheduler one_wait refl (refl, tt)
