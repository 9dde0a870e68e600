-- ===== src/Scheduler/Registry.antt =====
-- What the scheduler relies on: its table, the messages it gets, and room on its ring.
use feng_shui.Prelude.{
  ℕ, ◌<◌, ◌≡◌, ◌≢◌, inl, inr, refl, ap, ◌∙◌, true, false, Option-cases, Option, some, List, [], ◌∷◌,
  ◌++◌,
}
use mathlib.Core.List.{append-nil}
use feng_shui.Prelude.Int.{pos, negsuc}
use feng_shui.Uring.{Uring, Sqe, Cqe, posted, posted-enqueue, pollin}
use feng_shui.Executor.{scheduler_register, scheduler_unregister, scheduler_poll}
use feng_shui.Scheduler.{Scheduler, Instance, limit, has, provide_sqe, tries}

module _ (uring : Uring) (instances : ℕ → Option Instance) where
  open uring use {
    Ring, queued, sent, enqueue, submit_and_wait, queued-submit_and_wait, sent-submit_and_wait,
    enqueue-empty,
  }

  -- The table holds an executor under its own id.
  abbrev pub IsRegistry : Scheduler uring instances → Type 0
  IsRegistry s =
      (i : ℕ)
      → s.executors i ≢ 0
      → (x : Instance) × (instances (s.executors i) ≡ some x) × (x.id ≡ i)

  abbrev pub IsInstance : ℕ → Type 0
  IsInstance address = (x : Instance) × (instances address ≡ some x) × (x.id < limit)

  -- A completion is a failure, or a message from an executor: its address, or its id when it leaves.
  pub data IsMessage (c : Cqe) : Type 0 where
    failed : (n : ℕ) → c.result ≡ negsuc n → IsMessage c
    readable :
        (bits : ℕ)
        → c.result ≡ pos bits
        → has bits pollin ≡ true
        → IsInstance c.completed
        → IsMessage c
    asking :
        (bits : ℕ)
        → c.result ≡ pos bits
        → has bits pollin ≡ false
        → has bits scheduler_poll ≡ true
        → IsInstance c.completed
        → IsMessage c
    entering :
        (bits : ℕ)
        → c.result ≡ pos bits
        → has bits pollin ≡ false
        → has bits scheduler_poll ≡ false
        → has bits scheduler_register ≡ true
        → IsInstance c.completed
        → IsMessage c
    leaving :
        (bits : ℕ)
        → c.result ≡ pos bits
        → has bits pollin ≡ false
        → has bits scheduler_poll ≡ false
        → has bits scheduler_register ≡ false
        → has bits scheduler_unregister ≡ true
        → c.completed < limit
        → IsMessage c

  -- The loop for an entry ends after two tries at most, and puts the request behind all others.
  pub provide_sqe-posted :
      (r : Ring) (s : Sqe)
      → (q : Ring) × (provide_sqe uring instances tries r s ≡ some q)
        × (posted uring q ≡ posted uring r ++ s ∷ [])
  unfolding provide_sqe
  provide_sqe-posted r s = elim (Option-cases (enqueue r s)) [
    | inr (q, room) ↦ (q, rw room refl, posted-enqueue uring r s q room)
    | inl full ↦ elim (Option-cases (enqueue (submit_and_wait r) s)) [
      | inl still ↦ absurd (enqueue-empty (submit_and_wait r) s (queued-submit_and_wait r) still)
      | inr (q, room) ↦ (
        q,
        rw (full, room) refl,
        posted-enqueue uring (submit_and_wait r) s q room
            ∙ ap (λ (xs : List Sqe). xs ++ s ∷ []) emptied,
      )
    ]
  ]
    where
      emptied : posted uring (submit_and_wait r) ≡ posted uring r
      emptied = rw (queued-submit_and_wait, sent-submit_and_wait, append-nil)
