-- ===== src/Scheduler/Shutdown.antt =====
-- executor_scheduler_shutdown and the thread it stops.
use feng_shui.Prelude.{
  ℕ, zero, suc, ◌≡◌, refl, ap, ◌∙◌, Bool, true, false, not, Option, some, List, [], ◌∷◌, ◌++◌,
  if◌then◌else◌, get_elem?, ◌⊎◌, inl, inr,
}
use feng_shui.Prelude.Int.{ℤ, pos, negsuc}
use feng_shui.Uring.{Uring, Cqe, no_op, posted, posted-submit}
use feng_shui.Scheduler.{
  Scheduler, Instance, Handled, exited, handled, handle, dispatch, after, round, request_shutdown,
}
use feng_shui.Scheduler.Registry.{provide_sqe-posted}

module _ (uring : Uring) (instances : ℕ → Option Instance) where
  open uring use {Ring, queued, queued-submit}

  abbrev pub left : Scheduler uring instances → Handled uring instances
  left s = exited [] (record s { initialized = false })

  ℤ-cases : (z : ℤ) → ((n : ℕ) × (z ≡ pos n)) ⊎ ((n : ℕ) × (z ≡ negsuc n))
  ℤ-cases (pos n) = inl (n, refl)
  ℤ-cases (negsuc n) = inr (n, refl)

  passes :
      (t : Scheduler uring instances) (d : Cqe) (m : ℕ)
      → d.result ≡ negsuc m
      → handle uring instances t d ≡ handled [] t
  unfolding handle
  passes t d m e = rw (e, handle) refl

  stopped : {b : Bool} (h k : Handled uring instances) → b ≡ false → (if not b then h else k) ≡ h
  stopped h k e = rw e refl

  handle-left :
      (t : Scheduler uring instances) (c : Cqe) (n : ℕ)
      → t.active ≡ false
      → c.result ≡ pos n
      → handle uring instances t c ≡ left t
  unfolding handle
  handle-left t c n asleep e =
      rw (e, handle) (stopped (left t) (dispatch uring instances t n c.completed) asleep)

  round-left :
      (t : Scheduler uring instances) (ready : List Cqe) (k n : ℕ) (c : Cqe)
      → t.active ≡ false
      → get_elem? ready k ≡ some c
      → c.result ≡ pos n
      → round uring instances t ready ≡ left t
  unfolding round
  round-left t [] k n c asleep found e = absurd cc
  round-left t (d ∷ ready) zero n c asleep found e =
      rw (handle-left t d n asleep (ap (λ (x : Cqe). x.result) (first found) ∙ e), round) refl
    where
      first : ◌≡◌ {A = Option Cqe} (some d) (some c) → d ≡ c
      first h = cc
  round-left t (d ∷ ready) (suc k) n c asleep found e = elim (ℤ-cases d.result) [
    | inl (m, succeeded) ↦ rw (handle-left t d m asleep succeeded, round) refl
    | inr (m, failed) ↦
        rw (passes t d m failed, round)
          (ap (after uring instances []) (round-left t ready k n c asleep found e))
  ]

  -- A request to shut down a scheduler that runs always gets its entry, submits it, and marks the
  -- scheduler inactive; the thread then leaves at the first completion that is no failure, whatever
  -- it is, makes no post, and marks the scheduler as no longer initialized.
  pub shutdown_ends :
      (s : Scheduler uring instances) (ready : List Cqe) (k n : ℕ) (c : Cqe)
      → s.active ≡ true
      → s.initialized ≡ true
      → get_elem? ready k ≡ some c
      → c.result ≡ pos n
      → (t : Scheduler uring instances) × (request_shutdown uring instances s ≡ some t)
        × (t.active ≡ false)
        × (queued t.ring ≡ [])
        × (posted uring t.ring
            ≡ posted uring s.ring ++ record { request = no_op; user_data = 0; flags = 0 } ∷ [])
        × (round uring instances t ready ≡ left t)
  unfolding request_shutdown
  shutdown_ends s ready k n c awake started found succeeded =
      let (r, got, put) =
        provide_sqe-posted uring instances s.ring
          (record { request = no_op; user_data = 0; flags = 0 }) in
      let t : Scheduler uring instances = record s { active = false; ring = uring.submit r } in
      (
        t,
        rw (awake, started, got) refl,
        refl,
        queued-submit r,
        posted-submit uring r ∙ put,
        round-left t ready k n c refl found succeeded,
      )
