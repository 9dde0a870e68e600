-- ===== src/Scheduler/Silence.antt =====
-- An executor that has unregistered hears nothing more.
use feng_shui.Prelude.{
  ℕ, ◌<◌, ◌≡◌, ◌≢◌, refl, sym, ap, ◌∙◌, Bool, true, false, Option, some, List, [], ◌∷◌,
  if◌then◌else◌, lt→ltb, ne→test, eq→test, not, ℕ_discrete, All, All-append,
}
use feng_shui.Prelude.Int.{pos}
use feng_shui.Uring.{Uring, Cqe}
use feng_shui.Executor.{scheduler_register}
use feng_shui.Scheduler.{
  Scheduler, Instance, Post, Handled, exited, handled, fault, limit, has, watch, unwatch, replace,
  on_pollin, on_poll, on_register, on_unregister, handle, dispatch, after, round, settle,
}
use feng_shui.Scheduler.Registry.{
  IsRegistry, IsInstance, IsMessage, failed, readable, asking, entering, leaving,
  provide_sqe-posted,
}

module _ (uring : Uring) (instances : ℕ → Option Instance) where
  -- The completion asks that the executor `id` is registered.
  abbrev pub Registers : ℕ → Cqe → Type 0
  Registers id c =
      (bits : ℕ) × (x : Instance) × (c.result ≡ pos bits)
      × (has bits scheduler_register ≡ true)
      × (instances c.completed ≡ some x)
      × (x.id ≡ id)

  abbrev pub Spares : ℕ → Post → Type 0
  Spares id post = post.1 ≢ id

  -- Nothing is posted for `id`, and it stays out of the table, which stays a registry.
  abbrev pub Silent : ℕ → Handled uring instances → Type 0
  Silent id (exited posts s) = All (Spares id) posts
  Silent id (handled posts s) =
      All (Spares id) posts × IsRegistry uring instances s × (s.executors id ≡ 0)
  Silent id fault = ⊥

  module _ (s : Scheduler uring instances) (id : ℕ) (registry : IsRegistry uring instances s)
      (away : s.executors id ≡ 0) where
    on_pollin-Silent :
        (address : ℕ)
        → IsInstance uring instances address
        → Silent id (settle uring instances (on_pollin uring instances s address))
    unfolding on_pollin
    on_pollin-Silent address (x, there, small) = elim (ℕ_discrete (s.executors x.id) 0) [
      | yes h ↦ rw (there, lt→ltb x.id limit small, h, on_pollin) (tt, registry, away)
      | no h ↦
          rw (there, lt→ltb x.id limit small, ne→test (s.executors x.id) 0 h, on_pollin)
            ((λ same. h (ap s.executors same ∙ away), tt), registry, away)
    ]

    on_poll-Silent :
        (address : ℕ)
        → IsInstance uring instances address
        → Silent id (settle uring instances (on_poll uring instances s address))
    unfolding on_poll
    on_poll-Silent address (x, there, small) = elim (ℕ_discrete (s.executors x.id) 0) [
      | yes h ↦ rw (there, lt→ltb x.id limit small, h, on_poll) (tt, registry, away)
      | no h ↦
          let (r, got, put) =
            provide_sqe-posted uring instances s.ring (watch address x.descriptor) in
          rw (there, lt→ltb x.id limit small, ne→test (s.executors x.id) 0 h, got, on_poll)
            (tt, registry, away)
    ]

    registered :
        (address : ℕ) (x : Instance)
        → instances address ≡ some x
        → (i : ℕ) → replace s.executors x.id address i ≢ 0
        → (y : Instance) × (instances (replace s.executors x.id address i) ≡ some y) × (y.id ≡ i)
    registered address x there i known = elim (ℕ_discrete i x.id) [
      | yes h ↦ rw (eq→test i x.id h) (x, there, sym h)
      | no h ↦ rw (ne→test i x.id h) (registry i (λ e. known (rw (ne→test i x.id h) e)))
    ]

    on_register-Silent :
        (address : ℕ) (known : IsInstance uring instances address)
        → known.0.id ≢ id
        → Silent id (settle uring instances (on_register uring instances s address))
    unfolding on_register
    on_register-Silent address (x, there, small) other =
        let (r, got, put) =
          provide_sqe-posted uring instances s.ring (watch address x.descriptor) in
        rw (there, lt→ltb x.id limit small, got, on_register)
          (tt, registered address x there, rw (ne→test id x.id (λ h. other (sym h))) away)

    removed :
        (k i : ℕ)
        → replace s.executors k 0 i ≢ 0
        → (y : Instance) × (instances (replace s.executors k 0 i) ≡ some y) × (y.id ≡ i)
    removed k i known = elim (ℕ_discrete i k) [
      | yes h ↦ absurd (known (rw (eq→test i k h) refl))
      | no h ↦ rw (ne→test i k h) (registry i (λ e. known (rw (ne→test i k h) e)))
    ]

    on_unregister-Silent :
        (k : ℕ) → k < limit → Silent id (settle uring instances (on_unregister uring instances s k))
    unfolding on_unregister
    on_unregister-Silent k small = elim (ℕ_discrete (s.executors k) 0) [
      | yes h ↦ rw (lt→ltb k limit small, h, on_unregister) (tt, registry, away)
      | no h ↦
          let (x, there, same) = registry k h in
          let (r, got, put) = provide_sqe-posted uring instances s.ring (unwatch (s.executors k)) in
          let other : k ≢ id = λ e. h (ap s.executors e ∙ away) in
          rw (lt→ltb k limit small, ne→test (s.executors k) 0 h, got, there, on_unregister)
            (
              (λ e. other (sym same ∙ e), tt),
              removed k,
              rw (ne→test id k (λ e. other (sym e))) away,
            )
    ]

    awake :
        (h : Handled uring instances) (b : Bool)
        → Silent id h
        → Silent id (if not b then exited [] (record s { initialized = false }) else h)
    awake h true p = p
    awake h false p = tt

    handle-Silent :
        (c : Cqe)
        → IsMessage uring instances c
        → (Registers id c → ⊥)
        → Silent id (handle uring instances s c)
    unfolding handle dispatch
    handle-Silent c (failed n e) quiet = rw (e, handle) (tt, registry, away)
    handle-Silent c (readable bits e p known) quiet =
        rw (e, handle) (awake _ s.active (rw (p, dispatch) (on_pollin-Silent c.completed known)))
    handle-Silent c (asking bits e p q known) quiet =
        rw (e, handle) (awake _ s.active (rw (p, q, dispatch) (on_poll-Silent c.completed known)))
    handle-Silent c (entering bits e p q g known) quiet =
        rw (e, handle)
          (awake _ s.active (
            rw (p, q, g, dispatch)
              (on_register-Silent c.completed known
                (λ same. quiet (bits, known.0, e, g, known.1, same)))))
    handle-Silent c (leaving bits e p q g u small) quiet =
        rw (e, handle)
          (awake _ s.active (rw (p, q, g, u, dispatch) (on_unregister-Silent c.completed small)))

  after-Silent :
      (id : ℕ) (posts : List Post) (h : Handled uring instances)
      → All (Spares id) posts
      → Silent id h
      → Silent id (after uring instances posts h)
  after-Silent id posts (exited more t) p q = All-append (Spares id) posts more p q
  after-Silent id posts (handled more t) p (q, registry, away) =
      (All-append (Spares id) posts more p q, registry, away)
  after-Silent id posts fault p q = q

  -- When an executor is out of the table, and the table holds executors under their own ids, the
  -- scheduler runs on whatever messages of executors arrive, meets no undefined behaviour, and posts
  -- nothing for that executor, if none of them registers it; unless the thread leaves, the table
  -- still holds executors under their own ids, and not that one.
  pub round-Silent :
      (s : Scheduler uring instances) (id : ℕ) (ready : List Cqe)
      → IsRegistry uring instances s
      → s.executors id ≡ 0
      → All (IsMessage uring instances) ready
      → All (λ c. Registers id c → ⊥) ready
      → Silent id (round uring instances s ready)
  unfolding round
  round-Silent s id [] registry away messages quiet = (tt, registry, away)
  round-Silent s id (c ∷ ready) registry away (message, messages) (other, quiet) =
      next (handle uring instances s c) (handle-Silent s id registry away c message other)
        (λ t kept out. round-Silent t id ready kept out messages quiet)
    where
      next :
          (h : Handled uring instances)
          → Silent id h
          → ((t : Scheduler uring instances)
              → IsRegistry uring instances t
              → t.executors id ≡ 0
              → Silent id (round uring instances t ready))
          → Silent id (elim h [
            | exited posts t ↦ exited posts t
            | fault ↦ fault
            | handled posts t ↦ after uring instances posts (round uring instances t ready)
          ])
      next (exited posts t) p rest = p
      next (handled posts t) (p, kept, out) rest =
          after-Silent id posts (round uring instances t ready) p (rest t kept out)
      next fault p rest = p
