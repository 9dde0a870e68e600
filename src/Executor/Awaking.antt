-- ===== src/Executor/Awaking.antt =====
-- Between `executor_awake_begin` and `executor_awake_complete` nothing is submitted; then all is.
use mathlib.Core.List.{append-nil, append_assoc}
use mathlib.Core.Path.{subst}
use feng_shui.Prelude.{
  ℕ, ◌≡◌, refl, sym, ap, ◌∙◌, Option-cases, inl, inr, ◌⊎◌, none, some, List, [], ◌∷◌, ◌++◌, map,
}
use feng_shui.Prelude.Int.{ℤ, pos}
use feng_shui.Uring.{Uring, Sqe}
use feng_shui.Executor.{
  Executor, Task, call, callback, idle, waking, scheduler_poll, message, module_error_code,
  executor_submit, call_native, callback_to_native, awake_begin, awake_complete,
}
use feng_shui.Executor.Delivery.{executor_submit-idle}

-- What the owner of an executor may send while it handles completions.
pub data Outgoing : Type 0 where
  calls : (target address : ℕ) → Task → Outgoing
  answers : (address : ℕ) → Task → Outgoing

abbrev pub letter : Outgoing → Sqe
letter (calls target address t) = message target call address
letter (answers address t) = message t.source callback address

module _ (uring : Uring) where
  open uring use {
    Ring, queued, sent, enqueue, submit, cq_advance, queued-enqueue, sent-enqueue, queued-submit,
    sent-submit, queued-cq_advance, sent-cq_advance,
  }

  -- The ring takes the messages of `ops`, one after another.
  pub data Issues : Executor uring → List Outgoing → Executor uring → Type 0 where
    done : {e : Executor uring} → Issues e [] e
    called :
        {e f g : Executor uring} (target address : ℕ) (t t' : Task) {ops : List Outgoing}
        → call_native uring e target address t ≡ (pos 0, t', f)
        → Issues f ops g
        → Issues e (calls target address t ∷ ops) g
    answered :
        {e f g : Executor uring} (address : ℕ) (t t' : Task) {ops : List Outgoing}
        → callback_to_native uring e address t ≡ (pos 0, t', f)
        → Issues f ops g
        → Issues e (answers address t ∷ ops) g

  -- While it wakes, a message is queued and nothing is submitted.
  record Held (m : Sqe) (e f : Executor uring) : Type 0 where
    state : f.state ≡ waking
    queue : queued f.ring ≡ queued e.ring ++ m ∷ []
    kept : sent f.ring ≡ sent e.ring

  abbrev Reply : Type 0
  Reply = ℤ × Task × Executor uring

  failure_ne :
      (t t' : Task) (e f : Executor uring)
      → ◌≡◌ {A = Reply} (module_error_code, t, e) (pos 0, t', f)
      → ⊥
  failure_ne t t' e f h = cc (ap (λ (x : Reply). x.0) h)

  abbrev Ran : Executor uring → Sqe → Executor uring → Type 0
  Ran e m f =
      (r : Ring) × (enqueue e.ring m ≡ some r) × (executor_submit uring (record e { ring = r }) ≡ f)

  ran :
      (e f : Executor uring) (m : Sqe) (t t' routed : Task) (reply : Reply)
      → (enqueue e.ring m ≡ none → reply ≡ (module_error_code, t, e))
      → ((r : Ring)
          → enqueue e.ring m ≡ some r
          → reply ≡ (pos 0, routed, executor_submit uring (record e { ring = r })))
      → reply ≡ (pos 0, t', f)
      → Ran e m f
  ran e f m t t' routed reply full room h = go (Option-cases (enqueue e.ring m))
    where
      go : (enqueue e.ring m ≡ none) ⊎ ((r : Ring) × (enqueue e.ring m ≡ some r)) → Ran e m f
      go (inl p) = absurd (failure_ne t t' e f (sym (full p) ∙ h))
      go (inr (r, p)) = (r, p, ap (λ (x : Reply). x.2) (sym (room r p) ∙ h))

  call_native-Ran :
      (e f : Executor uring) (target address : ℕ) (t t' : Task)
      → call_native uring e target address t ≡ (pos 0, t', f)
      → Ran e (message target call address) f
  unfolding call_native
  call_native-Ran e f target address t t' h =
      ran e f (message target call address) t t'
        (record t { source = e.descriptor; target = target }) (call_native uring e target address t)
        (λ p. rw (p, call_native)) (λ r p. rw (p, call_native)) h

  callback_to_native-Ran :
      (e f : Executor uring) (address : ℕ) (t t' : Task)
      → callback_to_native uring e address t ≡ (pos 0, t', f)
      → Ran e (message t.source callback address) f
  unfolding callback_to_native
  callback_to_native-Ran e f address t t' h =
      ran e f (message t.source callback address) t t'
        (record t { source = e.descriptor; target = t.source })
        (callback_to_native uring e address t) (λ p. rw (p, callback_to_native))
        (λ r p. rw (p, callback_to_native)) h

  held : (e f : Executor uring) (m : Sqe) → e.state ≡ waking → Ran e m f → Held m e f
  held e f m w (r, room, submitted) =
      subst (Held m e) (sym ((executor_submit-idle uring (record e { ring = r })).1 w) ∙ submitted)
        (record {
          state = w;
          queue = queued-enqueue e.ring m r room;
          kept = sent-enqueue e.ring m r room;
        })

  abbrev Waited : Executor uring → List Sqe → Executor uring → Type 0
  Waited e ms g =
      (g.state ≡ waking) × (queued g.ring ≡ queued e.ring ++ ms) × (sent g.ring ≡ sent e.ring)

  extend :
      (e f g : Executor uring) (m : Sqe) (ms : List Sqe)
      → Held m e f
      → Waited f ms g
      → Waited e (m ∷ ms) g
  extend e f g m ms h (w, queue, kept) = (
    w,
    queue ∙ ap (λ (q : List Sqe). q ++ ms) h.queue ∙ append_assoc (queued e.ring) (m ∷ []) ms,
    kept ∙ h.kept,
  )

  Issues-Waited :
      {e g : Executor uring} {ops : List Outgoing}
      → Issues e ops g
      → e.state ≡ waking
      → Waited e (map letter ops) g
  Issues-Waited {e} done w = (w, sym (append-nil (queued e.ring)), refl)
  Issues-Waited {e} {g} (called {f = f} target address t t' {ops = rest} h more) w =
      let one : Held (message target call address) e f =
        held e f (message target call address) w (call_native-Ran e f target address t t' h) in
      extend e f g (message target call address) (map letter rest) one
        (Issues-Waited more one.state)
  Issues-Waited {e} {g} (answered {f = f} address t t' {ops = rest} h more) w =
      let one : Held (message t.source callback address) e f =
        held e f (message t.source callback address) w
          (callback_to_native-Ran e f address t t' h) in
      extend e f g (message t.source callback address) (map letter rest) one
        (Issues-Waited more one.state)

  begun :
      (e e' : Executor uring)
      → ◌≡◌ {A = ℤ × Executor uring} (awake_begin uring e) (pos 0, e')
      → Held (message e.scheduler scheduler_poll e.address) e e'
  unfolding awake_begin
  begun e e' h = elim (Option-cases (enqueue e.ring poll)) [
    | inl full ↦ absurd (refused (sym (rw (full, awake_begin)) ∙ h))
    | inr (r, room) ↦
        subst (Held poll e) (ap (λ (x : ℤ × Executor uring). x.1) (sym (took r room) ∙ h)) (record {
          state = refl;
          queue = queued-enqueue e.ring poll r room;
          kept = sent-enqueue e.ring poll r room;
        })
  ]
    where
      poll : Sqe
      poll = message e.scheduler scheduler_poll e.address

      took :
          (r : Ring)
          → enqueue e.ring poll ≡ some r
          → awake_begin uring e ≡ (pos 0, record e { state = waking; ring = r })
      took r room = rw (room, awake_begin)

      refused :
          ◌≡◌ {A = ℤ × Executor uring} (module_error_code, record e { state = waking }) (pos 0, e')
          → ⊥
      refused p = cc (ap (λ (x : ℤ × Executor uring). x.0) p)

  -- From `awake_begin` to `awake_complete`: the poll request and the messages sent meanwhile are
  -- submitted together at the end, in order, behind what was queued before; until then the kernel
  -- gets nothing. The executor is idle again.
  pub awake_submits_all :
      (e e' f : Executor uring) (ops : List Outgoing) (completions : ℕ)
      → awake_begin uring e ≡ (pos 0, e')
      → Issues e' ops f
      → (sent f.ring ≡ sent e.ring)
        × (sent (awake_complete uring f completions).ring
            ≡ sent e.ring
              ++ (queued e.ring ++ message e.scheduler scheduler_poll e.address ∷ map letter ops))
        × (queued (awake_complete uring f completions).ring ≡ [])
        × ((awake_complete uring f completions).state ≡ idle)
  unfolding awake_complete
  awake_submits_all e e' f ops completions h issued =
      let start : Held (message e.scheduler scheduler_poll e.address) e e' = begun e e' h in
      let (w, queue, kept) =
        extend e e' f (message e.scheduler scheduler_poll e.address) (map letter ops) start
          (Issues-Waited issued start.state) in
      (
        kept,
        rw (sent-submit, sent-cq_advance, queued-cq_advance, kept, queue),
        queued-submit (cq_advance f.ring completions),
        refl,
      )
