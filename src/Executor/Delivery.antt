-- ===== src/Executor/Delivery.antt =====
-- A message reaches its ring once, and the answer to a call goes back where the call came from.
use mathlib.Core.Path.{subst}
use feng_shui.Prelude.{
  ℕ, ◌≡◌, refl, ap, ◌∙◌, Bool-cases, inl, inr, [], ◌∷◌, ◌++◌, Option-cases, ◌⊎◌,
}
use feng_shui.Prelude.Int.{ℤ, pos}
use feng_shui.Uring.{Uring, Sqe, posted, posted-enqueue, posted-submit}
use feng_shui.Executor.{
  Executor, Task, call, callback, idle, waking, message, module_error_code, executor_submit,
  executor_need_submit, call_native, callback_to_native,
}

module _ (uring : Uring) where
  open uring use {Ring, queued, sent, enqueue, submit, queued-submit, sent-submit}

  pub posted-executor_submit :
      (e : Executor uring) → posted uring (executor_submit uring e).ring ≡ posted uring e.ring
  unfolding executor_submit
  posted-executor_submit e = elim (Bool-cases (executor_need_submit uring e)) [
    | inl now ↦ rw (now, executor_submit) (posted-submit uring e.ring)
    | inr later ↦ rw (later, executor_submit)
  ]

  -- How an operation that puts one message on a ring may end: with it on the ring, behind what is
  -- there, and the task's route written; or with the error code, and nothing changed.
  abbrev pub Delivers :
      Sqe → (source target : ℕ) → Task × Executor uring → ℤ × Task × Executor uring → Type 0
  Delivers m source target (t, e) (code, t', e') =
      ((code ≡ pos 0)
        × (t' ≡ record t { source = source; target = target })
        × (posted uring e'.ring ≡ posted uring e.ring ++ m ∷ []))
      ⊎ ((code ≡ module_error_code) × (t' ≡ t) × (e' ≡ e))

  pub call_native_lem :
      (e : Executor uring) (target address : ℕ) (t : Task)
      → Delivers
          (message target call address)
          e.descriptor
          target
          (t, e)
          (call_native uring e target address t)
  unfolding call_native
  call_native_lem e target address t =
      elim (Option-cases (enqueue e.ring (message target call address))) [
        | inl full ↦ rw (full, call_native) (inr (refl, refl, refl))
        | inr (r, room) ↦
            rw (room, call_native)
              (inl (
                refl,
                refl,
                posted-executor_submit (record e { ring = r })
                    ∙ posted-enqueue uring e.ring (message target call address) r room,
              ))
      ]

  pub callback_to_native_lem :
      (e : Executor uring) (address : ℕ) (t : Task)
      → Delivers
          (message t.source callback address)
          e.descriptor
          t.source
          (t, e)
          (callback_to_native uring e address t)
  unfolding callback_to_native
  callback_to_native_lem e address t =
      elim (Option-cases (enqueue e.ring (message t.source callback address))) [
        | inl full ↦ rw (full, callback_to_native) (inr (refl, refl, refl))
        | inr (r, room) ↦
            rw (room, callback_to_native)
              (inl (
                refl,
                refl,
                posted-executor_submit (record e { ring = r })
                    ∙ posted-enqueue uring e.ring (message t.source callback address) r room,
              ))
      ]

  pub delivered :
      (m : Sqe) (source target : ℕ) (t t' : Task) (e e' : Executor uring)
      → Delivers m source target (t, e) (pos 0, t', e')
      → (t' ≡ record t { source = source; target = target })
        × (posted uring e'.ring ≡ posted uring e.ring ++ m ∷ [])
  delivered m source target t t' e e' (inl (ran, route, put)) = (route, put)
  delivered m source target t t' e e' (inr (failed, kept, same)) = cc

  -- A call of `e` on `f` that is answered: the task comes back with its payload untouched and its
  -- route reversed, and the answer is a message with the same task, to the ring that asked.
  pub answer_returns :
      (e e' f f' : Executor uring) (address : ℕ) (t asked answered : Task)
      → call_native uring e f.descriptor address t ≡ (pos 0, asked, e')
      → callback_to_native uring f address asked ≡ (pos 0, answered, f')
      → (answered ≡ record t { source = f.descriptor; target = e.descriptor })
        × (posted uring e'.ring ≡ posted uring e.ring ++ message f.descriptor call address ∷ [])
        × (posted uring f'.ring ≡ posted uring f.ring ++ message e.descriptor callback address ∷ [])
  answer_returns e e' f f' address t asked answered called returned =
      let (asked_route, asked_put) =
        delivered (message f.descriptor call address) e.descriptor f.descriptor t asked e e' (
          subst (Delivers (message f.descriptor call address) e.descriptor f.descriptor (t, e))
            called (call_native_lem e f.descriptor address t)) in
      let (route, put) =
        delivered (message asked.source callback address) f.descriptor asked.source asked answered f
          f'
          (subst
            (Delivers (message asked.source callback address) f.descriptor asked.source (asked, f))
            returned (callback_to_native_lem f address asked)) in
      (
        route
            ∙ ap (λ (a : Task). record a { source = f.descriptor; target = a.source }) asked_route,
        asked_put,
        put
            ∙ ap (λ (a : Task). posted uring f.ring ++ message a.source callback address ∷ [])
                asked_route,
      )

  -- An executor that is idle hands each message on at once; in any other state it keeps it.
  pub executor_submit-idle :
      (e : Executor uring)
      → (e.state ≡ idle → queued (executor_submit uring e).ring ≡ [])
        × (e.state ≡ waking → executor_submit uring e ≡ e)
  unfolding executor_submit executor_need_submit
  executor_submit-idle e =
      (λ h. rw (h, executor_submit) (queued-submit e.ring), λ h. rw (h, executor_submit))
