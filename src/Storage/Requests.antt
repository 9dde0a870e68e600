-- ===== src/Storage/Requests.antt =====
-- A request for one change, from the executor that makes it to the database and back.
use mathlib.Core.Path.{subst}
use feng_shui.Prelude.{
  ℕ, ◌≡◌, ◌≢◌, refl, ap, ◌∙◌, Option-cases, inl, inr, none, some, List, [], ◌∷◌, ◌++◌, eq→test,
  ne→test,
}
use feng_shui.Prelude.Int.{pos}
use feng_shui.Uring.{Uring, Sqe, Cqe, posted, posted-enqueue, posted-submit}
use feng_shui.Executor.{Executor, Task, call, callback, message, call_native}
use feng_shui.Executor.Delivery.{call_native_lem, Delivers, delivered}
use feng_shui.Tarantool.{Tarantool}
use feng_shui.Box.{Errors}
use feng_shui.Box.Answers.{Change, call_of, IsAnswer, perform-IsAnswer}
use feng_shui.Storage.{Serving, put_task, answer, answer_all, round, finish}
use feng_shui.Storage.Rounds.{box_method, box_method-KeepsSource}

module _ (uring : Uring) (tarantool : Tarantool) (errors : Errors tarantool)
    (change_of : ℕ → ℕ → Change) (descriptor : ℕ) where
  open uring use {
    Ring, enqueue, queued, sent, ready, submit, cq_advance, queued-submit, sent-submit,
    queued-cq_advance, sent-cq_advance,
  }
  open tarantool use {State, box_write, view}

  abbrev method : ℕ → Task → State → Task × State
  method = box_method tarantool errors change_of

  -- The answer reaches the ring that asked, with the task as the change left it and its route
  -- reversed, and the database is as `IsAnswer` says.
  pub record IsServed (source address : ℕ) (asked : Task)
      (before after : Serving uring method descriptor) : Type 0 where
    pub done : Task
    pub changed :
        IsAnswer tarantool errors
          (call_of (change_of asked.method asked.input))
          (view before.world)
          asked
          (box_write (call_of (change_of asked.method asked.input)) before.world).0
          (done, after.world)
    pub replied : after.tasks address ≡ some (record done { source = descriptor; target = source })
    pub told : sent after.ring ≡ posted uring before.ring ++ message source callback address ∷ []
    pub nothing_left : queued after.ring ≡ []

  -- A completion of a task that lies in memory, and an entry for its answer.
  lone_task :
      (source : ℕ) (asked : Task) (c : Cqe) (s : Serving uring method descriptor) (q : Ring)
      → asked.source ≡ source
      → c.completed ≢ 0
      → s.tasks c.completed ≡ some asked
      → ready (submit s.ring) ≡ c ∷ []
      → enqueue (submit s.ring) (message source callback c.completed) ≡ some q
      → (after : Serving uring method descriptor) × (round uring method descriptor s ≡ some after)
        × IsServed source c.completed asked s after
  unfolding round answer_all answer
  lone_task source asked c s q from there lies arrived room =
      let done : Task = (method asked.method asked s.world).0 in
      let kept : done.source ≡ source =
        box_method-KeepsSource tarantool errors change_of uring descriptor asked.method asked
          s.world
        ∙ from in
      let entry : enqueue (submit s.ring) (message done.source callback c.completed) ≡ some q =
        ap (λ (n : ℕ). enqueue (submit s.ring) (message n callback c.completed)) kept ∙ room in
      let after : Serving uring method descriptor = finish uring method descriptor 1 (record {
        tasks =
            put_task s.tasks c.completed
              (record done { source = descriptor; target = done.source });
        world = (method asked.method asked s.world).1;
        ring = q;
      }) in
      (
        after,
        rw (arrived, round, ne→test c.completed 0 there, lies, entry, answer, answer_all) refl,
        record {
          done = done;
          changed =
              perform-IsAnswer tarantool errors (change_of asked.method asked.input) asked s.world;
          replied =
              rw (eq→test c.completed c.completed refl)
                (ap (λ (n : ℕ). some (record done { source = descriptor; target = n })) kept);
          told =
              rw (sent-submit, queued-cq_advance, sent-cq_advance)
                (posted-enqueue uring (submit s.ring) (message source callback c.completed) q room
                  ∙ ap (λ (xs : List Sqe). xs ++ message source callback c.completed ∷ [])
                      (posted-submit uring s.ring));
          nothing_left = queued-submit (cq_advance q 1);
        },
      )

  -- A task that an executor calls the storage with, by its descriptor, and that stands for one change,
  -- is served when it arrives alone and the ring of the storage has an entry: the call reaches the
  -- ring of the storage; the round makes the change and answers with the tuple, or changes nothing
  -- and answers with an error; and it sends the task back to the ring of that executor, with its
  -- route reversed, behind all that was posted before, and leaves nothing in the queue.
  pub request-IsServed :
      (e e' : Executor uring) (t asked : Task) (c : Cqe) (s : Serving uring method descriptor)
      → call_native uring e descriptor c.completed t ≡ (pos 0, asked, e')
      → c.completed ≢ 0
      → s.tasks c.completed ≡ some asked
      → ready (submit s.ring) ≡ c ∷ []
      → enqueue (submit s.ring) (message e.descriptor callback c.completed) ≢ none
      → (after : Serving uring method descriptor) × (round uring method descriptor s ≡ some after)
        × (posted uring e'.ring ≡ posted uring e.ring ++ message descriptor call c.completed ∷ [])
        × IsServed e.descriptor c.completed asked s after
  request-IsServed e e' t asked c s called there lies arrived room =
      let (route, put) =
        delivered uring (message descriptor call c.completed) e.descriptor descriptor t asked e e' (
          subst
            (Delivers uring (message descriptor call c.completed) e.descriptor descriptor (t, e))
            called (call_native_lem uring e descriptor c.completed t)) in
      elim (Option-cases (enqueue (submit s.ring) (message e.descriptor callback c.completed))) [
        | inl full ↦ absurd (room full)
        | inr (q, entry) ↦
            let (after, ran, served) =
              lone_task e.descriptor asked c s q (ap (λ (a : Task). a.source) route) there lies
                arrived entry in
            (after, ran, put, served)
      ]
