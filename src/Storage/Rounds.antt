-- ===== src/Storage/Rounds.antt =====
-- A round of the storage, and the handlers of the box as its methods.
use feng_shui.Prelude.{
  ℕ, ◌≡◌, arith, refl, ◌∙◌, Option-cases, inl, inr, Option, none, some, List, [], ◌∷◌, ◌++◌, length,
  All, ap, ℕ_discrete, eq→test, ne→test,
}
use feng_shui.Uring.{Uring, Sqe, Cqe, posted, posted-submit}
use feng_shui.Executor.{Task}
use feng_shui.Tarantool.{Tarantool, Write}
use feng_shui.Box.{Errors, answer, storage_send_error}
use feng_shui.Box.Single.{
  storage_space_put_single, storage_space_insert_single, storage_space_delete_single,
  storage_space_update_single, storage_space_upsert, storage_index_update_single,
}
use feng_shui.Box.Answers.{
  Change, put, insert, delete, update, upsert, index_update, call_of, perform,
}
use feng_shui.Storage.{Serving, answer_all, round, finish}
use feng_shui.Storage.Replies.{replies, IsDelivery, IsOnce, IsTurned}
use feng_shui.Storage.Answering.{KeepsSource, Answers, answered, no_entry, answer_all-Answers}

module _ (uring : Uring) {W : Type 0} (invoke : ℕ → Task → W → Task × W) (descriptor : ℕ) where
  open uring use {
    Ring, enqueue, queued, sent, ready, submit, cq_advance, queued-submit, sent-submit,
    queued-cq_advance, sent-cq_advance,
  }

  -- A round on the completions that are ready: there are none; or all are answered, and the answers
  -- submitted; or an answer gets no entry.
  pub data IsRound (s : Serving uring invoke descriptor) (completions : List Cqe)
      : Option (Serving uring invoke descriptor) → Type 0 where
    idle : completions ≡ [] → IsRound s completions (some (record s { ring = submit s.ring }))
    served :
        (after : Serving uring invoke descriptor)
        → queued after.ring ≡ []
        → sent after.ring ≡ posted uring s.ring ++ replies s.tasks completions
        → All (IsTurned descriptor s.tasks after.tasks) completions
        → IsRound s completions (some after)
    stuck :
        (q : Ring) (before behind : List Sqe) (m : Sqe)
        → replies s.tasks completions ≡ before ++ m ∷ behind
        → posted uring q ≡ posted uring s.ring ++ before
        → enqueue q m ≡ none
        → IsRound s completions none

  sent_all : (r : Ring) (n : ℕ) → sent (submit (cq_advance r n)) ≡ posted uring r
  sent_all r n = rw (sent-submit, queued-cq_advance, sent-cq_advance) refl

  module _ (s : Serving uring invoke descriptor) where
    abbrev submitted : Serving uring invoke descriptor
    submitted = record s { ring = submit s.ring }

    finishes :
        (c : Cqe) (cs : List Cqe) (out : Option (Serving uring invoke descriptor))
        → ready (submit s.ring) ≡ c ∷ cs
        → answer_all uring invoke descriptor (c ∷ cs) submitted ≡ out
        → Answers uring invoke descriptor (c ∷ cs) s.tasks (submit s.ring) out
        → IsRound s (ready (submit s.ring)) (round uring invoke descriptor s)
    unfolding round
    finishes c cs out there e (answered after posts turned kept) =
        rw (there, e, round)
          (served (finish uring invoke descriptor (length (c ∷ cs)) after)
            (queued-submit (cq_advance after.ring (length (c ∷ cs))))
            (sent_all after.ring (length (c ∷ cs))
              ∙ posts
              ∙ ap (λ (xs : List Sqe). xs ++ replies s.tasks (c ∷ cs)) (posted-submit uring s.ring))
            turned)
    finishes c cs out there e (no_entry q before behind m parts posts full) =
        rw (there, e, round)
          (stuck q before behind m parts
            (posts ∙ ap (λ (xs : List Sqe). xs ++ before) (posted-submit uring s.ring)) full)

    -- When methods leave the source of a task alone, and each completion that is ready carries a task
    -- of its own or none, a round answers every task where it came from, once and in order, with its
    -- route reversed, and submits all answers; or the ring has no entry for one of the answers, where
    -- the code writes to NULL.
    pub round-IsRound :
        KeepsSource uring invoke descriptor
        → All (IsDelivery s.tasks) (ready (submit s.ring))
        → IsOnce (ready (submit s.ring))
        → IsRound s (ready (submit s.ring)) (round uring invoke descriptor s)
    unfolding round
    round-IsRound keeps each once = by_cases (ready (submit s.ring)) refl each once
      where
        by_cases :
            (cs : List Cqe)
            → ready (submit s.ring) ≡ cs
            → All (IsDelivery s.tasks) cs
            → IsOnce cs
            → IsRound s (ready (submit s.ring)) (round uring invoke descriptor s)
        by_cases [] there each once = rw (there, round) (idle refl)
        by_cases (c ∷ cs) there each once =
            finishes c cs (answer_all uring invoke descriptor (c ∷ cs) submitted) there refl
              (answer_all-Answers uring invoke descriptor keeps (c ∷ cs) submitted each once)

-- The handlers of the box, for the change that a method and an input stand for.
module _ (tarantool : Tarantool) (errors : Errors tarantool) (change_of : ℕ → ℕ → Change) where
  open tarantool use {State, box_write}

  abbrev pub box_method : ℕ → Task → State → Task × State
  box_method method task = perform tarantool errors (change_of method task.input) task

  send_error-source :
      (task : Task) (s : State) → (storage_send_error tarantool errors task s).source ≡ task.source
  unfolding storage_send_error
  send_error-source task s = ground arith

  answer-source :
      (task : Task) (w : Write) (s : State)
      → (answer tarantool errors task (box_write w s)).0.source ≡ task.source
  answer-source task w s = elim (Option-cases (box_write w s).0) [
    | inl refused ↦ rw (refused) (send_error-source task (box_write w s).1)
    | inr (t, gave) ↦ elim (ℕ_discrete t 0) [
      | yes null ↦ rw (gave, eq→test t 0 null) refl
      | no given ↦ rw (gave, ne→test t 0 given) refl
    ]
  ]

  perform-source :
      (change : Change) (task : Task) (s : State)
      → (perform tarantool errors change task s).0.source ≡ task.source
  unfolding storage_space_put_single storage_space_insert_single storage_space_delete_single
      storage_space_update_single storage_space_upsert storage_index_update_single
  perform-source (put r) task s = answer-source task (call_of (put r)) s
  perform-source (insert r) task s = answer-source task (call_of (insert r)) s
  perform-source (delete r) task s = answer-source task (call_of (delete r)) s
  perform-source (update r) task s = answer-source task (call_of (update r)) s
  perform-source (upsert r) task s = answer-source task (call_of (upsert r)) s
  perform-source (index_update r) task s = answer-source task (call_of (index_update r)) s

  pub box_method-KeepsSource :
      (uring : Uring) (descriptor : ℕ) → KeepsSource uring box_method descriptor
  box_method-KeepsSource uring descriptor method task s =
      perform-source (change_of method task.input) task s
