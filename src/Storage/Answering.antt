-- ===== src/Storage/Answering.antt =====
-- Every task that arrives at the storage is answered, once, where it came from.
use mathlib.Core.List.{append_assoc, append-nil}
use feng_shui.Prelude.{
  ℕ, ◌≡◌, ◌≢◌, ◌⊎◌, inl, inr, refl, sym, ap, ◌∙◌, Option-cases, Option, none, some, List, [], ◌∷◌,
  ◌++◌, ne→test, eq→test, ℕ_discrete, All,
}
use feng_shui.Uring.{Uring, Sqe, Cqe, posted, posted-enqueue}
use feng_shui.Executor.{Task, callback, message}
use feng_shui.Storage.{Serving, put_task, turned, answer, answer_all}
use feng_shui.Storage.Replies.{
  reply, replies, IsDelivery, IsApart, IsOnce, IsTurned, Names, first, behind, Names-IsApart,
  changed, replies-changed, deliveries-changed, IsTurned-changed,
}

module _ (uring : Uring) {W : Type 0} (invoke : ℕ → Task → W → Task × W) (descriptor : ℕ) where
  open uring use {
    Ring, enqueue, queued, sent, ready, submit, cq_advance, queued-submit, sent-submit,
  }

  -- A method leaves the source of its task alone.
  abbrev pub KeepsSource : Type 0
  KeepsSource = (method : ℕ) (task : Task) (w : W) → (invoke method task w).0.source ≡ task.source

  -- What comes of completions: all are answered, in order, and every other task is as it was; or the
  -- answers before one of them are on a ring that has no entry for it.
  pub data Answers (cs : List Cqe) (tasks : ℕ → Option Task) (ring : Ring)
      : Option (Serving uring invoke descriptor) → Type 0 where
    answered :
        (s : Serving uring invoke descriptor)
        → posted uring s.ring ≡ posted uring ring ++ replies tasks cs
        → All (IsTurned descriptor tasks s.tasks) cs
        → ((address : ℕ) → (s.tasks address ≡ tasks address) ⊎ Names address cs)
        → Answers cs tasks ring (some s)
    no_entry :
        (q : Ring) (before after : List Sqe) (m : Sqe)
        → replies tasks cs ≡ before ++ m ∷ after
        → posted uring q ≡ posted uring ring ++ before
        → enqueue q m ≡ none
        → Answers cs tasks ring none

  module _ (keeps : KeepsSource) where
    nothing_there :
        (c : Cqe) (cs : List Cqe) (tasks : ℕ → Option Task) (ring : Ring)
        (out : Option (Serving uring invoke descriptor))
        → c.completed ≡ 0
        → Answers cs tasks ring out
        → Answers (c ∷ cs) tasks ring out
    nothing_there c cs tasks ring out z (answered s posts turned kept) =
        answered s (rw (eq→test c.completed 0 z) posts) (inl z, turned)
          (λ address. elim (kept address) [ inl same ↦ inl same | inr n ↦ inr (behind c cs n) ])
    nothing_there c cs tasks ring out z (no_entry q before after m parts posts full) =
        no_entry q before after m (rw (eq→test c.completed 0 z) parts) posts full

    module _ (c : Cqe) (cs : List Cqe) (tasks : ℕ → Option Task) (ring r : Ring) (task done : Task)
        (some_task : c.completed ≢ 0) (at : tasks c.completed ≡ some task)
        (kept_source : done.source ≡ task.source) (apart : All (IsApart c) cs) where
      abbrev posting : Sqe
      posting = message done.source callback c.completed

      reply_there : reply tasks c ≡ posting ∷ []
      reply_there = rw (ne→test c.completed 0 some_task, at, kept_source) refl

      abbrev back : Task
      back = record done { source = descriptor; target = done.source }

      abbrev then_tasks : ℕ → Option Task
      then_tasks = changed c tasks back

      all_replies : replies tasks (c ∷ cs) ≡ posting ∷ replies then_tasks cs
      all_replies = rw (reply_there, replies-changed c tasks back cs apart) refl

      posted_later :
          (xs : List Sqe) (q : Ring)
          → enqueue ring posting ≡ some r
          → posted uring q ≡ posted uring r ++ xs
          → posted uring q ≡ posted uring ring ++ posting ∷ xs
      posted_later xs q room e =
          e
          ∙ ap (λ (ys : List Sqe). ys ++ xs) (posted-enqueue uring ring posting r room)
          ∙ append_assoc (posted uring ring) (posting ∷ []) xs

      IsTurned-here :
          (after : ℕ → Option Task)
          → (after c.completed ≡ then_tasks c.completed) ⊎ Names c.completed cs
          → IsTurned descriptor tasks after c
      IsTurned-here after (inl same) =
          inr (
            task,
            back,
            at,
            same ∙ rw (eq→test c.completed c.completed refl) refl,
            refl,
            kept_source,
          )
      IsTurned-here after (inr n) = absurd (Names-IsApart c cs some_task n apart)

      kept_here :
          (address : ℕ) (now : Option Task)
          → (now ≡ then_tasks address) ⊎ Names address cs
          → (now ≡ tasks address) ⊎ Names address (c ∷ cs)
      kept_here address now (inr n) = inr (behind c cs n)
      kept_here address now (inl same) = elim (ℕ_discrete address c.completed) [
        | yes e ↦ inr (first c cs e)
        | no other ↦ inl (same ∙ rw (ne→test address c.completed other) refl)
      ]

      answers_later :
          (out : Option (Serving uring invoke descriptor))
          → enqueue ring posting ≡ some r
          → Answers cs then_tasks r out
          → Answers (c ∷ cs) tasks ring out
      answers_later out room (answered s posts turned kept) =
          answered s
            (posted_later (replies then_tasks cs) s.ring room posts
              ∙ ap (λ (xs : List Sqe). posted uring ring ++ xs) (sym all_replies))
            (
              IsTurned-here s.tasks (kept c.completed),
              IsTurned-changed c tasks back descriptor s.tasks cs apart turned,
            )
            (λ address. kept_here address (s.tasks address) (kept address))
      answers_later out room (no_entry q before after m parts posts full) =
          no_entry q (posting ∷ before) after m (all_replies ∙ ap (◌∷◌ posting) parts)
            (posted_later before q room posts) full

    -- The three ends of one completion.
    answer_nothing :
        (c : Cqe) (s : Serving uring invoke descriptor)
        → c.completed ≡ 0
        → answer uring invoke descriptor c s ≡ some s
    unfolding answer
    answer_nothing c s z = rw (eq→test c.completed 0 z) refl

    module _ (c : Cqe) (s : Serving uring invoke descriptor) (task : Task)
        (some_task : c.completed ≢ 0) (at : s.tasks c.completed ≡ some task) where
      abbrev finished : Task
      finished = (invoke task.method task s.world).0

      abbrev next : Ring → Serving uring invoke descriptor
      next r = record {
        tasks = put_task s.tasks c.completed (turned uring invoke descriptor finished);
        world = (invoke task.method task s.world).1;
        ring = r;
      }

      answer_full :
          enqueue s.ring (message finished.source callback c.completed) ≡ none
          → answer uring invoke descriptor c s ≡ none
      unfolding answer
      answer_full full = rw (ne→test c.completed 0 some_task, at, full) refl

      answer_task :
          (r : Ring)
          → enqueue s.ring (message finished.source callback c.completed) ≡ some r
          → answer uring invoke descriptor c s ≡ some (next r)
      unfolding answer
      answer_task r room = rw (ne→test c.completed 0 some_task, at, room) refl

    pub answer_all-Answers :
        (cs : List Cqe) (s : Serving uring invoke descriptor)
        → All (IsDelivery s.tasks) cs
        → IsOnce cs
        → Answers cs s.tasks s.ring (answer_all uring invoke descriptor cs s)
    unfolding answer_all
    answer_all-Answers [] s each once =
        answered s (sym (append-nil (posted uring s.ring))) tt (λ address. inl refl)
    answer_all-Answers (c ∷ cs) s (inl z, each) (apart, once) =
        rw (answer_nothing c s z, answer_all)
          (nothing_there c cs s.tasks s.ring (answer_all uring invoke descriptor cs s) z
            (answer_all-Answers cs s each once))
    answer_all-Answers (c ∷ cs) s (inr (task, at), each) (apart, once) =
        elim (ℕ_discrete c.completed 0) [
          | yes z ↦
              rw (answer_nothing c s z, answer_all)
                (nothing_there c cs s.tasks s.ring (answer_all uring invoke descriptor cs s) z
                  (answer_all-Answers cs s each once))
          | no some_task ↦
              let done = (invoke task.method task s.world).0 in
              let kept = keeps task.method task s.world in
              elim (Option-cases (enqueue s.ring (message done.source callback c.completed))) [
                | inl full ↦
                    rw (answer_full c s task some_task at full, answer_all)
                      (no_entry s.ring [] (replies s.tasks cs)
                        (message done.source callback c.completed)
                        (ap (λ (xs : List Sqe). xs ++ replies s.tasks cs)
                          (reply_there c cs s.tasks s.ring s.ring task done some_task at kept
                            apart))
                        (sym (append-nil (posted uring s.ring))) full)
                | inr (r, room) ↦
                    rw (answer_task c s task some_task at r room, answer_all)
                      (answers_later c cs s.tasks s.ring r task done some_task at kept apart
                        (answer_all uring invoke descriptor cs (next c s task some_task at r)) room
                        (answer_all-Answers cs (next c s task some_task at r)
                          (deliveries-changed c s.tasks (turned uring invoke descriptor done) cs
                            apart each)
                          once))
              ]
        ]
