-- ===== src/Storage/Replies.antt =====
-- The answers that completions ask for, and tasks in memory while they are given.
use mathlib.Core.Path.{subst}
use feng_shui.Prelude.{
  ℕ, ◌≡◌, ◌≢◌, ◌⊎◌, inl, inr, refl, sym, ◌∙◌, Option, none, some, List, [], ◌∷◌, ◌++◌, ◌==◌,
  if◌then◌else◌, ne→test, eq→test, All,
}
use feng_shui.Uring.{Sqe, Cqe}
use feng_shui.Executor.{Task, callback, message}
use feng_shui.Storage.{put_task}

-- The answer to a completion, by the tasks that lie in memory.
abbrev pub reply : (ℕ → Option Task) → Cqe → List Sqe
reply tasks c = if c.completed == 0 then [] else elim (tasks c.completed) [
  | none ↦ []
  | some task ↦ message task.source callback c.completed ∷ []
]

abbrev pub replies : (ℕ → Option Task) → List Cqe → List Sqe
replies tasks [] = []
replies tasks (c ∷ completions) = reply tasks c ++ replies tasks completions

-- A completion carries nothing, or the address of a task.
abbrev pub IsDelivery : (ℕ → Option Task) → Cqe → Type 0
IsDelivery tasks c = (c.completed ≡ 0) ⊎ ((task : Task) × (tasks c.completed ≡ some task))

-- No two completions carry the same task.
abbrev pub IsApart : Cqe → Cqe → Type 0
IsApart c d = (d.completed ≡ 0) ⊎ (d.completed ≢ c.completed)

abbrev pub IsOnce : List Cqe → Type 0
IsOnce [] = Unit
IsOnce (c ∷ completions) = All (IsApart c) completions × IsOnce completions

-- The task has its route reversed.
abbrev pub IsTurned : ℕ → (ℕ → Option Task) → (ℕ → Option Task) → Cqe → Type 0
IsTurned descriptor before after c =
    (c.completed ≡ 0)
    ⊎ ((task : Task) × (done : Task) × (before c.completed ≡ some task)
        × (after c.completed ≡ some done)
        × (done.source ≡ descriptor)
        × (done.target ≡ task.source))

pub data Names (address : ℕ) : List Cqe → Type 0 where
  first : (c : Cqe) (cs : List Cqe) → address ≡ c.completed → Names address (c ∷ cs)
  behind : (c : Cqe) (cs : List Cqe) → Names address cs → Names address (c ∷ cs)

pub Names-IsApart :
    (c : Cqe) (cs : List Cqe) → c.completed ≢ 0 → Names c.completed cs → All (IsApart c) cs → ⊥
Names-IsApart c cs some_task (first d ds e) (inl none_there, apart) = some_task (e ∙ none_there)
Names-IsApart c cs some_task (first d ds e) (inr other, apart) = other (sym e)
Names-IsApart c cs some_task (behind d ds n) (one, apart) = Names-IsApart c ds some_task n apart

module _ (c : Cqe) (tasks : ℕ → Option Task) (done : Task) where
  abbrev pub changed : ℕ → Option Task
  changed = put_task tasks c.completed done

  reply-changed : (d : Cqe) → IsApart c d → reply changed d ≡ reply tasks d
  reply-changed d (inl none_there) = rw (eq→test d.completed 0 none_there) refl
  reply-changed d (inr other) = rw (ne→test d.completed c.completed other) refl

  pub replies-changed : (cs : List Cqe) → All (IsApart c) cs → replies changed cs ≡ replies tasks cs
  replies-changed [] apart = refl
  replies-changed (d ∷ cs) (one, apart) = rw (reply-changed d one, replies-changed cs apart) refl

  pub deliveries-changed :
      (cs : List Cqe) → All (IsApart c) cs → All (IsDelivery tasks) cs → All (IsDelivery changed) cs
  deliveries-changed [] apart each = tt
  deliveries-changed (d ∷ cs) (one, apart) (inl none_there, each) =
      (inl none_there, deliveries-changed cs apart each)
  deliveries-changed (d ∷ cs) (inl none_there, apart) (inr (t, at), each) =
      (inl none_there, deliveries-changed cs apart each)
  deliveries-changed (d ∷ cs) (inr other, apart) (inr (t, at), each) =
      (inr (t, rw (ne→test d.completed c.completed other) at), deliveries-changed cs apart each)

  pub IsTurned-changed :
      (descriptor : ℕ) (after : ℕ → Option Task) (cs : List Cqe)
      → All (IsApart c) cs
      → All (IsTurned descriptor changed after) cs
      → All (IsTurned descriptor tasks after) cs
  IsTurned-changed descriptor after [] apart each = tt
  IsTurned-changed descriptor after (d ∷ cs) (one, apart) (inl none_there, each) =
      (inl none_there, IsTurned-changed descriptor after cs apart each)
  IsTurned-changed descriptor after (d ∷ cs) (inl none_there, apart) (inr t, each) =
      (inl none_there, IsTurned-changed descriptor after cs apart each)
  IsTurned-changed descriptor after (d ∷ cs) (inr other, apart)
        (inr (t, u, at, now, from, to), each) =
      (
        inr (
          t,
          u,
          subst (λ (o : Option Task). o ≡ some t) (rw (ne→test d.completed c.completed other) refl)
              at,
          now,
          from,
          to,
        ),
        IsTurned-changed descriptor after cs apart each,
      )
