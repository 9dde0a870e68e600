-- ===== src/Uring/Bounded.antt =====
-- A ring with a fixed number of entries meets the laws of `Uring`.
use feng_shui.Prelude.{
  ℕ, ◌≡◌, ◌≢◌, refl, ap, arith, Bool, true, false, Option, none, some, List, [], ◌∷◌, ◌++◌, ltb,
  if◌then◌else◌, length,
}
use feng_shui.Uring.{Uring, Sqe}

pub record Bounded : Type 0 where
  pub spare : ℕ
  pub waiting : List Sqe
  pub given : List Sqe

abbrev pub full : Bounded → Bool
full r = ltb r.spare (length r.waiting)

abbrev pub enqueue : Bounded → Sqe → Option Bounded
enqueue r s = if full r then none else some (record r { waiting = r.waiting ++ s ∷ [] })

abbrev pub submit : Bounded → Bounded
submit r = record r { waiting = []; given = r.given ++ r.waiting }

pub queued-enqueue_lem :
    (r : Bounded) (s : Sqe) (t : Bounded) → enqueue r s ≡ some t → t.waiting ≡ r.waiting ++ s ∷ []
queued-enqueue_lem r s t e = ground arith

pub sent-enqueue_lem :
    (r : Bounded) (s : Sqe) (t : Bounded) → enqueue r s ≡ some t → t.given ≡ r.given
sent-enqueue_lem r s t e = ground arith

pub enqueue-full_lem : (r : Bounded) (s : Sqe) → full r ≡ true → enqueue r s ≡ none
enqueue-full_lem r s h = ground arith

pub enqueue-room_lem : (r : Bounded) (s : Sqe) → full r ≡ false → enqueue r s ≢ none
enqueue-room_lem r s h e = ground arith

pub enqueue-empty_lem : (r : Bounded) (s : Sqe) → r.waiting ≡ [] → enqueue r s ≢ none
enqueue-empty_lem r s e = ground (arith, ap length e)

-- `spare + 1` entries.
abbrev pub bounded : Uring
bounded = record {
  Ring = Bounded;
  queued = λ r. r.waiting;
  sent = λ r. r.given;
  ready = λ r. [];
  enqueue = enqueue;
  full = full;
  submit = submit;
  submit_and_wait = submit;
  cq_advance = λ r n. r;
  enqueue-full = enqueue-full_lem;
  enqueue-room = enqueue-room_lem;
  queued-enqueue = queued-enqueue_lem;
  sent-enqueue = sent-enqueue_lem;
  queued-submit = λ r. refl;
  sent-submit = λ r. refl;
  queued-submit_and_wait = λ r. refl;
  sent-submit_and_wait = λ r. refl;
  enqueue-empty = enqueue-empty_lem;
  queued-cq_advance = λ r n. refl;
  sent-cq_advance = λ r n. refl;
}
