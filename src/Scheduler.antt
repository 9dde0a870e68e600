-- ===== src/Scheduler.antt =====
-- executor/native/scheduler/scheduler.c: a thread that listens on its own ring. Executors tell it by
-- messages that they register, unregister or want to be polled; it watches their rings, and posts to
-- the Dart port of an executor whose ring has completions.
-- Here are the rounds of the thread; Starting has its start, and the shutdown.
pub mod Registry
pub mod Silence
pub mod Shutdown
pub mod Starting
pub mod Awaiting
pub mod Started
pub mod Stopping
mod Tests
use feng_shui.Prelude.{
  ℕ, zero, suc, Bool, true, false, not, Option, none, some, List, [], ◌∷◌, ◌++◌, ◌==◌, ltb,
  if◌then◌else◌, bit_and, bind, length,
}
use feng_shui.Prelude.Int.{ℤ, pos, negsuc}
use feng_shui.Uring.{Uring, Sqe, Cqe, poll_add, poll_remove, no_op, pollin, skip_success}
use feng_shui.Executor.{scheduler_register, scheduler_unregister, scheduler_poll}

-- EXECUTOR_SCHEDULER_LIMIT
abbrev pub limit : ℕ
limit = 65536

-- The fields of `struct executor_instance` that the scheduler reads.
pub record Instance : Type 0 where
  pub id : ℕ
  pub descriptor : ℕ
  pub callback : ℤ

-- A call of `Dart_PostInteger`: the port and the number.
abbrev pub Post : Type 0
Post = ℤ × ℕ

abbrev pub replace : (ℕ → ℕ) → ℕ → ℕ → ℕ → ℕ
replace table i value j = if j == i then value else table j

abbrev pub tries : ℕ
tries = 2

abbrev pub watch : (address descriptor : ℕ) → Sqe
watch address descriptor = record {
  request = poll_add descriptor pollin;
  user_data = address;
  flags = 0;
}

abbrev pub unwatch : (address : ℕ) → Sqe
unwatch address = record { request = poll_remove address; user_data = 0; flags = skip_success }

abbrev pub has : ℕ → ℕ → Bool
has bits bit = not (bit_and bits bit == 0)

-- `instances` is the memory in which executors lie; a read where there is none is undefined
-- behaviour, as is an index beyond the table: the result is then `none`.
module _ (uring : Uring) (instances : ℕ → Option Instance) where
  open uring use {Ring, enqueue, submit, submit_and_wait, cq_advance}

  -- `struct executor_scheduler`, with the table on the stack of its thread: the address of each
  -- executor by its id, 0 for none.
  pub record Scheduler : Type 0 where
    pub descriptor : ℕ
    pub active : Bool
    pub initialized : Bool
    pub ring : Ring
    pub executors : ℕ → ℕ

  -- The loop gets `fuel` tries; `none` means that they did not do.
  unfoldable pub provide_sqe : (fuel : ℕ) → Ring → Sqe → Option Ring
  provide_sqe zero r s = none
  provide_sqe (suc fuel) r s = elim (enqueue r s) [
    | none ↦ provide_sqe fuel (submit_and_wait r) s
    | some q ↦ some q
  ]

  -- Reads an entry of the table.
  abbrev pub entry : Scheduler → ℕ → Option ℕ
  entry s i = if ltb i limit then some (s.executors i) else none

  abbrev pub Reply : Type 0
  Reply = Option (List Post × Scheduler)

  -- The four kinds of completions, with the posts that each makes.
  unfoldable pub on_pollin : Scheduler → (address : ℕ) → Reply
  on_pollin s address = bind (instances address) (λ x.
      bind (entry s x.id) (λ known. some (if known == 0 then [] else (x.callback, x.id) ∷ [], s)))

  unfoldable pub on_poll : Scheduler → (address : ℕ) → Reply
  on_poll s address = bind (instances address) (λ x. bind (entry s x.id) (λ known.
      if known == 0
      then some ([], s)
      else bind (provide_sqe tries s.ring (watch address x.descriptor))
          (λ r. some ([], record s { ring = r }))))

  unfoldable pub on_register : Scheduler → (address : ℕ) → Reply
  on_register s address = bind (instances address) (λ x.
      bind (provide_sqe tries s.ring (watch address x.descriptor)) (λ r.
        bind (entry s x.id) (λ known.
          some ([], record s { ring = r; executors = replace s.executors x.id address }))))

  unfoldable pub on_unregister : Scheduler → (id : ℕ) → Reply
  on_unregister s id = bind (entry s id) (λ address.
      if address == 0
      then some ([], s)
      else bind (provide_sqe tries s.ring (unwatch address)) (λ r. bind (instances address) (λ x.
        some
          ((x.callback, x.id) ∷ [], record s { ring = r; executors = replace s.executors id 0 }))))

  -- What the thread does, with the posts it makes; `exited` is its return.
  pub data Handled : Type 0 where
    exited : List Post → Scheduler → Handled
    handled : List Post → Scheduler → Handled
    fault : Handled

  abbrev pub settle : Reply → Handled
  settle none = fault
  settle (some (posts, s)) = handled posts s

  unfoldable pub dispatch : Scheduler → (bits user_data : ℕ) → Handled
  dispatch s bits user_data =
      if has bits pollin
      then settle (on_pollin s user_data)
      else if has bits scheduler_poll
      then settle (on_poll s user_data)
      else if has bits scheduler_register
      then settle (on_register s user_data)
      else if has bits scheduler_unregister
      then settle (on_unregister s user_data)
      else handled [] s

  unfoldable pub handle : Scheduler → Cqe → Handled
  handle s cqe = elim cqe.result [
    | negsuc n ↦ handled [] s
    | pos bits ↦
        if not s.active
        then exited [] (record s { initialized = false })
        else dispatch s bits cqe.completed
  ]

  abbrev pub after : List Post → Handled → Handled
  after posts (exited more s) = exited (posts ++ more) s
  after posts (handled more s) = handled (posts ++ more) s
  after posts fault = fault

  -- One round of the thread, on the completions that are ready; posts are given in order.
  unfoldable pub round : Scheduler → List Cqe → Handled
  round s [] = handled [] s
  round s (cqe ∷ ready) = elim (handle s cqe) [
    | exited posts t ↦ exited posts t
    | fault ↦ fault
    | handled posts t ↦ after posts (round t ready)
  ]

  -- The round with what follows it in the loop.
  unfoldable pub listen_round : Scheduler → List Cqe → Handled
  listen_round s ready = elim (round s ready) [
    | exited posts t ↦ exited posts t
    | fault ↦ fault
    | handled posts t ↦ handled posts (record t { ring = cq_advance t.ring (length ready) })
  ]

  -- `executor_scheduler_shutdown` up to its wait; `none` where it returns at once.
  unfoldable pub request_shutdown : Scheduler → Option Scheduler
  request_shutdown s =
      if not s.initialized
      then none
      else if not s.active
      then none
      else bind (provide_sqe tries s.ring (record { request = no_op; user_data = 0; flags = 0 }))
          (λ r. some (record s { active = false; ring = submit r }))
