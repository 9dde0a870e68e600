-- ===== src/Uring.antt =====
-- liburing, which is not part of the repository, as the code uses it: submission entries, their
-- queue, and what the kernel has been given. The laws are what its manual pages state, for a kernel
-- that takes every entry submitted.
pub mod Bounded
use mathlib.Core.Path.{ap₂}
use mathlib.Core.List.{append_assoc, append-nil}
use feng_shui.Prelude.{
  ℕ, ◌+◌, ◌≡◌, ◌≢◌, sym, ◌∙◌, Bool, true, false, Option, none, some, List, [], ◌∷◌, ◌++◌,
}
use feng_shui.Prelude.Int.{ℤ}

-- What an `io_uring_prep_*` call asks for. A pointer to a message header is the table that holds
-- it, by its socket family, and the place there.
pub data Request : Type 0 where
  write_fixed : (fd base length offset buffer : ℕ) → Request
  read_fixed : (fd base length offset buffer : ℕ) → Request
  send_message : (fd family message flags : ℕ) → Request
  receive_message : (fd family message flags : ℕ) → Request
  connect : (fd address length : ℕ) → Request
  accept : (fd address length : ℕ) → Request
  cancel : (user_data flags : ℕ) → Request
  message_ring : (fd result user_data : ℕ) → Request
  poll_add : (fd mask : ℕ) → Request
  poll_remove : (user_data : ℕ) → Request
  no_op : Request

-- `user_data` counts as 0 where the code does not set it.
pub record Sqe : Type 0 where
  pub request : Request
  pub user_data : ℕ
  pub flags : ℕ

pub record Cqe : Type 0 where
  pub result : ℤ
  pub completed : ℕ

-- IOSQE_CQE_SKIP_SUCCESS of the kernel's interface: 1 << 6.
abbrev pub skip_success : ℕ
skip_success = 64

-- IORING_ASYNC_CANCEL_ALL of the kernel's interface: 1 << 0.
abbrev pub cancel_all : ℕ
cancel_all = 1

-- POLLIN of the C library: 0x001.
abbrev pub pollin : ℕ
pollin = 1

pub record Uring : Type 1 where
  pub Ring : Type 0
  -- Entries filled and not yet submitted, and those submitted, both oldest first.
  pub queued : Ring → List Sqe
  pub sent : Ring → List Sqe
  pub ready : Ring → List Cqe
  -- `io_uring_get_sqe` with the filling of the entry: `none` where it returns NULL, which it does
  -- when the ring is full.
  pub enqueue : Ring → Sqe → Option Ring
  pub full : Ring → Bool
  pub submit : Ring → Ring
  -- `io_uring_submit_and_wait`, `io_uring_submit_and_get_events`
  pub submit_and_wait : Ring → Ring
  pub cq_advance : Ring → ℕ → Ring
  pub enqueue-full : (r : Ring) (s : Sqe) → full r ≡ true → enqueue r s ≡ none
  pub enqueue-room : (r : Ring) (s : Sqe) → full r ≡ false → enqueue r s ≢ none
  pub queued-enqueue :
      (r : Ring) (s : Sqe) (t : Ring) → enqueue r s ≡ some t → queued t ≡ queued r ++ s ∷ []
  pub sent-enqueue : (r : Ring) (s : Sqe) (t : Ring) → enqueue r s ≡ some t → sent t ≡ sent r
  pub queued-submit : (r : Ring) → queued (submit r) ≡ []
  pub sent-submit : (r : Ring) → sent (submit r) ≡ sent r ++ queued r
  pub queued-submit_and_wait : (r : Ring) → queued (submit_and_wait r) ≡ []
  pub sent-submit_and_wait : (r : Ring) → sent (submit_and_wait r) ≡ sent r ++ queued r
  -- A ring has at least one entry, so an empty queue has room.
  pub enqueue-empty : (r : Ring) (s : Sqe) → queued r ≡ [] → enqueue r s ≢ none
  pub queued-cq_advance : (r : Ring) (n : ℕ) → queued (cq_advance r n) ≡ queued r
  pub sent-cq_advance : (r : Ring) (n : ℕ) → sent (cq_advance r n) ≡ sent r

module _ (uring : Uring) where
  open uring use {
    Ring, queued, sent, enqueue, submit, queued-enqueue, sent-enqueue, queued-submit, sent-submit,
  }

  -- All that has been put on a ring, oldest first, whether the kernel has it or not.
  abbrev pub posted : Ring → List Sqe
  posted r = sent r ++ queued r

  pub posted-enqueue :
      (r : Ring) (s : Sqe) (t : Ring) → enqueue r s ≡ some t → posted t ≡ posted r ++ s ∷ []
  posted-enqueue r s t e =
      ap₂ ◌++◌ (sent-enqueue r s t e) (queued-enqueue r s t e)
      ∙ sym (append_assoc (sent r) (queued r) (s ∷ []))

  pub posted-submit : (r : Ring) → posted (submit r) ≡ posted r
  posted-submit r = rw (queued-submit, sent-submit, append-nil)
