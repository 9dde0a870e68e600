-- ===== src/Transport/Cancelling.antt =====
-- transport_cancel_by_fd and transport_check_event_timeouts cancel what they clear, and clear what
-- they cancel.
use mathlib.Core.List.{append-nil, append_assoc}
use feng_shui.Prelude.{
  ℕ, ◌≡◌, ◌⊎◌, sym, ap, ◌∙◌, arith, Bool, true, false, not, ◌&&◌, Option, none, some, List, [], ◌∷◌,
  ◌++◌, ◌==◌, if◌then◌else◌,
}
use feng_shui.Prelude as P
use feng_shui.Prelude.Int.{ℤ, pos}
use feng_shui.Uring.{Uring, Sqe, posted, posted-enqueue}
use feng_shui.EventMap.{EventMap, Event}
use feng_shui.Executor.{module_error_code, executor_submit}
use feng_shui.Executor.Delivery.{posted-executor_submit}
use feng_shui.Transport.{Transport, cancellation, expired, is_infinite}
use feng_shui.Transport.Sweeping.{Sweep, without, tags_of}

-- The events of a descriptor, and those whose time is over.
abbrev pub of_fd : ℕ → Event → Bool
of_fd fd e = e.fd == fd

abbrev pub due : ℕ → Event → Bool
due now e = if is_infinite e.timeout then false else expired now e.timestamp e.timeout

abbrev pub cancellations : List ℕ → List Sqe
cancellations = P.map cancellation

module _ (uring : Uring) (map : EventMap) where
  open uring use {Ring, full, enqueue, enqueue-full, enqueue-room}
  open map use {Map, slots}

  pub put_one :
      (r q s : Ring) (key : ℕ) (ks : List ℕ)
      → enqueue r (cancellation key) ≡ some q
      → posted uring s ≡ posted uring q ++ cancellations ks
      → posted uring s ≡ posted uring r ++ cancellations (key ∷ ks)
  put_one r q s key ks room h =
      h
      ∙ ap (λ (xs : List Sqe). xs ++ cancellations ks)
          (posted-enqueue uring r (cancellation key) q room)
      ∙ append_assoc (posted uring r) (cancellation key ∷ []) (cancellations ks)

  -- A loop that goes through: what it sweeps, and the ring.
  abbrev pub Swept :
      (Event → Bool) → Type 0 → ℕ → List (Option Event) → Ring → List ℕ × Ring → Type 0
  Swept test refusal i ns r (ds, q) =
      (ns' : List (Option Event)) × (ks : List ℕ) × Sweep test refusal i ns ds ns' ks
      × (posted uring q ≡ posted uring r ++ cancellations ks)

  -- One that stops at a full ring: some of the operations have got their requests, and at least one
  -- has not.
  abbrev pub Stopped : List ℕ → Ring → Ring → Type 0
  Stopped tags r q =
      (ks : List ℕ) × (key : ℕ) × (rest : List ℕ) × (tags ≡ ks ++ key ∷ rest)
      × (posted uring q ≡ posted uring r ++ cancellations ks)
      × (enqueue q (cancellation key) ≡ none)
      × (full q ≡ true)

  abbrev Cancels : ℕ → ℕ → List (Option Event) → List ℕ → Ring → Bool × List ℕ × Ring → Type 0
  Cancels fd i ns tags r (through, ds, q) =
      ((through ≡ true) × Swept (of_fd fd) ⊥ i ns r (ds, q))
      ⊎ ((through ≡ false) × Stopped tags r q)

  pub nothing_put : (r : Ring) → posted uring r ≡ posted uring r ++ []
  nothing_put r = sym (append-nil (posted uring r))

  pub submitted :
      (t : Transport uring map) (r : Ring)
      → posted uring (executor_submit uring (record t.executor { ring = r })).ring ≡ posted uring r
  submitted t r = posted-executor_submit uring (record t.executor { ring = r })

  -- What `transport_cancel_by_fd` may give.
  abbrev pub Cancelled : ℕ → Transport uring map → ℤ × Transport uring map → Type 0
  Cancelled fd t (code, u) =
      ((code ≡ pos 0)
        × (slots u.events ≡ without (of_fd fd) (slots t.events))
        × (posted uring u.executor.ring
            ≡ posted uring t.executor.ring ++ cancellations (tags_of (of_fd fd) (slots t.events))))
      ⊎ ((code ≡ module_error_code)
          × (u.events ≡ t.events)
          × Stopped (tags_of (of_fd fd) (slots t.events)) t.executor.ring u.executor.ring)
