-- ===== src/Transport/Endings.antt =====
-- How operations of transport/native/transport/transport.c end: transport_cancel_by_fd,
-- transport_check_event_timeouts and transport_remove_event. The loops over the table are
-- recursions on its slots.
use feng_shui.Prelude.{
  ℕ, suc, Bool, true, false, Option, none, some, List, [], ◌∷◌, ◌==◌, if◌then◌else◌,
}
use feng_shui.Prelude.Int.{ℤ, pos}
use feng_shui.Uring.{Uring}
use feng_shui.EventMap.{EventMap, Event}
use feng_shui.Executor.{executor_submit, module_error_code}
use feng_shui.Transport.{Transport, cancellation, expired, is_infinite, with_ring}

module _ (uring : Uring) (map : EventMap) where
  open uring use {Ring, enqueue, cq_advance}
  open map use {Map, slots, find, del}

  -- From slot `index` on: whether the loop went through, the slots to clear, and the ring.
  unfoldable pub cancel_slots : (fd index : ℕ) → List (Option Event) → Ring → Bool × List ℕ × Ring
  cancel_slots fd index [] r = (true, [], r)
  cancel_slots fd index (none ∷ nodes) r = cancel_slots fd (suc index) nodes r
  cancel_slots fd index (some node ∷ nodes) r =
      if node.fd == fd
      then elim (enqueue r (cancellation node.user_data)) [
        | none ↦ (false, [], r)
        | some q ↦
            let rest = cancel_slots fd (suc index) nodes q in (rest.0, index ∷ rest.1, rest.2)
      ]
      else cancel_slots fd (suc index) nodes r

  -- The slots to clear are the expired events whose cancellation found room on the ring.
  unfoldable pub expire_slots : (now index : ℕ) → List (Option Event) → Ring → List ℕ × Ring
  expire_slots now index [] r = ([], r)
  expire_slots now index (none ∷ nodes) r = expire_slots now (suc index) nodes r
  expire_slots now index (some node ∷ nodes) r =
      if is_infinite node.timeout
      then expire_slots now (suc index) nodes r
      else if expired now node.timestamp node.timeout
      then elim (enqueue r (cancellation node.user_data)) [
        | none ↦ expire_slots now (suc index) nodes r
        | some q ↦ let rest = expire_slots now (suc index) nodes q in (index ∷ rest.0, rest.1)
      ]
      else expire_slots now (suc index) nodes r

  unfoldable pub delete_slots : Map → List ℕ → Map
  delete_slots m [] = m
  delete_slots m (i ∷ to_delete) = delete_slots (del m i) to_delete

  unfoldable pub transport_cancel_by_fd : Transport uring map → (fd : ℕ) → ℤ × Transport uring map
  transport_cancel_by_fd t fd =
      let (through, to_delete, r) = cancel_slots fd 0 (slots t.events) t.executor.ring in
      if through
      then (
        pos 0,
        record t {
          events = delete_slots t.events to_delete;
          executor = executor_submit uring (record t.executor { ring = r });
        },
      )
      else (module_error_code, with_ring uring map t r)

  -- `time(NULL)` is read once for every event; here all readings are `now`.
  unfoldable pub transport_check_event_timeouts :
      Transport uring map → (now : ℕ) → Transport uring map
  transport_check_event_timeouts t now =
      let (to_delete, r) = expire_slots now 0 (slots t.events) t.executor.ring in
      record t {
        events = delete_slots t.events to_delete;
        executor = executor_submit uring (record t.executor { ring = r });
      }

  unfoldable pub transport_remove_event : Transport uring map → (key : ℕ) → Transport uring map
  transport_remove_event t key = elim (find t.events key) [
    | none ↦ t
    | some i ↦ record t { events = del t.events i }
  ]

  unfoldable pub transport_cqe_advance : Ring → ℕ → Ring
  transport_cqe_advance ring count = cq_advance ring count
