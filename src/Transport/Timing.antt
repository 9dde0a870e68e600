-- ===== src/Transport/Timing.antt =====
-- transport_check_event_timeouts: which events are over, and what becomes of them.
use mathlib.Core.Path.{subst}
use feng_shui.Prelude.{
  ℕ, suc, ◌+◌, ◌^◌, ◌<◌, ◌≡◌, ◌⊎◌, ◌↔◌, inl, inr, refl, sym, ap, ◌∙◌, arith, true, false,
  Bool-cases, Option-cases, Option, none, some, List, [], ◌∷◌, ◌++◌,
}
use feng_shui.Prelude.Int.{pos}
use feng_shui.Uring.{Uring, Sqe, posted}
use feng_shui.EventMap.{EventMap, Event}
use feng_shui.Executor.{executor_submit}
use feng_shui.Transport.{Transport, cancellation, expired, is_infinite, unsigned}
use feng_shui.Transport.Endings.{expire_slots, transport_check_event_timeouts}
use feng_shui.Transport.Sweeping.{Sweep, over, vacant, spared, refused, taken, delete_slots-Sweep}
use feng_shui.Transport.Cancelling.{due, cancellations, Swept, put_one, nothing_put}

-- For a timeout of `limit` seconds and times below 2 ^ 63, an operation counts as over when more
-- than `limit` seconds have gone by since it started, and also whenever the clock shows less than it
-- did at the start.
pub expired_lem :
    (now timestamp limit : ℕ)
    → now < 2 ^ 63
    → timestamp < 2 ^ 63
    → limit < 2 ^ 63
    → (expired now timestamp (pos limit) ≡ true) ↔ ((timestamp + limit < now) ⊎ (now < timestamp))
unfolding expired unsigned
expired_lem now timestamp limit n t l = (λ h. ground arith, λ h. ground arith)

module _ (uring : Uring) (map : EventMap) where
  open uring use {Ring, full, enqueue, enqueue-full, enqueue-room}
  open map use {Map, slots}

  -- On a full ring the loop puts nothing on it.
  full_stays :
      (now i : ℕ) (ns : List (Option Event)) (r : Ring)
      → full r ≡ true
      → (expire_slots uring map now i ns r).1 ≡ r
  unfolding expire_slots
  full_stays now i [] r h = refl
  full_stays now i (none ∷ ns) r h = full_stays now (suc i) ns r h
  full_stays now i (some e ∷ ns) r h = elim (Bool-cases (is_infinite e.timeout)) [
    | inl endless ↦ rw (endless, expire_slots) (full_stays now (suc i) ns r h)
    | inr limited ↦ elim (Bool-cases (expired now e.timestamp e.timeout)) [
      | inl late ↦
          rw (limited, late, enqueue-full r (cancellation e.user_data) h, expire_slots)
            (full_stays now (suc i) ns r h)
      | inr early ↦ rw (limited, early, expire_slots) (full_stays now (suc i) ns r h)
    ]
  ]

  abbrev Expires : ℕ → ℕ → List (Option Event) → Ring → List ℕ × Ring → Type 0
  Expires now i ns r (ds, q) = Swept uring map (due now) (full q ≡ true) i ns r (ds, q)

  kept :
      (now i : ℕ) (e : Event) (ns : List (Option Event)) (r : Ring) (out : List ℕ × Ring)
      → due now e ≡ false
      → Expires now (suc i) ns r out
      → Expires now i (some e ∷ ns) r out
  kept now i e ns r out h (ns', ks, s, put) = (some e ∷ ns', ks, spared e h s, put)

  turned_away :
      (now i : ℕ) (e : Event) (ns : List (Option Event)) (r : Ring) (out : List ℕ × Ring)
      → due now e ≡ true
      → full out.1 ≡ true
      → Expires now (suc i) ns r out
      → Expires now i (some e ∷ ns) r out
  turned_away now i e ns r out h f (ns', ks, s, put) = (some e ∷ ns', ks, refused e f h s, put)

  taken_off :
      (now i : ℕ) (e : Event) (ns : List (Option Event)) (r q : Ring) (out : List ℕ × Ring)
      → due now e ≡ true
      → enqueue r (cancellation e.user_data) ≡ some q
      → Expires now (suc i) ns q out
      → Expires now i (some e ∷ ns) r (i ∷ out.0, out.1)
  taken_off now i e ns r q out h room (ns', ks, s, put) = (
    none ∷ ns',
    e.user_data ∷ ks,
    taken e h s,
    put_one uring map r q out.1 e.user_data ks room put,
  )

  -- A ring refuses an entry only when it is full.
  refusing : (r : Ring) (s : Sqe) → enqueue r s ≡ none → full r ≡ true
  refusing r s h = elim (Bool-cases (full r)) [
    | inl f ↦ f
    | inr room ↦ absurd (enqueue-room r s room h)
  ]

  expire_slots-Expires :
      (now i : ℕ) (ns : List (Option Event)) (r : Ring)
      → Expires now i ns r (expire_slots uring map now i ns r)
  unfolding expire_slots
  expire_slots-Expires now i [] r = ([], [], over, nothing_put uring map r)
  expire_slots-Expires now i (none ∷ ns) r =
      let (ns', ks, s, put) = expire_slots-Expires now (suc i) ns r in
      (none ∷ ns', ks, vacant s, put)
  expire_slots-Expires now i (some e ∷ ns) r = elim (Bool-cases (is_infinite e.timeout)) [
    | inl endless ↦
        rw (endless, expire_slots)
          (kept now i e ns r (expire_slots uring map now (suc i) ns r) (rw endless refl)
            (expire_slots-Expires now (suc i) ns r))
    | inr limited ↦ elim (Bool-cases (expired now e.timestamp e.timeout)) [
      | inr early ↦
          rw (limited, early, expire_slots)
            (kept now i e ns r (expire_slots uring map now (suc i) ns r) (rw (limited, early) refl)
              (expire_slots-Expires now (suc i) ns r))
      | inl late ↦ elim (Option-cases (enqueue r (cancellation e.user_data))) [
        | inl none_left ↦
            let f : full r ≡ true = refusing r (cancellation e.user_data) none_left in
            rw (limited, late, none_left, expire_slots)
              (turned_away now i e ns r (expire_slots uring map now (suc i) ns r)
                (rw (limited, late) refl) (ap full (full_stays now (suc i) ns r f) ∙ f)
                (expire_slots-Expires now (suc i) ns r))
        | inr (q, room) ↦
            rw (limited, late, room, expire_slots)
              (taken_off now i e ns r q (expire_slots uring map now (suc i) ns q)
                (rw (limited, late) refl) room (expire_slots-Expires now (suc i) ns q))
      ]
    ]
  ]

  -- `transport_check_event_timeouts` cancels events that are due and clears exactly those it
  -- cancels, in the order of the table. A due event is passed over only when the ring is full at
  -- the end of the loop.
  pub check_event_timeouts-Sweep :
      (t : Transport uring map) (now : ℕ)
      → (ds ks : List ℕ) × (q : Ring) × Sweep
          (due now)
          (full q ≡ true)
          0
          (slots t.events)
          ds
          (slots (transport_check_event_timeouts uring map t now).events)
          ks
        × (posted uring q ≡ posted uring t.executor.ring ++ cancellations ks)
        × ((transport_check_event_timeouts uring map t now).executor
            ≡ executor_submit uring (record t.executor { ring = q }))
  unfolding transport_check_event_timeouts
  check_event_timeouts-Sweep t now =
      let (ns', ks, s, put) = expire_slots-Expires now 0 (slots t.events) t.executor.ring in
      let (ds, q) = expire_slots uring map now 0 (slots t.events) t.executor.ring in
      (
        ds,
        ks,
        q,
        subst
            (λ (ms : List (Option Event)).
              Sweep (due now) (full q ≡ true) 0 (slots t.events) ds ms ks)
            (sym (delete_slots-Sweep uring map t.events s)) s,
        put,
        refl,
      )
