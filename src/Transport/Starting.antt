-- ===== src/Transport/Starting.antt =====
-- Each operation either starts, with one request on the ring and one event in the table, or leaves
-- everything as it is.
use mathlib.Core.Path.{subst}
use feng_shui.Prelude.{
  ℕ, ◌≡◌, ◌⊎◌, inl, inr, refl, sym, ap, ◌∙◌, Bool-cases, Option-cases, true, false, some, List, [],
  ◌∷◌, ◌++◌,
}
use feng_shui.Prelude.Int.{ℤ, pos}
use feng_shui.Uring.{Uring, Sqe, posted, posted-enqueue}
use feng_shui.EventMap.{EventMap, Event}
use feng_shui.Executor.{Executor, module_error_code}
use feng_shui.Transport.{
  Transport, Endpoint, infinity, tag, own_tag, event_accept, event_connect, event_client,
  event_server, with_ring, transport_add_event,
}
use feng_shui.Transport.Ready.{IsReady}
use feng_shui.Transport.Requests.{
  Outcome, guarded, started, transport_write, transport_read, transport_send_message,
  transport_receive_message, transport_connect, transport_accept,
}

pub data Operation : Type 0 where
  writes : (fd buffer_id offset : ℕ) → ℤ → (event sqe_flags : ℕ) → Operation
  reads : (fd buffer_id offset : ℕ) → ℤ → (event sqe_flags : ℕ) → Operation
  sends :
      (fd buffer_id : ℕ)
      → List ℕ
      → (family message_flags : ℕ) → ℤ
      → (event sqe_flags : ℕ) → Operation
  receives : (fd buffer_id family message_flags : ℕ) → ℤ → (event sqe_flags : ℕ) → Operation
  connects : Endpoint → ℤ → Operation
  accepts : Endpoint → Operation

-- Descriptor, user data, flags and timeout of the request and the event of an operation.
abbrev pub identity : Operation → ℕ × ℕ × ℕ × ℤ
identity (writes fd b offset timeout event flags) = (fd, tag fd b event, flags, timeout)
identity (reads fd b offset timeout event flags) = (fd, tag fd b event, flags, timeout)
identity (sends fd b address family message_flags timeout event flags) =
    (fd, tag fd b event, flags, timeout)
identity (receives fd b family message_flags timeout event flags) =
    (fd, tag fd b event, flags, timeout)
identity (connects client timeout) =
    (client.fd, own_tag client.fd event_connect event_client, 0, timeout)
identity (accepts server) = (server.fd, own_tag server.fd event_accept event_server, 0, infinity)

abbrev pub event_of : Operation → ℕ → Event
event_of operation now =
    let (fd, key, flags, timeout) = identity operation in
    record { user_data = key; timeout = timeout; timestamp = now; fd = fd }

module _ (uring : Uring) (map : EventMap) (sun_len : List ℕ → ℕ) where
  open uring use {Ring, full, enqueue, enqueue-room}
  open map use {Map, slots, put}

  abbrev pub perform : Transport uring map → ℕ → Operation → Outcome uring map sun_len
  perform t now (writes fd b offset timeout event flags) =
      transport_write uring map sun_len t fd b offset timeout event flags now
  perform t now (reads fd b offset timeout event flags) =
      transport_read uring map sun_len t fd b offset timeout event flags now
  perform t now (sends fd b address family message_flags timeout event flags) =
      transport_send_message uring map sun_len t fd b address family message_flags timeout event
        flags now
  perform t now (receives fd b family message_flags timeout event flags) =
      transport_receive_message uring map sun_len t fd b family message_flags timeout event flags
        now
  perform t now (connects client timeout) = transport_connect uring map sun_len t client timeout now
  perform t now (accepts server) = transport_accept uring map sun_len t server now

  -- The result of an operation that meets no undefined behaviour.
  abbrev pub Starts : Transport uring map → ℕ → Operation → ℤ × Transport uring map → Type 0
  Starts t now operation (code, u) =
      ((code ≡ module_error_code) × (u ≡ t) × (full t.executor.ring ≡ true))
      ⊎ ((code ≡ pos 0)
          × (u.events ≡ put t.events (event_of operation now))
          × ((entry : Sqe) × (posted uring u.executor.ring
                ≡ posted uring t.executor.ring ++ entry ∷ [])
              × (entry.user_data ≡ (identity operation).1)
              × (entry.flags ≡ (identity operation).2)))

  -- The operation runs without undefined behaviour, and leaves the headers well formed.
  abbrev pub Runs :
      Transport uring map → ℕ → (count : ℕ) → Operation → Outcome uring map sun_len → Type 0
  Runs t now count operation result =
      (out : ℤ × Transport uring map) × (result ≡ some out)
      × Starts t now operation out
      × IsReady uring map count out.1

  pub guarded-Runs :
      (t : Transport uring map) (now count : ℕ) (operation : Operation)
      (rest : Outcome uring map sun_len)
      → IsReady uring map count t
      → (full t.executor.ring ≡ false → Runs t now count operation rest)
      → Runs t now count operation (guarded uring map sun_len t rest)
  guarded-Runs t now count operation rest ready run = elim (Bool-cases (full t.executor.ring)) [
    | inl h ↦ ((module_error_code, t), rw h refl, inl (refl, refl, h), ready)
    | inr h ↦ let (out, ran, starts, good) = run h in (out, rw h ran, starts, good)
  ]

  pub started-Runs :
      (t u : Transport uring map) (now count : ℕ) (operation : Operation) (entry : Sqe)
      → IsReady uring map count u
      → full t.executor.ring ≡ false
      → u.executor ≡ t.executor
      → u.events ≡ t.events
      → entry.user_data ≡ (identity operation).1
      → entry.flags ≡ (identity operation).2
      → Runs t now count operation
          (started uring map sun_len u (identity operation).0 entry (identity operation).3 now)
  started-Runs t u now count operation entry ready room same_executor same_events tagged flagged =
      elim (Option-cases (enqueue u.executor.ring entry)) [
        | inl none_left ↦ absurd (
            enqueue-room u.executor.ring entry
              (subst (λ (e : Executor uring). full e.ring ≡ false) (sym same_executor) room)
              none_left)
        | inr (r, e) ↦ (
          (
            pos 0,
            transport_add_event uring map (with_ring uring map u r) (identity operation).0
                entry.user_data (identity operation).3 now,
          ),
          rw e refl,
          inr (
            refl,
            ap
                  (λ (key : ℕ). put u.events (record {
                    user_data = key;
                    timeout = (identity operation).3;
                    timestamp = now;
                    fd = (identity operation).0;
                  }))
                  tagged
                ∙ ap (λ (m : Map). put m (event_of operation now)) same_events,
            (
              entry,
              posted-enqueue uring u.executor.ring entry r e
                  ∙ ap (λ (x : Executor uring). posted uring x.ring ++ entry ∷ []) same_executor,
              tagged,
              flagged,
            ),
          ),
          record {
            buffered = ready.buffered;
            for_inet = ready.for_inet;
            for_unix = ready.for_unix;
          },
        )
      ]
