-- ===== src/Transport/Performing.antt =====
-- Every operation of the transport runs on every ring.
use feng_shui.Prelude.{
  ℕ, ◌≤◌, ◌<◌, ◌≡◌, ◌⊎◌, inl, inr, refl, arith, false, Option, some, List, bind, get_elem?, length,
  take-suc,
}
use feng_shui.Uring.{Uring, Sqe}
use feng_shui.EventMap.{EventMap}
use feng_shui.Transport.{
  Transport, Message, Buffer, inet, unix, inet_size, unix_size, one_part, copy_name, clear_name,
}
use feng_shui.Transport.Ready.{
  IsReady, Keeps, named-Keeps, renamed-Keeps, cleared-Keeps, prepared-IsReady,
}
use feng_shui.Transport.Requests.{
  started, prepared, transport_write, transport_read, transport_send_message,
  transport_receive_message, transport_connect, transport_accept,
}
use feng_shui.Transport.Starting.{
  Operation, writes, reads, sends, receives, connects, accepts, perform, Runs, guarded-Runs,
  started-Runs, identity,
}

-- The arguments are in range, for `count` static buffers.
abbrev pub Fits : (List ℕ → ℕ) → (count : ℕ) → Operation → Type 0
Fits sun_len count (writes fd b offset timeout event flags) = b < count
Fits sun_len count (reads fd b offset timeout event flags) = b < count
Fits sun_len count (sends fd b address family message_flags timeout event flags) =
    (b < count)
    × (((family ≡ inet) × (inet_size ≤ length address))
        ⊎ ((family ≡ unix) × (sun_len address ≤ unix_size) × (sun_len address ≤ length address)))
Fits sun_len count (receives fd b family message_flags timeout event flags) =
    (b < count) × ((family ≡ inet) ⊎ (family ≡ unix))
Fits sun_len count (connects client timeout) = Unit
Fits sun_len count (accepts server) = Unit

module _ (uring : Uring) (map : EventMap) (sun_len : List ℕ → ℕ) where
  open uring use {full}

  with_buffer :
      (t : Transport uring map) (now count b : ℕ) (operation : Operation) (entry : Buffer → Sqe)
      → IsReady uring map count t
      → b < count
      → ((buffer : Buffer)
          → ((entry buffer).user_data ≡ (identity operation).1)
            × ((entry buffer).flags ≡ (identity operation).2))
      → full t.executor.ring ≡ false
      → Runs uring map sun_len t now count operation (
          bind (get_elem? t.buffers b) (λ buffer.
            started uring map sun_len t
              (identity operation).0
              (entry buffer)
              (identity operation).3
              now))
  with_buffer t now count b operation entry ready inside fits room =
      let (buffer, found, parts) = take-suc b t.buffers (omega (arith, ready.buffered)) in
      let (out, ran, starts, good) =
        started-Runs uring map sun_len t t now count operation (entry buffer) ready room refl refl
          (fits buffer).0 (fits buffer).1 in
      (out, rw found ran, starts, good)

  with_message :
      (t : Transport uring map) (now count family b : ℕ) (operation : Operation) (entry : Sqe)
      (for_inet for_unix : Message → Option Message)
      → IsReady uring map count t
      → b < count
      → ((family ≡ inet) × Keeps inet_size inet_size for_inet)
        ⊎ ((family ≡ unix) × Keeps unix_size 0 for_unix)
      → entry.user_data ≡ (identity operation).1
      → entry.flags ≡ (identity operation).2
      → full t.executor.ring ≡ false
      → Runs uring map sun_len t now count operation (
          bind (prepared uring map sun_len t family b for_inet for_unix) (λ u.
            started uring map sun_len u (identity operation).0 entry (identity operation).3 now))
  with_message t now count family b operation entry f g ready inside keeps tagged flagged room =
      let (u, prep, executor, events, ready') =
        prepared-IsReady uring map sun_len t count family b f g ready inside keeps in
      let (out, ran, starts, good) =
        started-Runs uring map sun_len t u now count operation entry ready' room executor events
          tagged flagged in
      (out, rw prep ran, starts, good)

  -- An operation whose arguments are in range, on a transport with well-formed message headers,
  -- meets no undefined behaviour. Either the ring is full, and it gives the error code and changes
  -- nothing; or it gives 0, puts one request with its tag and flags on the ring, and adds its event
  -- to the table. The headers stay well formed.
  pub perform-Runs :
      (t : Transport uring map) (now count : ℕ) (operation : Operation)
      → IsReady uring map count t
      → Fits sun_len count operation
      → Runs uring map sun_len t now count operation (perform uring map sun_len t now operation)
  unfolding transport_write transport_read transport_send_message transport_receive_message
      transport_connect transport_accept
  perform-Runs t now count (writes fd b offset timeout event flags) ready inside =
      guarded-Runs uring map sun_len t now count (writes fd b offset timeout event flags) _ ready (
        with_buffer t now count b (writes fd b offset timeout event flags) _ ready inside
          (λ buffer. (refl, refl)))
  perform-Runs t now count (reads fd b offset timeout event flags) ready inside =
      guarded-Runs uring map sun_len t now count (reads fd b offset timeout event flags) _ ready (
        with_buffer t now count b (reads fd b offset timeout event flags) _ ready inside
          (λ buffer. (refl, refl)))
  perform-Runs t now count (sends fd b address family m timeout event flags) ready (inside, fits) =
      guarded-Runs uring map sun_len t now count (sends fd b address family m timeout event flags) _
        ready
        (with_message t now count family b (sends fd b address family m timeout event flags) _ _ _
          ready inside (keeps fits) refl refl)
    where
      keeps :
          ((family ≡ inet) × (inet_size ≤ length address))
            ⊎ ((family ≡ unix) × (sun_len address ≤ unix_size) × (sun_len address ≤ length address))
          → ((family ≡ inet)
              × Keeps inet_size inet_size
                  (λ m. bind (copy_name m address) (λ n. some (one_part n b))))
            ⊎ ((family ≡ unix)
                × Keeps unix_size 0 (λ m.
                  bind
                    (copy_name (record m { name_length = sun_len address }) address)
                    (λ n. some (one_part n b))))
      keeps (inl (h, enough)) = inl (h, named-Keeps address b enough)
      keeps (inr (h, small, enough)) =
          inr (h, renamed-Keeps address (sun_len address) b small enough)
  perform-Runs t now count (receives fd b family m timeout event flags) ready (inside, fits) =
      guarded-Runs uring map sun_len t now count (receives fd b family m timeout event flags) _
        ready
        (with_message t now count family b (receives fd b family m timeout event flags) _ _ _ ready
          inside (keeps fits) refl refl)
    where
      keeps :
          (family ≡ inet) ⊎ (family ≡ unix)
          → ((family ≡ inet)
              × Keeps inet_size inet_size (λ m.
                bind
                  (clear_name (record m { name_length = inet_size }))
                  (λ n. some (one_part n b))))
            ⊎ ((family ≡ unix)
                × Keeps unix_size 0 (λ m.
                  bind
                    (clear_name (record m { name_length = unix_size }))
                    (λ n. some (one_part n b))))
      keeps (inl h) = inl (h, cleared-Keeps inet_size inet_size b (omega arith))
      keeps (inr h) = inr (h, cleared-Keeps unix_size 0 b (omega arith))
  perform-Runs t now count (connects client timeout) ready fits =
      guarded-Runs uring map sun_len t now count (connects client timeout) _ ready (λ room.
        started-Runs uring map sun_len t t now count (connects client timeout) _ ready room refl
          refl refl refl)
  perform-Runs t now count (accepts server) ready fits =
      guarded-Runs uring map sun_len t now count (accepts server) _ ready (λ room.
        started-Runs uring map sun_len t t now count (accepts server) _ ready room refl refl refl
          refl)
