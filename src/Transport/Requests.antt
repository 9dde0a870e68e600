-- ===== src/Transport/Requests.antt =====
-- The operations of transport/native/transport/transport.c that put a request on the ring: write,
-- read, send_message, receive_message, connect, accept. `now` is what `time(NULL)` gives.
use feng_shui.Prelude.{ℕ, Option, none, some, List, ◌==◌, if◌then◌else◌, get_elem?, set, bind}
use feng_shui.Prelude.Int.{ℤ, pos}
use feng_shui.Uring.{
  Uring, Sqe, write_fixed, read_fixed, send_message, receive_message, connect, accept,
}
use feng_shui.EventMap.{EventMap}
use feng_shui.Executor.{module_error_code}
use feng_shui.Transport.{
  Transport, Message, Endpoint, inet, unix, event_accept, event_connect, event_client, event_server,
  infinity, tag, own_tag, inet_size, unix_size, one_part, copy_name, clear_name,
  transport_add_event, with_ring,
}

-- Writes a message header of a table; there is none at a place outside it.
abbrev pub at_message : List Message → ℕ → (Message → Option Message) → Option (List Message)
at_message messages i change =
    bind (get_elem? messages i) (λ m. bind (change m) (λ n. some (set messages i n)))

-- `sun_len` is the C library's SUN_LEN.
module _ (uring : Uring) (map : EventMap) (sun_len : List ℕ → ℕ) where
  open uring use {enqueue, full}

  abbrev pub Outcome : Type 0
  Outcome = Option (ℤ × Transport uring map)

  -- What each operation begins with: the ring must not be full.
  abbrev pub guarded : Transport uring map → Outcome → Outcome
  guarded t rest = if full t.executor.ring then some (module_error_code, t) else rest

  -- What each operation ends with: its entry filled in, and its event added.
  abbrev pub started : Transport uring map → (fd : ℕ) → Sqe → ℤ → (now : ℕ) → Outcome
  started t fd entry timeout now = bind (enqueue t.executor.ring entry) (λ r. some (
    pos 0,
    transport_add_event uring map (with_ring uring map t r) fd entry.user_data timeout now,
  ))

  unfoldable pub transport_write :
      Transport uring map → (fd buffer_id offset : ℕ) → ℤ → (event sqe_flags now : ℕ) → Outcome
  transport_write t fd buffer_id offset timeout event sqe_flags now = guarded t (
      bind (get_elem? t.buffers buffer_id) (λ buffer.
        started t fd
          (record {
            request = write_fixed fd buffer.base buffer.size offset buffer_id;
            user_data = tag fd buffer_id event;
            flags = sqe_flags;
          })
          timeout now))

  unfoldable pub transport_read :
      Transport uring map → (fd buffer_id offset : ℕ) → ℤ → (event sqe_flags now : ℕ) → Outcome
  transport_read t fd buffer_id offset timeout event sqe_flags now = guarded t (
      bind (get_elem? t.buffers buffer_id) (λ buffer.
        started t fd
          (record {
            request = read_fixed fd buffer.base buffer.size offset buffer_id;
            user_data = tag fd buffer_id event;
            flags = sqe_flags;
          })
          timeout now))

  -- The header that a message operation fills in, by the family; there is none for another family.
  abbrev pub prepared :
      Transport uring map
      → (family buffer_id : ℕ) → (for_inet for_unix : Message → Option Message)
      → Option (Transport uring map)
  prepared t family buffer_id for_inet for_unix =
      if family == inet
      then bind (at_message t.inet_messages buffer_id for_inet)
          (λ ms. some (record t { inet_messages = ms }))
      else if family == unix
      then bind (at_message t.unix_messages buffer_id for_unix)
          (λ ms. some (record t { unix_messages = ms }))
      else none

  unfoldable pub transport_send_message :
      Transport uring map
      → (fd buffer_id : ℕ) → (address : List ℕ) → (socket_family message_flags : ℕ) → ℤ
      → (event sqe_flags now : ℕ) → Outcome
  transport_send_message t fd buffer_id address socket_family message_flags timeout event sqe_flags
        now =
      guarded t (
        bind
          (prepared t socket_family buffer_id
            (λ m. bind (copy_name m address) (λ n. some (one_part n buffer_id)))
            (λ m.
              bind (copy_name (record m { name_length = sun_len address }) address)
                (λ n. some (one_part n buffer_id))))
          (λ u.
            started u fd
              (record {
                request = send_message fd socket_family buffer_id message_flags;
                user_data = tag fd buffer_id event;
                flags = sqe_flags;
              })
              timeout now))

  unfoldable pub transport_receive_message :
      Transport uring map
      → (fd buffer_id socket_family message_flags : ℕ) → ℤ
      → (event sqe_flags now : ℕ) → Outcome
  transport_receive_message t fd buffer_id socket_family message_flags timeout event sqe_flags now =
      guarded t (
        bind
          (prepared t socket_family buffer_id
            (λ m.
              bind (clear_name (record m { name_length = inet_size }))
                (λ n. some (one_part n buffer_id)))
            (λ m.
              bind (clear_name (record m { name_length = unix_size }))
                (λ n. some (one_part n buffer_id))))
          (λ u.
            started u fd
              (record {
                request = receive_message fd socket_family buffer_id message_flags;
                user_data = tag fd buffer_id event;
                flags = sqe_flags;
              })
              timeout now))

  abbrev pub address_of : Endpoint → ℕ
  address_of e = if e.family == inet then e.inet_address else e.unix_address

  unfoldable pub transport_connect : Transport uring map → Endpoint → ℤ → (now : ℕ) → Outcome
  transport_connect t client timeout now = guarded t (
      started t client.fd
        (record {
          request = connect client.fd (address_of client) client.address_length;
          user_data = own_tag client.fd event_connect event_client;
          flags = 0;
        })
        timeout now)

  unfoldable pub transport_accept : Transport uring map → Endpoint → (now : ℕ) → Outcome
  transport_accept t server now = guarded t (
      started t server.fd
        (record {
          request = accept server.fd (address_of server) server.address_length;
          user_data = own_tag server.fd event_accept event_server;
          flags = 0;
        })
        infinity now)
