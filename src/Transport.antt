-- ===== src/Transport.antt =====
-- transport/native/transport/transport.c: operations on descriptors, each a request on the ring of
-- the transport's executor and an entry in the table of operations under way, which may time out or
-- be cancelled.
-- A result of `none` is undefined behaviour of the C code. Descriptors are words of 32 bits.
pub mod Tags
pub mod Requests
pub mod Endings
pub mod Ready
pub mod Starting
pub mod Performing
pub mod Setup
pub mod Sweeping
pub mod Cancelling
pub mod Timing
pub mod Removing
mod Tests
use feng_shui.Prelude.{
  ℕ, zero, suc, ◌+◌, ◌-◌, ◌%◌, ◌^◌, bit_or, bit_and, Bool, true, false, Option, none, some, List,
  [], ◌∷◌, ◌++◌, ◌==◌, ltb, leb, if◌then◌else◌, get_elem?, set, take, drop, length, replicate, u32,
  u64, ◌<<<◌, ◌>>>◌, bind, low_mask,
}
use feng_shui.Prelude.Int.{ℤ, pos, negsuc}
use feng_shui.Uring.{
  Uring, Sqe, Request, write_fixed, read_fixed, send_message, receive_message, connect, accept,
  cancel, cancel_all, skip_success,
}
use feng_shui.EventMap.{EventMap, Event}
use feng_shui.Executor.{Executor, executor_submit, module_error_code}

-- TRANSPORT_SOCKET_FAMILY_*
abbrev pub inet : ℕ
inet = 0

abbrev pub unix : ℕ
unix = 1

-- TRANSPORT_EVENT_*
abbrev pub event_accept : ℕ
event_accept = 16

abbrev pub event_connect : ℕ
event_connect = 32

abbrev pub event_client : ℕ
event_client = 64

abbrev pub event_server : ℕ
event_server = 256

-- TRANSPORT_TIMEOUT_INFINITY
abbrev pub infinity : ℤ
infinity = negsuc 0

-- The user data of a request; a client's or server's request has no buffer.
unfoldable pub tag : (fd buffer event : ℕ) → ℕ
tag fd buffer event = bit_or (bit_or (fd <<< 32) (buffer <<< 16)) event

unfoldable pub own_tag : (fd operation owner : ℕ) → ℕ
own_tag fd operation owner = bit_or (fd <<< 32) (bit_or operation owner)

-- What the Dart code takes out of the user data of a completion: event, descriptor, buffer.
unfoldable pub parts_of_tag : ℕ → ℕ × ℕ × ℕ
parts_of_tag key = (
  bit_and key (low_mask 16),
  bit_and (key >>> 32) (low_mask 32),
  bit_and (key >>> 16) (low_mask 16),
)

-- `struct iovec`
pub record Buffer : Type 0 where
  pub base : ℕ
  pub size : ℕ

-- `struct msghdr`, with the bytes behind `msg_name`. `part` is the static buffer that `msg_iov`
-- points to.
pub record Message : Type 0 where
  pub name : List ℕ
  pub name_length : ℕ
  pub control : ℕ
  pub control_length : ℕ
  pub part : ℕ
  pub parts : ℕ
  pub message_flags : ℕ

-- The fields of `struct transport_client` and `struct transport_server` that are used here, the
-- addresses being those of the two families. `address_length` is a client's length, and the place of
-- a server's.
pub record Endpoint : Type 0 where
  pub fd : ℕ
  pub family : ℕ
  pub inet_address : ℕ
  pub unix_address : ℕ
  pub address_length : ℕ

-- sizeof(struct sockaddr_in), sizeof(struct sockaddr_un) on Linux.
abbrev pub inet_size : ℕ
inet_size = 16

abbrev pub unix_size : ℕ
unix_size = 110

-- What `message` is made to hold in both message operations.
abbrev pub one_part : Message → ℕ → Message
one_part message buffer = record message {
  control = 0;
  control_length = 0;
  part = buffer;
  parts = 1;
  message_flags = 0;
}

-- `memcpy` of `name_length` bytes of an address over the name of a message.
unfoldable pub copy_name : Message → List ℕ → Option Message
copy_name message address =
    if leb message.name_length (length address)
    then if leb message.name_length (length message.name)
      then some (record message {
        name = take message.name_length address ++ drop message.name_length message.name;
      })
      else none
    else none

-- `memset` of the name to zero.
unfoldable pub clear_name : Message → Option Message
clear_name message =
    if leb message.name_length (length message.name)
    then some (record message {
      name = replicate message.name_length 0 ++ drop message.name_length message.name;
    })
    else none

-- `current_time - timestamp > timeout`: C converts both sides to `uint64_t`.
unfoldable pub unsigned : ℤ → ℕ
unsigned (pos n) = u64 n
unsigned (negsuc n) = 2 ^ 64 - 1 - u64 n

unfoldable pub expired : (now timestamp : ℕ) → ℤ → Bool
expired now timestamp timeout = ltb (unsigned timeout) (u64 (now + (2 ^ 64 - u64 timestamp)))

unfoldable pub is_infinite : ℤ → Bool
is_infinite (pos n) = false
is_infinite (negsuc zero) = true
is_infinite (negsuc (suc n)) = false

-- The request that cancels an operation.
abbrev pub cancellation : ℕ → Sqe
cancellation key = record { request = cancel key cancel_all; user_data = 0; flags = skip_success }

module _ (uring : Uring) (map : EventMap) where
  open uring use {Ring, enqueue}
  open map use {Map, slots, put, find, del}

  -- `struct transport`
  pub record Transport : Type 0 where
    pub buffers : List Buffer
    pub executor : Executor uring
    pub inet_messages : List Message
    pub unix_messages : List Message
    pub events : Map

  abbrev pub transport_add_event : Transport → (fd key : ℕ) → ℤ → (now : ℕ) → Transport
  transport_add_event t fd key timeout now = record t {
    events = put t.events (record { user_data = key; timeout = timeout; timestamp = now; fd = fd });
  }

  abbrev pub ring_of : Transport → Ring
  ring_of t = t.executor.ring

  abbrev pub with_ring : Transport → Ring → Transport
  with_ring t r = record t { executor = record t.executor { ring = r } }
