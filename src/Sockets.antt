-- ===== src/Sockets.antt =====
-- transport/native/transport/socket.c, client.c and server.c: a socket is made and its options are
-- set, one system call after another; then a client or server takes it.
-- The kernel is a parameter: its answer to a call, given all calls so far, the newest first. The
-- three functions that make a socket are the same walk over three tables of settings.
pub mod Settings
pub mod Outcomes
pub mod Multicast
pub mod Endpoints
pub mod Errors
mod Tests
use feng_shui.Prelude.{
  ℕ, ◌+◌, ◌-◌, ◌%◌, ◌^◌, ◌*◌, Bool, true, false, ◌||◌, not, Option, none, some, List, [], ◌∷◌, ◌==◌,
  ltb, leb, if◌then◌else◌, bit_and, length,
}
use feng_shui.Prelude.Int.{ℤ, pos, negsuc}

pub data Domain : Type 0 where
  af_inet : Domain
  af_unix : Domain

pub data Kind : Type 0 where
  stream_tcp : Kind
  datagram_udp : Kind
  stream : Kind

pub data FileFlag : Type 0 where
  o_nonblock : FileFlag
  o_cloexec : FileFlag

-- The options of setsockopt, with their levels.
pub data Level : Type 0 where
  sol_socket : Level
  sol_ip : Level
  sol_tcp : Level

pub data Name : Type 0 where
  so_reuseaddr : Name
  so_reuseport : Name
  so_rcvbuf : Name
  so_sndbuf : Name
  so_broadcast : Name
  so_keepalive : Name
  so_rcvlowat : Name
  so_sndlowat : Name
  ip_ttl : Name
  ip_freebind : Name
  ip_multicast_all : Name
  ip_multicast_if : Name
  ip_multicast_loop : Name
  ip_multicast_ttl : Name
  tcp_quickack : Name
  tcp_defer_accept : Name
  tcp_fastopen : Name
  tcp_keepidle : Name
  tcp_keepcnt : Name
  tcp_keepintvl : Name
  tcp_maxseg : Name
  tcp_nodelay : Name
  tcp_syncnt : Name

-- `struct sockaddr_in` as `inet_addr` and `htons` fill it in, `struct sockaddr_un`.
pub data Address : Type 0 where
  inet_address : (address port : ℕ) → Address
  unix_address : (path : List ℕ) → Address

-- IP_ADD_MEMBERSHIP and its kin.
pub data Membership : Type 0 where
  ip_add_membership : Membership
  ip_drop_membership : Membership
  ip_add_source_membership : Membership
  ip_drop_source_membership : Membership

pub data Call : Type 0 where
  socket : Domain → Kind → Call
  get_flags : (fd : ℤ) → Call
  set_flags : (fd old : ℤ) → FileFlag → Call
  set_option : (fd : ℤ) → Level → Name → (value : ℕ) → Call
  set_membership : (fd : ℤ) → Membership → (group local_address third : ℕ) → Call
  bind_socket : (fd : ℤ) → Address → Call
  listen_socket : (fd : ℤ) → (backlog : ℕ) → Call

pub data Action : Type 0 where
  file_flag : FileFlag → Action
  option : Level → Name → (value : ℕ) → Action

-- What one block of the code does when the bit of a flag is set, or always, and the bit of the flag
-- whose negative it returns when the kernel refuses.
pub record Setting : Type 0 where
  pub bit : ℕ
  pub returned_bit : ℕ
  pub always : Bool
  pub action : Action

-- `struct transport_client_configuration`, and that of a server, which has a number of connections
-- as well; the interface by the contents of what it points to.
pub record Configuration : Type 0 where
  pub flags : ℕ
  pub receive_buffer_size : ℕ
  pub send_buffer_size : ℕ
  pub receive_low_at : ℕ
  pub send_low_at : ℕ
  pub ttl : ℕ
  pub keep_alive_idle : ℕ
  pub keep_alive_max_count : ℕ
  pub keep_alive_individual_count : ℕ
  pub max_segment_size : ℕ
  pub syn_count : ℕ
  pub multicast_interface : ℕ
  pub multicast_ttl : ℕ
  pub max_connections : ℕ

abbrev pub is_negative : ℤ → Bool
is_negative (pos n) = false
is_negative (negsuc n) = true

abbrev pub is_zero : ℤ → Bool
is_zero (pos n) = n == 0
is_zero (negsuc n) = false

abbrev pub is_minus_one : ℤ → Bool
is_minus_one (pos n) = false
is_minus_one (negsuc n) = n == 0

-- `-TRANSPORT_SOCKET_OPTION_...`, the flag being 1 << bit, for a bit above 0.
abbrev pub error_of : ℕ → ℤ
error_of bit = negsuc (2 ^ bit - 1)

abbrev pub selected : ℕ → Setting → Bool
selected flags s = s.always || not (bit_and flags (2 ^ s.bit) == 0)

module _ (kernel : List Call → ℤ) where
  -- Whether the kernel accepts a setting, and the calls.
  unfoldable pub apply : (fd : ℤ) → Action → List Call → Bool × List Call
  apply fd (file_flag flag) calls =
      let asked = get_flags fd ∷ calls in
      let done = set_flags fd (kernel asked) flag ∷ asked in
      if is_negative (kernel asked) then (false, asked) else (not (is_negative (kernel done)), done)
  apply fd (option level name value) calls =
      let done = set_option fd level name value ∷ calls in (is_zero (kernel done), done)

  unfoldable pub configure : (flags : ℕ) (fd : ℤ) → List Setting → List Call → ℤ × List Call
  configure flags fd [] calls = (fd, calls)
  configure flags fd (s ∷ settings) calls =
      let (accepted, done) = apply fd s.action calls in
      let rest = configure flags fd settings done in
      let skipped = configure flags fd settings calls in
      if selected flags s
      then (if accepted then rest else (error_of s.returned_bit, done))
      else skipped

  unfoldable pub open_socket :
      Domain → Kind → (flags : ℕ) → List Setting → List Call → ℤ × List Call
  open_socket domain kind flags settings calls =
      let done = socket domain kind ∷ calls in
      if is_minus_one (kernel done)
      then (negsuc 0, done)
      else configure flags (kernel done) settings done
