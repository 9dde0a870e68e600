-- ===== src/Sockets/Endpoints.antt =====
-- transport/native/transport/client.c and server.c: sockets put to use. Memory that they ask for is
-- granted, and zeroed; a socket path that does not fit its address is undefined behaviour, `none`.
use feng_shui.Prelude.{ℕ, ◌-◌, ◌%◌, Bool, Option, none, some, List, ◌∷◌, ltb, if◌then◌else◌, length}
use feng_shui.Prelude.Int.{ℤ, pos, negsuc}
use feng_shui.Sockets.{
  Address, inet_address, unix_address, Call, bind_socket, listen_socket, Configuration, is_negative,
}
use feng_shui.Sockets.Settings.{
  transport_socket_create_tcp, transport_socket_create_udp, transport_socket_create_unix_stream,
}

-- TRANSPORT_SOCKET_FAMILY_*
abbrev pub family_inet : ℕ
family_inet = 0

abbrev pub family_unix : ℕ
family_unix = 1

-- `struct transport_client` and `struct transport_server`: `address` is a client's destination, and
-- a server's own; `source` is the source address of a client that has one.
pub record Peer : Type 0 where
  pub fd : ℤ
  pub family : ℕ
  pub address : Address
  pub source : Option Address
  pub address_length : ℕ
  pub initialization_error : ℤ

-- The conversion to `int8_t`.
unfoldable pub int8 : ℤ → ℤ
int8 (pos n) = if ltb (n % 256) 128 then pos (n % 256) else negsuc (255 - n % 256)
int8 (negsuc n) = if ltb (n % 256) 128 then negsuc (n % 256) else pos (255 - n % 256)

abbrev pub inet_peer : Address → Peer
inet_peer address = record {
  fd = pos 0;
  family = family_inet;
  address = address;
  source = none;
  address_length = 16;
  initialization_error = pos 0;
}

abbrev pub unix_peer : List ℕ → Peer
unix_peer path = record {
  fd = pos 0;
  family = family_unix;
  address = unix_address path;
  source = none;
  address_length = 110;
  initialization_error = pos 0;
}

-- `strcpy` into `sun_path`, of 108 bytes.
abbrev pub path_fits : List ℕ → Bool
path_fits path = ltb (length path) 108

-- `if (result < 0) { ...initialization_error = result; return ...; }`
abbrev pub checked : Peer → ℤ → List Call → Peer × List Call → Peer × List Call
checked peer result calls rest =
    if is_negative result then (record peer { initialization_error = int8 result }, calls) else rest

module _ (kernel : List Call → ℤ) where
  abbrev pub bound : Peer → Address → List Call → (List Call → Peer × List Call) → Peer × List Call
  bound peer address calls rest =
      let done = bind_socket peer.fd address ∷ calls in checked peer (kernel done) done (rest done)

  abbrev pub listening : Peer → (backlog : ℕ) → List Call → Peer × List Call
  listening peer backlog calls =
      let done = listen_socket peer.fd backlog ∷ calls in
      checked peer (kernel done) done (peer, done)

  unfoldable pub transport_client_initialize_tcp :
      Configuration → (ip port : ℕ) → List Call → Peer × List Call
  transport_client_initialize_tcp c ip port calls =
      let peer = inet_peer (inet_address ip port) in
      let (result, done) = transport_socket_create_tcp kernel c calls in
      checked peer result done (record peer { fd = result }, done)

  unfoldable pub transport_client_initialize_udp :
      Configuration → (ip port source_ip source_port : ℕ) → List Call → Peer × List Call
  transport_client_initialize_udp c ip port source_ip source_port calls =
      let source = inet_address source_ip source_port in
      let peer : Peer = record (inet_peer (inet_address ip port)) { source = some source } in
      let (result, done) = transport_socket_create_udp kernel c calls in
      checked peer result done (
        bound (record peer { fd = result }) source done
          (λ after. (record peer { fd = result }, after)))

  unfoldable pub transport_client_initialize_unix_stream :
      Configuration → (path : List ℕ) → List Call → Option (Peer × List Call)
  transport_client_initialize_unix_stream c path calls =
      let peer = unix_peer path in
      let (result, done) = transport_socket_create_unix_stream kernel c calls in
      if path_fits path
      then some (checked peer result done (record peer { fd = result }, done))
      else none

  unfoldable pub transport_server_initialize_tcp :
      Configuration → (ip port : ℕ) → List Call → Peer × List Call
  transport_server_initialize_tcp c ip port calls =
      let peer = inet_peer (inet_address ip port) in
      let (result, done) = transport_socket_create_tcp kernel c calls in
      checked peer result done (
        bound (record peer { fd = result }) peer.address done
          (listening (record peer { fd = result }) c.max_connections))

  unfoldable pub transport_server_initialize_udp :
      Configuration → (ip port : ℕ) → List Call → Peer × List Call
  transport_server_initialize_udp c ip port calls =
      let peer = inet_peer (inet_address ip port) in
      let (result, done) = transport_socket_create_udp kernel c calls in
      checked peer result done (
        bound (record peer { fd = result }) peer.address done
          (λ after. (record peer { fd = result }, after)))

  unfoldable pub transport_server_initialize_unix_stream :
      Configuration → (path : List ℕ) → List Call → Option (Peer × List Call)
  transport_server_initialize_unix_stream c path calls =
      let peer = unix_peer path in
      let (result, done) = transport_socket_create_unix_stream kernel c calls in
      if path_fits path
      then some (
          checked peer result done (
            bound (record peer { fd = result }) peer.address done
              (listening (record peer { fd = result }) c.max_connections)))
      else none
