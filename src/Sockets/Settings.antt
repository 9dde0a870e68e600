-- ===== src/Sockets/Settings.antt =====
-- The settings of each kind of socket in the order of transport/native/transport/socket.c. The bit
-- of each is that of its TRANSPORT_SOCKET_OPTION_ flag.
use feng_shui.Prelude.{ℕ, true, false, List, [], ◌∷◌}
use feng_shui.Prelude.Int.{ℤ}
use feng_shui.Sockets.{
  Configuration, Setting, Action, Call, file_flag, option, o_nonblock, o_cloexec, sol_socket,
  sol_ip, sol_tcp, so_reuseaddr, so_reuseport, so_rcvbuf, so_sndbuf, so_broadcast, so_keepalive,
  so_rcvlowat, so_sndlowat, ip_ttl, ip_freebind, ip_multicast_all, ip_multicast_if,
  ip_multicast_loop, ip_multicast_ttl, tcp_quickack, tcp_defer_accept, tcp_fastopen, tcp_keepidle,
  tcp_keepcnt, tcp_keepintvl, tcp_maxseg, tcp_nodelay, tcp_syncnt, open_socket, af_inet, af_unix,
  stream_tcp, datagram_udp, stream,
}

-- `if (flags & tested) { if (…) return -returned; }`
abbrev on_bit : (tested returned : ℕ) → Action → Setting
on_bit tested returned action = record {
  bit = tested;
  returned_bit = returned;
  always = false;
  action = action;
}

abbrev pub tcp_settings : Configuration → List Setting
tcp_settings c =
    on_bit 1 1 (file_flag o_nonblock)
    ∷ on_bit 2 2 (file_flag o_cloexec)
    ∷ on_bit 3 3 (option sol_socket so_reuseaddr 1)
    ∷ on_bit 4 4 (option sol_socket so_reuseport 1)
    ∷ on_bit 5 5 (option sol_socket so_rcvbuf (c.receive_buffer_size))
    ∷ on_bit 6 6 (option sol_socket so_sndbuf (c.send_buffer_size))
    ∷ on_bit 8 8 (option sol_socket so_keepalive 1)
    ∷ on_bit 9 9 (option sol_socket so_rcvlowat (c.receive_low_at))
    ∷ on_bit 10 10 (option sol_socket so_sndlowat (c.send_low_at))
    ∷ on_bit 11 11 (option sol_ip ip_ttl (c.ttl))
    ∷ on_bit 16 16 (option sol_ip ip_freebind 1)
    ∷ on_bit 21 21 (option sol_tcp tcp_quickack 1)
    ∷ on_bit 22 22 (option sol_tcp tcp_defer_accept 1)
    ∷ on_bit 23 23 (option sol_tcp tcp_fastopen 1)
    ∷ on_bit 24 24 (option sol_tcp tcp_keepidle (c.keep_alive_idle))
    ∷ on_bit 25 25 (option sol_tcp tcp_keepcnt (c.keep_alive_max_count))
    ∷ on_bit 26 26 (option sol_tcp tcp_keepintvl (c.keep_alive_individual_count))
    ∷ on_bit 27 27 (option sol_tcp tcp_maxseg (c.max_segment_size))
    ∷ on_bit 28 28 (option sol_tcp tcp_nodelay 1)
    ∷ on_bit 29 29 (option sol_tcp tcp_syncnt (c.syn_count))
    ∷ []

abbrev pub udp_settings : Configuration → List Setting
udp_settings c =
    on_bit 1 1 (file_flag o_nonblock)
    ∷ on_bit 2 2 (file_flag o_cloexec)
    ∷ record { bit = 3; returned_bit = 3; always = true; action = option sol_socket so_reuseaddr 1 }
    ∷ on_bit 4 4 (option sol_socket so_reuseport 1)
    ∷ on_bit 5 5 (option sol_socket so_rcvbuf (c.receive_buffer_size))
    ∷ on_bit 6 6 (option sol_socket so_sndbuf (c.send_buffer_size))
    ∷ on_bit 7 7 (option sol_socket so_broadcast 1)
    ∷ on_bit 9 9 (option sol_socket so_rcvlowat (c.receive_low_at))
    ∷ on_bit 10 10 (option sol_socket so_sndlowat (c.send_low_at))
    ∷ on_bit 11 11 (option sol_ip ip_ttl (c.ttl))
    ∷ on_bit 16 16 (option sol_ip ip_freebind 1)
    ∷ on_bit 17 17 (option sol_ip ip_multicast_all 1)
    ∷ on_bit 18 18 (option sol_ip ip_multicast_if (c.multicast_interface))
    ∷ on_bit 19 19 (option sol_ip ip_multicast_loop 1)
    ∷ on_bit 20 20 (option sol_ip ip_multicast_ttl (c.multicast_ttl))
    ∷ []

abbrev pub unix_stream_settings : Configuration → List Setting
unix_stream_settings c =
    on_bit 1 1 (file_flag o_nonblock)
    ∷ on_bit 2 2 (file_flag o_cloexec)
    ∷ on_bit 5 5 (option sol_socket so_rcvbuf (c.receive_buffer_size))
    ∷ on_bit 6 6 (option sol_socket so_sndbuf (c.send_buffer_size))
    ∷ on_bit 8 8 (option sol_socket so_keepalive 1)
    ∷ on_bit 9 9 (option sol_socket so_rcvlowat (c.receive_low_at))
    ∷ on_bit 10 10 (option sol_socket so_sndlowat (c.send_low_at))
    ∷ []

-- The three functions that make a socket.
pub data Maker : Type 0 where
  tcp : Maker
  udp : Maker
  unix_stream : Maker

abbrev pub settings_of : Maker → Configuration → List Setting
settings_of tcp c = tcp_settings c
settings_of udp c = udp_settings c
settings_of unix_stream c = unix_stream_settings c

module _ (kernel : List Call → ℤ) where
  unfoldable pub transport_socket_create_tcp : Configuration → List Call → ℤ × List Call
  transport_socket_create_tcp c = open_socket kernel af_inet stream_tcp c.flags (tcp_settings c)

  unfoldable pub transport_socket_create_udp : Configuration → List Call → ℤ × List Call
  transport_socket_create_udp c = open_socket kernel af_inet datagram_udp c.flags (udp_settings c)

  unfoldable pub transport_socket_create_unix_stream : Configuration → List Call → ℤ × List Call
  transport_socket_create_unix_stream c =
      open_socket kernel af_unix stream c.flags (unix_stream_settings c)

  abbrev pub make : Maker → Configuration → List Call → ℤ × List Call
  make tcp c calls = transport_socket_create_tcp c calls
  make udp c calls = transport_socket_create_udp c calls
  make unix_stream c calls = transport_socket_create_unix_stream c calls
