-- ===== src/Sockets/Tests.antt =====
-- A kernel that refuses two options, and the theorems there.
use feng_shui.Prelude.{ℕ, ◌≡◌, refl, arith, List, [], ◌∷◌}
use feng_shui.Prelude.Int.{ℤ, pos, negsuc}
use feng_shui.Sockets.{
  Call, socket, set_option, get_flags, set_flags, set_membership, bind_socket, listen_socket,
  Configuration, so_rcvlowat, so_reuseport, inet_address, af_inet, stream_tcp, sol_socket, sol_tcp,
  tcp_nodelay, apply, configure, open_socket,
}
use feng_shui.Sockets.Settings.{tcp, make, transport_socket_create_tcp}
use feng_shui.Sockets.Outcomes.{Made, make-Made}
use feng_shui.Sockets.Endpoints.{
  inet_peer, transport_client_initialize_tcp, transport_server_initialize_tcp,
}
use feng_shui.Sockets.Errors.{initialize_tcp_hides}

abbrev answer : Call → ℤ
answer (socket domain kind) = pos 3
answer (get_flags fd) = pos 2
answer (set_flags fd old flag) = pos 0
answer (set_option fd level so_rcvlowat value) = negsuc 0
answer (set_option fd level so_reuseport value) = negsuc 0
answer (set_option fd level name value) = pos 0
answer (set_membership fd m group local_address third) = pos 0
answer (bind_socket fd address) = pos 0
answer (listen_socket fd backlog) = pos 0

abbrev strict : List Call → ℤ
strict [] = pos 0
strict (c ∷ calls) = answer c

abbrev with_flags : ℕ → Configuration
with_flags flags = record {
  flags = flags;
  receive_buffer_size = 4096;
  send_buffer_size = 4096;
  receive_low_at = 1;
  send_low_at = 1;
  ttl = 64;
  keep_alive_idle = 1;
  keep_alive_max_count = 1;
  keep_alive_individual_count = 1;
  max_segment_size = 1;
  syn_count = 1;
  multicast_interface = 0;
  multicast_ttl = 1;
  max_connections = 8;
}

make-Made_example :
    Made strict tcp (with_flags 268435456) [] (make strict tcp (with_flags 268435456) [])
make-Made_example = make-Made strict tcp (with_flags 268435456) []

without_delay :
    transport_socket_create_tcp strict (with_flags 268435456) []
    ≡ (pos 3, set_option (pos 3) sol_tcp tcp_nodelay 1 ∷ socket af_inet stream_tcp ∷ [])
unfolding transport_socket_create_tcp open_socket configure apply
without_delay = refl

initialize_tcp_hides_example :
    (transport_client_initialize_tcp strict (with_flags 512) 7 80 [] ≡ (
      inet_peer (inet_address 7 80),
      set_option (pos 3) sol_socket so_rcvlowat 1 ∷ socket af_inet stream_tcp ∷ [],
    ))
    × (transport_server_initialize_tcp strict (with_flags 512) 7 80 [] ≡ (
      inet_peer (inet_address 7 80),
      set_option (pos 3) sol_socket so_rcvlowat 1 ∷ socket af_inet stream_tcp ∷ [],
    ))
unfolding transport_socket_create_tcp open_socket configure apply
initialize_tcp_hides_example =
    initialize_tcp_hides strict (with_flags 512) 7 80 9 []
      (set_option (pos 3) sol_socket so_rcvlowat 1 ∷ socket af_inet stream_tcp ∷ []) (omega arith)
      refl
