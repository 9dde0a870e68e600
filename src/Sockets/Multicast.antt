-- ===== src/Sockets/Multicast.antt =====
-- Multicast groups in transport/native/transport/socket.c. `inet_addr` is the C library's; the result
-- is that of setsockopt, beside the calls. The third part of a request is the index of an interface,
-- or the address of a source.
use feng_shui.Prelude.{ℕ, List, ◌∷◌}
use feng_shui.Prelude.Int.{ℤ}
use feng_shui.Sockets.{
  Call, set_membership, ip_add_membership, ip_drop_membership, ip_add_source_membership,
  ip_drop_source_membership,
}

module _ (kernel : List Call → ℤ) (inet_addr : List ℕ → ℕ) where
  abbrev answered : Call → List Call → ℤ × List Call
  answered c calls = (kernel (c ∷ calls), c ∷ calls)

  abbrev pub transport_socket_multicast_add_membership :
      (fd : ℤ)
      → (group_address local_address : List ℕ) → (interface_index : ℕ) → List Call
      → ℤ × List Call
  transport_socket_multicast_add_membership fd group_address local_address interface_index =
      answered (
        set_membership fd ip_add_membership (inet_addr group_address) (inet_addr local_address)
          interface_index)

  abbrev pub transport_socket_multicast_drop_membership :
      (fd : ℤ)
      → (group_address local_address : List ℕ) → (interface_index : ℕ) → List Call
      → ℤ × List Call
  transport_socket_multicast_drop_membership fd group_address local_address interface_index =
      answered (
        set_membership fd ip_drop_membership (inet_addr group_address) (inet_addr local_address)
          interface_index)

  abbrev pub transport_socket_multicast_add_source_membership :
      (fd : ℤ) → (group_address local_address source_address : List ℕ) → List Call → ℤ × List Call
  transport_socket_multicast_add_source_membership fd group_address local_address source_address =
      answered (
        set_membership fd ip_add_source_membership (inet_addr group_address)
          (inet_addr local_address) (inet_addr source_address))

  abbrev pub transport_socket_multicast_drop_source_membership :
      (fd : ℤ) → (group_address local_address source_address : List ℕ) → List Call → ℤ × List Call
  transport_socket_multicast_drop_source_membership fd group_address local_address source_address =
      answered (
        set_membership fd ip_drop_source_membership (inet_addr group_address)
          (inet_addr local_address) (inet_addr source_address))
