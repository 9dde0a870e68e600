-- ===== src/Sockets/Errors.antt =====
-- What `initialization_error` of a client or server tells of an error.
use feng_shui.Prelude.{ℕ, zero, suc, ◌+◌, ◌-◌, ◌*◌, ◌^◌, ◌≤◌, ◌<◌, ◌≡◌, refl, ap, ◌∙◌, arith, List}
use feng_shui.Prelude.Int.{ℤ, pos}
use feng_shui.Prelude.Powers.{two-pow-add, two-pow-pos}
use feng_shui.Sockets.{Call, Configuration, error_of, inet_address}
use feng_shui.Sockets.Settings.{tcp, make}
use feng_shui.Sockets.Endpoints.{
  int8, inet_peer, transport_client_initialize_tcp, transport_server_initialize_tcp,
}

-- The error of an option whose flag is bit 8 or above is 0 as an `int8_t`.
int8-error_of : (bit : ℕ) → 8 ≤ bit → int8 (error_of bit) ≡ pos 0
unfolding int8
int8-error_of bit h = ground (arith, scaled, two-pow-pos (bit - 8))
  where
    scaled : 2 ^ bit ≡ 2 ^ (bit - 8) * 256
    scaled =
        ap (λ (n : ℕ). 2 ^ n) {x = bit} {y = bit - 8 + 8} (omega arith) ∙ two-pow-add (bit - 8) 8

-- The errors of the other options are kept.
int8-error_of_low : (bit : ℕ) → bit < 8 → int8 (error_of bit) ≡ error_of bit
unfolding int8
int8-error_of_low zero h = refl
int8-error_of_low (suc zero) h = refl
int8-error_of_low (suc (suc zero)) h = refl
int8-error_of_low (suc (suc (suc zero))) h = refl
int8-error_of_low (suc (suc (suc (suc zero)))) h = refl
int8-error_of_low (suc (suc (suc (suc (suc zero))))) h = refl
int8-error_of_low (suc (suc (suc (suc (suc (suc zero)))))) h = refl
int8-error_of_low (suc (suc (suc (suc (suc (suc (suc zero))))))) h = refl
int8-error_of_low (suc (suc (suc (suc (suc (suc (suc (suc n)))))))) h = absurd (omega arith)

module _ (kernel : List Call → ℤ) where
  -- When the kernel refuses an option whose flag is bit 8 or above, a TCP client and a TCP server
  -- look as though there was no error: `initialization_error` is 0, and so is the descriptor.
  pub initialize_tcp_hides :
      (c : Configuration) (ip port bit : ℕ) (calls done : List Call)
      → 8 ≤ bit
      → make kernel tcp c calls ≡ (error_of bit, done)
      → (transport_client_initialize_tcp kernel c ip port calls
          ≡ (inet_peer (inet_address ip port), done))
        × (transport_server_initialize_tcp kernel c ip port calls
            ≡ (inet_peer (inet_address ip port), done))
  unfolding transport_client_initialize_tcp transport_server_initialize_tcp
  initialize_tcp_hides c ip port bit calls done h made =
      (rw (made, int8-error_of bit h) refl, rw (made, int8-error_of bit h) refl)

  -- When the kernel refuses an option whose flag is below bit 8, a TCP client and a TCP server report
  -- exactly that flag, negative, in `initialization_error`.
  pub initialize_tcp_reports :
      (c : Configuration) (ip port bit : ℕ) (calls done : List Call)
      → bit < 8
      → make kernel tcp c calls ≡ (error_of bit, done)
      → ((transport_client_initialize_tcp kernel c ip port calls).0.initialization_error
          ≡ error_of bit)
        × ((transport_server_initialize_tcp kernel c ip port calls).0.initialization_error
            ≡ error_of bit)
  unfolding transport_client_initialize_tcp transport_server_initialize_tcp
  initialize_tcp_reports c ip port bit calls done h made =
      (rw (made, int8-error_of_low bit h) refl, rw (made, int8-error_of_low bit h) refl)
