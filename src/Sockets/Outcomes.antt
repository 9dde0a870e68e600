-- ===== src/Sockets/Outcomes.antt =====
-- A socket comes with every option that was asked for, or the error names the first option that the
-- kernel refused, and nothing was asked after it.
use mathlib.Core.Path.{subst}
use feng_shui.Prelude as P
use feng_shui.Prelude.{
  ℕ, ◌≡◌, ◌⊎◌, inl, inr, refl, ap, arith, true, false, Bool-cases, List, [], ◌∷◌, ◌++◌,
}
use feng_shui.Prelude.Int.{ℤ, pos, negsuc}
use feng_shui.Sockets.{
  Action, file_flag, option, o_nonblock, o_cloexec, Level, sol_socket, sol_ip, sol_tcp, Name,
  so_reuseaddr, so_reuseport, so_rcvbuf, so_sndbuf, so_broadcast, so_keepalive, so_rcvlowat,
  so_sndlowat, ip_ttl, ip_freebind, ip_multicast_all, ip_multicast_if, ip_multicast_loop,
  ip_multicast_ttl, tcp_quickack, tcp_defer_accept, tcp_fastopen, tcp_keepidle, tcp_keepcnt,
  tcp_keepintvl, tcp_maxseg, tcp_nodelay, tcp_syncnt, Call, socket, Domain, Kind, af_inet, af_unix,
  stream_tcp, datagram_udp, stream, Setting, Configuration, selected, error_of, apply, configure,
  open_socket, is_minus_one,
}
use feng_shui.Sockets.Settings.{
  Maker, tcp, udp, unix_stream, settings_of, make, transport_socket_create_tcp,
  transport_socket_create_udp, transport_socket_create_unix_stream,
}

-- The number of the TRANSPORT_SOCKET_OPTION_ flag of each option, the level that it belongs to, and
-- what it is set to.
abbrev flag_of : Name → ℕ
flag_of so_reuseaddr = 3
flag_of so_reuseport = 4
flag_of so_rcvbuf = 5
flag_of so_sndbuf = 6
flag_of so_broadcast = 7
flag_of so_keepalive = 8
flag_of so_rcvlowat = 9
flag_of so_sndlowat = 10
flag_of ip_ttl = 11
flag_of ip_freebind = 16
flag_of ip_multicast_all = 17
flag_of ip_multicast_if = 18
flag_of ip_multicast_loop = 19
flag_of ip_multicast_ttl = 20
flag_of tcp_quickack = 21
flag_of tcp_defer_accept = 22
flag_of tcp_fastopen = 23
flag_of tcp_keepidle = 24
flag_of tcp_keepcnt = 25
flag_of tcp_keepintvl = 26
flag_of tcp_maxseg = 27
flag_of tcp_nodelay = 28
flag_of tcp_syncnt = 29

abbrev level_of : Name → Level
level_of so_reuseaddr = sol_socket
level_of so_reuseport = sol_socket
level_of so_rcvbuf = sol_socket
level_of so_sndbuf = sol_socket
level_of so_broadcast = sol_socket
level_of so_keepalive = sol_socket
level_of so_rcvlowat = sol_socket
level_of so_sndlowat = sol_socket
level_of ip_ttl = sol_ip
level_of ip_freebind = sol_ip
level_of ip_multicast_all = sol_ip
level_of ip_multicast_if = sol_ip
level_of ip_multicast_loop = sol_ip
level_of ip_multicast_ttl = sol_ip
level_of tcp_quickack = sol_tcp
level_of tcp_defer_accept = sol_tcp
level_of tcp_fastopen = sol_tcp
level_of tcp_keepidle = sol_tcp
level_of tcp_keepcnt = sol_tcp
level_of tcp_keepintvl = sol_tcp
level_of tcp_maxseg = sol_tcp
level_of tcp_nodelay = sol_tcp
level_of tcp_syncnt = sol_tcp

abbrev value_of : Configuration → Name → ℕ
value_of c so_reuseaddr = 1
value_of c so_reuseport = 1
value_of c so_rcvbuf = c.receive_buffer_size
value_of c so_sndbuf = c.send_buffer_size
value_of c so_broadcast = 1
value_of c so_keepalive = 1
value_of c so_rcvlowat = c.receive_low_at
value_of c so_sndlowat = c.send_low_at
value_of c ip_ttl = c.ttl
value_of c ip_freebind = 1
value_of c ip_multicast_all = 1
value_of c ip_multicast_if = c.multicast_interface
value_of c ip_multicast_loop = 1
value_of c ip_multicast_ttl = c.multicast_ttl
value_of c tcp_quickack = 1
value_of c tcp_defer_accept = 1
value_of c tcp_fastopen = 1
value_of c tcp_keepidle = c.keep_alive_idle
value_of c tcp_keepcnt = c.keep_alive_max_count
value_of c tcp_keepintvl = c.keep_alive_individual_count
value_of c tcp_maxseg = c.max_segment_size
value_of c tcp_nodelay = 1
value_of c tcp_syncnt = c.syn_count

-- A flag, also as the error it is returned as, and what is asked for when it is set.
abbrev documented : ℕ → Action → Setting
documented flag action = record { bit = flag; returned_bit = flag; always = false; action = action }

abbrev options : Configuration → List Name → List Setting
options c =
    P.map
      (λ (name : Name). documented (flag_of name) (option (level_of name) name (value_of c name)))

abbrev file_flags : List Setting
file_flags = documented 1 (file_flag o_nonblock) ∷ documented 2 (file_flag o_cloexec) ∷ []

-- What each socket can be asked for. A UDP socket gets SO_REUSEADDR in any case.
abbrev pub wanted : Maker → Configuration → List Setting
wanted tcp c =
    file_flags
    ++ options c (
        so_reuseaddr ∷ so_reuseport ∷ so_rcvbuf ∷ so_sndbuf ∷ so_keepalive ∷ so_rcvlowat
        ∷ so_sndlowat ∷ ip_ttl ∷ ip_freebind ∷ tcp_quickack ∷ tcp_defer_accept ∷ tcp_fastopen
        ∷ tcp_keepidle ∷ tcp_keepcnt ∷ tcp_keepintvl ∷ tcp_maxseg ∷ tcp_nodelay ∷ tcp_syncnt ∷ [])
wanted udp c =
    file_flags
    ++ record (documented 3 (option sol_socket so_reuseaddr 1)) { always = true }
      ∷ options c (
          so_reuseport ∷ so_rcvbuf ∷ so_sndbuf ∷ so_broadcast ∷ so_rcvlowat ∷ so_sndlowat ∷ ip_ttl
          ∷ ip_freebind ∷ ip_multicast_all ∷ ip_multicast_if ∷ ip_multicast_loop ∷ ip_multicast_ttl
          ∷ [])
wanted unix_stream c =
    file_flags ++ options c (so_rcvbuf ∷ so_sndbuf ∷ so_keepalive ∷ so_rcvlowat ∷ so_sndlowat ∷ [])

settings_of-wanted : (maker : Maker) (c : Configuration) → settings_of maker c ≡ wanted maker c
settings_of-wanted tcp c = refl
settings_of-wanted udp c = refl
settings_of-wanted unix_stream c = refl

module _ (kernel : List Call → ℤ) where
  -- The kernel accepts every setting that is selected, one after another.
  pub data Accepts (flags : ℕ) (fd : ℤ) : List Setting → List Call → List Call → Type 0 where
    all_done : {calls : List Call} → Accepts flags fd [] calls calls
    left_out :
        {settings : List Setting} {calls done : List Call} (s : Setting)
        → selected flags s ≡ false
        → Accepts flags fd settings calls done
        → Accepts flags fd (s ∷ settings) calls done
    accepted :
        {settings : List Setting} {calls done : List Call} (s : Setting)
        → selected flags s ≡ true
        → (apply kernel fd s.action calls).0 ≡ true
        → Accepts flags fd settings (apply kernel fd s.action calls).1 done
        → Accepts flags fd (s ∷ settings) calls done

  -- A setting that is selected and refused, when those before it are accepted.
  pub record Refusal (flags : ℕ) (fd : ℤ) (settings : List Setting) (calls : List Call)
      (done : List Call) : Type 0 where
    pub before : List Setting
    pub refused : Setting
    pub behind : List Setting
    pub so_far : List Call
    pub parts : settings ≡ before ++ refused ∷ behind
    pub accepts : Accepts flags fd before calls so_far
    pub asked : selected flags refused ≡ true
    pub denied : (apply kernel fd refused.action so_far).0 ≡ false
    pub last : done ≡ (apply kernel fd refused.action so_far).1

  abbrev pub Configured : ℕ → ℤ → List Setting → List Call → ℤ × List Call → Type 0
  Configured flags fd settings calls (result, done) =
      ((result ≡ fd) × Accepts flags fd settings calls done)
      ⊎ ((r : Refusal flags fd settings calls done) × (result ≡ error_of r.refused.returned_bit))

  passed :
      (flags : ℕ) (fd : ℤ) (s : Setting) (settings : List Setting) (calls : List Call)
      (out : ℤ × List Call)
      → selected flags s ≡ true
      → (apply kernel fd s.action calls).0 ≡ true
      → Configured flags fd settings (apply kernel fd s.action calls).1 out
      → Configured flags fd (s ∷ settings) calls out
  passed flags fd s settings calls out h ok (inl (result, a)) = inl (result, accepted s h ok a)
  passed flags fd s settings calls out h ok (inr (r, result)) = inr (
    record {
      before = s ∷ r.before;
      refused = r.refused;
      behind = r.behind;
      so_far = r.so_far;
      parts = ap (◌∷◌ s) r.parts;
      accepts = accepted s h ok r.accepts;
      asked = r.asked;
      denied = r.denied;
      last = r.last;
    },
    result,
  )

  skipped :
      (flags : ℕ) (fd : ℤ) (s : Setting) (settings : List Setting) (calls : List Call)
      (out : ℤ × List Call)
      → selected flags s ≡ false
      → Configured flags fd settings calls out
      → Configured flags fd (s ∷ settings) calls out
  skipped flags fd s settings calls out h (inl (result, a)) = inl (result, left_out s h a)
  skipped flags fd s settings calls out h (inr (r, result)) = inr (
    record {
      before = s ∷ r.before;
      refused = r.refused;
      behind = r.behind;
      so_far = r.so_far;
      parts = ap (◌∷◌ s) r.parts;
      accepts = left_out s h r.accepts;
      asked = r.asked;
      denied = r.denied;
      last = r.last;
    },
    result,
  )

  configure-Configured :
      (flags : ℕ) (fd : ℤ) (settings : List Setting) (calls : List Call)
      → Configured flags fd settings calls (configure kernel flags fd settings calls)
  unfolding configure
  configure-Configured flags fd [] calls = inl (refl, all_done)
  configure-Configured flags fd (s ∷ settings) calls = elim (Bool-cases (selected flags s)) [
    | inr out ↦
        rw (out, configure)
          (skipped flags fd s settings calls (configure kernel flags fd settings calls) out
            (configure-Configured flags fd settings calls))
    | inl asked ↦ elim (Bool-cases (apply kernel fd s.action calls).0) [
      | inl ok ↦
          rw (asked, ok, configure)
            (passed flags fd s settings calls
              (configure kernel flags fd settings (apply kernel fd s.action calls).1) asked ok
              (configure-Configured flags fd settings (apply kernel fd s.action calls).1))
      | inr denied ↦
          rw (asked, denied, configure)
            (inr (
              record {
                before = [];
                refused = s;
                behind = settings;
                so_far = calls;
                parts = refl;
                accepts = all_done;
                asked = asked;
                denied = denied;
                last = refl;
              },
              refl,
            ))
    ]
  ]

  -- What the domain and kind of each socket are.
  abbrev pub request_of : Maker → Call
  request_of tcp = socket af_inet stream_tcp
  request_of udp = socket af_inet datagram_udp
  request_of unix_stream = socket af_unix stream

  abbrev pub Made : Maker → Configuration → List Call → ℤ × List Call → Type 0
  Made maker c calls (result, done) =
      ((kernel (request_of maker ∷ calls) ≡ negsuc 0)
        × (result ≡ negsuc 0)
        × (done ≡ request_of maker ∷ calls))
      ⊎ Configured c.flags (kernel (request_of maker ∷ calls)) (wanted maker c)
          (request_of maker ∷ calls) (result, done)

  minus_one : (z : ℤ) → is_minus_one z ≡ true → z ≡ negsuc 0
  minus_one (pos n) h = absurd cc
  minus_one (negsuc n) h = ground arith

  opened :
      (domain : Domain) (kind : Kind) (flags : ℕ) (settings : List Setting) (calls : List Call)
      → ((kernel (socket domain kind ∷ calls) ≡ negsuc 0)
          × ((open_socket kernel domain kind flags settings calls).0 ≡ negsuc 0)
          × ((open_socket kernel domain kind flags settings calls).1 ≡ socket domain kind ∷ calls))
        ⊎ Configured flags
            (kernel (socket domain kind ∷ calls))
            settings
            (socket domain kind ∷ calls)
            (open_socket kernel domain kind flags settings calls)
  unfolding open_socket
  opened domain kind flags settings calls =
      elim (Bool-cases (is_minus_one (kernel (socket domain kind ∷ calls)))) [
        | inl failed ↦
            rw (failed, open_socket)
              (inl (minus_one (kernel (socket domain kind ∷ calls)) failed, refl, refl))
        | inr ok ↦
            rw (ok, open_socket)
              (inr (
                configure-Configured flags (kernel (socket domain kind ∷ calls)) settings
                  (socket domain kind ∷ calls)))
      ]

  -- A function that makes a socket gives -1 after its first call, when the kernel makes none; or the
  -- descriptor, after the kernel accepted every option that is wanted for such a socket and selected
  -- by its flag, in order, each with its level and value; or the negative flag of the first selected
  -- option that the kernel refused, and makes no call after it.
  pub make-Made :
      (maker : Maker) (c : Configuration) (calls : List Call)
      → Made maker c calls (make kernel maker c calls)
  unfolding transport_socket_create_tcp transport_socket_create_udp
      transport_socket_create_unix_stream
  make-Made maker c calls =
      subst
        (λ (settings : List Setting).
          ((kernel (request_of maker ∷ calls) ≡ negsuc 0)
            × ((make kernel maker c calls).0 ≡ negsuc 0)
            × ((make kernel maker c calls).1 ≡ request_of maker ∷ calls))
          ⊎ Configured c.flags (kernel (request_of maker ∷ calls)) settings
              (request_of maker ∷ calls) (make kernel maker c calls))
        (settings_of-wanted maker c) (made maker)
    where
      made :
          (m : Maker)
          → ((kernel (request_of m ∷ calls) ≡ negsuc 0)
              × ((make kernel m c calls).0 ≡ negsuc 0)
              × ((make kernel m c calls).1 ≡ request_of m ∷ calls))
            ⊎ Configured c.flags
                (kernel (request_of m ∷ calls))
                (settings_of m c)
                (request_of m ∷ calls)
                (make kernel m c calls)
      made tcp = opened af_inet stream_tcp c.flags (settings_of tcp c) calls
      made udp = opened af_inet datagram_udp c.flags (settings_of udp c) calls
      made unix_stream = opened af_unix stream c.flags (settings_of unix_stream c) calls
