-- ===== src/Transport/Setup.antt =====
-- transport_initialize and transport_setup of transport/native/transport/transport.c. The new table
-- and the answers to requests for memory are parameters; memory for the transport itself is granted.
use mathlib.Core.Path.{subst}
use feng_shui.Prelude.{
  ℕ, zero, suc, ◌≡◌, refl, ap, arith, Bool, true, ◌&&◌, Option, none, some, List, [], ◌∷◌, bind,
  replicate, get_elem?, length-replicate, if◌then◌else◌, ◌≤◌,
}
use native.Mathlib.Nat.{le_refl}
use feng_shui.Prelude.Int.{ℤ, pos, negsuc}
use feng_shui.Uring.{Uring}
use feng_shui.EventMap.{EventMap}
use feng_shui.Executor.{Executor, module_error_code}
use feng_shui.Transport.{Transport, Message, inet_size, unix_size}
use feng_shui.Transport.Ready.{IsHeader, AreHeaders}

-- A header from zeroed memory, with a name of its size.
abbrev pub fresh_header : ℕ → Message
fresh_header size = record {
  name = replicate size 0;
  name_length = size;
  control = 0;
  control_length = 0;
  part = 0;
  parts = 0;
  message_flags = 0;
}

abbrev pub Headers : Type 0
Headers = List Message × List Message

-- The loop over the static buffers, from `index` on; `names` tells whether the names are granted.
-- `none` is NULL.
unfoldable pub fill_headers : (names : ℕ → Bool × Bool) → (index count : ℕ) → Option Headers
fill_headers names index zero = some ([], [])
fill_headers names index (suc n) =
    let rest = fill_headers names (suc index) n in
    if (names index).0
    then if (names index).1
      then bind rest (λ hs. some (fresh_header inet_size ∷ hs.0, fresh_header unix_size ∷ hs.1))
      else none
    else none

module _ (uring : Uring) (map : EventMap) where
  open map use {Map}

  unfoldable pub transport_initialize :
      (new : Option Map)
      → (reserve : Map → ℕ → Map) → (tables : Bool × Bool) → (names : ℕ → Bool × Bool)
      → (static_buffers_capacity : ℕ) → Option (Map × Headers)
  transport_initialize new reserve tables names static_buffers_capacity = bind new (λ m.
      if tables.0 && tables.1
      then bind (fill_headers names 0 static_buffers_capacity)
          (λ hs. some (reserve m static_buffers_capacity, hs))
      else none)

  -- `registered` is the result of io_uring_register_buffers.
  unfoldable pub transport_setup :
      (registered : ℤ) → Transport uring map → Executor uring → ℤ × Transport uring map
  transport_setup (pos zero) t executor = (pos 0, record t { executor = executor })
  transport_setup (pos (suc n)) t executor = (module_error_code, record t { executor = executor })
  transport_setup (negsuc n) t executor = (module_error_code, record t { executor = executor })

first_header :
    (size least : ℕ) (ms : List Message) (count : ℕ)
    → least ≤ size
    → AreHeaders size least count ms
    → AreHeaders size least (suc count) (fresh_header size ∷ ms)
first_header size least ms count h headers = record {
  counted = ap suc headers.counted;
  each = each;
}
  where
    good : IsHeader size least (fresh_header size)
    good = (length-replicate size 0, le_refl size, h)

    same : (m : Message) → some (fresh_header size) ≡ some m → fresh_header size ≡ m
    same m e = cc

    each :
        (i : ℕ) (m : Message)
        → get_elem? (fresh_header size ∷ ms) i ≡ some m
        → IsHeader size least m
    each zero m e = subst (IsHeader size least) (same m e) good
    each (suc i) m e = headers.each i m e

abbrev pub Filled : ℕ → Option Headers → Type 0
Filled count result =
    (hs : Headers) × (result ≡ some hs)
    × AreHeaders inet_size inet_size count hs.0
    × AreHeaders unix_size 0 count hs.1

no_headers : (size least : ℕ) → AreHeaders size least 0 []
no_headers size least = record { counted = refl; each = λ i m e. absurd cc }

fill_headers-Filled :
    (names : ℕ → Bool × Bool) (index count : ℕ)
    → ((i : ℕ) → names i ≡ (true, true))
    → Filled count (fill_headers names index count)
unfolding fill_headers
fill_headers-Filled names index zero granted =
    (([], []), refl, no_headers inet_size inet_size, no_headers unix_size 0)
fill_headers-Filled names index (suc n) granted =
    let (hs, ran, for_inet, for_unix) = fill_headers-Filled names (suc index) n granted in
    (
      (fresh_header inet_size ∷ hs.0, fresh_header unix_size ∷ hs.1),
      rw (granted index, ran) refl,
      first_header inet_size inet_size hs.0 n (le_refl inet_size) for_inet,
      first_header unix_size 0 hs.1 n (omega arith) for_unix,
    )

module _ (uring : Uring) (map : EventMap) where
  open map use {Map}

  -- `transport_initialize`, when it gets its memory, gives a well-formed header of each family for
  -- every static buffer.
  pub transport_initialize-Filled :
      (m : Map) (reserve : Map → ℕ → Map) (names : ℕ → Bool × Bool) (count : ℕ)
      → ((i : ℕ) → names i ≡ (true, true))
      → (hs : Headers) × (transport_initialize uring map (some m) reserve (true, true) names count
          ≡ some (reserve m count, hs))
        × AreHeaders inet_size inet_size count hs.0
        × AreHeaders unix_size 0 count hs.1
  unfolding transport_initialize
  transport_initialize-Filled m reserve names count granted =
      let (hs, ran, for_inet, for_unix) = fill_headers-Filled names 0 count granted in
      (hs, rw ran refl, for_inet, for_unix)
