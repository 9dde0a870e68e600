-- ===== src/Transport/Ready.antt =====
-- The message headers of a transport are well formed: a name has the size of its family's address,
-- and its length says no more.
use feng_shui.Prelude.{
  ℕ, ◌≤◌, ◌<◌, ◌≡◌, ◌⊎◌, inl, inr, refl, sym, ◌∙◌, ap, arith, Option, some, List, ◌++◌, bind,
  get_elem?, set, length, take, drop, replicate, take-suc, length-set, length-append, length-take,
  length-drop, length-replicate, get_elem?-set_self, get_elem?-set_ne, ℕ_discrete,
}
use mathlib.Core.Path.{subst}
use feng_shui.Uring.{Uring}
use feng_shui.EventMap.{EventMap}
use feng_shui.Transport.{
  Transport, Message, inet, unix, inet_size, unix_size, one_part, copy_name, clear_name,
}
use feng_shui.Transport.Requests.{at_message, prepared}

-- `size` bytes of name, and a length within them that is at least `least`.
abbrev pub IsHeader : (size least : ℕ) → Message → Type 0
IsHeader size least m = (length m.name ≡ size) × (m.name_length ≤ size) × (least ≤ m.name_length)

pub record AreHeaders (size least count : ℕ) (messages : List Message) : Type 0 where
  pub counted : length messages ≡ count
  pub each : (i : ℕ) (m : Message) → get_elem? messages i ≡ some m → IsHeader size least m

pub record IsReady (uring : Uring) (map : EventMap) (count : ℕ) (t : Transport uring map)
    : Type 0 where
  pub buffered : length t.buffers ≡ count
  pub for_inet : AreHeaders inet_size inet_size count t.inet_messages
  pub for_unix : AreHeaders unix_size 0 count t.unix_messages

set-AreHeaders :
    {size least count : ℕ} {messages : List Message} (i : ℕ) (n : Message)
    → AreHeaders size least count messages
    → i < count
    → IsHeader size least n
    → AreHeaders size least count (set messages i n)
set-AreHeaders {size} {least} {messages = messages} i n headers inside good = record {
  counted = length-set messages i n ∙ headers.counted;
  each = λ j m found. elim (ℕ_discrete i j) [
    | yes e ↦ subst (IsHeader size least) (written j m e found) good
    | no e ↦ headers.each j m (sym (get_elem?-set_ne messages n e) ∙ found)
  ];
}
  where
    written : (j : ℕ) (m : Message) → i ≡ j → get_elem? (set messages i n) j ≡ some m → n ≡ m
    written j m e found = cc (
      get_elem?-set_self messages i n (omega (arith, headers.counted)),
      ap (get_elem? (set messages i n)) e,
      found,
    )

-- A change that keeps headers well formed can be made at any place of the table.
pub at_message-AreHeaders :
    {size least count : ℕ} {messages : List Message} (i : ℕ) (change : Message → Option Message)
    → AreHeaders size least count messages
    → i < count
    → ((m : Message)
        → IsHeader size least m
        → (n : Message) × (change m ≡ some n) × IsHeader size least n)
    → (ms : List Message) × (at_message messages i change ≡ some ms)
      × AreHeaders size least count ms
at_message-AreHeaders {messages = messages} i change headers inside keeps =
    let (m, found, parts) = take-suc i messages (omega (arith, headers.counted)) in
    let (n, changed, good) = keeps m (headers.each i m found) in
    (set messages i n, rw (found, changed) refl, set-AreHeaders i n headers inside good)

pub copy_name-some :
    (m : Message) (address : List ℕ) (size : ℕ)
    → length m.name ≡ size
    → m.name_length ≤ size
    → m.name_length ≤ length address
    → (n : Message) × (copy_name m address ≡ some n)
      × (length n.name ≡ size)
      × (n.name_length ≡ m.name_length)
unfolding copy_name
copy_name-some m address size h within enough = (
  record m { name = take m.name_length address ++ drop m.name_length m.name },
  ground arith,
  omega (
    arith,
    length-append (take m.name_length address) (drop m.name_length m.name),
    length-take m.name_length address,
    length-drop m.name_length m.name,
  ),
  refl,
)

pub clear_name-some :
    (m : Message) (size : ℕ)
    → length m.name ≡ size
    → m.name_length ≤ size
    → (n : Message) × (clear_name m ≡ some n)
      × (length n.name ≡ size)
      × (n.name_length ≡ m.name_length)
unfolding clear_name
clear_name-some m size h within = (
  record m { name = replicate m.name_length 0 ++ drop m.name_length m.name },
  ground arith,
  omega (
    arith,
    length-append (replicate m.name_length 0) (drop m.name_length m.name),
    length-replicate {A = ℕ} m.name_length 0,
    length-drop m.name_length m.name,
  ),
  refl,
)

-- What a change of a header must do to keep it well formed.
abbrev pub Keeps : (size least : ℕ) → (Message → Option Message) → Type 0
Keeps size least change =
    (m : Message)
    → IsHeader size least m
    → (n : Message) × (change m ≡ some n) × IsHeader size least n

pub named-Keeps :
    (address : List ℕ) (buffer : ℕ)
    → inet_size ≤ length address
    → Keeps inet_size inet_size (λ m. bind (copy_name m address) (λ n. some (one_part n buffer)))
named-Keeps address buffer enough m (sized, within, least) =
    let (n, ran, named, kept) = copy_name-some m address inet_size sized within (omega arith) in
    (one_part n buffer, rw ran refl, (named, omega arith, omega arith))

pub renamed-Keeps :
    (address : List ℕ) (size buffer : ℕ)
    → size ≤ unix_size
    → size ≤ length address
    → Keeps unix_size 0 (λ m.
      bind (copy_name (record m { name_length = size }) address) (λ n. some (one_part n buffer)))
renamed-Keeps address size buffer small enough m (sized, within, least) =
    let (n, ran, named, kept) =
      copy_name-some (record m { name_length = size }) address unix_size sized small enough in
    (one_part n buffer, rw ran refl, (named, omega arith, omega arith))

pub cleared-Keeps :
    (size least buffer : ℕ)
    → least ≤ size
    → Keeps size least
        (λ m. bind (clear_name (record m { name_length = size })) (λ n. some (one_part n buffer)))
cleared-Keeps size least buffer h m (sized, within, reach) =
    let (n, ran, named, kept) =
      clear_name-some (record m { name_length = size }) size sized (omega arith) in
    (one_part n buffer, rw ran refl, (named, omega arith, omega arith))

module _ (uring : Uring) (map : EventMap) (sun_len : List ℕ → ℕ) where
  -- Filling in a header of either family leaves the rest of the transport as it is.
  pub prepared-IsReady :
      (t : Transport uring map) (count family buffer : ℕ)
      (for_inet for_unix : Message → Option Message)
      → IsReady uring map count t
      → buffer < count
      → ((family ≡ inet) × Keeps inet_size inet_size for_inet)
        ⊎ ((family ≡ unix) × Keeps unix_size 0 for_unix)
      → (u : Transport uring map) × (prepared uring map sun_len t family buffer for_inet for_unix
          ≡ some u)
        × (u.executor ≡ t.executor)
        × (u.events ≡ t.events)
        × IsReady uring map count u
  prepared-IsReady t count family buffer f g ready inside (inl (h, keeps)) =
      let (ms, ran, good) = at_message-AreHeaders buffer f ready.for_inet inside keeps in
      (
        record t { inet_messages = ms },
        rw (h, ran) refl,
        refl,
        refl,
        record { buffered = ready.buffered; for_inet = good; for_unix = ready.for_unix },
      )
  prepared-IsReady t count family buffer f g ready inside (inr (h, keeps)) =
      let (ms, ran, good) = at_message-AreHeaders buffer g ready.for_unix inside keeps in
      (
        record t { unix_messages = ms },
        rw (h, ran) refl,
        refl,
        refl,
        record { buffered = ready.buffered; for_inet = ready.for_inet; for_unix = good },
      )
