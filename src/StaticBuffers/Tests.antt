-- ===== src/StaticBuffers/Tests.antt =====
-- A pool of two buffers, and the theorems there.
use mathlib.Core.List.{Nodup}
use mathlib.Core.List.Perm
use feng_shui.Prelude.{ℕ, ◌<◌, ◌≡◌, refl, Bool, true, arith, some, [], ◌∷◌, All}
use feng_shui.Prelude.Int.{pos}
use feng_shui.StaticBuffers.{
  StaticBuffers, created, create, fill_slots, fill_slot, unfilled, pop, used, cleared,
}
use feng_shui.StaticBuffers.Ownership.{Owns, pop-Owns}
use feng_shui.StaticBuffers.Creation.{IsCreated, create-Owns}
use feng_shui.StaticBuffers.Sessions.{Session, Reach, here, later, take, exclusive}

abbrev always : ℕ → Bool
always n = true

abbrev two : StaticBuffers
two = record {
  available = 2;
  size = 3;
  capacity = 2;
  ids = 0 ∷ 1 ∷ [];
  buffers = cleared 3 ∷ cleared 3 ∷ [];
}

-- With id 1 lent, and its buffer written.
abbrev one_lent : StaticBuffers
one_lent = record two {
  available = 1;
  buffers = cleared 3 ∷ (record { iov_base = 7 ∷ 8 ∷ 0 ∷ []; iov_len = 2 }) ∷ [];
}

two-Owns : Owns two []
two-Owns = record {
  slots = refl;
  blocks = refl;
  within = omega arith;
  counted = refl;
  shares = Perm.swap 1 0 [];
}

one_lent-Owns : Owns one_lent (1 ∷ [])
one_lent-Owns = record {
  slots = refl;
  blocks = refl;
  within = omega arith;
  counted = refl;
  shares = Perm.swap 1 0 [];
}

makes_two : create always always 2 3 ≡ created two
unfolding create fill_slots fill_slot unfilled
makes_two = refl

-- The last id in is the first out.
pops_last : pop two ≡ some (pos 1, record two { available = 1 })
unfolding pop
pops_last = refl

pop-Owns_example :
    (id : ℕ) × (pool : StaticBuffers) × (pop two ≡ some (pos id, pool)) × Owns pool (id ∷ [])
pop-Owns_example = pop-Owns two [] two-Owns (omega arith)

abbrev fresh_session : Session
fresh_session = record { pool = two; lent = [] }

abbrev holding_session : Session
holding_session = record { pool = record two { available = 1 }; lent = 1 ∷ [] }

reached : Reach fresh_session holding_session
unfolding pop
reached = later here (take 1 (record two { available = 1 }) refl)

exclusive_example :
    Nodup holding_session.lent
    × All (λ (id : ℕ). id < 2) holding_session.lent
    × (used (record two { available = 1 }) ≡ 1)
exclusive_example = exclusive {s = fresh_session} {t = holding_session} two-Owns reached

create-Owns_example : IsCreated 2 3 (create always always 2 3)
create-Owns_example = create-Owns always always 2 3 (omega arith)
