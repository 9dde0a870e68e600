-- ===== src/Box/Batches.antt =====
-- What the loop over a batch does to the database, element by element.
use feng_shui.Prelude.{
  ℕ, zero, suc, ◌+◌, ◌≡◌, inl, inr, refl, ap, ◌∙◌, arith, Bool, true, false, Bool-cases,
  Option-cases, Option, none, some, List, [], ◌∷◌, length, length-append, ne→test, eq→test,
  ℕ_discrete,
}
use feng_shui.Tarantool.{Tarantool, Write, stores}
use feng_shui.Box.Cursors.{batch, abandon}

-- The calls of a batch, in order.
abbrev pub calls : {C : Type 0} (next : C → Write × C) (count : ℕ) → C → List Write
calls next zero c = []
calls next (suc count) c = (next c).0 ∷ calls next count (next c).1

-- What is decoded for the calls can be decoded.
abbrev pub Decodes :
    {C : Type 0} (next : C → Write × C) (decodable : C → Bool) (count : ℕ) → C → Type 0
Decodes next decodable zero c = Unit
Decodes next decodable (suc count) c =
    (decodable c ≡ true) × Decodes next decodable count (next c).1

pub data Stop : Type 0 where
  refusal : Stop
  null_tuple : Stop

module _ (tarantool : Tarantool) where
  open tarantool use {
    State, Store, view, effect, tuples, box_write, tuple_ref, port_c_add_tuple, port_destroy,
    txn_rollback, view-box_write, box_write-stores, view-txn_rollback, view-tuple_ref,
    view-port_c_add_tuple, view-port_destroy, tuples-port_c_add_tuple, tuples-box_write,
    tuples-tuple_ref,
  }

  -- One call after another.
  abbrev pub effects : List Write → Store → Store
  effects [] store = store
  effects (w ∷ ws) store = effects ws (effect w store)

  -- The tuple that a call gives goes to the port.
  abbrev pub stored : Write → ℕ → ℕ → State → Bool × State
  stored w port t s = port_c_add_tuple port t (tuple_ref t (box_write w s).1)

  -- Why the loop stops before its end: a call or the port refuses, or a call that need not give a
  -- tuple gives NULL; after the calls before it were made and their tuples put into the port.
  pub data Stops (port : ℕ) : Stop → List Write → State → Type 0 where
    call_refused :
        {ws : List Write} (w : Write) (s : State)
        → (box_write w s).0 ≡ none
        → Stops port refusal (w ∷ ws) s
    port_refused :
        {ws : List Write} (w : Write) (s : State) (t : ℕ)
        → (box_write w s).0 ≡ some t
        → (stored w port t s).0 ≡ false
        → Stops port refusal (w ∷ ws) s
    gives_null :
        {ws : List Write} (w : Write) (s : State)
        → stores w ≡ false
        → (box_write w s).0 ≡ some 0
        → Stops port null_tuple (w ∷ ws) s
    further :
        {stop : Stop} {ws : List Write} (w : Write) (s : State) (t : ℕ)
        → (box_write w s).0 ≡ some t
        → (stored w port t s).0 ≡ true
        → Stops port stop ws (stored w port t s).1
        → Stops port stop (w ∷ ws) s

  view-abandon :
      (port : ℕ) (s : State) (store : Store) (o : Option Store)
      → view s ≡ (store, o)
      → view (abandon tarantool port s) ≡ (store, none)
  view-abandon port s store none h = rw (view-txn_rollback, view-port_destroy, h) refl
  view-abandon port s store (some o) h = rw (view-txn_rollback, view-port_destroy, h) refl

  -- The loop from a state with an open transaction, with `held` tuples in the port before.
  pub data Ran (ws : List Write) (start : State) (store opened : Store) (port held : ℕ)
      : Option (Bool × State) → Type 0 where
    finished :
        (s : State)
        → view s ≡ (store, some (effects ws opened))
        → length (tuples s port) ≡ held + length ws
        → Ran ws start store opened port held (some (true, s))
    given_up :
        (s : State)
        → view s ≡ (store, none)
        → Stops port refusal ws start
        → Ran ws start store opened port held (some (false, s))
    faulted : Stops port null_tuple ws start → Ran ws start store opened port held none

  later_Ran :
      (w : Write) {ws : List Write} (start : State) {store opened : Store} {port held : ℕ}
      {out : Option (Bool × State)} (t : ℕ)
      → (box_write w start).0 ≡ some t
      → (stored w port t start).0 ≡ true
      → Ran ws (stored w port t start).1 store (effect w opened) port (suc held) out
      → Ran (w ∷ ws) start store opened port held out
  later_Ran w start t gave added (finished s seen many) = finished s seen (omega (arith, many))
  later_Ran w start t gave added (given_up s seen stop) =
      given_up s seen (further w start t gave added stop)
  later_Ran w start t gave added (faulted stop) = faulted (further w start t gave added stop)

  module _ (w : Write) (s : State) (port : ℕ) (store opened : Store)
      (seen : view s ≡ (store, some opened)) where
    abbrev after : State
    after = (box_write w s).1

    refused_view : (box_write w s).0 ≡ none → view after ≡ (store, some opened)
    refused_view h = rw (view-box_write, h) seen

    stored_view :
        (t : ℕ) → (box_write w s).0 ≡ some t → view after ≡ (store, some (effect w opened))
    stored_view t h = rw (view-box_write, h, seen) refl

    added_view :
        (t : ℕ)
        → (box_write w s).0 ≡ some t
        → view (port_c_add_tuple port t (tuple_ref t after)).1 ≡ (store, some (effect w opened))
    added_view t h = rw (view-port_c_add_tuple, view-tuple_ref) (stored_view t h)

    added_tuples :
        (t : ℕ)
        → (port_c_add_tuple port t (tuple_ref t after)).0 ≡ true
        → length (tuples (port_c_add_tuple port t (tuple_ref t after)).1 port)
          ≡ suc (length (tuples s port))
    added_tuples t h =
        ap length (tuples-port_c_add_tuple port t (tuple_ref t after) h)
        ∙ length-append {0} (tuples (tuple_ref t after) port) (t ∷ [])
        ∙ omega (arith, same)
      where
        same : length (tuples (tuple_ref t after) port) ≡ length (tuples s port)
        same = rw (tuples-tuple_ref, tuples-box_write) refl

    null_call :
        (t : ℕ) (ws : List Write)
        → (box_write w s).0 ≡ some t
        → t ≡ 0
        → Stops port null_tuple (w ∷ ws) s
    null_call t ws h z = elim (Bool-cases (stores w)) [
      | inl must ↦ absurd (box_write-stores w s must (h ∙ ap some z))
      | inr may ↦ gives_null w s may (h ∙ ap some z)
    ]

  pub batch-Ran :
      {C : Type 0} (next : C → Write × C) (decodable : C → Bool) (count : ℕ) (c : C) (port held : ℕ)
      (s : State) (store opened : Store)
      → Decodes next decodable count c
      → view s ≡ (store, some opened)
      → length (tuples s port) ≡ held
      → Ran
          (calls next count c)
          s
          store
          opened
          port
          held
          (batch tarantool next decodable count c port s)
  unfolding batch
  batch-Ran next decodable zero c port held s store opened fine seen many =
      finished s seen (omega (arith, many))
  batch-Ran next decodable (suc count) c port held s store opened (now, fine) seen many =
      elim (Option-cases (box_write (next c).0 s).0) [
        | inl refused ↦
            rw (now, refused, batch)
              (given_up (abandon tarantool port (box_write (next c).0 s).1)
                (view-abandon port (box_write (next c).0 s).1 store (some opened)
                  (refused_view (next c).0 s port store opened seen refused))
                (call_refused (next c).0 s refused))
        | inr (t, gave) ↦ elim (ℕ_discrete t 0) [
          | yes null ↦
              rw (now, gave, eq→test t 0 null, batch)
                (faulted (
                  null_call (next c).0 s port store opened seen t (calls next count (next c).1) gave
                    null))
          | no tuple ↦ elim (Bool-cases (stored (next c).0 port t s).0) [
            | inl added ↦
                rw (now, gave, ne→test t 0 tuple, added, batch)
                  (later_Ran (next c).0 s t gave added (
                    batch-Ran next decodable count (next c).1 port (suc held)
                      (stored (next c).0 port t s).1 store (effect (next c).0 opened) fine
                      (added_view (next c).0 s port store opened seen t gave)
                      (added_tuples (next c).0 s port store opened seen t added ∙ ap suc many)))
            | inr full ↦
                rw (now, gave, ne→test t 0 tuple, full, batch)
                  (given_up (abandon tarantool port (stored (next c).0 port t s).1)
                    (view-abandon port (stored (next c).0 port t s).1 store
                      (some (effect (next c).0 opened))
                      (added_view (next c).0 s port store opened seen t gave))
                    (port_refused (next c).0 s t gave full))
          ]
        ]
      ]
