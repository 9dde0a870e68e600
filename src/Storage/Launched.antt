-- ===== src/Storage/Launched.antt =====
-- The thread of the storage beside the call that started it.
use feng_shui.Prelude.{
  ℕ, zero, suc, ◌≡◌, ◌≢◌, ◌⊎◌, inl, inr, refl, ap, ◌∙◌, arith, Bool, true, false, Option, none,
  some, List, [], ◌∷◌, All, eq→test, ℕ_discrete,
}
use feng_shui.Storage.Lifecycle.{
  Instance, storage_fiber, InitializeCalls, storage_initialize, down_yet, enomem,
}
use feng_shui.Prelude.Waits.{CameAt, FailsAt, LastsFor}
use feng_shui.Storage.Started.{
  IsStart, was_up, no_memory, no_thread, not_locked, wait_failed, came_up, not_closed, still_waits,
  storage_initialize-IsStart,
}
use feng_shui.Storage.Process.{ProcessCalls, launched, leave_loop, storage_process_initialization}

-- The instance, before the thread has come so far and behind.
abbrev pub Seen : ProcessCalls → Instance → Instance → Type 0
Seen calls i s = (s ≡ i) ⊎ (s ≡ (launched calls i).1)

-- A start that does not succeed: there was no memory, or a call failed, of those to start with or the
-- first wait that did; or the caller still waits.
abbrev pub Unanswered : InitializeCalls → Instance → Option (Bool × Instance) → Type 0
Unanswered calls i (some (true, j)) = ⊥
Unanswered calls i (some (false, j)) =
    ((calls.granted ≡ false) × (j ≡ record i { initialization_error = enomem }))
    ⊎ ((calls.create ≢ 0) × (j ≡ record i { initialization_error = calls.create }))
    ⊎ ((calls.lock ≢ 0) × (j ≡ record calls.found { initialization_error = calls.lock }))
    ⊎ ((n code : ℕ) × (t : Instance) × FailsAt down_yet calls.found calls.waits n code t
        × (j ≡ record t { initialization_error = code }))
Unanswered calls i none = LastsFor down_yet calls.found calls.waits

launched-quiet :
    (calls : ProcessCalls) (i : Instance)
    → i.initialized ≡ false
    → (launched calls i).0 ≡ false
    → (launched calls i).1.initialized ≡ false
unfolding launched storage_fiber
launched-quiet calls i down lost = ground arith

-- The wait does not end by a storage that is up.
CameAt-down :
    (found : Instance) (waits : List (ℕ × Instance)) (n : ℕ) (t : Instance)
    → found.initialized ≡ false
    → All (λ w. w.1.initialized ≡ false) waits
    → CameAt down_yet found waits n t
    → ⊥
CameAt-down found waits zero t down each (same, up) = ground arith
CameAt-down found [] (suc n) t down each at = at
CameAt-down found ((code, after) ∷ waits) (suc n) t down (one, each) (m, ok, at) =
    CameAt-down after waits n t one each at

IsStart-Unanswered :
    (calls : InitializeCalls) (i : Instance) (e : Option (Bool × Instance))
    → i.initialized ≡ false
    → calls.found.initialized ≡ false
    → All (λ w. w.1.initialized ≡ false) calls.waits
    → IsStart calls i e
    → Unanswered calls i e
IsStart-Unanswered calls i e down found each (was_up up same) = absurd (ground arith)
IsStart-Unanswered calls i e down found each (no_memory left same) = rw same (inl (left, refl))
IsStart-Unanswered calls i e down found each (no_thread failed same) =
    rw same (inr (inl (failed, refl)))
IsStart-Unanswered calls i e down found each (not_locked failed same) =
    rw same (inr (inr (inl (failed, refl))))
IsStart-Unanswered calls i e down found each (wait_failed n code t at same) =
    rw same (inr (inr (inr (n, code, t, at, refl))))
IsStart-Unanswered calls i e down found each (came_up n t at ok same) =
    absurd (CameAt-down calls.found calls.waits n t found each at)
IsStart-Unanswered calls i e down found each (not_closed n t at failed same) =
    absurd (CameAt-down calls.found calls.waits n t found each at)
IsStart-Unanswered calls i e down found each (still_waits fine same) = rw same fine

-- When the script fails, or Tarantool refuses the trigger, or the fiber does not come to serve,
-- `storage_initialize` never gives true, whatever number of times it wakes up: it gives false only
-- without memory, or with the code of the call that failed as its error, which is the creation of the
-- thread, the lock, or the first wait that failed; otherwise it waits on, and all waits so far
-- succeeded.
pub lost_start-Unanswered :
    (calls : ProcessCalls) (start : InitializeCalls) (i : Instance)
    → i.initialized ≡ false
    → (launched calls (record i { initialization_error = 0 })).0 ≡ false
    → Seen calls (record i { initialization_error = 0 }) start.found
    → All (λ w. Seen calls (record i { initialization_error = 0 }) w.1) start.waits
    → Unanswered start i (storage_initialize start i)
lost_start-Unanswered calls start i down lost found seen =
    IsStart-Unanswered start i (storage_initialize start i) down (one start.found found)
      (quiet start.waits seen) (storage_initialize-IsStart start i)
  where
    fresh : Instance
    fresh = record i { initialization_error = 0 }

    one : (s : Instance) → Seen calls fresh s → s.initialized ≡ false
    one s (inl e) = ap (λ (x : Instance). x.initialized) e ∙ down
    one s (inr e) = ap (λ (x : Instance). x.initialized) e ∙ launched-quiet calls fresh down lost

    quiet :
        (waits : List (ℕ × Instance))
        → All (λ w. Seen calls fresh w.1) waits
        → All (λ w. w.1.initialized ≡ false) waits
    quiet [] each = tt
    quiet ((code, s) ∷ waits) (e, each) = (one s e, quiet waits each)

abbrev EndsDown : ProcessCalls → Bool × Instance → Type 0
EndsDown calls (told, j) =
    (j.initialized ≡ false) ⊎ ((calls.lock ≢ 0) × (j.shutdown_error ≡ calls.lock) × (told ≡ false))

leave_loop-EndsDown :
    (calls : ProcessCalls) (up : Bool) (j : Instance)
    → j.initialized ≡ up
    → EndsDown calls (leave_loop calls j)
unfolding leave_loop
leave_loop-EndsDown calls false j e = inl (ground arith)
leave_loop-EndsDown calls true j e = elim (ℕ_discrete calls.lock 0) [
  | yes ok ↦ inl (ground arith)
  | no failed ↦ inr (failed, ground arith, ground arith)
]

-- The thread ends with the storage down; or it cannot lock the mutex of the shutdown, reports that,
-- and does not tell the launcher to shut down.
pub process-EndsDown :
    (calls : ProcessCalls) (i : Instance)
    → i.initialized ≡ false
    → EndsDown calls (storage_process_initialization calls i)
unfolding storage_process_initialization launched
process-EndsDown calls i down = elim (ℕ_discrete calls.script 0) [
  | no failed ↦ inl (ground arith)
  | yes ok ↦ elim (ℕ_discrete calls.registered 0) [
    | no failed ↦ inl (ground arith)
    | yes fine ↦
        rw
          (
            eq→test calls.script 0 ok,
            eq→test calls.registered 0 fine,
            storage_process_initialization,
          )
          (leave_loop-EndsDown calls _ (storage_fiber calls.fiber i).1 refl)
  ]
]
