-- ===== src/Scheduler/Started.antt =====
-- How the start of the scheduler ends.
use feng_shui.Prelude.{
  ℕ, zero, suc, ◌≡◌, ◌≢◌, ◌⊎◌, inl, inr, refl, sym, ap, ◌∙◌, arith, Bool, true, false, not, some,
  List, [], ◌∷◌, ◌==◌, if◌then◌else◌, All, length, replicate, ne→test, eq→test, ℕ_discrete,
}
use feng_shui.Prelude.Int.{ℤ, pos, negsuc}
use feng_shui.Prelude.Waits.{CameAt, FailsAt, LastsFor}
use feng_shui.Scheduler.Starting.{
  PthreadCall, lock, unlock, wait, broadcast, ListenCalls, listen_start, Ended, returned, panicked,
  waiting, did, check_code, Status, fresh, InitializeCalls, executor_scheduler_initialize, idle_yet,
  ring_status,
}
use feng_shui.Scheduler.Awaiting.{
  Guarded, well, ill, dies, stays, wait-Guarded, Closed, between, passed, refused,
  check_code-Checked,
}

-- A call fails and ends the process.
abbrev pub Failing : InitializeCalls → Type 0
Failing calls = (calls.locking ≢ 0) ⊎ (¬ Closed calls.closes)

pub data IsStart (P : Status → Type 0) (calls : InitializeCalls) (e : Ended (Bool × Status))
    : Type 0 where
  no_memory : calls.granted ≡ false → e ≡ panicked [] → IsStart P calls e
  no_thread :
      calls.creating ≢ 0
      → e ≡ returned [] (false, record fresh { initialization_error = some (pos calls.creating) })
      → IsStart P calls e
  up :
      (n : ℕ) (s : Status)
      → CameAt idle_yet calls.found calls.waits n s
      → P s
      → e ≡ returned (between n) (true, record s { initialized = true })
      → IsStart P calls e
  gave_up :
      (n code : ℕ) (s : Status)
      → FailsAt idle_yet calls.found calls.waits n code s
      → P s
      → e ≡ returned (between (suc n)) (false, record s { initialization_error = some (pos code) })
      → IsStart P calls e
  ends_process :
      (actions : List PthreadCall) → Failing calls → e ≡ panicked actions → IsStart P calls e
  still_waits :
      LastsFor idle_yet calls.found calls.waits
      → e ≡ waiting (lock ∷ replicate (length calls.waits) wait)
      → IsStart P calls e

module _ (P : Status → Type 0) (calls : InitializeCalls) where
  waited :
      (e : Ended (Bool × Status))
      → Guarded P idle_yet
          (λ s. (true, record s { initialized = true }))
          (λ code s. (false, record s { initialization_error = some (pos code) }))
          calls.locking
          calls.closes
          calls.found
          calls.waits
          e
      → IsStart P calls e
  waited e (well n s at p same) = up n s at p same
  waited e (ill n code s at p same) = gave_up n code s at p same
  waited e (dies actions failed same) = ends_process actions failed same
  waited e (stays fine same) = still_waits fine same

  begun :
      (granted : Bool) (e : Ended (Bool × Status))
      → calls.granted ≡ granted
      → IsStart P calls e
      → IsStart P calls (
          if not granted
          then panicked []
          else if calls.creating == 0
          then e
          else returned []
              (false, record fresh { initialization_error = some (pos calls.creating) }))
  begun false e known w = no_memory known refl
  begun true e known w = elim (ℕ_discrete calls.creating 0) [
    | no failed ↦ rw (ne→test calls.creating 0 failed) (no_thread failed refl)
    | yes ok ↦ rw (eq→test calls.creating 0 ok) w
  ]

  -- `executor_scheduler_initialize` gives a scheduler only once the thread has made it active, and
  -- then marks it as initialized; it gives NULL only when no thread was made, or when a wait failed,
  -- with the code of the first that failed as its error. Once it has the lock, it waits, and where it returns it unlocks and
  -- destroys the condition and the mutex, once each and in this order. A panic ends it only for lack
  -- of memory, or when another call fails. If it has not ended, it is in its wait, and all waits so
  -- far succeeded. Before each wait the status is not active, and a wait that succeeds is followed
  -- by a look at the status. A property of every status that it finds is one of the status that it ends with,
  -- but for what it writes itself.
  pub initialize-IsStart :
      P calls.found
      → All (λ w. P w.1) calls.waits
      → IsStart P calls (executor_scheduler_initialize calls)
  unfolding executor_scheduler_initialize
  initialize-IsStart p ps = begun calls.granted _ refl (
      waited _ (
        wait-Guarded P idle_yet (λ s. (true, record s { initialized = true }))
          (λ code s. (false, record s { initialization_error = some (pos code) })) calls.locking
          calls.closes calls.found calls.waits p ps))

-- The caller is told at most what a wait gave, the first that failed.
abbrev pub NeverUp : InitializeCalls → Ended (Bool × Status) → Type 0
NeverUp calls (returned actions (true, s)) = ⊥
NeverUp calls (returned actions (false, s)) =
    (n code : ℕ) × (t : Status) × FailsAt idle_yet calls.found calls.waits n code t
    × (s.initialization_error ≡ some (pos code))
NeverUp calls (panicked actions) = Failing calls ⊎ (calls.granted ≡ false)
NeverUp calls (waiting actions) = LastsFor idle_yet calls.found calls.waits

did-returned {ℓ} :
    {A : Type ℓ} (before actions : List PthreadCall) (e : Ended A) (r : A)
    → did before e ≡ returned actions r
    → (rest : List PthreadCall) × (e ≡ returned rest r)
did-returned before actions (returned rest a) r h = (rest, cc)
did-returned before actions (panicked rest) r h = absurd cc
did-returned before actions (waiting rest) r h = absurd cc

check_code-returned {ℓ} :
    {A : Type ℓ} (code : ℕ) (action : PthreadCall) (actions : List PthreadCall) (e : Ended A)
    (r : A)
    → check_code code action e ≡ returned actions r
    → (rest : List PthreadCall) × (e ≡ returned rest r)
check_code-returned code action actions e r h = elim (check_code-Checked code action e) [
  | passed ok same ↦ did-returned (action ∷ []) actions e r (sym same ∙ h)
  | refused failed same ↦ absurd (differ (sym same ∙ h))
]
  where
    differ : panicked (action ∷ []) ≡ returned actions r → ⊥
    differ h = cc

ring_status_quiet :
    (queue_init : ℤ) (s out : Status)
    → s.active ≡ false
    → ring_status queue_init s ≡ (false, out)
    → out.active ≡ false
ring_status_quiet (pos zero) s out quiet h = absurd cc
ring_status_quiet (pos (suc n)) s out quiet h =
    ap (λ (x : Bool × Status). x.1.active) (sym h) ∙ quiet
ring_status_quiet (negsuc n) s out quiet h = ap (λ (x : Bool × Status). x.1.active) (sym h) ∙ quiet

listen_start_quiet :
    (listen : ListenCalls) (actions : List PthreadCall) (out : Status)
    → listen_start listen fresh ≡ returned actions (false, out)
    → out.active ≡ false
unfolding listen_start
listen_start_quiet listen actions out h =
    let r = ring_status listen.queue_init fresh in
    let (rest, e) =
      check_code-returned listen.locking lock actions
        (check_code listen.broadcasting broadcast
          (check_code listen.unlocking unlock (returned [] r)))
        (false, out) h in
    let (rest', e') =
      check_code-returned listen.broadcasting broadcast rest
        (check_code listen.unlocking unlock (returned [] r)) (false, out) e in
    let (rest'', e'') =
      check_code-returned listen.unlocking unlock rest' (returned [] r) (false, out) e' in
    ring_status_quiet listen.queue_init fresh out refl (answers r (false, out) rest'' e'')
  where
    answers :
        (r r' : Bool × Status) (rest : List PthreadCall) → returned [] r ≡ returned rest r' → r ≡ r'
    answers r r' rest h = cc

-- What a thread without a ring leaves, at any time.
abbrev pub Quiet : Status → Status → Type 0
Quiet out s = (s ≡ fresh) ⊎ (s ≡ out)

came_up :
    (found : Status) (waits : List (ℕ × Status)) (n : ℕ) (s : Status)
    → CameAt idle_yet found waits n s
    → s.active ≡ false
    → ⊥
came_up found waits zero s (same, active) quiet = ground arith
came_up found [] (suc n) s at quiet = at
came_up found ((code, after) ∷ waits) (suc n) s (m, ok, at) quiet = came_up after waits n s at quiet

IsStart-NeverUp :
    (calls : InitializeCalls) (e : Ended (Bool × Status))
    → calls.creating ≡ 0
    → IsStart (λ s. s.active ≡ false) calls e
    → NeverUp calls e
IsStart-NeverUp calls e made (no_memory x same) = rw same (inr x)
IsStart-NeverUp calls e made (no_thread failed same) = absurd (failed made)
IsStart-NeverUp calls e made (up n s at quiet same) =
    absurd (came_up calls.found calls.waits n s at quiet)
IsStart-NeverUp calls e made (gave_up n code s at p same) = rw same (n, code, s, at, refl)
IsStart-NeverUp calls e made (ends_process actions failed same) = rw same (inl failed)
IsStart-NeverUp calls e made (still_waits fine same) = rw same fine

All-mono {ℓ} :
    {A : Type ℓ} {P Q : A → Type 0} (xs : List A) → ((x : A) → P x → Q x) → All P xs → All Q xs
All-mono [] f ps = tt
All-mono (x ∷ xs) f (p, ps) = (f x p, All-mono xs f ps)

-- When the thread is made and gets no ring, no scheduler is given to the caller. That the thread
-- says so is not noticed: `executor_scheduler_initialize` returns only when a wait fails, and the
-- error it leaves is the code of the first wait that failed; otherwise it waits on, or a panic ends
-- the process for lack of memory or because another call fails.
pub refused_ring-NeverUp :
    (listen : ListenCalls) (actions : List PthreadCall) (out : Status) (calls : InitializeCalls)
    → listen_start listen fresh ≡ returned actions (false, out)
    → calls.creating ≡ 0
    → Quiet out calls.found
    → All (λ w. Quiet out w.1) calls.waits
    → NeverUp calls (executor_scheduler_initialize calls)
refused_ring-NeverUp listen actions out calls no_ring made found waits =
    IsStart-NeverUp calls (executor_scheduler_initialize calls) made (
      initialize-IsStart (λ s. s.active ≡ false) calls (quiet calls.found found)
        (All-mono calls.waits (λ w. quiet w.1) waits))
  where
    quiet : (s : Status) → Quiet out s → s.active ≡ false
    quiet s (inl e) = ap (λ (x : Status). x.active) e
    quiet s (inr e) =
        ap (λ (x : Status). x.active) e ∙ listen_start_quiet listen actions out no_ring
