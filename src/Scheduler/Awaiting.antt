-- ===== src/Scheduler/Awaiting.antt =====
-- How a loop around `pthread_cond_timedwait` ends, and what follows it.
use feng_shui.Prelude.{
  ℕ, suc, ◌≡◌, ◌≢◌, ◌⊎◌, inl, inr, refl, ap, ◌∙◌, Bool, true, false, List, [], ◌∷◌, ◌++◌, ◌==◌,
  if◌then◌else◌, All, length, replicate, ne→test, eq→test, ℕ_discrete,
}
use feng_shui.Prelude.Waits.{CameAt, FailsAt, LastsFor}
use feng_shui.Scheduler.Starting.{
  PthreadCall, lock, unlock, wait, condition_destroy, mutex_destroy, Ended, returned, panicked,
  waiting, did, check_code, await, ClosingCalls, closing,
}

pub did-did {ℓ} :
    {A : Type ℓ} (a : PthreadCall) (before : List PthreadCall) (e : Ended A)
    → did (a ∷ []) (did before e) ≡ did (a ∷ before) e
did-did a before (returned actions r) = refl
did-did a before (panicked actions) = refl
did-did a before (waiting actions) = refl

pub did-nil {ℓ} : {A : Type ℓ} (e : Ended A) → e ≡ did [] e
did-nil (returned actions r) = refl
did-nil (panicked actions) = refl
did-nil (waiting actions) = refl

-- A checked call is made and goes on, or it fails and is the last.
pub data Checked {ℓ} {A : Type ℓ} (code : ℕ) (action : PthreadCall) (rest e : Ended A)
    : Type ℓ where
  passed : code ≡ 0 → e ≡ did (action ∷ []) rest → Checked code action rest e
  refused : code ≢ 0 → e ≡ panicked (action ∷ []) → Checked code action rest e

pub check_code-Checked {ℓ} :
    {A : Type ℓ} (code : ℕ) (action : PthreadCall) (rest : Ended A)
    → Checked code action rest (check_code code action rest)
check_code-Checked code action rest = elim (ℕ_discrete code 0) [
  | yes ok ↦ passed ok (rw (eq→test code 0 ok) refl)
  | no failed ↦ refused failed (rw (ne→test code 0 failed) refl)
]

-- Each way in which the loop ends, with a property of every state.
module _ {ℓ} {A : Type ℓ} {S : Type 0} (P : S → Type 0) (more : S → Bool) (over : S → Ended A)
    (failed : ℕ → S → Ended A) where
  pub data Awaited (found : S) (waits : List (ℕ × S)) (e : Ended A) : Type ℓ where
    came :
        (n : ℕ) (t : S)
        → CameAt more found waits n t
        → P t
        → e ≡ did (replicate n wait) (over t)
        → Awaited found waits e
    broke :
        (n code : ℕ) (t : S)
        → FailsAt more found waits n code t
        → P t
        → e ≡ did (replicate (suc n) wait) (failed code t)
        → Awaited found waits e
    lasts :
        LastsFor more found waits
        → e ≡ waiting (replicate (length waits) wait)
        → Awaited found waits e

  later :
      (s : S) (waits : List (ℕ × S)) (after : S) (e : Ended A)
      → more s ≡ true
      → Awaited after waits e
      → Awaited s ((0, after) ∷ waits) (did (wait ∷ []) e)
  later s waits after e m (came n t at p same) =
      came (suc n) t (m, refl, at) p
        (ap (did (wait ∷ [])) same ∙ did-did wait (replicate n wait) (over t))
  later s waits after e m (broke n code t at p same) =
      broke (suc n) code t (m, refl, at) p
        (ap (did (wait ∷ [])) same ∙ did-did wait (replicate (suc n) wait) (failed code t))
  later s waits after e m (lasts fine same) = lasts (m, refl, fine) (ap (did (wait ∷ [])) same)

  -- The test of the loop, on the value that it finds.
  tested :
      (b : Bool) (waits : List (ℕ × S)) (s : S) (rest : Ended A)
      → more s ≡ b
      → P s
      → (more s ≡ true → Awaited s waits rest)
      → Awaited s waits (if b then rest else over s)
  tested true waits s rest e p w = w e
  tested false waits s rest e p w = came 0 s (refl, e) p (did-nil (over s))

  waited :
      (s : S) (code : ℕ) (after : S) (waits : List (ℕ × S)) (rest : Ended A)
      → P after
      → Awaited after waits rest
      → more s ≡ true
      → Awaited s
          ((code, after) ∷ waits)
          (did (wait ∷ []) (if code == 0 then rest else failed code after))
  waited s code after waits rest p w m = elim (ℕ_discrete code 0) [
    | yes ok ↦ rw (eq→test code 0 ok, ok) (later s waits after rest m w)
    | no error ↦ rw (ne→test code 0 error) (broke 0 code after (m, refl, error, refl) p refl)
  ]

  pub await-Awaited :
      (waits : List (ℕ × S)) (s : S)
      → P s
      → All (λ w. P w.1) waits
      → Awaited s waits (await more over failed waits s)
  unfolding await
  await-Awaited [] s p ps = tested (more s) [] s (waiting []) refl p (λ m. lasts m refl)
  await-Awaited ((code, after) ∷ waits) s p (q, ps) =
      tested (more s) ((code, after) ∷ waits) s _ refl p (
        waited s code after waits (await more over failed waits after) q
          (await-Awaited waits after q ps))

-- The calls behind a wait, when none of them fails.
abbrev pub closed : List PthreadCall
closed = unlock ∷ condition_destroy ∷ mutex_destroy ∷ []

pub Closed : ClosingCalls → Type 0
Closed calls =
    (calls.unlocking ≡ 0) × (calls.destroying_condition ≡ 0) × (calls.destroying_mutex ≡ 0)

pub data Closes {ℓ} {A : Type ℓ} (calls : ClosingCalls) (a : A) (e : Ended A) : Type ℓ where
  all_done : e ≡ returned closed a → Closes calls a e
  stopped : (actions : List PthreadCall) → ¬ Closed calls → e ≡ panicked actions → Closes calls a e

pub closing-Closes {ℓ} :
    {A : Type ℓ} (calls : ClosingCalls) (a : A) → Closes calls a (closing calls a)
unfolding Closed
closing-Closes calls a = elim (ℕ_discrete calls.unlocking 0) [
  | no x ↦ rw (ne→test calls.unlocking 0 x) (stopped _ (λ c. x c.0) refl)
  | yes p ↦ rw (eq→test calls.unlocking 0 p) (elim (ℕ_discrete calls.destroying_condition 0) [
    | no x ↦ rw (ne→test calls.destroying_condition 0 x) (stopped _ (λ c. x c.1) refl)
    | yes q ↦
        rw (eq→test calls.destroying_condition 0 q) (elim (ℕ_discrete calls.destroying_mutex 0) [
          | no x ↦ rw (ne→test calls.destroying_mutex 0 x) (stopped _ (λ c. x c.2) refl)
          | yes r ↦ rw (eq→test calls.destroying_mutex 0 r) (all_done refl)
        ])
  ])
]

-- The lock, `n` waits, and what follows them.
abbrev pub between : ℕ → List PthreadCall
between n = lock ∷ replicate n wait ++ closed

-- The lock, a wait and the calls behind it, with the value for either end of the wait.
module _ {ℓ} {A : Type ℓ} {S : Type 0} (P : S → Type 0) (more : S → Bool) (good : S → A)
    (bad : ℕ → S → A) (locking : ℕ) (closes : ClosingCalls) (found : S) (waits : List (ℕ × S)) where
  pub data Guarded (e : Ended A) : Type ℓ where
    well :
        (n : ℕ) (t : S)
        → CameAt more found waits n t
        → P t
        → e ≡ returned (between n) (good t)
        → Guarded e
    ill :
        (n code : ℕ) (t : S)
        → FailsAt more found waits n code t
        → P t
        → e ≡ returned (between (suc n)) (bad code t)
        → Guarded e
    dies :
        (actions : List PthreadCall)
        → (locking ≢ 0) ⊎ (¬ Closed closes)
        → e ≡ panicked actions
        → Guarded e
    stays :
        LastsFor more found waits → e ≡ waiting (lock ∷ replicate (length waits) wait) → Guarded e

  behind :
      (before : List PthreadCall) (a : A)
      → ((e : Ended A) → e ≡ returned (lock ∷ before ++ closed) a → Guarded e)
      → Guarded (did (lock ∷ []) (did before (closing closes a)))
  behind before a done = elim (closing-Closes closes a) [
    | all_done e ↦ done _ (ap (λ (x : Ended A). did (lock ∷ []) (did before x)) e)
    | stopped actions failed e ↦
        dies _ (inr failed) (ap (λ (x : Ended A). did (lock ∷ []) (did before x)) e)
  ]

  locked :
      (e : Ended A)
      → Awaited P more
          (λ s. closing closes (good s))
          (λ code s. closing closes (bad code s))
          found
          waits
          e
      → Guarded (did (lock ∷ []) e)
  locked e (came n t at p same) = rw same (behind (replicate n wait) (good t) (λ x. well n t at p))
  locked e (broke n code t at p same) =
      rw same (behind (replicate (suc n) wait) (bad code t) (λ x. ill n code t at p))
  locked e (lasts fine same) = stays fine (ap (did (lock ∷ [])) same)

  pub wait-Guarded :
      P found
      → All (λ w. P w.1) waits
      → Guarded (
          check_code locking lock (
            await more
              (λ s. closing closes (good s))
              (λ code s. closing closes (bad code s))
              waits
              found))
  wait-Guarded p ps = elim (ℕ_discrete locking 0) [
    | no failed ↦ rw (ne→test locking 0 failed) (dies _ (inl failed) refl)
    | yes ok ↦ rw (eq→test locking 0 ok) (locked _ (await-Awaited P more _ _ waits found p ps))
  ]
