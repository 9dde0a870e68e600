-- ===== src/Prelude/Waits.antt =====
-- Loops around `pthread_cond_timedwait`, as scheduler.c and storage.c have them: how such a loop may
-- end, on the state that is found at first and on each wait, its result and the state after it.
use feng_shui.Prelude.{ℕ, zero, suc, ◌≡◌, ◌≢◌, Bool, true, false, List, [], ◌∷◌}

module _ {S : Type 0} (more : S → Bool) where
  -- The loop ends after `n` waits that succeeded, in a state that asks for no more, and before each
  -- wait the state asked for more.
  abbrev pub CameAt : S → List (ℕ × S) → ℕ → S → Type 0
  CameAt s waits zero t = (s ≡ t) × (more t ≡ false)
  CameAt s [] (suc n) t = ⊥
  CameAt s ((code, after) ∷ waits) (suc n) t = (more s ≡ true) × (code ≡ 0) × CameAt after waits n t

  -- The loop makes `n` waits that succeed and then one that fails with the code.
  abbrev pub FailsAt : S → List (ℕ × S) → ℕ → ℕ → S → Type 0
  FailsAt s [] n failed t = ⊥
  FailsAt s ((code, after) ∷ waits) zero failed t =
      (more s ≡ true) × (code ≡ failed) × (failed ≢ 0) × (after ≡ t)
  FailsAt s ((code, after) ∷ waits) (suc n) failed t =
      (more s ≡ true) × (code ≡ 0) × FailsAt after waits n failed t

  -- All waits so far succeeded, and the last state asks for more.
  abbrev pub LastsFor : S → List (ℕ × S) → Type 0
  LastsFor s [] = more s ≡ true
  LastsFor s ((code, after) ∷ waits) = (more s ≡ true) × (code ≡ 0) × LastsFor after waits
