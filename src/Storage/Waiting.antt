-- ===== src/Storage/Waiting.antt =====
-- How the loops end that wait for the storage to come up, or to go down.
use feng_shui.Prelude.{
  ℕ, suc, ◌≡◌, refl, Bool, true, false, Option, none, some, List, [], ◌∷◌, ◌==◌, if◌then◌else◌,
  ne→test, eq→test, ℕ_discrete,
}
use feng_shui.Prelude.Waits.{CameAt, FailsAt, LastsFor}
use feng_shui.Storage.Lifecycle.{Instance, wait_while}

pub data Waited (more : Instance → Bool) (found : Instance) (waits : List (ℕ × Instance))
    (r : Option (ℕ × Instance)) : Type 0 where
  came :
      (n : ℕ) (t : Instance)
      → CameAt more found waits n t
      → r ≡ some (0, t)
      → Waited more found waits r
  broke :
      (n code : ℕ) (t : Instance)
      → FailsAt more found waits n code t
      → r ≡ some (code, t)
      → Waited more found waits r
  lasts : LastsFor more found waits → r ≡ none → Waited more found waits r

module _ (more : Instance → Bool) where
  later :
      (s : Instance) (waits : List (ℕ × Instance)) (after : Instance) (r : Option (ℕ × Instance))
      → more s ≡ true
      → Waited more after waits r
      → Waited more s ((0, after) ∷ waits) r
  later s waits after r m (came n t at e) = came (suc n) t (m, refl, at) e
  later s waits after r m (broke n code t at e) = broke (suc n) code t (m, refl, at) e
  later s waits after r m (lasts fine e) = lasts (m, refl, fine) e

  -- The test of the loop, on the value that it finds.
  tested :
      (b : Bool) (s : Instance) (waits : List (ℕ × Instance)) (rest : Option (ℕ × Instance))
      → more s ≡ b
      → (more s ≡ true → Waited more s waits rest)
      → Waited more s waits (if b then rest else some (0, s))
  tested true s waits rest e w = w e
  tested false s waits rest e w = came 0 s (refl, e) refl

  waited :
      (s : Instance) (code : ℕ) (after : Instance) (waits : List (ℕ × Instance))
      (rest : Option (ℕ × Instance))
      → Waited more after waits rest
      → more s ≡ true
      → Waited more s ((code, after) ∷ waits) (if code == 0 then rest else some (code, after))
  waited s code after waits rest w m = elim (ℕ_discrete code 0) [
    | yes ok ↦ rw (eq→test code 0 ok, ok) (later s waits after rest m w)
    | no failed ↦ rw (ne→test code 0 failed) (broke 0 code after (m, refl, failed, refl) refl)
  ]

  pub wait_while-Waited :
      (waits : List (ℕ × Instance)) (s : Instance) → Waited more s waits (wait_while more waits s)
  unfolding wait_while
  wait_while-Waited [] s = tested (more s) s [] none refl (λ m. lasts m refl)
  wait_while-Waited ((code, after) ∷ waits) s =
      tested (more s) s ((code, after) ∷ waits)
        (if code == 0 then wait_while more waits after else some (code, after)) refl
        (waited s code after waits (wait_while more waits after) (wait_while-Waited waits after))
