-- ===== src/Transport/Sweeping.antt =====
-- What a loop over the table of operations under way does: some events are cancelled and cleared.
use mathlib.Core.List.{append_assoc}
use feng_shui.Prelude.{
  ℕ, suc, ◌≡◌, refl, sym, ap, ◌∙◌, Bool, true, false, Option, none, some, List, [], ◌∷◌, ◌++◌, set,
  length, if◌then◌else◌, arith, length-append,
}
use feng_shui.EventMap.{EventMap, Event}
use feng_shui.Uring.{Uring}
use feng_shui.Transport.Endings.{delete_slots}

-- The slots from `index` on, the slots to clear, what the clearing leaves, and the tags cancelled.
-- Exactly the events that meet `test` are taken, save that some may be refused.
pub data Sweep (test : Event → Bool) (refusal : Type 0)
    : ℕ → List (Option Event) → List ℕ → List (Option Event) → List ℕ → Type 0 where
  over : {i : ℕ} → Sweep test refusal i [] [] [] []
  vacant :
      {i : ℕ} {ns ns' : List (Option Event)} {ds ks : List ℕ}
      → Sweep test refusal (suc i) ns ds ns' ks
      → Sweep test refusal i (none ∷ ns) ds (none ∷ ns') ks
  spared :
      {i : ℕ} {ns ns' : List (Option Event)} {ds ks : List ℕ} (e : Event)
      → test e ≡ false
      → Sweep test refusal (suc i) ns ds ns' ks
      → Sweep test refusal i (some e ∷ ns) ds (some e ∷ ns') ks
  refused :
      {i : ℕ} {ns ns' : List (Option Event)} {ds ks : List ℕ} (e : Event)
      → refusal
      → test e ≡ true
      → Sweep test refusal (suc i) ns ds ns' ks
      → Sweep test refusal i (some e ∷ ns) ds (some e ∷ ns') ks
  taken :
      {i : ℕ} {ns ns' : List (Option Event)} {ds ks : List ℕ} (e : Event)
      → test e ≡ true
      → Sweep test refusal (suc i) ns ds ns' ks
      → Sweep test refusal i (some e ∷ ns) (i ∷ ds) (none ∷ ns') (e.user_data ∷ ks)

-- The slots without the events that meet a test, and the tags of those, in order.
abbrev pub without : (Event → Bool) → List (Option Event) → List (Option Event)
without test [] = []
without test (none ∷ ns) = none ∷ without test ns
without test (some e ∷ ns) = (if test e then none else some e) ∷ without test ns

abbrev pub tags_of : (Event → Bool) → List (Option Event) → List ℕ
tags_of test [] = []
tags_of test (none ∷ ns) = tags_of test ns
tags_of test (some e ∷ ns) = if test e then e.user_data ∷ tags_of test ns else tags_of test ns

-- Where nothing is refused.
pub Sweep-without :
    {test : Event → Bool} {refusal : Type 0} {i : ℕ} {ns ns' : List (Option Event)} {ds ks : List ℕ}
    → (refusal → ⊥)
    → Sweep test refusal i ns ds ns' ks
    → (ns' ≡ without test ns) × (ks ≡ tags_of test ns)
Sweep-without allowed over = (refl, refl)
Sweep-without allowed (vacant s) =
    let (left, tags) = Sweep-without allowed s in (ap (◌∷◌ none) left, tags)
Sweep-without allowed (spared e h s) =
    let (left, tags) = Sweep-without allowed s in (rw h (ap (◌∷◌ (some e)) left), rw h tags)
Sweep-without allowed (refused e r h s) = absurd (allowed r)
Sweep-without allowed (taken e h s) =
    let (left, tags) = Sweep-without allowed s in
    (rw h (ap (◌∷◌ none) left), rw h (ap (◌∷◌ e.user_data) tags))

abbrev clear : List (Option Event) → List ℕ → List (Option Event)
clear ns [] = ns
clear ns (i ∷ ds) = clear (set ns i none) ds

set-append :
    (before ns : List (Option Event)) (n : Option Event)
    → set (before ++ n ∷ ns) (length before) none ≡ before ++ none ∷ ns
set-append [] ns n = refl
set-append (b ∷ before) ns n = ap (◌∷◌ b) (set-append before ns n)

-- One slot more in front.
onward :
    (before ns ns' : List (Option Event)) (n : Option Event) (ds : List ℕ)
    → clear ((before ++ n ∷ []) ++ ns) ds ≡ (before ++ n ∷ []) ++ ns'
    → clear (before ++ n ∷ ns) ds ≡ before ++ n ∷ ns'
onward before ns ns' n ds h =
    ap (λ (xs : List (Option Event)). clear xs ds) (sym (append_assoc before (n ∷ []) ns))
    ∙ h
    ∙ append_assoc before (n ∷ []) ns'

counted :
    (before : List (Option Event)) (n : Option Event) (i : ℕ)
    → i ≡ length before
    → suc i ≡ length (before ++ n ∷ [])
counted before n i h = omega (arith, length-append before (n ∷ []))

clear-Sweep :
    {test : Event → Bool} {refusal : Type 0} {i : ℕ} {ns ns' : List (Option Event)} {ds ks : List ℕ}
    (before : List (Option Event))
    → i ≡ length before
    → Sweep test refusal i ns ds ns' ks
    → clear (before ++ ns) ds ≡ before ++ ns'
clear-Sweep before h over = refl
clear-Sweep {i = i} before h (vacant {ns = ns} {ns' = ns'} {ds = ds} s) =
    onward before ns ns' none ds (clear-Sweep (before ++ none ∷ []) (counted before none i h) s)
clear-Sweep {i = i} before h (spared {ns = ns} {ns' = ns'} {ds = ds} e t s) =
    onward before ns ns' (some e) ds
      (clear-Sweep (before ++ some e ∷ []) (counted before (some e) i h) s)
clear-Sweep {i = i} before h (refused {ns = ns} {ns' = ns'} {ds = ds} e r t s) =
    onward before ns ns' (some e) ds
      (clear-Sweep (before ++ some e ∷ []) (counted before (some e) i h) s)
clear-Sweep {i = i} before h (taken {ns = ns} {ns' = ns'} {ds = ds} e t s) =
    ap (λ (xs : List (Option Event)). clear xs ds)
      (ap (λ (k : ℕ). set (before ++ some e ∷ ns) k none) h ∙ set-append before ns (some e))
    ∙ onward before ns ns' none ds (clear-Sweep (before ++ none ∷ []) (counted before none i h) s)

module _ (uring : Uring) (map : EventMap) where
  open map use {Map, slots, slots-del}

  slots-delete_slots :
      (m : Map) (ds : List ℕ) → slots (delete_slots uring map m ds) ≡ clear (slots m) ds
  unfolding delete_slots
  slots-delete_slots m [] = refl
  slots-delete_slots m (i ∷ ds) =
      slots-delete_slots (map.del m i) ds
      ∙ ap (λ (xs : List (Option Event)). clear xs ds) (slots-del m i)

  -- Deleting the slots of a sweep leaves what the sweep says.
  pub delete_slots-Sweep :
      {test : Event → Bool} {refusal : Type 0} {ns' : List (Option Event)} {ds ks : List ℕ}
      (m : Map)
      → Sweep test refusal 0 (slots m) ds ns' ks
      → slots (delete_slots uring map m ds) ≡ ns'
  delete_slots-Sweep {ds = ds} m s = slots-delete_slots m ds ∙ clear-Sweep [] refl s
