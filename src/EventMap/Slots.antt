-- ===== src/EventMap/Slots.antt =====
-- A table of slots without hashing meets the laws of `EventMap`: a new event goes behind the others.
use feng_shui.Prelude.{
  ℕ, zero, suc, ◌≡◌, ◌≢◌, ◌⊎◌, inl, inr, refl, sym, ap, ◌∙◌, arith, Bool, true, false, Option, none,
  some, List, [], ◌∷◌, ◌++◌, set, ◌==◌, if◌then◌else◌, length,
}
use feng_shui.EventMap.{EventMap, Event, Lies}

-- The slots without the event of a key, and behind them a new event.
abbrev vacate : ℕ → List (Option Event) → List (Option Event)
vacate key [] = []
vacate key (none ∷ ns) = none ∷ vacate key ns
vacate key (some e ∷ ns) = (if e.user_data == key then none else some e) ∷ vacate key ns

abbrev insert : List (Option Event) → Event → List (Option Event)
insert ns e = vacate e.user_data ns ++ some e ∷ []

abbrev later : Option ℕ → Option ℕ
later none = none
later (some i) = some (suc i)

abbrev search_slots : List (Option Event) → ℕ → Option ℕ
search_slots [] key = none
search_slots (none ∷ ns) key = later (search_slots ns key)
search_slots (some e ∷ ns) key = if e.user_data == key then some 0 else later (search_slots ns key)

later_found : (o : Option ℕ) (i : ℕ) → later o ≡ some i → (j : ℕ) × (o ≡ some j) × (i ≡ suc j)
later_found none i h = absurd cc
later_found (some j) i h = (j, refl, cc)

later_missing : (o : Option ℕ) → later o ≡ none → o ≡ none
later_missing none h = refl
later_missing (some j) h = absurd cc

picked :
    (b : Bool) (o : Option ℕ) (i : ℕ)
    → (if b then some 0 else later o) ≡ some i
    → ((b ≡ true) × (i ≡ 0)) ⊎ ((j : ℕ) × (o ≡ some j) × (i ≡ suc j))
picked true o i h = inl (refl, cc)
picked false o i h = inr (later_found o i h)

picked_missing :
    (b : Bool) (o : Option ℕ) → (if b then some 0 else later o) ≡ none → (b ≡ false) × (o ≡ none)
picked_missing true o h = absurd cc
picked_missing false o h = (refl, later_missing o h)

ne_of_test : (a b : ℕ) → (a == b) ≡ false → a ≢ b
ne_of_test a b h e = ground arith

eq_of_test : (a b : ℕ) → (a == b) ≡ true → a ≡ b
eq_of_test a b h = ground arith

test_of_ne : (a b : ℕ) → a ≢ b → (a == b) ≡ false
test_of_ne a b h = ground arith

-- A slot that is not vacated.
kept_slot :
    (b : Bool) (c d : Event)
    → ◌≡◌ {A = Option (Option Event)} (some (if b then none else some c)) (some (some d))
    → (b ≡ false) × (c ≡ d)
kept_slot true c d h = absurd cc
kept_slot false c d h = (refl, cc)

-- What lies in the slots after an insertion, and the converse.
pub inserted :
    (ns : List (Option Event)) (e d : Event) (i : ℕ)
    → Lies (insert ns e) i d
    → ((d ≡ e) × (i ≡ length ns)) ⊎ (Lies ns i d × (d.user_data ≢ e.user_data))
inserted [] e d zero l = inl (cc, refl)
inserted [] e d (suc i) l = absurd cc
inserted (none ∷ ns) e d zero l = absurd cc
inserted (none ∷ ns) e d (suc i) l = elim (inserted ns e d i l) [
  | inl (new, at_end) ↦ inl (new, omega arith)
  | inr old ↦ inr old
]
inserted (some c ∷ ns) e d zero l =
    let (other, same) = kept_slot (c.user_data == e.user_data) c d l in
    inr (
      ap (λ (x : Event). some (some x)) same,
      λ h. ne_of_test c.user_data e.user_data other (ap (λ (x : Event). x.user_data) same ∙ h),
    )
inserted (some c ∷ ns) e d (suc i) l = elim (inserted ns e d i l) [
  | inl (new, at_end) ↦ inl (new, omega arith)
  | inr old ↦ inr old
]

pub new_there : (ns : List (Option Event)) (e : Event) → Lies (insert ns e) (length ns) e
new_there [] e = refl
new_there (none ∷ ns) e = new_there ns e
new_there (some c ∷ ns) e = new_there ns e

only : (c d : Event) → ◌≡◌ {A = Option (Option Event)} (some (some c)) (some (some d)) → c ≡ d
only c d h = cc

pub old_there :
    (ns : List (Option Event)) (e d : Event) (i : ℕ)
    → Lies ns i d
    → d.user_data ≢ e.user_data
    → Lies (insert ns e) i d
old_there [] e d i l h = absurd cc
old_there (none ∷ ns) e d zero l h = absurd cc
old_there (none ∷ ns) e d (suc i) l h = old_there ns e d i l h
old_there (some c ∷ ns) e d zero l h =
    rw
      (test_of_ne c.user_data e.user_data
        (λ p. h (ap (λ (x : Event). x.user_data) (sym (only c d l)) ∙ p)))
      l
old_there (some c ∷ ns) e d (suc i) l h = old_there ns e d i l h

pub search-found :
    (ns : List (Option Event)) (key i : ℕ)
    → search_slots ns key ≡ some i
    → (e : Event) × Lies ns i e × (e.user_data ≡ key)
search-found [] key i h = absurd cc
search-found (none ∷ ns) key i h =
    let (j, found, next) = later_found (search_slots ns key) i h in
    let (e, lies, same) = search-found ns key j found in (e, rw next lies, same)
search-found (some c ∷ ns) key i h = elim (picked (c.user_data == key) (search_slots ns key) i h) [
  | inl (same, first) ↦ (c, rw first refl, eq_of_test c.user_data key same)
  | inr (j, found, next) ↦
      let (e, lies, same) = search-found ns key j found in (e, rw next lies, same)
]

pub search-missing :
    (ns : List (Option Event)) (key i : ℕ) (e : Event)
    → search_slots ns key ≡ none
    → Lies ns i e
    → e.user_data ≢ key
search-missing [] key i e h l = absurd cc
search-missing (none ∷ ns) key zero e h l = absurd cc
search-missing (none ∷ ns) key (suc i) e h l =
    search-missing ns key i e (later_missing (search_slots ns key) h) l
search-missing (some c ∷ ns) key zero e h l = λ same.
    ne_of_test c.user_data key (picked_missing (c.user_data == key) (search_slots ns key) h).0
      (ap (λ (x : Event). x.user_data) (only c e l) ∙ same)
search-missing (some c ∷ ns) key (suc i) e h l =
    search-missing ns key i e (picked_missing (c.user_data == key) (search_slots ns key) h).1 l

-- The slots with the fact that their keys differ.
abbrev pub AreDistinct : List (Option Event) → Type 0
AreDistinct ns =
    (i j : ℕ) (d e : Event) → Lies ns i d → Lies ns j e → d.user_data ≡ e.user_data → i ≡ j

pub record Table : Type 0 where
  pub cells : List (Option Event)
  pub distinct : AreDistinct cells

pub insert-AreDistinct : (t : Table) (e : Event) → AreDistinct (insert t.cells e)
insert-AreDistinct t e i j c d p q same = go (inserted t.cells e c i p) (inserted t.cells e d j q)
  where
    go :
        ((c ≡ e) × (i ≡ length t.cells)) ⊎ (Lies t.cells i c × (c.user_data ≢ e.user_data))
        → ((d ≡ e) × (j ≡ length t.cells)) ⊎ (Lies t.cells j d × (d.user_data ≢ e.user_data))
        → i ≡ j
    go (inl (new, at_end)) (inl (new', at_end')) = at_end ∙ sym at_end'
    go (inl (new, at_end)) (inr (old, other)) =
        absurd (other (sym same ∙ ap (λ (x : Event). x.user_data) new))
    go (inr (old, other)) (inl (new, at_end)) =
        absurd (other (same ∙ ap (λ (x : Event). x.user_data) new))
    go (inr (old, other)) (inr (old', other')) = t.distinct i j c d old old' same

pub cleared_lies :
    (ns : List (Option Event)) (k i : ℕ) (d : Event) → Lies (set ns k none) i d → Lies ns i d
cleared_lies [] k i d l = l
cleared_lies (n ∷ ns) zero zero d l = absurd cc
cleared_lies (n ∷ ns) zero (suc i) d l = l
cleared_lies (n ∷ ns) (suc k) zero d l = l
cleared_lies (n ∷ ns) (suc k) (suc i) d l = cleared_lies ns k i d l

abbrev put : Table → Event → Table
put t e = record { cells = insert t.cells e; distinct = insert-AreDistinct t e }

abbrev del : Table → ℕ → Table
del t k = record {
  cells = set t.cells k none;
  distinct = λ i j d e p q same.
      t.distinct i j d e (cleared_lies t.cells k i d p) (cleared_lies t.cells k j e q) same;
}

abbrev pub table : EventMap
table = record {
  Map = Table;
  slots = λ t. t.cells;
  put = put;
  find = λ t key. search_slots t.cells key;
  del = del;
  slots-del = λ t i. refl;
  find-found = λ t key i h. search-found t.cells key i h;
  find-missing = λ t key i e h l. search-missing t.cells key i e h l;
  distinct = λ t. t.distinct;
  put-new = λ t e. (length t.cells, new_there t.cells e);
  put-old = λ t e d i l h. (i, old_there t.cells e d i l h);
  put-only = λ t e d i l. elim (inserted t.cells e d i l) [
    | inl (new, at_end) ↦ inl new
    | inr (old, other) ↦ inr (i, old, other)
  ];
}

pub []-AreDistinct : AreDistinct []
[]-AreDistinct i j d e p q same = absurd cc

abbrev pub empty : Table
empty = record { cells = []; distinct = []-AreDistinct }
