-- ===== src/Transport/Removing.antt =====
-- transport_remove_event, which the Dart code calls when an operation completes.
use feng_shui.Prelude.{
  ℕ, ◌≡◌, ◌≢◌, ◌↔◌, inl, inr, sym, ap, ◌∙◌, Option-cases, Option, none, some, List, get_elem?, set,
  get_elem?-inside, get_elem?-set_self, get_elem?-set_ne, ℕ_discrete,
}
use feng_shui.Prelude.Int.{ℤ}
use feng_shui.Uring.{Uring}
use feng_shui.EventMap.{EventMap, Event, Lies}
use feng_shui.Transport.{Transport, transport_add_event}
use feng_shui.Transport.Endings.{transport_remove_event}

-- The table holds the event, at some place.
abbrev pub Holds : List (Option Event) → Event → Type 0
Holds slots e = (i : ℕ) × Lies slots i e

same_event :
    (slots : List (Option Event)) (i j : ℕ) (d e : Event)
    → i ≡ j
    → Lies slots i d
    → Lies slots j e
    → d ≡ e
same_event slots i j d e h p q = cc (ap (get_elem? slots) h, p, q)

not_cleared :
    (slots : List (Option Event)) (i j : ℕ) (d e : Event)
    → i ≡ j
    → Lies slots i d
    → Lies (set slots i none) j e
    → ⊥
not_cleared slots i j d e h p q = cc (
  ap (get_elem? (set slots i none)) h,
  get_elem?-set_self slots i none (get_elem?-inside slots i (some d) p),
  q,
)

module _ (uring : Uring) (map : EventMap) where
  open map use {
    Map, slots, find, del, put, slots-del, find-found, find-missing, distinct, put-new, put-old,
    put-only,
  }

  cleared :
      (m : Map) (key j : ℕ) (e : Event) (i : ℕ)
      → find m key ≡ some j
      → Lies (slots (del m j)) i e ↔ (Lies (slots m) i e × (e.user_data ≢ key))
  cleared m key j e i found = (to, from)
    where
      there : (d : Event) × Lies (slots m) j d × (d.user_data ≡ key)
      there = find-found m key j found

      to : Lies (slots (del m j)) i e → Lies (slots m) i e × (e.user_data ≢ key)
      to l = elim (ℕ_discrete j i) [
        | yes h ↦ absurd (
            not_cleared (slots m) j i there.0 e h there.1
              (ap (λ (s : List (Option Event)). get_elem? s i) (sym (slots-del m j)) ∙ l))
        | no h ↦
            let lies : Lies (slots m) i e =
              sym (get_elem?-set_ne (slots m) none h)
              ∙ ap (λ (s : List (Option Event)). get_elem? s i) (sym (slots-del m j))
              ∙ l in
            (lies, λ same. h (distinct m j i there.0 e there.1 lies (there.2 ∙ sym same)))
      ]

      from : Lies (slots m) i e × (e.user_data ≢ key) → Lies (slots (del m j)) i e
      from (lies, other) =
          ap (λ (s : List (Option Event)). get_elem? s i) (slots-del m j)
          ∙ get_elem?-set_ne (slots m) none (λ h. other (
              ap (λ (x : Event). x.user_data)
                (sym (same_event (slots m) j i there.0 e h there.1 lies))
              ∙ there.2))
          ∙ lies

  -- `transport_remove_event` takes the event with the key out of the table, if there is one, and
  -- leaves every other where it is.
  pub remove_event-Lies :
      (t : Transport uring map) (key i : ℕ) (e : Event)
      → Lies (slots (transport_remove_event uring map t key).events) i e
        ↔ (Lies (slots t.events) i e × (e.user_data ≢ key))
  unfolding transport_remove_event
  remove_event-Lies t key i e = elim (Option-cases (find t.events key)) [
    | inl missing ↦
        rw (missing, transport_remove_event)
          (λ l. (l, find-missing t.events key i e missing l), λ p. p.0)
    | inr (j, found) ↦ rw (found, transport_remove_event) (cleared t.events key j e i found)
  ]

  abbrev pub add_then_remove :
      Transport uring map → (fd key : ℕ) → ℤ → (now : ℕ) → Transport uring map
  add_then_remove t fd key timeout now =
      transport_remove_event uring map (transport_add_event uring map t fd key timeout now) key

  -- An operation that starts with a new key and is removed by it leaves in the table the events
  -- that were there, and no other.
  pub remove-add_Holds :
      (t : Transport uring map) (fd key now : ℕ) (timeout : ℤ) (e : Event)
      → ((i : ℕ) (d : Event) → Lies (slots t.events) i d → d.user_data ≢ key)
      → Holds (slots (add_then_remove t fd key timeout now).events) e ↔ Holds (slots t.events) e
  remove-add_Holds t fd key now timeout e fresh = (to, from)
    where
      added : Event
      added = record { user_data = key; timeout = timeout; timestamp = now; fd = fd }

      u : Transport uring map
      u = transport_add_event uring map t fd key timeout now

      to :
          Holds (slots (transport_remove_event uring map u key).events) e → Holds (slots t.events) e
      to (i, l) =
          let (lies, other) = (remove_event-Lies u key i e).0 l in
          elim (put-only t.events added e i lies) [
            | inl same ↦ absurd (other (ap (λ (x : Event). x.user_data) same))
            | inr (j, before, different) ↦ (j, before)
          ]

      from :
          Holds (slots t.events) e → Holds (slots (transport_remove_event uring map u key).events) e
      from (i, l) =
          let (j, lies) = put-old t.events added e i l (fresh i e l) in
          (j, (remove_event-Lies u key j e).1 (lies, fresh i e l))
