-- ===== src/EventMap.antt =====
-- transport/native/transport/maps.h: the table of the transport's operations under way. It is an
-- instance of the hash table of core/native/maps/simple.h, which comes from another project; its
-- calls are a parameter, with the laws that its comments state for a table that can get memory.
pub mod Slots
use feng_shui.Prelude.{ℕ, ◌≡◌, ◌≢◌, ◌↔◌, ◌⊎◌, Option, none, some, List, get_elem?, set}
use feng_shui.Prelude.Int.{ℤ}

-- `struct simple_map_transport_event`. The descriptor is a word of 32 bits.
pub record Event : Type 0 where
  pub user_data : ℕ
  pub timeout : ℤ
  pub timestamp : ℕ
  pub fd : ℕ

-- An event lies in the table at a place.
abbrev pub Lies : List (Option Event) → ℕ → Event → Type 0
Lies slots i e = get_elem? slots i ≡ some (some e)

pub record EventMap : Type 1 where
  pub Map : Type 0
  -- The slots in the order in which `simple_map_foreach` goes through them.
  pub slots : Map → List (Option Event)
  -- `simple_map_events_put_copy`; `simple_map_events_find`, where `none` is `simple_map_end`; and
  -- `simple_map_events_del`, which clears a slot.
  pub put : Map → Event → Map
  pub find : Map → ℕ → Option ℕ
  pub del : Map → ℕ → Map
  pub slots-del : (m : Map) (i : ℕ) → slots (del m i) ≡ set (slots m) i none
  pub find-found :
      (m : Map) (key i : ℕ)
      → find m key ≡ some i
      → (e : Event) × Lies (slots m) i e × (e.user_data ≡ key)
  pub find-missing :
      (m : Map) (key i : ℕ) (e : Event) → find m key ≡ none → Lies (slots m) i e → e.user_data ≢ key
  -- No two slots hold events with one key.
  pub distinct :
      (m : Map) (i j : ℕ) (d e : Event)
      → Lies (slots m) i d
      → Lies (slots m) j e
      → d.user_data ≡ e.user_data
      → i ≡ j
  -- A new event takes the place of one with its key, and the others stay, at some place.
  pub put-new : (m : Map) (e : Event) → (i : ℕ) × Lies (slots (put m e)) i e
  pub put-old :
      (m : Map) (e d : Event) (i : ℕ)
      → Lies (slots m) i d
      → d.user_data ≢ e.user_data
      → (j : ℕ) × Lies (slots (put m e)) j d
  pub put-only :
      (m : Map) (e d : Event) (i : ℕ)
      → Lies (slots (put m e)) i d
      → (d ≡ e) ⊎ ((j : ℕ) × Lies (slots m) j d × (d.user_data ≢ e.user_data))
