-- ===== src/PointerArray.antt =====
-- core/native/arrays/pointer.h: a growable array of pointers.
-- A pointer is a number, NULL is 0; the block that `memory` points to is the list of its cells, and
-- a NULL block is the empty list. A result `none` is a fault: an access outside the block.
pub mod Invariant
pub mod Grow
pub mod Stack
pub mod Removal
mod Tests
use feng_shui.Prelude.{
  ℕ, ◌+◌, ◌-◌, ◌*◌, ◌/◌, ◌^◌, Bool, true, false, ◌&&◌, Option, none, some, List, [], ◌∷◌, ◌++◌, u64,
  leb, ◌==◌, if◌then◌else◌, length, get_elem?, set, take, drop, replicate, bind, write,
}
use feng_shui.Numbers.{round_up_to_power_of_two}

pub record PointerArray : Type 0 where
  pub capacity : ℕ
  pub size : ℕ
  pub resize_factor : ℕ
  pub memory : List ℕ

abbrev pub default_capacity : ℕ
default_capacity = 16

abbrev pub default_resize_factor : ℕ
default_resize_factor = 2

abbrev pub structure_bytes : ℕ
structure_bytes = 32

-- `sizeof(void*)`
abbrev pub word : ℕ
word = 8

pub grown_capacity : PointerArray → ℕ
grown_capacity a = round_up_to_power_of_two (u64 (a.resize_factor * a.capacity))

unfoldable pub store_last : PointerArray → ℕ → Option PointerArray
store_last a value =
    bind (write a.memory a.size value)
      λ memory. some (record a { memory = memory; size = u64 (a.size + 1) })

-- The allocator is not under this repository: `granted n` says whether a request for `n` bytes
-- succeeds, and `junk` is what a new cell of `realloc` holds.
module _ (granted : ℕ → Bool) (junk : ℕ) where
  -- `calloc(capacity, sizeof(void*))`
  pub zeroed : ℕ → List ℕ
  zeroed capacity = if granted (capacity * word) then replicate capacity 0 else []

  -- `realloc` to a number of bytes: a failed request, and one for 0 bytes, gives NULL.
  pub reallocated : List ℕ → ℕ → List ℕ
  reallocated memory bytes =
      if granted bytes
      then take (bytes / word) memory ++ replicate (bytes / word - length memory) junk
      else []

  unfoldable pub create : ℕ → ℕ → Option PointerArray
  unfolding zeroed
  create initial_capacity resize_factor =
      if granted structure_bytes
      then some (record {
        capacity = initial_capacity;
        size = 0;
        resize_factor = resize_factor;
        memory = zeroed initial_capacity;
      })
      else none

  unfoldable pub create_default : Option PointerArray
  unfolding create
  create_default = create default_capacity default_resize_factor

  unfoldable pub grow : PointerArray → PointerArray
  unfolding reallocated grown_capacity
  grow a =
      let new_capacity = grown_capacity a in
      record a {
        memory = reallocated a.memory (u64 (new_capacity * word));
        capacity = new_capacity;
      }

  unfoldable pub add : PointerArray → ℕ → Option PointerArray
  add a value = store_last (if leb a.capacity a.size then grow a else a) value

unfoldable pub get : PointerArray → ℕ → Option ℕ
get a index = if leb a.size index then some 0 else get_elem? a.memory index

-- Returns the old pointer beside the array.
unfoldable pub put : PointerArray → ℕ → ℕ → Option (ℕ × PointerArray)
put a index value =
    if leb a.capacity index
    then some (0, a)
    else bind (get_elem? a.memory index) λ current.
      bind (write a.memory index value) λ memory. some (current, record a { memory = memory })

-- `memmove` of `count` cells. Moving nothing touches nothing.
unfoldable pub move : List ℕ → ℕ → ℕ → ℕ → Option (List ℕ)
move memory to from count =
    if count == 0
    then some memory
    else if leb (to + count) (length memory) && leb (from + count) (length memory)
    then some (take to memory ++ (take count (drop from memory) ++ drop (to + count) memory))
    else none

-- `array->memory + from * sizeof(void*)` advances by cells, not by bytes: the offset in cells is
-- `from * 8`.
unfoldable pub remove_range : PointerArray → ℕ → ℕ → Option PointerArray
remove_range a from count =
    if leb a.capacity (u64 (from + count))
    then some a
    else bind
        (move a.memory (u64 (from * word)) (u64 (u64 (from + count) * word))
          (u64 ((a.size + 2 ^ 64 * 2 - from - count) * word) / word))
        λ memory. some (record a { memory = memory; size = u64 (a.size + 2 ^ 64 - count) })

unfoldable pub remove : PointerArray → ℕ → Option (ℕ × PointerArray)
unfolding remove_range
remove a index =
    if leb a.capacity index
    then some (0, a)
    else bind (get_elem? a.memory index)
        λ current. bind (remove_range a index 1) λ b. some (current, b)

unfoldable pub remove_last : PointerArray → Option (ℕ × PointerArray)
remove_last a =
    if a.size == 0
    then some (0, a)
    else bind (get_elem? a.memory (a.size - 1)) λ current.
      bind (write a.memory (a.size - 1) 0)
        λ memory. some (current, record a { memory = memory; size = a.size - 1 })
