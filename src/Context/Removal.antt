-- ===== src/Context/Removal.antt =====
-- Modules that are removed.
use feng_shui.Prelude.{
  ℕ, zero, suc, [], ◌∷◌, length-set, ◌+◌, ◌-◌, ◌<◌, ◌^◌, ◌%◌, ◌≡◌, ◌≢◌, refl, ap, ◌∙◌, arith, none,
  some, List, set, length, length-set, write-some, u32, u64,
}
use feng_shui.Context.{
  ModuleMap, Container, Context, blank, context_put_module, context_remove_module,
  context_get_module,
}

set-set : (xs : List Container) (i : ℕ) (a b : Container) → set (set xs i a) i b ≡ set xs i b
set-set [] i a b = refl
set-set (x ∷ xs) zero a b = refl
set-set (x ∷ xs) (suc i) a b = ap (◌∷◌ x) (set-set xs i a b)

module _ (map : ModuleMap) where
  -- A module that is put and then removed, with room in the array, fewer than 2 ^ 32 modules and no
  -- reading of the freed name in the table: in between, its name gives its pointer, and every other
  -- name what it gave; afterwards its name gives NULL and every other name what it gave, the number of
  -- modules is as it was, and the container in its place is blank.
  pub remove-put_blank :
      (c : Context map) (name kind : List ℕ) (pointer : ℕ) (left : map.Map)
      → c.size < length c.containers
      → c.size < 2 ^ 32
      → map.del
          (map.put c.modules
            (record { id = u32 c.size; name = name; module_pointer = pointer; kind = kind }))
          name
        ≡ some left
      → (d e : Context map) × (context_put_module map c name pointer kind ≡ some d)
        × (context_get_module map d name ≡ pointer)
        × (context_remove_module map d name ≡ some e)
        × (context_get_module map e name ≡ 0)
        × ((other : List ℕ)
            → name ≢ other
            → (context_get_module map d other ≡ context_get_module map c other)
              × (context_get_module map e other ≡ context_get_module map c other))
        × (e.size ≡ c.size)
        × (e.containers ≡ set c.containers c.size blank)
  unfolding context_put_module context_remove_module context_get_module
  remove-put_blank c name kind pointer left room small deleted = (
    d,
    e,
    rw (write-some c.containers c.size container room, context_put_module) refl,
    rw (map.find-put c.modules container, context_get_module) refl,
    rw
        (
          map.find-put c.modules container,
          write-some d.containers (u32 c.size) blank (omega (arith, kept, whole)),
          deleted,
          context_remove_module,
        )
        refl,
    rw (map.find-del d.modules left name deleted, context_get_module) refl,
    λ other apart. (
      rw (map.find-put_ne c.modules container other apart, context_get_module) refl,
      rw
          (
            map.find-del_ne d.modules left name other deleted apart,
            map.find-put_ne c.modules container other apart,
            context_get_module,
          )
          refl,
    ),
    omega arith,
    ap (λ (i : ℕ). set d.containers i blank) whole ∙ set-set c.containers c.size container blank,
  )
    where
      whole : u32 c.size ≡ c.size
      whole = omega arith

      container : Container
      container = record { id = u32 c.size; name = name; module_pointer = pointer; kind = kind }

      d : Context map
      d = record c {
        size = u64 (c.size + 1);
        containers = set c.containers c.size container;
        modules = map.put c.modules container;
      }

      e : Context map
      e = record d {
        size = u64 (d.size + (2 ^ 64 - 1));
        containers = set d.containers (u32 c.size) blank;
        modules = left;
      }

      kept : length d.containers ≡ length c.containers
      kept = length-set c.containers c.size container

  -- Removing a name that no module has leaves the containers, but takes one off the number of modules
  -- all the same, modulo 2 ^ 64.
  pub remove_missing :
      (c : Context map) (name : List ℕ)
      → map.find c.modules name ≡ none
      → c.size < 2 ^ 64
      → (d : Context map) × (context_remove_module map c name ≡ some d)
        × (d.containers ≡ c.containers)
        × (d.size ≡ (c.size + (2 ^ 64 - 1)) % 2 ^ 64)
  unfolding context_remove_module
  remove_missing c name missing small = (
    record c { size = u64 (c.size + (2 ^ 64 - 1)) },
    rw (missing, context_remove_module) refl,
    refl,
    refl,
  )
