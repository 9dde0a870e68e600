-- ===== src/Context.antt =====
-- core/native/context/context.c: the modules that are loaded, in an array of containers and in a hash
-- table by name. The table, of core/native/maps/simple.h, is a parameter. `none` is undefined
-- behaviour: a container outside the array, or a name that is read after it is freed.
pub mod Removal
mod Tests
use feng_shui.Prelude.{
  ℕ, ◌+◌, ◌-◌, ◌^◌, ◌%◌, ◌≡◌, ◌≢◌, Bool, true, false, ◌&&◌, Option, none, some, List, [], ◌∷◌,
  if◌then◌else◌, u32, u64, write, bind, replicate,
}

-- MODULES_MAXIMUM
abbrev pub modules_maximum : ℕ
modules_maximum = 64

-- `struct module_container`; a name is the list of its bytes.
pub record Container : Type 0 where
  pub id : ℕ
  pub name : List ℕ
  pub module_pointer : ℕ
  pub kind : List ℕ

-- A container filled with zeros.
abbrev pub blank : Container
blank = record { id = 0; name = []; module_pointer = 0; kind = [] }

-- The table: it has the container of a name, if any. The name is freed before its container is
-- deleted: `del` gives `none` where the table shrinks then and reads that name to hash it.
pub record ModuleMap : Type 1 where
  pub Map : Type 0
  pub find : Map → List ℕ → Option Container
  pub put : Map → Container → Map
  pub del : Map → List ℕ → Option Map
  pub find-put : (m : Map) (c : Container) → find (put m c) c.name ≡ some c
  pub find-put_ne :
      (m : Map) (c : Container) (other : List ℕ)
      → c.name ≢ other
      → find (put m c) other ≡ find m other
  pub find-del : (m n : Map) (name : List ℕ) → del m name ≡ some n → find n name ≡ none
  pub find-del_ne :
      (m n : Map) (name other : List ℕ)
      → del m name ≡ some n
      → name ≢ other
      → find n other ≡ find m other

module _ (map : ModuleMap) where
  open map use {Map, find, put, del}

  -- `struct context_structure`
  pub record Context : Type 0 where
    pub initialized : Bool
    pub size : ℕ
    pub containers : List Container
    pub modules : Map

  -- The new table, `none` where there is no memory for it, and whether there is any for the array. A
  -- result of `none` is the panic.
  unfoldable pub context_create : Option Map → Bool → Context → Option Context
  context_create new granted c = if c.initialized then some c else elim new [
    | none ↦ none
    | some m ↦
        if granted
        then some (record {
          initialized = true;
          size = 0;
          containers = replicate modules_maximum blank;
          modules = m;
        })
        else none
  ]

  -- NULL is 0.
  unfoldable pub context_get_module : Context → List ℕ → ℕ
  context_get_module c name = elim (find c.modules name) [
    | none ↦ 0
    | some container ↦ container.module_pointer
  ]

  unfoldable pub context_put_module :
      Context → (name : List ℕ) → (module_pointer : ℕ) → (kind : List ℕ) → Option Context
  context_put_module c name module_pointer kind =
      let container : Container = record {
        id = u32 c.size;
        name = name;
        module_pointer = module_pointer;
        kind = kind;
      } in
      bind (write c.containers c.size container) (λ containers. some (record c {
        size = u64 (c.size + 1);
        containers = containers;
        modules = put c.modules container;
      }))

  unfoldable pub context_remove_module : Context → (name : List ℕ) → Option Context
  context_remove_module c name = elim (find c.modules name) [
    | none ↦ some (record c { size = u64 (c.size + (2 ^ 64 - 1)) })
    | some container ↦ bind (write c.containers container.id blank) (λ containers.
        bind (del c.modules name) (λ modules. some (record c {
          size = u64 (c.size + (2 ^ 64 - 1));
          containers = containers;
          modules = modules;
        })))
  ]
