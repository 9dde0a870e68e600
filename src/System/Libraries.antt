-- ===== src/System/Libraries.antt =====
-- core/native/system/system.c, the libraries that are loaded and the environment. Blocks and texts lie
-- at addresses, and NULL is 0. The hash tables, of core/native/maps/simple.h, are parameters, and so
-- is what dlopen, calloc and strdup give. `none` is undefined behaviour, such as a read of a block
-- that was freed, or a use of NULL.
use feng_shui.Prelude.{
  ℕ, ◌≡◌, ◌≢◌, Option, none, some, List, [], ◌∷◌, ◌==◌, ◌||◌, if◌then◌else◌, bind,
}
use feng_shui.Events.{same}

-- A table of pointers by text. What `put` replaces is lost.
pub record Table : Type 1 where
  pub Map : Type 0
  pub find : Map → List ℕ → Option ℕ
  pub put : Map → List ℕ → ℕ → Map
  pub del : Map → List ℕ → Map
  pub values : Map → List ℕ
  pub find-put : (m : Map) (key : List ℕ) (v : ℕ) → find (put m key v) key ≡ some v
  pub find-put_ne :
      (m : Map) (key other : List ℕ) (v : ℕ) → key ≢ other → find (put m key v) other ≡ find m other
  pub find-del : (m : Map) (key : List ℕ) → find (del m key) key ≡ none
  pub find-del_ne :
      (m : Map) (key other : List ℕ) → key ≢ other → find (del m key) other ≡ find m other

-- `struct system_library`
pub record Library : Type 0 where
  pub path : ℕ
  pub module_name : ℕ
  pub handle : ℕ

-- Memory by address: what is put there, and what is freed.
module _ {ℓ} {A : Type ℓ} where
  abbrev pub hold : (ℕ → Option A) → ℕ → A → ℕ → Option A
  hold memory address a at = if at == address then some a else memory at

  abbrev pub freed : (ℕ → Option A) → ℕ → ℕ → Option A
  freed memory address at = if at == address then none else memory at

-- Where calloc and strdup put a new library, and the copies of its path and of its module.
pub record Fresh : Type 0 where
  pub block : ℕ
  pub path_copy : ℕ
  pub module_copy : ℕ

module _ (table : Table) where
  open table use {Map, find, put, del, values}

  -- The parts of `struct system` that are tables, with the memory behind the pointers in them.
  pub record System : Type 0 where
    pub texts : ℕ → Option (List ℕ)
    pub blocks : ℕ → Option Library
    pub libraries : Map

  unfoldable pub system_library_get : System → (path : ℕ) → Option ℕ
  system_library_get s path =
      bind (s.texts path)
        (λ key. elim (find s.libraries key) [ none ↦ some 0 | some library ↦ some library ])

  unfoldable pub system_library_put : System → (library : ℕ) → Option System
  system_library_put s library = bind (s.blocks library) (λ l.
      bind (s.texts l.path) (λ key. some (record s { libraries = put s.libraries key library })))

  -- A copy that strdup makes; there is none where it gives NULL.
  abbrev pub hold_copy : (ℕ → Option (List ℕ)) → (copy : ℕ) → List ℕ → ℕ → Option (List ℕ)
  hold_copy texts copy text = if copy == 0 then texts else hold texts copy text

  -- `handle` is what dlopen gives, 0 for a failure. The block of calloc is written to and the copy of
  -- the path is hashed without a look at whether they are NULL.
  unfoldable pub open_library :
      System → (path_text module_text : List ℕ) → (handle : ℕ) → Fresh → Option (ℕ × System)
  open_library s path_text module_text handle fresh =
      if handle == 0
      then some (0, s)
      else if (fresh.block == 0) || (fresh.path_copy == 0)
      then none
      else some (
        fresh.block,
        record {
          texts = hold_copy (hold s.texts fresh.path_copy path_text) fresh.module_copy module_text;
          blocks =
              hold s.blocks fresh.block (record {
                path = fresh.path_copy;
                module_name = fresh.module_copy;
                handle = handle;
              });
          libraries = put s.libraries path_text fresh.block;
        },
      )

  unfoldable pub system_library_load :
      System → (path module_name : ℕ) → (handle : ℕ) → Fresh → Option (ℕ × System)
  system_library_load s path module_name handle fresh = bind (s.texts path) (λ path_text.
      elim (find s.libraries path_text) [
        | some current ↦ some (current, s)
        | none ↦
            bind (s.texts module_name)
              (λ module_text. open_library s path_text module_text handle fresh)
      ])

  -- The first whose module has the name.
  unfoldable pub first_of_module : System → List ℕ → List ℕ → Option ℕ
  first_of_module s name [] = some 0
  first_of_module s name (library ∷ more) =
      let rest = first_of_module s name more in
      bind (s.blocks library)
        (λ l. bind (s.texts l.module_name) (λ text. if same name text then some library else rest))

  unfoldable pub system_library_by_module : System → (module_name : ℕ) → Option ℕ
  system_library_by_module s module_name =
      bind (s.texts module_name) (λ name. first_of_module s name (values s.libraries))

  unfoldable pub system_library_unload : System → (library : ℕ) → Option System
  system_library_unload s library = bind (s.blocks library) (λ l. bind (s.texts l.path) (λ key.
      some (record {
        texts = freed (freed s.texts l.module_name) l.path;
        blocks = freed s.blocks library;
        libraries = del s.libraries key;
      })))

  unfoldable pub system_library_reload :
      System → (library : ℕ) → (handle : ℕ) → Fresh → Option (ℕ × System)
  system_library_reload s library handle fresh = bind (s.blocks library) (λ l.
      bind (system_library_unload s library)
        (λ t. system_library_load t l.path l.module_name handle fresh))

  -- `struct system` again, for its environment: pairs of texts, which are copied.
  pub record Environment : Type 0 where
    pub values_of : ℕ → Option (List ℕ)
    pub pairs : Map

  unfoldable pub system_set_environment :
      Environment → (key value : List ℕ) → (value_copy : ℕ) → Environment
  system_set_environment s key value value_copy = record {
    values_of = hold s.values_of value_copy value;
    pairs = put s.pairs key value_copy;
  }

  -- The address of the value; 0 is NULL.
  unfoldable pub system_get_environment : Environment → (key : List ℕ) → ℕ
  system_get_environment s key = elim (find s.pairs key) [ none ↦ 0 | some value ↦ value ]
