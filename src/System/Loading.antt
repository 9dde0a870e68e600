-- ===== src/System/Loading.antt =====
-- Libraries that are loaded, found again, unloaded and reloaded.
use feng_shui.Prelude.{
  ℕ, ◌≡◌, ◌≢◌, refl, sym, ap, ◌∙◌, arith, Option, none, some, List, ne→test, eq→test, Option-cases,
  inl, inr, ℕ_discrete,
}
use feng_shui.System.Libraries.{
  Table, Fresh, System, hold, freed, system_library_get, open_library, system_library_load,
  system_library_unload, system_library_reload,
}

module _ {ℓ} {A : Type ℓ} where
  hold_self : (memory : ℕ → Option A) (address : ℕ) (a : A) → hold memory address a address ≡ some a
  hold_self memory address a = rw (eq→test address address refl) refl

  freed_self : (memory : ℕ → Option A) (address : ℕ) → freed memory address address ≡ none
  freed_self memory address = rw (eq→test address address refl) refl

  -- What was held where nothing was is gone again.
  freed-hold :
      (memory : ℕ → Option A) (address at : ℕ) (a : A)
      → memory address ≡ none
      → freed (hold memory address a) address at ≡ memory at
  freed-hold memory address at a empty = elim (ℕ_discrete at address) [
    | yes e ↦ rw (eq→test at address e) (sym empty ∙ ap memory (sym e))
    | no other ↦ rw (ne→test at address other) refl
  ]

module _ (table : Table) where
  open table use {Map, find, put, del, find-put, find-put_ne, find-del, find-del_ne}

  -- `system_library_reload` is never defined: it loads by the path of the library, which it has
  -- freed, or there was no library to begin with.
  pub reload-none :
      (s : System table) (library handle : ℕ) (fresh : Fresh)
      → system_library_reload table s library handle fresh ≡ none
  unfolding system_library_reload system_library_unload system_library_load
  reload-none s library handle fresh = elim (Option-cases (s.blocks library)) [
    | inl gone ↦ rw (gone, system_library_reload) refl
    | inr (l, there) ↦ elim (Option-cases (s.texts l.path)) [
      | inl gone ↦ rw (there, gone, system_library_reload, system_library_unload) refl
      | inr (key, path) ↦
          rw
            (
              there,
              path,
              freed_self (freed s.texts l.module_name) l.path,
              system_library_reload,
              system_library_unload,
              system_library_load,
            )
            refl
    ]
  ]

  module _ (s : System table) (path module_name handle : ℕ) (fresh : Fresh) {key name : List ℕ}
      (path_there : s.texts path ≡ some key) (name_there : s.texts module_name ≡ some name)
      (opened : handle ≢ 0) (new_path : s.texts fresh.path_copy ≡ none)
      (new_module : s.texts fresh.module_copy ≡ none) (new_block : s.blocks fresh.block ≡ none)
      (block_granted : fresh.block ≢ 0) (path_granted : fresh.path_copy ≢ 0)
      (module_granted : fresh.module_copy ≢ 0) (apart : fresh.path_copy ≢ fresh.module_copy)
      (missing : find s.libraries key ≡ none) where
    abbrev loaded : System table
    loaded = record {
      texts = hold (hold s.texts fresh.path_copy key) fresh.module_copy name;
      blocks =
          hold s.blocks fresh.block
            (record { path = fresh.path_copy; module_name = fresh.module_copy; handle = handle });
      libraries = put s.libraries key fresh.block;
    }

    load_new :
        system_library_load table s path module_name handle fresh ≡ some (fresh.block, loaded)
    unfolding system_library_load open_library
    load_new =
        rw
          (
            path_there,
            missing,
            name_there,
            ne→test handle 0 opened,
            ne→test fresh.block 0 block_granted,
            ne→test fresh.path_copy 0 path_granted,
            ne→test fresh.module_copy 0 module_granted,
            system_library_load,
            open_library,
          )
          refl

    path_kept : loaded.texts path ≡ some key
    path_kept = ground arith

    found_again : system_library_get table loaded path ≡ some fresh.block
    unfolding system_library_get
    found_again = rw (path_kept, find-put s.libraries key fresh.block, system_library_get) refl

    loaded_again :
        (module_name' handle' : ℕ) (fresh' : Fresh)
        → system_library_load table loaded path module_name' handle' fresh'
          ≡ some (fresh.block, loaded)
    unfolding system_library_load
    loaded_again module_name' handle' fresh' =
        rw (path_kept, find-put s.libraries key fresh.block, system_library_load) refl

    abbrev unloaded : System table
    unloaded = record {
      texts = freed (freed loaded.texts fresh.module_copy) fresh.path_copy;
      blocks = freed loaded.blocks fresh.block;
      libraries = del loaded.libraries key;
    }

    path_copied : loaded.texts fresh.path_copy ≡ some key
    path_copied =
        rw (ne→test fresh.path_copy fresh.module_copy apart) (hold_self s.texts fresh.path_copy key)

    unload_new : system_library_unload table loaded fresh.block ≡ some unloaded
    unfolding system_library_unload
    unload_new =
        rw
          (
            hold_self s.blocks fresh.block (record {
              path = fresh.path_copy;
              module_name = fresh.module_copy;
              handle = handle;
            }),
            system_library_unload,
          )
          (rw path_copied refl)

    texts_restored : (at : ℕ) → unloaded.texts at ≡ s.texts at
    texts_restored at = ground arith

    -- A path that is not loaded, is loaded, with memory granted: the new library is found by the path, and to load the
    -- path again, under whatever name, gives the same library and changes nothing. When it is then
    -- unloaded, the path has no library, every other path has the one it had, and the memory is as
    -- it was, at every address.
    pub load-unload :
        (module_name' handle' at : ℕ) (fresh' : Fresh) (other : List ℕ)
        → key ≢ other
        → (t u : System table) × (system_library_load table s path module_name handle fresh
            ≡ some (fresh.block, t))
          × (system_library_get table t path ≡ some fresh.block)
          × (system_library_load table t path module_name' handle' fresh' ≡ some (fresh.block, t))
          × (system_library_unload table t fresh.block ≡ some u)
          × (find u.libraries key ≡ none)
          × (find u.libraries other ≡ find s.libraries other)
          × (u.texts at ≡ s.texts at)
          × (u.blocks at ≡ s.blocks at)
    load-unload module_name' handle' at fresh' other differs = (
      loaded,
      unloaded,
      load_new,
      found_again,
      loaded_again module_name' handle' fresh',
      unload_new,
      find-del loaded.libraries key,
      find-del_ne loaded.libraries key other differs
          ∙ find-put_ne s.libraries key other fresh.block differs,
      texts_restored at,
      freed-hold s.blocks fresh.block at _ new_block,
    )
