-- ===== src/System/Tests.antt =====
-- A table that is a function, and a library that is loaded and unloaded with it.
use feng_shui.Prelude.{
  ℕ, ◌≡◌, ◌≢◌, refl, arith, Option, none, some, List, [], ◌∷◌, ◌==◌, if◌then◌else◌, Bool-cases, inl,
  inr,
}
use feng_shui.Events.{same}
use feng_shui.Events.Finding.{same_refl, same→eq}
use feng_shui.System.Libraries.{
  Table, Fresh, System, system_library_load, system_library_get, system_library_unload,
  open_library, system_library_reload,
}
use feng_shui.System.Loading.{load-unload, reload-none}

abbrev update : (List ℕ → Option ℕ) → List ℕ → Option ℕ → List ℕ → Option ℕ
update m key v other = if same key other then v else m other

update_self : (m : List ℕ → Option ℕ) (key : List ℕ) (v : Option ℕ) → update m key v key ≡ v
update_self m key v = rw (same_refl key) refl

update_ne :
    (m : List ℕ → Option ℕ) (key other : List ℕ) (v : Option ℕ)
    → key ≢ other
    → update m key v other ≡ m other
update_ne m key other v differs = elim (Bool-cases (same key other)) [
  | inl e ↦ absurd (differs (same→eq key other e))
  | inr e ↦ rw e refl
]

abbrev functions : Table
functions = record {
  Map = List ℕ → Option ℕ;
  find = λ m key. m key;
  put = λ m key v. update m key (some v);
  del = λ m key. update m key none;
  values = λ m. [];
  find-put = λ m key v. update_self m key (some v);
  find-put_ne = λ m key other v. update_ne m key other (some v);
  find-del = λ m key. update_self m key none;
  find-del_ne = λ m key other. update_ne m key other none;
}

-- At 10 lies the path "a", at 11 the module "b".
abbrev empty : System functions
empty = record {
  texts = λ at. if at == 10 then some (97 ∷ []) else if at == 11 then some (98 ∷ []) else none;
  blocks = λ at. none;
  libraries = λ key. none;
}

abbrev at_20 : Fresh
at_20 = record { block = 20; path_copy = 21; module_copy = 22 }

loads :
    (t : System functions) × (system_library_load functions empty 10 11 5 at_20 ≡ some (20, t))
    × (system_library_reload functions t 20 5 at_20 ≡ none)
unfolding system_library_load open_library
loads = (_, refl, reload-none functions _ 20 5 at_20)

load-unload_example :
    (t u : System functions) × (system_library_load functions empty 10 11 5 at_20 ≡ some (20, t))
    × (system_library_get functions t 10 ≡ some 20)
    × (system_library_load functions t 10 0 6 at_20 ≡ some (20, t))
    × (system_library_unload functions t 20 ≡ some u)
    × (u.libraries (97 ∷ []) ≡ none)
    × (u.libraries [] ≡ none)
    × (u.texts 21 ≡ none)
    × (u.blocks 21 ≡ none)
load-unload_example =
    load-unload functions empty 10 11 5 at_20 refl refl (omega arith) refl refl refl (omega arith)
      (omega arith) (omega arith) (omega arith) refl 0 6 21 at_20 [] (λ e. cc)

reload-none_example : system_library_reload functions empty 20 5 at_20 ≡ none
reload-none_example = reload-none functions empty 20 5 at_20
