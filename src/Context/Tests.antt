-- ===== src/Context/Tests.antt =====
-- A context with a table that is a function, and the theorems there.
use feng_shui.Prelude.{
  ℕ, ◌≡◌, ◌≢◌, refl, sym, ap, ◌∙◌, arith, true, false, Option, none, some, List, [], ◌∷◌, replicate,
  set, if◌then◌else◌, Bool-cases, inl, inr,
}
use feng_shui.Events.{same}
use feng_shui.Events.Finding.{same_refl, same→eq}
use feng_shui.Context.{
  ModuleMap, Container, Context, blank, context_create, context_put_module, context_remove_module,
  context_get_module, modules_maximum,
}
use feng_shui.Context.Removal.{remove-put_blank}

abbrev Names : Type 0
Names = List ℕ → Option Container

abbrev update : Names → List ℕ → Option Container → Names
update m key v other = if same key other then v else m other

update_self : (m : Names) (key : List ℕ) (v : Option Container) → update m key v key ≡ v
update_self m key v = rw (same_refl key) refl

update_ne :
    (m : Names) (key other : List ℕ) (v : Option Container)
    → key ≢ other
    → update m key v other ≡ m other
update_ne m key other v differs = elim (Bool-cases (same key other)) [
  | inl e ↦ absurd (differs (same→eq key other e))
  | inr e ↦ rw e refl
]

deleted : (m n : Names) (key : List ℕ) → some (update m key none) ≡ some n → update m key none ≡ n
deleted m n key h = ap (λ (o : Option Names). elim o [ none ↦ m | some x ↦ x ]) h

abbrev functions : ModuleMap
functions = record {
  Map = Names;
  find = λ m name. m name;
  put = λ m c. update m c.name (some c);
  del = λ m name. some (update m name none);
  find-put = λ m c. update_self m c.name (some c);
  find-put_ne = λ m c other. update_ne m c.name other (some c);
  find-del =
      λ m n name h. ap (λ (f : Names). f name) (sym (deleted m n name h)) ∙ update_self m name none;
  find-del_ne = λ m n name other h apart.
      ap (λ (f : Names). f other) (sym (deleted m n name h)) ∙ update_ne m name other none apart;
}

abbrev created : Context functions
created = record {
  initialized = true;
  size = 0;
  containers = replicate modules_maximum blank;
  modules = λ name. none;
}

creates :
    context_create functions
      (some (λ name. none))
      true
      (record created { initialized = false; containers = [] })
    ≡ some created
unfolding context_create
creates = refl

abbrev a_module : Container
a_module = record { id = 0; name = 1 ∷ []; module_pointer = 7; kind = 2 ∷ [] }

remove-put_blank_example :
    (d e : Context functions) × (context_put_module functions created (1 ∷ []) 7 (2 ∷ []) ≡ some d)
    × (context_get_module functions d (1 ∷ []) ≡ 7)
    × (context_remove_module functions d (1 ∷ []) ≡ some e)
    × (context_get_module functions e (1 ∷ []) ≡ 0)
    × ((other : List ℕ)
        → 1 ∷ [] ≢ other
        → (context_get_module functions d other ≡ context_get_module functions created other)
          × (context_get_module functions e other ≡ context_get_module functions created other))
    × (e.size ≡ 0)
    × (e.containers ≡ set created.containers 0 blank)
remove-put_blank_example =
    remove-put_blank functions created (1 ∷ []) (2 ∷ []) 7
      (update (update created.modules (1 ∷ []) (some a_module)) (1 ∷ []) none) (omega arith)
      (omega arith) refl
