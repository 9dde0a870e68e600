-- ===== src/Executor/Ids.antt =====
-- executor/native/executor/module.h, the ids of executors: several threads count up one counter and
-- read it, in two steps, so that the steps of one may fall between those of another.
use feng_shui.Prelude.{
  ℕ, ◌+◌, ◌%◌, ◌^◌, ◌<◌, ◌≡◌, ◌↔◌, refl, ap, ◌∙◌, arith, List, [], ◌∷◌, ◌++◌, u32,
}

-- A step of the call of `executor_next_id` by a thread.
pub data IdStep : Type 0 where
  fetch_add : (thread : ℕ) → IdStep
  load : (thread : ℕ) → IdStep

-- The counter after a step, of 32 bits.
abbrev pub counted_on : ℕ → IdStep → ℕ
counted_on executors (fetch_add thread) = u32 (executors + 1)
counted_on executors (load thread) = executors

-- The ids that are given, with the threads that get them, in order.
unfoldable pub next_ids : ℕ → List IdStep → List (ℕ × ℕ)
next_ids executors [] = []
next_ids executors (fetch_add thread ∷ steps) = next_ids (u32 (executors + 1)) steps
next_ids executors (load thread ∷ steps) = (thread, executors) ∷ next_ids executors steps

abbrev pub counter : ℕ → List IdStep → ℕ
counter executors [] = executors
counter executors (step ∷ steps) = counter (counted_on executors step) steps

-- One call of `executor_next_id`, that no other thread disturbs.
abbrev pub executor_next_id : ℕ → List IdStep
executor_next_id thread = fetch_add thread ∷ load thread ∷ []

abbrev pub adds : List IdStep → ℕ
adds [] = 0
adds (fetch_add thread ∷ steps) = adds steps + 1
adds (load thread ∷ steps) = adds steps

counter-adds :
    (executors : ℕ) (steps : List IdStep)
    → executors < 2 ^ 32
    → counter executors steps ≡ (executors + adds steps) % 2 ^ 32
counter-adds executors [] h = omega arith
counter-adds executors (fetch_add thread ∷ steps) h =
    omega (arith, counter-adds (u32 (executors + 1)) steps (omega arith))
counter-adds executors (load thread ∷ steps) h = counter-adds executors steps h

next_ids-append :
    (executors : ℕ) (steps more : List IdStep)
    → next_ids executors (steps ++ more)
      ≡ next_ids executors steps ++ next_ids (counter executors steps) more
unfolding next_ids
next_ids-append executors [] more = refl
next_ids-append executors (fetch_add thread ∷ steps) more =
    next_ids-append (u32 (executors + 1)) steps more
next_ids-append executors (load thread ∷ steps) more =
    ap (◌∷◌ (thread, executors)) (next_ids-append executors steps more)

-- Whatever threads do before and between, where they count up fewer than 2 ^ 32 times between two
-- reads, the two ids that these give are the same exactly when no thread counts up between them.
pub equal_ids_iff :
    (executors : ℕ) (before between : List IdStep) (a b : ℕ)
    → executors < 2 ^ 32
    → adds between < 2 ^ 32
    → (next_ids executors (before ++ load a ∷ (between ++ load b ∷ []))
        ≡ next_ids executors before
          ++ (a, counter executors before)
            ∷ (next_ids (counter executors before) between
                ++ (b, counter (counter executors before) between) ∷ []))
      × ((counter executors before ≡ counter (counter executors before) between)
          ↔ (adds between ≡ 0))
unfolding next_ids
equal_ids_iff executors before between a b small few =
    let first : ℕ = counter executors before in
    let first_small : first < 2 ^ 32 = omega (arith, counter-adds executors before small) in
    let second = counter-adds first between first_small in
    (
      next_ids-append executors before (load a ∷ (between ++ load b ∷ []))
          ∙ ap (λ (xs : List (ℕ × ℕ)). next_ids executors before ++ (a, first) ∷ xs)
              (next_ids-append first between (load b ∷ [])),
      (λ e. omega (arith, second), λ e. omega (arith, second)),
    )

-- Two calls that both count up before they read get one id.
pub race :
    (executors a b : ℕ)
    → next_ids executors (fetch_add a ∷ fetch_add b ∷ load a ∷ load b ∷ [])
      ≡ (a, u32 (u32 (executors + 1) + 1)) ∷ (b, u32 (u32 (executors + 1) + 1)) ∷ []
unfolding next_ids
race executors a b = refl
