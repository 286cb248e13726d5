-- ===== src/Steps/Order.antt =====
-- stepIndex, findStep and nextStep agree on one order of the steps.
use sovereign_ai.Prelude.{
  ℕ, suc, ◌+◌, ◌≡◌, refl, ◌⊎◌, inl, inr, List, [], ◌∷◌, Option, none, some, String, ◌==◌, eq_iff,
  arith, get_elem?, Bool-cases,
}
use sovereign_ai.Api.{StepConfig}
use sovereign_ai.Steps.{index_from, step_index, find_step, next_step}

-- The element at an optional index.
abbrev pub at : List StepConfig → Option ℕ → Option StepConfig
at steps none = none
at steps (some i) = get_elem? steps i

-- The step at an index of `stepIndex` lies in the list, has the name, and no step before it has.
index_from-some :
    (k : ℕ) (steps : List StepConfig) (name : String) (i : ℕ)
    → index_from k steps name ≡ some i
    → (j : ℕ) × (i ≡ k + j) × (s : StepConfig) × (get_elem? steps j ≡ some s) × (s.name ≡ name)
unfolding index_from
index_from-some k [] name i e = cc
index_from-some k (step ∷ steps) name i e = elim (Bool-cases (step.name == name)) [
  | inl same ↦ (0, ground arith, step, refl, (eq_iff step.name name).0 same)
  | inr other ↦
      let rest = index_from-some (suc k) steps name i (ground arith) in
      (suc rest.0, omega (arith, rest.1), rest.2, rest.3, rest.4)
]

pub step_index-some :
    (steps : List StepConfig) (name : String) (i : ℕ)
    → step_index steps name ≡ some i
    → (s : StepConfig) × (get_elem? steps i ≡ some s) × (s.name ≡ name)
unfolding step_index
step_index-some steps name i e =
    let (j, eq, s, found, named) = index_from-some 0 steps name i e in
    let same : i ≡ j = omega arith in (s, rw same found, named)

index_from-find_step :
    (k : ℕ) (steps : List StepConfig) (name : String)
    → ((index_from k steps name ≡ none) × (find_step steps name ≡ none))
      ⊎ ((j : ℕ) × (index_from k steps name ≡ some (k + j))
          × (find_step steps name ≡ get_elem? steps j))
unfolding index_from find_step
index_from-find_step k [] name = inl (refl, refl)
index_from-find_step k (step ∷ steps) name = elim (Bool-cases (step.name == name)) [
  | inl same ↦ inr (0, ground arith, ground arith)
  | inr other ↦ elim (index_from-find_step (suc k) steps name) [
    | inl h ↦ inl (ground arith, ground arith)
    | inr h ↦ inr (suc h.0, ground arith, ground arith)
  ]
]

-- `findStep` returns the step at the index that `stepIndex` returns, and nothing where that is -1.
find_step-eq-at :
    (steps : List StepConfig) (name : String)
    → find_step steps name ≡ at steps (step_index steps name)
unfolding step_index
find_step-eq-at steps name = elim (index_from-find_step 0 steps name) [
  | inl h ↦ rw (h.0) (h.1)
  | inr h ↦ ground arith
]

next_step-index_from :
    (k : ℕ) (steps : List StepConfig) (name : String)
    → ((index_from k steps name ≡ none) × (next_step steps name ≡ none))
      ⊎ ((j : ℕ) × (index_from k steps name ≡ some (k + j))
          × (next_step steps name ≡ get_elem? steps (suc j)))
unfolding index_from next_step
next_step-index_from k [] name = inl (refl, refl)
next_step-index_from k (step ∷ []) name = elim (Bool-cases (step.name == name)) [
  | inl same ↦ inr (0, ground arith, refl)
  | inr other ↦ inl (ground arith, refl)
]
next_step-index_from k (step ∷ next ∷ steps) name = elim (Bool-cases (step.name == name)) [
  | inl same ↦ inr (0, ground arith, ground arith)
  | inr other ↦ elim (next_step-index_from (suc k) (next ∷ steps) name) [
    | inl h ↦ inl (ground arith, ground arith)
    | inr h ↦ inr (suc h.0, ground arith, ground arith)
  ]
]

-- The index behind an optional index.
abbrev pub after : Option ℕ → Option ℕ
after none = none
after (some i) = some (suc i)

-- `nextStep` returns the step behind the one at the index that `stepIndex` returns, and nothing
-- where that is -1 or the last index.
pub next_step-eq-at :
    (steps : List StepConfig) (name : String)
    → next_step steps name ≡ at steps (after (step_index steps name))
unfolding step_index
next_step-eq-at steps name = elim (next_step-index_from 0 steps name) [
  | inl h ↦ rw (h.0) (h.1)
  | inr h ↦ ground arith
]
