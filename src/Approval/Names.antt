-- ===== src/Approval/Names.antt =====
-- The map `byName` of the first loop holds each step under its name, once.
use sovereign_ai.Prelude.{
  ℕ, zero, suc, ◌+◌, ◌≡◌, refl, ◌⊎◌, inl, inr, true, false, List, [], ◌∷◌, none, some, String, ◌==◌,
  eq_iff, eq_refl, arith, Bool-cases, Option-cases, get_elem?,
}
use sovereign_ai.Api.{StepConfig}
use sovereign_ai.Approval.{ApprovalError, lookup, index_names}

lookup_self : (b : List (String × ℕ)) (key : String) (k : ℕ) → lookup key ((key, k) ∷ b) ≡ some k
unfolding lookup
lookup_self b key k = rw (eq_refl key)

lookup-cons :
    (b : List (String × ℕ)) (key name : String) (k i : ℕ)
    → lookup key b ≡ none
    → lookup name b ≡ some i
    → lookup name ((key, k) ∷ b) ≡ some i
unfolding lookup
lookup-cons b key name k i new h = elim (Bool-cases (key == name)) [
  | inl same ↦ let e : key ≡ name = (eq_iff key name).0 same in cc (rw e at new)
  | inr other ↦ rw other h
]

index_names-cons :
    (k : ℕ) (b result : List (String × ℕ)) (step : StepConfig) (steps : List StepConfig)
    → index_names k b (step ∷ steps) ≡ inl result
    → (lookup step.name b ≡ none) × (index_names (suc k) ((step.name, k) ∷ b) steps ≡ inl result)
unfolding index_names
index_names-cons k b result step steps e = elim (Option-cases (lookup step.name b)) [
  | inr (j, old) ↦ ground arith
  | inl new ↦ (new, ground arith)
]

-- An entry of `byName` is kept to the end.
index_names-keeps :
    (k : ℕ) (by_name result : List (String × ℕ)) (steps : List StepConfig) (name : String) (i : ℕ)
    → index_names k by_name steps ≡ inl result
    → lookup name by_name ≡ some i
    → lookup name result ≡ some i
unfolding index_names
index_names-keeps k b result [] name i e h = ground arith
index_names-keeps k b result (step ∷ steps) name i e h = elim (Option-cases (lookup step.name b)) [
  | inr (j, old) ↦ ground arith
  | inl new ↦
      index_names-keeps (suc k) ((step.name, k) ∷ b) result steps name i (ground arith)
        (lookup-cons b step.name name k i new h)
]

-- Every step is entered under its name with its index.
index_names-enters :
    (k : ℕ) (by_name result : List (String × ℕ)) (steps : List StepConfig) (i : ℕ) (s : StepConfig)
    → index_names k by_name steps ≡ inl result
    → get_elem? steps i ≡ some s
    → lookup s.name result ≡ some (k + i)
unfolding index_names
index_names-enters k b result [] i s e g = cc
index_names-enters k b result (step ∷ steps) zero s e g =
    let (new, rest) = index_names-cons k b result step steps e in
    let same : step ≡ s = ground arith in
    let at_k : k ≡ k + 0 = omega arith in
    rw (← same, ← at_k)
      (index_names-keeps (suc k) ((step.name, k) ∷ b) result steps step.name k rest
        (lookup_self b step.name k))
index_names-enters k b result (step ∷ steps) (suc i) s e g =
    let (new, rest) = index_names-cons k b result step steps e in
    let shift : suc k + i ≡ k + suc i = omega arith in
    rw (← shift) (index_names-enters (suc k) ((step.name, k) ∷ b) result steps i s rest g)

here :
    (b : List (String × ℕ)) (step : StepConfig) (name : String) (k j : ℕ)
    → (step.name == name) ≡ true
    → lookup name ((step.name, k) ∷ b) ≡ some j
    → j ≡ k + 0
unfolding lookup
here b step name k j same h = ground arith

other_entry :
    (b : List (String × ℕ)) (key name : String) (k j : ℕ)
    → (key == name) ≡ false
    → lookup name ((key, k) ∷ b) ≡ some j
    → lookup name b ≡ some j
unfolding lookup
other_entry b key name k j other h = ground arith

-- Every entry is such a step's.
index_names-only :
    (k : ℕ) (by_name result : List (String × ℕ)) (steps : List StepConfig) (name : String) (j : ℕ)
    → index_names k by_name steps ≡ inl result
    → lookup name result ≡ some j
    → (lookup name by_name ≡ some j)
      ⊎ ((i : ℕ) × (s : StepConfig) × (j ≡ k + i) × (get_elem? steps i ≡ some s) × (s.name ≡ name))
unfolding index_names
index_names-only k b result [] name j e h = inl (ground arith)
index_names-only k b result (step ∷ steps) name j e h =
    let (new, rest) = index_names-cons k b result step steps e in
    elim (index_names-only (suc k) ((step.name, k) ∷ b) result steps name j rest h) [
      | inr (i, s, eq, g, named) ↦ inr (suc i, s, omega arith, g, named)
      | inl before ↦ elim (Bool-cases (step.name == name)) [
        | inl same ↦
            inr (0, step, here b step name k j same before, refl, (eq_iff step.name name).0 same)
        | inr other ↦ inl (other_entry b step.name name k j other before)
      ]
    ]

-- The entry under a name is the index of a step of that name.
pub by_name_exact :
    (steps : List StepConfig) (result : List (String × ℕ)) (name : String) (j : ℕ)
    → index_names 0 [] steps ≡ inl result
    → lookup name result ≡ some j
    → (s : StepConfig) × (get_elem? steps j ≡ some s) × (s.name ≡ name)
unfolding lookup
by_name_exact steps result name j e h = elim (index_names-only 0 [] result steps name j e h) [
  | inl e ↦ cc
  | inr (i, s, eq, g, named) ↦ let same : j ≡ i = omega arith in (s, rw same g, named)
]

pub by_name_enters :
    (steps : List StepConfig) (result : List (String × ℕ)) (i : ℕ) (s : StepConfig)
    → index_names 0 [] steps ≡ inl result
    → get_elem? steps i ≡ some s
    → lookup s.name result ≡ some i
by_name_enters steps result i s e g =
    let at_i : 0 + i ≡ i = omega arith in rw at_i at (index_names-enters 0 [] result steps i s e g)

-- No two steps have one name.
abbrev pub Unique : List StepConfig → Type 0
Unique steps =
    (i j : ℕ) (s t : StepConfig)
    → get_elem? steps i ≡ some s
    → get_elem? steps j ≡ some t
    → s.name ≡ t.name
    → i ≡ j

pub index_names-Unique :
    (steps : List StepConfig) (result : List (String × ℕ))
    → index_names 0 [] steps ≡ inl result
    → Unique steps
index_names-Unique steps result e i j s t at_i at_j same =
    let f : lookup s.name result ≡ some i = by_name_enters steps result i s e at_i in
    let g : lookup t.name result ≡ some j = by_name_enters steps result j t e at_j in
    cc (rw same at f, g)

pub index_names-cases :
    (k : ℕ) (b : List (String × ℕ)) (steps : List StepConfig)
    → ((result : List (String × ℕ)) × (index_names k b steps ≡ inl result))
      ⊎ ((e : ApprovalError) × (index_names k b steps ≡ inr e))
index_names-cases k b steps = go (index_names k b steps) refl
  where
    go :
        (r : List (String × ℕ) ⊎ ApprovalError)
        → index_names k b steps ≡ r
        → ((result : List (String × ℕ)) × (index_names k b steps ≡ inl result))
          ⊎ ((e : ApprovalError) × (index_names k b steps ≡ inr e))
    go (inl result) h = inl (result, h)
    go (inr e) h = inr (e, h)

-- Where no name is entered yet and none repeats, the loop ends with no error.
index_names-inl :
    (k : ℕ) (b : List (String × ℕ)) (steps : List StepConfig)
    → Unique steps
    → ((i : ℕ) (s : StepConfig) → get_elem? steps i ≡ some s → lookup s.name b ≡ none)
    → (result : List (String × ℕ)) × (index_names k b steps ≡ inl result)
unfolding index_names
index_names-inl k b [] u h = (b, refl)
index_names-inl k b (step ∷ steps) u h =
    let new : lookup step.name b ≡ none = h 0 step refl in
    let (result, rest) =
      index_names-inl (suc k) ((step.name, k) ∷ b) steps (λ i j s t p q e. shrink i j s t p q e)
        (λ i s g. fresh i s g) in
    (result, rw (new, index_names) rest)
  where
    shrink : Unique steps
    shrink i j s t p q e = omega (arith, u (suc i) (suc j) s t p q e)

    fresh :
        (i : ℕ) (s : StepConfig)
        → get_elem? steps i ≡ some s
        → lookup s.name ((step.name, k) ∷ b) ≡ none
    fresh i s g = elim (Bool-cases (step.name == s.name)) [
      | inl same ↦
          absurd (omega (arith, u 0 (suc i) step s refl g ((eq_iff step.name s.name).0 same)))
      | inr other ↦ unfold lookup in rw other (h (suc i) s g)
    ]

pub index_names_of_Unique :
    (steps : List StepConfig)
    → Unique steps
    → (result : List (String × ℕ)) × (index_names 0 [] steps ≡ inl result)
unfolding lookup
index_names_of_Unique steps u = index_names-inl 0 [] steps u (λ i s g. refl)
