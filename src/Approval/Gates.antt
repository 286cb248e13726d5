-- ===== src/Approval/Gates.antt =====
-- What an admitted workflow guarantees of its steps.
use sovereign_ai.Prelude.{
  ℕ, zero, suc, ◌+◌, ◌<◌, ◌≡◌, refl, ◌≢◌, ◌↔◌, inl, inr, true, false, List, [], ◌∷◌, none, some,
  String, eq_iff, arith, Option-cases, get_elem?,
}
use sovereign_ai.Prelude.Int.{◌<ℤ◌}
use native.Mathlib.Nat.{zero-add}
use sovereign_ai.Api.{utility, human_gate, ApprovalRequirement, StepConfig}
use sovereign_ai.Approval.{
  lookup, index_names, has_approval_input, is_utility, is_human_gate, is_merge_request, check_gate,
  check_step, check_steps, validate_approval_requirements,
}
use sovereign_ai.Approval.Names.{
  by_name_exact, by_name_enters, Unique, index_names-Unique, index_names-cases,
  index_names_of_Unique,
}

-- The step at `index` is a utility operation that waits for an earlier human gate over an artifact
-- that both take as exactly one input.
pub record IsGated (steps : List StepConfig) (index : ℕ) (step : StepConfig)
    (required : ApprovalRequirement) : Type 0 where
  pub gate_index : ℕ
  pub gate : StepConfig
  pub listed : get_elem? steps gate_index ≡ some gate
  pub named : gate.name ≡ required.step
  pub earlier : gate_index < index
  pub ordered : gate.order <ℤ step.order
  pub human : gate.kind ≡ human_gate
  pub operation : step.kind ≡ utility
  pub has_subject : required.subject ≢ ""
  pub consumed : has_approval_input step.inputs required.subject ≡ true
  pub reviewed : has_approval_input gate.inputs required.subject ≡ true

-- A merge request is bound to an approval, and every binding is met.
abbrev pub StepAdmissible : List StepConfig → ℕ → StepConfig → Type 0
StepAdmissible steps index step =
    (step.requires_approval ≡ none → is_merge_request step.utility ≡ false)
    × ((required : ApprovalRequirement)
        → step.requires_approval ≡ some required
        → IsGated steps index step required)

module _ (steps : List StepConfig) (by_name : List (String × ℕ))
    (entered : index_names 0 [] steps ≡ inl by_name) where
  check_gate-IsGated :
      (index : ℕ) (step : StepConfig) (required : ApprovalRequirement)
      → is_utility step.kind ≡ true
      → required.subject ≢ ""
      → check_gate index step required (lookup required.step by_name) steps ≡ none
      → IsGated steps index step required
  unfolding check_gate is_utility is_human_gate
  check_gate-IsGated index step required u n e =
      elim (Option-cases (lookup required.step by_name)) [
        | inl missing ↦ cc (rw (missing, check_gate) at e)
        | inr (j, found) ↦
            let (gate, listed, named) = by_name_exact steps by_name required.step j entered found in
            record {
              gate_index = j;
              gate = gate;
              listed = listed;
              named = named;
              earlier = ground arith;
              ordered = ground arith;
              human = ground arith;
              operation = ground arith;
              has_subject = n;
              consumed = ground arith;
              reviewed = ground arith;
            }
      ]

  check_step-StepAdmissible :
      (index : ℕ) (step : StepConfig)
      → check_step by_name steps index step step.requires_approval ≡ none
      → StepAdmissible steps index step
  unfolding check_step
  check_step-StepAdmissible index step e = (
    λ h. ground arith,
    λ required h.
        check_gate-IsGated index step required (ground arith)
          (ground (arith, eq_iff required.subject "")) (ground arith),
  )

  check_gate_of_IsGated :
      (index : ℕ) (step : StepConfig) (required : ApprovalRequirement)
      → IsGated steps index step required
      → check_step by_name steps index step (some required) ≡ none
  unfolding check_step check_gate is_utility is_human_gate
  check_gate_of_IsGated index step required g =
      let found : lookup required.step by_name ≡ some g.gate_index =
        rw g.named at (by_name_enters steps by_name g.gate_index g.gate entered g.listed) in
      let listed = g.listed in ground (arith, eq_iff required.subject "", found, listed)

  check_step_of_StepAdmissible :
      (index : ℕ) (step : StepConfig)
      → StepAdmissible steps index step
      → check_step by_name steps index step step.requires_approval ≡ none
  check_step_of_StepAdmissible index step h = elim (Option-cases step.requires_approval) [
    | inl unbound ↦ simp unbound (unfold check_step in rw (h.0 unbound))
    | inr (required, bound) ↦
        simp bound (check_gate_of_IsGated index step required (h.1 required bound))
  ]

  check_steps-each :
      (k : ℕ) (rest : List StepConfig)
      → check_steps by_name steps k rest ≡ none
      → (i : ℕ) (s : StepConfig) → get_elem? rest i ≡ some s
      → check_step by_name steps (k + i) s s.requires_approval ≡ none
  unfolding check_steps
  check_steps-each k [] e i s g = cc
  check_steps-each k (step ∷ rest) e zero s g =
      let first : k + 0 ≡ k = omega arith in
      let same : step ≡ s = ground arith in rw (first, ← same) (ground arith)
  check_steps-each k (step ∷ rest) e (suc i) s g =
      let shift : k + suc i ≡ suc k + i = omega arith in
      rw shift (check_steps-each (suc k) rest (ground arith) i s g)

  check_steps_of_each :
      (k : ℕ) (rest : List StepConfig)
      → ((i : ℕ) (s : StepConfig)
          → get_elem? rest i ≡ some s
          → check_step by_name steps (k + i) s s.requires_approval ≡ none)
      → check_steps by_name steps k rest ≡ none
  unfolding check_steps
  check_steps_of_each k [] h = refl
  check_steps_of_each k (step ∷ rest) h =
      let first : k ≡ k + 0 = omega arith in
      let passed : check_step by_name steps k step step.requires_approval ≡ none =
        rw first (h 0 step refl) in
      rw (passed, check_steps) (check_steps_of_each (suc k) rest (λ i s g. tail i s g))
    where
      tail :
          (i : ℕ) (s : StepConfig)
          → get_elem? rest i ≡ some s
          → check_step by_name steps (suc k + i) s s.requires_approval ≡ none
      tail i s g = let shift : suc k + i ≡ k + suc i = omega arith in rw shift (h (suc i) s g)

-- The steps of a workflow are admitted exactly when no two of them share a name, every step that
-- requests a merge has an approval requirement, and every step with an approval requirement is a
-- utility operation behind a human gate of that name, earlier in the list and of a smaller order,
-- where the subject of the requirement is an input of both, exactly once.
pub validate_approval_requirements_iff :
    (steps : List StepConfig)
    → (validate_approval_requirements steps ≡ none) ↔ (
        Unique steps
        × ((i : ℕ) (s : StepConfig) → get_elem? steps i ≡ some s → StepAdmissible steps i s))
unfolding validate_approval_requirements
validate_approval_requirements_iff steps = (sound, complete)
  where
    sound :
        validate_approval_requirements steps ≡ none
        → Unique steps
          × ((i : ℕ) (s : StepConfig) → get_elem? steps i ≡ some s → StepAdmissible steps i s)
    sound e = elim (index_names-cases 0 [] steps) [
      | inr (d, duplicate) ↦ ground arith
      | inl (b, entered) ↦ (
        index_names-Unique steps b entered,
        λ i s g.
            check_step-StepAdmissible steps b entered i s
              (rw (zero-add i) at (check_steps-each steps b entered 0 steps (ground arith) i s g)),
      )
    ]

    complete :
        Unique steps
          × ((i : ℕ) (s : StepConfig) → get_elem? steps i ≡ some s → StepAdmissible steps i s)
        → validate_approval_requirements steps ≡ none
    complete (unique, h) =
        let (b, entered) = index_names_of_Unique steps unique in
        rw (entered, validate_approval_requirements)
          (check_steps_of_each steps b entered 0 steps
            (λ i s g. rw (zero-add i) (check_step_of_StepAdmissible steps b entered i s (h i s g))))
