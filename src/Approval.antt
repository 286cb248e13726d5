-- ===== src/Approval.antt =====
-- internal/api/v1alpha1/approval_binding.go: ValidateApprovalRequirements, which admits the steps
-- of a workflow. The map `byName` is an association list, and an `error` is `Option ApprovalError`.
pub mod Names
pub mod Gates
mod Tests
use sovereign_ai.Prelude.{
  ℕ, suc, ◌⊎◌, inl, inr, Bool, true, false, ◌&&◌, ◌||◌, not, List, [], ◌∷◌, Option, none, some,
  String, ◌==◌, length, filter, eqb, leb, is_none, get_elem?, if◌then◌else◌,
}
use sovereign_ai.Prelude.Int.{leb_ℤ}
use sovereign_ai.Api.{
  ExecutionKind, utility, human_gate, ArtifactReference, ApprovalRequirement, StepConfig,
}

pub data ApprovalError : Type 0 where
  duplicate_step : String → ApprovalError
  needs_binding : String → ApprovalError
  needs_gate : String → ApprovalError
  subject_not_shared : String → String → String → ApprovalError

pub lookup : String → List (String × ℕ) → Option ℕ
lookup name [] = none
lookup name ((key, index) ∷ entries) = if key == name then some index else lookup name entries

-- The first loop: `byName`, or the first step whose name came before.
pub index_names : ℕ → List (String × ℕ) → List StepConfig → (List (String × ℕ)) ⊎ ApprovalError
index_names index by_name [] = inl by_name
index_names index by_name (step ∷ steps) =
    if not (is_none (lookup step.name by_name))
    then inr (duplicate_step step.name)
    else index_names (suc index) ((step.name, index) ∷ by_name) steps

pub has_approval_input : List ArtifactReference → String → Bool
has_approval_input inputs name = eqb (length (filter (λ input. input.name == name) inputs)) 1

is_utility : ExecutionKind → Bool
is_utility utility = true
is_utility _ = false

is_human_gate : ExecutionKind → Bool
is_human_gate human_gate = true
is_human_gate _ = false

pub is_merge_request : Option String → Bool
is_merge_request none = false
is_merge_request (some name) = name == "git.mergeRequest"

-- The tests on the gate that `byName` gives for the required step.
check_gate :
    ℕ → StepConfig → ApprovalRequirement → Option ℕ → List StepConfig → Option ApprovalError
check_gate index step required none steps = some (needs_gate step.name)
check_gate index step required (some gate_index) steps = elim (get_elem? steps gate_index) [
  | none ↦ some (needs_gate step.name)
  | some gate ↦
      if leb index gate_index || leb_ℤ step.order gate.order || not (is_human_gate gate.kind)
      then some (needs_gate step.name)
      else if not (has_approval_input step.inputs required.subject)
          || not (has_approval_input gate.inputs required.subject)
      then some (subject_not_shared required.subject step.name required.step)
      else none
]

check_step :
    List (String × ℕ)
    → List StepConfig
    → ℕ
    → StepConfig
    → Option ApprovalRequirement
    → Option ApprovalError
check_step by_name steps index step none =
    if is_merge_request step.utility then some (needs_binding step.name) else none
check_step by_name steps index step (some required) =
    if not (is_utility step.kind) || required.subject == ""
    then some (needs_gate step.name)
    else check_gate index step required (lookup required.step by_name) steps

-- The second loop, over the steps from `index` on.
check_steps : List (String × ℕ) → List StepConfig → ℕ → List StepConfig → Option ApprovalError
check_steps by_name steps index [] = none
check_steps by_name steps index (step ∷ rest) =
    elim (check_step by_name steps index step step.requires_approval) [
      | some e ↦ some e
      | none ↦ check_steps by_name steps (suc index) rest
    ]

unfoldable pub validate_approval_requirements : List StepConfig → Option ApprovalError
unfolding lookup index_names has_approval_input is_utility is_human_gate is_merge_request check_gate
    check_step check_steps
validate_approval_requirements steps = elim (index_names 0 [] steps) [
  | inr e ↦ some e
  | inl by_name ↦ check_steps by_name steps 0 steps
]
