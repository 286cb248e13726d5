-- ===== src/Approval/Tests.antt =====
-- Tests of the admission of a workflow's steps, and the theorem at a concrete workflow.
use sovereign_ai.Prelude.{ℕ, ◌≡◌, ◌↔◌, refl, some, none, [], ◌∷◌, get_elem?}
use sovereign_ai.Api.{StepConfig}
use sovereign_ai.Samples.{canonical, author, gate, merge}
use sovereign_ai.Approval.{validate_approval_requirements, duplicate_step, needs_gate}
use sovereign_ai.Approval.Names.{Unique}
use sovereign_ai.Approval.Gates.{StepAdmissible, validate_approval_requirements_iff}

admissions :
    (validate_approval_requirements canonical ≡ none)
    × (validate_approval_requirements (merge ∷ gate ∷ []) ≡ some (needs_gate "merge"))
    × (validate_approval_requirements (author ∷ author ∷ []) ≡ some (duplicate_step "test-author"))
unfolding validate_approval_requirements
admissions = (refl, refl, refl)

validate_approval_requirements_iff_example : (validate_approval_requirements canonical ≡ none) ↔ (
    Unique canonical
    × ((i : ℕ) (s : StepConfig) → get_elem? canonical i ≡ some s → StepAdmissible canonical i s))
validate_approval_requirements_iff_example = validate_approval_requirements_iff canonical
