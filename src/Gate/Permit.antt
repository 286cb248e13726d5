-- ===== src/Gate/Permit.antt =====
-- An operation that the approval of Gate/Tests allows.
use sovereign_ai.Prelude.{◌≡◌, refl, [], ◌∷◌, none, some, ok, err, ◌⊎◌}
use sovereign_ai.Api.{phase_eq, succeeded, utility, ApprovalRequirement}
use sovereign_ai.Samples.{canonical, merge}
use sovereign_ai.Gate
use sovereign_ai.Approval.{validate_approval_requirements}
use sovereign_ai.Artifacts.{artifact_accepted, resolve_pinned_input}
use sovereign_ai.Claims.{validate_claims, claims_absent}
use sovereign_ai.Gate.{Attempt, validate_domain_binding, validate_approval_decision}
use sovereign_ai.Gate.Evidence.{check_artifact, resolve_artifact_evidence, resolve_one}
use sovereign_ai.Gate.Request.{finish_approval}
use sovereign_ai.Gate.Tests.{attempt, pinned, granted, scene, workflow}
use sovereign_ai.Gate.Authority.{
  AuthorityScene, ResolvedApproval, latest_gate, choose_gate, is_gate_attempt, gate_execution,
  check_request, check_decision,
}
use sovereign_ai.Gate.Permission.{
  resolve_required_approval, for_requirement, authorize, admit_request, admit_decision,
  pinned_approval_subject, find_subject, bind_approval, record_admission,
}
use sovereign_ai.Gate.Backing.{IsBacked}
use sovereign_ai.Steps.{find_step}
use sovereign_ai.State.{is_terminal}
use sovereign_ai.Gate.Operation.{
  UtilityRequest, needs_approval, validate_operation_approval, validate_step, validate_binding,
  same_approval, approval_eq, pin_eq,
}
use sovereign_ai.Gate.Allowed.{IsUnbound, IsAllowed, validated-IsAllowed}
use sovereign_ai.Gate.Backed.{resolved-IsBacked}

abbrev approved_gate : Attempt
approved_gate = record attempt { phase = succeeded }

-- The step attempt of the merge.
abbrev consumer : Attempt
consumer = record attempt { spec = record attempt.spec { step_name = "merge"; kind = utility } }

abbrev authority : AuthorityScene
authority = record {
  scene = scene;
  workflow = workflow;
  steps = canonical;
  list_error = none;
  attempts = approved_gate ∷ consumer ∷ [];
  requests = λ name. Gate.found granted;
  event_id = λ r. "approval-admission";
}

abbrev approval : ResolvedApproval
approval = record {
  requirement = record { step = "review"; subject = "test-report" };
  request_ref = record { name = "wf-review-1"; uid = "uid-request-1" };
  decision_ref = record { name = "decision-1"; uid = "uid-decision-1" };
  subject = pinned;
  admission_event_id = "approval-admission";
}

resolve_runs : resolve_required_approval authority consumer merge (pinned ∷ []) ≡ ok (some approval)
unfolding resolve_required_approval validate_approval_requirements for_requirement authorize
    latest_gate choose_gate is_gate_attempt gate_execution phase_eq admit_request check_request
    finish_approval validate_domain_binding admit_decision check_decision validate_approval_decision
    pinned_approval_subject find_subject bind_approval record_admission artifact_accepted
    resolve_pinned_input validate_claims claims_absent check_artifact resolve_artifact_evidence
    resolve_one
resolve_runs = refl

resolved-IsBacked_example :
    (required : ApprovalRequirement) × (merge.requires_approval ≡ some required)
    × IsBacked authority consumer required (pinned ∷ []) approval
resolved-IsBacked_example =
    resolved-IsBacked authority consumer merge (pinned ∷ []) approval resolve_runs

-- The merge request of the step, with its approval.
abbrev operation : UtilityRequest
operation = record {
  approval = some approval;
  attempt_ref = "wf-merge-1";
  step_name = "merge";
  operation = "git.mergeRequest";
  inputs = pinned ∷ [];
}

abbrev merging : AuthorityScene
merging = record authority { scene = record scene { attempts = λ name. Gate.found consumer } }

operation_runs : validate_operation_approval merging operation ≡ ok tt
unfolding validate_operation_approval validate_step validate_binding find_step is_terminal
    same_approval approval_eq pin_eq resolve_required_approval validate_approval_requirements
    for_requirement authorize latest_gate choose_gate is_gate_attempt gate_execution phase_eq
    admit_request check_request finish_approval validate_domain_binding admit_decision
    check_decision validate_approval_decision pinned_approval_subject find_subject bind_approval
    record_admission artifact_accepted resolve_pinned_input validate_claims claims_absent
    check_artifact resolve_artifact_evidence resolve_one
operation_runs = refl

-- Without its approval the merge is refused.
operation_refused :
    validate_operation_approval merging (record operation { approval = none }) ≡ err needs_approval
unfolding validate_operation_approval validate_step find_step
operation_refused = refl

validated-IsAllowed_example : IsUnbound merging operation ⊎ IsAllowed merging operation
validated-IsAllowed_example = validated-IsAllowed merging operation tt operation_runs
