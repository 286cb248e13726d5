-- ===== src/Gate/Authority.antt =====
-- internal/controllers/approval_binding.go: which approval an operation may act on.
use sovereign_ai.Prelude.{
  Bool, true, false, not, ◌&&◌, ◌||◌, List, [], ◌∷◌, Option, none, some, String, ◌==◌, is_none,
  Result, ok, err, ◌>>=◌, if◌then◌else◌,
}
use sovereign_ai.Prelude.Int.{eqb_ℤ, ltb_ℤ}
use sovereign_ai.Api.{
  human_gate, succeeded, phase_eq, UidReference, uid_eq, ArtifactReference, ApprovalRequirement,
  StepConfig,
}
use sovereign_ai.Approval.{ApprovalError}
use sovereign_ai.Gate.{
  Read, found, missing, failed_read, controlled_by, Attempt, ExecutionReference, ApprovalRequest,
  ApprovalDecision, kind_name, group_version, validate_domain_binding, DecisionError,
  validate_approval_decision,
}
use sovereign_ai.Gate.Request.{GateScene, GateWorkflow}

pub data AuthorityError : Type 0 where
  requirements : ApprovalError → AuthorityError
  other_consumer ambiguous_gate no_gate invalid_execution no_admitted_request : AuthorityError
  not_bound_to_gate not_admitted_decision ambiguous_subject unpinned_subject : AuthorityError
  other_subject evidence_missing admission_mismatch : AuthorityError
  invalid_decision : DecisionError → AuthorityError
  not_found : AuthorityError
  api_error : String → AuthorityError

-- What is read besides a GateScene: the workflow with its steps, the attempts of its namespace with
-- the error of their List, and the approval requests. `event_id` names the admission's event.
pub record AuthorityScene : Type 0 where
  pub scene : GateScene
  pub workflow : GateWorkflow
  pub steps : List StepConfig
  pub list_error : Option String
  pub attempts : List Attempt
  pub requests : String → Read ApprovalRequest
  pub event_id : ApprovalRequest → String

pub record ResolvedApproval : Type 0 where
  pub requirement : ApprovalRequirement
  pub request_ref : UidReference
  pub decision_ref : UidReference
  pub subject : ArtifactReference
  pub admission_event_id : String

-- `if cond { return err }`.
abbrev pub refuse_if : Bool → AuthorityError → Result AuthorityError (Unit {0})
refuse_if true reason = err reason
refuse_if false reason = ok tt

abbrev pub fetched : {A : Type 0} → Read A → Result AuthorityError A
fetched (found a) = ok a
fetched missing = err not_found
fetched (failed_read message) = err (api_error message)

-- A call that returns only an error.
abbrev pub called : Option String → Result AuthorityError (Unit {0})
called none = ok tt
called (some message) = err (api_error message)

-- An attempt of the gate in the consumer's workflow attempt.
unfoldable pub is_gate_attempt : Attempt → ApprovalRequirement → Attempt → Bool
is_gate_attempt consumer required item =
    uid_eq item.spec.workflow_ref consumer.spec.workflow_ref
    && item.spec.step_name == required.step
    && eqb_ℤ item.spec.workflow_attempt consumer.spec.workflow_attempt

abbrev pub later_gate : Attempt → Option Attempt → Result AuthorityError (Option Attempt)
later_gate item none = ok (some item)
later_gate item (some gate) =
    if eqb_ℤ item.spec.retry_number gate.spec.retry_number
    then err ambiguous_gate
    else if ltb_ℤ gate.spec.retry_number item.spec.retry_number
    then ok (some item)
    else ok (some gate)

unfoldable pub choose_gate :
    Attempt
    → ApprovalRequirement
    → Attempt
    → Option Attempt
    → Result AuthorityError (Option Attempt)
choose_gate consumer required item gate =
    if is_gate_attempt consumer required item then later_gate item gate else ok gate

-- The loop over the attempts.
unfoldable pub latest_gate :
    Attempt
    → ApprovalRequirement
    → List Attempt
    → Option Attempt
    → Result AuthorityError (Option Attempt)
latest_gate consumer required [] gate = ok gate
latest_gate consumer required (item ∷ rest) gate = do
  gate' ← choose_gate consumer required item gate
  latest_gate consumer required rest gate'

abbrev pub gate_with :
    Attempt → Option ExecutionReference → Result AuthorityError (Attempt × ExecutionReference)
gate_with gate none = err no_gate
gate_with gate (some execution) =
    if not (execution.kind == "ApprovalRequest") || not (execution.api_version == group_version)
    then err invalid_execution
    else ok (gate, execution)

unfoldable pub gate_execution :
    GateWorkflow → Option Attempt → Result AuthorityError (Attempt × ExecutionReference)
gate_execution workflow none = err no_gate
gate_execution workflow (some gate) =
    if gate.meta.uid == ""
      || gate.meta.deleting
      || not (phase_eq gate.phase succeeded)
      || not (kind_name gate.spec.kind == kind_name human_gate)
      || not (controlled_by gate.meta.controller workflow.meta.uid)
    then err no_gate
    else gate_with gate gate.execution_ref

-- The tests on the gate's request.
unfoldable pub check_request : Attempt → ApprovalRequest → Result AuthorityError (Unit {0})
check_request gate request =
    if request.meta.uid == ""
      || request.meta.deleting
      || not (phase_eq request.status.phase succeeded)
      || request.status.decision_uid == ""
      || request.status.decision_ref == ""
      || not
          (uid_eq request.spec.attempt_ref (record { name = gate.meta.name; uid = gate.meta.uid }))
    then err no_admitted_request
    else refuse_if
        (not (
          is_none (
            validate_domain_binding gate request.meta request.spec.attempt_ref.name human_gate
              request.spec.workflow_ref request.spec.step_name request.spec.attempt)))
        not_bound_to_gate

abbrev pub valid_decision : Option DecisionError → Result AuthorityError (Unit {0})
valid_decision none = ok tt
valid_decision (some reason) = err (invalid_decision reason)

unfoldable pub check_decision :
    (String → Bool) → ApprovalRequest → ApprovalDecision → Result AuthorityError (Unit {0})
check_decision blank request decision =
    if not (decision.meta.uid == request.status.decision_uid)
      || not (decision.decision == "Approved")
    then err not_admitted_decision
    else valid_decision (validate_approval_decision blank request decision)
