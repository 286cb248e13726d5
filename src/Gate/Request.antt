-- ===== src/Gate/Request.antt =====
-- internal/controllers/approvalrequest_controller.go: the updates of an approval request's status.
use sovereign_ai.Prelude.{
  Bool, true, false, not, ◌&&◌, ◌||◌, List, Option, none, some, String, ◌==◌, if◌then◌else◌,
}
use sovereign_ai.Prelude.Int.{ℤ, eqb_ℤ}
use sovereign_ai.Api.{Phase, awaiting_approval, failed, succeeded, phase_eq, Artifact}
use sovereign_ai.State.{is_terminal}
use sovereign_ai.Claims.{Libraries}
use sovereign_ai.Gate.{
  Read, found, missing, failed_read, Meta, controlled_by, Attempt, ApprovalRequest,
  ApprovalDecision, Checked, authorized, waiting, unauthorized, attempt_error, approval_attempt,
  DecisionError, validate_approval_decision,
}
use sovereign_ai.Gate.Evidence.{
  Resolved, resolved, unready, refused, read_error, ArtifactReader, resolve_artifact_evidence,
}

-- The workflow, with the fields that the gate reads.
pub record GateWorkflow : Type 0 where
  pub meta : Meta
  pub phase : Phase
  pub active_attempt_ref : String
  pub active_step_name : String
  pub workflow_attempt : ℤ

-- What one run of the controller reads, and the outcome of the audit log's append.
pub record GateScene : Type 0 where
  pub attempts : String → Read Attempt
  pub decisions : String → Read ApprovalDecision
  pub workflows : String → Read GateWorkflow
  pub artifacts : ArtifactReader
  pub libraries : Libraries
  pub blank : String → Bool
  pub decision_name : String → String
  pub audit_error : Option String

-- The results of a `mutate` function: nothing to write, the new object, or an error.
pub data StatusChange : Type 0 where
  unchanged : StatusChange
  changed : ApprovalRequest → StatusChange
  change_error : String → StatusChange

abbrev pub reason_for : Phase → String → String
reason_for phase reason = if phase_eq phase failed then reason else ""

unfoldable pub finish_approval : ApprovalRequest → Phase → String → String → ApprovalRequest
finish_approval approval phase reason decision_ref = record approval {
  status = record approval.status {
    phase = phase;
    decision_ref = decision_ref;
    failure_reason = reason_for phase reason;
    retryable = false;
    completed = true;
    observed_generation = approval.meta.generation;
  };
}

-- `mutate` of setFailed and of setAwaiting.
unfoldable pub set_failed : String → ApprovalRequest → StatusChange
set_failed reason latest = changed (finish_approval latest failed reason "")

unfoldable pub set_awaiting : ApprovalRequest → StatusChange
set_awaiting latest =
    if phase_eq latest.status.phase awaiting_approval
    then unchanged
    else changed (record latest {
      status = record latest.status {
        phase = awaiting_approval;
        started = true;
        observed_generation = latest.meta.generation;
      };
    })

-- The end of resolveDecision: the decision is recorded and taken over.
unfoldable pub take_decision : GateScene → ApprovalRequest → ApprovalDecision → StatusChange
take_decision scene latest decision = elim scene.audit_error [
  | some message ↦ change_error message
  | none ↦
      let named = record latest {
        status = record latest.status { decision_uid = decision.meta.uid };
      } in
      if decision.decision == "Denied"
      then changed (finish_approval named failed "ApprovalDenied" decision.meta.name)
      else changed (finish_approval named succeeded "ApprovalGranted" decision.meta.name)
]

abbrev pub on_evidence :
    GateScene → ApprovalRequest → ApprovalDecision → Resolved (List Artifact) → StatusChange
on_evidence scene latest decision (resolved evidence) = take_decision scene latest decision
on_evidence scene latest decision unready = change_error "approval inputs are unavailable"
on_evidence scene latest decision (refused reason) = change_error "approval inputs are invalid"
on_evidence scene latest decision (read_error message) = change_error message

-- The request is the workflow's active gate.
unfoldable pub is_active_gate : ApprovalRequest → Attempt → GateWorkflow → Bool
is_active_gate latest attempt workflow =
    workflow.meta.uid == latest.spec.workflow_ref.uid
    && not workflow.meta.deleting
    && not (is_terminal workflow.phase)
    && controlled_by attempt.meta.controller workflow.meta.uid
    && workflow.active_attempt_ref == attempt.meta.name
    && workflow.active_step_name == attempt.spec.step_name
    && eqb_ℤ workflow.workflow_attempt attempt.spec.workflow_attempt

unfoldable pub on_workflow :
    GateScene → ApprovalRequest → ApprovalDecision → Attempt → Read GateWorkflow → StatusChange
on_workflow scene latest decision attempt (failed_read message) = change_error message
on_workflow scene latest decision attempt missing = set_failed "InvalidWorkflowAuthority" latest
on_workflow scene latest decision attempt (found workflow) =
    if not (is_active_gate latest attempt workflow)
    then set_failed "InvalidWorkflowAuthority" latest
    else on_evidence scene latest decision (
        resolve_artifact_evidence scene.libraries scene.artifacts latest.spec.workflow_ref
          latest.spec.inputs)

unfoldable pub on_checked : GateScene → ApprovalRequest → ApprovalDecision → Checked → StatusChange
on_checked scene latest decision (attempt_error message) = change_error message
on_checked scene latest decision waiting = set_failed "InvalidStepAttemptAuthority" latest
on_checked scene latest decision unauthorized = set_failed "InvalidStepAttemptAuthority" latest
on_checked scene latest decision (authorized attempt) =
    on_workflow scene latest decision attempt (scene.workflows latest.spec.workflow_ref.name)

unfoldable pub on_valid :
    GateScene → ApprovalRequest → ApprovalDecision → Option DecisionError → StatusChange
on_valid scene latest decision (some reason) = set_failed "InvalidApprovalDecision" latest
on_valid scene latest decision none =
    on_checked scene latest decision (approval_attempt scene.attempts latest)

unfoldable pub on_read_decision : GateScene → ApprovalRequest → Read ApprovalDecision → StatusChange
on_read_decision scene latest missing = unchanged
on_read_decision scene latest (failed_read message) = change_error message
on_read_decision scene latest (found decision) =
    on_valid scene latest decision (validate_approval_decision scene.blank latest decision)

-- `mutate` of resolveDecision.
unfoldable pub resolve_decision : GateScene → ApprovalRequest → StatusChange
resolve_decision scene latest =
    if not (phase_eq latest.status.phase awaiting_approval)
    then unchanged
    else on_read_decision scene latest (scene.decisions (scene.decision_name latest.meta.uid))

-- updateApprovalStatus: `approval` is the request as it was read first, `latest` as it is now.
unfoldable pub update_approval_status :
    ApprovalRequest → (ApprovalRequest → StatusChange) → ApprovalRequest → StatusChange
update_approval_status approval mutate latest =
    if not (latest.meta.uid == approval.meta.uid)
      || latest.meta.deleting
      || is_terminal latest.status.phase
    then unchanged
    else mutate latest

-- What Reconcile does after it has read the request, up to the events that follow an update.
pub data ApprovalAction : Type 0 where
  stop : ApprovalAction
  requeue : ApprovalAction
  report_error : String → ApprovalAction
  update : (ApprovalRequest → StatusChange) → ApprovalAction

-- The selection of the inputs is recorded first.
abbrev pub on_inputs : Option String → Resolved (List Artifact) → ApprovalAction
on_inputs none (resolved evidence) = update set_awaiting
on_inputs (some message) (resolved evidence) = report_error message
on_inputs audit_error unready = requeue
on_inputs audit_error (refused reason) = update (set_failed "InvalidArtifactInputs")
on_inputs audit_error (read_error message) = report_error message

abbrev pub on_checked_attempt : GateScene → ApprovalRequest → Checked → ApprovalAction
on_checked_attempt scene approval (attempt_error message) = report_error message
on_checked_attempt scene approval unauthorized = update (set_failed "InvalidStepAttemptAuthority")
on_checked_attempt scene approval waiting = requeue
on_checked_attempt scene approval (authorized attempt) = on_inputs scene.audit_error (
    resolve_artifact_evidence scene.libraries scene.artifacts approval.spec.workflow_ref
      approval.spec.inputs)

unfoldable pub reconcile_approval : GateScene → Bool → ApprovalRequest → ApprovalAction
reconcile_approval scene namespace_terminating approval =
    if approval.meta.deleting || namespace_terminating || is_terminal approval.status.phase
    then stop
    else if phase_eq approval.status.phase awaiting_approval
    then update (resolve_decision scene)
    else on_checked_attempt scene approval (approval_attempt scene.attempts approval)
