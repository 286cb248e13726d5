-- ===== src/Gate/Permission.antt =====
-- internal/controllers/approval_binding.go: the subject of an approval, the admission of its decision,
-- and the whole of ResolveRequiredApproval.
use sovereign_ai.Prelude.{
  not, ◌&&◌, ◌||◌, List, [], ◌∷◌, Option, none, some, String, ◌==◌, is_none, Result, ok, err, ◌>>=◌,
  if◌then◌else◌,
}
use sovereign_ai.Api.{
  succeeded, phase_eq, UidReference, uid_eq, ArtifactReference, ApprovalRequirement, StepConfig,
  Artifact,
}
use sovereign_ai.Approval.{ApprovalError, validate_approval_requirements}
use sovereign_ai.Gate.{controlled_by, Attempt, ApprovalRequest, ApprovalDecision}
use sovereign_ai.Gate.Evidence.{
  Resolved, resolved, unready, refused, read_error, resolve_artifact_evidence,
}
use sovereign_ai.Gate.Request.{GateScene}
use sovereign_ai.Gate.Authority.{
  AuthorityError, AuthorityScene, ResolvedApproval, refuse_if, fetched, called, latest_gate,
  gate_execution, check_request, check_decision, requirements, other_consumer, ambiguous_subject,
  unpinned_subject, other_subject, evidence_missing, admission_mismatch, api_error,
}

-- The loop of pinnedApprovalSubject; `result` is the input found so far.
unfoldable pub find_subject :
    List ArtifactReference
    → String
    → Option ArtifactReference
    → Result AuthorityError (Option ArtifactReference)
find_subject [] name result = ok result
find_subject (input ∷ rest) name result =
    let kept = find_subject rest name result in
    let taken = find_subject rest name (some input) in
    if input.name == name then (if is_none result then taken else err ambiguous_subject) else kept

-- A subject with the artifact that it pins.
pub record Subject : Type 0 where
  pub reference : ArtifactReference
  pub pin : UidReference

abbrev pub pinned_by : ArtifactReference → Option UidReference → Result AuthorityError Subject
pinned_by reference none = err unpinned_subject
pinned_by reference (some pin) =
    if pin.name == "" || pin.uid == "" || reference.digest == ""
    then err unpinned_subject
    else ok (record { reference = reference; pin = pin })

abbrev pub subject_of : Option ArtifactReference → Result AuthorityError Subject
subject_of none = err unpinned_subject
subject_of (some reference) = pinned_by reference reference.artifact_ref

unfoldable pub pinned_approval_subject :
    List ArtifactReference → String → Result AuthorityError Subject
pinned_approval_subject inputs name = do result ← find_subject inputs name none; subject_of result

abbrev pub evident : Resolved (List Artifact) → Result AuthorityError (Unit {0})
evident (resolved evidence) = ok tt
evident unready = err evidence_missing
evident (refused reason) = err evidence_missing
evident (read_error message) = err (api_error message)

-- RecordApprovalAdmission of internal/audit/approval.go; `audit_error` is an error of building its
-- events or of appending them.
unfoldable pub record_admission :
    GateScene → ApprovalRequest → ApprovalDecision → Result AuthorityError (Unit {0})
record_admission scene request decision =
    if not (request.status.decision_ref == decision.meta.name)
      || not (request.status.decision_uid == decision.meta.uid)
      || not request.status.completed
      || (not (phase_eq request.status.phase succeeded)
          && not (request.status.failure_reason == "ApprovalDenied"))
    then err admission_mismatch
    else called scene.audit_error

abbrev pub approval_of :
    AuthorityScene
    → ApprovalRequirement
    → ApprovalRequest
    → ApprovalDecision
    → Subject
    → ResolvedApproval
approval_of a required request decision reviewed = record {
  requirement = required;
  request_ref = record { name = request.meta.name; uid = request.meta.uid };
  decision_ref = record { name = decision.meta.name; uid = decision.meta.uid };
  subject = reviewed.reference;
  admission_event_id = a.event_id request;
}

-- The end of ResolveRequiredApproval, from the comparison of the subjects on.
unfoldable pub bind_approval :
    AuthorityScene
    → Attempt
    → ApprovalRequirement
    → List ArtifactReference
    → ApprovalRequest
    → ApprovalDecision
    → Subject
    → Subject
    → Result AuthorityError ResolvedApproval
bind_approval a consumer required inputs request decision reviewed operated = do
  _ ←
      refuse_if
        (not (uid_eq reviewed.pin operated.pin)
          || not (reviewed.reference.digest == operated.reference.digest))
        other_subject
  _ ← evident (
      resolve_artifact_evidence a.scene.libraries a.scene.artifacts consumer.spec.workflow_ref
        request.spec.inputs)
  _ ← evident (
      resolve_artifact_evidence a.scene.libraries a.scene.artifacts consumer.spec.workflow_ref
        inputs)
  _ ← record_admission a.scene request decision
  ok (approval_of a required request decision reviewed)

-- The middle, from the comparison of the decision on.
unfoldable pub admit_decision :
    AuthorityScene
    → Attempt
    → ApprovalRequirement
    → List ArtifactReference
    → ApprovalRequest
    → ApprovalDecision
    → Result AuthorityError ResolvedApproval
admit_decision a consumer required inputs request decision = do
  _ ← check_decision a.scene.blank request decision
  reviewed ← pinned_approval_subject request.spec.inputs required.subject
  operated ← pinned_approval_subject inputs required.subject
  bind_approval a consumer required inputs request decision reviewed operated

unfoldable pub admit_request :
    AuthorityScene
    → Attempt
    → ApprovalRequirement
    → List ArtifactReference
    → Attempt
    → ApprovalRequest
    → Result AuthorityError ResolvedApproval
admit_request a consumer required inputs gate request = do
  _ ← check_request gate request
  decision ← fetched (a.scene.decisions request.status.decision_ref)
  admit_decision a consumer required inputs request decision

unfoldable pub authorize :
    AuthorityScene
    → Attempt
    → ApprovalRequirement
    → List ArtifactReference
    → Result AuthorityError ResolvedApproval
authorize a consumer required inputs = do
  _ ← called a.list_error
  latest ← latest_gate consumer required a.attempts none
  gate ← gate_execution a.workflow latest
  request ← fetched (a.requests gate.1.name)
  admit_request a consumer required inputs gate.0 request

unfoldable pub for_requirement :
    AuthorityScene
    → Attempt
    → List ArtifactReference
    → Option ApprovalRequirement
    → Result AuthorityError (Option ResolvedApproval)
for_requirement a consumer inputs none = ok none
for_requirement a consumer inputs (some required) =
    if not (a.workflow.meta.uid == consumer.spec.workflow_ref.uid)
      || not (a.workflow.meta.name == consumer.spec.workflow_ref.name)
      || not (controlled_by consumer.meta.controller a.workflow.meta.uid)
    then err other_consumer
    else do approval ← authorize a consumer required inputs; ok (some approval)

-- The requirements of all steps are checked first.
abbrev pub requirements_hold : Option ApprovalError → Result AuthorityError (Unit {0})
requirements_hold none = ok tt
requirements_hold (some reason) = err (requirements reason)

unfoldable pub resolve_required_approval :
    AuthorityScene
    → Attempt
    → StepConfig
    → List ArtifactReference
    → Result AuthorityError (Option ResolvedApproval)
resolve_required_approval a consumer step inputs = do
  _ ← requirements_hold (validate_approval_requirements a.steps)
  for_requirement a consumer inputs step.requires_approval
