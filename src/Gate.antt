-- ===== src/Gate.antt =====
-- The human gate: internal/controllers/domain_authority.go, the checks of approvalrequest_controller.go
-- on an approval request, its decision and its step attempt, and input_evidence.go.
pub mod Evidence
pub mod Request
pub mod Granted
mod Tests
pub mod Taken
pub mod Kept
pub mod Backing
pub mod Backed
pub mod Operation
pub mod Allowed
mod Permit
pub mod Admitted
pub mod Authority
pub mod Permission
pub mod Tested
pub mod Runs
use sovereign_ai.Prelude.{
  Bool, true, false, not, ◌&&◌, ◌||◌, List, [], ◌∷◌, Option, none, some, String, ◌==◌, any, filter,
  is_none, if◌then◌else◌,
}
use sovereign_ai.Prelude.Int.{ℤ, eqb_ℤ}
use sovereign_ai.Api.{
  Phase, ExecutionKind, agent, utility, human_gate, validation, other_kind, UidReference, uid_eq,
  ArtifactReference, StepAttemptSpec, Artifact,
}
use sovereign_ai.State.{is_terminal}
use sovereign_ai.Artifacts.{
  artifact_accepted, Fetched, Pinned, ready, not_ready, invalid, get_error, PinError,
  resolve_pinned_input,
}
use sovereign_ai.Claims.{Libraries, ClaimError, validate_claims}

-- What the API client's Get returns.
pub data Read (A : Type 0) : Type 0 where
  found : A → Read A
  missing : Read A
  failed_read : String → Read A

pub record Owner : Type 0 where
  pub api_version : String
  pub kind : String
  pub name : String
  pub uid : String

-- An object's metadata; `deleting` is a deletion timestamp, `controller` its controlling owner.
pub record Meta : Type 0 where
  pub name : String
  pub uid : String
  pub generation : ℤ
  pub deleting : Bool
  pub controller : Option Owner

pub record ExecutionReference : Type 0 where
  pub api_version : String
  pub kind : String
  pub name : String

-- A step attempt with the fields that the gate reads.
pub record Attempt : Type 0 where
  pub meta : Meta
  pub spec : StepAttemptSpec
  pub phase : Phase
  pub execution_ref : Option ExecutionReference

pub record ApprovalSpec : Type 0 where
  pub mode : String
  pub required_groups : List String
  pub deny_behavior : String

pub record ApprovalRequestSpec : Type 0 where
  pub attempt_ref : UidReference
  pub workflow_ref : UidReference
  pub step_name : String
  pub attempt : ℤ
  pub approval : ApprovalSpec
  pub inputs : List ArtifactReference

-- `started` and `completed` tell that StartedAt and CompletedAt are set. The condition Ready, which
-- each update sets to a text for users, is left out.
pub record ApprovalRequestStatus : Type 0 where
  pub decision_uid : String
  pub observed_generation : ℤ
  pub phase : Phase
  pub decision_ref : String
  pub failure_reason : String
  pub retryable : Bool
  pub started : Bool
  pub completed : Bool

pub record ApprovalRequest : Type 0 where
  pub meta : Meta
  pub spec : ApprovalRequestSpec
  pub status : ApprovalRequestStatus

-- `authored` tells that AuthoredAt is set to a time other than zero.
pub record ApprovalDecision : Type 0 where
  pub meta : Meta
  pub workflow_ref : UidReference
  pub step_attempt_ref : UidReference
  pub approval_request_ref : UidReference
  pub decision : String
  pub authored : Bool
  pub subject_id : String
  pub groups : List String

abbrev pub group_version : String
group_version = "aim.sovereign.io/v1alpha1"

unfoldable pub domain_kind : ExecutionKind → String
domain_kind agent = "AgentRun"
domain_kind utility = "UtilityOperation"
domain_kind human_gate = "ApprovalRequest"
domain_kind validation = "ValidationRun"
domain_kind (other_kind name) = ""

abbrev pub kind_name : ExecutionKind → String
kind_name agent = "Agent"
kind_name utility = "Utility"
kind_name human_gate = "HumanGate"
kind_name validation = "Validation"
kind_name (other_kind name) = name

-- `metav1.IsControlledBy`.
abbrev pub controlled_by : Option Owner → String → Bool
controlled_by none uid = false
controlled_by (some owner) uid = owner.uid == uid

pub data BindingError : Type 0 where
  not_controlled identity_mismatch : BindingError

-- ValidateDomainBinding; `object` is the domain resource's metadata.
unfoldable pub validate_domain_binding :
    Attempt → Meta → String → ExecutionKind → UidReference → String → ℤ → Option BindingError
validate_domain_binding attempt object attempt_ref expected_kind workflow_ref step_name number =
    if not (attempt_ref == attempt.meta.name)
      || not (controlled_by object.controller attempt.meta.uid)
    then some not_controlled
    else if not (kind_name attempt.spec.kind == kind_name expected_kind)
        || not (attempt.spec.workflow_ref.name == workflow_ref.name)
        || not (attempt.spec.workflow_ref.uid == workflow_ref.uid)
        || not (attempt.spec.step_name == step_name)
        || not (eqb_ℤ attempt.spec.retry_number number)
    then some identity_mismatch
    else none

-- The results of approvalAttempt: the attempt, nil for one that is not published yet, a reason, or
-- an error of the read.
pub data Checked : Type 0 where
  authorized : Attempt → Checked
  waiting unauthorized : Checked
  attempt_error : String → Checked

abbrev pub names_request : ApprovalRequest → Attempt → Option ExecutionReference → Checked
names_request approval attempt none = waiting
names_request approval attempt (some ref) =
    if not (ref.api_version == group_version)
      || not (ref.kind == "ApprovalRequest")
      || not (ref.name == approval.meta.name)
    then unauthorized
    else authorized attempt

unfoldable pub check_attempt : ApprovalRequest → Attempt → Checked
unfolding validate_domain_binding
check_attempt approval attempt =
    if approval.meta.uid == ""
      || attempt.meta.uid == ""
      || not (approval.spec.attempt_ref.uid == attempt.meta.uid)
      || attempt.meta.deleting
      || is_terminal attempt.phase
    then unauthorized
    else if not (
        is_none (
          validate_domain_binding attempt approval.meta approval.spec.attempt_ref.name human_gate
            approval.spec.workflow_ref approval.spec.step_name approval.spec.attempt))
    then unauthorized
    else names_request approval attempt attempt.execution_ref

unfoldable pub approval_attempt : (String → Read Attempt) → ApprovalRequest → Checked
unfolding check_attempt
approval_attempt get approval = elim (get approval.spec.attempt_ref.name) [
  | found attempt ↦ check_attempt approval attempt
  | missing ↦ waiting
  | failed_read message ↦ attempt_error message
]

pub data DecisionError : Type 0 where
  not_bound unsupported_mode unknown_choice unauthored not_in_group : DecisionError

abbrev pub is_request_owner : ApprovalRequest → Option Owner → Bool
is_request_owner approval none = false
is_request_owner approval (some owner) =
    owner.uid == approval.meta.uid
    && owner.name == approval.meta.name
    && owner.kind == "ApprovalRequest"
    && owner.api_version == group_version

-- `slices.Contains`.
abbrev pub has_group : List String → String → Bool
has_group groups group = any (λ g. g == group) groups

-- `blank` is `strings.TrimSpace(s) == ""`.
unfoldable pub validate_approval_decision :
    (String → Bool) → ApprovalRequest → ApprovalDecision → Option DecisionError
validate_approval_decision blank approval decision =
    if decision.meta.deleting
      || not (is_request_owner approval decision.meta.controller)
      || not (
          uid_eq decision.approval_request_ref
            (record { name = approval.meta.name; uid = approval.meta.uid }))
      || not (uid_eq decision.step_attempt_ref approval.spec.attempt_ref)
      || not (uid_eq decision.workflow_ref approval.spec.workflow_ref)
    then some not_bound
    else if not (approval.spec.approval.mode == "AnyOf")
        || not (approval.spec.approval.deny_behavior == "Fail")
    then some unsupported_mode
    else if not (decision.decision == "Approved") && not (decision.decision == "Denied")
    then some unknown_choice
    else if blank decision.subject_id || not decision.authored
    then some unauthored
    else if any (λ group. not (group == "") && has_group decision.groups group)
        approval.spec.approval.required_groups
    then none
    else some not_in_group
