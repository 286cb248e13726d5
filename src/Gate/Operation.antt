-- ===== src/Gate/Operation.antt =====
-- internal/controllers/approval_binding.go: ValidateOperationApproval, the check of an operation
-- before it runs.
use sovereign_ai.Prelude.{
  Bool, true, false, not, ◌&&◌, ◌||◌, List, Option, none, some, String, ◌==◌, is_none, Result, ok,
  err, ◌>>=◌, if◌then◌else◌,
}
use sovereign_ai.Prelude.Int.{eqb_ℤ}
use sovereign_ai.Api.{uid_eq, UidReference, ArtifactReference, StepConfig}
use sovereign_ai.State.{is_terminal}
use sovereign_ai.Steps.{find_step}
use sovereign_ai.Gate.Authority.{AuthorityError, AuthorityScene, ResolvedApproval, fetched}
use sovereign_ai.Gate.Permission.{resolve_required_approval}

-- A utility operation, with the fields that the check reads; `operation` is its operation's name.
pub record UtilityRequest : Type 0 where
  pub approval : Option ResolvedApproval
  pub attempt_ref : String
  pub step_name : String
  pub operation : String
  pub inputs : List ArtifactReference

pub data OperationError : Type 0 where
  absent_step needs_approval other_utility not_current differs : OperationError
  authority : AuthorityError → OperationError

unfoldable pub pin_eq : Option UidReference → Option UidReference → Bool
pin_eq none none = true
pin_eq none (some b) = false
pin_eq (some a) none = false
pin_eq (some a) (some b) = uid_eq a b

unfoldable pub approval_eq : ResolvedApproval → ResolvedApproval → Bool
approval_eq a b =
    a.requirement.step == b.requirement.step
    && a.requirement.subject == b.requirement.subject
    && uid_eq a.request_ref b.request_ref
    && uid_eq a.decision_ref b.decision_ref
    && a.subject.name == b.subject.name
    && a.subject.digest == b.subject.digest
    && pin_eq a.subject.artifact_ref b.subject.artifact_ref
    && a.subject.producer_attempt_ref == b.subject.producer_attempt_ref
    && a.admission_event_id == b.admission_event_id

-- `reflect.DeepEqual` of two pointers to an approval.
unfoldable pub same_approval : Option ResolvedApproval → Option ResolvedApproval → Bool
same_approval none none = true
same_approval none (some b) = false
same_approval (some a) none = false
same_approval (some a) (some b) = approval_eq a b

abbrev pub names_utility : Option String → String → Bool
names_utility none name = false
names_utility (some utility) name = utility == name

-- An error of ResolveRequiredApproval or of a read is passed on.
abbrev pub passed_on : {A : Type 0} → Result AuthorityError A → Result OperationError A
passed_on (ok a) = ok a
passed_on (err reason) = err (authority reason)

abbrev pub refuse : Bool → OperationError → Result OperationError (Unit {0})
refuse true reason = err reason
refuse false reason = ok tt

-- From the read of the consumer on.
unfoldable pub validate_binding :
    AuthorityScene → UtilityRequest → StepConfig → Result OperationError (Unit {0})
validate_binding a operation step = do
  consumer ← passed_on (fetched (a.scene.attempts operation.attempt_ref))
  _ ←
      refuse
        (is_terminal consumer.phase
          || not (eqb_ℤ consumer.spec.workflow_attempt a.workflow.workflow_attempt))
        not_current
  resolved ← passed_on (resolve_required_approval a consumer step operation.inputs)
  refuse (not (same_approval resolved operation.approval)) differs

unfoldable pub validate_step :
    AuthorityScene → UtilityRequest → Option StepConfig → Result OperationError (Unit {0})
validate_step a operation none = err absent_step
validate_step a operation (some step) =
    let bound = validate_binding a operation step in
    if is_none step.requires_approval
      && is_none operation.approval
      && not (operation.operation == "git.mergeRequest")
    then ok tt
    else if is_none step.requires_approval || is_none operation.approval
    then err needs_approval
    else if not (names_utility step.utility operation.operation)
    then err other_utility
    else bound

unfoldable pub validate_operation_approval :
    AuthorityScene → UtilityRequest → Result OperationError (Unit {0})
validate_operation_approval a operation =
    validate_step a operation (find_step a.steps operation.step_name)
