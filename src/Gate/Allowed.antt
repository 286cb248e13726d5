-- ===== src/Gate/Allowed.antt =====
-- What ValidateOperationApproval of internal/controllers/approval_binding.go lets run.
use sovereign_ai.Prelude.{
  ◌≡◌, ◌≢◌, ap, sym, ◌⊎◌, refl, Bool, true, false, not, ◌&&◌, ◌||◌, Bool-cases, Option-cases,
  Option, none, some, String, ◌==◌, eq_iff, arith, inl, inr, is_none, Result, ok, err, >>=-ok,
}
use sovereign_ai.Prelude.Int.{eqb_ℤ, eqb_ℤ_iff}
use sovereign_ai.Api.{uid_eq_iff, UidReference, ApprovalRequirement, StepConfig}
use sovereign_ai.State.{is_terminal}
use sovereign_ai.Steps.{find_step}
use sovereign_ai.Gate.{Attempt, Read, found, missing, failed_read}
use sovereign_ai.Gate.Authority.{AuthorityError, AuthorityScene, ResolvedApproval, fetched}
use sovereign_ai.Gate.Permission.{resolve_required_approval}
use sovereign_ai.Gate.Backing.{IsBacked}
use sovereign_ai.Gate.Backed.{resolved-IsBacked}
use sovereign_ai.Gate.Operation.{
  UtilityRequest, OperationError, not_current, differs, pin_eq, approval_eq, same_approval,
  names_utility, passed_on, refuse, validate_binding, validate_step, validate_operation_approval,
}

pin_eq_same : (a b : Option UidReference) → pin_eq a b ≡ true → a ≡ b
unfolding pin_eq
pin_eq_same none none h = refl
pin_eq_same none (some b) h = cc
pin_eq_same (some a) none h = cc
pin_eq_same (some a) (some b) h = let e = (uid_eq_iff a b).0 h in cc

approval_eq_same : (a b : ResolvedApproval) → approval_eq a b ≡ true → a ≡ b
unfolding approval_eq
approval_eq_same a b h =
    let e1 = eq_iff a.requirement.step b.requirement.step in
    let e2 = eq_iff a.requirement.subject b.requirement.subject in
    let e3 = uid_eq_iff a.request_ref b.request_ref in
    let e4 = uid_eq_iff a.decision_ref b.decision_ref in
    let e5 = eq_iff a.subject.name b.subject.name in
    let e6 = eq_iff a.subject.digest b.subject.digest in
    let e7 = pin_eq_same a.subject.artifact_ref b.subject.artifact_ref in
    let e8 = eq_iff a.subject.producer_attempt_ref b.subject.producer_attempt_ref in
    let e9 = eq_iff a.admission_event_id b.admission_event_id in ground arith

-- The operation needs no approval: its step requires none, it carries none, and it merges nothing.
pub record IsUnbound (a : AuthorityScene) (operation : UtilityRequest) : Type 0 where
  pub step : StepConfig
  pub of_workflow : find_step a.steps operation.step_name ≡ some step
  pub requires_none : step.requires_approval ≡ none
  pub carries_none : operation.approval ≡ none
  pub no_merge : operation.operation ≢ "git.mergeRequest"

-- The operation is the one that its step declares, its attempt is current, and the approval that it
-- carries is the one that the step requires.
pub record IsAllowed (a : AuthorityScene) (operation : UtilityRequest) : Type 0 where
  pub step : StepConfig
  pub consumer : Attempt
  pub approval : ResolvedApproval
  pub required : ApprovalRequirement
  pub of_workflow : find_step a.steps operation.step_name ≡ some step
  pub requires : step.requires_approval ≡ some required
  pub carries : operation.approval ≡ some approval
  pub declared : step.utility ≡ some operation.operation
  pub of_attempt : a.scene.attempts operation.attempt_ref ≡ found consumer
  pub unfinished : is_terminal consumer.phase ≡ false
  pub current : consumer.spec.workflow_attempt ≡ a.workflow.workflow_attempt
  pub backed : IsBacked a consumer required operation.inputs approval

refuse-ok : (b : Bool) (reason : OperationError) (u : Unit {0}) → refuse b reason ≡ ok u → b ≡ false
refuse-ok true reason u h = cc
refuse-ok false reason u h = refl

result_same :
    {A : Type 0} (x y : A)
    → ◌≡◌ {A = Result OperationError A} (ok x) (ok y)
    → ◌≡◌ {A = Result AuthorityError A} (ok x) (ok y)
result_same x y h = cc

passed_on-ok :
    {A : Type 0} (result : Result AuthorityError A) (a : A)
    → passed_on result ≡ ok a
    → result ≡ ok a
passed_on-ok (ok x) a h = result_same x a h
passed_on-ok (err reason) a h = cc

read_same : (x y : Attempt) → ◌≡◌ {A = Result AuthorityError Attempt} (ok x) (ok y) → x ≡ y
read_same x y h = cc

read-found : (read : Read Attempt) (a : Attempt) → fetched read ≡ ok a → read ≡ found a
read-found (found x) a h = ap found (read_same x a h)
read-found missing a h = cc
read-found (failed_read message) a h = cc

names_utility_same :
    (utility : Option String) (name : String)
    → names_utility utility name ≡ true
    → utility ≡ some name
names_utility_same none name h = cc
names_utility_same (some utility) name h = ap some ((eq_iff utility name).0 h)

same_approval-some :
    (resolved carried : Option ResolvedApproval)
    → same_approval resolved carried ≡ true
    → is_none carried ≡ false
    → (approval : ResolvedApproval) × (resolved ≡ some approval) × (carried ≡ some approval)
unfolding same_approval
same_approval-some none none h n = cc
same_approval-some none (some b) h n = cc
same_approval-some (some a) none h n = cc
same_approval-some (some a) (some b) h n = (a, refl, ap some (sym (approval_eq_same a b h)))

module _ (a : AuthorityScene) (operation : UtilityRequest) (step : StepConfig) (u : Unit {0}) where
  binding-IsAllowed :
      find_step a.steps operation.step_name ≡ some step
      → is_none operation.approval ≡ false
      → step.utility ≡ some operation.operation
      → validate_binding a operation step ≡ ok u
      → IsAllowed a operation
  unfolding validate_binding
  binding-IsAllowed of_workflow n declared h =
      let (consumer, c, h1) =
        >>=-ok (passed_on (fetched (a.scene.attempts operation.attempt_ref))) _ h in
      let stale =
        is_terminal consumer.phase
        || not (eqb_ℤ consumer.spec.workflow_attempt a.workflow.workflow_attempt) in
      let (v, e, h2) = >>=-ok (refuse stale not_current) _ h1 in
      let (resolved, r, h3) =
        >>=-ok (passed_on (resolve_required_approval a consumer step operation.inputs)) _ h2 in
      let fresh = refuse-ok stale not_current v e in
      let same = refuse-ok (not (same_approval resolved operation.approval)) differs u h3 in
      let (approval, is, carries) =
        same_approval-some resolved operation.approval (ground arith) n in
      let result =
        passed_on-ok (resolve_required_approval a consumer step operation.inputs) resolved r in
      let (required, requires, backed) =
        resolved-IsBacked a consumer step operation.inputs approval (rw is at result) in
      let now = eqb_ℤ_iff consumer.spec.workflow_attempt a.workflow.workflow_attempt in
      record {
        step = step;
        consumer = consumer;
        approval = approval;
        required = required;
        of_workflow = of_workflow;
        requires = requires;
        carries = carries;
        declared = declared;
        of_attempt =
            read-found (a.scene.attempts operation.attempt_ref) consumer
              (passed_on-ok (fetched (a.scene.attempts operation.attempt_ref)) consumer c);
        unfinished = ground arith;
        current = now.0 (ground arith);
        backed = backed;
      }

none_of : {A : Type 0} (o : Option A) → is_none o ≡ true → o ≡ none
none_of none h = refl
none_of (some a) h = cc

validate_step-IsAllowed :
    (a : AuthorityScene) (operation : UtilityRequest) (step : StepConfig) (u : Unit {0})
    → find_step a.steps operation.step_name ≡ some step
    → validate_step a operation (some step) ≡ ok u
    → IsUnbound a operation ⊎ IsAllowed a operation
unfolding validate_step
validate_step-IsAllowed a operation step u of_workflow h =
    let merge = eq_iff operation.operation "git.mergeRequest" in
    elim (Bool-cases (
      is_none step.requires_approval
      && is_none operation.approval
      && not (operation.operation == "git.mergeRequest"))) [
        | inl t ↦ inl (record {
          step = step;
          of_workflow = of_workflow;
          requires_none = none_of step.requires_approval (ground arith);
          carries_none = none_of operation.approval (ground arith);
          no_merge = λ e. absurd (ground arith);
        })
        | inr f ↦ elim (Bool-cases (is_none step.requires_approval || is_none operation.approval)) [
          | inl t ↦ absurd (ground arith)
          | inr g ↦ elim (Bool-cases (names_utility step.utility operation.operation)) [
            | inl n ↦ inr (
                binding-IsAllowed a operation step u of_workflow (ground arith)
                  (names_utility_same step.utility operation.operation n) (rw (f, g, n) at h))
            | inr d ↦ absurd (ground arith)
          ]
        ]
      ]

absent_refused :
    (a : AuthorityScene) (operation : UtilityRequest) (u : Unit {0})
    → validate_step a operation none ≡ ok u
    → ⊥
unfolding validate_step
absent_refused a operation u h = cc

-- An operation that validate_operation_approval accepts either carries no approval, is not
-- git.mergeRequest and has a step that requires none; or is the utility that its step declares, belongs
-- to an attempt that is not in a terminal phase and is of the workflow's current attempt, and carries
-- an approval that the step requires and that is backed by the reads of the scene: by the latest
-- attempt of the gate, its request, the decision "Approved" and the evidence.
pub validated-IsAllowed :
    (a : AuthorityScene) (operation : UtilityRequest) (u : Unit {0})
    → validate_operation_approval a operation ≡ ok u
    → IsUnbound a operation ⊎ IsAllowed a operation
unfolding validate_operation_approval
validated-IsAllowed a operation u h = elim (Option-cases (find_step a.steps operation.step_name)) [
  | inl n ↦ absurd (absent_refused a operation u (rw n at h))
  | inr (step, e) ↦ validate_step-IsAllowed a operation step u e (rw e at h)
]
