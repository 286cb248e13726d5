-- ===== src/Gate/Backed.antt =====
-- Every approval that ResolveRequiredApproval of internal/controllers/approval_binding.go resolves.
use sovereign_ai.Prelude.{
  ◌≡◌, true, false, not, ◌||◌, Bool-cases, List, Option, none, some, ◌==◌, inl, inr, Result, ok,
  >>=-ok, eq_iff, ap, refl, arith, Elem, All,
}
use sovereign_ai.Prelude.Int.{eqb_ℤ_iff}
use sovereign_ai.Api.{uid_eq_iff, succeeded, ArtifactReference, ApprovalRequirement, StepConfig}
use sovereign_ai.Approval.{validate_approval_requirements}
use sovereign_ai.Gate.{
  controlled_by, found, ExecutionReference, Attempt, ApprovalRequest, ApprovalDecision,
}
use sovereign_ai.Gate.Admitted.{IsNotLater, chosen_gate}
use sovereign_ai.Gate.Backing.{IsBacked, fetched-ok, pinned-Pins, bound_parts}
use sovereign_ai.Gate.Tested.{IsPassed, checked_decision, checked_request, checked_gate}
use sovereign_ai.Gate.Granted.{unbound_or}
use sovereign_ai.Gate.Authority.{
  is_gate_attempt, AuthorityError, AuthorityScene, ResolvedApproval, latest_gate, gate_execution,
  check_request, check_decision, called, fetched,
}
use sovereign_ai.Gate.Permission.{
  pinned_approval_subject, admit_decision, admit_request, authorize, resolve_required_approval,
  for_requirement, requirements_hold,
}

gate_is :
    (consumer : Attempt) (required : ApprovalRequirement) (gate : Attempt)
    → is_gate_attempt consumer required gate ≡ true
    → (gate.spec.workflow_ref ≡ consumer.spec.workflow_ref)
      × (gate.spec.step_name ≡ required.step)
      × (gate.spec.workflow_attempt ≡ consumer.spec.workflow_attempt)
unfolding is_gate_attempt
gate_is consumer required gate t =
    let a = uid_eq_iff gate.spec.workflow_ref consumer.spec.workflow_ref in
    let b = eq_iff gate.spec.step_name required.step in
    let c = eqb_ℤ_iff gate.spec.workflow_attempt consumer.spec.workflow_attempt in
    (a.0 (ground arith), b.0 (ground arith), c.0 (ground arith))

module _ (a : AuthorityScene) (consumer : Attempt) (required : ApprovalRequirement)
    (inputs : List ArtifactReference) (approval : ResolvedApproval) where
  -- What the gate alone tells.
  abbrev IsGate : Attempt → Type 0
  IsGate gate =
      Elem gate a.attempts
      × (is_gate_attempt consumer required gate ≡ true)
      × All (IsNotLater consumer required gate) a.attempts
      × IsPassed a.workflow gate

  -- The request is read under the name of the gate's execution.
  abbrev IsRequested : Attempt → ApprovalRequest → Type 0
  IsRequested gate request =
      (execution : ExecutionReference) × (gate.execution_ref ≡ some execution)
      × (a.requests execution.name ≡ found request)

  -- The consumer is of the workflow.
  abbrev IsConsumer : Type 0
  IsConsumer =
      (a.workflow.meta.uid ≡ consumer.spec.workflow_ref.uid)
      × (controlled_by consumer.meta.controller a.workflow.meta.uid ≡ true)

  decided-IsBacked :
      (gate : Attempt) (request : ApprovalRequest) (decision : ApprovalDecision)
      → IsConsumer
      → IsGate gate
      → IsRequested gate request
      → request.meta.deleting ≡ false
      → a.scene.decisions request.status.decision_ref ≡ found decision
      → request.status.phase ≡ succeeded
      → request.spec.attempt_ref ≡ record { name = gate.meta.name; uid = gate.meta.uid }
      → admit_decision a consumer required inputs request decision ≡ ok approval
      → IsBacked a consumer required inputs approval
  unfolding admit_decision
  decided-IsBacked gate request decision (belongs, owned) (m, is, later, passed)
        (execution, executed, requested) live decided granted ref h =
      let (u, checked, h1) = >>=-ok (check_decision a.scene.blank request decision) _ h in
      let (reviewed, r, h2) =
        >>=-ok (pinned_approval_subject request.spec.inputs required.subject) _ h1 in
      let (operated, o, h3) = >>=-ok (pinned_approval_subject inputs required.subject) _ h2 in
      let (uid, choice, valid) = checked_decision a.scene.blank request decision u checked in
      let (
        pins, digests, reviews, operates, subject, names_required, names_request, names_decision,
      ) =
        bound_parts a consumer required inputs approval request decision reviewed operated h3 in
      let (w, s, n) = gate_is consumer required gate is in
      record {
        gate = gate;
        request = request;
        decision = decision;
        execution = execution;
        pin = reviewed.pin;
        digest = reviewed.reference.digest;
        consumer_workflow = belongs;
        consumer_controlled = owned;
        among = m;
        of_workflow = w;
        of_step = s;
        of_iteration = n;
        latest = later;
        gate_succeeded = passed.passed;
        gate_live = passed.live;
        gate_kind = passed.is_gate;
        gate_controlled = passed.controlled;
        executed = executed;
        requested = requested;
        decided = decided;
        of_gate = ref;
        request_live = live;
        request_succeeded = granted;
        bound = (unbound_or a.scene.blank request decision valid).0;
        approved = choice;
        recorded = uid;
        reviewed = pinned-Pins request.spec.inputs required.subject reviewed r;
        operated = rw (pins, digests) (pinned-Pins inputs required.subject operated o);
        review_evidence = reviews;
        operation_evidence = operates;
        names_subject = (ap (λ (r : ArtifactReference). r.digest) subject, names_required);
        names_request = names_request;
        names_decision = names_decision;
      }

  requested-IsBacked :
      (gate : Attempt) (request : ApprovalRequest)
      → IsConsumer
      → IsGate gate
      → IsRequested gate request
      → admit_request a consumer required inputs gate request ≡ ok approval
      → IsBacked a consumer required inputs approval
  unfolding admit_request
  requested-IsBacked gate request of is requested h =
      let (u, checked, h1) = >>=-ok (check_request gate request) _ h in
      let (decision, r, h2) =
        >>=-ok (fetched (a.scene.decisions request.status.decision_ref)) _ h1 in
      let (live, granted, ref) = checked_request gate request u checked in
      decided-IsBacked gate request decision of is requested live
        (fetched-ok (a.scene.decisions request.status.decision_ref) decision r) granted ref h2

  authorized-IsBacked :
      IsConsumer
      → authorize a consumer required inputs ≡ ok approval
      → IsBacked a consumer required inputs approval
  unfolding authorize
  authorized-IsBacked of h =
      let (u, listed, h1) = >>=-ok (called a.list_error) _ h in
      let (latest, l, h2) = >>=-ok (latest_gate consumer required a.attempts none) _ h1 in
      let (gate, g, h3) = >>=-ok (gate_execution a.workflow latest) _ h2 in
      let (request, r, h4) = >>=-ok (fetched (a.requests gate.1.name)) _ h3 in
      let (same, passed, executed) = checked_gate a.workflow latest gate g in
      let (m, is, later) = chosen_gate consumer required a.attempts gate.0 (rw same at l) in
      requested-IsBacked gate.0 request of (m, is, later, passed)
        (gate.1, executed, fetched-ok (a.requests gate.1.name) request r) h4

ok_same :
    (x y : Option ResolvedApproval)
    → ◌≡◌ {A = Result AuthorityError (Option ResolvedApproval)} (ok x) (ok y)
    → x ≡ y
ok_same x y h = cc

some_same : (x y : ResolvedApproval) → some x ≡ some y → x ≡ y
some_same x y h = cc

required-IsBacked :
    (a : AuthorityScene) (consumer : Attempt) (inputs : List ArtifactReference)
    (requirement : Option ApprovalRequirement) (approval : ResolvedApproval)
    → for_requirement a consumer inputs requirement ≡ ok (some approval)
    → (required : ApprovalRequirement) × (requirement ≡ some required)
      × IsBacked a consumer required inputs approval
unfolding for_requirement
required-IsBacked a consumer inputs none approval h = cc
required-IsBacked a consumer inputs (some required) approval h =
    elim (Bool-cases (
      not (a.workflow.meta.uid == consumer.spec.workflow_ref.uid)
      || not (a.workflow.meta.name == consumer.spec.workflow_ref.name)
      || not (controlled_by consumer.meta.controller a.workflow.meta.uid))) [
        | inl t ↦ absurd (ground arith)
        | inr f ↦
            let (answer, authorized, k) =
              >>=-ok (authorize a consumer required inputs) _ (rw f at h) in
            let belongs = eq_iff a.workflow.meta.uid consumer.spec.workflow_ref.uid in
            let same = some_same answer approval (ok_same (some answer) (some approval) k) in
            (
              required,
              refl,
              authorized-IsBacked a consumer required inputs approval
                  (belongs.0 (ground arith), ground arith) (rw same at authorized),
            )
      ]

-- Where resolve_required_approval gives an approval, the step requires one, for that requirement, and
-- the consumer is of the workflow that controls it; behind the approval stand the latest attempt of
-- the gate, a live human gate that the workflow controls and that succeeded, the live and succeeded
-- request that is read under the name of its execution, the decision that is read under the name in
-- that request and grants it, and a subject with accepted evidence that both the review and the
-- operation pin.
pub resolved-IsBacked :
    (a : AuthorityScene) (consumer : Attempt) (step : StepConfig) (inputs : List ArtifactReference)
    (approval : ResolvedApproval)
    → resolve_required_approval a consumer step inputs ≡ ok (some approval)
    → (required : ApprovalRequirement) × (step.requires_approval ≡ some required)
      × IsBacked a consumer required inputs approval
unfolding resolve_required_approval
resolved-IsBacked a consumer step inputs approval h =
    let (u, hold, k) = >>=-ok (requirements_hold (validate_approval_requirements a.steps)) _ h in
    required-IsBacked a consumer inputs step.requires_approval approval k
