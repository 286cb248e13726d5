-- ===== src/Gate/Tested.antt =====
-- What the tests of ResolveRequiredApproval of internal/controllers/approval_binding.go on the gate,
-- its request and the decision tell.
use sovereign_ai.Prelude.{
  ◌≡◌, refl, Bool, not, ◌||◌, Bool-cases, Option, none, some, String, ◌==◌, eq_iff, arith, inl, inr,
  Result, ok, ap, sym, true, false,
}
use sovereign_ai.Api.{human_gate, succeeded, phase_eq, phase_eq_iff, uid_eq_iff}
use sovereign_ai.Gate.{
  Attempt, ExecutionReference, ApprovalRequest, ApprovalDecision, validate_approval_decision,
  DecisionError, controlled_by, kind_name, group_version,
}
use sovereign_ai.Gate.Request.{GateWorkflow}
use sovereign_ai.Gate.Authority.{
  gate_with, AuthorityError, gate_execution, check_request, check_decision, valid_decision,
}
use sovereign_ai.Gate.Backing.{both_hold}

-- What the tests on a decision tell.
pub checked_decision :
    (blank : String → Bool) (request : ApprovalRequest) (decision : ApprovalDecision) (u : Unit {0})
    → check_decision blank request decision ≡ ok u
    → (decision.meta.uid ≡ request.status.decision_uid)
      × (decision.decision ≡ "Approved")
      × (validate_approval_decision blank request decision ≡ none)
unfolding check_decision
checked_decision blank request decision u h =
    elim (Bool-cases (
      not (decision.meta.uid == request.status.decision_uid)
      || not (decision.decision == "Approved"))) [
        | inl t ↦ absurd (ground arith)
        | inr f ↦
            let (uid, choice) =
              both_hold (decision.meta.uid == request.status.decision_uid)
                (decision.decision == "Approved") f in
            (
              (eq_iff decision.meta.uid request.status.decision_uid).0 uid,
              (eq_iff decision.decision "Approved").0 choice,
              valid (validate_approval_decision blank request decision) (rw f at h),
            )
      ]
  where
    valid : (reason : Option DecisionError) → valid_decision reason ≡ ok u → reason ≡ none
    valid none k = refl
    valid (some reason) k = cc

-- What the tests on the gate's request tell.
pub checked_request :
    (gate : Attempt) (request : ApprovalRequest) (u : Unit {0})
    → check_request gate request ≡ ok u
    → (request.meta.deleting ≡ false)
      × (request.status.phase ≡ succeeded)
      × (request.spec.attempt_ref ≡ record { name = gate.meta.name; uid = gate.meta.uid })
unfolding check_request
checked_request gate request u h =
    let phase = phase_eq_iff request.status.phase succeeded in
    let ref =
      uid_eq_iff request.spec.attempt_ref (record { name = gate.meta.name; uid = gate.meta.uid }) in
    (ground arith, ground arith, ground arith)

gate_same :
    (x y : Attempt × ExecutionReference)
    → ◌≡◌ {A = Result AuthorityError (Attempt × ExecutionReference)} (ok x) (ok y)
    → y ≡ x
gate_same x y h = cc

-- The execution of a gate goes with the gate.
gate_with-ok :
    (chosen : Attempt) (execution : Option ExecutionReference) (gate : Attempt × ExecutionReference)
    → gate_with chosen execution ≡ ok gate
    → (gate.0 ≡ chosen) × (execution ≡ some gate.1)
gate_with-ok chosen none gate h = cc
gate_with-ok chosen (some execution) gate h =
    elim (Bool-cases
      (not (execution.kind == "ApprovalRequest") || not (execution.api_version == group_version))) [
        | inl t ↦ absurd (ground arith)
        | inr f ↦
            let same = gate_same (chosen, execution) gate (rw f at h) in
            (
              ap (λ (x : Attempt × ExecutionReference). x.0) same,
              ap (λ (x : Attempt × ExecutionReference). some x.1) (sym same),
            )
      ]

-- A live human gate of the workflow that succeeded.
pub record IsPassed (workflow : GateWorkflow) (gate : Attempt) : Type 0 where
  pub passed : gate.phase ≡ succeeded
  pub live : gate.meta.deleting ≡ false
  pub is_gate : kind_name gate.spec.kind ≡ "HumanGate"
  pub controlled : controlled_by gate.meta.controller workflow.meta.uid ≡ true

-- What the tests on the gate tell.
pub checked_gate :
    (workflow : GateWorkflow) (latest : Option Attempt) (gate : Attempt × ExecutionReference)
    → gate_execution workflow latest ≡ ok gate
    → (latest ≡ some gate.0) × IsPassed workflow gate.0 × (gate.0.execution_ref ≡ some gate.1)
unfolding gate_execution
checked_gate workflow none gate h = cc
checked_gate workflow (some chosen) gate h =
    elim (Bool-cases (
      chosen.meta.uid == ""
      || chosen.meta.deleting
      || not (phase_eq chosen.phase succeeded)
      || not (kind_name chosen.spec.kind == kind_name human_gate)
      || not (controlled_by chosen.meta.controller workflow.meta.uid))) [
        | inl t ↦ absurd (ground arith)
        | inr f ↦
            let phase = phase_eq_iff chosen.phase succeeded in
            let (same, execution) = gate_with-ok chosen chosen.execution_ref gate (rw f at h) in
            let is = eq_iff (kind_name chosen.spec.kind) "HumanGate" in
            let passed : IsPassed workflow chosen = record {
              passed = phase.0 (ground arith);
              live = ground arith;
              is_gate = is.0 (ground arith);
              controlled = ground arith;
            } in
            (ap some (sym same), rw same passed, rw same execution)
      ]
