-- ===== src/Gate/Kept.antt =====
-- What every update of internal/controllers/approvalrequest_controller.go leaves as it is.
use sovereign_ai.Prelude.{
  ◌≡◌, refl, Bool-cases, Option-cases, List, Option, none, some, String, ◌==◌, arith, inl, inr,
}
use sovereign_ai.Api.{awaiting_approval, phase_eq, Artifact}
use sovereign_ai.Gate.{
  Read, found, missing, failed_read, Attempt, ApprovalRequest, ApprovalDecision, Checked,
  authorized, waiting, unauthorized, attempt_error, approval_attempt, DecisionError,
  validate_approval_decision,
}
use sovereign_ai.Gate.Evidence.{Resolved, resolved, unready, refused, read_error}
use sovereign_ai.Gate.Taken.{changed_same}
use sovereign_ai.Gate.Request.{
  GateWorkflow, GateScene, changed, finish_approval, set_failed, set_awaiting, take_decision,
  on_evidence, is_active_gate, on_workflow, on_checked, on_valid, on_read_decision,
  resolve_decision,
}

-- A write keeps the metadata and the spec.
abbrev pub Keeps : ApprovalRequest → ApprovalRequest → Type 0
Keeps r next = (next.meta ≡ r.meta) × (next.spec ≡ r.spec)

changed-Keeps : (r a next : ApprovalRequest) → Keeps r a → changed a ≡ changed next → Keeps r next
changed-Keeps r a next k h = rw (← changed_same a next h) k

pub set_failed-Keeps :
    (reason : String) (r next : ApprovalRequest) → set_failed reason r ≡ changed next → Keeps r next
unfolding set_failed finish_approval
set_failed-Keeps reason r next h = changed-Keeps r _ next (refl, refl) h

pub set_awaiting-Keeps : (r next : ApprovalRequest) → set_awaiting r ≡ changed next → Keeps r next
unfolding set_awaiting
set_awaiting-Keeps r next h = elim (Bool-cases (phase_eq r.status.phase awaiting_approval)) [
  | inl t ↦ absurd (ground arith)
  | inr f ↦ changed-Keeps r _ next (refl, refl) (rw f at h)
]

module _ (scene : GateScene) (r next : ApprovalRequest) (d : ApprovalDecision) where
  take_decision-Keeps : take_decision scene r d ≡ changed next → Keeps r next
  unfolding take_decision finish_approval
  take_decision-Keeps h = elim (Option-cases scene.audit_error) [
    | inr (message, e) ↦ absurd (ground arith)
    | inl e ↦ elim (Bool-cases (d.decision == "Denied")) [
      | inl t ↦ changed-Keeps r _ next (refl, refl) (rw (e, t) at h)
      | inr f ↦ changed-Keeps r _ next (refl, refl) (rw (e, f) at h)
    ]
  ]

  on_evidence-Keeps :
      (evidence : Resolved (List Artifact))
      → on_evidence scene r d evidence ≡ changed next
      → Keeps r next
  on_evidence-Keeps (resolved evidence) h = take_decision-Keeps h
  on_evidence-Keeps unready h = cc
  on_evidence-Keeps (refused reason) h = cc
  on_evidence-Keeps (read_error message) h = cc

  on_workflow-Keeps :
      (a : Attempt) (read : Read GateWorkflow)
      → on_workflow scene r d a read ≡ changed next
      → Keeps r next
  unfolding on_workflow
  on_workflow-Keeps a missing h = set_failed-Keeps _ r next h
  on_workflow-Keeps a (failed_read message) h = cc
  on_workflow-Keeps a (found w) h = elim (Bool-cases (is_active_gate r a w)) [
    | inl t ↦ on_evidence-Keeps _ (rw t at h)
    | inr f ↦ set_failed-Keeps _ r next (rw f at h)
  ]

  on_checked-Keeps :
      (checked : Checked) → on_checked scene r d checked ≡ changed next → Keeps r next
  unfolding on_checked
  on_checked-Keeps (authorized a) h = on_workflow-Keeps a _ h
  on_checked-Keeps waiting h = set_failed-Keeps _ r next h
  on_checked-Keeps unauthorized h = set_failed-Keeps _ r next h
  on_checked-Keeps (attempt_error message) h = cc

  on_valid-Keeps :
      (reason : Option DecisionError) → on_valid scene r d reason ≡ changed next → Keeps r next
  unfolding on_valid
  on_valid-Keeps none h = on_checked-Keeps (approval_attempt scene.attempts r) h
  on_valid-Keeps (some reason) h = set_failed-Keeps _ r next h

on_read_decision-Keeps :
    (scene : GateScene) (r next : ApprovalRequest) (read : Read ApprovalDecision)
    → on_read_decision scene r read ≡ changed next
    → Keeps r next
unfolding on_read_decision
on_read_decision-Keeps scene r next missing h = absurd (ground arith)
on_read_decision-Keeps scene r next (failed_read message) h = absurd (ground arith)
on_read_decision-Keeps scene r next (found d) h =
    on_valid-Keeps scene r next d (validate_approval_decision scene.blank r d) h

pub resolve_decision-Keeps :
    (scene : GateScene) (r next : ApprovalRequest)
    → resolve_decision scene r ≡ changed next
    → Keeps r next
unfolding resolve_decision
resolve_decision-Keeps scene r next h =
    elim (Bool-cases (phase_eq r.status.phase awaiting_approval)) [
      | inl t ↦
          on_read_decision-Keeps scene r next (scene.decisions (scene.decision_name r.meta.uid))
            (rw t at h)
      | inr f ↦ absurd (ground arith)
    ]
