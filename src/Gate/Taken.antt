-- ===== src/Gate/Taken.antt =====
-- resolveDecision of internal/controllers/approvalrequest_controller.go: what it reads where it lets a
-- request succeed.
use sovereign_ai.Prelude.{
  ◌≡◌, ◌≢◌, refl, true, false, Bool-cases, Option-cases, List, Option, none, some, String, ◌==◌,
  eq_iff, arith, inl, inr, ◌⊎◌, ap, sym, ◌∙◌,
}
use sovereign_ai.Prelude.Int.{eqb_ℤ_iff}
use sovereign_ai.Api.{awaiting_approval, succeeded, phase_eq, Artifact}
use sovereign_ai.State.{is_terminal}
use sovereign_ai.Gate.{
  Read, found, missing, failed_read, controlled_by, Attempt, ApprovalRequest, ApprovalDecision,
  Checked, authorized, waiting, unauthorized, attempt_error, approval_attempt, DecisionError,
  validate_approval_decision,
}
use sovereign_ai.Gate.Evidence.{
  Resolved, resolved, unready, refused, read_error, resolve_artifact_evidence,
}
use sovereign_ai.Gate.Granted.{IsBound, IsAuthority, check_attempt-IsAuthority, unbound_or}
use sovereign_ai.Gate.Request.{
  GateWorkflow, GateScene, changed, finish_approval, set_failed, take_decision, on_evidence,
  is_active_gate, on_workflow, on_checked, on_valid, on_read_decision, resolve_decision,
}

-- The workflow is live, and the attempt is its active gate.
pub record IsActive (r : ApprovalRequest) (a : Attempt) (w : GateWorkflow) : Type 0 where
  pub uid : w.meta.uid ≡ r.spec.workflow_ref.uid
  pub live : w.meta.deleting ≡ false
  pub running : is_terminal w.phase ≡ false
  pub controls : controlled_by a.meta.controller w.meta.uid ≡ true
  pub attempt : w.active_attempt_ref ≡ a.meta.name
  pub step : w.active_step_name ≡ a.spec.step_name
  pub number : w.workflow_attempt ≡ a.spec.workflow_attempt

-- The reads behind a request `r` that became `next`.
pub record IsGranted (scene : GateScene) (r next : ApprovalRequest) : Type 0 where
  pub decision : ApprovalDecision
  pub attempt : Attempt
  pub workflow : GateWorkflow
  pub evidence : List Artifact
  pub decided : scene.decisions (scene.decision_name r.meta.uid) ≡ found decision
  pub bound : IsBound r decision
  pub approved : decision.decision ≡ "Approved"
  pub attempted : scene.attempts r.spec.attempt_ref.name ≡ found attempt
  pub authority : IsAuthority r attempt
  pub driven : scene.workflows r.spec.workflow_ref.name ≡ found workflow
  pub active : IsActive r attempt workflow
  pub evident :
      resolve_artifact_evidence scene.libraries scene.artifacts r.spec.workflow_ref r.spec.inputs
      ≡ resolved evidence
  pub uid_recorded : next.status.decision_uid ≡ decision.meta.uid
  pub name_recorded : next.status.decision_ref ≡ decision.meta.name
  pub same_spec : next.spec ≡ r.spec
  pub same_meta : next.meta ≡ r.meta

pub changed_same : (a b : ApprovalRequest) → changed a ≡ changed b → a ≡ b
changed_same a b h = cc

pub set_failed-ne :
    (reason : String) (r next : ApprovalRequest)
    → set_failed reason r ≡ changed next
    → next.status.phase ≢ succeeded
unfolding set_failed finish_approval
set_failed-ne reason r next h s =
    let phase = ap (λ (x : ApprovalRequest). x.status.phase) (changed_same _ next h) in cc

is_active_gate-IsActive :
    (r : ApprovalRequest) (a : Attempt) (w : GateWorkflow)
    → is_active_gate r a w ≡ true
    → IsActive r a w
unfolding is_active_gate
is_active_gate-IsActive r a w h =
    let p = eq_iff w.meta.uid r.spec.workflow_ref.uid in
    let q = eq_iff w.active_attempt_ref a.meta.name in
    let s = eq_iff w.active_step_name a.spec.step_name in
    let n = eqb_ℤ_iff w.workflow_attempt a.spec.workflow_attempt in
    record {
      uid = ground arith;
      live = ground arith;
      running = ground arith;
      controls = ground arith;
      attempt = ground arith;
      step = ground arith;
      number = n.0 (ground arith);
    }

module _ (scene : GateScene) (r next : ApprovalRequest) (d : ApprovalDecision) where
  taken :
      take_decision scene r d ≡ changed next
      → next.status.phase ≡ succeeded
      → (d.decision ≢ "Denied")
        × (next.status.decision_uid ≡ d.meta.uid)
        × (next.status.decision_ref ≡ d.meta.name)
        × (next.spec ≡ r.spec)
        × (next.meta ≡ r.meta)
  unfolding take_decision finish_approval
  taken h s = elim (Option-cases scene.audit_error) [
    | inr (message, e) ↦ absurd (ground arith)
    | inl e ↦ elim (Bool-cases (d.decision == "Denied")) [
      | inl t ↦
          let same = changed_same _ next (rw (e, t) at h) in
          let phase = ap (λ (x : ApprovalRequest). x.status.phase) same in absurd (ground arith)
      | inr f ↦
          let same = changed_same _ next (rw (e, f) at h) in
          let x = eq_iff d.decision "Denied" in
          (
            (λ n. ground arith),
            sym (ap (λ (q : ApprovalRequest). q.status.decision_uid) same),
            sym (ap (λ (q : ApprovalRequest). q.status.decision_ref) same),
            sym (ap (λ (q : ApprovalRequest). q.spec) same),
            sym (ap (λ (q : ApprovalRequest). q.meta) same),
          )
    ]
  ]

  with_evidence :
      (found_evidence : Resolved (List Artifact))
      → on_evidence scene r d found_evidence ≡ changed next
      → (evidence : List Artifact) × (found_evidence ≡ resolved evidence)
        × (take_decision scene r d ≡ changed next)
  with_evidence (resolved evidence) h = (evidence, refl, h)
  with_evidence unready h = cc
  with_evidence (refused reason) h = cc
  with_evidence (read_error message) h = cc

  module _ (s : next.status.phase ≡ succeeded) where
    with_workflow :
        (a : Attempt) (read : Read GateWorkflow)
        → on_workflow scene r d a read ≡ changed next
        → (w : GateWorkflow) × (evidence : List Artifact) × (read ≡ found w)
          × IsActive r a w
          × (resolve_artifact_evidence scene.libraries scene.artifacts r.spec.workflow_ref
                r.spec.inputs
              ≡ resolved evidence)
          × (take_decision scene r d ≡ changed next)
    unfolding on_workflow
    with_workflow a missing h = absurd (set_failed-ne _ r next h s)
    with_workflow a (failed_read message) h = cc
    with_workflow a (found w) h = elim (Bool-cases (is_active_gate r a w)) [
      | inl t ↦
          let (evidence, e, k) = with_evidence _ (rw t at h) in
          (w, evidence, refl, is_active_gate-IsActive r a w t, e, k)
      | inr f ↦ absurd (set_failed-ne _ r next (rw f at h) s)
    ]

    with_attempt :
        (checked : Checked)
        → on_checked scene r d checked ≡ changed next
        → (a : Attempt) × (checked ≡ authorized a)
          × (on_workflow scene r d a (scene.workflows r.spec.workflow_ref.name) ≡ changed next)
    unfolding on_checked
    with_attempt (authorized a) h = (a, refl, h)
    with_attempt waiting h = absurd (set_failed-ne _ r next h s)
    with_attempt unauthorized h = absurd (set_failed-ne _ r next h s)
    with_attempt (attempt_error message) h = cc

    with_valid :
        (reason : Option DecisionError)
        → on_valid scene r d reason ≡ changed next
        → (reason ≡ none)
          × (on_checked scene r d (approval_attempt scene.attempts r) ≡ changed next)
    unfolding on_valid
    with_valid none h = (refl, h)
    with_valid (some reason) h = absurd (set_failed-ne _ r next h s)

read_attempt :
    (get : String → Read Attempt) (r : ApprovalRequest) (a : Attempt)
    → approval_attempt get r ≡ authorized a
    → (get r.spec.attempt_ref.name ≡ found a) × IsAuthority r a
unfolding approval_attempt
read_attempt get r a h = from (get r.spec.attempt_ref.name) refl h
  where
    from :
        (read : Read Attempt)
        → get r.spec.attempt_ref.name ≡ read
        → approval_attempt get r ≡ authorized a
        → (get r.spec.attempt_ref.name ≡ found a) × IsAuthority r a
    from (found b) e h =
        let (same, authority) = check_attempt-IsAuthority r b a (rw (e, approval_attempt) at h) in
        (e ∙ ap found same, rw same at authority)
    from missing e h = let k = rw (e, approval_attempt) at h in cc
    from (failed_read message) e h = let k = rw (e, approval_attempt) at h in cc

approved_of :
    (d : ApprovalDecision)
    → (d.decision ≡ "Approved") ⊎ (d.decision ≡ "Denied")
    → d.decision ≢ "Denied"
    → d.decision ≡ "Approved"
approved_of d (inl e) n = e
approved_of d (inr e) n = absurd (n e)

decided :
    (scene : GateScene) (r next : ApprovalRequest) (read : Read ApprovalDecision)
    → next.status.phase ≡ succeeded
    → scene.decisions (scene.decision_name r.meta.uid) ≡ read
    → on_read_decision scene r read ≡ changed next
    → IsGranted scene r next
unfolding on_read_decision
decided scene r next missing s e h = absurd (ground arith)
decided scene r next (failed_read message) s e h = absurd (ground arith)
decided scene r next (found d) s e h =
    let (v, h) = with_valid scene r next d s (validate_approval_decision scene.blank r d) h in
    let (a, c, h) = with_attempt scene r next d s (approval_attempt scene.attempts r) h in
    let (there, authority) = read_attempt scene.attempts r a c in
    let (w, evidence, e', active, evident, h) =
      with_workflow scene r next d s a (scene.workflows r.spec.workflow_ref.name) h in
    let (not_denied, same_uid, same_name, same_spec, same_meta) = taken scene r next d h s in
    let (bound, choice) = unbound_or scene.blank r d v in
    record {
      decision = d;
      attempt = a;
      workflow = w;
      evidence = evidence;
      decided = e;
      bound = bound;
      approved = approved_of d choice not_denied;
      attempted = there;
      authority = authority;
      driven = e';
      active = active;
      evident = evident;
      uid_recorded = same_uid;
      name_recorded = same_name;
      same_spec = same_spec;
      same_meta = same_meta;
    }

-- A request that resolveDecision lets succeed has an approved decision and a live authority.
pub resolve_decision-IsGranted :
    (scene : GateScene) (r next : ApprovalRequest)
    → resolve_decision scene r ≡ changed next
    → next.status.phase ≡ succeeded
    → IsGranted scene r next
unfolding resolve_decision
resolve_decision-IsGranted scene r next h s =
    elim (Bool-cases (phase_eq r.status.phase awaiting_approval)) [
      | inl t ↦
          decided scene r next (scene.decisions (scene.decision_name r.meta.uid)) s refl (rw t at h)
      | inr f ↦ absurd (ground arith)
    ]
