-- ===== src/Gate/Tests.antt =====
-- A gate that a reviewer approves.
use sovereign_ai.Prelude.{◌≡◌, refl, true, false, List, [], ◌∷◌, Option, none, some, String, ◌==◌}
use sovereign_ai.Prelude.Int.{pos}
use sovereign_ai.Api.{
  awaiting_approval, running, succeeded, phase_eq, human_gate, ArtifactReference,
}
use sovereign_ai.Samples.{report, workflow_ref}
use sovereign_ai.State.{is_terminal}
use sovereign_ai.Artifacts.{found, resolve_pinned_input, artifact_accepted}
use sovereign_ai.Claims.{Libraries, validate_claims, claims_absent}
use sovereign_ai.Gate
use sovereign_ai.Gate.{
  Meta, Attempt, ApprovalRequest, ApprovalDecision, approval_attempt, validate_approval_decision,
  Owner, group_version,
}
use sovereign_ai.Gate.Evidence.{resolve_artifact_evidence, resolve_one, check_artifact}
use sovereign_ai.Gate.Kept.{Keeps}
use sovereign_ai.Gate.Taken.{IsGranted}
use sovereign_ai.Gate.Runs.{written, Run, start, followed_by, Run-IsGranted, Run-same}
use sovereign_ai.Gate.Request.{
  GateScene, GateWorkflow, finish_approval, reconcile_approval, resolve_decision,
  update_approval_status, take_decision, is_active_gate, on_workflow, on_checked, on_valid,
  on_read_decision, changed, update,
}

abbrev meta_of : String → String → Option Owner → Meta
meta_of name uid controller = record {
  name = name;
  uid = uid;
  generation = pos 1;
  deleting = false;
  controller = controller;
}

abbrev pub attempt : Attempt
attempt = record {
  meta = meta_of "wf-review-1" "uid-review-1" (
      some (record {
        api_version = group_version;
        kind = "SovereignWorkflow";
        name = workflow_ref.name;
        uid = workflow_ref.uid;
      }));
  spec = record {
    workflow_ref = workflow_ref;
    step_name = "review";
    retry_number = pos 1;
    workflow_attempt = pos 1;
    kind = human_gate;
  };
  phase = running;
  execution_ref =
      some (record { api_version = group_version; kind = "ApprovalRequest"; name = "wf-review-1" });
}

abbrev pub pinned : ArtifactReference
pinned = record {
  name = "test-report";
  digest = "sha256:1";
  artifact_ref = some (record { name = "report-1"; uid = "uid-report-1" });
  producer_attempt_ref = "";
}

abbrev request : ApprovalRequest
request = record {
  meta = meta_of "wf-review-1" "uid-request-1" (
      some (record {
        api_version = group_version;
        kind = "StepAttempt";
        name = "wf-review-1";
        uid = "uid-review-1";
      }));
  spec = record {
    attempt_ref = record { name = "wf-review-1"; uid = "uid-review-1" };
    workflow_ref = workflow_ref;
    step_name = "review";
    attempt = pos 1;
    approval = record {
      mode = "AnyOf";
      required_groups = "reviewers" ∷ [];
      deny_behavior = "Fail";
    };
    inputs = pinned ∷ [];
  };
  status = record {
    decision_uid = "";
    observed_generation = pos 1;
    phase = awaiting_approval;
    decision_ref = "";
    failure_reason = "";
    retryable = false;
    started = true;
    completed = false;
  };
}

abbrev decision : ApprovalDecision
decision = record {
  meta = meta_of "decision-1" "uid-decision-1" (
      some (record {
        api_version = group_version;
        kind = "ApprovalRequest";
        name = "wf-review-1";
        uid = "uid-request-1";
      }));
  workflow_ref = workflow_ref;
  step_attempt_ref = record { name = "wf-review-1"; uid = "uid-review-1" };
  approval_request_ref = record { name = "wf-review-1"; uid = "uid-request-1" };
  decision = "Approved";
  authored = true;
  subject_id = "alice";
  groups = "staff" ∷ "reviewers" ∷ [];
}

abbrev pub workflow : GateWorkflow
workflow = record {
  meta = meta_of workflow_ref.name workflow_ref.uid none;
  phase = running;
  active_attempt_ref = "wf-review-1";
  active_step_name = "review";
  workflow_attempt = pos 1;
}

abbrev libraries : Libraries
libraries = record {
  matches = λ p s. true;
  parse_url = λ s. none;
  is_timestamp = λ s. true;
  cut_heads = λ s. none;
  digest_of_set = λ l. "";
}

abbrev pub scene : GateScene
scene = record {
  attempts = λ name. Gate.found attempt;
  decisions = λ name. Gate.found decision;
  workflows = λ name. Gate.found workflow;
  artifacts = record { get = λ name. found report; list = some (report ∷ []) };
  libraries = libraries;
  blank = λ s. s == "";
  decision_name = λ uid. uid;
  audit_error = none;
}

abbrev pub granted : ApprovalRequest
granted =
    finish_approval
      (record request { status = record request.status { decision_uid = "uid-decision-1" } })
      succeeded "ApprovalGranted" "decision-1"

reconcile_runs : reconcile_approval scene false request ≡ update (resolve_decision scene)
unfolding reconcile_approval is_terminal phase_eq
reconcile_runs = refl

update_runs : update_approval_status request (resolve_decision scene) request ≡ changed granted
unfolding update_approval_status resolve_decision on_read_decision on_valid on_checked on_workflow
    take_decision is_active_gate approval_attempt validate_approval_decision
    resolve_artifact_evidence finish_approval is_terminal phase_eq resolve_one check_artifact
    resolve_pinned_input validate_claims claims_absent artifact_accepted
update_runs = refl

granted-Run : Run (scene ∷ []) request granted
granted-Run =
    followed_by start (written false request (resolve_decision scene) reconcile_runs update_runs)

granted_phase : granted.status.phase ≡ succeeded
unfolding finish_approval
granted_phase = refl

Run-IsGranted_example :
    (last : GateScene) × (earlier : List GateScene) × (before : ApprovalRequest) × (◌≡◌
      {A = List GateScene}
      (scene ∷ [])
      (last ∷ earlier))
    × Run earlier request before
    × Keeps request before
    × IsGranted last before granted
Run-IsGranted_example =
    Run-IsGranted (scene ∷ []) request granted granted-Run (λ e. cc) granted_phase

granted_terminal : is_terminal granted.status.phase ≡ true
unfolding finish_approval is_terminal
granted_terminal = refl

Run-same_example : granted ≡ granted
Run-same_example = Run-same [] granted granted start granted_terminal
