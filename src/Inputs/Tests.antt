-- ===== src/Inputs/Tests.antt =====
-- Input selection at concrete workflows, and the theorems there.
use sovereign_ai.Prelude.{
  ok, err, ℕ, ◌≡◌, ◌≢◌, ◌⊎◌, refl, true, false, [], ◌∷◌, Option, none, some, All, Elem, Paired,
  Distinct,
}
use sovereign_ai.Prelude.Int.{pos}
use sovereign_ai.Api.{phase_eq, ArtifactReference, Artifact, StepAttempt}
use sovereign_ai.Samples.{contract, canonical, input, gate, tested, report, pinned_report}
use sovereign_ai.Steps.{workflow_input_producer, step_index, producer_step}
use sovereign_ai.Artifacts.{artifact_accepted, not_found}
use sovereign_ai.Inputs.Types.{Workflow, Candidate, ambiguous, no_lineage}
use sovereign_ai.Inputs.Candidates.{restart_index, is_requested, input_candidate_for_artifact}
use sovereign_ai.Inputs.Candidates.Boundary.{IsRequested, IsProduced}
use sovereign_ai.Inputs.Scan.{scan, finish, newer_than, Scanned, nothing_scanned}
use sovereign_ai.Inputs.Scan.Newest.{Covers, Origin, scan_newest}
use sovereign_ai.Inputs.Lineage.{producer_of, pin_of}
use sovereign_ai.Inputs.Resolution.{IsResolved, resolve_step_inputs_sound, resolve_input-IsProduced}
use sovereign_ai.Inputs.{Scene, eligible, resolve_input, resolve_step_inputs}

-- The workflow in its first retry, which restarts at test-author.
abbrev retried : Workflow
retried = record {
  name = "wf";
  bootstrap_contract = contract "change-request";
  steps = canonical;
  bootstrap_artifact_ref = none;
  refinement = some (record { iteration = pos 1; restart_step = "test-author" });
}

-- The attempt of the step `review` in that retry.
abbrev reviewed : StepAttempt
reviewed = record tested {
  name = "wf-review-1";
  spec = record tested.spec { step_name = "review" };
}

-- An attempt and a report of the workflow's first run.
abbrev tested_before : StepAttempt
tested_before = record tested {
  name = "wf-test-candidate-0";
  spec = record tested.spec { workflow_attempt = pos 0 };
}

abbrev report_before : Artifact
report_before = record report {
  name = "report-0";
  uid = "uid-report-0";
  spec = record report.spec {
    producer_ref = record { kind = "StepAttempt"; name = "wf-test-candidate-0" };
  };
}

abbrev scene : Scene
scene = record {
  workflow = retried;
  consumer = reviewed;
  artifacts = report_before ∷ report ∷ [];
  attempts = tested_before ∷ tested ∷ reviewed ∷ [];
  get = λ name. not_found;
}

resolves : resolve_step_inputs scene gate ≡ ok (pinned_report ∷ [])
unfolding resolve_step_inputs resolve_input restart_index step_index workflow_input_producer scan
    finish is_requested input_candidate_for_artifact artifact_accepted newer_than phase_eq eligible
resolves = refl

resolves_one : resolve_input scene gate (some 0) (input "test-report") ≡ ok pinned_report
unfolding resolve_input step_index workflow_input_producer scan finish is_requested
    input_candidate_for_artifact artifact_accepted newer_than phase_eq eligible
resolves_one = refl

by_test_candidate : producer_of scene gate (some 0) (input "test-report") ≡ ok (producer_step 1)
unfolding workflow_input_producer step_index
by_test_candidate = refl

-- Two accepted reports of one attempt are ambiguous, and a retry needs its refinement.
refuses :
    (resolve_step_inputs (record scene { artifacts = report ∷ report ∷ [] }) gate
      ≡ err (ambiguous "test-report"))
    × (resolve_step_inputs (record scene { workflow = record retried { refinement = none } }) gate
        ≡ err no_lineage)
unfolding resolve_step_inputs resolve_input restart_index step_index workflow_input_producer scan
    finish is_requested input_candidate_for_artifact artifact_accepted newer_than phase_eq eligible
refuses = (refl, refl)

resolve_step_inputs_sound_example :
    (restart : Option ℕ) × ((gate.inputs ≡ [])
      ⊎ (restart_index scene.workflow scene.consumer ≡ ok restart))
    × All (λ (r : ArtifactReference). r.name ≢ "") gate.inputs
    × Distinct (λ (r : ArtifactReference). r.name) gate.inputs
    × Paired (IsResolved scene gate restart) gate.inputs (pinned_report ∷ [])
resolve_step_inputs_sound_example =
    resolve_step_inputs_sound scene gate (pinned_report ∷ []) resolves

resolve_input-IsProduced_example :
    (artifact : Artifact) × (candidate : Candidate) × Elem artifact scene.artifacts
    × (artifact_accepted artifact ≡ true)
    × IsRequested scene.consumer.spec.workflow_ref (input "test-report") artifact
    × IsProduced scene.workflow scene.consumer artifact scene.attempts 1 (some 0) candidate
    × (pinned_report ≡ pin_of (input "test-report") candidate)
resolve_input-IsProduced_example =
    resolve_input-IsProduced scene gate (some 0) (input "test-report") pinned_report 1
      by_test_candidate resolves_one

abbrev reviewable : Artifact → Option Candidate
reviewable = eligible scene (input "test-report") (producer_step 1) (some 0)

abbrev selected : Candidate
selected = record {
  artifact = report;
  producer_attempt_ref = "wf-test-candidate-1";
  workflow_attempt = pos 1;
  retry_number = pos 1;
}

abbrev scanned : Scanned
scanned = record { selected = some selected; pending = false; rejected = false }

scans : scan reviewable "test-report" nothing_scanned scene.artifacts ≡ ok scanned
unfolding scan is_requested input_candidate_for_artifact artifact_accepted newer_than phase_eq
    eligible
scans = refl

scan_newest_example :
    ((best : Candidate)
      → scanned.selected ≡ some best
      → Origin reviewable "test-report" scene.artifacts best
        × All
            (λ a.
              (c : Candidate)
              → reviewable a ≡ some c
              → artifact_accepted c.artifact ≡ true
              → Covers best c)
            scene.artifacts)
    × (scanned.selected ≡ none
        → All
            (λ a. (c : Candidate) → reviewable a ≡ some c → artifact_accepted c.artifact ≡ false)
            scene.artifacts)
scan_newest_example = scan_newest reviewable "test-report" scene.artifacts scanned scans
