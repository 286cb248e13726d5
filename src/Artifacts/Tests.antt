-- ===== src/Artifacts/Tests.antt =====
-- Accepted artifacts and pinned inputs at concrete values, and the theorems there.
use sovereign_ai.Prelude.{◌≡◌, ◌↔◌, refl, true, false, none, some, String, ◌==◌, if◌then◌else◌}
use sovereign_ai.Prelude.Int.{pos}
use sovereign_ai.Samples.{workflow_ref, report, pinned_report}
use sovereign_ai.Api.{
  succeeded, failed, phase_eq, condition_true, Condition, UidReference, Artifact,
}
use sovereign_ai.Artifacts.{
  artifact_accepted, Fetched, found, not_found, ready, not_ready, invalid, rejected,
  digest_mismatch, resolve_pinned_input,
}
use sovereign_ai.Artifacts.Pins.{IsPinned, artifact_accepted_iff, resolve_pinned_input_iff}

abbrev get : String → Fetched
get name = if name == "report-1" then found report else not_found

abbrev stale : Artifact
stale = record report { generation = pos 2 }

abbrev refused : Artifact
refused = record report {
  status = record { observed_generation = pos 1; phase = failed; valid = none };
}

accepts : (artifact_accepted report ≡ true) × (artifact_accepted stale ≡ false)
unfolding artifact_accepted phase_eq
accepts = (refl, refl)

pins :
    (resolve_pinned_input get workflow_ref pinned_report ≡ ready report)
    × (resolve_pinned_input (λ _. found stale) workflow_ref pinned_report ≡ not_ready)
    × (resolve_pinned_input (λ _. found refused) workflow_ref pinned_report ≡ invalid rejected)
    × (resolve_pinned_input get workflow_ref (record pinned_report { digest = "" })
        ≡ invalid digest_mismatch)
unfolding resolve_pinned_input artifact_accepted phase_eq
pins = (refl, refl, refl, refl)

artifact_accepted_iff_example : (artifact_accepted report ≡ true) ↔ (
    (report.status.phase ≡ succeeded)
    × (report.status.observed_generation ≡ report.generation)
    × ((valid : Condition) × (report.status.valid ≡ some valid)
        × (valid.status ≡ condition_true)
        × (valid.observed_generation ≡ report.generation)))
artifact_accepted_iff_example = artifact_accepted_iff report

resolve_pinned_input_iff_example :
    (resolve_pinned_input get workflow_ref pinned_report ≡ ready report) ↔ (
      (pin : UidReference) × (pinned_report.artifact_ref ≡ some pin)
      × (get pin.name ≡ found report)
      × IsPinned workflow_ref pinned_report pin report)
resolve_pinned_input_iff_example = resolve_pinned_input_iff get workflow_ref pinned_report report
