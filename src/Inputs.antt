-- ===== src/Inputs.antt =====
-- internal/controllers/workflow/input_selection.go: the artifacts that a step attempt consumes.
-- An index -1 is `none`. The two lists that the API client returns are arguments; where a List call
-- fails the function returns that error at once, which is not modelled.
pub mod Types
pub mod Candidates
pub mod Scan
pub mod Lineage
pub mod Resolution
mod Tests
use sovereign_ai.Prelude.{
  map_err, Result, ok, err, ◌>>=◌, ℕ, zero, suc, Bool, true, false, ◌&&◌, ◌||◌, not, List, [], ◌∷◌,
  ◌++◌, Option, none, some, String, ◌==◌, any, leb, is_none, get_elem?, if◌then◌else◌,
}
use sovereign_ai.Prelude.Int.{ℤ, pos, ltb_ℤ, eqb_ℤ}
use sovereign_ai.Api.{
  Phase, succeeded, failed, phase_eq, UidReference, uid_eq, ContractReference, ArtifactReference,
  Artifact, StepConfig, StepAttempt,
}
use sovereign_ai.Steps.{
  step_index, workflow_input_producer, Producer, bootstrap, no_producer, producer_step, StepError,
}
use sovereign_ai.Steps
use sovereign_ai.Artifacts.{
  artifact_accepted, Fetched, PinError, Pinned, ready, not_ready, invalid, get_error,
  resolve_pinned_input,
}
use sovereign_ai.Inputs.Types.{
  Refinement, Workflow, Candidate, InputError, no_lineage, empty_name, no_restart_step,
  duplicate_input, no_upstream, ambiguous, not_accepted, was_rejected, no_digest_match,
  no_candidate, no_artifact_uid, primitive_import, import_not_accepted, bad_import, import_failed,
  step_error,
}
use sovereign_ai.Inputs.Candidates.{restart_index, is_requested, input_candidate_for_artifact}
use sovereign_ai.Inputs.Scan.{Scanned, nothing_scanned, scan, finish}

abbrev is_empty : List ArtifactReference → Bool
is_empty [] = true
is_empty (_ ∷ _) = false

pub is_primitive : String → Bool
is_primitive kind =
    kind == "SovereignWorkflow"
    || kind == "StepAttempt"
    || kind == "AgentRun"
    || kind == "UtilityOperation"
    || kind == "ValidationRun"
    || kind == "ApprovalRequest"

names_exactly : ArtifactReference → Bool
names_exactly requested = elim requested.artifact_ref [
  | none ↦ false
  | some ref ↦ not (
      ref.name == ""
      || ref.uid == ""
      || requested.digest == ""
      || not (requested.producer_attempt_ref == ""))
]

import_pinned : ArtifactReference → Pinned → Result InputError ArtifactReference
import_pinned requested (get_error message) = err (import_failed message)
import_pinned requested (invalid reason) = err (bad_import requested.name reason)
import_pinned requested not_ready = err (import_not_accepted requested.name)
import_pinned requested (ready artifact) =
    if is_primitive artifact.spec.producer_ref.kind
    then err (primitive_import requested.name)
    else ok requested

-- What an attempt's input selection reads: the workflow, the attempt, the artifacts and the
-- attempts of the namespace, and `get`, the API client's read of one artifact.
pub record Scene : Type 0 where
  pub workflow : Workflow
  pub consumer : StepAttempt
  pub artifacts : List Artifact
  pub attempts : List StepAttempt
  pub get : String → Fetched

-- The candidate of an artifact for a request, where the artifact is requested and eligible.
pub eligible : Scene → ArtifactReference → Producer → Option ℕ → Artifact → Option Candidate
eligible scene requested producer restart artifact =
    if is_requested scene.consumer.spec.workflow_ref requested artifact
    then input_candidate_for_artifact scene.workflow scene.consumer artifact scene.attempts producer
        restart
    else none

resolve_from : Scene → Option ℕ → ArtifactReference → Producer → Result InputError ArtifactReference
unfolding names_exactly import_pinned is_primitive
resolve_from scene restart requested no_producer =
    if not (names_exactly requested)
    then err (no_upstream requested.name)
    else import_pinned requested
        (resolve_pinned_input scene.get scene.consumer.spec.workflow_ref requested)
resolve_from scene restart requested producer =
    scan (eligible scene requested producer restart) requested.name nothing_scanned scene.artifacts
    >>= finish requested

-- The body of the loop over the requested inputs, behind the test for duplicates.
pub resolve_input :
    Scene → StepConfig → Option ℕ → ArtifactReference → Result InputError ArtifactReference
unfolding resolve_from
resolve_input scene step restart requested =
    map_err step_error (
      workflow_input_producer scene.workflow.bootstrap_contract scene.workflow.steps step
        requested.name)
    >>= resolve_from scene restart requested

-- The loop over the requested inputs; `seen` holds the names that came before.
resolve_each :
    Scene
    → StepConfig
    → Option ℕ
    → List String
    → List ArtifactReference
    → Result InputError (List ArtifactReference)
resolve_each scene step restart seen [] = ok []
resolve_each scene step restart seen (requested ∷ inputs) =
    if requested.name == ""
    then err empty_name
    else if any (λ name. name == requested.name) seen
    then err (duplicate_input requested.name)
    else (resolve_input scene step restart requested >>= λ resolved.
        resolve_each scene step restart (requested.name ∷ seen) inputs >>= λ rest.
        ok (resolved ∷ rest))

unfoldable pub resolve_step_inputs : Scene → StepConfig → Result InputError (List ArtifactReference)
unfolding resolve_each
resolve_step_inputs scene step =
    if is_empty step.inputs
    then ok []
    else (restart_index scene.workflow scene.consumer >>= λ restart.
        resolve_each scene step restart [] step.inputs)
