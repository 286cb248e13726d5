-- ===== src/Inputs/Scan.antt =====
-- The loop of resolveStepInputs over the artifacts, which selects the newest accepted candidate.
pub mod Newest
use sovereign_ai.Prelude.{
  Result, ok, err, ◌>>=◌, ℕ, zero, suc, Bool, true, false, ◌&&◌, ◌||◌, not, List, [], ◌∷◌, ◌++◌,
  Option, none, some, String, ◌==◌, any, leb, is_none, get_elem?, if◌then◌else◌,
}
use sovereign_ai.Prelude.Int.{ℤ, pos, ltb_ℤ, eqb_ℤ}
use sovereign_ai.Api.{
  Phase, succeeded, failed, phase_eq, UidReference, uid_eq, ContractReference, ArtifactReference,
  Artifact, StepConfig, StepAttempt,
}
use sovereign_ai.Artifacts.{
  artifact_accepted, Fetched, PinError, Pinned, ready, not_ready, invalid, get_error,
  resolve_pinned_input,
}
use sovereign_ai.Inputs.Types.{
  Refinement, Workflow, Candidate, InputError, no_lineage, empty_name, no_restart_step,
  duplicate_input, no_upstream, ambiguous, not_accepted, was_rejected, no_digest_match,
  no_candidate, no_artifact_uid, primitive_import, import_not_accepted, bad_import, import_failed,
  step_error,
}

unfoldable pub newer_than : Candidate → Candidate → Bool
newer_than candidate other =
    ltb_ℤ other.workflow_attempt candidate.workflow_attempt
    || (eqb_ℤ candidate.workflow_attempt other.workflow_attempt
        && ltb_ℤ other.retry_number candidate.retry_number)

-- The variables `selected`, `eligiblePending` and `eligibleRejected` of the loop.
pub record Scanned : Type 0 where
  pub selected : Option Candidate
  pub pending : Bool
  pub rejected : Bool

same_attempt : Candidate → Candidate → Bool
same_attempt a b =
    eqb_ℤ a.workflow_attempt b.workflow_attempt && eqb_ℤ a.retry_number b.retry_number

accept : String → Option Candidate → Scanned → Candidate → Result InputError Scanned
accept name none selection candidate = ok (record selection { selected = some candidate })
accept name (some best) selection candidate =
    if same_attempt candidate best
    then err (ambiguous name)
    else if newer_than candidate best
    then ok (record selection { selected = some candidate })
    else ok selection

-- The switch on an eligible candidate.
classify : String → Scanned → Candidate → Result InputError Scanned
classify name selection candidate =
    if artifact_accepted candidate.artifact
    then accept name selection.selected selection candidate
    else if phase_eq candidate.artifact.status.phase failed
    then ok (record selection { rejected = true })
    else ok (record selection { pending = true })

consider : String → Scanned → Option Candidate → Result InputError Scanned
consider name selection none = ok selection
consider name selection (some candidate) = classify name selection candidate

-- `copy` is the candidate that an artifact yields for the request, if it is requested and
-- eligible; the loop folds `consider` over the artifacts.
unfoldable pub scan :
    (Artifact → Option Candidate) → String → Scanned → List Artifact → Result InputError Scanned
unfolding consider classify accept same_attempt
scan eligible name selection [] = ok selection
scan eligible name selection (artifact ∷ artifacts) =
    consider name selection (eligible artifact) >>= λ next. scan eligible name next artifacts

unfoldable pub finish : ArtifactReference → Scanned → Result InputError ArtifactReference
finish requested selection = elim selection.selected [
  | none ↦
      if selection.pending
      then err (not_accepted requested.name)
      else if selection.rejected
      then err (was_rejected requested.name)
      else if not (requested.digest == "")
      then err (no_digest_match requested.name)
      else err (no_candidate requested.name)
  | some best ↦
      if best.artifact.uid == ""
      then err (no_artifact_uid requested.name)
      else ok (record {
        name = requested.name;
        digest = best.artifact.spec.digest;
        artifact_ref = some (record { name = best.artifact.name; uid = best.artifact.uid });
        producer_attempt_ref = best.producer_attempt_ref;
      })
]

abbrev pub nothing_scanned : Scanned
nothing_scanned = record { selected = none; pending = false; rejected = false }
