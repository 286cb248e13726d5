-- ===== src/Artifacts.antt =====
-- internal/artifacts/validator.go: when an artifact counts as accepted, and the check of an input
-- that pins one artifact exactly.
pub mod Pins
mod Tests
use sovereign_ai.Prelude.{
  Bool, true, false, ◌&&◌, ◌||◌, not, Option, none, some, String, ◌==◌, if◌then◌else◌,
}
use sovereign_ai.Prelude.Int.{eqb_ℤ}
use sovereign_ai.Api.{
  succeeded, failed, phase_eq, ConditionStatus, condition_true, Condition, UidReference, uid_eq,
  ArtifactReference, Artifact,
}

is_true : ConditionStatus → Bool
is_true condition_true = true
is_true _ = false

is_valid : Artifact → Option Condition → Bool
is_valid artifact none = false
is_valid artifact (some condition) =
    is_true condition.status && eqb_ℤ condition.observed_generation artifact.generation

unfoldable pub artifact_accepted : Artifact → Bool
unfolding is_true is_valid
artifact_accepted artifact =
    if not (phase_eq artifact.status.phase succeeded)
      || not (eqb_ℤ artifact.status.observed_generation artifact.generation)
    then false
    else is_valid artifact artifact.status.valid

-- What `reader.Get` of the API client returns.
pub data Fetched : Type 0 where
  found : Artifact → Fetched
  not_found : Fetched
  fetch_failed : String → Fetched

pub data PinError : Type 0 where
  uid_mismatch other_workflow contract_mismatch digest_mismatch producer_mismatch rejected :
      PinError

-- The results of `ResolvePinnedInput`: an artifact and ready, not ready, invalid with a reason,
-- or an error.
pub data Pinned : Type 0 where
  ready : Artifact → Pinned
  not_ready : Pinned
  invalid : PinError → Pinned
  get_error : String → Pinned

check_pin : UidReference → ArtifactReference → UidReference → Artifact → Pinned
check_pin workflow_ref requested pin artifact =
    if not (artifact.uid == pin.uid)
    then invalid uid_mismatch
    else if not (uid_eq artifact.spec.workflow_ref workflow_ref)
    then invalid other_workflow
    else if not (artifact.spec.contract.name == requested.name)
    then invalid contract_mismatch
    else if requested.digest == "" || not (artifact.spec.digest == requested.digest)
    then invalid digest_mismatch
    else if not (requested.producer_attempt_ref == "")
        && not (artifact.spec.producer_ref.name == requested.producer_attempt_ref)
    then invalid producer_mismatch
    else if artifact_accepted artifact
    then ready artifact
    else if phase_eq artifact.status.phase failed
    then invalid rejected
    else not_ready

check_fetched : UidReference → ArtifactReference → UidReference → Fetched → Pinned
check_fetched workflow_ref requested pin (found artifact) =
    check_pin workflow_ref requested pin artifact
check_fetched workflow_ref requested pin not_found = not_ready
check_fetched workflow_ref requested pin (fetch_failed message) = get_error message

-- `get` reads an artifact of the workflow's namespace by its name.
unfoldable pub resolve_pinned_input : (String → Fetched) → UidReference → ArtifactReference → Pinned
unfolding check_pin check_fetched
resolve_pinned_input get workflow_ref requested = elim requested.artifact_ref [
  | none ↦ not_ready
  | some pin ↦ check_fetched workflow_ref requested pin (get pin.name)
]
