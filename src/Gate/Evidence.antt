-- ===== src/Gate/Evidence.antt =====
-- internal/controllers/input_evidence.go: ResolveArtifactEvidence. The evidence is the artifact; its
-- record for the audit log repeats fields of it.
use sovereign_ai.Prelude.{
  Bool, ◌&&◌, ◌||◌, List, [], ◌∷◌, Option, none, some, String, ◌==◌, filter, if◌then◌else◌,
}
use sovereign_ai.Api.{UidReference, uid_eq, ArtifactReference, Artifact}
use sovereign_ai.Artifacts.{
  artifact_accepted, Fetched, Pinned, ready, not_ready, invalid, get_error, PinError,
  resolve_pinned_input,
}
use sovereign_ai.Claims.{Libraries, ClaimError, validate_claims}

pub data EvidenceError : Type 0 where
  incomplete_pin ambiguous no_uid : EvidenceError
  pin_error : PinError → EvidenceError
  claim_error : ClaimError → EvidenceError

-- Evidence that is ready, not ready, invalid, or an error of a read.
pub data Resolved (A : Type 0) : Type 0 where
  resolved : A → Resolved A
  unready : Resolved A
  refused : EvidenceError → Resolved A
  read_error : String → Resolved A

abbrev pub of_pinned : Pinned → Resolved Artifact
of_pinned (ready artifact) = resolved artifact
of_pinned not_ready = unready
of_pinned (invalid reason) = refused (pin_error reason)
of_pinned (get_error message) = read_error message

unfoldable pub matches_input : UidReference → ArtifactReference → Artifact → Bool
matches_input workflow_ref input artifact =
    uid_eq artifact.spec.workflow_ref workflow_ref
    && artifact.spec.contract.name == input.name
    && (input.digest == "" || artifact.spec.digest == input.digest)
    && (input.producer_attempt_ref == ""
        || artifact.spec.producer_ref.name == input.producer_attempt_ref)
    && artifact_accepted artifact

abbrev pub single : List Artifact → Resolved Artifact
single [] = unready
single (artifact ∷ []) = resolved artifact
single (artifact ∷ other ∷ rest) = refused ambiguous

-- resolveUnpinnedArtifactEvidence, over the artifacts of the namespace; `none` is a List that fails.
unfoldable pub resolve_unpinned :
    Option (List Artifact) → UidReference → ArtifactReference → Resolved Artifact
resolve_unpinned none workflow_ref input = read_error "list input artifacts"
resolve_unpinned (some artifacts) workflow_ref input =
    single (filter (matches_input workflow_ref input) artifacts)

-- The API server's artifacts: Get by name, and List.
pub record ArtifactReader : Type 0 where
  pub get : String → Fetched
  pub list : Option (List Artifact)

unfoldable pub resolve_one : ArtifactReader → UidReference → ArtifactReference → Resolved Artifact
resolve_one reader workflow_ref input = elim input.artifact_ref [
  | none ↦ resolve_unpinned reader.list workflow_ref input
  | some pin ↦
      if pin.name == "" || pin.uid == "" || input.digest == ""
      then refused incomplete_pin
      else of_pinned (resolve_pinned_input reader.get workflow_ref input)
]

abbrev pub checked_claims : Artifact → Option ClaimError → Resolved Artifact
checked_claims artifact none = resolved artifact
checked_claims artifact (some reason) = refused (claim_error reason)

-- The tests on an artifact that was selected.
unfoldable pub check_artifact : Libraries → Artifact → Resolved Artifact
check_artifact lib artifact =
    if artifact.uid == ""
    then refused no_uid
    else checked_claims artifact (validate_claims lib artifact.spec.contract artifact.spec.claims)

infixl 5 ◌>>=◌
abbrev pub ◌>>=◌ : {A B : Type 0} → Resolved A → (A → Resolved B) → Resolved B
resolved a >>= f = f a
unready >>= f = unready
refused reason >>= f = refused reason
read_error message >>= f = read_error message

unfoldable pub resolve_artifact_evidence :
    Libraries → ArtifactReader → UidReference → List ArtifactReference → Resolved (List Artifact)
resolve_artifact_evidence lib reader workflow_ref [] = resolved []
resolve_artifact_evidence lib reader workflow_ref (input ∷ inputs) = do
  selected ← resolve_one reader workflow_ref input
  artifact ← check_artifact lib selected
  evidence ← resolve_artifact_evidence lib reader workflow_ref inputs
  resolved (artifact ∷ evidence)
