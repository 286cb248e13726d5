-- ===== src/Claims.antt =====
-- internal/artifacts/claims.go: ValidateClaims, with ValidateCriterionIdentities of
-- internal/artifactcontract/criteria.go. An `error` is `Option ClaimError`.
use sovereign_ai.Prelude.{
  ℕ, ◌+◌, Bool, false, not, ◌&&◌, ◌||◌, List, [], ◌∷◌, Option, none, some, String, ◌==◌, length,
  ltb, eqb, any, if◌then◌else◌,
}
use sovereign_ai.Api.{
  ContractReference, ArtifactClaims, ChangeRequestClaims, CandidateRevisionClaims,
  CandidateRemoteProofClaims, ImageDigestClaims, CriterionIdentity,
}

-- The regular expressions of the two packages.
pub data Pattern : Type 0 where
  sha256_digest git_oid oci_repository branch_name criterion_id : Pattern

-- What `url.Parse` gives, as far as it is read.
pub record ParsedUrl : Type 0 where
  pub is_absolute : Bool
  pub scheme_is_https : Bool
  pub hostname : String
  pub has_user : Bool
  pub raw_query : String
  pub fragment : String

-- Go's libraries: regexp, net/url, time.Parse of RFC 3339, strings.CutPrefix of "refs/heads/", and
-- the digest of the JSON of a list of criteria.
pub record Libraries : Type 0 where
  pub matches : Pattern → String → Bool
  pub parse_url : String → Option ParsedUrl
  pub is_timestamp : String → Bool
  pub cut_heads : String → Option String
  pub digest_of_set : List CriterionIdentity → String

pub data ClaimError : Type 0 where
  claims_required not_one_projection projection_missing no_claims_defined : ClaimError
  bad_repository bad_branch bad_object_id bad_digest bad_ref bad_time bad_image : ClaimError
  criteria_count criterion_id_invalid criterion_duplicated set_digest_mismatch : ClaimError

unfoldable pub validate_repository : Libraries → String → Option ClaimError
validate_repository lib raw = elim (lib.parse_url raw) [
  | none ↦ some bad_repository
  | some url ↦
      if not url.is_absolute
        || not url.scheme_is_https
        || url.hostname == ""
        || url.has_user
        || not (url.raw_query == "")
        || not (url.fragment == "")
      then some bad_repository
      else none
]

-- The loop over the criteria; `seen` are the names before.
unfoldable pub check_criteria : Libraries → List String → List CriterionIdentity → Option ClaimError
check_criteria lib seen [] = none
check_criteria lib seen (criterion ∷ rest) =
    let later = check_criteria lib (criterion.id ∷ seen) rest in
    if not (lib.matches criterion_id criterion.id)
    then some criterion_id_invalid
    else if any (λ name. name == criterion.id) seen
    then some criterion_duplicated
    else if not (lib.matches sha256_digest criterion.digest)
    then some bad_digest
    else later

-- `if err != nil { return err }` where a function returns an error only.
abbrev pub or_else : Option ClaimError → Option ClaimError → Option ClaimError
or_else none later = later
or_else (some reason) later = some reason

unfoldable pub validate_criterion_identities :
    Libraries → List CriterionIdentity → String → Option ClaimError
unfolding check_criteria
validate_criterion_identities lib criteria set_digest =
    if ltb (length criteria) 1 || ltb 32 (length criteria)
    then some criteria_count
    else or_else (check_criteria lib [] criteria) (
        if not (lib.matches sha256_digest set_digest)
        then some bad_digest
        else if not (lib.digest_of_set criteria == set_digest)
        then some set_digest_mismatch
        else none)

-- The contracts that define claims; a contract's key joins its name and version by "/", and no
-- name of these holds a "/".
unfoldable pub names : String → ContractReference → Bool
names name contract = contract.name == name && contract.version == "v1"

abbrev pub one_if {ℓ} : {A : Type ℓ} → Option A → ℕ
one_if none = 0
one_if (some value) = 1

unfoldable pub claim_count : ArtifactClaims → ℕ
claim_count claims =
    one_if claims.change_request
    + one_if claims.candidate_revision
    + one_if claims.candidate_remote_proof
    + one_if claims.image_digest

-- ValidateClaims without claims.
unfoldable pub claims_absent : ContractReference → Option ClaimError
unfolding names
claims_absent contract =
    if names "change-request" contract
      || names "candidate-revision" contract
      || names "candidate-remote-proof" contract
      || names "image-digest" contract
    then some claims_required
    else none

unfoldable pub check_change_request : Libraries → Option ChangeRequestClaims → Option ClaimError
unfolding validate_criterion_identities
check_change_request lib none = some projection_missing
check_change_request lib (some value) =
    validate_criterion_identities lib value.acceptance_criteria value.acceptance_criteria_set_digest

unfoldable pub check_revision : Libraries → Option CandidateRevisionClaims → Option ClaimError
check_revision lib none = some projection_missing
check_revision lib (some value) = or_else (validate_repository lib value.repository_url) (
    if not (lib.matches branch_name value.branch)
    then some bad_branch
    else if not (lib.matches git_oid value.commit) || not (lib.matches git_oid value.tree)
    then some bad_object_id
    else none)

abbrev is_branch : Libraries → Option String → Bool
is_branch lib none = false
is_branch lib (some branch) = lib.matches branch_name branch

unfoldable pub check_remote_proof :
    Libraries → Option CandidateRemoteProofClaims → Option ClaimError
check_remote_proof lib none = some projection_missing
check_remote_proof lib (some value) =
    if not (lib.matches sha256_digest value.candidate_revision_digest)
    then some bad_digest
    else or_else (validate_repository lib value.repository_url) (
        if not (is_branch lib (lib.cut_heads value.ref))
        then some bad_ref
        else if not (lib.matches git_oid value.observed_commit)
        then some bad_object_id
        else if not (lib.is_timestamp value.verified_at)
        then some bad_time
        else none)

unfoldable pub check_image : Libraries → Option ImageDigestClaims → Option ClaimError
check_image lib none = some projection_missing
check_image lib (some value) =
    if not (lib.matches sha256_digest value.candidate_revision_digest)
      || not (lib.matches sha256_digest value.oci_digest)
    then some bad_digest
    else if not (lib.matches oci_repository value.image_repository)
    then some bad_image
    else if not (lib.matches git_oid value.candidate_commit)
        || not (lib.matches git_oid value.candidate_tree)
    then some bad_object_id
    else none

unfoldable pub claims_present : Libraries → ContractReference → ArtifactClaims → Option ClaimError
unfolding claim_count
claims_present lib contract claims =
    if not (eqb (claim_count claims) 1)
    then some not_one_projection
    else if names "change-request" contract
    then check_change_request lib claims.change_request
    else if names "candidate-revision" contract
    then check_revision lib claims.candidate_revision
    else if names "candidate-remote-proof" contract
    then check_remote_proof lib claims.candidate_remote_proof
    else if names "image-digest" contract
    then check_image lib claims.image_digest
    else some no_claims_defined

unfoldable pub validate_claims :
    Libraries → ContractReference → Option ArtifactClaims → Option ClaimError
validate_claims lib contract none = claims_absent contract
validate_claims lib contract (some claims) = claims_present lib contract claims
