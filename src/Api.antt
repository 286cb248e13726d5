-- ===== src/Api.antt =====
-- internal/api/v1alpha1: the resource types, with the fields that the modelled code reads.
use sovereign_ai.Prelude.{
  ℕ, ◌≡◌, ◌↔◌, Bool, true, ◌&&◌, List, Option, String, arith, ◌==◌, eq_iff, eqb,
}
use sovereign_ai.Prelude.Int.{ℤ}

-- A phase is a Go string; `unset` is "" and `other` a text that no constant names.
pub data Phase : Type 0 where
  unset pending admitted preparing running collecting awaiting_approval intervening : Phase
  validating retrying succeeded failed cancelled interrupted : Phase
  other : String → Phase

abbrev phase_code : Phase → ℕ
phase_code unset = 0
phase_code pending = 1
phase_code admitted = 2
phase_code preparing = 3
phase_code running = 4
phase_code collecting = 5
phase_code awaiting_approval = 6
phase_code intervening = 7
phase_code validating = 8
phase_code retrying = 9
phase_code succeeded = 10
phase_code failed = 11
phase_code cancelled = 12
phase_code interrupted = 13
phase_code (other s) = 14

abbrev other_text : Phase → String
other_text (other s) = s
other_text _ = ""

-- Go's `==` on phases.
unfoldable pub phase_eq : Phase → Phase → Bool
phase_eq a b = eqb (phase_code a) (phase_code b) && other_text a == other_text b

pub data ExecutionKind : Type 0 where
  agent utility human_gate validation : ExecutionKind
  other_kind : String → ExecutionKind

pub record UidReference : Type 0 where
  pub name : String
  pub uid : String

abbrev pub uid_eq : UidReference → UidReference → Bool
uid_eq a b = a.name == b.name && a.uid == b.uid

pub record NamespacedReference : Type 0 where
  pub namespace : String
  pub name : String

abbrev pub ref_eq : NamespacedReference → NamespacedReference → Bool
ref_eq a b = a.namespace == b.namespace && a.name == b.name

pub record ContractReference : Type 0 where
  pub name : String
  pub version : String

abbrev pub contract_eq : ContractReference → ContractReference → Bool
contract_eq a b = a.name == b.name && a.version == b.version

pub record ArtifactReference : Type 0 where
  pub name : String
  pub digest : String
  pub artifact_ref : Option UidReference
  pub producer_attempt_ref : String

pub record ApprovalRequirement : Type 0 where
  pub step : String
  pub subject : String

-- `utility` is the name of the utility operation that the step requests, if any.
pub record StepConfig : Type 0 where
  pub requires_approval : Option ApprovalRequirement
  pub name : String
  pub kind : ExecutionKind
  pub utility : Option String
  pub inputs : List ArtifactReference
  pub outputs : List ContractReference
  pub max_attempts : ℤ
  pub order : ℤ

pub record StepAttemptSpec : Type 0 where
  pub workflow_ref : UidReference
  pub step_name : String
  pub retry_number : ℤ
  pub workflow_attempt : ℤ
  pub kind : ExecutionKind

pub record StepAttemptStatus : Type 0 where
  pub phase : Phase
  pub execution_ref : Option String
  pub failure_reason : String
  pub retryable : Bool

pub record StepAttempt : Type 0 where
  pub name : String
  pub spec : StepAttemptSpec
  pub status : StepAttemptStatus

pub data ConditionStatus : Type 0 where
  condition_true condition_false condition_unknown : ConditionStatus

pub record Condition : Type 0 where
  pub status : ConditionStatus
  pub observed_generation : ℤ

pub record TypedLocalReference : Type 0 where
  pub kind : String
  pub name : String

pub record CriterionIdentity : Type 0 where
  pub id : String
  pub digest : String

pub record ChangeRequestClaims : Type 0 where
  pub acceptance_criteria : List CriterionIdentity
  pub acceptance_criteria_set_digest : String

pub record CandidateRevisionClaims : Type 0 where
  pub repository_url : String
  pub branch : String
  pub commit : String
  pub tree : String

pub record CandidateRemoteProofClaims : Type 0 where
  pub candidate_revision_digest : String
  pub repository_url : String
  pub ref : String
  pub observed_commit : String
  pub verified_at : String

pub record ImageDigestClaims : Type 0 where
  pub candidate_revision_digest : String
  pub image_repository : String
  pub oci_digest : String
  pub candidate_commit : String
  pub candidate_tree : String

pub record ArtifactClaims : Type 0 where
  pub change_request : Option ChangeRequestClaims
  pub candidate_revision : Option CandidateRevisionClaims
  pub candidate_remote_proof : Option CandidateRemoteProofClaims
  pub image_digest : Option ImageDigestClaims

pub record ArtifactSpec : Type 0 where
  pub workflow_ref : UidReference
  pub producer_ref : TypedLocalReference
  pub contract : ContractReference
  pub digest : String
  pub claims : Option ArtifactClaims

-- `valid` is what the library's FindStatusCondition finds under "Valid" among the conditions.
pub record ArtifactStatus : Type 0 where
  pub observed_generation : ℤ
  pub phase : Phase
  pub valid : Option Condition

pub record Artifact : Type 0 where
  pub name : String
  pub uid : String
  pub generation : ℤ
  pub spec : ArtifactSpec
  pub status : ArtifactStatus

pub phase_eq_iff : (a b : Phase) → (phase_eq a b ≡ true) ↔ (a ≡ b)
unfolding phase_eq
phase_eq_iff a b = ground (arith, eq_iff (other_text a) (other_text b))

pub uid_eq_iff : (a b : UidReference) → (uid_eq a b ≡ true) ↔ (a ≡ b)
uid_eq_iff a b = ground (arith, eq_iff a.name b.name, eq_iff a.uid b.uid)

pub ref_eq_iff : (a b : NamespacedReference) → (ref_eq a b ≡ true) ↔ (a ≡ b)
ref_eq_iff a b = ground (arith, eq_iff a.namespace b.namespace, eq_iff a.name b.name)
