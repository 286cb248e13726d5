-- ===== src/Inputs/Types.antt =====
-- The data of input_selection.go: what it reads of a workflow, its candidates and its errors.
use sovereign_ai.Prelude.{List, Option, String}
use sovereign_ai.Prelude.Int.{ℤ}
use sovereign_ai.Api.{UidReference, ContractReference, Artifact, StepConfig}
use sovereign_ai.Steps.{StepError}
use sovereign_ai.Artifacts.{PinError}

-- WorkflowRefinementStatus and SovereignWorkflow, with the fields that input selection reads.
pub record Refinement : Type 0 where
  pub iteration : ℤ
  pub restart_step : String

pub record Workflow : Type 0 where
  pub name : String
  pub bootstrap_contract : ContractReference
  pub steps : List StepConfig
  pub bootstrap_artifact_ref : Option UidReference
  pub refinement : Option Refinement

-- `inputArtifactCandidate`.
pub record Candidate : Type 0 where
  pub artifact : Artifact
  pub producer_attempt_ref : String
  pub workflow_attempt : ℤ
  pub retry_number : ℤ

pub data InputError : Type 0 where
  no_lineage empty_name : InputError
  no_restart_step duplicate_input no_upstream ambiguous not_accepted was_rejected :
      String → InputError
  no_digest_match no_candidate no_artifact_uid primitive_import import_not_accepted :
      String → InputError
  bad_import : String → PinError → InputError
  import_failed : String → InputError
  step_error : StepError → InputError
