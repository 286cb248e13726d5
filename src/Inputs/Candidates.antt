-- ===== src/Inputs/Candidates.antt =====
-- inputCandidateForArtifact of input_selection.go, and the tests of resolveStepInputs that an
-- artifact has to pass. An index -1 is `none`.
pub mod Boundary
use sovereign_ai.Prelude.{
  Result, ok, err, ◌>>=◌, ℕ, zero, suc, Bool, true, false, ◌&&◌, ◌||◌, not, List, [], ◌∷◌, ◌++◌,
  Option, none, some, String, ◌==◌, any, leb, is_none, get_elem?, if◌then◌else◌,
}
use sovereign_ai.Prelude.Int.{ℤ, pos, ltb_ℤ, eqb_ℤ}
use sovereign_ai.Api.{
  Phase, succeeded, failed, phase_eq, UidReference, uid_eq, ContractReference, ArtifactReference,
  Artifact, StepConfig, StepAttempt,
}
use sovereign_ai.Steps.{
  step_index, workflow_input_producer, Producer, bootstrap, no_producer, producer_step, StepError,
}
use sovereign_ai.Inputs.Types.{
  Refinement, Workflow, Candidate, InputError, no_lineage, empty_name, no_restart_step,
  duplicate_input, no_upstream, ambiguous, not_accepted, was_rejected, no_digest_match,
  no_candidate, no_artifact_uid, primitive_import, import_not_accepted, bad_import, import_failed,
  step_error,
}

-- `attemptsByName[name]` of the attempts of one workflow; a later attempt replaces an earlier one.
attempt_by_name : UidReference → String → Option StepAttempt → List StepAttempt → Option StepAttempt
attempt_by_name workflow_ref name latest [] = latest
attempt_by_name workflow_ref name latest (attempt ∷ attempts) =
    attempt_by_name workflow_ref name
      (if uid_eq attempt.spec.workflow_ref workflow_ref && attempt.name == name
        then some attempt
        else latest)
      attempts

-- The restart index of the workflow retry that the consumer belongs to.
unfoldable pub restart_index : Workflow → StepAttempt → Result InputError (Option ℕ)
restart_index workflow consumer =
    if not (ltb_ℤ (pos 0) consumer.spec.workflow_attempt)
    then ok none
    else elim workflow.refinement [
      | none ↦ err no_lineage
      | some refinement ↦
          if not (eqb_ℤ refinement.iteration consumer.spec.workflow_attempt)
          then err no_lineage
          else elim (step_index workflow.steps refinement.restart_step) [
            | none ↦ err (no_restart_step refinement.restart_step)
            | some index ↦ ok (some index)
          ]
    ]

-- `producerIndex >= restartIndex`.
abbrev pub at_or_after : ℕ → Option ℕ → Bool
at_or_after index none = true
at_or_after index (some restart) = leb restart index

is_named : List StepConfig → ℕ → String → Bool
is_named steps index name = elim (get_elem? steps index) [
  | none ↦ false
  | some step ↦ step.name == name
]

bootstrap_candidate : Workflow → Artifact → Option UidReference → Option Candidate
bootstrap_candidate workflow artifact none = none
bootstrap_candidate workflow artifact (some ref) =
    if not (artifact.name == ref.name)
      || not (artifact.uid == ref.uid)
      || not (artifact.spec.producer_ref.kind == "SovereignWorkflow")
      || not (artifact.spec.producer_ref.name == workflow.name)
    then none
    else some (record {
      artifact = artifact;
      producer_attempt_ref = "";
      workflow_attempt = pos 0;
      retry_number = pos 0;
    })

produced_candidate :
    Workflow → StepAttempt → Artifact → ℕ → Option ℕ → Option StepAttempt → Option Candidate
produced_candidate workflow consumer artifact index restart none = none
produced_candidate workflow consumer artifact index restart (some producer) =
    if not (phase_eq producer.status.phase succeeded)
      || not (is_named workflow.steps index producer.spec.step_name)
      || ltb_ℤ consumer.spec.workflow_attempt producer.spec.workflow_attempt
    then none
    else if (eqb_ℤ consumer.spec.workflow_attempt (pos 0) || at_or_after index restart)
        && not (eqb_ℤ producer.spec.workflow_attempt consumer.spec.workflow_attempt)
    then none
    else some (record {
      artifact = artifact;
      producer_attempt_ref = producer.name;
      workflow_attempt = producer.spec.workflow_attempt;
      retry_number = producer.spec.retry_number;
    })

-- `inputCandidateForArtifact`. It is called only for the bootstrap and for a producer step.
unfoldable pub input_candidate_for_artifact :
    Workflow → StepAttempt → Artifact → List StepAttempt → Producer → Option ℕ → Option Candidate
unfolding attempt_by_name is_named bootstrap_candidate produced_candidate
input_candidate_for_artifact workflow consumer artifact attempts bootstrap restart =
    bootstrap_candidate workflow artifact workflow.bootstrap_artifact_ref
input_candidate_for_artifact workflow consumer artifact attempts no_producer restart = none
input_candidate_for_artifact workflow consumer artifact attempts (producer_step index) restart =
    produced_candidate workflow consumer artifact index restart
      (attempt_by_name consumer.spec.workflow_ref artifact.spec.producer_ref.name none attempts)

is_pinned : Option UidReference → Artifact → Bool
is_pinned none artifact = true
is_pinned (some ref) artifact = artifact.name == ref.name && artifact.uid == ref.uid

-- The `continue` test of the loop over the artifacts, negated.
unfoldable pub is_requested : UidReference → ArtifactReference → Artifact → Bool
unfolding is_pinned
is_requested workflow_ref requested artifact =
    uid_eq artifact.spec.workflow_ref workflow_ref
    && artifact.spec.contract.name == requested.name
    && is_pinned requested.artifact_ref artifact
    && (requested.producer_attempt_ref == ""
        || artifact.spec.producer_ref.name == requested.producer_attempt_ref)
    && (requested.digest == "" || artifact.spec.digest == requested.digest)
