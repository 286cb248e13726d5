-- ===== src/Reconcile.antt =====
-- internal/controllers/workflow/workflow_controller.go: what one reconciliation of a workflow that
-- has its workspace, lease and bootstrap artifact decides, and the updates of its status. The reads
-- of the API server are arguments: `get` reads the active attempt, `list` the attempts of a step,
-- and `artifacts` are those of the namespace.
pub mod Outputs
pub mod Bounds
mod Tests
use sovereign_ai.Prelude.{
  ℕ, suc, Bool, true, false, ◌&&◌, ◌||◌, not, List, [], ◌∷◌, Option, none, some, String, ◌==◌, eqb,
  ltb, Result, ok, err, if◌then◌else◌,
}
use sovereign_ai.Prelude.Int.{ℤ, pos, ◌+ℤ◌, ltb_ℤ, eqb_ℤ, i32}
use sovereign_ai.Api.{
  Phase, running, awaiting_approval, succeeded, failed, interrupted, phase_eq, uid_eq,
  ContractReference, contract_eq, StepConfig, StepAttempt, Artifact,
}
use sovereign_ai.State.{is_terminal, next_retry_number}
use sovereign_ai.Steps.{
  find_step, next_step, decide_failure, FailureDecision, retry_step, retry_workflow, fail_workflow,
  StepError,
}
use sovereign_ai.Artifacts.{artifact_accepted}

-- The fields of a SovereignWorkflow that these functions read or write; `refinement` is that of
-- its status, with the iteration, the failed step, the failed attempt and the restart step.
pub record RefinementStatus : Type 0 where
  pub iteration : ℤ
  pub trigger_step_name : String
  pub trigger_attempt_ref : String
  pub restart_step_name : String

pub record WorkflowState : Type 0 where
  pub uid : String
  pub deleting : Bool
  pub generation : ℤ
  pub steps : List StepConfig
  pub max_workflow_attempt : ℤ
  pub observed_generation : ℤ
  pub phase : Phase
  pub active_step_name : String
  pub active_attempt_ref : String
  pub workflow_attempt : ℤ
  pub refinement : Option RefinementStatus

pub data FailureReason : Type 0 where
  step_missing step_failed final_output_rejected : String → FailureReason
  workflow_retries_exhausted : String → FailureReason
  output_ambiguous : ContractReference → ℕ → FailureReason
  output_rejected : ContractReference → FailureReason
  invalid_recovery_policy : StepError → FailureReason

-- What a reconciliation does. `no_steps` is the panic of `Steps[0]` on an empty list.
pub data Action : Type 0 where
  leave record_completion mark_awaiting requeue succeed no_steps : Action
  fail : FailureReason → Action
  create_attempt : StepConfig → ℤ → Action
  begin_workflow_retry : String → Action
  read_error : String → Action

pub data OutputCheck : Type 0 where
  outputs_ready outputs_pending : OutputCheck
  outputs_invalid : FailureReason → OutputCheck

pub producer_name : StepAttempt → String
producer_name attempt = elim attempt.status.execution_ref [ none ↦ attempt.name | some name ↦ name ]

-- The negated `continue` test of the loop over the artifacts.
pub is_output : StepAttempt → ContractReference → Artifact → Bool
is_output attempt output artifact =
    uid_eq artifact.spec.workflow_ref attempt.spec.workflow_ref
    && artifact.spec.producer_ref.name == producer_name attempt
    && contract_eq artifact.spec.contract output

-- The loop over the artifacts for one output: `acceptedCount`, or none at a rejected artifact.
pub count_accepted : StepAttempt → ContractReference → ℕ → List Artifact → Option ℕ
count_accepted attempt output count [] = some count
count_accepted attempt output count (artifact ∷ artifacts) =
    if not (is_output attempt output artifact)
    then count_accepted attempt output count artifacts
    else if phase_eq artifact.status.phase failed
    then none
    else count_accepted attempt output (if artifact_accepted artifact then suc count else count)
        artifacts

-- `finalStepOutputsAccepted`, over the outputs of the step.
pub final_step_outputs_accepted : StepAttempt → List Artifact → List ContractReference → OutputCheck
unfolding producer_name is_output count_accepted
final_step_outputs_accepted attempt artifacts [] = outputs_ready
final_step_outputs_accepted attempt artifacts (output ∷ outputs) =
    let rest = final_step_outputs_accepted attempt artifacts outputs in
    elim (count_accepted attempt output 0 artifacts) [
      | none ↦ outputs_invalid (output_rejected output)
      | some count ↦
          if eqb count 0
          then outputs_pending
          else if ltb 1 count
          then outputs_invalid (output_ambiguous output count)
          else rest
    ]

finish_workflow : OutputCheck → Action
finish_workflow outputs_ready = succeed
finish_workflow outputs_pending = requeue
finish_workflow (outputs_invalid reason) = fail reason

-- The switch on the decision for a failed step.
recover : WorkflowState → StepAttempt → StepConfig → FailureDecision → Action
recover workflow attempt step (retry_workflow restart) =
    if eqb_ℤ workflow.max_workflow_attempt (pos 0)
      || not (ltb_ℤ workflow.workflow_attempt workflow.max_workflow_attempt)
    then fail (workflow_retries_exhausted attempt.status.failure_reason)
    else begin_workflow_retry restart
recover workflow attempt step fail_workflow = fail (step_failed attempt.status.failure_reason)
recover workflow attempt step retry_step =
    let max_attempts = if eqb_ℤ step.max_attempts (pos 0) then pos 1 else step.max_attempts in
    if attempt.status.retryable && ltb_ℤ attempt.spec.retry_number max_attempts
    then create_attempt step (i32 (attempt.spec.retry_number +ℤ pos 1))
    else fail (step_failed attempt.status.failure_reason)

after_failure : WorkflowState → StepAttempt → Action
after_failure workflow attempt = elim (find_step workflow.steps attempt.spec.step_name) [
  | none ↦ fail (step_missing attempt.spec.step_name)
  | some step ↦ elim (decide_failure workflow.steps step attempt.status.phase) [
    | err reason ↦ fail (invalid_recovery_policy reason)
    | ok decision ↦ recover workflow attempt step decision
  ]
]

after_success : WorkflowState → List Artifact → StepAttempt → Action
after_success workflow artifacts attempt = elim (next_step workflow.steps attempt.spec.step_name) [
  | some next ↦ create_attempt next (pos 1)
  | none ↦ elim (find_step workflow.steps attempt.spec.step_name) [
    | none ↦ fail (step_missing attempt.spec.step_name)
    | some final ↦ finish_workflow (final_step_outputs_accepted attempt artifacts final.outputs)
  ]
]

-- The switch on the phase of the active attempt.
on_phase : WorkflowState → List Artifact → StepAttempt → Phase → Action
on_phase workflow artifacts attempt awaiting_approval =
    if phase_eq workflow.phase awaiting_approval
      && eqb_ℤ workflow.observed_generation workflow.generation
    then leave
    else mark_awaiting
on_phase workflow artifacts attempt succeeded = after_success workflow artifacts attempt
on_phase workflow artifacts attempt failed = after_failure workflow attempt
on_phase workflow artifacts attempt interrupted = after_failure workflow attempt
on_phase workflow artifacts attempt _ = leave

-- What the read of the active attempt returns.
pub data FetchedAttempt : Type 0 where
  attempt_found : StepAttempt → FetchedAttempt
  attempt_missing : FetchedAttempt
  attempt_failed : String → FetchedAttempt

on_attempt :
    (String → Result String (List StepAttempt))
    → WorkflowState
    → List Artifact
    → FetchedAttempt
    → Action
on_attempt list workflow artifacts (attempt_found attempt) =
    on_phase workflow artifacts attempt attempt.status.phase
on_attempt list workflow artifacts (attempt_failed message) = read_error message
on_attempt list workflow artifacts attempt_missing =
    elim (find_step workflow.steps workflow.active_step_name) [
      | none ↦ fail (step_missing workflow.active_step_name)
      | some step ↦ elim (list step.name) [
        | err message ↦ read_error message
        | ok attempts ↦
            create_attempt step (next_retry_number attempts step.name workflow.workflow_attempt)
      ]
    ]

start_step : WorkflowState → List StepConfig → Action
start_step workflow [] = no_steps
start_step workflow (first ∷ steps) =
    if workflow.active_step_name == ""
    then create_attempt first (pos 1)
    else elim (find_step workflow.steps workflow.active_step_name) [
      | none ↦ fail (step_missing workflow.active_step_name)
      | some step ↦ create_attempt step (pos 1)
    ]

-- `Reconcile`, from the test for a terminal workflow on.
pub reconcile :
    (String → FetchedAttempt)
    → (String → Result String (List StepAttempt))
    → List Artifact
    → WorkflowState
    → Action
unfolding finish_workflow recover after_failure after_success on_phase on_attempt start_step
reconcile get list artifacts workflow =
    if is_terminal workflow.phase
    then (if phase_eq workflow.phase succeeded then record_completion else leave)
    else if workflow.active_attempt_ref == ""
    then start_step workflow workflow.steps
    else on_attempt list workflow artifacts (get workflow.active_attempt_ref)

-- The update of `beginWorkflowRetry` on the latest state of the workflow.
pub retry_update : WorkflowState → StepAttempt → String → WorkflowState → WorkflowState
retry_update workflow failed_attempt restart latest =
    if not (latest.uid == workflow.uid)
      || latest.deleting
      || is_terminal latest.phase
      || not (latest.active_attempt_ref == failed_attempt.name)
      || not (eqb_ℤ latest.workflow_attempt failed_attempt.spec.workflow_attempt)
    then latest
    else let attempt = i32 (latest.workflow_attempt +ℤ pos 1) in
      record latest {
        workflow_attempt = attempt;
        active_step_name = restart;
        active_attempt_ref = "";
        phase = running;
        observed_generation = latest.generation;
        refinement = some (record {
          iteration = attempt;
          trigger_step_name = failed_attempt.spec.step_name;
          trigger_attempt_ref = failed_attempt.name;
          restart_step_name = restart;
        });
      }
