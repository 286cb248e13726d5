-- ===== src/Steps.antt =====
-- The order of a workflow's steps: stepIndex and decideFailure of
-- internal/controllers/workflow/recovery.go, findStep and nextStep of workflow_controller.go,
-- workflowInputProducer of input_selection.go. Go's index -1 is `none`.
pub mod Order
pub mod Recovery
pub mod Rewind
pub mod Producers
mod Tests
use sovereign_ai.Prelude.{
  Result, ok, err, ◌>>=◌, ℕ, zero, suc, ◌+◌, Bool, true, false, ◌&&◌, ◌||◌, not, List, [], ◌∷◌,
  Option, none, some, String, ◌==◌, any, length, filter, eqb, leb, is_none, get_elem?,
  if◌then◌else◌,
}
use sovereign_ai.Prelude.Int.{leb_ℤ}
use sovereign_ai.Api.{
  Phase, failed, phase_eq, ExecutionKind, utility, human_gate, ArtifactReference, StepConfig,
  ContractReference,
}

-- An `error` of this package, by its message and the names in it.
pub data StepError : Type 0 where
  not_part : String → StepError
  no_target : String → StepError
  must_precede : String → String → StepError
  no_consumer : String → StepError
  many_producers : String → String → String → StepError

-- The loop of `stepIndex`, from `index` on.
index_from : ℕ → List StepConfig → String → Option ℕ
index_from index [] name = none
index_from index (step ∷ steps) name =
    if step.name == name then some index else index_from (suc index) steps name

unfoldable pub step_index : List StepConfig → String → Option ℕ
unfolding index_from
step_index steps name = index_from 0 steps name

unfoldable pub find_step : List StepConfig → String → Option StepConfig
find_step [] name = none
find_step (step ∷ steps) name = if step.name == name then some step else find_step steps name

-- `steps[i+1]` behind the first step of that name that is not the last.
unfoldable pub next_step : List StepConfig → String → Option StepConfig
next_step [] name = none
next_step (step ∷ []) name = none
next_step (step ∷ next ∷ steps) name =
    if step.name == name then some next else next_step (next ∷ steps) name

pub data FailureDecision : Type 0 where
  retry_step fail_workflow : FailureDecision
  retry_workflow : String → FailureDecision

-- The map `stepFailurePolicies`.
step_failure_policy : String → Option FailureDecision
step_failure_policy name =
    if name == "test-candidate" then some (retry_workflow "test-author") else none

-- From `failedIndex := stepIndex(…)` on.
check_target : List StepConfig → StepConfig → String → Result StepError FailureDecision
check_target steps failed_step restart = elim (step_index steps failed_step.name) [
  | none ↦ err (not_part failed_step.name)
  | some failed_index ↦ elim (step_index steps restart) [
    | none ↦ err (no_target restart)
    | some restart_index ↦
        if leb failed_index restart_index
        then err (must_precede restart failed_step.name)
        else ok (retry_workflow restart)
  ]
]

apply_policy :
    List StepConfig → StepConfig → Phase → Option FailureDecision → Result StepError FailureDecision
apply_policy steps failed_step phase none = ok retry_step
apply_policy steps failed_step phase (some (retry_workflow restart)) =
    if not (phase_eq phase failed) then ok retry_step else check_target steps failed_step restart
apply_policy steps failed_step phase (some decision) = ok decision

unfoldable pub decide_failure :
    List StepConfig → StepConfig → Phase → Result StepError FailureDecision
unfolding step_failure_policy apply_policy check_target
decide_failure steps failed_step phase =
    apply_policy steps failed_step phase (step_failure_policy failed_step.name)

-- The loop over `Outputs` of the step at `index`: `found` is `producerIndex` with that step's name.
scan_outputs :
    String
    → String
    → ℕ
    → Option (ℕ × String)
    → List ContractReference
    → Result StepError (Option (ℕ × String))
scan_outputs contract step_name index found [] = ok found
scan_outputs contract step_name index found (output ∷ outputs) =
    if not (output.name == contract)
    then scan_outputs contract step_name index found outputs
    else elim found [
      | none ↦ scan_outputs contract step_name index (some (index, step_name)) outputs
      | some earlier ↦ err (many_producers contract (earlier.1) step_name)
    ]

-- The loop over the steps before the consumer, of which `bound` are left.
scan_steps :
    String → ℕ → ℕ → Option (ℕ × String) → List StepConfig → Result StepError (Option (ℕ × String))
scan_steps contract zero index found steps = ok found
scan_steps contract (suc bound) index found [] = ok found
scan_steps contract (suc bound) index found (step ∷ steps) =
    scan_outputs contract step.name index found step.outputs >>= λ found'.
    scan_steps contract bound (suc index) found' steps

pub data Producer : Type 0 where
  bootstrap no_producer : Producer
  producer_step : ℕ → Producer

to_producer : Option (ℕ × String) → Producer
to_producer none = no_producer
to_producer (some found) = producer_step (found.0)

-- From `consumerIndex := stepIndex(…)` on.
upstream_producer : List StepConfig → StepConfig → String → Result StepError Producer
unfolding scan_outputs scan_steps to_producer
upstream_producer steps consumer contract = elim (step_index steps consumer.name) [
  | none ↦ err (no_consumer consumer.name)
  | some consumer_index ↦
      scan_steps contract consumer_index 0 none steps >>= λ found. ok (to_producer found)
]

unfoldable pub workflow_input_producer :
    ContractReference → List StepConfig → StepConfig → String → Result StepError Producer
unfolding upstream_producer
workflow_input_producer bootstrap_contract steps consumer contract =
    if bootstrap_contract.name == contract
    then ok bootstrap
    else upstream_producer steps consumer contract
