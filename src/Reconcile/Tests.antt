-- ===== src/Reconcile/Tests.antt =====
-- Reconciliations of a concrete workflow, and the theorems there.
use sovereign_ai.Prelude.{
  arith, ◌≡◌, refl, ◌⊎◌, false, List, [], ◌∷◌, some, none, String, ok, Result, All,
}
use sovereign_ai.Prelude.Int.{pos, ◌+ℤ◌, ◌≤ℤ◌, i32}
use sovereign_ai.Api.{phase_eq, running, succeeded, failed, StepConfig, StepAttempt}
use sovereign_ai.Samples.{canonical, author, test, tested, report}
use sovereign_ai.State.{is_terminal, next_retry_number}
use sovereign_ai.Steps.{step_index, find_step, next_step, decide_failure}
use sovereign_ai.Artifacts.{artifact_accepted}
use sovereign_ai.Reconcile.{
  WorkflowState, requeue, succeed, create_attempt, begin_workflow_retry, FetchedAttempt,
  attempt_found, attempt_missing, final_step_outputs_accepted, reconcile, retry_update,
}
use sovereign_ai.Reconcile.Outputs.{number_accepted, NoneRejected}
use sovereign_ai.Reconcile.Bounds.{IsRewind, reconcile-succeed, reconcile-IsRewind}

abbrev workflow : WorkflowState
workflow = record {
  uid = "uid-wf";
  deleting = false;
  generation = pos 1;
  steps = canonical;
  max_workflow_attempt = pos 2;
  observed_generation = pos 1;
  phase = running;
  active_step_name = "test-candidate";
  active_attempt_ref = "wf-test-candidate-1";
  workflow_attempt = pos 1;
  refinement = none;
}

-- The workflow that ends with the step test-candidate.
abbrev short : WorkflowState
short = record workflow { steps = author ∷ test ∷ [] }

abbrev test_failed : StepAttempt
test_failed = record tested { status = record tested.status { phase = failed } }

abbrev get_tested : String → FetchedAttempt
get_tested name = attempt_found tested

abbrev get_failed : String → FetchedAttempt
get_failed name = attempt_found test_failed

abbrev list : String → Result String (List StepAttempt)
list step = ok (tested ∷ [])

succeeds : reconcile get_tested list (report ∷ []) short ≡ succeed
unfolding reconcile is_terminal next_step find_step final_step_outputs_accepted artifact_accepted
    phase_eq
succeeds = refl

waits : reconcile get_tested list [] short ≡ requeue
unfolding reconcile is_terminal next_step find_step final_step_outputs_accepted artifact_accepted
    phase_eq
waits = refl

rewinds : reconcile get_failed list [] workflow ≡ begin_workflow_retry "test-author"
unfolding reconcile is_terminal find_step decide_failure step_index phase_eq
rewinds = refl

recreates : reconcile (λ name. attempt_missing) list [] workflow ≡ create_attempt test (pos 2)
unfolding reconcile is_terminal find_step next_retry_number i32 ◌+ℤ◌
recreates = refl

reconcile-succeed_example :
    (attempt : StepAttempt) × (final : StepConfig) × (get_tested short.active_attempt_ref
      ≡ attempt_found attempt)
    × (attempt.status.phase ≡ succeeded)
    × (find_step short.steps attempt.spec.step_name ≡ some final)
    × (next_step short.steps attempt.spec.step_name ≡ none)
    × All
        (λ output.
          (number_accepted attempt output (report ∷ []) ≡ 1)
          × NoneRejected attempt output (report ∷ []))
        final.outputs
reconcile-succeed_example = reconcile-succeed get_tested list (report ∷ []) short succeeds

reconcile-IsRewind_example :
    IsRewind list [] workflow test_failed "test-author"
    × ((retry_update workflow test_failed "test-author" workflow ≡ workflow)
        ⊎ (((retry_update workflow test_failed "test-author" workflow).workflow_attempt
              ≡ pos 1 +ℤ pos 1)
            × ((retry_update workflow test_failed "test-author" workflow).workflow_attempt
                ≤ℤ pos 2)))
reconcile-IsRewind_example =
    reconcile-IsRewind get_failed list [] workflow workflow test_failed "test-author" refl refl
      (omega arith) (omega arith) rewinds
