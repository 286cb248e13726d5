-- ===== src/Steps/Tests.antt =====
-- Tests of the order of the steps, and the theorems at concrete inputs.
use sovereign_ai.Prelude.{ok, err, ℕ, ◌<◌, ◌≡◌, ◌↔◌, refl, some, none, true, String, get_elem?}
use sovereign_ai.Api.{phase_eq, failed, interrupted, StepConfig}
use sovereign_ai.Samples.{contract, canonical, author, test, gate, merge}
use sovereign_ai.Steps.{
  StepError, step_index, find_step, next_step, decide_failure, workflow_input_producer, retry_step,
  retry_workflow, bootstrap, no_producer, producer_step,
}
use sovereign_ai.Steps.Order.{at, after, next_step-eq-at}
use sovereign_ai.Steps.Recovery.{Precedes, decide_failure-rewind}
use sovereign_ai.Steps.Rewind.{decide_failure-rewind_iff}
use sovereign_ai.Approval.{validate_approval_requirements}
use sovereign_ai.Steps.Producers.{produces, NoneBelow, workflow_input_producer_sound}

indices :
    (step_index canonical "review" ≡ some 2)
    × (find_step canonical "review" ≡ some gate)
    × (next_step canonical "review" ≡ some merge)
    × (next_step canonical "merge" ≡ none)
unfolding step_index find_step next_step
indices = (refl, refl, refl, refl)

rewinds : decide_failure canonical test failed ≡ ok (retry_workflow "test-author")
unfolding decide_failure step_index phase_eq
rewinds = refl

retries : decide_failure canonical test interrupted ≡ ok retry_step
unfolding decide_failure phase_eq
retries = refl

producers :
    (workflow_input_producer (contract "change-request") canonical gate "test-report"
      ≡ ok (producer_step 1))
    × (workflow_input_producer (contract "change-request") canonical author "change-request"
        ≡ ok bootstrap)
    × (workflow_input_producer (contract "change-request") canonical gate "image" ≡ ok no_producer)
unfolding workflow_input_producer step_index
producers = (refl, refl, refl)

next_step-eq-at_example :
    next_step canonical "review" ≡ at canonical (after (step_index canonical "review"))
next_step-eq-at_example = next_step-eq-at canonical "review"

decide_failure-rewind_example :
    (failed ≡ failed)
    × (test.name ≡ "test-candidate")
    × (◌≡◌ {A = String} "test-author" "test-author")
    × Precedes canonical "test-author" test.name
decide_failure-rewind_example = decide_failure-rewind canonical test failed "test-author" rewinds

canonical_admitted : validate_approval_requirements canonical ≡ none
unfolding validate_approval_requirements
canonical_admitted = refl

decide_failure-rewind_iff_example :
    ((decide_failure canonical test failed ≡ ok (retry_workflow "test-author")) ↔ (
      (failed ≡ failed)
      × (test.name ≡ "test-candidate")
      × (◌≡◌ {A = String} "test-author" "test-author")
      × Precedes canonical "test-author" test.name))
    × (((e : StepError) × (decide_failure canonical test failed ≡ err e)) ↔ (
        (failed ≡ failed)
        × (test.name ≡ "test-candidate")
        × ¬ Precedes canonical "test-author" test.name))
decide_failure-rewind_iff_example =
    decide_failure-rewind_iff canonical test failed "test-author" canonical_admitted

workflow_input_producer_sound_example :
    ((p : ℕ)
      → workflow_input_producer (contract "change-request") canonical gate "test-report"
        ≡ ok (producer_step p)
      → (c : ℕ) × (s : StepConfig) × (step_index canonical gate.name ≡ some c)
        × (p < c)
        × (get_elem? canonical p ≡ some s)
        × (produces "test-report" s ≡ true)
        × NoneBelow "test-report" c canonical (some p))
    × (workflow_input_producer (contract "change-request") canonical gate "test-report"
          ≡ ok no_producer
        → (c : ℕ) × (step_index canonical gate.name ≡ some c)
          × NoneBelow "test-report" c canonical none)
    × ((workflow_input_producer (contract "change-request") canonical gate "test-report"
          ≡ ok bootstrap)
        ↔ (◌≡◌ {A = String} "change-request" "test-report"))
workflow_input_producer_sound_example =
    workflow_input_producer_sound (contract "change-request") canonical gate "test-report"
