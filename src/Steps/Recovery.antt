-- ===== src/Steps/Recovery.antt =====
-- When a failed step rewinds the workflow.
use sovereign_ai.Prelude.{
  ok, ℕ, ◌<◌, ◌≡◌, inl, inr, List, some, String, ◌==◌, eq_iff, arith, Bool-cases, Option-cases,
  get_elem?,
}
use sovereign_ai.Api.{Phase, failed, phase_eq, phase_eq_iff, StepConfig}
use sovereign_ai.Steps.{step_index, retry_workflow, decide_failure, check_target}
use sovereign_ai.Steps.Order.{step_index-some}

-- The step at an index of the workflow, with that name.
abbrev pub StepAt : List StepConfig → ℕ → String → Type 0
StepAt steps i name = (s : StepConfig) × (get_elem? steps i ≡ some s) × (s.name ≡ name)

-- A rewind goes back: `restart` names a step of the workflow that stands strictly before the
-- failed one.
abbrev pub Precedes : List StepConfig → String → String → Type 0
Precedes steps restart name =
    (i : ℕ) × (j : ℕ) × StepAt steps i restart × StepAt steps j name × (i < j)

check_target-Precedes :
    (steps : List StepConfig) (step : StepConfig) (restart target : String)
    → check_target steps step restart ≡ ok (retry_workflow target)
    → (target ≡ restart) × Precedes steps restart step.name
unfolding check_target
check_target-Precedes steps step restart target e =
    elim (Option-cases (step_index steps step.name)) [
      | inl missing ↦ cc (rw (missing, check_target) at e)
      | inr (j, at_j) ↦ elim (Option-cases (step_index steps restart)) [
        | inl missing ↦ ground arith
        | inr (i, at_i) ↦ (
          ground arith,
          (
            i,
            j,
            step_index-some steps restart i at_i,
            step_index-some steps step.name j at_j,
            ground arith,
          ),
        )
      ]
    ]

-- A workflow is rewound only for a step that failed, not for one that was interrupted, only for
-- the step `test-candidate`, only to `test-author`, and only if that step stands strictly before
-- the failed step in the workflow.
pub decide_failure-rewind :
    (steps : List StepConfig) (step : StepConfig) (phase : Phase) (restart : String)
    → decide_failure steps step phase ≡ ok (retry_workflow restart)
    → (phase ≡ failed)
      × (step.name ≡ "test-candidate")
      × (restart ≡ "test-author")
      × Precedes steps restart step.name
unfolding decide_failure
decide_failure-rewind steps step phase restart e =
    elim (Bool-cases (step.name == "test-candidate")) [
      | inl named ↦ elim (Bool-cases (phase_eq phase failed)) [
        | inl over ↦
            let (same, before) =
              check_target-Precedes steps step "test-author" restart (ground arith) in
            (
              (phase_eq_iff phase failed).0 over,
              (eq_iff step.name "test-candidate").0 named,
              same,
              rw same before,
            )
        | inr other ↦ ground arith
      ]
      | inr other ↦ ground arith
    ]
