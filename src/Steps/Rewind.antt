-- ===== src/Steps/Rewind.antt =====
-- Exactly when decideFailure rewinds an admitted workflow, and when it reports an error.
use sovereign_ai.Prelude.{
  Result, ok, err, ℕ, zero, suc, ◌≡◌, ◌≢◌, ◌⊎◌, ◌↔◌, inl, inr, refl, sym, ap, ◌∙◌, true, List, [],
  ◌∷◌, none, some, String, ◌==◌, eq_iff, arith, Bool-cases, Option-cases, get_elem?,
}
use sovereign_ai.Api.{Phase, failed, phase_eq, phase_eq_iff, StepConfig}
use sovereign_ai.Approval.{validate_approval_requirements}
use sovereign_ai.Approval.Names.{Unique}
use sovereign_ai.Approval.Gates.{validate_approval_requirements_iff}
use sovereign_ai.Steps.{
  StepError, FailureDecision, index_from, step_index, retry_workflow, decide_failure, check_target,
}
use sovereign_ai.Steps.Order.{step_index-some}
use sovereign_ai.Steps.Recovery.{StepAt, Precedes, decide_failure-rewind}

-- Where stepIndex finds no step, none has the name.
index_from-none :
    (k : ℕ) (steps : List StepConfig) (name : String) (i : ℕ) (s : StepConfig)
    → index_from k steps name ≡ none
    → get_elem? steps i ≡ some s
    → s.name ≢ name
unfolding index_from
index_from-none k [] name i s e g = cc
index_from-none k (step ∷ steps) name zero s e g =
    let is = eq_iff step.name name in λ n. absurd (ground arith)
index_from-none k (step ∷ steps) name (suc i) s e g = elim (Bool-cases (step.name == name)) [
  | inl same ↦ absurd (ground arith)
  | inr other ↦ index_from-none (suc k) steps name i s (rw other at e) g
]

-- Among different names stepIndex finds the step that has the name.
step_index-StepAt :
    (steps : List StepConfig) (name : String) (i : ℕ)
    → Unique steps
    → StepAt steps i name
    → step_index steps name ≡ some i
unfolding step_index
step_index-StepAt steps name i unique (s, found, named) =
    elim (Option-cases (step_index steps name)) [
      | inl e ↦ absurd (index_from-none 0 steps name i s e found named)
      | inr (j, e) ↦
          let (t, found', named') = step_index-some steps name j e in
          let same = unique j i t s found' found (named' ∙ sym named) in rw same at e
    ]

Precedes-rewind :
    (steps : List StepConfig) (step : StepConfig) (restart : String)
    → Unique steps
    → Precedes steps restart step.name
    → check_target steps step restart ≡ ok (retry_workflow restart)
unfolding check_target
Precedes-rewind steps step restart unique (i, j, at_i, at_j, less) =
    let a = step_index-StepAt steps restart i unique at_i in
    let b = step_index-StepAt steps step.name j unique at_j in ground arith

-- A failed step `test-candidate` is decided by its rewind.
decided_by_target :
    (steps : List StepConfig) (step : StepConfig) (phase : Phase)
    → phase ≡ failed
    → step.name ≡ "test-candidate"
    → decide_failure steps step phase ≡ check_target steps step "test-author"
unfolding decide_failure
decided_by_target steps step phase over named =
    let p : phase_eq phase failed ≡ true = (phase_eq_iff phase failed).1 over in
    let n : (step.name == "test-candidate") ≡ true = (eq_iff step.name "test-candidate").1 named in
    rw (n, p) refl

check_target-ok :
    (steps : List StepConfig) (step : StepConfig) (restart : String) (decision : FailureDecision)
    → check_target steps step restart ≡ ok decision
    → decision ≡ retry_workflow restart
unfolding check_target
check_target-ok steps step restart decision e = elim (Option-cases (step_index steps step.name)) [
  | inl missing ↦ cc (rw (missing, check_target) at e)
  | inr (j, at_j) ↦ elim (Option-cases (step_index steps restart)) [
    | inl missing ↦ ground arith
    | inr (i, at_i) ↦ ground arith
  ]
]

failed_by_target :
    (steps : List StepConfig) (step : StepConfig) (phase : Phase) (e : StepError)
    → decide_failure steps step phase ≡ err e
    → (phase ≡ failed) × (step.name ≡ "test-candidate")
unfolding decide_failure
failed_by_target steps step phase e h = elim (Bool-cases (step.name == "test-candidate")) [
  | inl named ↦ elim (Bool-cases (phase_eq phase failed)) [
    | inl over ↦ ((phase_eq_iff phase failed).0 over, (eq_iff step.name "test-candidate").0 named)
    | inr other ↦ ground arith
  ]
  | inr other ↦ ground arith
]

Result-cases :
    (r : Result StepError FailureDecision)
    → ((e : StepError) × (r ≡ err e)) ⊎ ((d : FailureDecision) × (r ≡ ok d))
Result-cases (err e) = inl (e, refl)
Result-cases (ok d) = inr (d, refl)

ok_not_err :
    (d : FailureDecision) (e : StepError)
    → ◌≡◌ {A = Result StepError FailureDecision} (ok d) (err e)
    → ⊥
ok_not_err d e h = cc

-- In a workflow whose steps are admitted, a failure rewinds exactly if a step `test-candidate` ended in
-- the phase Failed and `test-author` stands strictly before it, and it rewinds to that step. It is
-- an error exactly if such a step ended in that phase and `test-author` does not stand before it.
pub decide_failure-rewind_iff :
    (steps : List StepConfig) (step : StepConfig) (phase : Phase) (restart : String)
    → validate_approval_requirements steps ≡ none
    → ((decide_failure steps step phase ≡ ok (retry_workflow restart)) ↔ (
        (phase ≡ failed)
        × (step.name ≡ "test-candidate")
        × (restart ≡ "test-author")
        × Precedes steps restart step.name))
      × (((e : StepError) × (decide_failure steps step phase ≡ err e)) ↔ (
          (phase ≡ failed)
          × (step.name ≡ "test-candidate")
          × ¬ Precedes steps "test-author" step.name))
decide_failure-rewind_iff steps step phase restart admitted =
    let unique = ((validate_approval_requirements_iff steps).0 admitted).0 in
    (
      (
        decide_failure-rewind steps step phase restart,
        λ (over, named, is, before).
            decided_by_target steps step phase over named
            ∙ Precedes-rewind steps step "test-author" unique (rw is at before)
            ∙ ap (λ (r : String). ok (retry_workflow r)) (sym is),
      ),
      (
        λ (e, h).
            let (over, named) = failed_by_target steps step phase e h in
            (
              over,
              named,
              λ before. ok_not_err (retry_workflow "test-author") e (
                  sym (Precedes-rewind steps step "test-author" unique before)
                  ∙ sym (decided_by_target steps step phase over named)
                  ∙ h),
            ),
        λ (over, named, not_before). elim (Result-cases (decide_failure steps step phase)) [
          | inl failure ↦ failure
          | inr (d, e) ↦
              let is =
                check_target-ok steps step "test-author" d
                  (sym (decided_by_target steps step phase over named) ∙ e) in
              absurd
                (not_before ((decide_failure-rewind steps step phase "test-author" (rw is at e)).3))
        ],
      ),
    )
