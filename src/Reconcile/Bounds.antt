-- ===== src/Reconcile/Bounds.antt =====
-- When a reconciliation finishes or rewinds a workflow, and how often it can rewind it.
use sovereign_ai.Prelude.{
  ◌∙◌, ◌≡◌, refl, ◌≢◌, ◌⊎◌, inl, inr, true, false, Bool, List, [], ◌∷◌, some, none, arith, All,
  Bool-cases, Option-cases, String, ◌==◌, Result, ok, err,
}
use sovereign_ai.Prelude.Int.{
  pos, ◌+ℤ◌, ◌≤ℤ◌, ◌<ℤ◌, i32, i32_of_IsI32, max_i32, int_laws, eqb_ℤ_iff,
}
use sovereign_ai.Api.{Phase, succeeded, failed, StepConfig, StepAttempt, Artifact}
use sovereign_ai.State.{is_terminal}
use sovereign_ai.Steps.{
  StepError, find_step, next_step, decide_failure, retry_workflow, retry_step, fail_workflow,
  FailureDecision,
}
use sovereign_ai.Steps.Recovery.{Precedes, decide_failure-rewind}
use sovereign_ai.Reconcile.{
  fail, invalid_recovery_policy, WorkflowState, Action, succeed, begin_workflow_retry,
  outputs_ready, final_step_outputs_accepted, finish_workflow, recover, after_failure,
  after_success, on_phase, FetchedAttempt, attempt_found, attempt_missing, attempt_failed,
  on_attempt, start_step, reconcile, retry_update,
}
use sovereign_ai.Reconcile.Outputs.{number_accepted, NoneRejected, outputs_ready_sound}

-- An action that only the phase of the active attempt leads to.
abbrev is_phase_action : Action → Bool
is_phase_action succeed = true
is_phase_action (begin_workflow_retry restart) = true
is_phase_action _ = false

module _ (list : String → Result String (List StepAttempt)) (artifacts : List Artifact)
    (workflow : WorkflowState) where
  start_step-other : (steps : List StepConfig) → is_phase_action (start_step workflow steps) ≡ false
  unfolding start_step
  start_step-other [] = refl
  start_step-other (first ∷ steps) = ground arith

  on_attempt-found :
      (fetched : FetchedAttempt) (action : Action)
      → on_attempt list workflow artifacts fetched ≡ action
      → is_phase_action action ≡ true
      → (attempt : StepAttempt) × (fetched ≡ attempt_found attempt)
        × (on_phase workflow artifacts attempt attempt.status.phase ≡ action)
  unfolding on_attempt
  on_attempt-found (attempt_found attempt) action e h = (attempt, refl, e)
  on_attempt-found (attempt_failed m) action e h = cc (rw (← e) at h)
  on_attempt-found attempt_missing action e h = absurd (ground arith)

  reconcile-on_phase :
      (get : String → FetchedAttempt) (action : Action)
      → reconcile get list artifacts workflow ≡ action
      → is_phase_action action ≡ true
      → (attempt : StepAttempt) × (get workflow.active_attempt_ref ≡ attempt_found attempt)
        × (is_terminal workflow.phase ≡ false)
        × (on_phase workflow artifacts attempt attempt.status.phase ≡ action)
  unfolding reconcile
  reconcile-on_phase get action e h = elim (Bool-cases (is_terminal workflow.phase)) [
    | inl over ↦ ground arith
    | inr active ↦ elim (Bool-cases (workflow.active_attempt_ref == "")) [
      | inl idle ↦
          let started : start_step workflow workflow.steps ≡ action = ground arith in
          let other = start_step-other workflow.steps in cc (rw started at other, h)
      | inr busy ↦
          let (attempt, g, p) =
            on_attempt-found (get workflow.active_attempt_ref) action (ground arith) h in
          (attempt, g, active, p)
    ]
  ]

  after_success-succeed :
      (attempt : StepAttempt)
      → after_success workflow artifacts attempt ≡ succeed
      → (final : StepConfig) × (find_step workflow.steps attempt.spec.step_name ≡ some final)
        × (next_step workflow.steps attempt.spec.step_name ≡ none)
        × (final_step_outputs_accepted attempt artifacts final.outputs ≡ outputs_ready)
  unfolding after_success finish_workflow
  after_success-succeed attempt e =
      elim (Option-cases (next_step workflow.steps attempt.spec.step_name)) [
        | inr (next, more) ↦ ground arith
        | inl last ↦ elim (Option-cases (find_step workflow.steps attempt.spec.step_name)) [
          | inl missing ↦ ground arith
          | inr (final, shown) ↦ (final, shown, last, ground arith)
        ]
      ]

  after_failure-other : (attempt : StepAttempt) → after_failure workflow attempt ≢ succeed
  unfolding after_failure recover
  after_failure-other attempt e = ground arith

  on_phase-succeed :
      (attempt : StepAttempt) (phase : Phase)
      → on_phase workflow artifacts attempt phase ≡ succeed
      → (phase ≡ succeeded) × (after_success workflow artifacts attempt ≡ succeed)
  unfolding on_phase
  on_phase-succeed attempt phase e = ground (arith, after_failure-other attempt)

  after_success-other :
      (attempt : StepAttempt) (restart : String)
      → after_success workflow artifacts attempt ≢ begin_workflow_retry restart
  unfolding after_success finish_workflow
  after_success-other attempt restart e = ground arith

  on_phase-retry :
      (attempt : StepAttempt) (phase : Phase) (restart : String)
      → on_phase workflow artifacts attempt phase ≡ begin_workflow_retry restart
      → after_failure workflow attempt ≡ begin_workflow_retry restart
  unfolding on_phase
  on_phase-retry attempt phase restart e = ground (arith, after_success-other attempt restart)

  -- A rewind of the workflow to a step, decided from the state of the workflow.
  pub record IsRewind (attempt : StepAttempt) (restart : String) : Type 0 where
    pub step : StepConfig
    pub failed_step : find_step workflow.steps attempt.spec.step_name ≡ some step
    pub is_failed : attempt.status.phase ≡ failed
    pub backwards : Precedes workflow.steps restart step.name
    pub below_limit : workflow.workflow_attempt <ℤ workflow.max_workflow_attempt

  recover-retry :
      (attempt : StepAttempt) (step : StepConfig) (decision : FailureDecision) (restart : String)
      → recover workflow attempt step decision ≡ begin_workflow_retry restart
      → (decision ≡ retry_workflow restart)
        × (workflow.workflow_attempt <ℤ workflow.max_workflow_attempt)
  unfolding recover
  recover-retry attempt step (retry_workflow r) restart e = (ground arith, ground arith)
  recover-retry attempt step fail_workflow restart e = cc
  recover-retry attempt step retry_step restart e = ground arith

  after_failure-IsRewind :
      (attempt : StepAttempt) (restart : String)
      → after_failure workflow attempt ≡ begin_workflow_retry restart
      → IsRewind attempt restart
  unfolding after_failure
  after_failure-IsRewind attempt restart e =
      elim (Option-cases (find_step workflow.steps attempt.spec.step_name)) [
        | inl missing ↦ ground arith
        | inr (step, shown) ↦
            decided step shown (decide_failure workflow.steps step attempt.status.phase) refl
              (rw (shown, after_failure) at e)
      ]
    where
      decided :
          (step : StepConfig)
          → find_step workflow.steps attempt.spec.step_name ≡ some step
          → (result : Result StepError FailureDecision)
          → decide_failure workflow.steps step attempt.status.phase ≡ result
          → elim result [
            | err reason ↦ fail (invalid_recovery_policy reason)
            | ok decision ↦ recover workflow attempt step decision
          ]
            ≡ begin_workflow_retry restart
          → IsRewind attempt restart
      decided step shown (err reason) d e = cc
      decided step shown (ok decision) d e =
          let (same, below) = recover-retry attempt step decision restart e in
          let (over, _, _, before) =
            decide_failure-rewind workflow.steps step attempt.status.phase restart (rw same at d) in
          record {
            step = step;
            failed_step = shown;
            is_failed = over;
            backwards = before;
            below_limit = below;
          }

-- A reconciliation reports a workflow succeeded only if its active attempt succeeded, is of a step
-- with no next step, and for each output that this step declares exactly one accepted artifact of
-- the attempt's execution exists and none that failed.
pub reconcile-succeed :
    (get : String → FetchedAttempt) (list : String → Result String (List StepAttempt))
    (artifacts : List Artifact) (workflow : WorkflowState)
    → reconcile get list artifacts workflow ≡ succeed
    → (attempt : StepAttempt) × (final : StepConfig) × (get workflow.active_attempt_ref
        ≡ attempt_found attempt)
      × (attempt.status.phase ≡ succeeded)
      × (find_step workflow.steps attempt.spec.step_name ≡ some final)
      × (next_step workflow.steps attempt.spec.step_name ≡ none)
      × All
          (λ output.
            (number_accepted attempt output artifacts ≡ 1) × NoneRejected attempt output artifacts)
          final.outputs
reconcile-succeed get list artifacts workflow e =
    let (attempt, g, _, p) = reconcile-on_phase list artifacts workflow get succeed e refl in
    let (over, s) = on_phase-succeed list artifacts workflow attempt attempt.status.phase p in
    let (final, shown, last, ready) = after_success-succeed list artifacts workflow attempt s in
    (
      attempt,
      final,
      g,
      over,
      shown,
      last,
      outputs_ready_sound attempt artifacts final.outputs ready,
    )

retry_update-cases :
    (workflow : WorkflowState) (attempt : StepAttempt) (restart : String) (latest : WorkflowState)
    → (retry_update workflow attempt restart latest ≡ latest)
      ⊎ ((latest.workflow_attempt ≡ attempt.spec.workflow_attempt)
          × ((retry_update workflow attempt restart latest).workflow_attempt
              ≡ i32 (latest.workflow_attempt +ℤ pos 1)))
unfolding retry_update
retry_update-cases workflow attempt restart latest =
    let same = eqb_ℤ_iff latest.workflow_attempt attempt.spec.workflow_attempt in ground arith

-- If a reconciliation decides to rewind the workflow, and the active attempt belongs to the workflow
-- attempt that it read, then that attempt failed at a step that the restart step strictly precedes,
-- and the update, on whatever state of the workflow it then finds, leaves it or advances the
-- workflow attempt by one to at most the limit. The workflow attempt that it read is not negative,
-- and the limit is an int32.
pub reconcile-IsRewind :
    (get : String → FetchedAttempt) (list : String → Result String (List StepAttempt))
    (artifacts : List Artifact) (workflow latest : WorkflowState) (attempt : StepAttempt)
    (restart : String)
    → get workflow.active_attempt_ref ≡ attempt_found attempt
    → attempt.spec.workflow_attempt ≡ workflow.workflow_attempt
    → pos 0 ≤ℤ workflow.workflow_attempt
    → workflow.max_workflow_attempt ≤ℤ pos max_i32
    → reconcile get list artifacts workflow ≡ begin_workflow_retry restart
    → IsRewind list artifacts workflow attempt restart
      × ((retry_update workflow attempt restart latest ≡ latest)
          ⊎ (((retry_update workflow attempt restart latest).workflow_attempt
                ≡ latest.workflow_attempt +ℤ pos 1)
              × ((retry_update workflow attempt restart latest).workflow_attempt
                  ≤ℤ workflow.max_workflow_attempt)))
reconcile-IsRewind get list artifacts workflow latest attempt restart g own low high e =
    let (a, g', _, p) =
      reconcile-on_phase list artifacts workflow get (begin_workflow_retry restart) e refl in
    let one : a ≡ attempt = cc (g, g') in
    let f = on_phase-retry list artifacts workflow a a.status.phase restart p in
    let rewind = rw one at (after_failure-IsRewind list artifacts workflow a restart f) in
    let below = rewind.below_limit in
    (
      rewind,
      elim (retry_update-cases workflow attempt restart latest) [
        | inl left ↦ inl left
        | inr (same, next) ↦
            let now : latest.workflow_attempt ≡ workflow.workflow_attempt = same ∙ own in
            let exact : i32 (latest.workflow_attempt +ℤ pos 1) ≡ latest.workflow_attempt +ℤ pos 1 =
              i32_of_IsI32 _ (rw now (omega int_laws, omega int_laws)) in
            inr (next ∙ exact, rw (next, exact, now) (omega int_laws))
      ],
    )
