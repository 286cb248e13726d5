-- ===== src/State.antt =====
-- internal/domain/state/state.go: the transition table of a resource phase and the numbering of
-- step attempts. An `error` is `Option TransitionError`, with `none` for nil.
pub mod Paths
pub mod Numbers
mod Tests
use sovereign_ai.Prelude.{
  Bool, true, false, ◌&&◌, List, [], ◌∷◌, Option, none, some, String, ◌==◌, any, if◌then◌else◌,
}
use sovereign_ai.Prelude.Int.{ℤ, pos, ◌+ℤ◌, ltb_ℤ, eqb_ℤ, i32}
use sovereign_ai.Api.{
  Phase, unset, pending, admitted, preparing, running, awaiting_approval, intervening, validating,
  retrying, succeeded, failed, cancelled, interrupted, phase_eq, StepAttempt, ConditionStatus,
  condition_true, condition_false, condition_unknown,
}

-- The map `transitions`; `none` is a missing key.
pub transitions : Phase → Option (List Phase)
transitions unset = some (pending ∷ [])
transitions pending = some (admitted ∷ cancelled ∷ failed ∷ [])
transitions admitted = some (preparing ∷ cancelled ∷ failed ∷ [])
transitions preparing = some (running ∷ retrying ∷ failed ∷ cancelled ∷ [])
transitions running = some (
    awaiting_approval ∷ intervening ∷ validating ∷ succeeded ∷ interrupted ∷ retrying ∷ failed
    ∷ cancelled ∷ [])
transitions awaiting_approval =
    some (running ∷ intervening ∷ validating ∷ succeeded ∷ failed ∷ cancelled ∷ [])
transitions intervening = some (running ∷ succeeded ∷ failed ∷ cancelled ∷ [])
transitions validating = some (succeeded ∷ failed ∷ retrying ∷ cancelled ∷ [])
transitions interrupted = some (retrying ∷ failed ∷ cancelled ∷ [])
transitions retrying = some (preparing ∷ failed ∷ cancelled ∷ [])
transitions _ = none

pub data TransitionError : Type 0 where
  terminal_or_unknown : Phase → TransitionError
  not_allowed : Phase → Phase → TransitionError

check_allowed : Phase → Phase → Option (List Phase) → Option TransitionError
check_allowed from to none = some (terminal_or_unknown from)
check_allowed from to (some allowed) =
    if any (phase_eq to) allowed then none else some (not_allowed from to)

pub validate_transition : Phase → Phase → Option TransitionError
unfolding transitions check_allowed phase_eq
validate_transition from to =
    if phase_eq from to then none else check_allowed from to (transitions from)

unfoldable pub is_terminal : Phase → Bool
is_terminal succeeded = true
is_terminal failed = true
is_terminal cancelled = true
is_terminal interrupted = true
is_terminal _ = false

pub condition_status : Phase → ConditionStatus
condition_status succeeded = condition_true
condition_status failed = condition_false
condition_status cancelled = condition_false
condition_status interrupted = condition_false
condition_status _ = condition_unknown

-- The loop of both functions: the greatest retry number of the attempts that `test` selects,
-- from the zero value on.
larger_retry : (StepAttempt → Bool) → ℤ → StepAttempt → ℤ
larger_retry test max attempt =
    if test attempt && ltb_ℤ max attempt.spec.retry_number then attempt.spec.retry_number else max

max_retry : (StepAttempt → Bool) → ℤ → List StepAttempt → ℤ
unfolding larger_retry
max_retry test max [] = max
max_retry test max (attempt ∷ attempts) = max_retry test (larger_retry test max attempt) attempts

abbrev pub of_step : String → StepAttempt → Bool
of_step step_name attempt = attempt.spec.step_name == step_name

abbrev pub of_workflow_attempt : String → ℤ → StepAttempt → Bool
of_workflow_attempt step_name workflow_attempt attempt =
    attempt.spec.step_name == step_name && eqb_ℤ attempt.spec.workflow_attempt workflow_attempt

pub next_attempt_number : List StepAttempt → String → ℤ
next_attempt_number attempts step_name =
    i32 (max_retry (of_step step_name) (pos 0) attempts +ℤ pos 1)

unfoldable pub next_retry_number : List StepAttempt → String → ℤ → ℤ
unfolding max_retry
next_retry_number attempts step_name workflow_attempt =
    i32 (max_retry (of_workflow_attempt step_name workflow_attempt) (pos 0) attempts +ℤ pos 1)
