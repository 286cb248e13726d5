-- ===== src/State/Tests.antt =====
-- Tests of the transition table and of the numberings, and the theorems at concrete inputs.
use sovereign_ai.Prelude.{◌≡◌, ◌↔◌, refl, ◌⊎◌, none, some, List, [], ◌∷◌, true, arith, Elem}
use sovereign_ai.Prelude.Int.{ℤ, pos, ◌<ℤ◌, i32, ◌+ℤ◌}
use sovereign_ai.Api.{
  unset, Phase, interrupted, pending, admitted, preparing, running, succeeded, failed, collecting,
  agent, condition_true, StepAttempt,
}
use sovereign_ai.State.{
  validate_transition, not_allowed, terminal_or_unknown, of_step, of_workflow_attempt, is_terminal,
  next_attempt_number, next_retry_number, condition_status,
}
use sovereign_ai.State.Paths.{
  can_succeed, succeeds_iff, Walk, start, step, Walk-terminal, Walk-prepared,
}
use sovereign_ai.State.Numbers.{
  IsAbove, Follows, next_retry_number_fresh, next_attempt_number_fresh,
}

table :
    (validate_transition pending admitted ≡ none)
    × (validate_transition running running ≡ none)
    × (validate_transition pending running ≡ some (not_allowed pending running))
    × (validate_transition collecting failed ≡ some (terminal_or_unknown collecting))
unfolding validate_transition
table = (refl, refl, refl, refl)

success_is_true : condition_status succeeded ≡ condition_true
unfolding condition_status
success_is_true = refl

abbrev attempt_of : ℤ → ℤ → StepAttempt
attempt_of workflow_attempt retry_number = record {
  name = "architect";
  spec = record {
    workflow_ref = record { name = "w"; uid = "u" };
    step_name = "architect";
    retry_number = retry_number;
    workflow_attempt = workflow_attempt;
    kind = agent;
  };
  status = record { phase = failed; execution_ref = none; failure_reason = ""; retryable = true };
}

abbrev history : List StepAttempt
history = attempt_of (pos 0) (pos 3) ∷ attempt_of (pos 1) (pos 1) ∷ []

numbers :
    (next_retry_number history "architect" (pos 1) ≡ pos 2)
    × (next_retry_number history "architect" (pos 2) ≡ pos 1)
    × (next_attempt_number history "architect" ≡ pos 4)
unfolding next_retry_number next_attempt_number i32 ◌+ℤ◌
numbers = (refl, refl, refl)

next_retry_number_fresh_example :
    let number = next_retry_number history "architect" (pos 1) in
    let test = of_workflow_attempt "architect" (pos 1) in
    (pos 0 <ℤ number)
    × IsAbove test number history
    × ((number ≡ pos 1) ⊎ Follows test number history)
next_retry_number_fresh_example = next_retry_number_fresh history "architect" (pos 1) (omega arith)

next_attempt_number_fresh_example :
    let number = next_attempt_number history "architect" in
    let test = of_step "architect" in
    (pos 0 <ℤ number)
    × IsAbove test number history
    × ((number ≡ pos 1) ⊎ Follows test number history)
next_attempt_number_fresh_example = next_attempt_number_fresh history "architect" (omega arith)

stays : Walk failed failed (failed ∷ [])
unfolding validate_transition
stays = step start refl

failed_is_terminal : is_terminal failed ≡ true
unfolding is_terminal
failed_is_terminal = refl

Walk-terminal_example : failed ≡ failed
Walk-terminal_example = Walk-terminal failed_is_terminal (λ e. cc) stays

to_running : Walk unset running (running ∷ preparing ∷ admitted ∷ pending ∷ [])
unfolding validate_transition
to_running = step (step (step (step start refl) refl) refl) refl

Walk-prepared_example :
    Elem admitted (running ∷ preparing ∷ admitted ∷ pending ∷ [])
    × Elem preparing (running ∷ preparing ∷ admitted ∷ pending ∷ [])
Walk-prepared_example = Walk-prepared {to = running} refl to_running

succeeds_iff_example :
    ((seen : List Phase) × Walk interrupted succeeded seen) ↔ (can_succeed interrupted ≡ true)
succeeds_iff_example = succeeds_iff interrupted
