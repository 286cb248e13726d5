-- ===== src/Reconcile/Outputs.antt =====
-- When the outputs of the last step count as accepted.
use sovereign_ai.Prelude.{
  ℕ, suc, ◌+◌, ◌≡◌, ◌≢◌, inl, inr, true, List, [], ◌∷◌, some, arith, All, Bool-cases, Option-cases,
  if◌then◌else◌, ◌&&◌,
}
use sovereign_ai.Api.{failed, phase_eq, phase_eq_iff, ContractReference, StepAttempt, Artifact}
use sovereign_ai.Artifacts.{artifact_accepted}
use sovereign_ai.Reconcile.{is_output, count_accepted, outputs_ready, final_step_outputs_accepted}

module _ (attempt : StepAttempt) (output : ContractReference) where
  -- The number of accepted artifacts that the attempt produced for the output.
  abbrev pub number_accepted : List Artifact → ℕ
  number_accepted [] = 0
  number_accepted (a ∷ artifacts) =
      let rest = number_accepted artifacts in
      if is_output attempt output a && artifact_accepted a then suc rest else rest

  -- No artifact that the attempt produced for the output failed.
  abbrev pub NoneRejected : List Artifact → Type 0
  NoneRejected artifacts =
      All (λ a. is_output attempt output a ≡ true → a.status.phase ≢ failed) artifacts

  pub count_accepted_sound :
      (count n : ℕ) (artifacts : List Artifact)
      → count_accepted attempt output count artifacts ≡ some n
      → NoneRejected artifacts × (n ≡ count + number_accepted artifacts)
  unfolding count_accepted
  count_accepted_sound count n [] e = (tt, ground arith)
  count_accepted_sound count n (a ∷ artifacts) e =
      let bad = phase_eq_iff a.status.phase failed in
      elim (Bool-cases (is_output attempt output a)) [
        | inr other ↦
            let (r, k) = count_accepted_sound count n artifacts (rw (other, count_accepted) at e) in
            ((λ c p. cc (c, other), r), ground arith)
        | inl own ↦ elim (Bool-cases (phase_eq a.status.phase failed)) [
          | inl rejected ↦ cc (rw (own, rejected, count_accepted) at e)
          | inr kept ↦
              let next = if artifact_accepted a then suc count else count in
              let (r, k) =
                count_accepted_sound next n artifacts (rw (own, kept, count_accepted) at e) in
              ((λ c p. cc (bad.1 p, kept), r), ground arith)
        ]
      ]

-- If the outputs of the last step are reported accepted, then for each output that the step
-- declares, exactly one accepted artifact of the workflow has that contract and the attempt's
-- execution as its producer, and no such artifact failed.
pub outputs_ready_sound :
    (attempt : StepAttempt) (artifacts : List Artifact) (outputs : List ContractReference)
    → final_step_outputs_accepted attempt artifacts outputs ≡ outputs_ready
    → All
        (λ output.
          (number_accepted attempt output artifacts ≡ 1) × NoneRejected attempt output artifacts)
        outputs
unfolding final_step_outputs_accepted
outputs_ready_sound attempt artifacts [] e = tt
outputs_ready_sound attempt artifacts (output ∷ outputs) e =
    elim (Option-cases (count_accepted attempt output 0 artifacts)) [
      | inl rejected ↦ cc (rw (rejected, final_step_outputs_accepted) at e)
      | inr (n, counted) ↦
          let (r, k) = count_accepted_sound attempt output 0 n artifacts counted in
          let one : n ≡ 1 = ground arith in
          (
            (ground arith, r),
            outputs_ready_sound attempt artifacts outputs
                (rw (counted, one, final_step_outputs_accepted) at e),
          )
    ]
