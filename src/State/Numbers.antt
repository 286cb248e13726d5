-- ===== src/State/Numbers.antt =====
-- The numbers that a new step attempt gets.
use sovereign_ai.Prelude.{
  ◌≡◌, refl, ◌⊎◌, inl, inr, ◌∙◌, Bool, true, List, [], ◌∷◌, String, arith, All, All-map, Elem,
}
use sovereign_ai.Prelude.Int.{ℤ, pos, ◌+ℤ◌, ◌≤ℤ◌, ◌<ℤ◌, max_i32, i32, i32_of_IsI32, int_laws}
use sovereign_ai.Api.{StepAttempt}
use sovereign_ai.State.{
  larger_retry, max_retry, of_step, of_workflow_attempt, next_attempt_number, next_retry_number,
}

-- The retry numbers are int32 values from 0 to below the greatest, so that one more fits.
abbrev pub HasRoom : List StepAttempt → Type 0
HasRoom = All (λ attempt. attempt.spec.retry_number <ℤ pos max_i32)

-- `number` is above the retry number of every attempt that `test` selects.
abbrev pub IsAbove : (StepAttempt → Bool) → ℤ → List StepAttempt → Type 0
IsAbove test number = All (λ attempt. test attempt ≡ true → attempt.spec.retry_number <ℤ number)

-- `number` follows the retry number of an attempt that `test` selects.
abbrev pub Follows : (StepAttempt → Bool) → ℤ → List StepAttempt → Type 0
Follows test number attempts =
    (attempt : StepAttempt) × Elem attempt attempts
    × (test attempt ≡ true)
    × (number ≡ attempt.spec.retry_number +ℤ pos 1)

module _ (test : StepAttempt → Bool) where
  larger_retry_lem :
      (max : ℤ) (attempt : StepAttempt)
      → (max ≤ℤ larger_retry test max attempt)
        × (test attempt ≡ true → attempt.spec.retry_number ≤ℤ larger_retry test max attempt)
        × ((larger_retry test max attempt ≡ max)
            ⊎ ((test attempt ≡ true) × (larger_retry test max attempt ≡ attempt.spec.retry_number)))
  unfolding larger_retry
  larger_retry_lem max attempt = ground arith

  max_retry-ge : (max : ℤ) (attempts : List StepAttempt) → max ≤ℤ max_retry test max attempts
  unfolding max_retry
  max_retry-ge max [] = omega arith
  max_retry-ge max (attempt ∷ attempts) =
      omega
        (arith, larger_retry_lem max attempt, max_retry-ge (larger_retry test max attempt) attempts)

  max_retry-All :
      (max : ℤ) (attempts : List StepAttempt)
      → All
          (λ attempt.
            test attempt ≡ true → attempt.spec.retry_number ≤ℤ max_retry test max attempts)
          attempts
  unfolding max_retry
  max_retry-All max [] = tt
  max_retry-All max (attempt ∷ attempts) =
      let next = larger_retry test max attempt in
      (
        λ h. omega (arith, (larger_retry_lem max attempt).1 h, max_retry-ge next attempts),
        max_retry-All next attempts,
      )

  max_retry-cases :
      (max : ℤ) (attempts : List StepAttempt)
      → (max_retry test max attempts ≡ max)
        ⊎ ((attempt : StepAttempt) × Elem attempt attempts
            × (test attempt ≡ true)
            × (max_retry test max attempts ≡ attempt.spec.retry_number))
  unfolding max_retry
  max_retry-cases max [] = inl refl
  max_retry-cases max (attempt ∷ attempts) =
      elim (max_retry-cases (larger_retry test max attempt) attempts) [
        | inl same ↦ elim ((larger_retry_lem max attempt).2) [
          | inl old ↦ inl (same ∙ old)
          | inr new ↦ inr (attempt, inl refl, new.0, same ∙ new.1)
        ]
        | inr found ↦ inr (found.0, inr found.1, found.2, found.3)
      ]

  max_retry-lt :
      (max : ℤ) (attempts : List StepAttempt)
      → max <ℤ pos max_i32
      → HasRoom attempts
      → max_retry test max attempts <ℤ pos max_i32
  unfolding max_retry
  max_retry-lt max [] h room = h
  max_retry-lt max (attempt ∷ attempts) h room =
      max_retry-lt (larger_retry test max attempt) attempts
        (elim ((larger_retry_lem max attempt).2) [ inl e ↦ rw e h | inr e ↦ rw e.1 room.0 ]) room.1

  -- What both numberings share: one more than the greatest selected number, with no overflow.
  after_max :
      (attempts : List StepAttempt)
      → HasRoom attempts
      → let number = i32 (max_retry test (pos 0) attempts +ℤ pos 1) in
        (pos 0 <ℤ number)
        × IsAbove test number attempts
        × ((number ≡ pos 1) ⊎ Follows test number attempts)
  after_max attempts room =
      let m = max_retry test (pos 0) attempts in
      let low : pos 0 ≤ℤ m = max_retry-ge (pos 0) attempts in
      let high : m <ℤ pos max_i32 = max_retry-lt (pos 0) attempts (omega arith) room in
      let fits : i32 (m +ℤ pos 1) ≡ m +ℤ pos 1 =
        i32_of_IsI32 (m +ℤ pos 1) (omega int_laws, omega int_laws) in
      rw fits (
        omega int_laws,
        All-map (λ attempt h t. omega (int_laws, h t)) attempts (max_retry-All (pos 0) attempts),
        elim (max_retry-cases (pos 0) attempts) [
          | inl zero_max ↦ inl (rw zero_max (omega int_laws))
          | inr found ↦ inr (found.0, found.1, found.2, rw (found.3) refl)
        ],
      )

-- Where every recorded retry number is below the greatest int32, the number of a new retry is
-- positive, exceeds the number of every attempt of the same step in the same workflow attempt,
-- and is 1 or one more than the number of such an attempt.
pub next_retry_number_fresh :
    (attempts : List StepAttempt) (step_name : String) (workflow_attempt : ℤ)
    → HasRoom attempts
    → let number = next_retry_number attempts step_name workflow_attempt in
      let test = of_workflow_attempt step_name workflow_attempt in
      (pos 0 <ℤ number)
      × IsAbove test number attempts
      × ((number ≡ pos 1) ⊎ Follows test number attempts)
unfolding next_retry_number
next_retry_number_fresh attempts step_name workflow_attempt =
    after_max (of_workflow_attempt step_name workflow_attempt) attempts

-- Where every recorded retry number is below the greatest int32, the number of a new attempt is
-- positive, exceeds the number of every attempt of the same step in any workflow attempt, and is 1
-- or one more than the number of such an attempt.
pub next_attempt_number_fresh :
    (attempts : List StepAttempt) (step_name : String)
    → HasRoom attempts
    → let number = next_attempt_number attempts step_name in
      let test = of_step step_name in
      (pos 0 <ℤ number)
      × IsAbove test number attempts
      × ((number ≡ pos 1) ⊎ Follows test number attempts)
unfolding next_attempt_number
next_attempt_number_fresh attempts step_name = after_max (of_step step_name) attempts
