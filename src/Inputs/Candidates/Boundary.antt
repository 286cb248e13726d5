-- ===== src/Inputs/Candidates/Boundary.antt =====
-- Which artifacts are eligible, and what the boundary of a workflow retry excludes.
use sovereign_ai.Prelude.{
  ℕ, ◌≡◌, refl, sym, ◌≢◌, ◌⊎◌, inl, inr, true, List, [], ◌∷◌, Option, some, none, String, ◌==◌,
  ◌&&◌, eq_iff, arith, Elem, Bool-cases, Option-cases, get_elem?,
}
use sovereign_ai.Prelude.Int.{◌≤ℤ◌, eqb_ℤ_iff}
use sovereign_ai.Api.{
  ArtifactReference, UidReference, succeeded, phase_eq_iff, UidReference, uid_eq, uid_eq_iff,
  Artifact, StepConfig, StepAttempt,
}
use sovereign_ai.Steps.{producer_step}
use sovereign_ai.Inputs.Types.{Workflow, Candidate}
use sovereign_ai.Inputs.Candidates.{
  is_requested, attempt_by_name, at_or_after, is_named, produced_candidate,
  input_candidate_for_artifact,
}

attempt_by_name-some :
    (ref : UidReference) (name : String) (latest : Option StepAttempt) (attempts : List StepAttempt)
    (a : StepAttempt)
    → attempt_by_name ref name latest attempts ≡ some a
    → (latest ≡ some a) ⊎ (Elem a attempts × (a.spec.workflow_ref ≡ ref) × (a.name ≡ name))
unfolding attempt_by_name
attempt_by_name-some ref name latest [] a e = inl e
attempt_by_name-some ref name latest (b ∷ attempts) a e =
    elim (Bool-cases (uid_eq b.spec.workflow_ref ref && b.name == name)) [
      | inl match ↦
          elim (attempt_by_name-some ref name (some b) attempts a
            (rw (match, attempt_by_name) at e)) [
              | inl q ↦
                  let one : b ≡ a = cc q in
                  inr (
                    inl (sym one),
                    rw one at ((uid_eq_iff b.spec.workflow_ref ref).0 (ground arith)),
                    rw one at ((eq_iff b.name name).0 (ground arith)),
                  )
              | inr (m, r, n) ↦ inr (inr m, r, n)
            ]
      | inr other ↦
          elim (attempt_by_name-some ref name latest attempts a
            (rw (other, attempt_by_name) at e)) [
              | inl q ↦ inl q
              | inr (m, r, n) ↦ inr (inr m, r, n)
            ]
    ]

-- The candidate stands for the artifact of a succeeded attempt of the producer step, in the
-- consumer's workflow and no later workflow attempt, and in the consumer's own workflow attempt
-- where the producer step is restarted with it.
pub record IsProduced (workflow : Workflow) (consumer : StepAttempt) (artifact : Artifact)
    (attempts : List StepAttempt) (index : ℕ) (restart : Option ℕ) (candidate : Candidate)
    : Type 0 where
  pub producer : StepAttempt
  pub step : StepConfig
  pub listed : Elem producer attempts
  pub same_workflow : producer.spec.workflow_ref ≡ consumer.spec.workflow_ref
  pub is_producer : producer.name ≡ artifact.spec.producer_ref.name
  pub is_over : producer.status.phase ≡ succeeded
  pub at_index : get_elem? workflow.steps index ≡ some step
  pub of_step : step.name ≡ producer.spec.step_name
  pub stands_for : candidate.artifact ≡ artifact
  pub named : candidate.producer_attempt_ref ≡ producer.name
  pub attempt : candidate.workflow_attempt ≡ producer.spec.workflow_attempt
  pub retry : candidate.retry_number ≡ producer.spec.retry_number
  pub not_later : producer.spec.workflow_attempt ≤ℤ consumer.spec.workflow_attempt
  pub boundary :
      at_or_after index restart ≡ true
      → producer.spec.workflow_attempt ≡ consumer.spec.workflow_attempt

module _ (workflow : Workflow) (consumer : StepAttempt) (artifact : Artifact)
    (attempts : List StepAttempt) (index : ℕ) (restart : Option ℕ) (candidate : Candidate) where
  produced_candidate-IsProduced :
      (producer : StepAttempt) (step : StepConfig)
      → get_elem? workflow.steps index ≡ some step
      → Elem producer attempts
      → producer.spec.workflow_ref ≡ consumer.spec.workflow_ref
      → producer.name ≡ artifact.spec.producer_ref.name
      → produced_candidate workflow consumer artifact index restart (some producer) ≡ some candidate
      → IsProduced workflow consumer artifact attempts index restart candidate
  unfolding produced_candidate is_named
  produced_candidate-IsProduced producer step at_index m r n e =
      let over = phase_eq_iff producer.status.phase succeeded in
      let name = eq_iff step.name producer.spec.step_name in
      let same = eqb_ℤ_iff producer.spec.workflow_attempt consumer.spec.workflow_attempt in
      record {
        producer = producer;
        step = step;
        listed = m;
        same_workflow = r;
        is_producer = n;
        is_over = ground arith;
        at_index = at_index;
        of_step = ground arith;
        stands_for = ground arith;
        named = ground arith;
        attempt = ground arith;
        retry = ground arith;
        not_later = ground arith;
        boundary = λ b. ground arith;
      }

  produced-unlisted :
      (producer : StepAttempt)
      → get_elem? workflow.steps index ≡ none
      → produced_candidate workflow consumer artifact index restart (some producer) ≢ some candidate
  unfolding produced_candidate is_named
  produced-unlisted producer beyond e = ground arith

  found_producer :
      (found : Option StepAttempt)
      → attempt_by_name consumer.spec.workflow_ref artifact.spec.producer_ref.name none attempts
        ≡ found
      → produced_candidate workflow consumer artifact index restart found ≡ some candidate
      → IsProduced workflow consumer artifact attempts index restart candidate
  found_producer none missing e = unfold produced_candidate in cc e
  found_producer (some producer) shown e =
      let name = artifact.spec.producer_ref.name in
      elim (attempt_by_name-some consumer.spec.workflow_ref name none attempts producer shown) [
        | inl q ↦ cc q
        | inr (m, r, n) ↦ elim (Option-cases (get_elem? workflow.steps index)) [
          | inl beyond ↦ absurd (produced-unlisted producer beyond e)
          | inr (step, at_index) ↦ produced_candidate-IsProduced producer step at_index m r n e
        ]
      ]

  -- An artifact that is eligible for an input with a producer step was produced so.
  pub candidate-IsProduced :
      input_candidate_for_artifact workflow consumer artifact attempts (producer_step index) restart
        ≡ some candidate
      → IsProduced workflow consumer artifact attempts index restart candidate
  unfolding input_candidate_for_artifact
  candidate-IsProduced e = found_producer _ refl e

-- The artifact is of the workflow and of the contract that the input names, and agrees with the
-- artifact, the producer and the digest that the input pins, as far as it pins them.
pub record IsRequested (workflow_ref : UidReference) (requested : ArtifactReference)
    (artifact : Artifact) : Type 0 where
  pub same_workflow : artifact.spec.workflow_ref ≡ workflow_ref
  pub same_contract : artifact.spec.contract.name ≡ requested.name
  pub same_artifact :
      (pin : UidReference)
      → requested.artifact_ref ≡ some pin
      → (artifact.name ≡ pin.name) × (artifact.uid ≡ pin.uid)
  pub same_producer :
      (requested.producer_attempt_ref ≡ "")
      ⊎ (artifact.spec.producer_ref.name ≡ requested.producer_attempt_ref)
  pub same_digest : (requested.digest ≡ "") ⊎ (artifact.spec.digest ≡ requested.digest)

pub is_requested-IsRequested :
    (workflow_ref : UidReference) (requested : ArtifactReference) (artifact : Artifact)
    → is_requested workflow_ref requested artifact ≡ true
    → IsRequested workflow_ref requested artifact
unfolding is_requested
is_requested-IsRequested workflow_ref requested artifact h =
    let workflow = uid_eq_iff artifact.spec.workflow_ref workflow_ref in
    let contract = eq_iff artifact.spec.contract.name requested.name in
    let any_producer = eq_iff requested.producer_attempt_ref "" in
    let producer = eq_iff artifact.spec.producer_ref.name requested.producer_attempt_ref in
    let any_digest = eq_iff requested.digest "" in
    let digest = eq_iff artifact.spec.digest requested.digest in
    record {
      same_workflow = ground arith;
      same_contract = ground arith;
      same_artifact = λ pin e.
          let name = eq_iff artifact.name pin.name in
          let uid = eq_iff artifact.uid pin.uid in (ground arith, ground arith);
      same_producer = ground arith;
      same_digest = ground arith;
    }
