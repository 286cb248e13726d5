-- ===== src/Inputs/Resolution.antt =====
-- What the whole list of references that resolveStepInputs returns guarantees, and the retry
-- boundary for the inputs that a step of the workflow produces.
use sovereign_ai.Prelude.{
  ok, ◌>>=◌, >>=-ok, ℕ, ◌≡◌, refl, ◌≢◌, ◌⊎◌, inl, inr, true, false, List, [], ◌∷◌, Option, some,
  none, String, ◌==◌, eq_iff, arith, All, All-map, Paired, Distinct, Elem, Bool-cases, Option-cases,
  any, if◌then◌else◌,
}
use sovereign_ai.Prelude.Int.{pos, ◌≤ℤ◌, eqb_ℤ_iff, ltb_ℤ}
use sovereign_ai.Api.{ArtifactReference, Artifact, StepConfig, StepAttempt}
use sovereign_ai.Steps.{producer_step, step_index}
use sovereign_ai.Artifacts.{artifact_accepted}
use sovereign_ai.Inputs.Types.{Workflow, Refinement, Candidate}
use sovereign_ai.Inputs.Candidates.{restart_index, is_requested}
use sovereign_ai.Inputs.Candidates.Boundary.{
  IsRequested, is_requested-IsRequested, IsProduced, candidate-IsProduced,
}
use sovereign_ai.Inputs.Lineage.{IsSelected, IsImported, producer_of, pin_of, resolve_input-cases}
use sovereign_ai.Inputs.{
  Scene, eligible, resolve_each, resolve_step_inputs, resolve_input, is_empty,
}

-- The restart index of a retry is that of the restart step of the refinement which belongs to it.
pub restart_index_ok :
    (workflow : Workflow) (consumer : StepAttempt) (restart : Option ℕ)
    → restart_index workflow consumer ≡ ok restart
    → ((consumer.spec.workflow_attempt ≤ℤ pos 0) × (restart ≡ none))
      ⊎ ((refinement : Refinement) × (index : ℕ) × (workflow.refinement ≡ some refinement)
          × (refinement.iteration ≡ consumer.spec.workflow_attempt)
          × (step_index workflow.steps refinement.restart_step ≡ some index)
          × (restart ≡ some index))
unfolding restart_index
restart_index_ok workflow consumer restart e = elim (Option-cases workflow.refinement) [
  | inl missing ↦ inl (ground arith)
  | inr (refinement, shown) ↦
      let same = eqb_ℤ_iff refinement.iteration consumer.spec.workflow_attempt in
      elim (Option-cases (step_index workflow.steps refinement.restart_step)) [
        | inl missing ↦ inl (ground arith)
        | inr (index, found) ↦ elim (Bool-cases (ltb_ℤ (pos 0) consumer.spec.workflow_attempt)) [
          | inr first ↦ inl (ground arith)
          | inl retry ↦ inr (refinement, index, shown, ground arith, found, ground arith)
        ]
      ]
]

module _ (scene : Scene) (step : StepConfig) (restart : Option ℕ) where
  abbrev pub IsResolved : ArtifactReference → ArtifactReference → Type 0
  IsResolved requested resolved =
      IsSelected scene step restart requested resolved
      ⊎ IsImported scene step restart requested resolved

  unseen :
      (seen : List String) (name : String)
      → any (λ n. n == name) seen ≡ false
      → All (λ n. name ≢ n) seen
  unseen [] name h = tt
  unseen (n ∷ seen) name h =
      let same = eq_iff n name in (λ e. ground arith, unseen seen name (ground arith))

  -- An input is named, and unlike those before it.
  abbrev IsNew : List String → ArtifactReference → Type 0
  IsNew seen requested = (requested.name ≢ "") × All (λ n. requested.name ≢ n) seen

  -- What the loop guarantees behind the names `seen`.
  record Each (seen : List String) (inputs resolved : List ArtifactReference) : Type 0 where
    new : All (IsNew seen) inputs
    distinct : Distinct (λ (r : ArtifactReference). r.name) inputs
    paired : Paired IsResolved inputs resolved

  resolve_each-Each :
      (seen : List String) (inputs resolved : List ArtifactReference)
      → resolve_each scene step restart seen inputs ≡ ok resolved
      → Each seen inputs resolved
  unfolding resolve_each
  resolve_each-Each seen [] [] e = record { new = tt; distinct = tt; paired = tt }
  resolve_each-Each seen [] (r ∷ resolved) e = cc
  resolve_each-Each seen (requested ∷ inputs) resolved e =
      elim (Bool-cases (requested.name == "")) [
        | inl empty ↦ cc (rw (empty, resolve_each) at e)
        | inr named ↦ elim (Bool-cases (any (λ n. n == requested.name) seen)) [
          | inl duplicate ↦ cc (rw (named, duplicate, resolve_each) at e)
          | inr fresh ↦
              let (first, f, behind) = >>=-ok _ _ (rw (named, fresh, resolve_each) at e) in
              let (rest, g, listed) = >>=-ok _ _ behind in
              let each = resolve_each-Each (requested.name ∷ seen) inputs rest g in
              let same : (first ∷ rest) ≡ resolved = ground arith in
              let no_name = eq_iff requested.name "" in
              let whole_each : Each seen (requested ∷ inputs) (first ∷ rest) = record {
                new = (
                  (λ q. cc (no_name.1 q, named), unseen seen requested.name fresh),
                  All-map (λ r h. (h.0, (h.1).1)) inputs each.new,
                );
                distinct = (All-map (λ r h. (h.1).0) inputs each.new, each.distinct);
                paired = (resolve_input-cases scene step restart requested first f, each.paired);
              } in
              rw same at whole_each
        ]
      ]

any_inputs :
    (scene : Scene) (step : StepConfig) (inputs refs : List ArtifactReference)
    → (if is_empty inputs
        then ok []
        else (restart_index scene.workflow scene.consumer >>= λ restart.
            resolve_each scene step restart [] inputs))
      ≡ ok refs
    → (restart : Option ℕ) × ((inputs ≡ [])
        ⊎ (restart_index scene.workflow scene.consumer ≡ ok restart))
      × All (λ (r : ArtifactReference). r.name ≢ "") inputs
      × Distinct (λ (r : ArtifactReference). r.name) inputs
      × Paired (IsResolved scene step restart) inputs refs
any_inputs scene step [] [] e = (none, inl refl, tt, tt, tt)
any_inputs scene step [] (r ∷ refs) e = cc
any_inputs scene step (requested ∷ inputs) refs e =
    let (restart, r, loop) = >>=-ok _ _ e in
    let each = resolve_each-Each scene step restart [] (requested ∷ inputs) refs loop in
    (
      restart,
      inr r,
      All-map (λ (r : ArtifactReference) h. h.0) (requested ∷ inputs) each.new,
      each.distinct,
      each.paired,
    )

-- If resolveStepInputs returns references, then the inputs of the step have names that are not
-- empty and pairwise different, and there is one reference for each input in order: it pins an
-- accepted artifact that is requested and eligible, such that every other accepted candidate comes
-- from an older attempt, or it is an import that no step before the consumer produces, unchanged.
-- Eligibility is judged behind the restart index of the consumer's workflow attempt.
pub resolve_step_inputs_sound :
    (scene : Scene) (step : StepConfig) (refs : List ArtifactReference)
    → resolve_step_inputs scene step ≡ ok refs
    → (restart : Option ℕ) × ((step.inputs ≡ [])
        ⊎ (restart_index scene.workflow scene.consumer ≡ ok restart))
      × All (λ (r : ArtifactReference). r.name ≢ "") step.inputs
      × Distinct (λ (r : ArtifactReference). r.name) step.inputs
      × Paired (IsResolved scene step restart) step.inputs refs
unfolding resolve_step_inputs
resolve_step_inputs_sound scene step refs e = any_inputs scene step step.inputs refs e

-- If an input whose producer is a step of the workflow resolves, then the reference pins, by name,
-- UID and digest, an artifact of a succeeded attempt of that step, in the consumer's workflow and
-- in no later workflow attempt; and if the producer step stands at or behind the restart index,
-- the attempt belongs to the consumer's own workflow attempt.
pub resolve_input-IsProduced :
    (scene : Scene) (step : StepConfig) (restart : Option ℕ)
    (requested resolved : ArtifactReference) (index : ℕ)
    → producer_of scene step restart requested ≡ ok (producer_step index)
    → resolve_input scene step restart requested ≡ ok resolved
    → (artifact : Artifact) × (candidate : Candidate) × Elem artifact scene.artifacts
      × (artifact_accepted artifact ≡ true)
      × IsRequested scene.consumer.spec.workflow_ref requested artifact
      × IsProduced scene.workflow scene.consumer artifact scene.attempts index restart candidate
      × (resolved ≡ pin_of requested candidate)
unfolding eligible
resolve_input-IsProduced scene step restart requested resolved index p e =
    elim (resolve_input-cases scene step restart requested resolved e) [
      | inr import ↦ let q = import.no_upstream_step in cc (p, q)
      | inl selected ↦
          let same : selected.producer ≡ producer_step index =
            let q = selected.has_producer in cc (p, q) in
          let by_step : eligible scene requested (producer_step index) restart selected.artifact
              ≡ some selected.candidate =
            rw same at selected.is_eligible in
          elim (Bool-cases
            (is_requested scene.consumer.spec.workflow_ref requested selected.artifact)) [
              | inr other ↦ cc (rw other at by_step)
              | inl asked ↦
                  let produced =
                    candidate-IsProduced scene.workflow scene.consumer selected.artifact
                      scene.attempts index restart selected.candidate (rw asked at by_step) in
                  (
                    selected.artifact,
                    selected.candidate,
                    selected.listed,
                    rw produced.stands_for at selected.accepted,
                    is_requested-IsRequested _ _ _ asked,
                    produced,
                    selected.pins,
                  )
            ]
    ]
