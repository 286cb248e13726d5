-- ===== src/Inputs/Lineage.antt =====
-- What the references that resolveStepInputs pins into an execution guarantee.
use sovereign_ai.Prelude.{
  Result, ok, ◌>>=◌, >>=-ok, map_err-ok, ℕ, ◌≡◌, refl, ◌≢◌, ◌⊎◌, inl, inr, true, false, Option,
  some, eq_iff, arith, All, Elem, Bool-cases, Option-cases,
}
use sovereign_ai.Api.{ArtifactReference, Artifact, StepConfig}
use sovereign_ai.Steps.{
  StepError, workflow_input_producer, Producer, bootstrap, no_producer, producer_step,
}
use sovereign_ai.Artifacts.{
  artifact_accepted, Pinned, ready, not_ready, invalid, get_error, resolve_pinned_input,
}
use sovereign_ai.Inputs.Types.{step_error, Candidate}
use sovereign_ai.Inputs.Scan.{Scanned, nothing_scanned, scan, finish}
use sovereign_ai.Inputs.Scan.Newest.{Covers, scan_newest}
use sovereign_ai.Inputs.{
  Scene, eligible, resolve_from, resolve_input, import_pinned, is_primitive, names_exactly,
}

-- The reference that pins a candidate's artifact.
abbrev pub pin_of : ArtifactReference → Candidate → ArtifactReference
pin_of requested best = record {
  name = requested.name;
  digest = best.artifact.spec.digest;
  artifact_ref = some (record { name = best.artifact.name; uid = best.artifact.uid });
  producer_attempt_ref = best.producer_attempt_ref;
}

module _ (scene : Scene) (step : StepConfig) (restart : Option ℕ) where
  abbrev pub producer_of : ArtifactReference → Result StepError Producer
  producer_of requested =
      workflow_input_producer scene.workflow.bootstrap_contract scene.workflow.steps step
        requested.name

  -- The input has a producer, and the reference pins an accepted artifact that matches the request
  -- and is eligible, and every other accepted candidate comes from an older attempt.
  pub record IsSelected (requested resolved : ArtifactReference) : Type 0 where
    pub producer : Producer
    pub has_producer : producer_of requested ≡ ok producer
    pub upstream : producer ≢ no_producer
    pub artifact : Artifact
    pub candidate : Candidate
    pub listed : Elem artifact scene.artifacts
    pub is_eligible : eligible scene requested producer restart artifact ≡ some candidate
    pub accepted : artifact_accepted candidate.artifact ≡ true
    pub newest :
        All
          (λ a.
            (c : Candidate)
            → eligible scene requested producer restart a ≡ some c
            → artifact_accepted c.artifact ≡ true
            → Covers candidate c)
          scene.artifacts
    pub has_uid : candidate.artifact.uid ≢ ""
    pub pins : resolved ≡ pin_of requested candidate

  -- The input has no producer in the workflow, and pins an accepted artifact of the workflow that
  -- none of its executions produced.
  pub record IsImported (requested resolved : ArtifactReference) : Type 0 where
    pub no_upstream_step : producer_of requested ≡ ok no_producer
    pub artifact : Artifact
    pub is_ready :
        resolve_pinned_input scene.get scene.consumer.spec.workflow_ref requested ≡ ready artifact
    pub foreign : is_primitive artifact.spec.producer_ref.kind ≡ false
    pub unchanged : resolved ≡ requested

  import-IsImported :
      (requested resolved : ArtifactReference) (pinned : Pinned)
      → producer_of requested ≡ ok no_producer
      → resolve_pinned_input scene.get scene.consumer.spec.workflow_ref requested ≡ pinned
      → import_pinned requested pinned ≡ ok resolved
      → IsImported requested resolved
  unfolding import_pinned
  import-IsImported requested resolved (ready artifact) p r e = record {
    no_upstream_step = p;
    artifact = artifact;
    is_ready = r;
    foreign = ground arith;
    unchanged = ground arith;
  }
  import-IsImported requested resolved not_ready p r e = cc
  import-IsImported requested resolved (invalid reason) p r e = cc
  import-IsImported requested resolved (get_error message) p r e = cc

  finish-pins :
      (requested resolved : ArtifactReference) (scanned : Scanned)
      → finish requested scanned ≡ ok resolved
      → (best : Candidate) × (scanned.selected ≡ some best)
        × (best.artifact.uid ≢ "")
        × (resolved ≡ pin_of requested best)
  unfolding finish
  finish-pins requested resolved scanned e = elim (Option-cases scanned.selected) [
    | inl nothing ↦ ground arith
    | inr (best, s) ↦
        let uid = eq_iff best.artifact.uid "" in (best, s, λ q. ground arith, ground arith)
  ]

  scan-IsSelected :
      (requested resolved : ArtifactReference) (producer : Producer)
      → producer_of requested ≡ ok producer
      → producer ≢ no_producer
      → (scan
            (eligible scene requested producer restart)
            requested.name
            nothing_scanned
            scene.artifacts
          >>= finish requested)
        ≡ ok resolved
      → IsSelected requested resolved
  scan-IsSelected requested resolved producer p n e =
      let (scanned, found, finished) = >>=-ok _ _ e in
      let (best, s, uid, pins) = finish-pins requested resolved scanned finished in
      let ((a, m, q, t), newest) =
        (scan_newest (eligible scene requested producer restart) requested.name scene.artifacts
            scanned found).0
          best s in
      record {
        producer = producer;
        has_producer = p;
        upstream = n;
        artifact = a;
        candidate = best;
        listed = m;
        is_eligible = q;
        accepted = t;
        newest = newest;
        has_uid = uid;
        pins = pins;
      }

  resolve_from-cases :
      (requested resolved : ArtifactReference) (producer : Producer)
      → producer_of requested ≡ ok producer
      → resolve_from scene restart requested producer ≡ ok resolved
      → IsSelected requested resolved ⊎ IsImported requested resolved
  unfolding resolve_from
  resolve_from-cases requested resolved no_producer p e =
      elim (Bool-cases (names_exactly requested)) [
        | inl exact ↦
            inr (import-IsImported requested resolved _ p refl (rw (exact, resolve_from) at e))
        | inr vague ↦ cc (rw (vague, resolve_from) at e)
      ]
  resolve_from-cases requested resolved bootstrap p e =
      inl (scan-IsSelected requested resolved bootstrap p (λ q. cc q) e)
  resolve_from-cases requested resolved (producer_step index) p e =
      inl (scan-IsSelected requested resolved (producer_step index) p (λ q. cc q) e)

  -- One input resolves to a selected candidate of the workflow or to an import.
  pub resolve_input-cases :
      (requested resolved : ArtifactReference)
      → resolve_input scene step restart requested ≡ ok resolved
      → IsSelected requested resolved ⊎ IsImported requested resolved
  unfolding resolve_input
  resolve_input-cases requested resolved e =
      let (producer, lifted, rest) = >>=-ok _ _ e in
      let p = map_err-ok step_error (producer_of requested) producer lifted in
      resolve_from-cases requested resolved producer p rest
