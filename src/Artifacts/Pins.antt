-- ===== src/Artifacts/Pins.antt =====
-- Exactly when a pinned input is ready.
use sovereign_ai.Prelude.{
  ◌≡◌, ◌≢◌, ◌⊎◌, ◌↔◌, inl, inr, true, some, String, eq_iff, arith, Option-cases,
}
use sovereign_ai.Prelude.Int.{eqb_ℤ_iff}
use sovereign_ai.Api.{
  succeeded, phase_eq_iff, condition_true, Condition, UidReference, uid_eq_iff, ArtifactReference,
  Artifact,
}
use sovereign_ai.Artifacts.{
  artifact_accepted, Fetched, found, not_found, fetch_failed, ready, resolve_pinned_input,
  check_pin, check_fetched,
}

-- An artifact is accepted exactly when it succeeded and its Valid condition is true, both observed
-- at its present generation.
pub artifact_accepted_iff :
    (artifact : Artifact)
    → (artifact_accepted artifact ≡ true) ↔ (
        (artifact.status.phase ≡ succeeded)
        × (artifact.status.observed_generation ≡ artifact.generation)
        × ((valid : Condition) × (artifact.status.valid ≡ some valid)
            × (valid.status ≡ condition_true)
            × (valid.observed_generation ≡ artifact.generation)))
unfolding artifact_accepted
artifact_accepted_iff artifact =
    let over = phase_eq_iff artifact.status.phase succeeded in
    let observed = eqb_ℤ_iff artifact.status.observed_generation artifact.generation in
    elim (Option-cases artifact.status.valid) [
      | inl missing ↦ ground arith
      | inr (valid, shown) ↦
          let current = eqb_ℤ_iff valid.observed_generation artifact.generation in
          (
            λ h. (ground arith, ground arith, (valid, shown, ground arith, ground arith)),
            λ h. ground arith,
          )
    ]

-- The artifact is the one that the input pins: of the workflow, of the contract name, with the pinned UID and
-- digest, from the pinned producer if one is named.
pub record IsPinned (workflow_ref : UidReference) (requested : ArtifactReference)
    (pin : UidReference) (artifact : Artifact) : Type 0 where
  pub same_uid : artifact.uid ≡ pin.uid
  pub same_workflow : artifact.spec.workflow_ref ≡ workflow_ref
  pub same_contract : artifact.spec.contract.name ≡ requested.name
  pub has_digest : requested.digest ≢ ""
  pub same_digest : artifact.spec.digest ≡ requested.digest
  pub same_producer :
      (requested.producer_attempt_ref ≡ "")
      ⊎ (artifact.spec.producer_ref.name ≡ requested.producer_attempt_ref)
  pub accepted : artifact_accepted artifact ≡ true

check_pin_iff :
    (workflow_ref : UidReference) (requested : ArtifactReference) (pin : UidReference)
    (a artifact : Artifact)
    → (check_pin workflow_ref requested pin a ≡ ready artifact)
      ↔ ((a ≡ artifact) × IsPinned workflow_ref requested pin a)
unfolding check_pin
check_pin_iff workflow_ref requested pin a artifact =
    let uid = eq_iff a.uid pin.uid in
    let workflow = uid_eq_iff a.spec.workflow_ref workflow_ref in
    let name = eq_iff a.spec.contract.name requested.name in
    let some_digest = eq_iff requested.digest "" in
    let digest = eq_iff a.spec.digest requested.digest in
    let any_producer = eq_iff requested.producer_attempt_ref "" in
    let producer = eq_iff a.spec.producer_ref.name requested.producer_attempt_ref in
    (
      λ h. (
        ground arith,
        record {
          same_uid = ground arith;
          same_workflow = ground arith;
          same_contract = ground arith;
          has_digest = λ e. ground arith;
          same_digest = ground arith;
          same_producer = ground arith;
          accepted = ground arith;
        },
      ),
      λ h. ground arith,
    )

check_fetched_iff :
    (workflow_ref : UidReference) (requested : ArtifactReference) (pin : UidReference) (f : Fetched)
    (artifact : Artifact)
    → (check_fetched workflow_ref requested pin f ≡ ready artifact)
      ↔ ((f ≡ found artifact) × IsPinned workflow_ref requested pin artifact)
unfolding check_fetched
check_fetched_iff workflow_ref requested pin (found a) artifact =
    let (to, from) = check_pin_iff workflow_ref requested pin a artifact in
    (
      λ h. let (same, p) = to h in (cc same, rw same at p),
      λ h. let same : a ≡ artifact = cc (h.0) in from (same, rw (← same) at (h.1)),
    )
check_fetched_iff workflow_ref requested pin not_found artifact = (λ h. cc, λ h. cc (h.0))
check_fetched_iff workflow_ref requested pin (fetch_failed m) artifact = (λ h. cc, λ h. cc (h.0))

-- A pinned input resolves to an artifact exactly when the input pins one by name, the API server
-- returns that artifact under the name, and it is accepted and matches the pin in its UID,
-- workflow, contract name, digest and, where one is named, producer.
pub resolve_pinned_input_iff :
    (get : String → Fetched) (workflow_ref : UidReference) (requested : ArtifactReference)
    (artifact : Artifact)
    → (resolve_pinned_input get workflow_ref requested ≡ ready artifact) ↔ (
        (pin : UidReference) × (requested.artifact_ref ≡ some pin)
        × (get pin.name ≡ found artifact)
        × IsPinned workflow_ref requested pin artifact)
unfolding resolve_pinned_input
resolve_pinned_input_iff get workflow_ref requested artifact =
    elim (Option-cases requested.artifact_ref) [
      | inl unpinned ↦
          (λ h. cc (rw (unpinned, resolve_pinned_input) at h), λ h. let e = h.1 in cc (unpinned, e))
      | inr (pin, pinned) ↦
          let (to, from) = check_fetched_iff workflow_ref requested pin (get pin.name) artifact in
          (
            λ h.
                let (fetched, p) = to (rw (pinned, resolve_pinned_input) at h) in
                (pin, pinned, fetched, p),
            λ h. rw (pinned, resolve_pinned_input) (from (back pin pinned h)),
          )
    ]
  where
    back :
        (pin : UidReference)
        → requested.artifact_ref ≡ some pin
        → ((p : UidReference) × (requested.artifact_ref ≡ some p)
            × (get p.name ≡ found artifact)
            × IsPinned workflow_ref requested p artifact)
        → (get pin.name ≡ found artifact) × IsPinned workflow_ref requested pin artifact
    back pin pinned (p, e, f, q) =
        let same : p ≡ pin = cc (e, pinned) in (rw same at f, rw same at q)
