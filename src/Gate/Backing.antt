-- ===== src/Gate/Backing.antt =====
-- The approval that ResolveRequiredApproval of internal/controllers/approval_binding.go gives to an
-- operation: its gate, request, decision and subject.
use sovereign_ai.Prelude.{
  ◌≡◌, refl, Bool, true, false, not, ◌||◌, Bool-cases, List, [], ◌∷◌, Option, none, some, String,
  ◌==◌, eq_iff, arith, inl, inr, ◌⊎◌, Elem, All, is_none, Result, ok, >>=-ok, ap, sym,
}
use sovereign_ai.Api.{
  succeeded, UidReference, uid_eq, uid_eq_iff, ArtifactReference, ApprovalRequirement, Artifact,
}
use sovereign_ai.Gate.{
  controlled_by, kind_name, Attempt, ExecutionReference, ApprovalRequest, ApprovalDecision, Read,
  found, missing, failed_read,
}
use sovereign_ai.Gate.Evidence.{
  Resolved, resolved, unready, refused, read_error, resolve_artifact_evidence,
}
use sovereign_ai.Gate.Granted.{IsBound}
use sovereign_ai.Gate.Admitted.{IsNotLater}
use sovereign_ai.Gate.Authority.{
  AuthorityError, other_subject, AuthorityScene, ResolvedApproval, fetched, refuse_if,
}
use sovereign_ai.Gate.Permission.{
  evident, record_admission, approval_of, Subject, find_subject, pinned_by, subject_of,
  pinned_approval_subject, bind_approval,
}

-- Some input of the name pins the artifact and the digest.
abbrev pub Pins : List ArtifactReference → String → UidReference → String → Type 0
Pins inputs name pin digest =
    (input : ArtifactReference) × Elem input inputs
    × (input.name ≡ name)
    × (input.artifact_ref ≡ some pin)
    × (input.digest ≡ digest)

-- Every input resolves to an accepted artifact with valid claims.
abbrev pub IsEvident : AuthorityScene → Attempt → List ArtifactReference → Type 0
IsEvident a consumer inputs =
    (evidence : List Artifact) × (resolve_artifact_evidence a.scene.libraries a.scene.artifacts
        consumer.spec.workflow_ref inputs
      ≡ resolved evidence)

-- The consumer is of the workflow that controls it; the latest attempt of the gate is a live human gate
-- that the workflow controls, and succeeded; the live request that is read under the name of its execution
-- was granted by the decision that is read under the name that the request records and is bound to
-- it; and the operation's subject is the artifact that was reviewed.
pub record IsBacked (a : AuthorityScene) (consumer : Attempt) (required : ApprovalRequirement)
    (inputs : List ArtifactReference) (approval : ResolvedApproval) : Type 0 where
  pub gate : Attempt
  pub request : ApprovalRequest
  pub decision : ApprovalDecision
  pub execution : ExecutionReference
  pub pin : UidReference
  pub digest : String
  pub consumer_workflow : a.workflow.meta.uid ≡ consumer.spec.workflow_ref.uid
  pub consumer_controlled : controlled_by consumer.meta.controller a.workflow.meta.uid ≡ true
  pub among : Elem gate a.attempts
  pub of_workflow : gate.spec.workflow_ref ≡ consumer.spec.workflow_ref
  pub of_step : gate.spec.step_name ≡ required.step
  pub of_iteration : gate.spec.workflow_attempt ≡ consumer.spec.workflow_attempt
  pub latest : All (IsNotLater consumer required gate) a.attempts
  pub gate_succeeded : gate.phase ≡ succeeded
  pub gate_live : gate.meta.deleting ≡ false
  pub gate_kind : kind_name gate.spec.kind ≡ "HumanGate"
  pub gate_controlled : controlled_by gate.meta.controller a.workflow.meta.uid ≡ true
  pub executed : gate.execution_ref ≡ some execution
  pub requested : a.requests execution.name ≡ found request
  pub decided : a.scene.decisions request.status.decision_ref ≡ found decision
  pub of_gate : request.spec.attempt_ref ≡ record { name = gate.meta.name; uid = gate.meta.uid }
  pub request_live : request.meta.deleting ≡ false
  pub request_succeeded : request.status.phase ≡ succeeded
  pub bound : IsBound request decision
  pub approved : decision.decision ≡ "Approved"
  pub recorded : decision.meta.uid ≡ request.status.decision_uid
  pub reviewed : Pins request.spec.inputs required.subject pin digest
  pub operated : Pins inputs required.subject pin digest
  pub review_evidence : IsEvident a consumer request.spec.inputs
  pub operation_evidence : IsEvident a consumer inputs
  pub names_subject : (approval.subject.digest ≡ digest) × (approval.requirement ≡ required)
  pub names_request :
      approval.request_ref ≡ record { name = request.meta.name; uid = request.meta.uid }
  pub names_decision :
      approval.decision_ref ≡ record { name = decision.meta.name; uid = decision.meta.uid }

find_subject-Elem :
    (inputs : List ArtifactReference) (name : String) (result : Option ArtifactReference)
    (input : ArtifactReference)
    → find_subject inputs name result ≡ ok (some input)
    → (result ≡ some input) ⊎ (Elem input inputs × (input.name ≡ name))
unfolding find_subject
find_subject-Elem [] name result input h = inl (ground arith)
find_subject-Elem (x ∷ rest) name result input h = elim (Bool-cases (x.name == name)) [
  | inl t ↦ elim (Bool-cases (is_none result)) [
    | inl n ↦ elim (find_subject-Elem rest name (some x) input (rw (t, n) at h)) [
      | inl e ↦ let same = eq_iff x.name name in inr (inl (ground arith), ground arith)
      | inr (m, s) ↦ inr (inr m, s)
    ]
    | inr g ↦ absurd (ground arith)
  ]
  | inr f ↦ elim (find_subject-Elem rest name result input (rw f at h)) [
    | inl e ↦ inl e
    | inr (m, s) ↦ inr (inr m, s)
  ]
]

pinned_by-ok :
    (reference : ArtifactReference) (ref : Option UidReference) (s : Subject)
    → pinned_by reference ref ≡ ok s
    → (s.reference ≡ reference) × (ref ≡ some s.pin)
pinned_by-ok reference none s h = cc
pinned_by-ok reference (some pin) s h =
    elim (Bool-cases (pin.name == "" || pin.uid == "" || reference.digest == "")) [
      | inl t ↦ absurd (ground arith)
      | inr f ↦ (ground arith, ground arith)
    ]

pub pinned-Pins :
    (inputs : List ArtifactReference) (name : String) (s : Subject)
    → pinned_approval_subject inputs name ≡ ok s
    → Pins inputs name s.pin s.reference.digest
unfolding pinned_approval_subject
pinned-Pins inputs name s h =
    let (result, e, k) = >>=-ok (find_subject inputs name none) _ h in of_result result e k
  where
    of_result :
        (result : Option ArtifactReference)
        → find_subject inputs name none ≡ ok result
        → subject_of result ≡ ok s
        → Pins inputs name s.pin s.reference.digest
    of_result none e k = cc
    of_result (some input) e k =
        let (same, pin) = pinned_by-ok input input.artifact_ref s k in
        elim (find_subject-Elem inputs name none input e) [
          | inl n ↦ cc
          | inr (m, named) ↦
              (input, m, named, pin, sym (ap (λ (r : ArtifactReference). r.digest) same))
        ]

-- A passed `if cond { return err }`.
pub refuse_if-ok :
    (b : Bool) (reason : AuthorityError) (u : Unit {0}) → refuse_if b reason ≡ ok u → b ≡ false
refuse_if-ok true reason u h = cc
refuse_if-ok false reason u h = refl

pub approval_same :
    (x y : ResolvedApproval)
    → ◌≡◌ {A = Result AuthorityError ResolvedApproval} (ok x) (ok y)
    → x ≡ y
approval_same x y h = cc

pub fetched-ok :
    {A : Type 0} (read : Read A) (value : A) → fetched read ≡ ok value → read ≡ found value
fetched-ok (found a) value h = ap found (found_same a value h)
  where
    found_same : {A : Type 0} (a b : A) → ◌≡◌ {A = Result AuthorityError A} (ok a) (ok b) → a ≡ b
    found_same a b h = cc
fetched-ok missing value h = cc
fetched-ok (failed_read message) value h = cc

pub both_hold : (x y : Bool) → (not x || not y) ≡ false → (x ≡ true) × (y ≡ true)
both_hold true true h = (refl, refl)
both_hold true false h = cc
both_hold false y h = cc

evident-ok :
    (found : Resolved (List Artifact)) (u : Unit {0})
    → evident found ≡ ok u
    → (evidence : List Artifact) × (found ≡ resolved evidence)
evident-ok (resolved evidence) u h = (evidence, refl)
evident-ok unready u h = cc
evident-ok (refused reason) u h = cc
evident-ok (read_error message) u h = cc

module _ (a : AuthorityScene) (consumer : Attempt) (required : ApprovalRequirement)
    (inputs : List ArtifactReference) (approval : ResolvedApproval) where
  pub bound_parts :
      (request : ApprovalRequest) (decision : ApprovalDecision) (reviewed operated : Subject)
      → bind_approval a consumer required inputs request decision reviewed operated ≡ ok approval
      → (reviewed.pin ≡ operated.pin)
        × (reviewed.reference.digest ≡ operated.reference.digest)
        × IsEvident a consumer request.spec.inputs
        × IsEvident a consumer inputs
        × (approval.subject ≡ reviewed.reference)
        × (approval.requirement ≡ required)
        × (approval.request_ref ≡ record { name = request.meta.name; uid = request.meta.uid })
        × (approval.decision_ref ≡ record { name = decision.meta.name; uid = decision.meta.uid })
  unfolding bind_approval
  bound_parts request decision reviewed operated h =
      let test =
        not (uid_eq reviewed.pin operated.pin)
        || not (reviewed.reference.digest == operated.reference.digest) in
      let (u, e, k) = >>=-ok (refuse_if test other_subject) _ h in
      let (pins, digests) =
        both_hold (uid_eq reviewed.pin operated.pin)
          (reviewed.reference.digest == operated.reference.digest)
          (refuse_if-ok test other_subject u e) in
      let evidence =
        resolve_artifact_evidence a.scene.libraries a.scene.artifacts consumer.spec.workflow_ref in
      let (v, reviews, k1) = >>=-ok (evident (evidence request.spec.inputs)) _ k in
      let (w, operates, k2) = >>=-ok (evident (evidence inputs)) _ k1 in
      let (x, recorded, k3) = >>=-ok (record_admission a.scene request decision) _ k2 in
      let same = approval_same (approval_of a required request decision reviewed) approval k3 in
      (
        (uid_eq_iff reviewed.pin operated.pin).0 pins,
        (eq_iff reviewed.reference.digest operated.reference.digest).0 digests,
        evident-ok (evidence request.spec.inputs) v reviews,
        evident-ok (evidence inputs) w operates,
        sym (ap (λ (r : ResolvedApproval). r.subject) same),
        sym (ap (λ (r : ResolvedApproval). r.requirement) same),
        sym (ap (λ (r : ResolvedApproval). r.request_ref) same),
        sym (ap (λ (r : ResolvedApproval). r.decision_ref) same),
      )
