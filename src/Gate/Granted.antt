-- ===== src/Gate/Granted.antt =====
-- What stands behind an approval request that succeeded.
use sovereign_ai.Prelude.{
  ◌≡◌, ◌≢◌, refl, Bool, true, false, not, ◌&&◌, Bool-cases, List, [], ◌∷◌, Option, none, some,
  String, ◌==◌, eq_iff, any, Elem, arith, inl, inr, ◌⊎◌, sym,
}
use sovereign_ai.Prelude.Int.{eqb_ℤ_iff}
use sovereign_ai.Api.{uid_eq_iff}
use sovereign_ai.State.{is_terminal}
use sovereign_ai.Gate.{
  Owner, controlled_by, Attempt, ApprovalRequest, ApprovalDecision, authorized, check_attempt,
  names_request, validate_approval_decision, is_request_owner, has_group, group_version,
  ExecutionReference,
}

-- The decision names the request and its attempt and workflow, is controlled by the request, and
-- was given by a member of a required group.
pub record IsBound (r : ApprovalRequest) (d : ApprovalDecision) : Type 0 where
  pub live : d.meta.deleting ≡ false
  pub owner :
      d.meta.controller
      ≡ some (record {
        api_version = group_version;
        kind = "ApprovalRequest";
        name = r.meta.name;
        uid = r.meta.uid;
      })
  pub of_request : d.approval_request_ref ≡ record { name = r.meta.name; uid = r.meta.uid }
  pub of_attempt : d.step_attempt_ref ≡ r.spec.attempt_ref
  pub of_workflow : d.workflow_ref ≡ r.spec.workflow_ref
  pub mode : r.spec.approval.mode ≡ "AnyOf"
  pub authored : d.authored ≡ true
  pub group : (g : String) × (g ≢ "") × Elem g r.spec.approval.required_groups × Elem g d.groups

has_group-Elem : (groups : List String) (g : String) → has_group groups g ≡ true → Elem g groups
has_group-Elem [] g h = cc
has_group-Elem (x ∷ xs) g h = elim (Bool-cases (x == g)) [
  | inl t ↦ inl (sym ((eq_iff x g).0 t))
  | inr f ↦ inr (has_group-Elem xs g (rw f at h))
]

and_right : (a b : Bool) → (a && b) ≡ true → b ≡ true
and_right true b h = h
and_right false b h = cc

required_group :
    (required groups : List String)
    → any (λ group. not (group == "") && has_group groups group) required ≡ true
    → (g : String) × (g ≢ "") × Elem g required × Elem g groups
required_group [] groups h = cc
required_group (x ∷ xs) groups h = elim (Bool-cases (not (x == "") && has_group groups x)) [
  | inl t ↦ (
    x,
    (let same = eq_iff x "" in λ e. ground arith),
    inl refl,
    has_group-Elem groups x (and_right (not (x == "")) (has_group groups x) t),
  )
  | inr f ↦ let (g, ne, r, m) = required_group xs groups (rw f at h) in (g, ne, inr r, m)
]

owner_is :
    (r : ApprovalRequest) (o : Option Owner)
    → is_request_owner r o ≡ true
    → o
      ≡ some (record {
        api_version = group_version;
        kind = "ApprovalRequest";
        name = r.meta.name;
        uid = r.meta.uid;
      })
owner_is r none h = cc
owner_is r (some o) h =
    let a = eq_iff o.uid r.meta.uid in
    let b = eq_iff o.name r.meta.name in
    let c = eq_iff o.kind "ApprovalRequest" in
    let d = eq_iff o.api_version group_version in ground arith

pub unbound_or :
    (blank : String → Bool) (r : ApprovalRequest) (d : ApprovalDecision)
    → validate_approval_decision blank r d ≡ none
    → IsBound r d × ((d.decision ≡ "Approved") ⊎ (d.decision ≡ "Denied"))
unfolding validate_approval_decision
unbound_or blank r d h =
    let a = uid_eq_iff d.approval_request_ref (record { name = r.meta.name; uid = r.meta.uid }) in
    let b = uid_eq_iff d.step_attempt_ref r.spec.attempt_ref in
    let c = uid_eq_iff d.workflow_ref r.spec.workflow_ref in
    let m = eq_iff r.spec.approval.mode "AnyOf" in
    let x = eq_iff d.decision "Approved" in
    let y = eq_iff d.decision "Denied" in
    (
      record {
        live = ground arith;
        owner = owner_is r d.meta.controller (ground arith);
        of_request = a.0 (ground arith);
        of_attempt = b.0 (ground arith);
        of_workflow = c.0 (ground arith);
        mode = m.0 (ground arith);
        authored = ground arith;
        group = required_group r.spec.approval.required_groups d.groups (ground arith);
      },
      elim (Bool-cases (d.decision == "Approved")) [
        | inl t ↦ inl (x.0 t)
        | inr f ↦ inr (y.0 (ground arith))
      ],
    )

-- The attempt is live, is the one that the request names, controls the request and was bound to it.
pub record IsAuthority (r : ApprovalRequest) (a : Attempt) : Type 0 where
  pub uid : a.meta.uid ≡ r.spec.attempt_ref.uid
  pub name : a.meta.name ≡ r.spec.attempt_ref.name
  pub live : a.meta.deleting ≡ false
  pub active : is_terminal a.phase ≡ false
  pub controls : controlled_by r.meta.controller a.meta.uid ≡ true
  pub workflow : a.spec.workflow_ref ≡ r.spec.workflow_ref
  pub step : a.spec.step_name ≡ r.spec.step_name
  pub number : a.spec.retry_number ≡ r.spec.attempt
  pub execution :
      a.execution_ref
      ≡ some (record { api_version = group_version; kind = "ApprovalRequest"; name = r.meta.name })

named_execution :
    (r : ApprovalRequest) (a b : Attempt) (ref : Option ExecutionReference)
    → names_request r a ref ≡ authorized b
    → (a ≡ b)
      × (ref
          ≡ some (record {
            api_version = group_version;
            kind = "ApprovalRequest";
            name = r.meta.name;
          }))
named_execution r a b none h = cc
named_execution r a b (some ref) h =
    let x = eq_iff ref.api_version group_version in
    let y = eq_iff ref.kind "ApprovalRequest" in
    let z = eq_iff ref.name r.meta.name in (ground arith, ground arith)

pub check_attempt-IsAuthority :
    (r : ApprovalRequest) (a b : Attempt)
    → check_attempt r a ≡ authorized b
    → (a ≡ b) × IsAuthority r a
unfolding check_attempt
check_attempt-IsAuthority r a b h =
    let p = eq_iff r.spec.attempt_ref.uid a.meta.uid in
    let q = eq_iff r.spec.attempt_ref.name a.meta.name in
    let n = eq_iff a.spec.workflow_ref.name r.spec.workflow_ref.name in
    let u = eq_iff a.spec.workflow_ref.uid r.spec.workflow_ref.uid in
    let s = eq_iff a.spec.step_name r.spec.step_name in
    let t = eqb_ℤ_iff a.spec.retry_number r.spec.attempt in
    let e : names_request r a a.execution_ref ≡ authorized b = ground arith in
    let (same, ref) = named_execution r a b a.execution_ref e in
    (
      same,
      record {
        uid = sym (p.0 (ground arith));
        name = sym (q.0 (ground arith));
        live = ground arith;
        active = ground arith;
        controls = ground arith;
        workflow = ground arith;
        step = s.0 (ground arith);
        number = t.0 (ground arith);
        execution = ref;
      },
    )
