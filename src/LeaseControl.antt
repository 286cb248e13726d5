-- ===== src/LeaseControl.antt =====
-- internal/controllers/inference_lease_controller.go: what a reconciliation of an inference lease
-- decides. The policy engine is an argument, `none` where the controller has no policy; so are the
-- endpoints and leases that the API server lists, and the endpoint that it returns under the name
-- of the lease's model, revision, tenant and classification.
pub mod Bound
mod Tests
use sovereign_ai.Prelude.{
  Bool, true, false, ◌&&◌, ◌||◌, not, List, [], ◌∷◌, Option, none, some, String, ◌==◌, Result, ok,
  err, ◌>>=◌, if◌then◌else◌,
}
use sovereign_ai.Api.{Phase, unset, running, phase_eq, NamespacedReference, ref_eq}
use sovereign_ai.State.{is_terminal}
use sovereign_ai.Admission.{
  InferenceLease, InferenceEndpoint, EndpointSnapshot, Decision, reuse, evict, create, wait,
  reference, Sort, select,
}

pub record PolicyDecision : Type 0 where
  pub id : String
  pub allowed : Bool

-- An InferenceLease, with the fields beside those that admission reads.
pub record LeaseState : Type 0 where
  pub lease : InferenceLease
  pub deleting : Bool
  pub has_finalizer : Bool
  pub release_request : String
  pub endpoint_ref : NamespacedReference

-- What a reconciliation does, by the call that it ends in.
pub data LeaseAction : Type 0 where
  ignore remove_reservation append_admission_events set_pending requeue : LeaseAction
  release : String → LeaseAction
  bind : NamespacedReference → String → LeaseAction
  evict_and_bind : List NamespacedReference → NamespacedReference → String → LeaseAction
  reject : String → LeaseAction
  fail : String → LeaseAction

-- The leases that are bound to an endpoint.
bound_to : InferenceEndpoint → List LeaseState → List InferenceLease
bound_to endpoint [] = []
bound_to endpoint (state ∷ states) =
    let rest = bound_to endpoint states in
    if ref_eq state.endpoint_ref (reference endpoint) then state.lease ∷ rest else rest

pub snapshots : List InferenceEndpoint → List LeaseState → List EndpointSnapshot
unfolding bound_to
snapshots [] leases = []
snapshots (endpoint ∷ endpoints) leases =
    record { endpoint = endpoint; leases = bound_to endpoint leases } ∷ snapshots endpoints leases

-- The loop of `admitSnapshots` under a policy; `last` is `lastDecision`.
filter_snapshots :
    (EndpointSnapshot → Result String PolicyDecision)
    → String
    → List EndpointSnapshot
    → Result String (List EndpointSnapshot × String)
filter_snapshots evaluate last [] = ok ([], last)
filter_snapshots evaluate last (snapshot ∷ rest) =
    evaluate snapshot >>= λ (decision : PolicyDecision).
    filter_snapshots evaluate decision.id rest >>= λ (filtered : List EndpointSnapshot × String).
    ok (if decision.allowed then (snapshot ∷ filtered.0, filtered.1) else filtered)

pub admit_snapshots :
    Option (EndpointSnapshot → Result String PolicyDecision)
    → List EndpointSnapshot
    → Result String (List EndpointSnapshot × String)
unfolding filter_snapshots
admit_snapshots none all = ok (all, "development-no-policy")
admit_snapshots (some evaluate) all = filter_snapshots evaluate "" all

-- `handleActionCreate`, where `ensured` is the endpoint that `ensureEndpoint` returns with its
-- phase, and `decided` the answer of `evaluateCreate`.
handle_action_create :
    Result String PolicyDecision → Result String (NamespacedReference × Phase) → LeaseAction
handle_action_create (err message) ensured = fail message
handle_action_create (ok decision) ensured =
    if not decision.allowed then reject decision.id else elim ensured [
      | err message ↦ fail message
      | ok endpoint ↦
          if phase_eq (endpoint.1) running then bind (endpoint.0) decision.id else requeue
    ]

-- The switch on the action of `Select`.
on_decision :
    Result String PolicyDecision
    → Result String (NamespacedReference × Phase)
    → String
    → Decision
    → LeaseAction
on_decision decided ensured policy (reuse ref) = bind ref policy
on_decision decided ensured policy (evict ref victims) = evict_and_bind victims ref policy
on_decision decided ensured policy create = handle_action_create decided ensured
on_decision decided ensured policy wait = requeue

admit_lease :
    Sort
    → Result String PolicyDecision
    → Result String (NamespacedReference × Phase)
    → InferenceLease
    → Result String (List EndpointSnapshot × String)
    → LeaseAction
admit_lease s decided ensured lease (err message) = fail message
admit_lease s decided ensured lease (ok filtered) =
    on_decision decided ensured (filtered.1) (select s lease (filtered.0) true)

-- `Reconcile`, where the API calls that it makes on the way succeed.
pub reconcile_lease :
    Sort
    → Option (EndpointSnapshot → Result String PolicyDecision)
    → Result String PolicyDecision
    → Result String (NamespacedReference × Phase)
    → List InferenceEndpoint
    → List LeaseState
    → LeaseState
    → LeaseAction
unfolding on_decision handle_action_create admit_lease
reconcile_lease s policy decided ensured endpoints leases state =
    if state.deleting
    then (if state.has_finalizer then remove_reservation else ignore)
    else if not (state.release_request == "") && not (is_terminal state.lease.phase)
    then release state.release_request
    else if phase_eq state.lease.phase running
    then append_admission_events
    else if is_terminal state.lease.phase
    then ignore
    else if phase_eq state.lease.phase unset
    then set_pending
    else admit_lease s decided ensured state.lease
        (admit_snapshots policy (snapshots endpoints leases))
