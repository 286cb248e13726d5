-- ===== src/Admission.antt =====
-- internal/inference/admission.go: where an inference lease is placed. `sort.Slice` is an argument;
-- a missing label reads as "".
pub mod Eviction
pub mod Placement
pub mod Exhaustion
pub mod Insertion
mod Tests
use sovereign_ai.Prelude.{
  ◌≡◌, Bool, true, false, ◌&&◌, ◌||◌, not, List, [], ◌∷◌, ◌++◌, Option, none, some, String, ◌==◌,
  filter, Elem, All, if◌then◌else◌,
}
use sovereign_ai.Prelude.Int.{ℤ, pos, ◌+ℤ◌, ◌-ℤ◌, ltb_ℤ, leb_ℤ, eqb_ℤ, i64}
use sovereign_ai.Api.{Phase, running, phase_eq, NamespacedReference}

pub data SharingScope : Type 0 where
  dedicated within_workflow within_project within_tenant within_classification : SharingScope
  other_scope : String → SharingScope

-- The fields of an InferenceLease that admission reads; `workflow` is the name in its WorkflowRef.
pub record InferenceLease : Type 0 where
  pub namespace : String
  pub name : String
  pub creation_timestamp : ℤ
  pub workflow : String
  pub project_ref : String
  pub tenant : String
  pub classification : String
  pub sharing_scope : SharingScope
  pub model : String
  pub model_revision : String
  pub estimated_kv : ℤ
  pub priority : ℤ
  pub evictable : Bool
  pub phase : Phase

pub record InferenceEndpoint : Type 0 where
  pub namespace : String
  pub name : String
  pub labels : String → String
  pub model : String
  pub model_revision : String
  pub tenant : String
  pub classification : String
  pub max_kv : ℤ
  pub safety_headroom : ℤ
  pub allocated_kv : ℤ

pub record EndpointSnapshot : Type 0 where
  pub endpoint : InferenceEndpoint
  pub leases : List InferenceLease

-- A Decision by its action; each constant Reason goes with one constructor.
pub data Decision : Type 0 where
  reuse : NamespacedReference → Decision
  evict : NamespacedReference → List NamespacedReference → Decision
  create wait : Decision

in_scope : InferenceLease → InferenceEndpoint → SharingScope → Bool
in_scope lease endpoint dedicated = false
in_scope lease endpoint within_workflow =
    endpoint.labels "sovereign-ai.io/workflow-id" == lease.workflow
in_scope lease endpoint within_project =
    endpoint.labels "sovereign-ai.io/project" == lease.project_ref
in_scope lease endpoint within_tenant = true
in_scope lease endpoint within_classification = true
in_scope lease endpoint (other_scope text) = false

unfoldable pub compatible : InferenceLease → InferenceEndpoint → Bool
unfolding in_scope
compatible lease endpoint =
    if not (lease.model == endpoint.model) || not (lease.model_revision == endpoint.model_revision)
    then false
    else if not (lease.tenant == endpoint.tenant)
        || not (lease.classification == endpoint.classification)
    then false
    else in_scope lease endpoint lease.sharing_scope

unfoldable pub available : InferenceEndpoint → ℤ
available endpoint =
    let capacity =
      i64 (i64 (endpoint.max_kv -ℤ endpoint.safety_headroom) -ℤ endpoint.allocated_kv) in
    if ltb_ℤ capacity (pos 0) then pos 0 else capacity

-- The comparison that `sort.Slice` is given.
abbrev pub less : InferenceLease → InferenceLease → Bool
less a b =
    if eqb_ℤ a.priority b.priority
    then ltb_ℤ a.creation_timestamp b.creation_timestamp
    else ltb_ℤ a.priority b.priority

abbrev pub Ordered : List InferenceLease → Type 0
Ordered [] = Unit
Ordered (lease ∷ leases) = All (λ later. less later lease ≡ false) leases × Ordered leases

-- `sort.Slice` with that comparison: it keeps the elements, and no element is less than one before
-- it.
pub record Sort : Type 0 where
  pub sort : List InferenceLease → List InferenceLease
  pub keeps :
      (leases : List InferenceLease) (x : InferenceLease) → Elem x (sort leases) → Elem x leases
  pub reaches :
      (leases : List InferenceLease) (x : InferenceLease) → Elem x leases → Elem x (sort leases)
  pub ordered : (leases : List InferenceLease) → Ordered (sort leases)

is_candidate : InferenceLease → InferenceLease → Bool
is_candidate request lease =
    lease.evictable && ltb_ℤ lease.priority request.priority && phase_eq lease.phase running

pub eviction_candidates : Sort → InferenceLease → List InferenceLease → List InferenceLease
unfolding is_candidate
eviction_candidates s request leases = s.sort (filter (is_candidate request) leases)

abbrev pub reference : InferenceEndpoint → NamespacedReference
reference endpoint = record { namespace = endpoint.namespace; name = endpoint.name }

abbrev pub lease_reference : InferenceLease → NamespacedReference
lease_reference lease = record { namespace = lease.namespace; name = lease.name }

-- The loop over the victims: the names of those that are evicted, if their budget is enough.
pub evict_until :
    InferenceLease
    → InferenceEndpoint
    → ℤ
    → List NamespacedReference
    → List InferenceLease
    → Option (List NamespacedReference)
evict_until request endpoint freed names [] = none
evict_until request endpoint freed names (victim ∷ victims) =
    let freed' = i64 (freed +ℤ victim.estimated_kv) in
    let names' = names ++ (lease_reference victim ∷ []) in
    if leb_ℤ request.estimated_kv (i64 (available endpoint +ℤ freed'))
    then some names'
    else evict_until request endpoint freed' names' victims

to_eviction : InferenceEndpoint → Option (List NamespacedReference) → Option Decision
to_eviction endpoint none = none
to_eviction endpoint (some names) = some (evict (reference endpoint) names)

-- The body of the loop over the snapshots: a decision, or none to go on to the next one.
pub place : Sort → InferenceLease → EndpointSnapshot → Option Decision
unfolding evict_until to_eviction
place s request snapshot =
    if not (compatible request snapshot.endpoint)
    then none
    else if leb_ℤ request.estimated_kv (available snapshot.endpoint)
    then some (reuse (reference snapshot.endpoint))
    else to_eviction snapshot.endpoint (
        evict_until request snapshot.endpoint (pos 0) []
          (eviction_candidates s request snapshot.leases))

unfoldable pub select : Sort → InferenceLease → List EndpointSnapshot → Bool → Decision
unfolding place
select s request [] allow_create = if allow_create then create else wait
select s request (snapshot ∷ snapshots) allow_create = elim (place s request snapshot) [
  | some decision ↦ decision
  | none ↦ select s request snapshots allow_create
]
