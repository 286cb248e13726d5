-- ===== src/Reservations.antt =====
-- internal/controllers/inference_lease_controller.go: the reservations of inference leases on an
-- endpoint. The closures that `RetryOnConflict` repeats are functions of the endpoint that they
-- read; `get` is the API client's read of a lease.
pub mod Pruning
pub mod Capacity
mod Tests
use sovereign_ai.Prelude.{
  Bool, true, false, ◌&&◌, ◌||◌, not, List, [], ◌∷◌, ◌++◌, Option, none, some, String, ◌==◌, any,
  length, Result, ok, err, ◌>>=◌, if◌then◌else◌,
}
use sovereign_ai.Prelude.Int.{ℤ, pos, ◌+ℤ◌, ◌-ℤ◌, ltb_ℤ, eqb_ℤ, i32, i64}
use sovereign_ai.Api.{Phase, NamespacedReference, ref_eq}
use sovereign_ai.State.{is_terminal}

-- The fields of an InferenceLease that these functions read.
pub record BoundLease : Type 0 where
  pub deleting : Bool
  pub phase : Phase
  pub endpoint_ref : NamespacedReference
  pub estimated_kv : ℤ

-- What `r.Get` returns for a lease.
pub data FetchedLease : Type 0 where
  lease_found : BoundLease → FetchedLease
  lease_missing : FetchedLease
  lease_failed : String → FetchedLease

pub record Endpoint : Type 0 where
  pub namespace : String
  pub name : String
  pub max_kv : ℤ
  pub safety_headroom : ℤ
  pub active_leases : List NamespacedReference
  pub active_lease_count : ℤ
  pub allocated_kv : ℤ

pub data BindError : Type 0 where
  get_failed : String → BindError
  capacity_changed : BindError

-- `slices.Contains`.
abbrev pub contains : List NamespacedReference → NamespacedReference → Bool
contains refs ref = any (λ r. ref_eq r ref) refs

-- `slices.Equal`.
abbrev pub equal : List NamespacedReference → List NamespacedReference → Bool
equal [] [] = true
equal (x ∷ xs) (y ∷ ys) = ref_eq x y && equal xs ys
equal _ _ = false

abbrev pub own_reference : Endpoint → NamespacedReference
own_reference endpoint = record { namespace = endpoint.namespace; name = endpoint.name }

-- Whether the loop keeps the reservation of a lease that it found.
abbrev pub is_live : NamespacedReference → BoundLease → Bool
is_live endpoint_ref lease =
    if lease.deleting || is_terminal lease.phase
    then false
    else if not (lease.endpoint_ref.name == "") && not (ref_eq lease.endpoint_ref endpoint_ref)
    then false
    else true

-- The variables `active` and `allocated` of the loop.
pub record Kept : Type 0 where
  pub active : List NamespacedReference
  pub allocated : ℤ

-- What one round of the loop makes of a reference that it has not seen.
pub keep : NamespacedReference → NamespacedReference → FetchedLease → Kept → Result BindError Kept
keep endpoint_ref reference lease_missing kept = ok kept
keep endpoint_ref reference (lease_failed message) kept = err (get_failed message)
keep endpoint_ref reference (lease_found lease) kept =
    if is_live endpoint_ref lease
    then ok (record {
      active = kept.active ++ (reference ∷ []);
      allocated = i64 (kept.allocated +ℤ lease.estimated_kv);
    })
    else ok kept

pub prune_each :
    (NamespacedReference → FetchedLease)
    → NamespacedReference
    → List NamespacedReference
    → Kept
    → List NamespacedReference
    → Result BindError Kept
unfolding keep
prune_each get endpoint_ref seen kept [] = ok kept
prune_each get endpoint_ref seen kept (reference ∷ references) =
    if contains seen reference
    then prune_each get endpoint_ref seen kept references
    else (keep endpoint_ref reference (get reference) kept >>= λ next.
        prune_each get endpoint_ref (reference ∷ seen) next references)

-- `pruneEndpointReservations`: the endpoint with its new status, and whether that changed.
pub prune_endpoint_reservations :
    (NamespacedReference → FetchedLease) → Endpoint → Result BindError (Endpoint × Bool)
unfolding prune_each
prune_endpoint_reservations get endpoint =
    prune_each get (own_reference endpoint) [] (record { active = []; allocated = pos 0 })
      endpoint.active_leases
    >>= λ (kept : Kept). ok (
      record endpoint {
        active_leases = kept.active;
        active_lease_count = i32 (pos (length kept.active));
        allocated_kv = kept.allocated;
      },
      not (equal endpoint.active_leases kept.active)
          || not (eqb_ℤ endpoint.active_lease_count (i32 (pos (length kept.active))))
          || not (eqb_ℤ endpoint.allocated_kv kept.allocated),
    )

-- The closure of `bind` behind the pruning: the endpoint to write, or none to leave it.
reserve : NamespacedReference → ℤ → Endpoint → Bool → Result BindError (Option Endpoint)
reserve lease_ref estimated endpoint changed =
    if contains endpoint.active_leases lease_ref
    then ok (if changed then some endpoint else none)
    else if ltb_ℤ endpoint.max_kv
        (i64 (i64 (endpoint.allocated_kv +ℤ estimated) +ℤ endpoint.safety_headroom))
    then err capacity_changed
    else ok (
        some (record endpoint {
          active_leases = endpoint.active_leases ++ (lease_ref ∷ []);
          active_lease_count = i32 (pos (length (endpoint.active_leases ++ (lease_ref ∷ []))));
          allocated_kv = i64 (endpoint.allocated_kv +ℤ estimated);
        }))

pub bind_reservation :
    (NamespacedReference → FetchedLease)
    → NamespacedReference
    → ℤ
    → Endpoint
    → Result BindError (Option Endpoint)
unfolding reserve
bind_reservation get lease_ref estimated endpoint =
    prune_endpoint_reservations get endpoint >>= λ (pruned : Endpoint × Bool).
    reserve lease_ref estimated (pruned.0) (pruned.1)

-- `slices.Delete` at `slices.Index`, where the reference is present.
delete_first : NamespacedReference → List NamespacedReference → List NamespacedReference
delete_first ref [] = []
delete_first ref (r ∷ refs) =
    let rest = delete_first ref refs in if ref_eq r ref then refs else r ∷ rest

-- The closure of `removeEndpointReservation`: the endpoint to write, or none to leave it.
pub remove_reservation : NamespacedReference → ℤ → Endpoint → Option Endpoint
unfolding delete_first
remove_reservation lease_ref estimated endpoint =
    if not (contains endpoint.active_leases lease_ref)
    then none
    else let left = i64 (endpoint.allocated_kv -ℤ estimated) in
      some (record endpoint {
        active_leases = delete_first lease_ref endpoint.active_leases;
        active_lease_count = i32 (pos (length (delete_first lease_ref endpoint.active_leases)));
        allocated_kv = if ltb_ℤ left (pos 0) then pos 0 else left;
      })
