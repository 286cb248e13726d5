-- ===== src/Admission/Tests.antt =====
-- Admission at concrete endpoints, and the theorems there.
use sovereign_ai.Prelude.{◌≡◌, refl, inr, true, false, [], ◌∷◌, Elem, All, String, if◌then◌else◌}
use sovereign_ai.Prelude.Int.{ℤ, pos, i64, ◌+ℤ◌, ◌-ℤ◌}
use sovereign_ai.Api.{running, phase_eq, NamespacedReference}
use sovereign_ai.Admission.{
  InferenceLease, InferenceEndpoint, EndpointSnapshot, within_project, dedicated, reuse, evict,
  create, wait, compatible, available, eviction_candidates, reference, select,
}
use sovereign_ai.Admission.Placement.{IsShareable, IsEviction, select_isolated, select_evicts}
use sovereign_ai.Admission.Exhaustion.{CannotServe, select_exhausted}
use sovereign_ai.Admission.Insertion.{insert, insertion_sort, by_insertion}

abbrev lease : String → ℤ → ℤ → InferenceLease
lease name priority kv = record {
  namespace = "team";
  name = name;
  creation_timestamp = pos 5;
  workflow = "wf";
  project_ref = "calculator";
  tenant = "team";
  classification = "internal";
  sharing_scope = within_project;
  model = "coder";
  model_revision = "1";
  estimated_kv = kv;
  priority = priority;
  evictable = true;
  phase = running;
}

-- An endpoint of which `free` MiB are left.
abbrev endpoint : ℤ → InferenceEndpoint
endpoint allocated = record {
  namespace = "inference";
  name = "coder-1";
  labels = λ key. "calculator";
  model = "coder";
  model_revision = "1";
  tenant = "team";
  classification = "internal";
  max_kv = pos 100;
  safety_headroom = pos 10;
  allocated_kv = allocated;
}

abbrev busy : EndpointSnapshot
busy = record {
  endpoint = endpoint (pos 90);
  leases =
      lease "b" (pos 3) (pos 20) ∷ lease "a" (pos 1) (pos 30) ∷ lease "c" (pos 9) (pos 40) ∷ [];
}

abbrev coder : NamespacedReference
coder = record { namespace = "inference"; name = "coder-1" }

abbrev victim : NamespacedReference
victim = record { namespace = "team"; name = "a" }

abbrev second_victim : NamespacedReference
second_victim = record { namespace = "team"; name = "b" }

reuses_free :
    select by_insertion
      (lease "d" (pos 5) (pos 40))
      (record { endpoint = endpoint (pos 50); leases = [] } ∷ [])
      false
    ≡ reuse coder
unfolding select compatible available i64 ◌-ℤ◌
reuses_free = refl

evicts_lowest :
    select by_insertion (lease "d" (pos 5) (pos 25)) (busy ∷ []) true ≡ evict coder (victim ∷ [])
unfolding select compatible available eviction_candidates insert insertion_sort i64 ◌-ℤ◌ ◌+ℤ◌
    phase_eq
evicts_lowest = refl

evicts_two :
    select by_insertion (lease "d" (pos 5) (pos 45)) (busy ∷ []) true
    ≡ evict coder (victim ∷ second_victim ∷ [])
unfolding select compatible available eviction_candidates insert insertion_sort i64 ◌-ℤ◌ ◌+ℤ◌
    phase_eq
evicts_two = refl

waits : select by_insertion (lease "d" (pos 5) (pos 60)) (busy ∷ []) false ≡ wait
unfolding select compatible available eviction_candidates insert insertion_sort i64 ◌-ℤ◌ ◌+ℤ◌
    phase_eq
waits = refl

-- A dedicated lease shares no endpoint.
dedicates :
    select by_insertion
      (record (lease "d" (pos 5) (pos 1)) { sharing_scope = dedicated })
      (record { endpoint = endpoint (pos 0); leases = [] } ∷ [])
      true
    ≡ create
unfolding select compatible
dedicates = refl

select_isolated_example :
    (snapshot : EndpointSnapshot) × Elem snapshot (busy ∷ [])
    × (coder ≡ reference snapshot.endpoint)
    × IsShareable (lease "d" (pos 5) (pos 25)) snapshot.endpoint
select_isolated_example =
    select_isolated by_insertion (lease "d" (pos 5) (pos 25)) (busy ∷ []) true coder
      (inr (victim ∷ [], evicts_lowest))

select_evicts_example :
    (snapshot : EndpointSnapshot) × Elem snapshot (busy ∷ [])
    × IsEviction by_insertion
        (lease "d" (pos 5) (pos 45))
        snapshot
        coder
        (victim ∷ second_victim ∷ [])
select_evicts_example =
    select_evicts by_insertion (lease "d" (pos 5) (pos 45)) (busy ∷ []) true coder
      (victim ∷ second_victim ∷ []) evicts_two

select_exhausted_example :
    All (CannotServe by_insertion (lease "d" (pos 5) (pos 60))) (busy ∷ [])
    × ((if false then create else wait) ≡ wait)
select_exhausted_example =
    select_exhausted by_insertion (lease "d" (pos 5) (pos 60)) (busy ∷ []) false wait waits
      (inr refl)
