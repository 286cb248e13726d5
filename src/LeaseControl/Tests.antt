-- ===== src/LeaseControl/Tests.antt =====
-- Reconciliations of concrete leases, and the theorem there.
use sovereign_ai.Prelude.{
  ◌≡◌, ◌≢◌, refl, inl, true, false, [], ◌∷◌, Option, some, String, ok, Result,
}
use sovereign_ai.Prelude.Int.{pos, i64, ◌-ℤ◌}
use sovereign_ai.Api.{Phase, pending, unset, running, phase_eq, NamespacedReference}
use sovereign_ai.State.{is_terminal}
use sovereign_ai.Admission.{
  InferenceEndpoint, EndpointSnapshot, within_project, dedicated, compatible, available, select,
}
use sovereign_ai.Admission.Insertion.{by_insertion}
use sovereign_ai.LeaseControl.{
  PolicyDecision, LeaseState, bind, release, snapshots, admit_snapshots, reconcile_lease,
}
use sovereign_ai.LeaseControl.Bound.{IsBindable, reconcile_lease-IsBindable}

abbrev coder : NamespacedReference
coder = record { namespace = "inference"; name = "coder-1" }

abbrev endpoint : InferenceEndpoint
endpoint = record {
  namespace = "inference";
  name = "coder-1";
  labels = λ key. "calculator";
  model = "coder";
  model_revision = "1";
  tenant = "team";
  classification = "internal";
  max_kv = pos 100;
  safety_headroom = pos 10;
  allocated_kv = pos 0;
}

abbrev asking : LeaseState
asking = record {
  lease = record {
    namespace = "team";
    name = "a";
    creation_timestamp = pos 5;
    workflow = "wf";
    project_ref = "calculator";
    tenant = "team";
    classification = "internal";
    sharing_scope = within_project;
    model = "coder";
    model_revision = "1";
    estimated_kv = pos 30;
    priority = pos 1;
    evictable = true;
    phase = pending;
  };
  deleting = false;
  has_finalizer = true;
  release_request = "";
  endpoint_ref = record { namespace = ""; name = "" };
}

abbrev allow : Result String PolicyDecision
allow = ok (record { id = "allow-1"; allowed = true })

abbrev policy : Option (EndpointSnapshot → Result String PolicyDecision)
policy = some (λ snapshot. allow)

abbrev ensured : Result String (NamespacedReference × Phase)
ensured = ok (coder, running)

binds :
    reconcile_lease by_insertion policy allow ensured (endpoint ∷ []) [] asking
    ≡ bind coder "allow-1"
unfolding reconcile_lease snapshots admit_snapshots is_terminal phase_eq select compatible available
    i64 ◌-ℤ◌
binds = refl

-- A dedicated lease is bound to the running endpoint of its model that is there.
binds_dedicated :
    reconcile_lease by_insertion policy allow ensured
      (endpoint ∷ [])
      []
      (record asking { lease = record asking.lease { sharing_scope = dedicated } })
    ≡ bind coder "allow-1"
unfolding reconcile_lease snapshots admit_snapshots is_terminal phase_eq select compatible
binds_dedicated = refl

releases :
    reconcile_lease by_insertion policy allow ensured
      (endpoint ∷ [])
      []
      (record asking { release_request = "done" })
    ≡ release "done"
unfolding reconcile_lease is_terminal
releases = refl

reconcile_lease-IsBindable_example :
    (asking.deleting ≡ false)
    × (asking.lease.phase ≢ unset)
    × (asking.lease.phase ≢ running)
    × (is_terminal asking.lease.phase ≡ false)
    × IsBindable policy allow ensured (snapshots (endpoint ∷ []) []) asking.lease coder
reconcile_lease-IsBindable_example =
    reconcile_lease-IsBindable by_insertion policy allow ensured (endpoint ∷ []) [] asking coder
      "allow-1" (inl binds)
