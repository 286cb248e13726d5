-- ===== src/Reservations/Tests.antt =====
-- Reservations at a concrete endpoint, and the theorems there.
use sovereign_ai.Prelude.{
  ◌≡◌, refl, ◌⊎◌, true, false, [], ◌∷◌, none, some, ok, err, String, ◌==◌, if◌then◌else◌,
}
use sovereign_ai.Prelude.Int.{pos, ◌+ℤ◌, ◌-ℤ◌, i32, i64}
use sovereign_ai.Api.{running, succeeded, NamespacedReference}
use sovereign_ai.State.{is_terminal}
use sovereign_ai.Reservations.{
  BoundLease, FetchedLease, lease_found, lease_missing, Endpoint, capacity_changed, contains,
  prune_endpoint_reservations, bind_reservation, remove_reservation,
}
use sovereign_ai.Reservations.Capacity.{IsRepaired, IsAdded, prune_consistent, bind_reserves}

abbrev named : String → NamespacedReference
named name = record { namespace = "team"; name = name }

abbrev own : NamespacedReference
own = record { namespace = "inference"; name = "coder-1" }

abbrev bound : BoundLease
bound = record { deleting = false; phase = running; endpoint_ref = own; estimated_kv = pos 30 }

-- Lease a runs, lease b is over, and there are no others.
abbrev get : NamespacedReference → FetchedLease
get r =
    if r.name == "a"
    then lease_found bound
    else if r.name == "b"
    then lease_found (record bound { phase = succeeded })
    else lease_missing

abbrev before : Endpoint
before = record {
  namespace = "inference";
  name = "coder-1";
  max_kv = pos 100;
  safety_headroom = pos 10;
  active_leases = named "b" ∷ named "a" ∷ named "a" ∷ named "gone" ∷ [];
  active_lease_count = pos 4;
  allocated_kv = pos 120;
}

abbrev repaired : Endpoint
repaired = record before {
  active_leases = named "a" ∷ [];
  active_lease_count = pos 1;
  allocated_kv = pos 30;
}

abbrev bound_new : Endpoint
bound_new = record before {
  active_leases = named "a" ∷ named "d" ∷ [];
  active_lease_count = pos 2;
  allocated_kv = pos 90;
}

prunes : prune_endpoint_reservations get before ≡ ok (repaired, true)
unfolding prune_endpoint_reservations is_terminal i32 i64 ◌+ℤ◌
prunes = refl

binds : bind_reservation get (named "d") (pos 60) before ≡ ok (some bound_new)
unfolding bind_reservation prune_endpoint_reservations is_terminal i32 i64 ◌+ℤ◌
binds = refl

too_large : bind_reservation get (named "d") (pos 61) before ≡ err capacity_changed
unfolding bind_reservation prune_endpoint_reservations is_terminal i32 i64 ◌+ℤ◌
too_large = refl

binds_once : bind_reservation get (named "a") (pos 30) repaired ≡ ok none
unfolding bind_reservation prune_endpoint_reservations is_terminal i32 i64 ◌+ℤ◌
binds_once = refl

removes : remove_reservation (named "d") (pos 60) bound_new ≡ some repaired
unfolding remove_reservation i32 i64 ◌-ℤ◌
removes = refl

prune_consistent_example : IsRepaired get before repaired
prune_consistent_example = prune_consistent get before repaired true prunes

bind_reserves_example :
    (pruned : Endpoint) × IsRepaired get before pruned
    × (((contains pruned.active_leases (named "d") ≡ true) × (bound_new ≡ pruned))
        ⊎ IsAdded get (named "d") (pos 60) pruned bound_new)
bind_reserves_example = bind_reserves get (named "d") (pos 60) before bound_new binds
