-- ===== src/Reservations/Capacity.antt =====
-- What the pruning and the binding of a lease leave behind in the endpoint.
use sovereign_ai.Prelude.{
  ◌≡◌, refl, sym, ◌⊎◌, inl, inr, true, false, [], ◌∷◌, ◌++◌, some, arith, All, All-map, Elem, Bool,
  Bool-cases, ok, >>=-ok, length,
}
use sovereign_ai.Prelude.Int.{ℤ, pos, ◌+ℤ◌, ◌≤ℤ◌, i32, i64, ltb_ℤ}
use sovereign_ai.Api.{NamespacedReference}
use sovereign_ai.Reservations.{
  FetchedLease, Kept, Endpoint, contains, own_reference, prune_endpoint_reservations, reserve,
  bind_reservation,
}
use sovereign_ai.Reservations.Pruning.{total, IsLive, Apart, Pruned, prune_each-Pruned}

module _ (get : NamespacedReference → FetchedLease) where
  -- The status of the endpoint agrees with the leases: its reservations are pairwise different, each
  -- of a live lease, and the counters are their number and the sum of their estimates, in int32 and
  -- int64.
  pub record IsConsistent (endpoint : Endpoint) : Type 0 where
    pub apart : Apart get (own_reference endpoint) endpoint.active_leases
    pub live : All (IsLive get (own_reference endpoint)) endpoint.active_leases
    pub counted : endpoint.active_lease_count ≡ i32 (pos (length endpoint.active_leases))
    pub summed :
        endpoint.allocated_kv ≡ total get (own_reference endpoint) (pos 0) endpoint.active_leases

  abbrev with_kept : Endpoint → Kept → Endpoint
  with_kept endpoint kept = record endpoint {
    active_leases = kept.active;
    active_lease_count = i32 (pos (length kept.active));
    allocated_kv = kept.allocated;
  }

  -- The endpoint `pruned` is `endpoint` with exactly the reservations of live leases.
  pub record IsRepaired (endpoint pruned : Endpoint) : Type 0 where
    pub consistent : IsConsistent pruned
    pub kept : All (λ r. Elem r endpoint.active_leases) pruned.active_leases
    pub complete :
        All
          (λ r. IsLive get (own_reference endpoint) r → Elem r pruned.active_leases)
          endpoint.active_leases
    pub same_reference : own_reference pruned ≡ own_reference endpoint
    pub same_budget : pruned.max_kv ≡ endpoint.max_kv
    pub same_headroom : pruned.safety_headroom ≡ endpoint.safety_headroom

  with_kept-IsRepaired :
      (endpoint : Endpoint) (kept : Kept)
      → Pruned get
          (own_reference endpoint)
          []
          (record { active = []; allocated = pos 0 })
          endpoint.active_leases
          kept
      → IsRepaired endpoint (with_kept endpoint kept)
  with_kept-IsRepaired endpoint kept p =
      let active : p.added ≡ kept.active = sym p.active in
      record {
        consistent = record {
          apart = rw active at p.apart;
          live = rw active at (All-map (λ r l. l.1) p.added p.live);
          counted = refl;
          summed = rw active at p.allocated;
        };
        kept = rw active at (All-map (λ r l. l.0) p.added p.live);
        complete = All-map (λ r c l. rw active at (c refl l)) endpoint.active_leases p.complete;
        same_reference = refl;
        same_budget = refl;
        same_headroom = refl;
      }

  -- After the pruning the status of the endpoint agrees with the leases that exist: its reservations
  -- are exactly the old ones of live leases, pairwise different, and the counters are their number
  -- and the sum of their estimates, in int32 and int64. Its name, budget and headroom are kept.
  pub prune_consistent :
      (endpoint pruned : Endpoint) (changed : Bool)
      → prune_endpoint_reservations get endpoint ≡ ok (pruned, changed)
      → IsRepaired endpoint pruned
  unfolding prune_endpoint_reservations
  prune_consistent endpoint pruned changed e =
      let (kept, k, last) = >>=-ok _ _ e in
      let p =
        prune_each-Pruned get (own_reference endpoint) []
          (record { active = []; allocated = pos 0 }) kept endpoint.active_leases k in
      let same : with_kept endpoint kept ≡ pruned = cc last in
      rw same at (with_kept-IsRepaired endpoint kept p)

  -- The lease was reserved before, or it fits: with it, the budget less the headroom is not
  -- exceeded.
  pub record IsAdded (lease_ref : NamespacedReference) (estimated : ℤ) (pruned new : Endpoint)
      : Type 0 where
    pub not_reserved : contains pruned.active_leases lease_ref ≡ false
    pub appends : new.active_leases ≡ pruned.active_leases ++ (lease_ref ∷ [])
    pub counts : new.active_lease_count ≡ i32 (pos (length new.active_leases))
    pub sums : new.allocated_kv ≡ i64 (pruned.allocated_kv +ℤ estimated)
    pub fits : i64 (new.allocated_kv +ℤ pruned.safety_headroom) ≤ℤ pruned.max_kv
    pub same_budget : new.max_kv ≡ pruned.max_kv
    pub same_headroom : new.safety_headroom ≡ pruned.safety_headroom

  reserve-cases :
      (lease_ref : NamespacedReference) (estimated : ℤ) (pruned new : Endpoint) (changed : Bool)
      → reserve lease_ref estimated pruned changed ≡ ok (some new)
      → ((contains pruned.active_leases lease_ref ≡ true) × (new ≡ pruned))
        ⊎ IsAdded lease_ref estimated pruned new
  unfolding reserve
  reserve-cases lease_ref estimated pruned new changed e =
      elim (Bool-cases (contains pruned.active_leases lease_ref)) [
        | inl old ↦ inl (old, ground arith)
        | inr absent ↦
            let grown : Endpoint = record pruned {
              active_leases = pruned.active_leases ++ (lease_ref ∷ []);
              active_lease_count = i32 (pos (length (pruned.active_leases ++ (lease_ref ∷ []))));
              allocated_kv = i64 (pruned.allocated_kv +ℤ estimated);
            } in
            elim (Bool-cases (
              ltb_ℤ pruned.max_kv
                (i64 (i64 (pruned.allocated_kv +ℤ estimated) +ℤ pruned.safety_headroom)))) [
                  | inl over ↦ ground arith
                  | inr room ↦
                      let same : grown ≡ new = ground arith in
                      let added : IsAdded lease_ref estimated pruned grown = record {
                        not_reserved = absent;
                        appends = refl;
                        counts = refl;
                        sums = refl;
                        fits = ground arith;
                        same_budget = refl;
                        same_headroom = refl;
                      } in
                      inr (rw same at added)
                ]
      ]

  -- If a binding writes the endpoint, then it first repairs the reservations from the leases that
  -- exist, so that they are of live leases, pairwise different and rightly summed; and either the
  -- lease is among them and nothing is added, or it is added once and the sum with it and the
  -- headroom is within the budget, in int64.
  pub bind_reserves :
      (lease_ref : NamespacedReference) (estimated : ℤ) (endpoint new : Endpoint)
      → bind_reservation get lease_ref estimated endpoint ≡ ok (some new)
      → (pruned : Endpoint) × IsRepaired endpoint pruned
        × (((contains pruned.active_leases lease_ref ≡ true) × (new ≡ pruned))
            ⊎ IsAdded lease_ref estimated pruned new)
  unfolding bind_reservation
  bind_reserves lease_ref estimated endpoint new e =
      let ((pruned, changed), p, rest) = >>=-ok _ _ e in
      (
        pruned,
        prune_consistent endpoint pruned changed p,
        reserve-cases lease_ref estimated pruned new changed rest,
      )
