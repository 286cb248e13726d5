-- ===== src/Reservations/Pruning.antt =====
-- What the pruning of reservations keeps.
use sovereign_ai.Prelude.{
  ◌↔◌, eq_iff, ◌≡◌, refl, sym, ◌∙◌, ◌≢◌, ◌⊎◌, inl, inr, true, false, List, [], ◌∷◌, ◌++◌, arith,
  append_assoc, append-nil, ap, All, All-map, Elem, Bool-cases, ok, >>=-ok,
}
use sovereign_ai.Prelude.Int.{ℤ, pos, ◌+ℤ◌, i64}
use sovereign_ai.Api.{NamespacedReference, ref_eq, ref_eq_iff}
use sovereign_ai.State.{is_terminal}
use sovereign_ai.Reservations.{
  BoundLease, FetchedLease, lease_found, lease_missing, lease_failed, contains, is_live, Kept, keep,
  prune_each,
}

-- The budget that the lease of a reservation estimates.
abbrev pub estimate : FetchedLease → ℤ
estimate (lease_found lease) = lease.estimated_kv
estimate _ = pos 0

-- The lease is neither being deleted nor over, and is bound to this endpoint or to none.
pub record IsReserving (endpoint_ref : NamespacedReference) (lease : BoundLease) : Type 0 where
  pub not_deleting : lease.deleting ≡ false
  pub not_over : is_terminal lease.phase ≡ false
  pub not_elsewhere : (lease.endpoint_ref.name ≡ "") ⊎ (lease.endpoint_ref ≡ endpoint_ref)

is_live_iff :
    (endpoint_ref : NamespacedReference) (lease : BoundLease)
    → (is_live endpoint_ref lease ≡ true) ↔ IsReserving endpoint_ref lease
is_live_iff endpoint_ref lease =
    let unbound = eq_iff lease.endpoint_ref.name "" in
    let own = ref_eq_iff lease.endpoint_ref endpoint_ref in
    (
      λ h. record {
        not_deleting = ground arith;
        not_over = ground arith;
        not_elsewhere = ground arith;
      },
      λ h. let d = h.not_deleting in let o = h.not_over in let e = h.not_elsewhere in ground arith,
    )

module _ (get : NamespacedReference → FetchedLease) (endpoint_ref : NamespacedReference) where
  -- The estimates of the reservations, added up in int64.
  abbrev pub total : ℤ → List NamespacedReference → ℤ
  total sum [] = sum
  total sum (r ∷ refs) = total (i64 (sum +ℤ estimate (get r))) refs

  -- The lease exists and is one that reserves on this endpoint.
  abbrev pub IsLive : NamespacedReference → Type 0
  IsLive r = (lease : BoundLease) × (get r ≡ lease_found lease) × IsReserving endpoint_ref lease

  abbrev pub Apart : List NamespacedReference → Type 0
  Apart [] = Unit
  Apart (r ∷ refs) = All (λ x. x ≢ r) refs × Apart refs

  pub record Pruned (seen : List NamespacedReference) (kept : Kept)
      (refs : List NamespacedReference) (result : Kept) : Type 0 where
    pub added : List NamespacedReference
    pub active : result.active ≡ kept.active ++ added
    pub allocated : result.allocated ≡ total kept.allocated added
    pub fresh : All (λ r. contains seen r ≡ false) added
    pub apart : Apart added
    pub live : All (λ r. Elem r refs × IsLive r) added
    pub complete : All (λ r. contains seen r ≡ false → IsLive r → Elem r added) refs

  keep-cases :
      (r : NamespacedReference) (fetched : FetchedLease) (kept next : Kept)
      → get r ≡ fetched
      → keep endpoint_ref r fetched kept ≡ ok next
      → ((next ≡ kept) × (IsLive r → ⊥))
        ⊎ ((next.active ≡ kept.active ++ (r ∷ []))
            × (next.allocated ≡ i64 (kept.allocated +ℤ estimate (get r)))
            × IsLive r)
  unfolding keep
  keep-cases r lease_missing kept next g e = inl (ground arith, λ l. let q = l.1 in cc (g, q))
  keep-cases r (lease_failed m) kept next g e = cc
  keep-cases r (lease_found lease) kept next g e = elim (Bool-cases (is_live endpoint_ref lease)) [
    | inl alive ↦
        inr
          (ground arith, rw g (ground arith), (lease, g, (is_live_iff endpoint_ref lease).0 alive))
    | inr dead ↦ inl (
      ground arith,
      λ l.
          let (x, q, alive) = l in
          let one : x ≡ lease = cc (g, q) in
          let again = (is_live_iff endpoint_ref lease).1 (rw one at alive) in cc (again, dead),
    )
  ]

  unseen-cons :
      (seen : List NamespacedReference) (r x : NamespacedReference)
      → contains (r ∷ seen) x ≡ false
      → (contains seen x ≡ false) × (x ≢ r)
  unseen-cons seen r x h = let same = ref_eq_iff r x in (ground arith, λ e. cc (same.1 (sym e), h))

  -- A reference that was seen before is passed over.
  Pruned-seen :
      (seen : List NamespacedReference) (kept result : Kept) (r : NamespacedReference)
      (refs : List NamespacedReference)
      → contains seen r ≡ true
      → Pruned seen kept refs result
      → Pruned seen kept (r ∷ refs) result
  Pruned-seen seen kept result r refs h p = record {
    added = p.added;
    active = p.active;
    allocated = p.allocated;
    fresh = p.fresh;
    apart = p.apart;
    live = All-map (λ x l. (inr (l.0), l.1)) p.added p.live;
    complete = (λ c l. cc (h, c), p.complete);
  }

  -- So is one whose lease is not live.
  Pruned-dead :
      (seen : List NamespacedReference) (kept result : Kept) (r : NamespacedReference)
      (refs : List NamespacedReference)
      → (IsLive r → ⊥)
      → Pruned (r ∷ seen) kept refs result
      → Pruned seen kept (r ∷ refs) result
  Pruned-dead seen kept result r refs dead p = record {
    added = p.added;
    active = p.active;
    allocated = p.allocated;
    fresh = All-map (λ x h. (unseen-cons seen r x h).0) p.added p.fresh;
    apart = p.apart;
    live = All-map (λ x l. (inr (l.0), l.1)) p.added p.live;
    complete = (
      λ c l. absurd (dead l),
      All-map
          (λ x k c l. elim (Bool-cases (ref_eq r x)) [
            | inl same ↦
                let one : r ≡ x = (ref_eq_iff r x).0 same in absurd (dead (rw (← one) at l))
            | inr other ↦ k (ground arith) l
          ])
          refs p.complete,
    );
  }

  Pruned-live :
      (seen : List NamespacedReference) (kept next result : Kept) (r : NamespacedReference)
      (refs : List NamespacedReference)
      → contains seen r ≡ false
      → next.active ≡ kept.active ++ (r ∷ [])
      → next.allocated ≡ i64 (kept.allocated +ℤ estimate (get r))
      → IsLive r
      → Pruned (r ∷ seen) next refs result
      → Pruned seen kept (r ∷ refs) result
  Pruned-live seen kept next result r refs new a k l p = record {
    added = r ∷ p.added;
    active =
        p.active
        ∙ ap (λ (xs : List NamespacedReference). xs ++ p.added) a
        ∙ append_assoc kept.active (r ∷ []) p.added;
    allocated = p.allocated ∙ ap (λ (x : ℤ). total x p.added) k;
    fresh = (new, All-map (λ x h. (unseen-cons seen r x h).0) p.added p.fresh);
    apart = (All-map (λ x h. (unseen-cons seen r x h).1) p.added p.fresh, p.apart);
    live = ((inl refl, l), All-map (λ x m. (inr (m.0), m.1)) p.added p.live);
    complete = (
      λ c m. inl refl,
      All-map
          (λ x q c m. elim (Bool-cases (ref_eq r x)) [
            | inl same ↦ inl (sym ((ref_eq_iff r x).0 same))
            | inr other ↦ inr (q (ground arith) m)
          ])
          refs p.complete,
    );
  }

  pub prune_each-Pruned :
      (seen : List NamespacedReference) (kept result : Kept) (refs : List NamespacedReference)
      → prune_each get endpoint_ref seen kept refs ≡ ok result
      → Pruned seen kept refs result
  unfolding prune_each
  prune_each-Pruned seen kept result [] e = record {
    added = [];
    active = ground (arith, append-nil kept.active);
    allocated = ground arith;
    fresh = tt;
    apart = tt;
    live = tt;
    complete = tt;
  }
  prune_each-Pruned seen kept result (r ∷ refs) e = elim (Bool-cases (contains seen r)) [
    | inl old ↦
        Pruned-seen seen kept result r refs old
          (prune_each-Pruned seen kept result refs (rw (old, prune_each) at e))
    | inr new ↦
        let (next, k, rest) = >>=-ok _ _ (rw (new, prune_each) at e) in
        let p = prune_each-Pruned (r ∷ seen) next result refs rest in
        elim (keep-cases r (get r) kept next refl k) [
          | inl (same, dead) ↦ Pruned-dead seen kept result r refs dead (rw same at p)
          | inr (a, q, l) ↦ Pruned-live seen kept next result r refs new a q l p
        ]
  ]
