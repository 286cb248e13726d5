-- ===== src/Admission/Placement.antt =====
-- What a placement by Select guarantees.
use sovereign_ai.Prelude.{
  ◌≡◌, refl, sym, ◌≢◌, ◌⊎◌, inl, inr, Bool, true, false, List, [], ◌∷◌, ◌++◌, Option, some, none,
  eq_iff, arith, All, Elem, Bool-cases, Option-cases, map, if◌then◌else◌,
}
use sovereign_ai.Prelude.Int.{leb_ℤ, pos, ◌<ℤ◌, ◌≤ℤ◌}
use sovereign_ai.Api.{NamespacedReference}
use sovereign_ai.Admission.{
  InferenceLease, InferenceEndpoint, EndpointSnapshot, dedicated, within_workflow, within_project,
  Decision, reuse, evict, create, wait, in_scope, compatible, available, Sort, eviction_candidates,
  reference, lease_reference, evict_until, to_eviction, place, select,
}
use sovereign_ai.Admission.Eviction.{
  freed_by, fits, NoneSooner, IsPrefix, evict_until-IsPrefix, IsVictim,
  eviction_candidates-IsVictim, Ordered-split, eviction_candidates-Ordered,
}

-- The endpoint serves the lease's model to the lease's tenant and classification, and the lease's
-- scope admits others beside it: a lease of the scope workflow or project shares only an endpoint
-- that is labelled with its own.
pub record IsShareable (lease : InferenceLease) (endpoint : InferenceEndpoint) : Type 0 where
  pub same_model : lease.model ≡ endpoint.model
  pub same_revision : lease.model_revision ≡ endpoint.model_revision
  pub same_tenant : lease.tenant ≡ endpoint.tenant
  pub same_classification : lease.classification ≡ endpoint.classification
  pub not_dedicated : lease.sharing_scope ≢ dedicated
  pub own_workflow :
      lease.sharing_scope ≡ within_workflow
      → endpoint.labels "sovereign-ai.io/workflow-id" ≡ lease.workflow
  pub own_project :
      lease.sharing_scope ≡ within_project
      → endpoint.labels "sovereign-ai.io/project" ≡ lease.project_ref

pub compatible-IsShareable :
    (lease : InferenceLease) (endpoint : InferenceEndpoint)
    → compatible lease endpoint ≡ true
    → IsShareable lease endpoint
unfolding compatible
compatible-IsShareable lease endpoint h =
    let model = eq_iff lease.model endpoint.model in
    let revision = eq_iff lease.model_revision endpoint.model_revision in
    let tenant = eq_iff lease.tenant endpoint.tenant in
    let classification = eq_iff lease.classification endpoint.classification in
    let scope : in_scope lease endpoint lease.sharing_scope ≡ true = ground arith in
    record {
      same_model = ground arith;
      same_revision = ground arith;
      same_tenant = ground arith;
      same_classification = ground arith;
      not_dedicated = λ e. cc (rw e at scope);
      own_workflow = λ e. (eq_iff _ _).0 (rw e at scope);
      own_project = λ e. (eq_iff _ _).0 (rw e at scope);
    }

module _ (s : Sort) (request : InferenceLease) where
  -- A decision comes from the first snapshot that has one, and else from `allow_create`.
  pub select-cases :
      (snapshots : List EndpointSnapshot) (allow_create : Bool) (decision : Decision)
      → select s request snapshots allow_create ≡ decision
      → ((snapshot : EndpointSnapshot) × Elem snapshot snapshots
          × (place s request snapshot ≡ some decision))
        ⊎ (All (λ snapshot. place s request snapshot ≡ none) snapshots
            × ((if allow_create then create else wait) ≡ decision))
  unfolding select
  select-cases [] allow_create decision e = inr (tt, e)
  select-cases (snapshot ∷ snapshots) allow_create decision e =
      elim (Option-cases (place s request snapshot)) [
        | inr (d, placed) ↦
            let one : d ≡ decision = rw (placed, select) at e in
            inl (snapshot, inl refl, rw one at placed)
        | inl skipped ↦
            elim (select-cases snapshots allow_create decision (rw (skipped, select) at e)) [
              | inl (found, m, p) ↦ inl (found, inr m, p)
              | inr (others, last) ↦ inr ((skipped, others), last)
            ]
      ]

  -- An eviction from the endpoint of a snapshot.
  pub record IsEviction (snapshot : EndpointSnapshot) (ref : NamespacedReference)
      (names : List NamespacedReference) : Type 0 where
    pub at_endpoint : ref ≡ reference snapshot.endpoint
    pub shareable : IsShareable request snapshot.endpoint
    pub too_full : available snapshot.endpoint <ℤ request.estimated_kv
    pub evicted : List InferenceLease
    pub spared : List InferenceLease
    pub named : names ≡ map lease_reference evicted
    pub victims : All (λ v. Elem v snapshot.leases × IsVictim request v) evicted
    pub enough : fits request snapshot.endpoint (freed_by (pos 0) evicted) ≡ true
    pub shortest : NoneSooner request snapshot.endpoint (pos 0) evicted
    pub candidates : eviction_candidates s request snapshot.leases ≡ evicted ++ spared
    pub fair : All (λ v. All (λ w. v.priority ≤ℤ w.priority) spared) evicted

  All-Elem-All :
      (P : InferenceLease → Type 0) (xs : List InferenceLease)
      → ((x : InferenceLease) → Elem x xs → P x)
      → All P xs
  All-Elem-All P [] h = tt
  All-Elem-All P (x ∷ xs) h = (h x (inl refl), All-Elem-All P xs (λ y m. h y (inr m)))

  Elem-append : (x : InferenceLease) (xs ys : List InferenceLease) → Elem x xs → Elem x (xs ++ ys)
  Elem-append x [] ys m = absurd m
  Elem-append x (y ∷ xs) ys (inl e) = inl e
  Elem-append x (y ∷ xs) ys (inr m) = inr (Elem-append x xs ys m)

  prefix-IsEviction :
      (snapshot : EndpointSnapshot) (names : List NamespacedReference)
      → compatible request snapshot.endpoint ≡ true
      → available snapshot.endpoint <ℤ request.estimated_kv
      → IsPrefix request snapshot.endpoint
          (pos 0)
          []
          (eviction_candidates s request snapshot.leases)
          names
      → IsEviction snapshot (reference snapshot.endpoint) names
  prefix-IsEviction snapshot names c full p = record {
    at_endpoint = refl;
    shareable = compatible-IsShareable request snapshot.endpoint c;
    too_full = full;
    evicted = p.evicted;
    spared = p.spared;
    named = p.named;
    victims = All-Elem-All _ p.evicted (λ v m.
        eviction_candidates-IsVictim s request v snapshot.leases
          (rw p.split (Elem-append v p.evicted p.spared m)));
    enough = p.enough;
    shortest = p.shortest;
    candidates = p.split;
    fair =
        Ordered-split p.evicted p.spared
          (rw p.split at (eviction_candidates-Ordered s request snapshot.leases));
  }

  -- What one snapshot gives: nothing, a reuse or an eviction.
  pub data Placed (snapshot : EndpointSnapshot) : Option Decision → Type 0 where
    unsuitable : compatible request snapshot.endpoint ≡ false → Placed snapshot none
    reuses :
        IsShareable request snapshot.endpoint
        → request.estimated_kv ≤ℤ available snapshot.endpoint
        → Placed snapshot (some (reuse (reference snapshot.endpoint)))
    evicts :
        (ref : NamespacedReference) (names : List NamespacedReference)
        → IsEviction snapshot ref names
        → Placed snapshot (some (evict ref names))
    hopeless :
        available snapshot.endpoint <ℤ request.estimated_kv
        → evict_until request snapshot.endpoint
            (pos 0)
            []
            (eviction_candidates s request snapshot.leases)
          ≡ none
        → Placed snapshot none

  full-Placed :
      (snapshot : EndpointSnapshot) (names : Option (List NamespacedReference))
      → compatible request snapshot.endpoint ≡ true
      → available snapshot.endpoint <ℤ request.estimated_kv
      → evict_until request snapshot.endpoint
          (pos 0)
          []
          (eviction_candidates s request snapshot.leases)
        ≡ names
      → Placed snapshot (to_eviction snapshot.endpoint names)
  unfolding to_eviction
  full-Placed snapshot none c full e = hopeless full e
  full-Placed snapshot (some names) c full e =
      evicts (reference snapshot.endpoint) names
        (prefix-IsEviction snapshot names c full (evict_until-IsPrefix _ _ _ _ _ _ e))

  pub place-Placed : (snapshot : EndpointSnapshot) → Placed snapshot (place s request snapshot)
  unfolding place
  place-Placed snapshot = elim (Bool-cases (compatible request snapshot.endpoint)) [
    | inr other ↦ rw other (unsuitable other)
    | inl same ↦ elim (Bool-cases (leb_ℤ request.estimated_kv (available snapshot.endpoint))) [
      | inl room ↦ rw (same, room) (reuses (compatible-IsShareable _ _ same) (ground arith))
      | inr full ↦ rw (same, full) (full-Placed snapshot _ same (ground arith) refl)
    ]
  ]

  evicts_of :
      (snapshot : EndpointSnapshot) (ref : NamespacedReference) (names : List NamespacedReference)
      (result : Option Decision)
      → Placed snapshot result
      → result ≡ some (evict ref names)
      → IsEviction snapshot ref names
  evicts_of snapshot ref names _ (unsuitable h) e = cc
  evicts_of snapshot ref names _ (reuses h k) e = cc
  evicts_of snapshot ref names _ (hopeless h k) e = cc
  evicts_of snapshot ref names _ (evicts r n h) e =
      let same_ref : r ≡ ref = cc e in
      let same_names : n ≡ names = cc e in rw same_ref at (rw same_names at h)

  reuses_of :
      (snapshot : EndpointSnapshot) (ref : NamespacedReference) (result : Option Decision)
      → Placed snapshot result
      → result ≡ some (reuse ref)
      → (ref ≡ reference snapshot.endpoint)
        × IsShareable request snapshot.endpoint
        × (request.estimated_kv ≤ℤ available snapshot.endpoint)
  reuses_of snapshot ref _ (unsuitable h) e = cc
  reuses_of snapshot ref _ (evicts r n h) e = cc
  reuses_of snapshot ref _ (hopeless h k) e = cc
  reuses_of snapshot ref _ (reuses h k) e = (cc e, h, k)

  fallback-cases :
      (allow_create : Bool) (decision : Decision)
      → (if allow_create then create else wait) ≡ decision
      → (decision ≡ create) ⊎ (decision ≡ wait)
  fallback-cases true decision e = inl (sym e)
  fallback-cases false decision e = inr (sym e)

  -- A lease evicts others from an endpoint only if it does not fit without: the evicted leases are
  -- bound to the endpoint, evictable, running and of lower priority, they are a shortest prefix of
  -- the candidates in the order of eviction that makes room, and no candidate that is spared has a
  -- lower priority than one of them.
  pub select_evicts :
      (snapshots : List EndpointSnapshot) (allow_create : Bool) (ref : NamespacedReference)
      (names : List NamespacedReference)
      → select s request snapshots allow_create ≡ evict ref names
      → (snapshot : EndpointSnapshot) × Elem snapshot snapshots × IsEviction snapshot ref names
  select_evicts snapshots allow_create ref names e =
      elim (select-cases snapshots allow_create (evict ref names) e) [
        | inl (snapshot, m, p) ↦
            (snapshot, m, evicts_of snapshot ref names _ (place-Placed snapshot) p)
        | inr (_, last) ↦ elim (fallback-cases allow_create (evict ref names) last) [
          | inl q ↦ cc
          | inr q ↦ cc
        ]
      ]

  -- An inference lease is placed on an endpoint only if that endpoint is among the snapshots, serves
  -- its model and revision to its tenant and classification, and, where the lease is shared within
  -- a workflow or a project, is labelled with its own; a dedicated lease is never placed so.
  pub select_isolated :
      (snapshots : List EndpointSnapshot) (allow_create : Bool) (ref : NamespacedReference)
      → ((select s request snapshots allow_create ≡ reuse ref)
          ⊎ ((names : List NamespacedReference) × (select s request snapshots allow_create
                ≡ evict ref names)))
      → (snapshot : EndpointSnapshot) × Elem snapshot snapshots
        × (ref ≡ reference snapshot.endpoint)
        × IsShareable request snapshot.endpoint
  select_isolated snapshots allow_create ref e = elim e [
    | inl r ↦ elim (select-cases snapshots allow_create (reuse ref) r) [
      | inl (snapshot, m, p) ↦
          let (at, shareable, _) = reuses_of snapshot ref _ (place-Placed snapshot) p in
          (snapshot, m, at, shareable)
      | inr (_, last) ↦ elim (fallback-cases allow_create (reuse ref) last) [
        | inl q ↦ cc
        | inr q ↦ cc
      ]
    ]
    | inr (names, r) ↦
        let (snapshot, m, h) = select_evicts snapshots allow_create ref names r in
        (snapshot, m, h.at_endpoint, h.shareable)
  ]
