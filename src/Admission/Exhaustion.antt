-- ===== src/Admission/Exhaustion.antt =====
-- When Select places a lease nowhere.
use sovereign_ai.Prelude.{
  Option, some, ◌≡◌, ◌⊎◌, inl, inr, Bool, false, List, [], ◌∷◌, ◌++◌, none, arith, All, All-map,
  Bool-cases, if◌then◌else◌,
}
use sovereign_ai.Prelude.Int.{ℤ, pos, ◌+ℤ◌, ◌<ℤ◌, i64}
use sovereign_ai.Api.{NamespacedReference}
use sovereign_ai.Admission.{
  InferenceLease, InferenceEndpoint, EndpointSnapshot, Decision, create, wait, compatible,
  available, Sort, eviction_candidates, evict_until, lease_reference, select,
}
use sovereign_ai.Admission.Eviction.{fits}
use sovereign_ai.Admission.Placement.{
  select-cases, place-Placed, Placed, unsuitable, reuses, evicts, hopeless,
}

-- The request does not fit after any number of the victims, in their order.
abbrev pub NeverFits : InferenceLease → InferenceEndpoint → ℤ → List InferenceLease → Type 0
NeverFits request endpoint freed [] = Unit
NeverFits request endpoint freed (victim ∷ victims) =
    let freed' = i64 (freed +ℤ victim.estimated_kv) in
    (fits request endpoint freed' ≡ false) × NeverFits request endpoint freed' victims

evict_until-none :
    (request : InferenceLease) (endpoint : InferenceEndpoint) (freed : ℤ)
    (names : List NamespacedReference) (victims : List InferenceLease)
    → evict_until request endpoint freed names victims ≡ none
    → NeverFits request endpoint freed victims
unfolding evict_until
evict_until-none request endpoint freed names [] e = tt
evict_until-none request endpoint freed names (victim ∷ victims) e =
    elim (Bool-cases (fits request endpoint (i64 (freed +ℤ victim.estimated_kv)))) [
      | inl enough ↦ ground arith
      | inr more ↦ (
        more,
        evict_until-none request endpoint (i64 (freed +ℤ victim.estimated_kv))
            (names ++ (lease_reference victim ∷ [])) victims (ground arith),
      )
    ]

module _ (s : Sort) (request : InferenceLease) where
  -- The endpoint cannot take the request: it is incompatible, or it has no room and no number of
  -- evictions makes room.
  abbrev pub CannotServe : EndpointSnapshot → Type 0
  CannotServe snapshot =
      (compatible request snapshot.endpoint ≡ false)
      ⊎ ((available snapshot.endpoint <ℤ request.estimated_kv)
          × NeverFits request snapshot.endpoint (pos 0)
              (eviction_candidates s request snapshot.leases))

  Placed-none :
      (snapshot : EndpointSnapshot) (result : Option Decision)
      → Placed s request snapshot result
      → result ≡ none
      → CannotServe snapshot
  Placed-none snapshot _ (unsuitable h) e = inl h
  Placed-none snapshot _ (reuses h k) e = cc
  Placed-none snapshot _ (evicts r n h) e = cc
  Placed-none snapshot _ (hopeless h k) e = inr (h, evict_until-none request _ _ _ _ k)

  Placed-some :
      (snapshot : EndpointSnapshot) (decision : Decision) (result : Option Decision)
      → Placed s request snapshot result
      → result ≡ some decision
      → ¬ ((decision ≡ create) ⊎ (decision ≡ wait))
  Placed-some snapshot decision _ (unsuitable h) e q = cc
  Placed-some snapshot decision _ (hopeless h k) e q = cc
  Placed-some snapshot decision _ (reuses h k) e q = elim q [ inl c ↦ cc | inr c ↦ cc ]
  Placed-some snapshot decision _ (evicts r n h) e q = elim q [ inl c ↦ cc | inr c ↦ cc ]

  -- A new endpoint is asked for, or the lease waits, only if no endpoint of the snapshots can take
  -- the lease, even by evictions; which of the two is what the caller allows.
  pub select_exhausted :
      (snapshots : List EndpointSnapshot) (allow_create : Bool) (decision : Decision)
      → select s request snapshots allow_create ≡ decision
      → (decision ≡ create) ⊎ (decision ≡ wait)
      → All CannotServe snapshots × ((if allow_create then create else wait) ≡ decision)
  select_exhausted snapshots allow_create decision e h =
      elim (select-cases s request snapshots allow_create decision e) [
        | inl (snapshot, m, p) ↦
            absurd (Placed-some snapshot decision _ (place-Placed s request snapshot) p h)
        | inr (nowhere, last) ↦ (
          All-map (λ snapshot q. Placed-none snapshot _ (place-Placed s request snapshot) q)
              snapshots nowhere,
          last,
        )
      ]
