-- ===== src/Admission/Eviction.antt =====
-- Which leases are evicted, and that no fewer would do.
use sovereign_ai.Prelude.{
  ◌≡◌, refl, sym, ◌∙◌, inl, inr, Bool, true, false, List, [], ◌∷◌, ◌++◌, some, arith, append_assoc,
  ap, All, All-map, Elem, Bool-cases, Elem-filter, map,
}
use sovereign_ai.Prelude.Int.{ℤ, ◌+ℤ◌, ◌<ℤ◌, ◌≤ℤ◌, leb_ℤ, i64, eqb_ℤ_iff}
use sovereign_ai.Api.{running, phase_eq_iff, NamespacedReference}
use sovereign_ai.Admission.{
  InferenceLease, InferenceEndpoint, available, less, Ordered, Sort, is_candidate,
  eviction_candidates, lease_reference, evict_until,
}

-- The budget that a list of victims frees, added up in int64.
abbrev pub freed_by : ℤ → List InferenceLease → ℤ
freed_by freed [] = freed
freed_by freed (victim ∷ victims) = freed_by (i64 (freed +ℤ victim.estimated_kv)) victims

-- Whether the request fits once `freed` is given back.
abbrev pub fits : InferenceLease → InferenceEndpoint → ℤ → Bool
fits request endpoint freed = leb_ℤ request.estimated_kv (i64 (available endpoint +ℤ freed))

-- After each lease of the list but the last, the request does not fit yet.
abbrev pub NoneSooner : InferenceLease → InferenceEndpoint → ℤ → List InferenceLease → Type 0
NoneSooner request endpoint freed [] = Unit
NoneSooner request endpoint freed (victim ∷ []) = Unit
NoneSooner request endpoint freed (victim ∷ next ∷ victims) =
    let freed' = i64 (freed +ℤ victim.estimated_kv) in
    (fits request endpoint freed' ≡ false) × NoneSooner request endpoint freed' (next ∷ victims)

module _ (request : InferenceLease) (endpoint : InferenceEndpoint) where
  -- The names that the loop returns belong to a shortest prefix of the victims whose budget is
  -- enough.
  pub record IsPrefix (freed : ℤ) (names : List NamespacedReference) (victims : List InferenceLease)
      (result : List NamespacedReference) : Type 0 where
    pub evicted : List InferenceLease
    pub spared : List InferenceLease
    pub split : victims ≡ evicted ++ spared
    pub named : result ≡ names ++ map lease_reference evicted
    pub enough : fits request endpoint (freed_by freed evicted) ≡ true
    pub shortest : NoneSooner request endpoint freed evicted

  one_victim :
      (freed : ℤ) (names result : List NamespacedReference) (victim : InferenceLease)
      (victims : List InferenceLease)
      → fits request endpoint (i64 (freed +ℤ victim.estimated_kv)) ≡ true
      → names ++ (lease_reference victim ∷ []) ≡ result
      → IsPrefix freed names (victim ∷ victims) result
  one_victim freed names result victim victims enough same = record {
    evicted = victim ∷ [];
    spared = victims;
    split = refl;
    named = sym same;
    enough = enough;
    shortest = tt;
  }

  NoneSooner-cons :
      (freed : ℤ) (victim : InferenceLease) (evicted : List InferenceLease)
      → fits request endpoint (i64 (freed +ℤ victim.estimated_kv)) ≡ false
      → NoneSooner request endpoint (i64 (freed +ℤ victim.estimated_kv)) evicted
      → NoneSooner request endpoint freed (victim ∷ evicted)
  NoneSooner-cons freed victim [] more h = tt
  NoneSooner-cons freed victim (next ∷ evicted) more h = (more, h)

  pub evict_until-IsPrefix :
      (freed : ℤ) (names result : List NamespacedReference) (victims : List InferenceLease)
      → evict_until request endpoint freed names victims ≡ some result
      → IsPrefix freed names victims result
  unfolding evict_until
  evict_until-IsPrefix freed names result [] e = cc
  evict_until-IsPrefix freed names result (victim ∷ victims) e =
      elim (Bool-cases (fits request endpoint (i64 (freed +ℤ victim.estimated_kv)))) [
        | inl enough ↦ one_victim freed names result victim victims enough (ground arith)
        | inr more ↦
            let rest =
              evict_until-IsPrefix (i64 (freed +ℤ victim.estimated_kv))
                (names ++ (lease_reference victim ∷ [])) result victims (ground arith) in
            record {
              evicted = victim ∷ rest.evicted;
              spared = rest.spared;
              split = ap (λ (l : List InferenceLease). victim ∷ l) rest.split;
              named =
                  rest.named
                  ∙ append_assoc names (lease_reference victim ∷ [])
                      (map lease_reference rest.evicted);
              enough = rest.enough;
              shortest = NoneSooner-cons freed victim rest.evicted more rest.shortest;
            }
      ]

All-right :
    (P : InferenceLease → Type 0) (xs ys : List InferenceLease) → All P (xs ++ ys) → All P ys
All-right P [] ys h = h
All-right P (x ∷ xs) ys (p, h) = All-right P xs ys h

-- A lease that may be evicted for the request: its owner allows it, its priority is lower and it
-- runs.
pub record IsVictim (request lease : InferenceLease) : Type 0 where
  pub allowed : lease.evictable ≡ true
  pub lower : lease.priority <ℤ request.priority
  pub runs : lease.phase ≡ running

is_candidate-IsVictim :
    (request lease : InferenceLease) → is_candidate request lease ≡ true → IsVictim request lease
unfolding is_candidate
is_candidate-IsVictim request lease h =
    let phase = phase_eq_iff lease.phase running in
    record { allowed = ground arith; lower = ground arith; runs = ground arith }

pub eviction_candidates-IsVictim :
    (s : Sort) (request lease : InferenceLease) (leases : List InferenceLease)
    → Elem lease (eviction_candidates s request leases)
    → Elem lease leases × IsVictim request lease
unfolding eviction_candidates
eviction_candidates-IsVictim s request lease leases m =
    let (l, c) = Elem-filter (is_candidate request) lease leases (s.keeps _ lease m) in
    (l, is_candidate-IsVictim request lease c)

-- No spared candidate has a lower priority than an evicted one.
less_priority : (a b : InferenceLease) → less b a ≡ false → a.priority ≤ℤ b.priority
less_priority a b h = let same = eqb_ℤ_iff b.priority a.priority in ground arith

pub Ordered-split :
    (evicted spared : List InferenceLease)
    → Ordered (evicted ++ spared)
    → All (λ v. All (λ s. v.priority ≤ℤ s.priority) spared) evicted
Ordered-split [] spared h = tt
Ordered-split (victim ∷ evicted) spared (first, rest) = (
  All-map (less_priority victim) spared (All-right _ evicted spared first),
  Ordered-split evicted spared rest,
)

pub eviction_candidates-Ordered :
    (s : Sort) (request : InferenceLease) (leases : List InferenceLease)
    → Ordered (eviction_candidates s request leases)
unfolding eviction_candidates
eviction_candidates-Ordered s request leases = s.ordered _
