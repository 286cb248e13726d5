-- ===== src/LeaseControl/Bound.antt =====
-- Where a reconciliation binds an inference lease.
use sovereign_ai.Prelude.{
  ◌≢◌, ◌≡◌, refl, sym, ◌∙◌, ◌⊎◌, inl, inr, true, false, List, [], ◌∷◌, Option, none, some, arith,
  Bool-cases, Elem, String, Result, ok, err, >>=-ok,
}
use sovereign_ai.Api.{unset, Phase, running, phase_eq_iff, NamespacedReference}
use sovereign_ai.State.{is_terminal}
use sovereign_ai.Admission.{
  InferenceLease, InferenceEndpoint, EndpointSnapshot, Decision, reuse, evict, create, wait,
  reference, Sort, select,
}
use sovereign_ai.Admission.Placement.{IsShareable, select_isolated}
use sovereign_ai.LeaseControl.{
  PolicyDecision, LeaseState, LeaseAction, bind, evict_and_bind, snapshots, filter_snapshots,
  admit_snapshots, handle_action_create, on_decision, admit_lease, reconcile_lease,
}

-- Under the policy, if there is one, the lease may share the endpoint of the snapshot.
abbrev pub IsAdmitted :
    Option (EndpointSnapshot → Result String PolicyDecision) → EndpointSnapshot → Type 0
IsAdmitted none snapshot = Unit
IsAdmitted (some evaluate) snapshot =
    (decision : PolicyDecision) × (evaluate snapshot ≡ ok decision) × (decision.allowed ≡ true)

filter_snapshots-IsAdmitted :
    (evaluate : EndpointSnapshot → Result String PolicyDecision) (last id : String)
    (all filtered : List EndpointSnapshot) (snapshot : EndpointSnapshot)
    → filter_snapshots evaluate last all ≡ ok (filtered, id)
    → Elem snapshot filtered
    → Elem snapshot all × IsAdmitted (some evaluate) snapshot
unfolding filter_snapshots
filter_snapshots-IsAdmitted evaluate last id [] filtered snapshot e m =
    let empty : filtered ≡ [] = ground arith in absurd (rw empty at m)
filter_snapshots-IsAdmitted evaluate last id (first ∷ all) filtered snapshot e m =
    let (decision, d, rest) = >>=-ok (evaluate first) _ e in
    let ((kept, next), k, whole) = >>=-ok (filter_snapshots evaluate decision.id all) _ rest in
    elim (Bool-cases decision.allowed) [
      | inl allowed ↦
          let same : filtered ≡ first ∷ kept = ground arith in
          elim (rw (same, Elem) at m) [
            | inl one ↦ (inl one, (decision, rw one d, allowed))
            | inr later ↦
                let (l, a) =
                  filter_snapshots-IsAdmitted evaluate decision.id next all kept snapshot k later in
                (inr l, a)
          ]
      | inr refused ↦
          let same : filtered ≡ kept = ground arith in
          let (l, a) =
            filter_snapshots-IsAdmitted evaluate decision.id next all kept snapshot k
              (rw same at m) in
          (inr l, a)
    ]

admit_snapshots-IsAdmitted :
    (policy : Option (EndpointSnapshot → Result String PolicyDecision))
    (all filtered : List EndpointSnapshot) (id : String) (snapshot : EndpointSnapshot)
    → admit_snapshots policy all ≡ ok (filtered, id)
    → Elem snapshot filtered
    → Elem snapshot all × IsAdmitted policy snapshot
unfolding admit_snapshots
admit_snapshots-IsAdmitted none all filtered id snapshot e m =
    let same : filtered ≡ all = ground arith in (rw same at m, tt)
admit_snapshots-IsAdmitted (some evaluate) all filtered id snapshot e m =
    filter_snapshots-IsAdmitted evaluate "" id all filtered snapshot e m

-- The endpoint of a binding: one that exists, that the policy admits the lease to and that the
-- lease may share; or the one that `ensureEndpoint` returned, which runs, where the policy allows
-- its creation.
pub data IsBindable (policy : Option (EndpointSnapshot → Result String PolicyDecision))
    (decided : Result String PolicyDecision) (ensured : Result String (NamespacedReference × Phase))
    (all : List EndpointSnapshot) (lease : InferenceLease) (ref : NamespacedReference)
    : Type 0 where
  shared :
      (snapshot : EndpointSnapshot)
      → Elem snapshot all
      → IsAdmitted policy snapshot
      → ref ≡ reference snapshot.endpoint
      → IsShareable lease snapshot.endpoint
      → IsBindable policy decided ensured all lease ref
  created :
      (decision : PolicyDecision)
      → decided ≡ ok decision
      → decision.allowed ≡ true
      → ensured ≡ ok (ref, running)
      → IsBindable policy decided ensured all lease ref

-- The action binds the lease to the endpoint.
abbrev pub Binds : LeaseAction → NamespacedReference → String → Type 0
Binds action ref id =
    (action ≡ bind ref id)
    ⊎ ((victims : List NamespacedReference) × (action ≡ evict_and_bind victims ref id))

module _ (s : Sort) (policy : Option (EndpointSnapshot → Result String PolicyDecision))
    (decided : Result String PolicyDecision)
    (ensured : Result String (NamespacedReference × Phase)) where
  create-IsBindable :
      (decided' : Result String PolicyDecision)
      (ensured' : Result String (NamespacedReference × Phase)) (all : List EndpointSnapshot)
      (lease : InferenceLease) (ref : NamespacedReference) (id : String)
      → Binds (handle_action_create decided' ensured') ref id
      → IsBindable policy decided' ensured' all lease ref
  unfolding handle_action_create
  create-IsBindable (err m) ensured' all lease ref id h = absurd (ground arith)
  create-IsBindable (ok decision) (err m) all lease ref id h = absurd (ground arith)
  create-IsBindable (ok decision) (ok (at, phase)) all lease ref id h =
      let over = phase_eq_iff phase running in
      let same : at ≡ ref = ground arith in
      let runs : phase ≡ running = ground arith in
      created decision refl (ground arith) (cc (same, runs))

  decision-IsBindable :
      (all filtered : List EndpointSnapshot) (lease : InferenceLease) (ref : NamespacedReference)
      (used id : String) (decision : Decision)
      → ((snapshot : EndpointSnapshot)
          → Elem snapshot filtered
          → Elem snapshot all × IsAdmitted policy snapshot)
      → select s lease filtered true ≡ decision
      → Binds (on_decision decided ensured used decision) ref id
      → IsBindable policy decided ensured all lease ref
  unfolding on_decision
  decision-IsBindable all filtered lease ref used id (reuse at) from e h =
      let same : at ≡ ref = ground arith in
      let (snapshot, m, place, shareable) = select_isolated s lease filtered true at (inl e) in
      let (listed, admitted) = from snapshot m in
      shared snapshot listed admitted (sym same ∙ place) shareable
  decision-IsBindable all filtered lease ref used id (evict at names) from e h =
      let same : at ≡ ref = ground arith in
      let (snapshot, m, place, shareable) =
        select_isolated s lease filtered true at (inr (names, e)) in
      let (listed, admitted) = from snapshot m in
      shared snapshot listed admitted (sym same ∙ place) shareable
  decision-IsBindable all filtered lease ref used id create from e h =
      create-IsBindable decided ensured all lease ref id h
  decision-IsBindable all filtered lease ref used id wait from e h = absurd (ground arith)

  admit-IsBindable :
      (all : List EndpointSnapshot) (lease : InferenceLease) (ref : NamespacedReference)
      (id : String) (admitted : Result String (List EndpointSnapshot × String))
      → admit_snapshots policy all ≡ admitted
      → Binds (admit_lease s decided ensured lease admitted) ref id
      → IsBindable policy decided ensured all lease ref
  unfolding admit_lease
  admit-IsBindable all lease ref id (err m) a h = absurd (ground arith)
  admit-IsBindable all lease ref id (ok (filtered, used)) a h =
      decision-IsBindable all filtered lease ref used id (select s lease filtered true)
        (λ snapshot m. admit_snapshots-IsAdmitted policy all filtered used snapshot a m) refl h

-- A reconciliation binds an inference lease, with evictions or without, only if the lease is not
-- being deleted, has begun and is neither running nor over, and only to an endpoint that is listed,
-- that the policy admits the lease to and that the lease may share, or to the running endpoint that
-- ensureEndpoint returned where the policy allows a creation.
pub reconcile_lease-IsBindable :
    (s : Sort) (policy : Option (EndpointSnapshot → Result String PolicyDecision))
    (decided : Result String PolicyDecision) (ensured : Result String (NamespacedReference × Phase))
    (endpoints : List InferenceEndpoint) (leases : List LeaseState) (state : LeaseState)
    (ref : NamespacedReference) (id : String)
    → Binds (reconcile_lease s policy decided ensured endpoints leases state) ref id
    → (state.deleting ≡ false)
      × (state.lease.phase ≢ unset)
      × (state.lease.phase ≢ running)
      × (is_terminal state.lease.phase ≡ false)
      × IsBindable policy decided ensured (snapshots endpoints leases) state.lease ref
unfolding reconcile_lease
reconcile_lease-IsBindable s policy decided ensured endpoints leases state ref id h =
    let all = snapshots endpoints leases in
    let started = phase_eq_iff state.lease.phase unset in
    let runs = phase_eq_iff state.lease.phase running in
    let admits : Binds (admit_lease s decided ensured state.lease (admit_snapshots policy all)) ref
        id =
      ground arith in
    (
      ground arith,
      λ e. ground arith,
      λ e. ground arith,
      ground arith,
      admit-IsBindable s policy decided ensured all state.lease ref id _ refl admits,
    )
