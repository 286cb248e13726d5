-- ===== src/Writer/Terms.antt =====
-- The terms of a lease: AcquireWorkspaceWriter and ReleaseWorkspaceWriter on the leases that they write
-- themselves. A stored lease has a version that the server chooses.
use sovereign_ai.Prelude.{
  ℕ, ◌≡◌, ◌≢◌, ◌⊎◌, inl, inr, refl, ap, sym, ◌∙◌, some, none, String, eq_iff, arith,
}
use sovereign_ai.Prelude.Int.{ℤ, pos, negsuc, ◌+ℤ◌, ◌≤ℤ◌, ◌<ℤ◌, max_i32, int_laws, eqb_ℤ_iff}
use sovereign_ai.Writer.{
  Lease, WriterGrant, granted, blocked, lost, answer, put, holder_of, epoch_of, acquire_plan,
  take_term, release_plan,
}
use sovereign_ai.Writer.Plans.{IsEpoch, next_epoch, release_plan-EndsTerm}

abbrev pub grant_of : String → String → ℤ → WriterGrant
grant_of lease_name holder epoch = record {
  lease_name = lease_name;
  holder_identity = holder;
  epoch = epoch;
}

-- A lease as the server keeps it.
abbrev pub stored : Lease → ℕ → Lease
stored lease version = record lease { version = version }

module _ (workflow_uid lease_name holder : String) (now : ℕ) (lease : Lease)
    (owned : lease.controller ≡ workflow_uid) where
  -- The plans of a caller that recorded an epoch.
  recovered :
      (epoch : ℤ)
      → pos 0 <ℤ epoch
      → holder_of lease ≡ holder
      → epoch_of lease ≡ epoch
      → acquire_plan workflow_uid lease_name holder epoch now lease
        ≡ answer (grant_of lease_name holder epoch) granted
  unfolding acquire_plan
  recovered epoch positive own term = ground (
    arith,
    eq_iff lease.controller workflow_uid,
    eq_iff (holder_of lease) holder,
    eqb_ℤ_iff (epoch_of lease) epoch,
  )

  not_recovered :
      (epoch : ℤ)
      → pos 0 <ℤ epoch
      → (holder_of lease ≢ holder) ⊎ (epoch_of lease ≢ epoch)
      → acquire_plan workflow_uid lease_name holder epoch now lease
        ≡ answer (grant_of lease_name holder epoch) lost
  unfolding acquire_plan
  not_recovered epoch positive over = ground (
    arith,
    eq_iff lease.controller workflow_uid,
    eq_iff (holder_of lease) holder,
    eqb_ℤ_iff (epoch_of lease) epoch,
  )

  -- The plans of a caller that recorded none.
  repeated :
      (epoch : ℤ)
      → pos 0 <ℤ epoch
      → holder_of lease ≡ holder
      → epoch_of lease ≡ epoch
      → acquire_plan workflow_uid lease_name holder (pos 0) now lease
        ≡ answer (grant_of lease_name holder epoch) granted
  unfolding acquire_plan
  repeated epoch positive own term =
      rw (← term)
        (ground (arith, eq_iff lease.controller workflow_uid, eq_iff (holder_of lease) holder))

  kept_out :
      holder_of lease ≢ ""
      → holder_of lease ≢ holder
      → acquire_plan workflow_uid lease_name holder (pos 0) now lease
        ≡ answer (grant_of lease_name holder (pos 0)) blocked
  unfolding acquire_plan
  kept_out held other = ground (
    arith,
    eq_iff lease.controller workflow_uid,
    eq_iff (holder_of lease) holder,
    eq_iff (holder_of lease) "",
  )

  -- The empty lease with the term that a caller starts.
  abbrev started : Lease
  started = record lease {
    holder_identity = some holder;
    acquire_time = some now;
    renew_time = some now;
    lease_transitions = some (epoch_of lease +ℤ pos 1);
  }

  starts :
      IsEpoch (epoch_of lease)
      → holder ≢ ""
      → holder_of lease ≡ ""
      → epoch_of lease ≢ pos max_i32
      → acquire_plan workflow_uid lease_name holder (pos 0) now lease
        ≡ put started (grant_of lease_name holder (epoch_of lease +ℤ pos 1))
  unfolding acquire_plan take_term
  starts range named empty room =
      let last = eqb_ℤ_iff (epoch_of lease) (pos max_i32) in
      let (exact, fits) = next_epoch (epoch_of lease) range (ground arith) in
      rw (← exact) (
        ground (
          arith,
          eq_iff lease.controller workflow_uid,
          eq_iff (holder_of lease) holder,
          eq_iff (holder_of lease) "",
          last,
        ))

successor_positive : (epoch : ℤ) → pos 0 ≤ℤ epoch → pos 0 <ℤ epoch +ℤ pos 1
successor_positive (pos n) h = omega int_laws
successor_positive (negsuc n) h = absurd (omega arith)

successor_less : (epoch : ℤ) → epoch <ℤ epoch +ℤ pos 1
successor_less epoch = omega int_laws

less_irreflexive : (epoch : ℤ) → epoch <ℤ epoch → ⊥
less_irreflexive epoch h = omega arith

successor_ne : (epoch : ℤ) → epoch +ℤ pos 1 ≢ epoch
successor_ne epoch e = let less = successor_less epoch in less_irreflexive epoch (rw e at less)

-- On an empty lease of its workflow whose epochs are not exhausted, a caller with a holder name that is
-- not empty and no recorded epoch starts the term with the next epoch. Whatever version and time the
-- lease is read with after the write, the same caller gets this term again, with and without the
-- epoch; another caller is blocked without a recorded epoch, and told that its term is lost with one.
pub started_term_held :
    (workflow_uid lease_name holder other : String) (now later version : ℕ) (epoch : ℤ)
    (lease : Lease)
    → IsEpoch (epoch_of lease)
    → lease.controller ≡ workflow_uid
    → holder ≢ ""
    → holder_of lease ≡ ""
    → epoch_of lease ≢ pos max_i32
    → other ≢ holder
    → pos 0 <ℤ epoch
    → (new : Lease) × (grant : WriterGrant) × (acquire_plan workflow_uid lease_name holder
          (pos 0)
          now
          lease
        ≡ put new grant)
      × (grant ≡ grant_of lease_name holder (epoch_of lease +ℤ pos 1))
      × (acquire_plan workflow_uid lease_name holder (pos 0) later (stored new version)
          ≡ answer grant granted)
      × (acquire_plan workflow_uid lease_name holder grant.epoch later (stored new version)
          ≡ answer grant granted)
      × (acquire_plan workflow_uid lease_name other (pos 0) later (stored new version)
          ≡ answer (grant_of lease_name other (pos 0)) blocked)
      × (acquire_plan workflow_uid lease_name other epoch later (stored new version)
          ≡ answer (grant_of lease_name other epoch) lost)
started_term_held uid name holder other now later version epoch lease range owned named empty room
      differs positive =
    let new = started uid name holder now lease owned in
    let next = epoch_of lease +ℤ pos 1 in
    let grows = successor_positive (epoch_of lease) range.0 in
    (
      new,
      grant_of name holder next,
      starts uid name holder now lease owned range named empty room,
      refl,
      repeated uid name holder later (stored new version) owned next grows refl refl,
      recovered uid name holder later (stored new version) owned next grows refl refl,
      kept_out uid name other later (stored new version) owned named (λ e. differs (sym e)),
      not_recovered uid name other later (stored new version) owned epoch positive
          (inl (λ e. differs (sym e))),
    )

not_released :
    (grant : WriterGrant) (now : ℕ) (lease : Lease)
    → epoch_of lease ≢ grant.epoch
    → release_plan grant now lease ≡ none
unfolding release_plan
not_released grant now lease over = ground (arith, eqb_ℤ_iff (epoch_of lease) grant.epoch)

-- After a release of a term with a positive epoch, whatever version the lease is stored with, the caller
-- that held the term and recorded its epoch is told that it is lost. Any caller with a holder name that
-- is not empty, the former one too, starts the next epoch if the epochs are not exhausted; after
-- that the ended term is still lost to its holder, and its grant releases nothing.
pub ended_term_lost :
    (workflow_uid lease_name holder : String) (now later version version' : ℕ) (grant : WriterGrant)
    (lease new : Lease)
    → release_plan grant now lease ≡ some new
    → IsEpoch (epoch_of lease)
    → lease.controller ≡ workflow_uid
    → holder ≢ ""
    → pos 0 <ℤ grant.epoch
    → grant.epoch ≢ pos max_i32
    → (acquire_plan workflow_uid lease_name grant.holder_identity grant.epoch later
          (stored new version)
        ≡ answer (grant_of lease_name grant.holder_identity grant.epoch) lost)
      × ((taken : Lease) × (acquire_plan workflow_uid lease_name holder
              (pos 0)
              later
              (stored new version)
            ≡ put taken (grant_of lease_name holder (grant.epoch +ℤ pos 1)))
          × (holder_of taken ≡ holder)
          × (epoch_of taken ≡ grant.epoch +ℤ pos 1)
          × (acquire_plan workflow_uid lease_name grant.holder_identity grant.epoch later
                (stored taken version')
              ≡ answer (grant_of lease_name grant.holder_identity grant.epoch) lost)
          × (release_plan grant later (stored taken version') ≡ none))
ended_term_lost uid name holder now later version version' grant lease new h range owned named
      positive room =
    let ends = release_plan-EndsTerm grant now lease new h in
    let same : epoch_of new ≡ grant.epoch = ends.keeps_epoch ∙ ends.own_epoch in
    let own : new.controller ≡ uid = ends.keeps_controller ∙ owned in
    let range' : IsEpoch (epoch_of new) = rw ends.keeps_epoch range in
    let taken = started uid name holder later (stored new version) own in
    let counts : epoch_of taken ≡ grant.epoch +ℤ pos 1 = ap (λ e. e +ℤ pos 1) same in
    let over : epoch_of taken ≢ grant.epoch = λ e. successor_ne grant.epoch (sym counts ∙ e) in
    (
      not_recovered uid name grant.holder_identity later (stored new version) own grant.epoch
          positive (inl (λ e. ends.was_held (ends.own_holder ∙ sym e ∙ ends.empties))),
      (
        taken,
        starts uid name holder later (stored new version) own range' named ends.empties
              (λ e. room (sym same ∙ e))
            ∙ ap (λ e. put taken (grant_of name holder (e +ℤ pos 1))) same,
        refl,
        counts,
        not_recovered uid name grant.holder_identity later (stored taken version') own grant.epoch
            positive (inr over),
        not_released grant later (stored taken version') over,
      ),
    )
