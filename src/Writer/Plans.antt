-- ===== src/Writer/Plans.antt =====
-- What the two closures do to the lease that they read.
use sovereign_ai.Prelude.{
  ℕ, ◌≡◌, ◌<◌, ◌≢◌, inl, inr, false, some, String, eq_iff, arith, Bool-cases,
}
use sovereign_ai.Prelude.Int.{
  ℤ, pos, negsuc, ◌+ℤ◌, ◌≤ℤ◌, i32, i32_of_IsI32, max_i32, int_laws, eqb_ℤ, eqb_ℤ_iff,
}
use sovereign_ai.Writer.{
  Lease, WriterGrant, granted, answer, put, holder_of, epoch_of, acquire_plan, take_term,
  release_plan,
}

-- The epoch of a lease is the zero value or counts the terms that were granted.
abbrev pub IsEpoch : ℤ → Type 0
IsEpoch epoch = (pos 0 ≤ℤ epoch) × (epoch ≤ℤ pos max_i32)

-- The lease `new` starts a term of `grant` on the empty lease `old`.
pub record StartsTerm (old new : Lease) (holder : String) (grant : WriterGrant) : Type 0 where
  pub was_empty : holder_of old ≡ ""
  pub holds : holder_of new ≡ holder
  pub grants_holder : grant.holder_identity ≡ holder
  pub counts : epoch_of new ≡ grant.epoch
  pub advances : grant.epoch ≡ epoch_of old +ℤ pos 1
  pub fits : grant.epoch ≤ℤ pos max_i32
  pub keeps_version : new.version ≡ old.version
  pub keeps_controller : new.controller ≡ old.controller

-- Below the greatest int32 the next epoch does not wrap.
pub next_epoch :
    (epoch : ℤ)
    → IsEpoch epoch
    → eqb_ℤ epoch (pos max_i32) ≡ false
    → (i32 (epoch +ℤ pos 1) ≡ epoch +ℤ pos 1) × (epoch +ℤ pos 1 ≤ℤ pos max_i32)
next_epoch (pos n) (low, high) h =
    let room : n < max_i32 = ground arith in
    (i32_of_IsI32 (pos n +ℤ pos 1) (omega int_laws, omega int_laws), omega int_laws)
next_epoch (negsuc n) (low, high) h = absurd (omega arith)

module _ (workflow_uid lease_name holder : String) (expected : ℤ) (now : ℕ) (lease : Lease) where
  take_term-StartsTerm :
      (new : Lease) (grant : WriterGrant)
      → IsEpoch (epoch_of lease)
      → holder_of lease ≡ ""
      → take_term lease_name holder now lease ≡ put new grant
      → StartsTerm lease new holder grant
  unfolding take_term
  take_term-StartsTerm new grant range empty e =
      elim (Bool-cases (eqb_ℤ (epoch_of lease) (pos max_i32))) [
        | inl exhausted ↦ ground arith
        | inr room ↦
            let (exact, fits) = next_epoch (epoch_of lease) range room in
            record {
              was_empty = empty;
              holds = ground arith;
              grants_holder = ground arith;
              counts = ground arith;
              advances = ground arith;
              fits = ground arith;
              keeps_version = ground arith;
              keeps_controller = ground arith;
            }
      ]

  -- The closure writes only an empty lease of its own workflow, with no term expected, and then
  -- starts the next term.
  pub acquire_plan-put :
      (new : Lease) (grant : WriterGrant)
      → IsEpoch (epoch_of lease)
      → acquire_plan workflow_uid lease_name holder expected now lease ≡ put new grant
      → StartsTerm lease new holder grant × (lease.controller ≡ workflow_uid) × (expected ≤ℤ pos 0)
  unfolding acquire_plan
  acquire_plan-put new grant range e = ground (
    arith,
    take_term-StartsTerm new grant range,
    eq_iff lease.controller workflow_uid,
    eq_iff (holder_of lease) "",
  )

  pub acquire_plan-version :
      (new : Lease) (grant : WriterGrant)
      → acquire_plan workflow_uid lease_name holder expected now lease ≡ put new grant
      → new.version ≡ lease.version
  unfolding acquire_plan
  acquire_plan-version new grant e = ground arith

  pub acquire_plan-granted :
      (grant : WriterGrant)
      → acquire_plan workflow_uid lease_name holder expected now lease ≡ answer grant granted
      → (holder_of lease ≡ holder)
        × (epoch_of lease ≡ grant.epoch)
        × (grant.holder_identity ≡ holder)
  unfolding acquire_plan
  acquire_plan-granted grant e =
      ground (arith, eq_iff (holder_of lease) holder, eqb_ℤ_iff (epoch_of lease) expected)

-- A release empties the lease that it read, keeps the epoch, and happens only on the term of the
-- grant.
pub record EndsTerm (old new : Lease) (grant : WriterGrant) : Type 0 where
  pub was_held : holder_of old ≢ ""
  pub own_holder : holder_of old ≡ grant.holder_identity
  pub own_epoch : epoch_of old ≡ grant.epoch
  pub empties : holder_of new ≡ ""
  pub keeps_epoch : epoch_of new ≡ epoch_of old
  pub keeps_version : new.version ≡ old.version
  pub keeps_controller : new.controller ≡ old.controller

pub release_plan-EndsTerm :
    (grant : WriterGrant) (now : ℕ) (lease new : Lease)
    → release_plan grant now lease ≡ some new
    → EndsTerm lease new grant
unfolding release_plan
release_plan-EndsTerm grant now lease new e =
    let h = eq_iff (holder_of lease) "" in
    let g = eq_iff (holder_of lease) grant.holder_identity in
    let k = eqb_ℤ_iff (epoch_of lease) grant.epoch in
    record {
      was_held = λ q. ground arith;
      own_holder = ground arith;
      own_epoch = ground arith;
      empties = ground arith;
      keeps_epoch = ground arith;
      keeps_version = ground arith;
      keeps_controller = ground arith;
    }
