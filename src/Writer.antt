-- ===== src/Writer.antt =====
-- internal/controllers/workspace_writer.go: the lease that serialises every writable mount of a
-- workflow's workspace. An empty Go string is "no holder"; times are numbers.
pub mod Plans
pub mod Terms
pub mod Protocol
pub mod Invariant
pub mod Fencing
mod Quiescence
mod Tests
use Prim.Native.String.{◌++◌}
use sovereign_ai.Prelude.{ℕ, Bool, ◌&&◌, ◌||◌, not, Option, none, some, String, ◌==◌, if◌then◌else◌}
use sovereign_ai.Prelude.Int.{ℤ, pos, ◌+ℤ◌, ltb_ℤ, eqb_ℤ, i32, max_i32}

-- coordination.k8s.io Lease, with the fields that the functions read or write. `controller` is
-- the UID of the controlling owner, empty where there is none, and `version` the resource version.
pub record Lease : Type 0 where
  pub controller : String
  pub deleting : Bool
  pub version : ℕ
  pub holder_identity : Option String
  pub lease_transitions : Option ℤ
  pub acquire_time : Option ℕ
  pub renew_time : Option ℕ

pub record WriterGrant : Type 0 where
  pub lease_name : String
  pub holder_identity : String
  pub epoch : ℤ

pub data WriterState : Type 0 where
  granted blocked lost : WriterState

pub data WriterError : Type 0 where
  no_uid not_controlled no_positive_epoch epoch_exhausted : WriterError

-- `WorkspaceWriterIdentity`: kind/namespace/name/uid of an object that has a UID.
pub record Object : Type 0 where
  pub namespace : String
  pub name : String
  pub uid : String

pub identity : String → Object → Option String
identity kind object =
    if object.uid == ""
    then none
    else some (kind ++ "/" ++ object.namespace ++ "/" ++ object.name ++ "/" ++ object.uid)

abbrev pub holder_of : Lease → String
holder_of lease = elim lease.holder_identity [ none ↦ "" | some holder ↦ holder ]

abbrev pub epoch_of : Lease → ℤ
epoch_of lease = elim lease.lease_transitions [ none ↦ pos 0 | some epoch ↦ epoch ]

-- What a run of the closure that `RetryOnConflict` repeats does with the lease that it read: it
-- ends with an error or an answer, or updates the lease and answers `granted` if that succeeds.
pub data Plan : Type 0 where
  give_up : WriterError → Plan
  answer : WriterGrant → WriterState → Plan
  put : Lease → WriterGrant → Plan

-- The last part of the closure, which takes an empty lease for a new term.
take_term : String → String → ℕ → Lease → Plan
take_term lease_name holder now lease =
    if eqb_ℤ (epoch_of lease) (pos max_i32)
    then give_up epoch_exhausted
    else let epoch = i32 (epoch_of lease +ℤ pos 1) in
      put
        (record lease {
          holder_identity = some holder;
          acquire_time = some now;
          renew_time = some now;
          lease_transitions = some epoch;
        })
        (record { lease_name = lease_name; holder_identity = holder; epoch = epoch })

-- The closure of `AcquireWorkspaceWriter` from the lease that it read on.
pub acquire_plan : String → String → String → ℤ → ℕ → Lease → Plan
unfolding take_term
acquire_plan workflow_uid lease_name holder expected_epoch now lease =
    let grant = λ (epoch : ℤ).
      let g : WriterGrant = record {
        lease_name = lease_name;
        holder_identity = holder;
        epoch = epoch;
      } in
      g in
    if not (lease.controller == workflow_uid)
    then give_up not_controlled
    else if ltb_ℤ (pos 0) expected_epoch
    then (if holder_of lease == holder && eqb_ℤ (epoch_of lease) expected_epoch
        then answer (grant expected_epoch) granted
        else answer (grant expected_epoch) lost)
    else if holder_of lease == holder
    then (if ltb_ℤ (epoch_of lease) (pos 1)
        then give_up no_positive_epoch
        else answer (grant (epoch_of lease)) granted)
    else if not (holder_of lease == "")
    then answer (grant (pos 0)) blocked
    else take_term lease_name holder now lease

-- The closure of `ReleaseWorkspaceWriter`: the lease to write, or `none` to leave it.
pub release_plan : WriterGrant → ℕ → Lease → Option Lease
release_plan grant now lease =
    if lease.deleting
    then none
    else if holder_of lease == ""
        || not (holder_of lease == grant.holder_identity)
        || not (eqb_ℤ (epoch_of lease) grant.epoch)
    then none
    else some
        (record lease { holder_identity = some ""; acquire_time = none; renew_time = some now })

-- The guard of `ReleaseWorkspaceWriter`, which returns at once on a grant that names no term.
pub names_term : WriterGrant → Bool
names_term grant =
    not (grant.lease_name == "" || grant.holder_identity == "" || ltb_ℤ grant.epoch (pos 1))
