-- ===== src/Writer/Protocol.antt =====
-- Any number of controllers acquire and release one lease. Each run of a closure reads the lease
-- at some time and writes it later, so that the lease may have changed in between; the server
-- then refuses the write, and `RetryOnConflict` runs the closure again.
use sovereign_ai.Prelude.{ℕ, ◌<◌, ◌≡◌, true, List, [], ◌∷◌, Option, some, none, String, All, Elem}
use sovereign_ai.Prelude.Int.{ℤ, pos, ◌<ℤ◌}
use sovereign_ai.Writer.{
  Lease, Object, identity, WriterGrant, put, acquire_plan, release_plan, names_term,
}

-- The API server, as far as this lease goes: it is read, and an update succeeds only if the lease
-- still has the version that the writer read; the lease is then stored under a later version.
pub record LeaseServer : Type 1 where
  pub Store : Type 0
  pub current : Store → Option Lease
  pub update : Store → Lease → Option Store
  pub update_ok :
      (s t : Store) (lease : Lease)
      → update s lease ≡ some t
      → (now : Lease) × (stored : Lease) × (current s ≡ some now)
        × (now.version ≡ lease.version)
        × (current t ≡ some stored)
        × (stored ≡ record lease { version = stored.version })
        × (lease.version < stored.version)

-- `seen` are the leases that the server has stored, the last one first, and `grants` the terms
-- that were started, the last one first.
pub record World (server : LeaseServer) : Type 0 where
  pub store : server.Store
  pub seen : List Lease
  pub grants : List WriterGrant

module _ (server : LeaseServer) (workflow_uid : String) where
  -- A run of a closure whose write succeeds. (A run that gives up, answers without a write or
  -- meets a conflict leaves the world as it is.)
  pub data Step (w : World server) : World server → Type 0 where
    acquire :
        (kind : String) (object : Object) (lease_name holder : String) (expected : ℤ) (at : ℕ)
        (read new stored : Lease) (grant : WriterGrant) (t : server.Store)
        → Elem read w.seen
        → identity kind object ≡ some holder
        → acquire_plan workflow_uid lease_name holder expected at read ≡ put new grant
        → server.update w.store new ≡ some t
        → server.current t ≡ some stored
        → Step w (record { store = t; seen = stored ∷ w.seen; grants = grant ∷ w.grants })
    release :
        (grant : WriterGrant) (at : ℕ) (read new stored : Lease) (t : server.Store)
        → Elem read w.seen
        → names_term grant ≡ true
        → release_plan grant at read ≡ some new
        → server.update w.store new ≡ some t
        → server.current t ≡ some stored
        → Step w (record { store = t; seen = stored ∷ w.seen; grants = w.grants })

  -- The worlds reached from the lease as the workflow controller creates it: held by nobody, its
  -- count of terms 0.
  pub data Reach : World server → Type 0 where
    created :
        (s : server.Store) (lease : Lease)
        → server.current s ≡ some lease
        → lease.holder_identity ≡ none
        → lease.lease_transitions ≡ some (pos 0)
        → Reach (record { store = s; seen = lease ∷ []; grants = [] })
    next : {w v : World server} → Reach w → Step w v → Reach v

-- The newest term has the greatest epoch, and so on down.
abbrev pub Descending : List WriterGrant → Type 0
Descending [] = Unit
Descending (grant ∷ grants) = All (λ g. g.epoch <ℤ grant.epoch) grants × Descending grants
