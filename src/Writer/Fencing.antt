-- ===== src/Writer/Fencing.antt =====
-- What the invariant means for two writers of one workspace.
use sovereign_ai.Prelude.{ℕ, ◌≡◌, sym, ◌∙◌, ◌≢◌, List, ◌∷◌, some, String}
use sovereign_ai.Prelude.Int.{ℤ}
use sovereign_ai.Writer.{Lease, WriterGrant, answer, granted, holder_of, epoch_of, acquire_plan}
use sovereign_ai.Writer.Plans.{acquire_plan-granted}
use sovereign_ai.Writer.Protocol.{LeaseServer, World, Step, Reach, Descending}
use sovereign_ai.Writer.Invariant.{starts, ends, Step-Change, Reach-Inv}

module _ (server : LeaseServer) (workflow_uid : String) where
  -- The epochs of the terms that were ever granted on the lease of a workflow, by any number of
  -- controllers whose reads and writes interleave, strictly increase.
  pub Reach-Descending : {w : World server} → Reach server workflow_uid w → Descending w.grants
  Reach-Descending r = (Reach-Inv server workflow_uid r).1.descending

  -- In every reachable world a controller whose identity is not empty and which reads the present
  -- lease is told that it is granted only if the newest term is its own: the last term that was
  -- started has its identity and the epoch of its grant.
  pub granted_is_newest :
      {w : World server} (now : Lease) (lease_name holder : String) (expected : ℤ) (at : ℕ)
      (grant : WriterGrant)
      → Reach server workflow_uid w
      → server.current w.store ≡ some now
      → holder ≢ ""
      → acquire_plan workflow_uid lease_name holder expected at now ≡ answer grant granted
      → (newest : WriterGrant) × (older : List WriterGrant) × (w.grants ≡ newest ∷ older)
        × (newest.holder_identity ≡ holder)
        × (newest.epoch ≡ grant.epoch)
  granted_is_newest {w} now name holder expected at grant r c n e =
      let (lease, inv) = Reach-Inv server workflow_uid r in
      let one : lease ≡ now = cc (inv.current, c) in
      let (own, epoch, _) = acquire_plan-granted workflow_uid name holder expected at now grant e in
      let (g, older, last, same_holder, same_epoch) =
        (rw one at inv).held (λ empty. n (sym own ∙ empty)) in
      (g, older, last, same_holder ∙ own, same_epoch ∙ epoch)

  -- No controller takes over a lease that is held: from a reachable world whose lease has a
  -- holder, the next successful write starts no term, and it clears the holder and keeps the epoch.
  pub held_until_released :
      {w v : World server} (now : Lease)
      → Reach server workflow_uid w
      → server.current w.store ≡ some now
      → holder_of now ≢ ""
      → Step server workflow_uid w v
      → (stored : Lease) × (server.current v.store ≡ some stored)
        × (holder_of stored ≡ "")
        × (epoch_of stored ≡ epoch_of now)
        × (v.grants ≡ w.grants)
  held_until_released {w} {v} now r c h step =
      let (lease, inv) = Reach-Inv server workflow_uid r in
      let one : lease ≡ now = cc (inv.current, c) in
      let (stored, inv', change) = Step-Change server workflow_uid step now (rw one at inv) in
      elim change [
        | starts new holder grant term same last ↦ absurd (h term.was_empty)
        | ends new grant term same kept ↦
            (stored, inv'.current, rw same term.empties, rw same term.keeps_epoch, kept)
      ]
