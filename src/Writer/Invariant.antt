-- ===== src/Writer/Invariant.antt =====
-- The invariant of the protocol, and that every successful write keeps it.
use sovereign_ai.Prelude.{
  All-Elem, ◌<◌, ◌≡◌, refl, ap, sym, ◌∙◌, ◌≢◌, ◌⊎◌, inl, inr, List, ◌∷◌, some, String, arith, All,
  All-map, Elem,
}
use sovereign_ai.Prelude.Int.{◌≤ℤ◌, int_laws}
use sovereign_ai.Writer.{Lease, WriterGrant, put, holder_of, epoch_of, acquire_plan}
use sovereign_ai.Writer.Plans.{
  IsEpoch, StartsTerm, EndsTerm, acquire_plan-put, acquire_plan-version, release_plan-EndsTerm,
}
use sovereign_ai.Writer.Protocol.{
  LeaseServer, World, Step, acquire, release, Reach, created, next, Descending,
}

module _ (server : LeaseServer) where
  pub record Inv (w : World server) (now : Lease) : Type 0 where
    pub current : server.current w.store ≡ some now
    pub versions : All (λ l. (l ≡ now) ⊎ (l.version < now.version)) w.seen
    pub range : IsEpoch (epoch_of now)
    pub bounded : All (λ g. g.epoch ≤ℤ epoch_of now) w.grants
    pub descending : Descending w.grants
    pub held :
        holder_of now ≢ ""
        → (g : WriterGrant) × (rest : List WriterGrant) × (w.grants ≡ g ∷ rest)
          × (g.holder_identity ≡ holder_of now)
          × (g.epoch ≡ epoch_of now)

  -- A write succeeds only on a lease that was read at its present version, which is the present
  -- lease.
  read_is_now :
      (w : World server) (now read new : Lease) (t : server.Store)
      → Inv w now
      → Elem read w.seen
      → new.version ≡ read.version
      → server.update w.store new ≡ some t
      → (stored : Lease) × (read ≡ now)
        × (server.current t ≡ some stored)
        × (stored ≡ record new { version = stored.version })
        × (now.version < stored.version)
  read_is_now w now read new t inv m v u =
      let (at, stored, present, same_version, stored_now, same, later) =
        server.update_ok w.store t new u in
      let is_now : at ≡ now = cc (present, inv.current) in
      let version : now.version ≡ read.version =
        ap (λ l. l.version) (sym is_now) ∙ same_version ∙ v in
      let newest : read ≡ now =
        elim (All-Elem (λ l. (l ≡ now) ⊎ (l.version < now.version)) w.seen inv.versions m) [
          | inl e ↦ e
          | inr lt ↦ absurd (omega arith)
        ] in
      (stored, newest, stored_now, same, omega arith)

  older_versions :
      (seen : List Lease) (now stored : Lease)
      → now.version < stored.version
      → All (λ l. (l ≡ now) ⊎ (l.version < now.version)) seen
      → All (λ l. (l ≡ stored) ⊎ (l.version < stored.version)) seen
  older_versions seen now stored lt h =
      All-map (λ l o. elim o [ inl e ↦ inr (rw e lt) | inr before ↦ inr (omega arith) ]) seen h

  acquire-Inv :
      (w : World server) (now new stored : Lease) (holder : String) (grant : WriterGrant)
      (t : server.Store)
      → Inv w now
      → StartsTerm now new holder grant
      → server.current t ≡ some stored
      → stored ≡ record new { version = stored.version }
      → now.version < stored.version
      → Inv (record { store = t; seen = stored ∷ w.seen; grants = grant ∷ w.grants }) stored
  acquire-Inv w now new stored holder grant t inv term c same later =
      let counts : epoch_of stored ≡ grant.epoch = ap epoch_of same ∙ term.counts in
      let holds : holder_of stored ≡ holder = ap holder_of same ∙ term.holds in
      let advances = term.advances in
      let fits = term.fits in
      let range = inv.range in
      record {
        current = c;
        versions = (inl refl, older_versions w.seen now stored later inv.versions);
        range = rw (counts, advances) (omega int_laws, rw (← advances) fits);
        bounded = (
          rw counts (omega arith),
          All-map (λ g h. rw (counts, advances) (omega int_laws)) w.grants inv.bounded,
        );
        descending =
            (All-map (λ g h. rw advances (omega int_laws)) w.grants inv.bounded, inv.descending);
        held = λ _. (grant, w.grants, refl, term.grants_holder ∙ sym holds, sym counts);
      }

  release-Inv :
      (w : World server) (now new stored : Lease) (grant : WriterGrant) (t : server.Store)
      → Inv w now
      → EndsTerm now new grant
      → server.current t ≡ some stored
      → stored ≡ record new { version = stored.version }
      → now.version < stored.version
      → Inv (record { store = t; seen = stored ∷ w.seen; grants = w.grants }) stored
  release-Inv w now new stored grant t inv term c same later =
      let epoch : epoch_of stored ≡ epoch_of now = ap epoch_of same ∙ term.keeps_epoch in
      let empty : holder_of stored ≡ "" = ap holder_of same ∙ term.empties in
      record {
        current = c;
        versions = (inl refl, older_versions w.seen now stored later inv.versions);
        range = rw epoch inv.range;
        bounded = All-map (λ g h. rw epoch h) w.grants inv.bounded;
        descending = inv.descending;
        held = λ holds. absurd (holds empty);
      }

module _ (server : LeaseServer) (workflow_uid : String) where
  -- Every successful write starts the next term on the empty lease or ends the present one.
  pub data Change (w v : World server) (now stored : Lease) : Type 0 where
    starts :
        (new : Lease) (holder : String) (grant : WriterGrant)
        → StartsTerm now new holder grant
        → stored ≡ record new { version = stored.version }
        → v.grants ≡ grant ∷ w.grants
        → Change w v now stored
    ends :
        (new : Lease) (grant : WriterGrant)
        → EndsTerm now new grant
        → stored ≡ record new { version = stored.version }
        → v.grants ≡ w.grants
        → Change w v now stored

  pub Step-Change :
      {w v : World server}
      → Step server workflow_uid w v
      → (now : Lease) → Inv server w now
      → (stored : Lease) × Inv server v stored × Change w v now stored
  Step-Change {w} (acquire kind object name holder expected at read new stored grant t m i p u c)
        now inv =
      let version = acquire_plan-version workflow_uid name holder expected at read new grant p in
      let (s, newest, c', same, later) = read_is_now server w now read new t inv m version u in
      let one : s ≡ stored = cc (c, c') in
      let plan : acquire_plan workflow_uid name holder expected at now ≡ put new grant =
        rw newest at p in
      let term : StartsTerm now new holder grant =
        (acquire_plan-put workflow_uid name holder expected at now new grant inv.range plan).0 in
      let same' : stored ≡ record new { version = stored.version } = rw one at same in
      (
        stored,
        acquire-Inv server w now new stored holder grant t inv term c same' (rw one at later),
        starts new holder grant term same' refl,
      )
  Step-Change {w} (release grant at read new stored t m n p u c) now inv =
      let ended = release_plan-EndsTerm grant at read new p in
      let (s, newest, c', same, later) =
        read_is_now server w now read new t inv m ended.keeps_version u in
      let one : s ≡ stored = cc (c, c') in
      let term : EndsTerm now new grant = rw newest at ended in
      let same' : stored ≡ record new { version = stored.version } = rw one at same in
      (
        stored,
        release-Inv server w now new stored grant t inv term c same' (rw one at later),
        ends new grant term same' refl,
      )

  pub Reach-Inv :
      {w : World server} → Reach server workflow_uid w → (now : Lease) × Inv server w now
  Reach-Inv (created s lease c none_holds zero_terms) = (
    lease,
    record {
      current = c;
      versions = (inl refl, tt);
      range = ground arith;
      bounded = tt;
      descending = tt;
      held = λ h. absurd (h (ground arith));
    },
  )
  Reach-Inv (next r step) =
      let (now, inv) = Reach-Inv r in
      let (stored, inv', change) = Step-Change step now inv in (stored, inv')
