-- ===== src/Writer/Tests.antt =====
-- A run of the protocol on a server that keeps one lease, and the theorems at that run.
use sovereign_ai.Prelude.{
  ℕ, suc, ◌<◌, ◌≡◌, refl, ◌≢◌, inl, false, List, [], ◌∷◌, Option, some, none, String, arith, eqb,
  if◌then◌else◌, eq_iff,
}
use sovereign_ai.Prelude.Int.{pos, ◌+ℤ◌, i32, max_i32, eqb_ℤ_iff}
use sovereign_ai.Writer.{
  Lease, Object, identity, WriterGrant, put, answer, granted, lost, blocked, holder_of, epoch_of,
  acquire_plan, release_plan, names_term,
}
use sovereign_ai.Writer.Plans.{IsEpoch}
use sovereign_ai.Writer.Terms.{grant_of, stored, started_term_held, ended_term_lost}
use sovereign_ai.Writer.Protocol.{
  LeaseServer, World, Step, acquire, release, Reach, created, next, Descending,
}
use sovereign_ai.Writer.Fencing.{Reach-Descending, granted_is_newest, held_until_released}

abbrev store_lease : Lease → Lease → Option Lease
store_lease s lease =
    if eqb s.version lease.version
    then some (record lease { version = suc lease.version })
    else none

store_lease_ok :
    (s t lease : Lease)
    → store_lease s lease ≡ some t
    → (now : Lease) × (stored : Lease) × (some s ≡ some now)
      × (now.version ≡ lease.version)
      × (some t ≡ some stored)
      × (stored ≡ record lease { version = stored.version })
      × (lease.version < stored.version)
store_lease_ok s t lease e = (s, t, refl, ground arith, refl, ground arith, ground arith)

abbrev single : LeaseServer
single = record {
  Store = Lease;
  current = λ s. some s;
  update = store_lease;
  update_ok = store_lease_ok;
}

abbrev empty_lease : Lease
empty_lease = record {
  controller = "workflow-uid";
  deleting = false;
  version = 7;
  holder_identity = none;
  lease_transitions = some (pos 0);
  acquire_time = none;
  renew_time = none;
}

abbrev run_object : Object
run_object = record { namespace = "ns"; name = "author-w000-r001"; uid = "u1" }

abbrev run_holder : String
run_holder = "AgentRun/ns/author-w000-r001/u1"

abbrev run_grant : WriterGrant
run_grant = record { lease_name = "lease"; holder_identity = run_holder; epoch = pos 1 }

-- The lease as the run writes it at time 5, and as it is written on release at time 9.
abbrev taken : ℕ → Lease
taken version = record empty_lease {
  version = version;
  holder_identity = some run_holder;
  lease_transitions = some (pos 1);
  acquire_time = some 5;
  renew_time = some 5;
}

abbrev freed : ℕ → Lease
freed version = record (taken version) {
  holder_identity = some "";
  acquire_time = none;
  renew_time = some 9;
}

abbrev start_world : World single
start_world = record { store = empty_lease; seen = empty_lease ∷ []; grants = [] }

abbrev held_world : World single
held_world = record { store = taken 8; seen = taken 8 ∷ empty_lease ∷ []; grants = run_grant ∷ [] }

abbrev freed_world : World single
freed_world = record {
  store = freed 9;
  seen = freed 9 ∷ taken 8 ∷ empty_lease ∷ [];
  grants = run_grant ∷ [];
}

takes : Step single "workflow-uid" start_world held_world
unfolding acquire_plan identity i32 ◌+ℤ◌
takes =
    acquire "AgentRun" run_object "lease" run_holder (pos 0) 5 empty_lease (taken 7) (taken 8)
      run_grant (taken 8) (inl refl) refl refl refl refl

frees : Step single "workflow-uid" held_world freed_world
unfolding release_plan names_term
frees = release run_grant 9 (taken 8) (freed 8) (freed 9) (freed 9) (inl refl) refl refl refl refl

held_reached : Reach single "workflow-uid" held_world
held_reached = next (created empty_lease empty_lease refl refl refl) takes

Reach-Descending_example : Descending (run_grant ∷ [])
Reach-Descending_example =
    Reach-Descending single "workflow-uid" {w = freed_world} (next held_reached frees)

recovers :
    acquire_plan "workflow-uid" "lease" run_holder (pos 1) 6 (taken 8) ≡ answer run_grant granted
unfolding acquire_plan
recovers = refl

stale_is_lost :
    acquire_plan "workflow-uid" "lease" run_holder (pos 1) 12 (freed 9) ≡ answer run_grant lost
unfolding acquire_plan
stale_is_lost = refl

holder_named : run_holder ≢ ""
holder_named = ground (arith, eq_iff run_holder "")

granted_is_newest_example :
    (newest : WriterGrant) × (older : List WriterGrant) × (held_world.grants ≡ newest ∷ older)
    × (newest.holder_identity ≡ run_holder)
    × (newest.epoch ≡ run_grant.epoch)
granted_is_newest_example =
    granted_is_newest single "workflow-uid" (taken 8) "lease" run_holder (pos 1) 6 run_grant
      held_reached refl holder_named recovers

held_until_released_example :
    (stored : Lease) × (single.current freed_world.store ≡ some stored)
    × (holder_of stored ≡ "")
    × (epoch_of stored ≡ epoch_of (taken 8))
    × (freed_world.grants ≡ held_world.grants)
held_until_released_example =
    held_until_released single "workflow-uid" {w = held_world} {v = freed_world} (taken 8)
      held_reached refl holder_named frees

abbrev other_holder : String
other_holder = "AgentRun/ns/author-w000-r002/u2"

others_differ : other_holder ≢ run_holder
others_differ = ground (arith, eq_iff other_holder run_holder)

other_named : other_holder ≢ ""
other_named = ground (arith, eq_iff other_holder "")

empty_range : IsEpoch (epoch_of empty_lease)
empty_range = (omega arith, omega arith)

taken_range : IsEpoch (epoch_of (taken 8))
taken_range = (omega arith, omega arith)

room_after : (epoch : ℕ) → epoch < 9 → pos epoch ≢ pos max_i32
room_after epoch h e = let last = eqb_ℤ_iff (pos epoch) (pos max_i32) in absurd (ground arith)

started_term_held_example :
    let run = acquire_plan "workflow-uid" "lease" run_holder in
    let other = acquire_plan "workflow-uid" "lease" other_holder in
    (new : Lease) × (grant : WriterGrant) × (run (pos 0) 5 empty_lease ≡ put new grant)
    × (grant ≡ grant_of "lease" run_holder (pos 0 +ℤ pos 1))
    × (run (pos 0) 6 (stored new 8) ≡ answer grant granted)
    × (run grant.epoch 6 (stored new 8) ≡ answer grant granted)
    × (other (pos 0) 6 (stored new 8) ≡ answer (grant_of "lease" other_holder (pos 0)) blocked)
    × (other (pos 1) 6 (stored new 8) ≡ answer (grant_of "lease" other_holder (pos 1)) lost)
started_term_held_example =
    started_term_held "workflow-uid" "lease" run_holder other_holder 5 6 8 (pos 1) empty_lease
      empty_range refl holder_named refl (room_after 0 (omega arith)) others_differ (omega arith)

release_runs : release_plan run_grant 9 (taken 8) ≡ some (freed 8)
unfolding release_plan
release_runs = refl

ended_term_lost_example :
    let run = acquire_plan "workflow-uid" "lease" run_holder in
    let other = acquire_plan "workflow-uid" "lease" other_holder in
    (run (pos 1) 12 (stored (freed 8) 9) ≡ answer (grant_of "lease" run_holder (pos 1)) lost)
    × ((new : Lease) × (other (pos 0) 12 (stored (freed 8) 9)
          ≡ put new (grant_of "lease" other_holder (pos 1 +ℤ pos 1)))
        × (holder_of new ≡ other_holder)
        × (epoch_of new ≡ pos 1 +ℤ pos 1)
        × (run (pos 1) 12 (stored new 10) ≡ answer (grant_of "lease" run_holder (pos 1)) lost)
        × (release_plan run_grant 12 (stored new 10) ≡ none))
ended_term_lost_example =
    ended_term_lost "workflow-uid" "lease" other_holder 9 12 9 10 run_grant (taken 8) (freed 8)
      release_runs taken_range refl other_named (omega arith) (room_after 1 (omega arith))
