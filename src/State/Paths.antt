-- ===== src/State/Paths.antt =====
-- Sequences of accepted transitions.
use sovereign_ai.Prelude.{◌≡◌, refl, ◌≢◌, ◌↔◌, Bool, true, false, List, [], ◌∷◌, none, arith, Elem}
use sovereign_ai.Api.{
  Phase, unset, pending, admitted, preparing, running, collecting, awaiting_approval, intervening,
  validating, retrying, succeeded, failed, cancelled, interrupted, other, phase_eq_iff,
}
use sovereign_ai.State.{validate_transition, is_terminal}

-- Transitions that the table accepts lead from one phase to another; the list holds the phases
-- entered on the way, the last one first.
pub data Walk (from : Phase) : Phase → List Phase → Type 0 where
  start : Walk from from []
  step :
      {at to : Phase} {seen : List Phase}
      → Walk from at seen
      → validate_transition at to ≡ none
      → Walk from to (to ∷ seen)

absorbs_step :
    (at to : Phase)
    → is_terminal at ≡ true
    → at ≢ interrupted
    → validate_transition at to ≡ none
    → to ≡ at
unfolding validate_transition is_terminal
absorbs_step at to t n e = ground (arith, phase_eq_iff at to)

-- A phase that `IsTerminal` reports, other than Interrupted, is never left: every sequence of
-- accepted transitions from it ends in it.
pub Walk-terminal :
    {from to : Phase} {seen : List Phase}
    → is_terminal from ≡ true
    → from ≢ interrupted
    → Walk from to seen
    → to ≡ from
Walk-terminal t n start = refl
Walk-terminal {from} {to} t n (step {at} w e) =
    let same : at ≡ from = Walk-terminal t n w in absorbs_step from to t n (rw same at e)

abbrev is_prepared : Phase → Bool
is_prepared running = true
is_prepared awaiting_approval = true
is_prepared intervening = true
is_prepared validating = true
is_prepared retrying = true
is_prepared succeeded = true
is_prepared interrupted = true
is_prepared _ = false

-- What has been entered on the way to a phase.
abbrev Entered : Phase → List Phase → Type 0
Entered admitted seen = Elem admitted seen
Entered preparing seen = Elem admitted seen × Elem preparing seen
Entered running seen = Elem admitted seen × Elem preparing seen
Entered awaiting_approval seen = Elem admitted seen × Elem preparing seen
Entered intervening seen = Elem admitted seen × Elem preparing seen
Entered validating seen = Elem admitted seen × Elem preparing seen
Entered retrying seen = Elem admitted seen × Elem preparing seen
Entered succeeded seen = Elem admitted seen × Elem preparing seen
Entered interrupted seen = Elem admitted seen × Elem preparing seen
Entered _ seen = Unit

Entered-step :
    (at to : Phase) (seen : List Phase)
    → validate_transition at to ≡ none
    → Entered at seen
    → Entered to (to ∷ seen)
unfolding validate_transition
Entered-step at to seen e h = ground arith

Walk-Entered : {to : Phase} {seen : List Phase} → Walk unset to seen → Entered to seen
Walk-Entered start = tt
Walk-Entered (step {at} {to} {seen} w e) = Entered-step at to seen e (Walk-Entered w)

-- On every sequence of accepted transitions from the initial phase to Running, AwaitingApproval,
-- Intervening, Validating, Retrying, Succeeded or Interrupted, the phases Admitted and Preparing
-- were entered.
pub Walk-prepared :
    {to : Phase} {seen : List Phase}
    → is_prepared to ≡ true
    → Walk unset to seen
    → Elem admitted seen × Elem preparing seen
Walk-prepared {to} {seen} p w = ground (arith, Walk-Entered w)

-- A resource can still succeed.
abbrev pub can_succeed : Phase → Bool
can_succeed failed = false
can_succeed cancelled = false
can_succeed collecting = false
can_succeed (other s) = false
can_succeed _ = true

can_succeed-step :
    (at to : Phase)
    → validate_transition at to ≡ none
    → can_succeed to ≡ true
    → can_succeed at ≡ true
unfolding validate_transition
can_succeed-step at to e h = ground (arith, phase_eq_iff at to)

can_succeed_of_Walk :
    {at to : Phase} {seen : List Phase}
    → Walk at to seen
    → can_succeed to ≡ true
    → can_succeed at ≡ true
can_succeed_of_Walk start h = h
can_succeed_of_Walk (step {at} {to} w e) h = can_succeed_of_Walk w (can_succeed-step at to e h)

Walk-succeeded : (at : Phase) → can_succeed at ≡ true → (seen : List Phase) × Walk at succeeded seen
unfolding validate_transition
Walk-succeeded unset h = (
  succeeded ∷ running ∷ preparing ∷ admitted ∷ pending ∷ [],
  step (step (step (step (step start refl) refl) refl) refl) refl,
)
Walk-succeeded pending h = (
  succeeded ∷ running ∷ preparing ∷ admitted ∷ [],
  step (step (step (step start refl) refl) refl) refl,
)
Walk-succeeded admitted h =
    (succeeded ∷ running ∷ preparing ∷ [], step (step (step start refl) refl) refl)
Walk-succeeded preparing h = (succeeded ∷ running ∷ [], step (step start refl) refl)
Walk-succeeded running h = (succeeded ∷ [], step start refl)
Walk-succeeded awaiting_approval h = (succeeded ∷ [], step start refl)
Walk-succeeded intervening h = (succeeded ∷ [], step start refl)
Walk-succeeded validating h = (succeeded ∷ [], step start refl)
Walk-succeeded succeeded h = ([], start)
Walk-succeeded retrying h =
    (succeeded ∷ running ∷ preparing ∷ [], step (step (step start refl) refl) refl)
Walk-succeeded interrupted h = (
  succeeded ∷ running ∷ preparing ∷ retrying ∷ [],
  step (step (step (step start refl) refl) refl) refl,
)
Walk-succeeded _ h = cc

-- Some sequence of accepted transitions leads from a phase to Succeeded exactly when the phase is
-- not Failed, Cancelled, Collecting or a text that no constant names.
pub succeeds_iff :
    (at : Phase) → ((seen : List Phase) × Walk at succeeded seen) ↔ (can_succeed at ≡ true)
succeeds_iff at = (λ w. can_succeed_of_Walk w.1 refl, Walk-succeeded at)
