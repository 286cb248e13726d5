-- ===== src/Steps/Producers.antt =====
-- Which step of a workflow produces an input of a later step.
use sovereign_ai.Prelude.{
  ok, >>=-ok, ℕ, zero, suc, ◌+◌, ◌<◌, ◌≡◌, refl, ◌≢◌, ◌⊎◌, ◌↔◌, inl, inr, Bool, true, false, List,
  [], ◌∷◌, Option, none, some, String, ◌==◌, eq_iff, arith, Bool-cases, Option-cases, get_elem?,
  any, ap,
}
use mathlib.Core.Option
use sovereign_ai.Api.{ContractReference, StepConfig}
use sovereign_ai.Steps.{
  step_index, scan_outputs, scan_steps, to_producer, upstream_producer, workflow_input_producer,
  Producer, bootstrap, no_producer, producer_step,
}

-- The step declares an output of that contract name.
abbrev pub produces : String → StepConfig → Bool
produces contract step = any (λ output. output.name == contract) step.outputs

-- No step below the bound, but possibly the one at `except`, produces the contract.
abbrev pub NoneBelow : String → ℕ → List StepConfig → Option ℕ → Type 0
NoneBelow contract bound steps except =
    (i : ℕ) (s : StepConfig)
    → i < bound
    → get_elem? steps i ≡ some s
    → some i ≢ except
    → produces contract s ≡ false

scan_outputs-some :
    (c n : String) (k : ℕ) (f : ℕ × String) (outputs : List ContractReference)
    (r : Option (ℕ × String))
    → scan_outputs c n k (some f) outputs ≡ ok r
    → (r ≡ some f) × (any (λ output. output.name == c) outputs ≡ false)
unfolding scan_outputs
scan_outputs-some c n k f [] r e = ground arith
scan_outputs-some c n k f (output ∷ outputs) r e =
    ground (arith, scan_outputs-some c n k f outputs r)

scan_outputs-none :
    (c n : String) (k : ℕ) (outputs : List ContractReference) (r : Option (ℕ × String))
    → scan_outputs c n k none outputs ≡ ok r
    → ((r ≡ none) × (any (λ output. output.name == c) outputs ≡ false))
      ⊎ ((r ≡ some (k, n)) × (any (λ output. output.name == c) outputs ≡ true))
unfolding scan_outputs
scan_outputs-none c n k [] r e = ground arith
scan_outputs-none c n k (output ∷ outputs) r e =
    ground (arith, scan_outputs-none c n k outputs r, scan_outputs-some c n k (k, n) outputs r)

NoneBelow-cons :
    (c : String) (bound : ℕ) (s : StepConfig) (steps : List StepConfig)
    → produces c s ≡ false
    → NoneBelow c bound steps none
    → NoneBelow c (suc bound) (s ∷ steps) none
NoneBelow-cons c bound s steps p h zero t lt e n = ground arith
NoneBelow-cons c bound s steps p h (suc i) t lt e n = h i t (omega arith) e (λ q. cc)

scan_steps-some :
    (c : String) (bound k : ℕ) (f : ℕ × String) (steps : List StepConfig) (r : Option (ℕ × String))
    → scan_steps c bound k (some f) steps ≡ ok r
    → (r ≡ some f) × NoneBelow c bound steps none
unfolding scan_steps
scan_steps-some c zero k f steps r e = (ground arith, λ i s lt g n. elim lt [ ])
scan_steps-some c (suc bound) k f [] r e = (ground arith, λ i s lt g n. cc)
scan_steps-some c (suc bound) k f (step ∷ steps) r e =
    let (found, scanned, rest) = >>=-ok _ _ e in
    let (kept, unproduced) = scan_outputs-some c step.name k f step.outputs found scanned in
    let (same, others) = scan_steps-some c bound (suc k) f steps r (rw kept at rest) in
    (same, NoneBelow-cons c bound step steps unproduced others)

-- What the scan found, as indices of the list that is left.
abbrev Found : String → ℕ → ℕ → List StepConfig → Option (ℕ × String) → Type 0
Found c bound k steps r =
    ((r ≡ none) × NoneBelow c bound steps none)
    ⊎ ((j : ℕ) × (s : StepConfig) × (r ≡ some (k + j, s.name))
        × (j < bound)
        × (get_elem? steps j ≡ some s)
        × (produces c s ≡ true)
        × NoneBelow c bound steps (some j))

Found-cons :
    (c : String) (bound k : ℕ) (step : StepConfig) (steps : List StepConfig)
    (r : Option (ℕ × String))
    → produces c step ≡ false
    → Found c bound (suc k) steps r
    → Found c (suc bound) k (step ∷ steps) r
Found-cons c bound k step steps r p (inl (unfound, others)) =
    inl (unfound, NoneBelow-cons c bound step steps p others)
Found-cons c bound k step steps r p (inr (j, s, found, lt, at_j, produced, others)) =
    inr (suc j, s, ground arith, omega arith, at_j, produced, λ i t l g n. rest i t l g n)
  where
    rest : NoneBelow c (suc bound) (step ∷ steps) (some (suc j))
    rest zero t l g n = ground arith
    rest (suc i) t l g n = others i t (omega arith) g (λ q. n (ap (Option.map suc) q))

NoneBelow-here :
    (c : String) (bound : ℕ) (step : StepConfig) (steps : List StepConfig)
    → NoneBelow c bound steps none
    → NoneBelow c (suc bound) (step ∷ steps) (some 0)
NoneBelow-here c bound step steps h zero t l g n = absurd (n refl)
NoneBelow-here c bound step steps h (suc i) t l g n = h i t (omega arith) g (λ q. cc)

scan_steps-none :
    (c : String) (bound k : ℕ) (steps : List StepConfig) (r : Option (ℕ × String))
    → scan_steps c bound k none steps ≡ ok r
    → Found c bound k steps r
unfolding scan_steps
scan_steps-none c zero k steps r e = inl (ground arith, λ i s lt g n. elim lt [ ])
scan_steps-none c (suc bound) k [] r e = inl (ground arith, λ i s lt g n. cc)
scan_steps-none c (suc bound) k (step ∷ steps) r e =
    let (found, scanned, rest) = >>=-ok _ _ e in
    elim (scan_outputs-none c step.name k step.outputs found scanned) [
      | inl (unfound, unproduced) ↦
          Found-cons c bound k step steps r unproduced
            (scan_steps-none c bound (suc k) steps r (rw unfound at rest))
      | inr (here, produced) ↦
          let (same, others) =
            scan_steps-some c bound (suc k) (k, step.name) steps r (rw here at rest) in
          inr (
            0,
            step,
            ground arith,
            omega arith,
            refl,
            produced,
            NoneBelow-here c bound step steps others,
          )
    ]

module _ (steps : List StepConfig) (consumer : StepConfig) (contract : String) where
  upstream_producer-Found :
      (r : Producer)
      → upstream_producer steps consumer contract ≡ ok r
      → (c : ℕ) × (found : Option (ℕ × String)) × (step_index steps consumer.name ≡ some c)
        × Found contract c 0 steps found
        × (to_producer found ≡ r)
  unfolding upstream_producer
  upstream_producer-Found r e = elim (Option-cases (step_index steps consumer.name)) [
    | inl missing ↦ cc (rw (missing, upstream_producer) at e)
    | inr (c, at_c) ↦
        let (found, scanned, same) = >>=-ok _ _ (rw (at_c, upstream_producer) at e) in
        (c, found, at_c, scan_steps-none contract c 0 steps found scanned, ground arith)
  ]

  upstream_producer-step :
      (p : ℕ)
      → upstream_producer steps consumer contract ≡ ok (producer_step p)
      → (c : ℕ) × (s : StepConfig) × (step_index steps consumer.name ≡ some c)
        × (p < c)
        × (get_elem? steps p ≡ some s)
        × (produces contract s ≡ true)
        × NoneBelow contract c steps (some p)
  unfolding to_producer
  upstream_producer-step p e =
      let (c, found, at_c, f, same) = upstream_producer-Found (producer_step p) e in
      elim f [
        | inl (unfound, others) ↦ ground arith
        | inr (j, s, eq, lt, at_j, produced, others) ↦
            let here : j ≡ p = ground arith in
            (c, s, at_c, rw here at lt, rw here at at_j, produced, rw here at others)
      ]

  upstream_producer-none :
      upstream_producer steps consumer contract ≡ ok no_producer
      → (c : ℕ) × (step_index steps consumer.name ≡ some c) × NoneBelow contract c steps none
  unfolding to_producer
  upstream_producer-none e =
      let (c, found, at_c, f, same) = upstream_producer-Found no_producer e in
      elim f [
        | inl (unfound, others) ↦ (c, at_c, others)
        | inr (j, s, eq, lt, at_j, produced, others) ↦ ground arith
      ]

  upstream_producer-ne-bootstrap : upstream_producer steps consumer contract ≢ ok bootstrap
  unfolding to_producer
  upstream_producer-ne-bootstrap e =
      let (c, found, at_c, f, same) = upstream_producer-Found bootstrap e in ground arith

not_same : (b : ContractReference) (c : String) → b.name ≡ c → (b.name == c) ≢ false
not_same b c e = ground (arith, eq_iff b.name c)

-- The producer of an input lies strictly before its consumer, declares an output of that contract
-- name, and is the only step before the consumer that does. With no producer, no step before the
-- consumer declares such an output. An input of the bootstrap contract's name comes from the
-- bootstrap, and no other does.
pub workflow_input_producer_sound :
    (bootstrap_contract : ContractReference) (steps : List StepConfig) (consumer : StepConfig)
    (contract : String)
    → ((p : ℕ)
        → workflow_input_producer bootstrap_contract steps consumer contract ≡ ok (producer_step p)
        → (c : ℕ) × (s : StepConfig) × (step_index steps consumer.name ≡ some c)
          × (p < c)
          × (get_elem? steps p ≡ some s)
          × (produces contract s ≡ true)
          × NoneBelow contract c steps (some p))
      × (workflow_input_producer bootstrap_contract steps consumer contract ≡ ok no_producer
          → (c : ℕ) × (step_index steps consumer.name ≡ some c) × NoneBelow contract c steps none)
      × ((workflow_input_producer bootstrap_contract steps consumer contract ≡ ok bootstrap)
          ↔ (bootstrap_contract.name ≡ contract))
unfolding workflow_input_producer
workflow_input_producer_sound b steps consumer contract = elim (Bool-cases (b.name == contract)) [
  | inl same ↦ (
    λ p e. ground arith,
    λ e. ground arith,
    (λ _. (eq_iff b.name contract).0 same, λ _. ground arith),
  )
  | inr other ↦ (
    λ p e. upstream_producer-step steps consumer contract p (ground arith),
    λ e. upstream_producer-none steps consumer contract (ground arith),
    (
      λ e. absurd (upstream_producer-ne-bootstrap steps consumer contract (ground arith)),
      λ e. absurd (not_same b contract e other),
    ),
  )
]
