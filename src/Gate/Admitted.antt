-- ===== src/Gate/Admitted.antt =====
-- What stands behind an approval that ResolveRequiredApproval of
-- internal/controllers/approval_binding.go resolves.
use sovereign_ai.Prelude.{
  ◌≡◌, refl, true, false, Bool-cases, List, [], ◌∷◌, Option, none, some, arith, inl, inr, ◌⊎◌, Elem,
  All, All-map, Result, ok, >>=-ok,
}
use sovereign_ai.Prelude.Int.{ℤ, pos, negsuc, eqb_ℤ, ltb_ℤ, eqb_ℤ_iff, ◌<ℤ◌}
use sovereign_ai.Api.{ApprovalRequirement}
use sovereign_ai.Gate.{Attempt}
use sovereign_ai.Gate.Authority.{
  AuthorityError, is_gate_attempt, later_gate, choose_gate, latest_gate,
}

-- An attempt that is not of the gate, is the chosen one, or is an earlier one.
abbrev pub IsNotLater : Attempt → ApprovalRequirement → Attempt → Attempt → Type 0
IsNotLater consumer required gate other =
    (is_gate_attempt consumer required other ≡ false)
    ⊎ (other ≡ gate)
    ⊎ (other.spec.retry_number <ℤ gate.spec.retry_number)

-- What the loop knows of the attempts before.
abbrev IsChosen : Attempt → ApprovalRequirement → List Attempt → Option Attempt → Type 0
IsChosen consumer required seen none =
    All (λ other. is_gate_attempt consumer required other ≡ false) seen
IsChosen consumer required seen (some gate) =
    Elem gate seen
    × (is_gate_attempt consumer required gate ≡ true)
    × All (IsNotLater consumer required gate) seen

less_of : (a b : ℤ) → eqb_ℤ a b ≡ false → ltb_ℤ b a ≡ false → a <ℤ b
less_of (pos a) (pos b) e l = ground arith
less_of (pos a) (negsuc b) e l = ground arith
less_of (negsuc a) (pos b) e l = ground arith
less_of (negsuc a) (negsuc b) e l = ground arith

-- The attempts that the loop has seen, the last one first.
abbrev reverse_onto : List Attempt → List Attempt → List Attempt
reverse_onto [] seen = seen
reverse_onto (item ∷ rest) seen = reverse_onto rest (item ∷ seen)

-- What holds of all that was seen holds of every attempt.
All-reverse_onto :
    (P : Attempt → Type 0) (rest seen : List Attempt)
    → All P (reverse_onto rest seen)
    → All P rest × All P seen
All-reverse_onto P [] seen h = (tt, h)
All-reverse_onto P (item ∷ rest) seen h =
    let (r, (p, s)) = All-reverse_onto P rest (item ∷ seen) h in ((p, r), s)

Elem-reverse_onto :
    (x : Attempt) (rest seen : List Attempt)
    → Elem x (reverse_onto rest seen)
    → Elem x rest ⊎ Elem x seen
Elem-reverse_onto x [] seen m = inr m
Elem-reverse_onto x (item ∷ rest) seen m = elim (Elem-reverse_onto x rest (item ∷ seen) m) [
  | inl r ↦ inl (inr r)
  | inr (inl e) ↦ inl (inl e)
  | inr (inr s) ↦ inr s
]

option_same :
    (a b : Option Attempt) → ◌≡◌ {A = Result AuthorityError (Option Attempt)} (ok a) (ok b) → a ≡ b
option_same a b h = cc

module _ (consumer : Attempt) (required : ApprovalRequirement) (item : Attempt)
    (seen : List Attempt) where
  -- An attempt of another gate changes nothing.
  passed_over :
      (gate : Option Attempt)
      → is_gate_attempt consumer required item ≡ false
      → IsChosen consumer required seen gate
      → IsChosen consumer required (item ∷ seen) gate
  passed_over none f h = (f, h)
  passed_over (some gate) f (m, t, rest) = (inr m, t, (inl f, rest))

  replaced :
      (gate other : Attempt)
      → ltb_ℤ gate.spec.retry_number item.spec.retry_number ≡ true
      → IsNotLater consumer required gate other
      → IsNotLater consumer required item other
  replaced gate other l (inl f) = inl f
  replaced gate other l (inr (inl e)) = inr (inr (rw e (ground arith)))
  replaced gate other l (inr (inr less)) = inr (inr (ground arith))

  taken_over :
      (gate next : Option Attempt)
      → is_gate_attempt consumer required item ≡ true
      → IsChosen consumer required seen gate
      → later_gate item gate ≡ ok next
      → IsChosen consumer required (item ∷ seen) next
  taken_over none next t h c =
      rw (← option_same (some item) next c)
        (inl refl, t, (inr (inl refl), All-map (λ other f. inl f) seen h))
  taken_over (some gate) next t (m, is, rest) c =
      let same = eqb_ℤ_iff item.spec.retry_number gate.spec.retry_number in
      elim (Bool-cases (eqb_ℤ item.spec.retry_number gate.spec.retry_number)) [
        | inl e ↦ absurd (ground arith)
        | inr differ ↦ elim (Bool-cases (ltb_ℤ gate.spec.retry_number item.spec.retry_number)) [
          | inl l ↦ rw (← option_same (some item) next (rw (differ, l) at c)) (
            inl refl,
            t,
            (inr (inl refl), All-map (λ other n. replaced gate other l n) seen rest),
          )
          | inr g ↦ rw (← option_same (some gate) next (rw (differ, g) at c)) (
            inr m,
            is,
            (inr (inr (less_of item.spec.retry_number gate.spec.retry_number differ g)), rest),
          )
        ]
      ]

  choose_gate-IsChosen :
      (gate next : Option Attempt)
      → IsChosen consumer required seen gate
      → choose_gate consumer required item gate ≡ ok next
      → IsChosen consumer required (item ∷ seen) next
  unfolding choose_gate
  choose_gate-IsChosen gate next h c = elim (Bool-cases (is_gate_attempt consumer required item)) [
    | inl t ↦ taken_over gate next t h (rw t at c)
    | inr f ↦ rw (← option_same gate next (rw f at c)) (passed_over gate f h)
  ]

-- The loop's result is the attempt of the gate with the greatest retry number.
latest_gate-IsChosen :
    (consumer : Attempt) (required : ApprovalRequirement) (rest seen : List Attempt)
    (gate last : Option Attempt)
    → IsChosen consumer required seen gate
    → latest_gate consumer required rest gate ≡ ok last
    → (all : List Attempt) × IsChosen consumer required all last × (all ≡ reverse_onto rest seen)
unfolding latest_gate
latest_gate-IsChosen consumer required [] seen gate last h c =
    (seen, rw (← option_same gate last c) h, refl)
latest_gate-IsChosen consumer required (item ∷ rest) seen gate last h c =
    let (next, e, k) = >>=-ok (choose_gate consumer required item gate) _ c in
    latest_gate-IsChosen consumer required rest (item ∷ seen) next last
      (choose_gate-IsChosen consumer required item seen gate next h e) k

-- The gate that the loop chooses is an attempt of the gate, and no other one is later.
pub chosen_gate :
    (consumer : Attempt) (required : ApprovalRequirement) (attempts : List Attempt) (gate : Attempt)
    → latest_gate consumer required attempts none ≡ ok (some gate)
    → Elem gate attempts
      × (is_gate_attempt consumer required gate ≡ true)
      × All (IsNotLater consumer required gate) attempts
chosen_gate consumer required attempts gate h =
    let (all, chosen, e) =
      latest_gate-IsChosen consumer required attempts [] none (some gate) tt h in
    let (m, is, later) = rw e at chosen in
    (
      elim (Elem-reverse_onto gate attempts [] m) [ inl r ↦ r | inr s ↦ absurd s ],
      is,
      (All-reverse_onto (IsNotLater consumer required gate) attempts [] later).0,
    )
