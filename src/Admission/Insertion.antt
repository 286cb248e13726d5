-- ===== src/Admission/Insertion.antt =====
-- An insertion sort that meets the interface `Sort`.
use sovereign_ai.Prelude.{
  ◌≡◌, inl, inr, ◌⊎◌, true, false, List, [], ◌∷◌, arith, All, All-map, Elem, Bool-cases,
  if◌then◌else◌,
}
use sovereign_ai.Prelude.Int.{eqb_ℤ_iff}
use sovereign_ai.Admission.{InferenceLease, less, Ordered, Sort}

less_asymmetric : (a b : InferenceLease) → less a b ≡ true → less b a ≡ false
less_asymmetric a b h =
    ground (arith, eqb_ℤ_iff a.priority b.priority, eqb_ℤ_iff b.priority a.priority)

less_negatively_transitive :
    (a b c : InferenceLease) → less b a ≡ false → less c b ≡ false → less c a ≡ false
less_negatively_transitive a b c h k = ground (
  arith,
  eqb_ℤ_iff b.priority a.priority,
  eqb_ℤ_iff c.priority b.priority,
  eqb_ℤ_iff c.priority a.priority,
)

unfoldable pub insert : InferenceLease → List InferenceLease → List InferenceLease
insert x [] = x ∷ []
insert x (y ∷ ys) = let rest = insert x ys in if less y x then y ∷ rest else x ∷ y ∷ ys

unfoldable pub insertion_sort : List InferenceLease → List InferenceLease
insertion_sort [] = []
insertion_sort (x ∷ xs) = insert x (insertion_sort xs)

Elem-insert :
    (x z : InferenceLease) (ys : List InferenceLease) → Elem z (insert x ys) → (z ≡ x) ⊎ Elem z ys
unfolding insert
Elem-insert x z [] (inl e) = inl e
Elem-insert x z [] (inr m) = absurd m
Elem-insert x z (y ∷ ys) m = elim (Bool-cases (less y x)) [
  | inl before ↦ elim (rw (before, insert, Elem) at m) [
    | inl e ↦ inr (inl e)
    | inr later ↦ elim (Elem-insert x z ys later) [ inl e ↦ inl e | inr l ↦ inr (inr l) ]
  ]
  | inr behind ↦ rw (behind, insert, Elem) at m
]

insert-reaches :
    (x z : InferenceLease) (ys : List InferenceLease) → (z ≡ x) ⊎ Elem z ys → Elem z (insert x ys)
unfolding insert
insert-reaches x z [] (inl e) = inl e
insert-reaches x z [] (inr m) = absurd m
insert-reaches x z (y ∷ ys) m = elim (Bool-cases (less y x)) [
  | inr behind ↦ rw behind m
  | inl before ↦ rw before (elim m [
    | inl e ↦ inr (insert-reaches x z ys (inl e))
    | inr k ↦ elim k [ inl e ↦ inl e | inr l ↦ inr (insert-reaches x z ys (inr l)) ]
  ])
]

All-insert :
    (P : InferenceLease → Type 0) (x : InferenceLease) (ys : List InferenceLease)
    → P x
    → All P ys
    → All P (insert x ys)
unfolding insert
All-insert P x [] p h = (p, tt)
All-insert P x (y ∷ ys) p (q, h) = elim (Bool-cases (less y x)) [
  | inl before ↦ rw before (q, All-insert P x ys p h)
  | inr behind ↦ rw behind (p, (q, h))
]

Ordered-insert :
    (x : InferenceLease) (ys : List InferenceLease) → Ordered ys → Ordered (insert x ys)
unfolding insert
Ordered-insert x [] h = (tt, tt)
Ordered-insert x (y ∷ ys) (first, h) = elim (Bool-cases (less y x)) [
  | inl before ↦
      rw before (All-insert _ x ys (less_asymmetric y x before) first, Ordered-insert x ys h)
  | inr behind ↦
      rw behind
        ((behind, All-map (λ z k. less_negatively_transitive x y z behind k) ys first), (first, h))
]

pub insertion_sort-keeps :
    (xs : List InferenceLease) (z : InferenceLease) → Elem z (insertion_sort xs) → Elem z xs
unfolding insertion_sort
insertion_sort-keeps [] z m = m
insertion_sort-keeps (x ∷ xs) z m = elim (Elem-insert x z (insertion_sort xs) m) [
  | inl e ↦ inl e
  | inr l ↦ inr (insertion_sort-keeps xs z l)
]

pub insertion_sort-reaches :
    (xs : List InferenceLease) (z : InferenceLease) → Elem z xs → Elem z (insertion_sort xs)
unfolding insertion_sort
insertion_sort-reaches [] z m = m
insertion_sort-reaches (x ∷ xs) z (inl e) = insert-reaches x z (insertion_sort xs) (inl e)
insertion_sort-reaches (x ∷ xs) z (inr m) =
    insert-reaches x z (insertion_sort xs) (inr (insertion_sort-reaches xs z m))

pub insertion_sort-Ordered : (xs : List InferenceLease) → Ordered (insertion_sort xs)
unfolding insertion_sort
insertion_sort-Ordered [] = tt
insertion_sort-Ordered (x ∷ xs) = Ordered-insert x (insertion_sort xs) (insertion_sort-Ordered xs)

abbrev pub by_insertion : Sort
by_insertion = record {
  sort = insertion_sort;
  keeps = insertion_sort-keeps;
  reaches = insertion_sort-reaches;
  ordered = insertion_sort-Ordered;
}
