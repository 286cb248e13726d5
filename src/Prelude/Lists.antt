-- ===== src/Prelude/Lists.antt =====
-- Lists measured and indexed by native numbers, and predicates over lists by recursion.
use Prim.Native.Nat.{ℕ, zero, suc}
use mathlib.Core.Path.{◌≡◌, refl}
use Prim.Native.String.{String}
use mathlib.Core.Logic.{◌⊎◌, ◌≢◌, inl, inr}
use mathlib.Core.Bool.{Bool, true, false, ◌||◌}
use mathlib.Core.Option.{Option, none, some}
use mathlib.Core.List.{List, [], ◌∷◌, ◌++◌}

module _ {ℓ} {A : Type ℓ} where
  abbrev pub length : List A → ℕ
  length [] = 0
  length (x ∷ xs) = suc (length xs)

  abbrev pub get_elem? : List A → ℕ → Option A
  get_elem? [] i = none
  get_elem? (x ∷ xs) zero = some x
  get_elem? (x ∷ xs) (suc i) = get_elem? xs i

  abbrev pub any : (A → Bool) → List A → Bool
  any p [] = false
  any p (x ∷ xs) = p x || any p xs

  abbrev pub filter : (A → Bool) → List A → List A
  filter p [] = []
  filter p (x ∷ xs) = elim (p x) [ true ↦ x ∷ filter p xs | false ↦ filter p xs ]

-- Every element satisfies `P`; some element satisfies `P`; `x` is an element.
module _ {ℓ κ} {A : Type ℓ} where
  abbrev pub All : (A → Type κ) → List A → Type κ
  All P [] = Unit
  All P (x ∷ xs) = P x × All P xs

  pub All-append : (P : A → Type κ) (xs ys : List A) → All P xs → All P ys → All P (xs ++ ys)
  All-append P [] ys h k = k
  All-append P (x ∷ xs) ys (p, h) k = (p, All-append P xs ys h k)

pub All-map {ℓ κ} :
    {A : Type ℓ} {P Q : A → Type κ} (f : (x : A) → P x → Q x) (xs : List A) → All P xs → All Q xs
All-map f [] h = tt
All-map f (x ∷ xs) (p, h) = (f x p, All-map f xs h)

abbrev pub Elem : {A : Type 0} → A → List A → Type 0
Elem a [] = ⊥
Elem a (x ∷ xs) = (a ≡ x) ⊎ Elem a xs

pub All-Elem {κ} : {A : Type 0} (P : A → Type κ) (xs : List A) {x : A} → All P xs → Elem x xs → P x
All-Elem P [] h m = absurd m
All-Elem P (x ∷ xs) (p, h) (inl e) = rw e p
All-Elem P (x ∷ xs) (p, h) (inr m) = All-Elem P xs h m

-- The two lists have equal lengths, and `R` relates the elements at every index.
abbrev pub Paired : {A B : Type 0} → (A → B → Type 0) → List A → List B → Type 0
Paired R [] [] = Unit
Paired R (x ∷ xs) (y ∷ ys) = R x y × Paired R xs ys
Paired R _ _ = ⊥

-- `f` gives the elements pairwise different values.
abbrev pub Distinct : {A : Type 0} → (A → String) → List A → Type 0
Distinct f [] = Unit
Distinct f (x ∷ xs) = All (λ y. f y ≢ f x) xs × Distinct f xs

module _ {A : Type 0} (p : A → Bool) (x : A) where
  Elem-filter_cons :
      (y : A) (xs : List A) (b : Bool)
      → p y ≡ b
      → (Elem x (filter p xs) → Elem x xs × (p x ≡ true))
      → Elem x (elim b [ true ↦ y ∷ filter p xs | false ↦ filter p xs ])
      → Elem x (y ∷ xs) × (p x ≡ true)
  Elem-filter_cons y xs true kept rest (inl same) = (inl same, rw same kept)
  Elem-filter_cons y xs true kept rest (inr later) = let (l, c) = rest later in (inr l, c)
  Elem-filter_cons y xs false dropped rest later = let (l, c) = rest later in (inr l, c)

  -- What a filter keeps is an element that passes its test.
  pub Elem-filter : (xs : List A) → Elem x (filter p xs) → Elem x xs × (p x ≡ true)
  Elem-filter [] m = absurd m
  Elem-filter (y ∷ xs) m = Elem-filter_cons y xs (p y) refl (Elem-filter xs) m
