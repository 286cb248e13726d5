-- ===== src/Paths/Segments.antt =====
-- strings.Split and strings.Join of a path at "/".
use sovereign_ai.Prelude.{
  ℕ, ◌≡◌, refl, false, Bool-cases, List, [], ◌∷◌, ◌++◌, eqb, ap, sym, ◌∙◌, arith, inl, inr, ◌≢◌,
  All,
}
use sovereign_ai.Text.{Bytes, contains_byte}
use sovereign_ai.Text.Equality.{contains_byte_nil, contains_byte_ne, contains_byte-cons}
use sovereign_ai.Paths.{split, join, slash, onto_first}

-- A byte does not occur in a string.
abbrev pub Lacks : ℕ → Bytes → Type 0
Lacks c s = contains_byte c s ≡ false

-- A list with an element.
abbrev pub IsFilled : List Bytes → Type 0
IsFilled [] = ⊥
IsFilled (s ∷ rest) = Unit

onto_first-IsFilled : (b : ℕ) (l : List Bytes) → IsFilled (onto_first b l)
onto_first-IsFilled b [] = tt
onto_first-IsFilled b (s ∷ rest) = tt

split-IsFilled : (p : Bytes) → IsFilled (split p)
unfolding split
split-IsFilled [] = tt
split-IsFilled (b ∷ p) = elim (Bool-cases (eqb b slash)) [
  | inl e ↦ rw e tt
  | inr f ↦ rw f (onto_first-IsFilled b (split p))
]

onto_first-Lacks :
    (c b : ℕ) (l : List Bytes) → b ≢ c → All (Lacks c) l → All (Lacks c) (onto_first b l)
onto_first-Lacks c b [] h k = (contains_byte_ne c b [] h (contains_byte_nil c), tt)
onto_first-Lacks c b (s ∷ rest) h (k, ks) = (contains_byte_ne c b s h k, ks)

-- A byte that does not occur in the path, and "/", occur in no segment.
pub split-Lacks-slash : (p : Bytes) → All (Lacks slash) (split p)
unfolding split
split-Lacks-slash [] = (contains_byte_nil slash, tt)
split-Lacks-slash (b ∷ p) = elim (Bool-cases (eqb b slash)) [
  | inl e ↦ rw e (contains_byte_nil slash, split-Lacks-slash p)
  | inr f ↦ rw f (onto_first-Lacks slash b (split p) (ground arith) (split-Lacks-slash p))
]

pub split-Lacks : (c : ℕ) (p : Bytes) → Lacks c p → All (Lacks c) (split p)
unfolding split
split-Lacks c [] h = (contains_byte_nil c, tt)
split-Lacks c (b ∷ p) h =
    let (ne, h') = contains_byte-cons c b p h in
    elim (Bool-cases (eqb b slash)) [
      | inl e ↦ rw e (contains_byte_nil c, split-Lacks c p h')
      | inr f ↦ rw f (onto_first-Lacks c b (split p) ne (split-Lacks c p h'))
    ]

split_one : (s : Bytes) → Lacks slash s → split s ≡ s ∷ []
unfolding split
split_one [] h = refl
split_one (b ∷ s) h =
    let (ne, h') = contains_byte-cons slash b s h in ground (arith, split_one s h')

split-append : (s rest : Bytes) → Lacks slash s → split (s ++ slash ∷ rest) ≡ s ∷ split rest
unfolding split
split-append [] rest h = refl
split-append (b ∷ s) rest h =
    let (ne, h') = contains_byte-cons slash b s h in ground (arith, split-append s rest h')

-- Splitting what was joined gives the segments back, and joining what was split the path.
pub split-join : (l : List Bytes) → IsFilled l → All (Lacks slash) l → split (join l) ≡ l
unfolding join
split-join [] h k = absurd h
split-join (s ∷ []) h (k, ks) = split_one s k
split-join (s ∷ t ∷ rest) h (k, ks) =
    split-append s (join (t ∷ rest)) k ∙ ap (λ l. s ∷ l) (split-join (t ∷ rest) tt ks)

join-onto_first : (b : ℕ) (l : List Bytes) → join (onto_first b l) ≡ b ∷ join l
unfolding join
join-onto_first b [] = refl
join-onto_first b (s ∷ []) = refl
join-onto_first b (s ∷ t ∷ rest) = refl

join_empty : (l : List Bytes) → IsFilled l → join ([] ∷ l) ≡ slash ∷ join l
unfolding join
join_empty [] h = absurd h
join_empty (s ∷ rest) h = refl

join_one : (s : Bytes) → join (s ∷ []) ≡ s
unfolding join
join_one s = refl

pub join-split : (p : Bytes) → join (split p) ≡ p
unfolding split
join-split [] = join_one []
join-split (b ∷ p) = elim (Bool-cases (eqb b slash)) [
  | inl e ↦
      let e' : b ≡ slash = ground arith in
      rw e (rw (join_empty (split p) (split-IsFilled p), join-split p) (ap (λ c. c ∷ p) (sym e')))
  | inr f ↦ rw f (join-onto_first b (split p) ∙ ap (λ s. b ∷ s) (join-split p))
]
