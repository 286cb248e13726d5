-- ===== src/Text/Equality.antt =====
-- The equality test on byte strings decides equality, and the search for a byte goes byte by byte.
use sovereign_ai.Prelude.{
  ◌≡◌, refl, ◌↔◌, true, false, Bool-cases, [], ◌∷◌, arith, inl, inr, ◌≢◌, ℕ, ◌++◌,
}
use sovereign_ai.Text.{Bytes, bytes_eq, contains_byte}

pub bytes_eq_sound : (s t : Bytes) → bytes_eq s t ≡ true → s ≡ t
unfolding bytes_eq
bytes_eq_sound [] [] h = refl
bytes_eq_sound [] (b ∷ t) h = cc
bytes_eq_sound (a ∷ s) [] h = cc
bytes_eq_sound (a ∷ s) (b ∷ t) h = ground (arith, bytes_eq_sound s t)

pub bytes_eq_refl : (s : Bytes) → bytes_eq s s ≡ true
unfolding bytes_eq
bytes_eq_refl [] = refl
bytes_eq_refl (a ∷ s) = ground (arith, bytes_eq_refl s)

pub bytes_eq_iff : (s t : Bytes) → (bytes_eq s t ≡ true) ↔ (s ≡ t)
bytes_eq_iff s t = (bytes_eq_sound s t, λ e. rw e (bytes_eq_refl t))

pub bytes_eq-ne : (s t : Bytes) → bytes_eq s t ≡ false → s ≢ t
bytes_eq-ne s t h e = let same = (bytes_eq_iff s t).1 e in cc

pub contains_byte-cons :
    (c b : ℕ) (s : Bytes) → contains_byte c (b ∷ s) ≡ false → (b ≢ c) × (contains_byte c s ≡ false)
unfolding contains_byte
contains_byte-cons c b s h = (ground arith, ground arith)

pub bytes_eq-false : (s t : Bytes) → s ≢ t → bytes_eq s t ≡ false
bytes_eq-false s t h = elim (Bool-cases (bytes_eq s t)) [
  | inl e ↦ absurd (h (bytes_eq_sound s t e))
  | inr f ↦ f
]

pub contains_byte_nil : (c : ℕ) → contains_byte c [] ≡ false
unfolding contains_byte
contains_byte_nil c = refl

pub contains_byte_ne :
    (c b : ℕ) (s : Bytes) → b ≢ c → contains_byte c s ≡ false → contains_byte c (b ∷ s) ≡ false
unfolding contains_byte
contains_byte_ne c b s h k = ground arith

pub contains_byte-append :
    (c : ℕ) (s t : Bytes)
    → contains_byte c s ≡ false
    → contains_byte c t ≡ false
    → contains_byte c (s ++ t) ≡ false
unfolding contains_byte
contains_byte-append c [] t h k = k
contains_byte-append c (b ∷ s) t h k = ground (arith, contains_byte-append c s t)
