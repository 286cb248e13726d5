-- ===== src/Text/Endings.antt =====
-- How the line endings of internal/workspaceeditor/editor.go rewrite a text, pair by pair.
use sovereign_ai.Prelude.{
  ℕ, ◌≡◌, refl, true, false, Bool-cases, List, [], ◌∷◌, ◌++◌, eqb, arith, ◌≢◌, inl, inr, ◌==◌,
}
use sovereign_ai.Text.{Bytes, cr, lf, crlf, replace_all, has_prefix, normalize_line_endings}
pub mod Laws
pub mod Stored

-- A text read from the left: pairs CR LF, a CR that no LF follows, and other bytes.
pub data Lines : Bytes → Type 0 where
  done : {s : Bytes} → s ≡ [] → Lines s
  pair : {s t : Bytes} → s ≡ cr ∷ lf ∷ t → Lines t → Lines s
  bare : {s t : Bytes} → s ≡ cr ∷ t → has_prefix (lf ∷ []) t ≡ false → Lines t → Lines s
  plain : {s t : Bytes} {b : ℕ} → s ≡ b ∷ t → b ≢ cr → Lines t → Lines s

pub lines : (s : Bytes) → Lines s
unfolding has_prefix
lines [] = done refl
lines (a ∷ []) = elim (Bool-cases (eqb a cr)) [
  | inl e ↦ bare (ground arith) refl (done refl)
  | inr f ↦ plain refl (ground arith) (done refl)
]
lines (a ∷ b ∷ s) = elim (Bool-cases (eqb a cr)) [
  | inl e ↦ elim (Bool-cases (eqb b lf)) [
    | inl e' ↦ pair (ground arith) (lines s)
    | inr f' ↦ bare (ground arith) (ground arith) (lines (b ∷ s))
  ]
  | inr f ↦ plain refl (ground arith) (lines (b ∷ s))
]

module _ (new t : Bytes) where
  pub replace_all-crlf_pair : replace_all crlf new (cr ∷ lf ∷ t) ≡ new ++ replace_all crlf new t
  unfolding replace_all
  replace_all-crlf_pair = refl

  pub replace_all-crlf_plain :
      (b : ℕ) → b ≢ cr → replace_all crlf new (b ∷ t) ≡ b ∷ replace_all crlf new t
  unfolding replace_all
  replace_all-crlf_plain b h = ground arith

pub replace_all-crlf_bare :
    (new t : Bytes)
    → has_prefix (lf ∷ []) t ≡ false
    → replace_all crlf new (cr ∷ t) ≡ cr ∷ replace_all crlf new t
unfolding replace_all
replace_all-crlf_bare new [] h = refl
replace_all-crlf_bare new (b ∷ t) h = ground arith

pub replace_all_nil : (old new : Bytes) → replace_all old new [] ≡ []
unfolding replace_all
replace_all_nil old new = refl

pub normalize_nil : normalize_line_endings [] ≡ []
unfolding normalize_line_endings
normalize_nil = refl

-- What normalizeLineEndings does to each kind of head.
module _ (t : Bytes) where
  pub normalize_pair : normalize_line_endings (cr ∷ lf ∷ t) ≡ lf ∷ normalize_line_endings t
  unfolding normalize_line_endings
  normalize_pair = refl

  pub normalize_bare :
      has_prefix (lf ∷ []) t ≡ false
      → normalize_line_endings (cr ∷ t) ≡ lf ∷ normalize_line_endings t
  unfolding normalize_line_endings
  normalize_bare h = rw (replace_all-crlf_bare (lf ∷ []) t h) refl

  pub normalize_plain :
      (b : ℕ) → b ≢ cr → normalize_line_endings (b ∷ t) ≡ b ∷ normalize_line_endings t
  unfolding normalize_line_endings
  normalize_plain b h = rw (replace_all-crlf_plain (lf ∷ []) t b h) (ground arith)
