-- ===== src/Paths/Normal.antt =====
-- What normalizePath of internal/workspaceeditor/editor.go accepts.
use sovereign_ai.Prelude.{
  ◌≡◌, refl, true, false, List, [], ◌∷◌, ap, sym, ◌∙◌, arith, inl, inr, ◌≢◌, ◌⊎◌, All, All-map, any,
  ok,
}
use mathlib.Core.List.{reverse}
use sovereign_ai.Text.{Bytes, bytes_eq, contains_byte, has_prefix}
use sovereign_ai.Text.Equality.{bytes_eq-ne}
use sovereign_ai.Paths.{
  slash, dot, dot_dot, git, sovereign, attempts, split, join, clean, or_dot, is_reserved,
  normalize_path,
}
use sovereign_ai.Paths.Segments.{Lacks, IsFilled, split-Lacks, split-Lacks-slash, split-join}
use sovereign_ai.Paths.Cleaning.{
  IsNamed, IsPlain, IsStacked, clean_segments-IsStacked, stacked-IsPlain, All-reverse,
}

-- No "/" and no NUL.
abbrev IsText : Bytes → Type 0
IsText s = Lacks slash s × Lacks 0 s

-- A segment of a path below the repository's root that the editor may touch.
abbrev pub IsSegment : Bytes → Type 0
IsSegment s = IsPlain s × IsNamed s × IsText s × (s ≢ git) × (s ≢ sovereign) × (s ≢ attempts)

all_texts : (l : List Bytes) → All (Lacks slash) l → All (Lacks 0) l → All IsText l
all_texts [] h k = tt
all_texts (s ∷ rest) (h, hs) (k, ks) = ((h, k), all_texts rest hs ks)

-- The tests of normalizePath on the cleaned path, of which the segments are known.
or_dot_escapes :
    (rest : List Bytes)
    → (bytes_eq (or_dot (dot_dot ∷ rest)) dot_dot ≡ true)
      ⊎ (has_prefix (b'.' ∷ b'.' ∷ slash ∷ []) (or_dot (dot_dot ∷ rest)) ≡ true)
unfolding join bytes_eq has_prefix
or_dot_escapes [] = inl refl
or_dot_escapes (s ∷ rest) = inr refl

or_dot-join : (l : List Bytes) → bytes_eq (or_dot l) dot ≡ false → IsFilled l × (or_dot l ≡ join l)
unfolding bytes_eq
or_dot-join [] h = cc
or_dot-join (s ∷ rest) h = (tt, refl)

not_reserved :
    (l : List Bytes)
    → All (λ s. IsPlain s × IsNamed s × IsText s) l
    → any is_reserved l ≡ false
    → All IsSegment l
unfolding is_reserved
not_reserved [] h k = tt
not_reserved (s ∷ rest) ((plain, named, text), hs) k = (
  (
    plain,
    named,
    text,
    bytes_eq-ne s git (ground arith),
    bytes_eq-ne s sovereign (ground arith),
    bytes_eq-ne s attempts (ground arith),
  ),
  not_reserved rest hs (ground arith),
)

pub segment_texts : (l : List Bytes) → All IsSegment l → All (Lacks slash) l
segment_texts l h = All-map (λ s p. let (plain, named, text, _, _, _) = p in text.0) l h

module _ (path c : Bytes) (accepted : normalize_path path ≡ ok c) where
  pub passed :
      (clean path ≡ c)
      × (contains_byte 0 path ≡ false)
      × (bytes_eq (clean path) dot ≡ false)
      × (bytes_eq (clean path) dot_dot ≡ false)
      × (has_prefix (b'.' ∷ b'.' ∷ slash ∷ []) (clean path) ≡ false)
      × (any is_reserved (split (clean path)) ≡ false)
  unfolding normalize_path
  passed = (ground arith, ground arith, ground arith, ground arith, ground arith, ground arith)

  stacked : (final : List Bytes) × (clean path ≡ or_dot (reverse final)) × IsStacked IsText final
  unfolding clean contains_byte
  stacked =
      let (equal, no_nul, _, _, _, _) = passed in
      let (final, e, h) =
        clean_segments-IsStacked IsText (refl, refl) (split path) []
          (all_texts (split path) (split-Lacks-slash path) (split-Lacks 0 path no_nul)) tt in
      (final, ap or_dot e, h)

  segments-IsPlain :
      (l : List Bytes) × (clean path ≡ or_dot l) × All (λ s. IsPlain s × IsNamed s × IsText s) l
  segments-IsPlain =
      let (_, _, _, not_dots, not_prefix, _) = passed in
      let (final, e, h) = stacked in
      elim (stacked-IsPlain IsText final h) [
        | inl plain ↦ (reverse final, e, All-reverse _ final plain)
        | inr (rest, first) ↦
            let e' : clean path ≡ or_dot (dot_dot ∷ rest) = e ∙ ap or_dot first in
            elim (or_dot_escapes rest) [ inl d ↦ cc | inr d ↦ cc ]
      ]

  -- The path that normalizePath returns joins segments that name no directory above, none of the
  -- reserved directories and no current directory, and hold neither "/" nor NUL.
  pub normalize_path_segments : (l : List Bytes) × (c ≡ join l) × IsFilled l × All IsSegment l
  normalize_path_segments =
      let (equal, _, not_dot, _, _, free) = passed in
      let (l, e, h) = segments-IsPlain in
      let (filled, e') = or_dot-join l (rw e at not_dot) in
      let texts = All-map (λ s p. p.2.0) l h in
      let c-join : c ≡ join l = sym equal ∙ e ∙ e' in
      let same : split (clean path) ≡ l = ap split (e ∙ e') ∙ split-join l filled texts in
      (l, c-join, filled, not_reserved l h (rw same at free))

-- The path that normalizePath returns is "/" between segments of which none is empty, ".", "..",
-- ".git", ".sovereign" or "attempts", or holds a NUL: it stays below the root it is joined to.
pub normalize_path_safe :
    (path c : Bytes)
    → normalize_path path ≡ ok c
    → IsFilled (split c) × All IsSegment (split c) × (join (split c) ≡ c)
normalize_path_safe path c h =
    let (l, e, filled, segments) = normalize_path_segments path c h in
    rw (e, split-join l filled (segment_texts l segments)) (filled, segments, refl)
