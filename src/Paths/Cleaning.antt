-- ===== src/Paths/Cleaning.antt =====
-- filepath.Clean of a relative path: the invariant of its output.
use sovereign_ai.Prelude.{
  ◌≡◌, refl, Bool-cases, List, [], ◌∷◌, ◌++◌, ap, ◌∙◌, inl, inr, ◌≢◌, ◌⊎◌, All, All-append, All-map,
}
use mathlib.Core.List.{reverse, reverse-cons}
use sovereign_ai.Text.{Bytes, bytes_eq}
use sovereign_ai.Text.Equality.{bytes_eq_iff, bytes_eq-ne}
use sovereign_ai.Paths.{dot, dot_dot, pop_segment, clean_segment, clean_segments}

abbrev pub IsNamed : Bytes → Type 0
IsNamed s = (s ≢ []) × (s ≢ dot)

abbrev IsDots : List Bytes → Type 0
IsDots out = All (λ s. s ≡ dot_dot) out

-- The output, last segment first: the segments ".." stand at the bottom.
abbrev pub IsStacked : (Bytes → Type 0) → List Bytes → Type 0
IsStacked P [] = Unit
IsStacked P (s ∷ out) = P s × IsNamed s × (s ≡ dot_dot → IsDots out) × IsStacked P out

module _ (P : Bytes → Type 0) (P-dots : P dot_dot) where
  pop_segment-IsStacked : (out : List Bytes) → IsStacked P out → IsStacked P (pop_segment out)
  unfolding pop_segment
  pop_segment-IsStacked [] h = (P-dots, ((λ e. cc), (λ e. cc)), (λ e. tt), tt)
  pop_segment-IsStacked (top ∷ rest) h = elim (Bool-cases (bytes_eq top dot_dot)) [
    | inl e ↦
        let top-dots = (bytes_eq_iff top dot_dot).0 e in
        let (p, named, below, stacked) = h in
        rw e (P-dots, ((λ e. cc), (λ e. cc)), (λ e. (top-dots, below top-dots)), h)
    | inr f ↦ let (p, named, below, stacked) = h in rw f stacked
  ]

  clean_segment-IsStacked :
      (s : Bytes) (out : List Bytes) → P s → IsStacked P out → IsStacked P (clean_segment s out)
  unfolding clean_segment
  clean_segment-IsStacked s out p h = elim (Bool-cases (bytes_eq s [])) [
    | inl e ↦ rw e h
    | inr not_empty ↦ elim (Bool-cases (bytes_eq s dot)) [
      | inl e ↦ rw (not_empty, e) h
      | inr not_dot ↦ elim (Bool-cases (bytes_eq s dot_dot)) [
        | inl e ↦ rw (not_empty, not_dot, e) (pop_segment-IsStacked out h)
        | inr not_dots ↦
            rw (not_empty, not_dot, not_dots)
              (
                p,
                (bytes_eq-ne s [] not_empty, bytes_eq-ne s dot not_dot),
                (λ e. absurd (bytes_eq-ne s dot_dot not_dots e)),
                h,
              )
      ]
    ]
  ]

  pub clean_segments-IsStacked :
      (segments out : List Bytes)
      → All P segments
      → IsStacked P out
      → (final : List Bytes) × (clean_segments segments out ≡ reverse final) × IsStacked P final
  unfolding clean_segments
  clean_segments-IsStacked [] out p h = (out, refl, h)
  clean_segments-IsStacked (s ∷ rest) out (p, ps) h =
      clean_segments-IsStacked rest (clean_segment s out) ps (clean_segment-IsStacked s out p h)

pub All-reverse : (P : Bytes → Type 0) (l : List Bytes) → All P l → All P (reverse l)
All-reverse P [] h = tt
All-reverse P (s ∷ rest) (h, k) =
    rw (reverse-cons s rest) (All-append P (reverse rest) (s ∷ []) (All-reverse P rest k) (h, tt))

abbrev pub IsPlain : Bytes → Type 0
IsPlain s = s ≢ dot_dot

dots_or_empty : (out : List Bytes) → IsDots out → All IsPlain out → out ≡ []
dots_or_empty [] h k = refl
dots_or_empty (s ∷ out) (h, hs) (k, ks) = absurd (k h)

-- Either no segment is "..", or the first one is.
pub stacked-IsPlain :
    (P : Bytes → Type 0) (out : List Bytes)
    → IsStacked P out
    → All (λ s. IsPlain s × IsNamed s × P s) out
      ⊎ ((rest : List Bytes) × (reverse out ≡ dot_dot ∷ rest))
stacked-IsPlain P [] h = inl tt
stacked-IsPlain P (s ∷ out) (p, named, below, stacked) = elim (stacked-IsPlain P out stacked) [
  | inl plain ↦ elim (Bool-cases (bytes_eq s dot_dot)) [
    | inl e ↦
        let top_dots = (bytes_eq_iff s dot_dot).0 e in
        let empty = dots_or_empty out (below top_dots) (All-map (λ t h. h.0) out plain) in
        inr ([], rw (empty, top_dots) refl)
    | inr f ↦ inl ((bytes_eq-ne s dot_dot f, named, p), plain)
  ]
  | inr (rest, e) ↦ inr (rest ++ s ∷ [], reverse-cons s out ∙ ap (λ l. l ++ s ∷ []) e)
]
