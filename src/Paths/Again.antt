-- ===== src/Paths/Again.antt =====
-- normalizePath of internal/workspaceeditor/editor.go, applied to a path that it returned.
use sovereign_ai.Prelude.{
  ◌≡◌, refl, false, List, [], ◌∷◌, ◌++◌, ap, sym, ◌∙◌, arith, ◌≢◌, All, if◌then◌else◌, ok, err,
  append_assoc, append-nil,
}
use mathlib.Core.List.{reverse, reverse-cons}
use sovereign_ai.Text.{Bytes, contains_byte, has_prefix}
use sovereign_ai.Text.Equality.{
  contains_byte-append, contains_byte-cons, bytes_eq_iff, contains_byte_ne, contains_byte_nil,
}
use sovereign_ai.Paths.{
  slash, dot, dot_dot, join, clean, clean_segments, clean_segment, or_dot, is_blank, normalize_path,
  not_relative,
}
use sovereign_ai.Paths.Segments.{IsFilled, split-join}
use sovereign_ai.Paths.Cleaning.{IsNamed, IsPlain}
use sovereign_ai.Paths.Normal.{IsSegment, normalize_path_segments, segment_texts, passed}

clean_segment_kept :
    (s : Bytes) (out : List Bytes) → IsPlain s → IsNamed s → clean_segment s out ≡ s ∷ out
unfolding clean_segment
clean_segment_kept s out plain (not_empty, not_dot) =
    let a = bytes_eq_iff s [] in
    let b = bytes_eq_iff s dot in let c = bytes_eq_iff s dot_dot in ground arith

clean_segments_kept :
    (l out : List Bytes) → All IsSegment l → clean_segments l out ≡ reverse out ++ l
unfolding clean_segments
clean_segments_kept [] out h = sym (append-nil (reverse out))
clean_segments_kept (s ∷ rest) out ((plain, named, _, _, _, _), hs) =
    rw
      (
        clean_segment_kept s out plain named,
        clean_segments_kept rest (s ∷ out) hs,
        reverse-cons s out,
      )
      (append_assoc (reverse out) (s ∷ []) rest)

or_dot_filled : (l : List Bytes) → IsFilled l → or_dot l ≡ join l
or_dot_filled [] h = absurd h
or_dot_filled (s ∷ rest) h = refl

clean-join : (l : List Bytes) → IsFilled l → All IsSegment l → clean (join l) ≡ join l
unfolding clean
clean-join l filled h =
    rw (split-join l filled (segment_texts l h), clean_segments_kept l [] h)
      (or_dot_filled l filled)

join_no_nul : (l : List Bytes) → All IsSegment l → contains_byte 0 (join l) ≡ false
unfolding join
join_no_nul [] h = contains_byte_nil 0
join_no_nul (s ∷ []) ((_, _, text, _, _, _), _) = text.1
join_no_nul (s ∷ t ∷ rest) ((_, _, text, _, _, _), hs) =
    contains_byte-append 0 s (slash ∷ join (t ∷ rest)) text.1
      (contains_byte_ne 0 slash (join (t ∷ rest)) (omega arith) (join_no_nul (t ∷ rest) hs))

starts_plain :
    (s rest : Bytes)
    → s ≢ []
    → contains_byte slash s ≡ false
    → has_prefix (slash ∷ []) (s ++ rest) ≡ false
unfolding has_prefix
starts_plain [] rest h k = absurd (h refl)
starts_plain (b ∷ s) rest h k = let (b-ne-slash, _) = contains_byte-cons slash b s k in ground arith

join_not_absolute :
    (l : List Bytes) → IsFilled l → All IsSegment l → has_prefix (slash ∷ []) (join l) ≡ false
unfolding join
join_not_absolute [] filled h = absurd filled
join_not_absolute (s ∷ []) filled ((_, named, text, _, _, _), _) =
    rw (← append-nil s) (starts_plain s [] named.0 text.0)
join_not_absolute (s ∷ t ∷ rest) filled ((_, named, text, _, _, _), _) =
    starts_plain s (slash ∷ join (t ∷ rest)) named.0 text.0

-- A path that normalizePath returned is returned again as it is, unless it is all white space,
-- which normalizePath does not accept of a caller ("./ " gives " ").
pub normalize_path_again :
    (path c : Bytes)
    → normalize_path path ≡ ok c
    → normalize_path c ≡ (if is_blank c then err not_relative else ok c)
unfolding normalize_path
normalize_path_again path c h =
    let (equal, _, not_dot, not_dots, not_prefix, free) = passed path c h in
    let (l, e, filled, segments) = normalize_path_segments path c h in
    let again : clean c ≡ c = ap clean e ∙ clean-join l filled segments ∙ sym e in
    let relative : has_prefix (slash ∷ []) c ≡ false = rw e (join_not_absolute l filled segments) in
    let no_nul : contains_byte 0 c ≡ false = rw e (join_no_nul l segments) in
    rw (relative, no_nul, again) (ground arith)
