-- ===== src/Text/Endings/Stored.antt =====
-- What the editor stores always passes detectLineEnding, and normalizes to what it was made from.
use sovereign_ai.Prelude.{
  ℕ, ◌≡◌, refl, false, Bool-cases, [], ◌∷◌, eqb, arith, inl, inr, ◌≢◌, ◌⊎◌, err,
}
use sovereign_ai.Text.{
  Bytes, cr, lf, crlf, replace_all, contains_byte, contains_text, normalize_line_endings,
  detect_line_ending, restore_line_endings, LineEnding, unix, windows, inconsistent,
}
use sovereign_ai.Text.Equality.{contains_byte_nil, contains_byte_ne, contains_byte-cons}
use sovereign_ai.Text.Endings.{
  replace_all-crlf_pair, replace_all-crlf_plain, replace_all_nil, normalize_pair, normalize_plain,
  normalize_nil,
}
use sovereign_ai.Text.Endings.Laws.{to_crlf-lf, to_crlf_plain, normalize_no_cr}

module _ (b : ℕ) (n : Bytes) (b-ne-cr : b ≢ cr) (b-ne-lf : b ≢ lf) where
  drop-to_crlf_plain :
      replace_all crlf [] (replace_all (lf ∷ []) crlf (b ∷ n))
      ≡ b ∷ replace_all crlf [] (replace_all (lf ∷ []) crlf n)
  drop-to_crlf_plain =
      rw
        (
          to_crlf_plain b n b-ne-lf,
          replace_all-crlf_plain [] (replace_all (lf ∷ []) crlf n) b b-ne-cr,
        )
        refl

drop-to_crlf-lf :
    (n : Bytes)
    → replace_all crlf [] (replace_all (lf ∷ []) crlf (lf ∷ n))
      ≡ replace_all crlf [] (replace_all (lf ∷ []) crlf n)
drop-to_crlf-lf n = rw (to_crlf-lf n, replace_all-crlf_pair [] (replace_all (lf ∷ []) crlf n)) refl

-- A text without CR whose LFs become CR LF holds no CR and no LF outside of these pairs.
drop-to_crlf_clean :
    (c : ℕ) (n : Bytes)
    → (c ≡ cr) ⊎ (c ≡ lf)
    → contains_byte cr n ≡ false
    → contains_byte c (replace_all crlf [] (replace_all (lf ∷ []) crlf n)) ≡ false
drop-to_crlf_clean c [] o h = rw (replace_all_nil, replace_all_nil) (contains_byte_nil c)
drop-to_crlf_clean c (b ∷ n) o h =
    let (b-ne-cr, h') = contains_byte-cons cr b n h in
    elim (Bool-cases (eqb b lf)) [
      | inl e ↦
          let e' : b ≡ lf = ground arith in rw (e', drop-to_crlf-lf n) (drop-to_crlf_clean c n o h')
      | inr f ↦
          let b-ne-lf : b ≢ lf = ground arith in
          rw (drop-to_crlf_plain b n b-ne-cr b-ne-lf)
            (contains_byte_ne c b _ (ground arith) (drop-to_crlf_clean c n o h'))
    ]

normalize-to_crlf :
    (n : Bytes)
    → contains_byte cr n ≡ false
    → normalize_line_endings (replace_all (lf ∷ []) crlf n) ≡ n
normalize-to_crlf [] h = rw replace_all_nil normalize_nil
normalize-to_crlf (b ∷ n) h =
    let (b-ne-cr, h') = contains_byte-cons cr b n h in
    elim (Bool-cases (eqb b lf)) [
      | inl e ↦
          let e' : b ≡ lf = ground arith in
          rw
            (
              e',
              to_crlf-lf n,
              normalize_pair (replace_all (lf ∷ []) crlf n),
              normalize-to_crlf n h',
            )
            refl
      | inr f ↦
          let b-ne-lf : b ≢ lf = ground arith in
          rw
            (
              to_crlf_plain b n b-ne-lf,
              normalize_plain (replace_all (lf ∷ []) crlf n) b b-ne-cr,
              normalize-to_crlf n h',
            )
            refl
    ]

normalize_fixed : (n : Bytes) → contains_byte cr n ≡ false → normalize_line_endings n ≡ n
normalize_fixed [] h = normalize_nil
normalize_fixed (b ∷ n) h =
    let (b-ne-cr, h') = contains_byte-cons cr b n h in
    rw (normalize_plain n b b-ne-cr, normalize_fixed n h') refl

drop-crlf_fixed : (n : Bytes) → contains_byte cr n ≡ false → replace_all crlf [] n ≡ n
drop-crlf_fixed [] h = replace_all_nil crlf []
drop-crlf_fixed (b ∷ n) h =
    let (b-ne-cr, h') = contains_byte-cons cr b n h in
    rw (replace_all-crlf_plain [] n b b-ne-cr, drop-crlf_fixed n h') refl

no_crlf : (n : Bytes) → contains_byte cr n ≡ false → contains_text crlf n ≡ false
unfolding contains_text contains_byte
no_crlf [] h = refl
no_crlf (b ∷ n) h = ground (arith, no_crlf n)

-- Whatever text Write is given, what it stores has consistent line endings, and normalizes to the
-- normalized text.
pub detect-restore :
    (ending : LineEnding) (content : Bytes)
    → (detect_line_ending (restore_line_endings ending (normalize_line_endings content))
        ≢ err inconsistent)
      × (normalize_line_endings (restore_line_endings ending (normalize_line_endings content))
          ≡ normalize_line_endings content)
unfolding detect_line_ending restore_line_endings
detect-restore unix content =
    let clean = normalize_no_cr content in
    (rw (drop-crlf_fixed _ clean, clean, no_crlf _ clean) (λ e. cc), normalize_fixed _ clean)
detect-restore windows content =
    let clean = normalize_no_cr content in
    let no_cr = drop-to_crlf_clean cr (normalize_line_endings content) (inl refl) clean in
    let no_lf = drop-to_crlf_clean lf (normalize_line_endings content) (inr refl) clean in
    (ground arith, normalize-to_crlf (normalize_line_endings content) clean)
