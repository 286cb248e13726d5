-- ===== src/Text/Endings/Laws.antt =====
-- normalizeLineEndings and detectLineEnding of internal/workspaceeditor/editor.go.
use sovereign_ai.Prelude.{ℕ, ◌≡◌, refl, Bool, true, false, [], ◌∷◌, eqb, ap, arith, ◌≢◌, ◌&&◌, ok}
use sovereign_ai.Text.{
  Bytes, cr, lf, crlf, replace_all, contains_byte, contains_text, has_prefix,
  normalize_line_endings, detect_line_ending, restore_line_endings, LineEnding, unix, windows,
}
use sovereign_ai.Text.Equality.{contains_byte-cons}
use sovereign_ai.Text.Endings.{
  Lines, done, pair, bare, plain, lines, replace_all-crlf_pair, replace_all-crlf_plain,
  replace_all-crlf_bare, normalize_pair, normalize_bare, normalize_plain, normalize_nil,
  replace_all_nil, replace_all_nil,
}

-- `value` with every CR LF, every other CR and every LF as one LF: a reading byte by byte, in which
-- the flag says that the byte before was a CR.
abbrev pub unix_from : Bool → Bytes → Bytes
unix_from after_cr [] = []
unix_from after_cr (b ∷ s) = elim (eqb b cr) [
  | true ↦ lf ∷ unix_from true s
  | false ↦ elim (after_cr && eqb b lf) [ true ↦ unix_from false s | false ↦ b ∷ unix_from false s ]
]

unix_from_bare : (s : Bytes) → has_prefix (lf ∷ []) s ≡ false → unix_from true s ≡ unix_from false s
unfolding has_prefix
unix_from_bare [] h = refl
unix_from_bare (b ∷ s) h = ground arith

-- normalizeLineEndings, two replacements one after the other, is the reading byte by byte.
normalize-Lines : (s : Bytes) → Lines s → normalize_line_endings s ≡ unix_from false s
normalize-Lines s (done e) = rw e (normalize_nil)
normalize-Lines s (pair {t = t} e l) = rw e (rw (normalize_pair t, normalize-Lines t l) refl)
normalize-Lines s (bare {t = t} e h l) =
    rw e (rw (normalize_bare t h, normalize-Lines t l, unix_from_bare t h) refl)
normalize-Lines s (plain {t = t} {b = b} e h l) =
    rw e (rw (normalize_plain t b h, normalize-Lines t l) (ground arith))

-- normalizeLineEndings turns every CR LF, every other CR and every LF of a text into one LF, and
-- leaves every other byte.
pub normalize_line_endings_lem : (s : Bytes) → normalize_line_endings s ≡ unix_from false s
normalize_line_endings_lem s = normalize-Lines s (lines s)

unix_no_cr : (b : Bool) (s : Bytes) → contains_byte cr (unix_from b s) ≡ false
unfolding contains_byte
unix_no_cr b [] = refl
unix_no_cr b (c ∷ s) = ground (arith, unix_no_cr true s, unix_no_cr false s)

pub normalize_no_cr : (s : Bytes) → contains_byte cr (normalize_line_endings s) ≡ false
normalize_no_cr s = rw (normalize_line_endings_lem s) (unix_no_cr false s)

pub to_crlf-lf :
    (t : Bytes) → replace_all (lf ∷ []) crlf (lf ∷ t) ≡ cr ∷ lf ∷ replace_all (lf ∷ []) crlf t
unfolding replace_all
to_crlf-lf t = refl

pub to_crlf_plain :
    (b : ℕ) (t : Bytes)
    → b ≢ lf
    → replace_all (lf ∷ []) crlf (b ∷ t) ≡ b ∷ replace_all (lf ∷ []) crlf t
unfolding replace_all
to_crlf_plain b t h = ground arith

-- Without a bare CR or LF, the CR LF of a text come back.
windows_restored :
    (s : Bytes)
    → Lines s
    → contains_byte cr (replace_all crlf [] s) ≡ false
    → contains_byte lf (replace_all crlf [] s) ≡ false
    → replace_all (lf ∷ []) crlf (normalize_line_endings s) ≡ s
windows_restored s (done e) h k = rw e (rw normalize_nil (replace_all_nil (lf ∷ []) crlf))
windows_restored s (pair {t = t} e l) h k = rw e (
    rw (normalize_pair t, to_crlf-lf (normalize_line_endings t))
      (ap (λ u. cr ∷ lf ∷ u)
        (windows_restored t l (rw (e, replace_all-crlf_pair [] t) at h)
          (rw (e, replace_all-crlf_pair [] t) at k))))
windows_restored s (bare {t = t} e p l) h k = absurd (
    (contains_byte-cons cr cr (replace_all crlf [] t) (rw (e, replace_all-crlf_bare [] t p) at h)).0
      refl)
windows_restored s (plain {t = t} {b = b} e p l) h k =
    let (b-ne-cr, h') =
      contains_byte-cons cr b (replace_all crlf [] t)
        (rw (e, replace_all-crlf_plain [] t b p) at h) in
    let (b-ne-lf, k') =
      contains_byte-cons lf b (replace_all crlf [] t)
        (rw (e, replace_all-crlf_plain [] t b p) at k) in
    rw e (
      rw (normalize_plain t b p, to_crlf_plain b (normalize_line_endings t) b-ne-lf)
        (ap (λ u. b ∷ u) (windows_restored t l h' k')))

contains-crlf_pair : (t : Bytes) → contains_text crlf (cr ∷ lf ∷ t) ≡ true
unfolding contains_text
contains-crlf_pair t = refl

contains_cons :
    (b : ℕ) (t : Bytes) → contains_text crlf (b ∷ t) ≡ false → contains_text crlf t ≡ false
unfolding contains_text
contains_cons b t h = ground arith

unix_restored :
    (s : Bytes)
    → Lines s
    → contains_byte cr (replace_all crlf [] s) ≡ false
    → contains_text crlf s ≡ false
    → normalize_line_endings s ≡ s
unix_restored s (done e) h k = rw e normalize_nil
unix_restored s (pair {t = t} e l) h k = cc (contains-crlf_pair t)
unix_restored s (bare {t = t} e p l) h k = absurd (
    (contains_byte-cons cr cr (replace_all crlf [] t) (rw (e, replace_all-crlf_bare [] t p) at h)).0
      refl)
unix_restored s (plain {t = t} {b = b} e p l) h k =
    let (b-ne-cr, h') =
      contains_byte-cons cr b (replace_all crlf [] t)
        (rw (e, replace_all-crlf_plain [] t b p) at h) in
    rw e (
      rw (normalize_plain t b p)
        (ap (λ u. b ∷ u) (unix_restored t l h' (contains_cons b t (rw e at k)))))

-- A text whose line endings detectLineEnding accepts comes back, byte for byte, when it is
-- normalized and the line endings that were detected are restored.
pub restore-normalize :
    (s : Bytes) (ending : LineEnding)
    → detect_line_ending s ≡ ok ending
    → restore_line_endings ending (normalize_line_endings s) ≡ s
unfolding detect_line_ending restore_line_endings
restore-normalize s unix h = unix_restored s (lines s) (ground arith) (ground arith)
restore-normalize s windows h = windows_restored s (lines s) (ground arith) (ground arith)
