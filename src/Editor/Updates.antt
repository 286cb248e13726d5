-- ===== src/Editor/Updates.antt =====
-- Write of internal/workspaceeditor/editor.go changes the view at one path, under the digest that the
-- caller read there.
use sovereign_ai.Prelude.{
  ◌≡◌, refl, false, Bool-cases, List, [], some, ap, sym, ◌∙◌, arith, inl, inr, ◌⊎◌, Result, ok, err,
  >>=-ok, map_err-ok,
}
use sovereign_ai.Prelude.Int.{ℤ, pos}
use sovereign_ai.Text.{Bytes, bytes_eq, LineEnding, unix, detect_line_ending}
use sovereign_ai.Text.Equality.{bytes_eq_iff}
use sovereign_ai.Paths.{normalize_path, is_blank, not_relative}
use sovereign_ai.Paths.Again.{normalize_path_again}
use sovereign_ai.Editor.{
  Editor, Overlay, File, EditError, not_exist, bad_path, bad_ending, remove, deleted, read,
  read_relative, limit, new_file, absent_digest, tombstone_name, from_overlay, Node,
}
use sovereign_ai.Editor.Table.{lookup-remove_self, lookup-remove_ne}
use sovereign_ai.Editor.Tree.{overlay_stat-written, overlay_stat-apart}
use sovereign_ai.Editor.View.{
  view, digest_of, Apart, IsInjective, read_relative-view, read_relative-missing,
}
use sovereign_ai.Editor.Writing.{
  line_ending_for_write, ending_for, validate_content, check_base_path, atomic_write, store_text,
}

pair_parts :
    {A B : Type 0} (a c : A) (b d : B)
    → ◌≡◌ {A = Result EditError (A × B)} (ok (a, b)) (ok (c, d))
    → (a ≡ c) × (b ≡ d)
pair_parts {A} {B} a c b d h = (cc, cc)

-- The end of a Write that succeeded.
pub record Stored (e : Editor) (o : Overlay) (relative text : Bytes) (o' : Overlay) (f : File)
    : Type 0 where
  pub valid : validate_content e text ≡ ok tt
  pub checked : check_base_path e relative ≡ ok tt
  pub written : atomic_write relative text o.files ≡ ok o'.files
  pub unmarked : o'.markers ≡ remove (tombstone_name e relative) o.markers
  pub result : f ≡ new_file e relative text from_overlay

module _ (e : Editor) (o : Overlay) (relative text : Bytes) (o' : Overlay) (f : File) where
  Stored-files :
      (files : List (Bytes × Node))
      → atomic_write relative text o.files ≡ ok files
      → ◌≡◌ {A = Result EditError (Overlay × File)}
          (ok (
            record { files = files; markers = remove (tombstone_name e relative) o.markers },
            new_file e relative text from_overlay,
          ))
          (ok (o', f))
      → validate_content e text ≡ ok tt
      → check_base_path e relative ≡ ok tt
      → Stored e o relative text o' f
  Stored-files files w h v c =
      let (same_state, same_file) = pair_parts _ o' _ f h in
      record {
        valid = v;
        checked = c;
        written = w ∙ ap (λ (s : Overlay). ok s.files) same_state;
        unmarked = ap (λ (s : Overlay). s.markers) (sym same_state);
        result = sym same_file;
      }

  pub store-Stored : store_text e o relative text ≡ ok (o', f) → Stored e o relative text o' f
  unfolding store_text
  store-Stored h =
      let (tt, v, h) = >>=-ok (validate_content e text) _ h in
      let (tt, c, h) = >>=-ok (check_base_path e relative) _ h in
      let (files, w, h) = >>=-ok (atomic_write relative text o.files) _ h in
      Stored-files files w h v c

-- What a write may replace: the text that the expected digest names, or nothing where the caller
-- expects nothing.
ending_for-ok :
    (expected : Bytes) (found : Result EditError File) (ending : LineEnding)
    → ending_for expected found ≡ ok ending
    → ((f : File) × (found ≡ ok f)
        × (f.digest ≡ expected)
        × (detect_line_ending f.content ≡ ok ending))
      ⊎ ((found ≡ err not_exist) × (absent_digest ≡ expected) × (ending ≡ unix))
unfolding ending_for
ending_for-ok expected (err not_exist) ending h =
    let same = bytes_eq_iff expected absent_digest in inr (refl, ground arith, ground arith)
ending_for-ok expected (err _) ending h = cc
ending_for-ok expected (ok current) ending h =
    elim (Bool-cases (bytes_eq current.digest expected)) [
      | inl t ↦ inl (
        current,
        refl,
        (bytes_eq_iff current.digest expected).0 t,
        map_err-ok bad_ending (detect_line_ending current.content) ending (rw t at h),
      )
      | inr g ↦ absurd (ground arith)
    ]

module _ (e : Editor) (o : Overlay) (relative expected : Bytes) (ending : LineEnding) where
  pub expected_found :
      line_ending_for_write e o relative expected ≡ ok ending
      → ((f : File) × (read e o relative (pos 0) ≡ ok f)
          × (f.digest ≡ expected)
          × (detect_line_ending f.content ≡ ok ending))
        ⊎ ((read e o relative (pos 0) ≡ err not_exist)
            × (absent_digest ≡ expected)
            × (ending ≡ unix))
  unfolding line_ending_for_write
  expected_found h = elim (Bool-cases (bytes_eq expected [])) [
    | inl t ↦ absurd (ground arith)
    | inr g ↦ ending_for-ok expected (read e o relative (pos 0)) ending (rw g at h)
  ]

pub read_normalized :
    (e : Editor) (o : Overlay) (relative : Bytes) (m : ℤ)
    → normalize_path relative ≡ ok relative
    → read e o relative m ≡ read_relative e o relative (limit e m)
unfolding read
read_normalized e o relative m h = rw h refl

module _ (e : Editor) (o : Overlay) (path relative expected : Bytes) (ending : LineEnding)
    (normalized : normalize_path path ≡ ok relative)
    (expects : line_ending_for_write e o relative expected ≡ ok ending) where
  -- The path that Write hands on is accepted again.
  pub normalized_again : normalize_path relative ≡ ok relative
  unfolding read
  normalized_again = elim (Bool-cases (is_blank relative)) [
    | inl t ↦
        let refused : read e o relative (pos 0) ≡ err (bad_path not_relative) =
          rw (normalize_path_again path relative normalized, t) refl in
        elim (expected_found e o relative expected ending expects) [
          | inl (f, found, _, _) ↦ cc
          | inr (found, _, _) ↦ cc
        ]
    | inr g ↦ rw (normalize_path_again path relative normalized, g) refl
  ]

  -- The expected digest names what the view holds.
  pub expected_current : digest_of e (view e o relative) ≡ expected
  expected_current = elim (expected_found e o relative expected ending expects) [
    | inl (f, found, same, _) ↦
        let (content, named, _, _) =
          read_relative-view e o relative (limit e (pos 0)) f
            (sym (read_normalized e o relative (pos 0) normalized_again) ∙ found) in
        rw content (sym named ∙ same)
    | inr (found, same, _) ↦
        let nothing =
          read_relative-missing e o relative (limit e (pos 0))
            (sym (read_normalized e o relative (pos 0) normalized_again) ∙ found) in
        rw nothing same
  ]

-- What a stored text leaves at its path and elsewhere.
module _ (e : Editor) (o : Overlay) (relative text : Bytes) (o' : Overlay) (f : File)
    (stored : Stored e o relative text o' f) where
  pub unmarked_own : deleted e o' relative ≡ false
  unfolding deleted
  unmarked_own =
      let gone = lookup-remove_self (tombstone_name e relative) o.markers in
      rw (stored.unmarked, gone) refl

  pub Stored-view : view e o' relative ≡ some text
  Stored-view =
      rw (unmarked_own, overlay_stat-written relative text o.files o'.files stored.written) refl

  pub Stored-Apart : IsInjective e.hash → (q : Bytes) → Apart relative q → view e o' q ≡ view e o q
  unfolding deleted tombstone_name
  Stored-Apart injective q (other, above, below) =
      let kept =
        lookup-remove_ne (e.hash q) (e.hash relative) (λ s. other (sym (injective relative q s)))
          o.markers in
      let same =
        overlay_stat-apart relative text o.files o'.files stored.written q other above below in
      rw (stored.unmarked, kept, same) refl
