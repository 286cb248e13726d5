-- ===== src/Editor/Refusals.antt =====
-- What Write, Replace and Delete of internal/workspaceeditor/editor.go refuse.
use sovereign_ai.Prelude.{◌≡◌, refl, false, [], ◌∙◌, ◌≢◌, ok, err}
use sovereign_ai.Prelude.Int.{ℤ, pos}
use sovereign_ai.Text.{Bytes, normalize_line_endings}
use sovereign_ai.Text.Equality.{bytes_eq-false}
use sovereign_ai.Paths.{normalize_path, is_blank}
use sovereign_ai.Paths.Again.{normalize_path_again}
use sovereign_ai.Editor.{Editor, Overlay, File, not_exist, read, stale, absent_digest}
use sovereign_ai.Editor.Writing.{write, replace_text, delete, line_ending_for_write, ending_for}

module _ (e : Editor) (o : Overlay) (path relative : Bytes)
    (normalized : normalize_path path ≡ ok relative) (filled : is_blank relative ≡ false) where
  -- The normalized path reads as the given one.
  read_same : (m : ℤ) → read e o relative m ≡ read e o path m
  unfolding read
  read_same m = rw (normalize_path_again path relative normalized, filled, normalized) refl

  -- Where Read finds a file, and a digest is given that does not name its content, Write, Replace of
  -- a text that is not empty and Delete report the stale digest and return no new state, unless the
  -- normalized path is blank.
  pub stale_refused :
      (f : File) (content old_text new_text expected : Bytes) (occurrences : ℤ)
      → read e o path (pos 0) ≡ ok f
      → expected ≢ []
      → f.digest ≢ expected
      → normalize_line_endings old_text ≢ []
      → (write e o path content expected ≡ err (stale f.digest))
        × (replace_text e o path old_text new_text expected occurrences ≡ err (stale f.digest))
        × (delete e o path expected ≡ err (stale f.digest))
  unfolding write replace_text delete line_ending_for_write ending_for
  stale_refused f content old_text new_text expected occurrences found given differ old =
      let differs = bytes_eq-false f.digest expected differ in
      let again = read_same (pos 0) ∙ found in
      (
        rw (normalized, bytes_eq-false expected [] given, again, differs) refl,
        rw (bytes_eq-false (normalize_line_endings old_text) [] old, found, differs) refl,
        rw (normalized, again, differs) refl,
      )

  -- Where Read finds no file, Write with another digest than "absent" reports that the digest is
  -- stale, and Replace of a text that is not empty and Delete that the file does not exist, unless
  -- the normalized path is blank.
  pub missing_refused :
      (content old_text new_text expected : Bytes) (occurrences : ℤ)
      → read e o path (pos 0) ≡ err not_exist
      → expected ≢ []
      → expected ≢ absent_digest
      → normalize_line_endings old_text ≢ []
      → (write e o path content expected ≡ err (stale absent_digest))
        × (replace_text e o path old_text new_text expected occurrences ≡ err not_exist)
        × (delete e o path expected ≡ err not_exist)
  unfolding write replace_text delete line_ending_for_write ending_for
  missing_refused content old_text new_text expected occurrences found given differ old =
      let differs = bytes_eq-false expected absent_digest differ in
      let again = read_same (pos 0) ∙ found in
      (
        rw (normalized, bytes_eq-false expected [] given, again, differs) refl,
        rw (bytes_eq-false (normalize_line_endings old_text) [] old, found) refl,
        rw (normalized, again) refl,
      )
