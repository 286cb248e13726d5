-- ===== src/Editor/Refinement.antt =====
-- Write and Delete of internal/workspaceeditor/editor.go against the map that Read shows.
use sovereign_ai.Prelude.{
  ◌≡◌, refl, Bool, true, false, Option, some, ap, sym, ◌∙◌, arith, inl, inr, Result, ok, err,
  >>=-ok, map_err, map_err-ok, if◌then◌else◌,
}
use sovereign_ai.Prelude.Int.{ℤ, pos}
use sovereign_ai.Text.{Bytes, normalize_line_endings, restore_line_endings, LineEnding}
use sovereign_ai.Text.Endings.Laws.{restore-normalize}
use sovereign_ai.Text.Endings.Stored.{detect-restore}
use sovereign_ai.Paths.{normalize_path}
use sovereign_ai.Editor.{
  Editor, Overlay, File, EditError, bad_path, too_large, not_text, regular, read_at, read,
  read_relative, limit, new_file, from_overlay,
}
use sovereign_ai.Editor.View.{
  view, digest_of, Apart, IsInjective, read_relative-view, read_relative-missing,
}
use sovereign_ai.Editor.Updates.{
  Stored, store-Stored, expected_found, normalized_again, read_normalized, expected_current,
  Stored-view, Stored-Apart, unmarked_own,
}
use sovereign_ai.Editor.Tree.{overlay_stat-written}
use sovereign_ai.Editor.Writing.{write, line_ending_for_write, validate_content}

-- The steps of a Write that succeeded.
module _ (e : Editor) (o : Overlay) (path content expected : Bytes) (o' : Overlay) (f : File)
    (relative : Bytes) (normalized : normalize_path path ≡ ok relative)
    (written : write e o path content expected ≡ ok (o', f)) where
  pub write_steps :
      (ending : LineEnding) × (line_ending_for_write e o relative expected ≡ ok ending)
      × Stored e o relative (restore_line_endings ending (normalize_line_endings content)) o' f
  unfolding write
  write_steps =
      let (ending, b, h) =
        >>=-ok (line_ending_for_write e o relative expected) _ (rw normalized at written) in
      (ending, b, store-Stored e o relative _ o' f h)

accepted_read :
    (large other : Bool) (tested : Result EditError (Unit {0})) (c : Bytes)
    → ◌≡◌ {A = Result EditError (Unit {0})}
        (if large then err too_large else if other then err not_text else tested)
        (ok tt)
    → ◌≡◌ {A = Result EditError (Option Bytes)}
        (if large then err too_large else if other then err not_text else ok (some c))
        (ok (some c))
accepted_read true other tested c h = cc
accepted_read false true tested c h = cc
accepted_read false false tested c h = refl

-- A text that validateContent accepts can be read.
read_at-valid :
    (e : Editor) (text : Bytes)
    → validate_content e text ≡ ok tt
    → read_at (regular text) (limit e (pos 0)) ≡ ok (some text)
unfolding validate_content read_at
read_at-valid e text h = accepted_read _ _ _ text h

Stored-read :
    (e : Editor) (o : Overlay) (relative text : Bytes) (o' : Overlay) (f : File)
    → Stored e o relative text o' f
    → read_relative e o' relative (limit e (pos 0)) ≡ ok f
unfolding read_relative
Stored-read e o relative text o' f stored =
    rw
      (
        unmarked_own e o relative text o' f stored,
        overlay_stat-written relative text o.files o'.files stored.written,
        read_at-valid e text stored.valid,
      )
      (ap ok (sym stored.result))

-- A successful Write found at the path what the expected digest names, or nothing where the digest
-- is "absent"; afterwards Read shows the file it returned there, whose text differs from the given
-- one in line endings at most; and a path that is neither a directory of the written one nor below
-- it shows what it showed, where the hash has no collisions.
pub write_refines :
    (e : Editor) (o : Overlay) (path content expected : Bytes) (o' : Overlay) (f : File)
    (relative q : Bytes)
    → IsInjective e.hash
    → normalize_path path ≡ ok relative
    → write e o path content expected ≡ ok (o', f)
    → Apart relative q
    → (digest_of e (view e o relative) ≡ expected)
      × (view e o' relative ≡ some f.content)
      × (read e o' relative (pos 0) ≡ ok f)
      × (normalize_line_endings f.content ≡ normalize_line_endings content)
      × (view e o' q ≡ view e o q)
unfolding new_file
write_refines e o path content expected o' f relative q injective normalized written apart =
    let (ending, expects, stored) =
      write_steps e o path content expected o' f relative normalized written in
    let text = ap (λ (g : File). g.content) stored.result in
    (
      expected_current e o path relative expected ending normalized expects,
      Stored-view e o relative _ o' f stored ∙ ap some (sym text),
      read_normalized e o' relative (pos 0)
            (normalized_again e o path relative expected ending normalized expects)
          ∙ Stored-read e o relative _ o' f stored,
      ap normalize_line_endings text ∙ (detect-restore ending content).1,
      Stored-Apart e o relative _ o' f stored injective q apart,
    )

-- Writing back the text that Read returned, with its digest, stores the same bytes, also where the
-- file has Windows line endings.
pub write_back :
    (e : Editor) (o : Overlay) (path : Bytes) (m : ℤ) (f : File) (o' : Overlay) (g : File)
    → read e o path m ≡ ok f
    → write e o path f.content f.digest ≡ ok (o', g)
    → (g.content ≡ f.content) × (g.path ≡ f.path) × (g.digest ≡ f.digest)
unfolding read new_file
write_back e o path m f o' g found written =
    let (relative, a, h) = >>=-ok (map_err bad_path (normalize_path path)) _ found in
    let normalized = map_err-ok bad_path (normalize_path path) relative a in
    let (ending, expects, stored) =
      write_steps e o path f.content f.digest o' g relative normalized written in
    let (content, named, same_path, _) = read_relative-view e o relative (limit e m) f h in
    let again =
      read_normalized e o relative (pos 0)
        (normalized_again e o path relative f.digest ending normalized expects) in
    elim (expected_found e o relative f.digest ending expects) [
      | inl (current, c, same, detected) ↦
          let (content', _, _, _) =
            read_relative-view e o relative (limit e (pos 0)) current (sym again ∙ c) in
          let unchanged : current.content ≡ f.content = ground arith in
          let bytes = restore-normalize f.content ending (rw unchanged at detected) in
          let result : g ≡ new_file e relative f.content from_overlay = rw bytes at stored.result in
          (
            ap (λ (x : File). x.content) result,
            ap (λ (x : File). x.path) result ∙ sym same_path,
            ap (λ (x : File). x.digest) result ∙ sym named,
          )
      | inr (missing, same, _) ↦
          let nothing =
            read_relative-missing e o relative (limit e (pos 0)) (sym again ∙ missing) in
          cc
    ]
