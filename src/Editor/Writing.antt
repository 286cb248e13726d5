-- ===== src/Editor/Writing.antt =====
-- Write, Replace and Delete of internal/workspaceeditor/editor.go. An update returns the overlay it
-- leaves; one that fails leaves the overlay as it is.
use sovereign_ai.Prelude.{
  ℕ, not, ◌||◌, List, [], ◌∷◌, ◌++◌, Option, none, some, Result, ok, err, ◌>>=◌, map_err, length,
  ltb, eqb, if◌then◌else◌, is_none,
}
use sovereign_ai.Prelude.Int.{ℤ, pos, pos_part}
use sovereign_ai.Text.{
  Bytes, bytes_eq, contains_byte, valid_utf8, normalize_line_endings, replace, count, LineEnding,
  unix, detect_line_ending, restore_line_endings, lf,
}
use sovereign_ai.Paths.{normalize_path}
use sovereign_ai.Editor.{
  Editor, Overlay, File, Stat, absent, directory, symlink, special, blocked, regular, Node, file,
  folder, EditError, bad_path, bad_ending, not_exist, digest_required, too_large, not_text,
  symlink_traversed, folder_expected, io_error, old_text_required, stale, occurrences, from_overlay,
  absent_digest, lookup_path, insert, remove, ancestors, tombstone_name, limit, read_at, new_file,
  read,
}

-- `os.MkdirAll`, of a path's directories from the outermost on.
unfoldable pub mkdir_all : List Bytes → List (Bytes × Node) → Result EditError (List (Bytes × Node))
unfolding lookup_path insert
mkdir_all [] files = ok files
mkdir_all (a ∷ rest) files = elim (lookup_path a files) [
  | none ↦ mkdir_all rest (insert a folder files)
  | some (file c) ↦ err io_error
  | some folder ↦ mkdir_all rest files
]

-- `os.Rename` of the temporary file does not replace a directory.
abbrev pub rename_to :
    Bytes → Bytes → List (Bytes × Node) → Option Node → Result EditError (List (Bytes × Node))
rename_to path content files (some folder) = err io_error
rename_to path content files _ = ok (insert path (file content) files)

unfoldable pub atomic_write :
    Bytes → Bytes → List (Bytes × Node) → Result EditError (List (Bytes × Node))
atomic_write path content files = do
  made ← mkdir_all (ancestors path) files
  rename_to path content made (lookup_path path made)

-- What Write may replace, by the digest that the caller expects.
unfoldable pub ending_for : Bytes → Result EditError File → Result EditError LineEnding
ending_for expected (err not_exist) =
    if not (bytes_eq expected absent_digest) then err (stale absent_digest) else ok unix
ending_for expected (err reason) = err reason
ending_for expected (ok current) =
    if not (bytes_eq current.digest expected)
    then err (stale current.digest)
    else map_err bad_ending (detect_line_ending current.content)

unfoldable pub line_ending_for_write :
    Editor → Overlay → Bytes → Bytes → Result EditError LineEnding
line_ending_for_write e o path expected =
    if bytes_eq expected []
    then err digest_required
    else ending_for expected (read e o path (pos 0))

unfoldable pub validate_content : Editor → Bytes → Result EditError (Unit {0})
validate_content e content =
    if ltb (limit e (pos 0)) (length content)
    then err too_large
    else if not (valid_utf8 content) || contains_byte 0 content
    then err not_text
    else do _ ← map_err bad_ending (detect_line_ending content); ok tt

-- The loop of checkBasePath over the prefixes of a path, itself last.
unfoldable pub check_prefixes : (Bytes → Stat) → List Bytes → Result EditError (Unit {0})
check_prefixes base [] = ok tt
check_prefixes base (a ∷ []) = elim (base a) [
  | absent ↦ ok tt
  | blocked ↦ err io_error
  | symlink ↦ err symlink_traversed
  | directory ↦ ok tt
  | special ↦ ok tt
  | regular c ↦ ok tt
]
check_prefixes base (a ∷ b ∷ rest) = elim (base a) [
  | absent ↦ ok tt
  | blocked ↦ err io_error
  | symlink ↦ err symlink_traversed
  | directory ↦ check_prefixes base (b ∷ rest)
  | special ↦ err folder_expected
  | regular c ↦ err folder_expected
]

unfoldable pub check_base_path : Editor → Bytes → Result EditError (Unit {0})
check_base_path e relative = check_prefixes e.base (ancestors relative ++ relative ∷ [])

-- `Write`, from the check of the text on.
unfoldable pub store_text : Editor → Overlay → Bytes → Bytes → Result EditError (Overlay × File)
unfolding new_file
store_text e o relative stored = do
  _ ← validate_content e stored
  _ ← check_base_path e relative
  files ← atomic_write relative stored o.files
  ok (
    record { files = files; markers = remove (tombstone_name e relative) o.markers },
    new_file e relative stored from_overlay,
  )

unfoldable pub write : Editor → Overlay → Bytes → Bytes → Bytes → Result EditError (Overlay × File)
write e o path content expected = do
  relative ← map_err bad_path (normalize_path path)
  ending ← line_ending_for_write e o relative expected
  store_text e o relative (restore_line_endings ending (normalize_line_endings content))

abbrev wanted : ℤ → ℕ
wanted expected = if eqb (pos_part expected) 0 then 1 else pos_part expected

-- `Replace`.
unfoldable pub replace_text :
    Editor → Overlay → Bytes → Bytes → Bytes → Bytes → ℤ → Result EditError (Overlay × File)
replace_text e o path old_text new_text expected expected_occurrences =
    let old_text = normalize_line_endings old_text in
    let new_text = normalize_line_endings new_text in
    if bytes_eq old_text [] then err old_text_required else do
      current ← read e o path (pos 0)
      let content = normalize_line_endings current.content
      let found = count old_text content
      if not (bytes_eq current.digest expected)
          then err (stale current.digest)
          else if not (eqb found (wanted expected_occurrences))
          then err (occurrences found)
          else write e o current.path
              (replace old_text new_text (wanted expected_occurrences) content) expected

-- The end of Delete: the overlay's file is removed, and a marker is left if the base has the file.
unfoldable pub mark_deleted : Editor → Overlay → Bytes → Option Bytes → Overlay
unfolding remove insert tombstone_name
mark_deleted e o relative base_content = record {
  files = remove relative o.files;
  markers =
      if is_none base_content
      then remove (tombstone_name e relative) o.markers
      else insert (tombstone_name e relative) (relative ++ lf ∷ []) o.markers;
}

unfoldable pub delete : Editor → Overlay → Bytes → Bytes → Result EditError Overlay
delete e o path expected = do
  relative ← map_err bad_path (normalize_path path)
  current ← read e o relative (pos 0)
  if not (bytes_eq current.digest expected) then err (stale current.digest) else do
    base_content ← read_at (e.base relative) (limit e (pos 0))
    ok (mark_deleted e o relative base_content)
