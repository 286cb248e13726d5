-- ===== src/Editor/Listing.antt =====
-- Changes of internal/workspaceeditor/editor.go, with `walk` over the overlay, and the records of
-- internal/filemanifest.
use sovereign_ai.Prelude.{
  Bool, true, false, ◌&&◌, ◌||◌, List, [], ◌∷◌, Option, none, some, Result, ok, ◌>>=◌, map_err, ltb,
  eqb, if◌then◌else◌,
}
use sovereign_ai.Prelude.Int.{pos}
use sovereign_ai.Text.{Bytes, bytes_eq}
use sovereign_ai.Paths.{normalize_path, split, is_reserved}
use sovereign_ai.Editor.{
  Editor, Overlay, Node, file, EditError, bad_marker, absent_digest, content_digest, trim_newline,
  overlay_stat, deleted, limit, read_at,
}

-- `<` of Go strings.
unfoldable pub bytes_lt : Bytes → Bytes → Bool
bytes_lt [] [] = false
bytes_lt [] (b ∷ t) = true
bytes_lt (a ∷ s) [] = false
bytes_lt (a ∷ s) (b ∷ t) = ltb a b || (eqb a b && bytes_lt s t)

-- A set of paths, kept in order: the keys of the map `changed`, sorted.
unfoldable pub add_path : Bytes → List Bytes → List Bytes
unfolding bytes_lt bytes_eq
add_path p [] = p ∷ []
add_path p (q ∷ rest) =
    let later = add_path p rest in
    if bytes_eq p q then q ∷ rest else if bytes_lt p q then p ∷ q ∷ rest else q ∷ later

unfoldable pub excluded_directory : Bytes → Bool
unfolding is_reserved bytes_eq
excluded_directory name =
    is_reserved name
    || bytes_eq name
        (b'n' ∷ b'o' ∷ b'd' ∷ b'e' ∷ b'_' ∷ b'm' ∷ b'o' ∷ b'd' ∷ b'u' ∷ b'l' ∷ b'e' ∷ b's' ∷ [])
    || bytes_eq name (b'v' ∷ b'e' ∷ b'n' ∷ b'd' ∷ b'o' ∷ b'r' ∷ [])
    || bytes_eq name (b'.' ∷ b'v' ∷ b'e' ∷ b'n' ∷ b'v' ∷ [])
    || bytes_eq name (b'v' ∷ b'e' ∷ b'n' ∷ b'v' ∷ [])
    || bytes_eq name
        (b'_' ∷ b'_' ∷ b'p' ∷ b'y' ∷ b'c' ∷ b'a' ∷ b'c' ∷ b'h' ∷ b'e' ∷ b'_' ∷ b'_' ∷ [])

-- One of the directories that a path lies in is excluded.
unfoldable pub in_excluded : List Bytes → Bool
unfolding excluded_directory
in_excluded [] = false
in_excluded (name ∷ []) = false
in_excluded (s ∷ t ∷ rest) = excluded_directory s || in_excluded (t ∷ rest)

abbrev pub visit : Bytes → Node → Bool → List Bytes → List Bytes
visit path (file c) false found = add_path path found
visit path _ _ found = found

-- `walk` of the overlay's files, each one added to the set.
unfoldable pub walk : List (Bytes × Node) → List Bytes → List Bytes
unfolding add_path in_excluded split
walk [] found = found
walk ((path, node) ∷ rest) found = visit path node (in_excluded (split path)) (walk rest found)

-- The paths of the deletion markers, each one added to the set.
unfoldable pub add_markers : List (Bytes × Bytes) → List Bytes → Result EditError (List Bytes)
unfolding add_path trim_newline normalize_path
add_markers [] found = ok found
add_markers ((name, content) ∷ rest) found = do
  _ ← map_err (λ reason. bad_marker) (normalize_path (trim_newline content))
  add_markers rest (add_path (trim_newline content) found)

pub data ChangeAction : Type 0 where
  add modify delete : ChangeAction

pub record ChangedFile : Type 0 where
  pub path : Bytes
  pub action : ChangeAction
  pub base_digest : Bytes
  pub result_digest : Bytes
  pub result_content : Option Bytes

-- A path's file in the overlay, or in the base where the overlay has none.
abbrev pub new_content : Bool → Option Bytes → Option Bytes → Option Bytes
new_content true old overlaid = none
new_content false old none = old
new_content false old (some content) = some content

-- The record of one path, from its content before and after; `none` where nothing changed.
unfoldable pub change_of : Editor → Bytes → Option Bytes → Option Bytes → Option ChangedFile
unfolding content_digest bytes_eq
change_of e path none none = none
change_of e path none (some new) = some (record {
  path = path;
  action = add;
  base_digest = absent_digest;
  result_digest = content_digest e new;
  result_content = some new;
})
change_of e path (some old) none = some (record {
  path = path;
  action = delete;
  base_digest = content_digest e old;
  result_digest = [];
  result_content = none;
})
change_of e path (some old) (some new) =
    if bytes_eq old new
    then none
    else some (record {
      path = path;
      action = modify;
      base_digest = content_digest e old;
      result_digest = content_digest e new;
      result_content = some new;
    })

abbrev pub with_change : Option ChangedFile → List ChangedFile → List ChangedFile
with_change none files = files
with_change (some changed) files = changed ∷ files

unfoldable pub list_changes : Editor → Overlay → List Bytes → Result EditError (List ChangedFile)
list_changes e o [] = ok []
list_changes e o (path ∷ rest) = do
  old ← read_at (e.base path) (limit e (pos 0))
  overlaid ← read_at (overlay_stat o.files path) (limit e (pos 0))
  files ← list_changes e o rest
  ok (with_change (change_of e path old (new_content (deleted e o path) old overlaid)) files)

pub record Changes : Type 0 where
  pub files : List ChangedFile
  pub evidence_digest : Option Bytes

abbrev evidence : Editor → (List ChangedFile → Bytes) → List ChangedFile → Option Bytes
evidence e encode [] = none
evidence e encode (changed ∷ files) = some (content_digest e (encode (changed ∷ files)))

-- `encode` is the JSON of the files.
unfoldable pub changes : Editor → (List ChangedFile → Bytes) → Overlay → Result EditError Changes
changes e encode o = do
  paths ← add_markers o.markers (walk o.files [])
  files ← list_changes e o paths
  ok (record { files = files; evidence_digest = evidence e encode files })
