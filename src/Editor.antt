-- ===== src/Editor.antt =====
-- internal/workspaceeditor/editor.go: the editor of a checkout that stays as it is, with an overlay
-- of changed files and markers of deleted ones. The functions of the file system are those of a
-- directory that only the editor writes to; I/O faults (a full disk, missing rights) do not occur.
use sovereign_ai.Prelude.{
  map, ℕ, zero, suc, ◌-◌, ◌≡◌, Bool, true, false, not, ◌&&◌, ◌||◌, List, [], ◌∷◌, ◌++◌, Option,
  none, some, Result, ok, err, ◌>>=◌, map_err, String, length, ltb, leb, eqb, any, if◌then◌else◌,
  ◌==◌, is_none,
}
use sovereign_ai.Prelude.Int.{ℤ, pos, pos_part, ltb_ℤ}
use sovereign_ai.Text.{
  Bytes, bytes_eq, contains_byte, valid_utf8, normalize_line_endings, replace, count, LineEnding,
  unix, windows, EndingError, detect_line_ending, restore_line_endings,
}
use sovereign_ai.Paths.{normalize_path, PathError, split, join, slash}
pub mod Table
pub mod View
pub mod Refusals
mod Tests
pub mod Difference
pub mod Keys
pub mod Patch
pub mod Deletion
pub mod Refinement
pub mod Updates
pub mod Tree
pub mod Ancestors
mod Checkout
pub mod Writing
pub mod Listing

-- What os.Lstat and os.ReadFile tell of a path. `blocked` is an error other than "not exist", as
-- where a file stands in place of a parent directory.
pub data Stat : Type 0 where
  absent directory symlink special blocked : Stat
  regular : Bytes → Stat

-- An entry of the overlay's file tree.
pub data Node : Type 0 where
  file : Bytes → Node
  folder : Node

pub data EditError : Type 0 where
  bad_path : PathError → EditError
  bad_ending : EndingError → EditError
  not_exist digest_required not_regular too_large not_text symlink_traversed : EditError
  folder_expected io_error old_text_required bad_marker : EditError
  stale : Bytes → EditError
  occurrences : ℕ → EditError

pub data Source : Type 0 where
  from_overlay from_base : Source

pub record File : Type 0 where
  pub path : Bytes
  pub content : Bytes
  pub digest : Bytes
  pub bytes : ℕ
  pub source : Source

-- The immutable checkout, the limit, and `hash`, SHA-256 in hexadecimal.
pub record Editor : Type 0 where
  pub base : Bytes → Stat
  pub max_file_bytes : ℤ
  pub hash : Bytes → Bytes

-- OverlayRoot: the file tree below `files`, and the content of each marker below `deletions` by
-- its name.
pub record Overlay : Type 0 where
  pub files : List (Bytes × Node)
  pub markers : List (Bytes × Bytes)

abbrev pub absent_digest : Bytes
absent_digest = b'a' ∷ b'b' ∷ b's' ∷ b'e' ∷ b'n' ∷ b't' ∷ []

abbrev pub digest_prefix : Bytes
digest_prefix = b's' ∷ b'h' ∷ b'a' ∷ b'2' ∷ b'5' ∷ b'6' ∷ b':' ∷ []

abbrev pub default_max_file_bytes : ℕ
default_max_file_bytes = 262144

unfoldable pub content_digest : Editor → Bytes → Bytes
content_digest e content = digest_prefix ++ e.hash content

-- The name of the marker of a deleted path, without the suffix that all of them have.
unfoldable pub tombstone_name : Editor → Bytes → Bytes
tombstone_name e path = e.hash path

-- Lookup, insertion and removal in an association list.
module _ {V : Type 0} where
  unfoldable pub lookup_path : Bytes → List (Bytes × V) → Option V
  unfolding bytes_eq
  lookup_path k [] = none
  lookup_path k ((l, v) ∷ rest) = if bytes_eq k l then some v else lookup_path k rest

  unfoldable pub remove : Bytes → List (Bytes × V) → List (Bytes × V)
  unfolding bytes_eq
  remove k [] = []
  remove k ((l, v) ∷ rest) =
      let others = remove k rest in if bytes_eq k l then others else (l, v) ∷ others

  unfoldable pub insert : Bytes → V → List (Bytes × V) → List (Bytes × V)
  unfolding remove
  insert k v table = (k, v) ∷ remove k table

-- The non-empty proper prefixes of a list of segments.
unfoldable pub proper_prefixes : List Bytes → List (List Bytes)
proper_prefixes [] = []
proper_prefixes (s ∷ []) = []
proper_prefixes (s ∷ t ∷ rest) = (s ∷ []) ∷ map (λ p. s ∷ p) (proper_prefixes (t ∷ rest))

-- The directories that a path lies in, the outermost first.
unfoldable pub ancestors : Bytes → List Bytes
unfolding proper_prefixes split join
ancestors path = map join (proper_prefixes (split path))

abbrev pub is_file : Option Node → Bool
is_file (some (file c)) = true
is_file (some folder) = false
is_file none = false

abbrev pub node_stat : Option Node → Stat
node_stat none = absent
node_stat (some folder) = directory
node_stat (some (file c)) = regular c

-- `os.Lstat` in the overlay: "not a directory" where a parent is a file.
unfoldable pub overlay_stat : List (Bytes × Node) → Bytes → Stat
unfolding lookup_path ancestors
overlay_stat files path =
    if any (λ a. is_file (lookup_path a files)) (ancestors path)
    then blocked
    else node_stat (lookup_path path files)

-- `strings.TrimSuffix(content, "\n")`.
unfoldable pub trim_newline : Bytes → Bytes
trim_newline [] = []
trim_newline (b ∷ []) = if eqb b 10 then [] else b ∷ []
trim_newline (b ∷ c ∷ s) = b ∷ trim_newline (c ∷ s)

abbrev pub marks : Bytes → Option Bytes → Bool
marks path none = false
marks path (some content) = bytes_eq (trim_newline content) path

unfoldable pub deleted : Editor → Overlay → Bytes → Bool
deleted e o path = marks path (lookup_path (tombstone_name e path) o.markers)

unfoldable pub limit : Editor → ℤ → ℕ
limit e requested =
    let most = pos_part e.max_file_bytes in
    let most = if eqb most 0 then default_max_file_bytes else most in
    if ltb 0 (pos_part requested) && ltb (pos_part requested) most then pos_part requested else most

-- `readAt`, after Lstat; `none` where nothing is there.
unfoldable pub read_at : Stat → ℕ → Result EditError (Option Bytes)
read_at absent most = ok none
read_at blocked most = err io_error
read_at (regular content) most =
    if ltb most (length content)
    then err too_large
    else if not (valid_utf8 content) || contains_byte 0 content
    then err not_text
    else ok (some content)
read_at _ most = err not_regular

unfoldable pub new_file : Editor → Bytes → Bytes → Source → File
unfolding content_digest
new_file e path content source = record {
  path = path;
  content = content;
  digest = content_digest e content;
  bytes = length content;
  source = source;
}

abbrev pub or_missing : Editor → Bytes → Option Bytes → Result EditError File
or_missing e path none = err not_exist
or_missing e path (some content) = ok (new_file e path content from_base)

abbrev pub or_base : Editor → Bytes → ℕ → Option Bytes → Result EditError File
or_base e path most (some content) = ok (new_file e path content from_overlay)
or_base e path most none = do found ← read_at (e.base path) most; or_missing e path found

-- `Read`, behind normalizePath.
unfoldable pub read_relative : Editor → Overlay → Bytes → ℕ → Result EditError File
unfolding new_file
read_relative e o relative most =
    if deleted e o relative
    then err not_exist
    else do found ← read_at (overlay_stat o.files relative) most; or_base e relative most found

unfoldable pub read : Editor → Overlay → Bytes → ℤ → Result EditError File
read e o path max_bytes = do
  relative ← map_err bad_path (normalize_path path)
  read_relative e o relative (limit e max_bytes)
