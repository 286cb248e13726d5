-- ===== src/Editor/Deletion.antt =====
-- Delete of internal/workspaceeditor/editor.go against the map that Read shows.
use sovereign_ai.Prelude.{
  ◌≡◌, refl, Bool-cases, List, [], ◌∷◌, ◌++◌, Option, none, some, ap, sym, ◌∙◌, arith, inl, inr,
  ◌≢◌, Elem, ok, err, ◌>>=◌, >>=-ok, not, any, if◌then◌else◌,
}
use sovereign_ai.Prelude.Int.{ℤ, pos}
use sovereign_ai.Text.{Bytes, bytes_eq, lf}
use sovereign_ai.Text.Equality.{bytes_eq_iff, bytes_eq_refl}
use sovereign_ai.Paths.{normalize_path, is_blank, not_relative}
use sovereign_ai.Paths.Again.{normalize_path_again}
use sovereign_ai.Editor.{
  Editor, Overlay, File, bad_path, Stat, Node, lookup_path, remove, ancestors, is_file,
  overlay_stat, deleted, trim_newline, read_at, read, limit, content_digest, tombstone_name, stale,
}
use sovereign_ai.Editor.Table.{
  lookup-remove_self, lookup-remove_ne, lookup-insert_self, lookup-insert_ne,
}
use sovereign_ai.Editor.Ancestors.{any_same}
use sovereign_ai.Editor.View.{
  view, over, content_at, stat_of, IsInjective, read_relative-view, read_at-stat,
}
use sovereign_ai.Editor.Updates.{read_normalized}
use sovereign_ai.Editor.Writing.{delete, mark_deleted}

-- Where only one file is taken away, the other paths outside of it keep their state.
overlay_stat-remove :
    (path q : Bytes) (files : List (Bytes × Node))
    → q ≢ path
    → ¬ Elem path (ancestors q)
    → overlay_stat (remove path files) q ≡ overlay_stat files q
unfolding overlay_stat
overlay_stat-remove path q files other below =
    let same_files =
      any_same (λ a. is_file (lookup_path a (remove path files)))
        (λ a. is_file (lookup_path a files)) (ancestors q)
        (λ a m. rw (lookup-remove_ne a path (λ s. below (rw (sym s) at m)) files) refl) in
    rw (same_files, lookup-remove_ne q path (λ s. other (sym s)) files) refl

over-remove :
    (path : Bytes) (files : List (Bytes × Node)) (below : Stat)
    → content_at below ≡ none
    → over (overlay_stat (remove path files) path) below ≡ none
unfolding overlay_stat
over-remove path files below h =
    elim (Bool-cases (any (λ a. is_file (lookup_path a (remove path files))) (ancestors path))) [
      | inl t ↦ rw t refl
      | inr f ↦ rw (f, lookup-remove_self path files) h
    ]

trim_newline-append : (s : Bytes) → trim_newline (s ++ lf ∷ []) ≡ s
unfolding trim_newline
trim_newline-append [] = refl
trim_newline-append (a ∷ []) = refl
trim_newline-append (a ∷ b ∷ s) = ap (λ t. a ∷ t) (trim_newline-append (b ∷ s))

-- The state that Delete leaves, with or without a file in the base.
mark_deleted-view :
    (e : Editor) (o : Overlay) (relative : Bytes) (base_content : Option Bytes)
    → e.base relative ≡ stat_of base_content
    → view e (mark_deleted e o relative base_content) relative ≡ none
unfolding mark_deleted deleted
mark_deleted-view e o relative none h =
    let gone = lookup-remove_self (tombstone_name e relative) o.markers in
    rw gone (over-remove relative o.files (e.base relative) (ap content_at h))
mark_deleted-view e o relative (some c) h =
    let left = lookup-insert_self (tombstone_name e relative) (relative ++ lf ∷ []) o.markers in
    rw (left, trim_newline-append relative, bytes_eq_refl relative) refl

mark_deleted-apart :
    (e : Editor) (o : Overlay) (relative q : Bytes) (base_content : Option Bytes)
    → IsInjective e.hash
    → q ≢ relative
    → ¬ Elem relative (ancestors q)
    → view e (mark_deleted e o relative base_content) q ≡ view e o q
unfolding mark_deleted deleted tombstone_name
mark_deleted-apart e o relative q none injective other below =
    let kept =
      lookup-remove_ne (e.hash q) (e.hash relative) (λ s. other (sym (injective relative q s)))
        o.markers in
    rw (kept, overlay_stat-remove relative q o.files other below) refl
mark_deleted-apart e o relative q (some c) injective other below =
    let kept =
      lookup-insert_ne (e.hash q) (e.hash relative) (λ s. other (sym (injective relative q s)))
        (relative ++ lf ∷ []) o.markers in
    rw (kept, overlay_stat-remove relative q o.files other below) refl

module _ (e : Editor) (o : Overlay) (relative expected : Bytes) (o' : Overlay)
    (current : File) where
  delete_rest :
      (if not (bytes_eq current.digest expected)
          then err (stale current.digest)
          else (read_at (e.base relative) (limit e (pos 0)) >>= λ base_content.
              ok (mark_deleted e o relative base_content)))
        ≡ ok o'
      → (current.digest ≡ expected)
        × (base_content : Option Bytes) × (e.base relative ≡ stat_of base_content)
        × (o' ≡ mark_deleted e o relative base_content)
  delete_rest h = elim (Bool-cases (bytes_eq current.digest expected)) [
    | inl t ↦
        let (base_content, r, k) =
          >>=-ok (read_at (e.base relative) (limit e (pos 0))) _ (rw t at h) in
        (
          (bytes_eq_iff current.digest expected).0 t,
          base_content,
          read_at-stat (e.base relative) (limit e (pos 0)) base_content r,
          ground arith,
        )
    | inr g ↦ absurd (ground arith)
  ]

found_again :
    (e : Editor) (o : Overlay) (path relative : Bytes) (m : ℤ) (current : File)
    → normalize_path path ≡ ok relative
    → read e o relative m ≡ ok current
    → normalize_path relative ≡ ok relative
unfolding read
found_again e o path relative m current normalized found = elim (Bool-cases (is_blank relative)) [
  | inl t ↦
      let refused : read e o relative m ≡ err (bad_path not_relative) =
        rw (normalize_path_again path relative normalized, t) refl in
      cc
  | inr g ↦ rw (normalize_path_again path relative normalized, g) refl
]

-- A successful Delete found at the path the text that the expected digest names; afterwards the
-- path is not there, and every other path that is not below it shows what it showed, where the hash
-- has no collisions.
pub delete_refines :
    (e : Editor) (o : Overlay) (path expected : Bytes) (o' : Overlay) (relative q : Bytes)
    → IsInjective e.hash
    → normalize_path path ≡ ok relative
    → delete e o path expected ≡ ok o'
    → q ≢ relative
    → ¬ Elem relative (ancestors q)
    → ((content : Bytes) × (view e o relative ≡ some content)
        × (content_digest e content ≡ expected))
      × (view e o' relative ≡ none)
      × (view e o' q ≡ view e o q)
unfolding delete
delete_refines e o path expected o' relative q injective normalized removed other below =
    let (current, found, h) = >>=-ok (read e o relative (pos 0)) _ (rw normalized at removed) in
    let (same, base_content, stat, left) = delete_rest e o relative expected o' current h in
    let again = found_again e o path relative (pos 0) current normalized found in
    let (content, named, _, _) =
      read_relative-view e o relative (limit e (pos 0)) current
        (sym (read_normalized e o relative (pos 0) again) ∙ found) in
    (
      (current.content, content, sym named ∙ same),
      rw left (mark_deleted-view e o relative base_content stat),
      rw left (mark_deleted-apart e o relative q base_content injective other below),
    )
