-- ===== src/Editor/Difference.antt =====
-- Changes of internal/workspaceeditor/editor.go lists the difference between checkout and view.
use sovereign_ai.Prelude.{
  ◌≡◌, refl, Bool, true, false, Bool-cases, List, [], Option, none, some, ap, ◌∙◌, arith, inl, inr,
  ◌⊎◌, All, Elem, Result, ok, >>=-ok, any, if◌then◌else◌,
}
use sovereign_ai.Text.{Bytes}
use sovereign_ai.Text.Equality.{bytes_eq_sound}
use sovereign_ai.Paths.{split}
use sovereign_ai.Editor.{
  Editor, Overlay, EditError, absent, blocked, regular, Node, file, folder, lookup_path, ancestors,
  is_file, overlay_stat, node_stat, deleted, marks, trim_newline, tombstone_name,
}
use sovereign_ai.Editor.View.{view}
use sovereign_ai.Editor.Keys.{Elem-walk, Elem-add_markers, Elem-add_markers_found}
use sovereign_ai.Editor.Patch.{patched, IsRecord, list_changes-Covers, list_changes-IsRecord}
use sovereign_ai.Editor.Listing.{
  ChangedFile, Changes, in_excluded, walk, add_markers, list_changes, changes,
}

ok_same : (a b : Changes) → ◌≡◌ {A = Result EditError Changes} (ok a) (ok b) → a ≡ b
ok_same a b h = cc

module _ (e : Editor) (encode : List ChangedFile → Bytes) (o : Overlay) (c : Changes)
    (listed : changes e encode o ≡ ok c) where
  parts :
      (paths : List Bytes) × (add_markers o.markers (walk o.files []) ≡ ok paths)
      × (list_changes e o paths ≡ ok c.files)
  unfolding changes
  parts =
      let (paths, a, h) = >>=-ok (add_markers o.markers (walk o.files [])) _ listed in
      let (files, b, h) = >>=-ok (list_changes e o paths) _ h in
      (paths, a, b ∙ ap (λ (x : Changes). ok x.files) (ok_same _ c h))

marked :
    (p : Bytes) (found : Option Bytes)
    → marks p found ≡ true
    → (content : Bytes) × (found ≡ some content) × (trim_newline content ≡ p)
marked p none h = cc
marked p (some content) h = (content, refl, bytes_eq_sound (trim_newline content) p h)

unblocked :
    (b : Bool) (entry : Option Node) (c : Bytes)
    → (if b then blocked else node_stat entry) ≡ regular c
    → entry ≡ some (file c)
unblocked true entry c h = cc
unblocked false none c h = cc
unblocked false (some folder) c h = cc
unblocked false (some (file d)) c h = ground arith

is_regular :
    (path c : Bytes) (files : List (Bytes × Node))
    → overlay_stat files path ≡ regular c
    → lookup_path path files ≡ some (file c)
unfolding overlay_stat
is_regular path c files h =
    unblocked (any (λ a. is_file (lookup_path a files)) (ancestors path)) (lookup_path path files) c
      h

not_marked :
    (e : Editor) (o : Overlay) (p : Bytes) (found paths : List Bytes)
    → add_markers o.markers found ≡ ok paths
    → ¬ Elem p paths
    → deleted e o p ≡ false
unfolding deleted
not_marked e o p found paths a unlisted =
    elim (Bool-cases (marks p (lookup_path (tombstone_name e p) o.markers))) [
      | inl t ↦
          let (content, there, same) = marked p (lookup_path (tombstone_name e p) o.markers) t in
          absurd (
            unlisted (
              rw same at
                (Elem-add_markers (tombstone_name e p) content o.markers found paths a there)))
      | inr f ↦ f
    ]

-- Where Changes succeeds, the listed changes turn the checkout's content of a path into what the
-- view shows, if the path lies in no excluded directory and the overlay holds a file or nothing
-- there.
pub changes-patched :
    (e : Editor) (encode : List ChangedFile → Bytes) (o : Overlay) (c : Changes) (p : Bytes)
    → changes e encode o ≡ ok c
    → in_excluded (split p) ≡ false
    → (overlay_stat o.files p ≡ absent) ⊎ ((text : Bytes) × (overlay_stat o.files p ≡ regular text))
    → patched e c.files p ≡ view e o p
changes-patched e encode o c p listed visited place =
    let (paths, a, b) = parts e encode o c listed in
    elim (list_changes-Covers e o p paths c.files b) [
      | inl same ↦ same
      | inr (unlisted, same) ↦
          let kept = not_marked e o p (walk o.files []) paths a unlisted in
          elim place [
            | inl missing ↦ same ∙ rw (kept, missing) refl
            | inr (text, there) ↦ absurd (
                unlisted (
                  Elem-add_markers_found p o.markers (walk o.files []) paths a
                    (Elem-walk p text o.files [] visited (is_regular p text o.files there))))
          ]
    ]

-- Every record that Changes lists has the digest of the checkout's content, or "absent", as its base
-- digest, and the content that the view shows as its result, which differs from the checkout's.
pub changes-IsRecord :
    (e : Editor) (encode : List ChangedFile → Bytes) (o : Overlay) (c : Changes)
    → changes e encode o ≡ ok c
    → All (IsRecord e o) c.files
changes-IsRecord e encode o c listed =
    let (paths, a, b) = parts e encode o c listed in list_changes-IsRecord e o paths c.files b
