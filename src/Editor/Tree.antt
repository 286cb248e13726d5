-- ===== src/Editor/Tree.antt =====
-- The overlay's file tree under os.MkdirAll, a rename and os.Remove.
use sovereign_ai.Prelude.{
  ◌≡◌, refl, Bool-cases, Option-cases, List, [], ◌∷◌, Option, none, some, ap, sym, ◌∙◌, arith, inl,
  inr, ◌≢◌, Elem, ok, >>=-ok,
}
use sovereign_ai.Text.{Bytes, bytes_eq}
use sovereign_ai.Text.Equality.{bytes_eq_iff}
use sovereign_ai.Editor.{
  Node, file, folder, regular, lookup_path, insert, ancestors, is_file, overlay_stat,
}
use sovereign_ai.Editor.Table.{lookup-insert, lookup-insert_self, lookup-insert_ne}
use sovereign_ai.Editor.Writing.{mkdir_all, rename_to, atomic_write}
use sovereign_ai.Editor.Ancestors.{any_same, any_none, ancestor-ne}

abbrev Files : Type 0
Files = List (Bytes × Node)

-- `os.MkdirAll` puts folders where nothing was, along the list; afterwards none of the list is
-- missing or a file.
data Made (k : Bytes) (l : List Bytes) (before after : Files) : Type 0 where
  same : lookup_path k after ≡ lookup_path k before → Made k l before after
  created :
      Elem k l
      → lookup_path k before ≡ none
      → lookup_path k after ≡ some folder
      → Made k l before after

is_folder_after :
    {k : Bytes} {l : List Bytes} {before after : Files}
    → Made k l before after
    → lookup_path k before ≡ some folder
    → lookup_path k after ≡ some folder
is_folder_after (same e) h = e ∙ h
is_folder_after (created m e f) h = f

is_file_after :
    {k : Bytes} {l : List Bytes} {before after : Files}
    → Made k l before after
    → is_file (lookup_path k after) ≡ is_file (lookup_path k before)
is_file_after (same e) = ap is_file e
is_file_after (created m e f) = ap is_file f ∙ sym (ap is_file e)

Made-absent :
    {k : Bytes} {l : List Bytes} {before after : Files}
    → Made k l before after
    → ¬ Elem k l
    → lookup_path k after ≡ lookup_path k before
Made-absent (same e) h = e
Made-absent (created m e f) h = absurd (h m)

Made-head :
    (k a : Bytes) (l : List Bytes) (before after : Files)
    → lookup_path a before ≡ none
    → Made k l (insert a folder before) after
    → Made k (a ∷ l) before after
Made-head k a l before after missing (same e) =
    let law = lookup-insert k a folder before in
    elim (Bool-cases (bytes_eq a k)) [
      | inl t ↦
          let a-k = (bytes_eq_iff a k).0 t in
          created (inl (sym a-k)) (ap (λ b. lookup_path b before) (sym a-k) ∙ missing)
            (e ∙ law ∙ rw t refl)
      | inr f ↦ same (e ∙ law ∙ rw f refl)
    ]
Made-head k a l before after missing (created m e f) =
    let law = lookup-insert k a folder before in
    elim (Bool-cases (bytes_eq a k)) [
      | inl t ↦ absurd (ground arith)
      | inr g ↦ created (inr m) (ground arith) f
    ]

Made-tail :
    (k a : Bytes) (l : List Bytes) (before after : Files)
    → Made k l before after
    → Made k (a ∷ l) before after
Made-tail k a l before after (same e) = same e
Made-tail k a l before after (created m e f) = created (inr m) e f

mkdir_all-Made :
    (k : Bytes) (l : List Bytes) (before after : Files)
    → mkdir_all l before ≡ ok after
    → Made k l before after
unfolding mkdir_all
mkdir_all-Made k [] before after h = same (ground arith)
mkdir_all-Made k (a ∷ l) before after h = elim (Option-cases (lookup_path a before)) [
  | inl missing ↦
      Made-head k a l before after missing
        (mkdir_all-Made k l (insert a folder before) after (rw (missing, mkdir_all) at h))
  | inr (file c, e) ↦ absurd (ground arith)
  | inr (folder, e) ↦
      Made-tail k a l before after (mkdir_all-Made k l before after (rw (e, mkdir_all) at h))
]

mkdir_all-folders :
    (k : Bytes) (l : List Bytes) (before after : Files)
    → mkdir_all l before ≡ ok after
    → Elem k l
    → lookup_path k after ≡ some folder
unfolding mkdir_all
mkdir_all-folders k [] before after h m = absurd m
mkdir_all-folders k (a ∷ l) before after h m = elim (Option-cases (lookup_path a before)) [
  | inl missing ↦
      let rest = rw (missing, mkdir_all) at h in
      let own = lookup-insert_self a folder before in
      elim m [
        | inl e ↦
            rw e (is_folder_after (mkdir_all-Made a l (insert a folder before) after rest) own)
        | inr later ↦ mkdir_all-folders k l (insert a folder before) after rest later
      ]
  | inr (file c, e) ↦ absurd (ground arith)
  | inr (folder, e) ↦
      let rest = rw (e, mkdir_all) at h in
      elim m [
        | inl same_as ↦ rw same_as (is_folder_after (mkdir_all-Made a l before after rest) e)
        | inr later ↦ mkdir_all-folders k l before after rest later
      ]
]

renamed :
    (path content : Bytes) (made after : Files) (node : Option Node)
    → rename_to path content made node ≡ ok after
    → after ≡ insert path (file content) made
renamed path content made after none h = ground arith
renamed path content made after (some (file c)) h = ground arith
renamed path content made after (some folder) h = cc

-- A successful atomic write: the path's file, with the folders above it.
module _ (path content : Bytes) (before after : Files)
    (written : atomic_write path content before ≡ ok after) where
  written_made :
      (made : Files) × (mkdir_all (ancestors path) before ≡ ok made)
      × (after ≡ insert path (file content) made)
  unfolding atomic_write
  written_made =
      let (made, e, h) = >>=-ok (mkdir_all (ancestors path) before) _ written in
      (made, e, renamed path content made after (lookup_path path made) h)

  is_file-after :
      (k : Bytes) → k ≢ path → is_file (lookup_path k after) ≡ is_file (lookup_path k before)
  is_file-after k other =
      let (made, e, e') = written_made in
      let kept = lookup-insert_ne k path (λ s. other (sym s)) (file content) made in
      rw e' (ap is_file kept ∙ is_file_after (mkdir_all-Made k (ancestors path) before made e))

  ancestor-written : (a : Bytes) → Elem a (ancestors path) → lookup_path a after ≡ some folder
  ancestor-written a m =
      let (made, e, e') = written_made in
      let kept = lookup-insert_ne a path (λ s. ancestor-ne path a m (sym s)) (file content) made in
      rw e' (kept ∙ mkdir_all-folders a (ancestors path) before made e m)

  pub overlay_stat-written : overlay_stat after path ≡ regular content
  unfolding overlay_stat
  overlay_stat-written =
      let (made, e, e') = written_made in
      let free =
        any_none (λ a. is_file (lookup_path a after)) (ancestors path)
          (λ a m. rw (ancestor-written a m) refl) in
      let own : lookup_path path after ≡ some (file content) =
        rw e' (lookup-insert_self path (file content) made) in
      rw (free, own) refl

  pub lookup-apart :
      (q : Bytes)
      → q ≢ path
      → ¬ Elem q (ancestors path)
      → lookup_path q after ≡ lookup_path q before
  lookup-apart q other above =
      let (made, e, e') = written_made in
      let kept = lookup-insert_ne q path (λ s. other (sym s)) (file content) made in
      rw e' (kept ∙ Made-absent (mkdir_all-Made q (ancestors path) before made e) above)

  -- A path that is no directory of the written one, and is not below it, keeps its state.
  pub overlay_stat-apart :
      (q : Bytes)
      → q ≢ path
      → ¬ Elem q (ancestors path)
      → ¬ Elem path (ancestors q)
      → overlay_stat after q ≡ overlay_stat before q
  unfolding overlay_stat
  overlay_stat-apart q other above below =
      let same_files =
        any_same (λ a. is_file (lookup_path a after)) (λ a. is_file (lookup_path a before))
          (ancestors q) (λ a m. is_file-after a (λ s. below (rw s at m))) in
      rw (same_files, lookup-apart q other above) refl
