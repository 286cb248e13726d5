-- ===== src/Editor/Keys.antt =====
-- Changes of internal/workspaceeditor/editor.go: every changed file and every deletion is looked at.
use sovereign_ai.Prelude.{
  ◌≡◌, refl, Bool, true, false, Bool-cases, List, [], ◌∷◌, some, arith, inl, inr, Elem, ok, >>=-ok,
  map_err,
}
use sovereign_ai.Text.{Bytes, bytes_eq}
use sovereign_ai.Text.Equality.{bytes_eq_sound}
use sovereign_ai.Paths.{normalize_path, split}
use sovereign_ai.Editor.{Node, file, folder, lookup_path, trim_newline, bad_marker}
use sovereign_ai.Editor.Listing.{bytes_lt, add_path, in_excluded, visit, walk, add_markers}

-- The set of paths keeps what it has and gains what is added.
Elem-add_path_own : (p : Bytes) (l : List Bytes) → Elem p (add_path p l)
unfolding add_path
Elem-add_path_own p [] = inl refl
Elem-add_path_own p (q ∷ rest) = elim (Bool-cases (bytes_eq p q)) [
  | inl t ↦ rw t (inl (bytes_eq_sound p q t))
  | inr f ↦ elim (Bool-cases (bytes_lt p q)) [
    | inl t ↦ rw (f, t) (inl refl)
    | inr g ↦ rw (f, g) (inr (Elem-add_path_own p rest))
  ]
]

Elem-add_path : (p q : Bytes) (l : List Bytes) → Elem p l → Elem p (add_path q l)
unfolding add_path
Elem-add_path p q [] m = absurd m
Elem-add_path p q (r ∷ rest) m = elim (Bool-cases (bytes_eq q r)) [
  | inl t ↦ rw t m
  | inr f ↦ elim (Bool-cases (bytes_lt q r)) [
    | inl t ↦ rw (f, t) (inr m)
    | inr g ↦ elim m [
      | inl e ↦ rw (f, g) (inl e)
      | inr later ↦ rw (f, g) (inr (Elem-add_path p q rest later))
    ]
  ]
]

Elem-visit :
    (p path : Bytes) (node : Node) (skipped : Bool) (found : List Bytes)
    → Elem p found
    → Elem p (visit path node skipped found)
Elem-visit p path (file c) false found m = Elem-add_path p path found m
Elem-visit p path (file c) true found m = m
Elem-visit p path folder skipped found m = m

Elem-walk_found :
    (p : Bytes) (files : List (Bytes × Node)) (found : List Bytes)
    → Elem p found
    → Elem p (walk files found)
unfolding walk
Elem-walk_found p [] found m = m
Elem-walk_found p ((path, node) ∷ rest) found m =
    Elem-visit p path node (in_excluded (split path)) (walk rest found)
      (Elem-walk_found p rest found m)

-- A file of the overlay, outside of the excluded directories, is listed.
pub Elem-walk :
    (p c : Bytes) (files : List (Bytes × Node)) (found : List Bytes)
    → in_excluded (split p) ≡ false
    → lookup_path p files ≡ some (file c)
    → Elem p (walk files found)
unfolding walk lookup_path
Elem-walk p c [] found x h = cc
Elem-walk p c ((path, node) ∷ rest) found x h = elim (Bool-cases (bytes_eq p path)) [
  | inl t ↦
      let same = bytes_eq_sound p path t in
      let is : node ≡ file c = ground arith in
      rw (is, ← same, x) (Elem-add_path_own p (walk rest found))
  | inr f ↦
      Elem-visit p path node (in_excluded (split path)) (walk rest found)
        (Elem-walk p c rest found x (rw f at h))
]

pub Elem-add_markers_found :
    (p : Bytes) (markers : List (Bytes × Bytes)) (found paths : List Bytes)
    → add_markers markers found ≡ ok paths
    → Elem p found
    → Elem p paths
unfolding add_markers
Elem-add_markers_found p [] found paths h m =
    let same : found ≡ paths = ground arith in rw (← same) m
Elem-add_markers_found p ((name, content) ∷ rest) found paths h m =
    let (_, _, k) =
      >>=-ok (map_err (λ reason. bad_marker) (normalize_path (trim_newline content))) _ h in
    Elem-add_markers_found p rest (add_path (trim_newline content) found) paths k
      (Elem-add_path p (trim_newline content) found m)

pub Elem-add_markers :
    (name content : Bytes) (markers : List (Bytes × Bytes)) (found paths : List Bytes)
    → add_markers markers found ≡ ok paths
    → lookup_path name markers ≡ some content
    → Elem (trim_newline content) paths
unfolding add_markers lookup_path
Elem-add_markers name content [] found paths h m = cc
Elem-add_markers name content ((n, c) ∷ rest) found paths h m =
    let (_, _, k) = >>=-ok (map_err (λ reason. bad_marker) (normalize_path (trim_newline c))) _ h in
    elim (Bool-cases (bytes_eq name n)) [
      | inl t ↦
          let same : c ≡ content = ground arith in
          Elem-add_markers_found (trim_newline content) rest (add_path (trim_newline c) found) paths
            k (rw same (Elem-add_path_own (trim_newline content) found))
      | inr f ↦
          Elem-add_markers name content rest (add_path (trim_newline c) found) paths k (rw f at m)
    ]
