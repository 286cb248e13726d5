-- ===== src/Editor/Patch.antt =====
-- Changes of internal/workspaceeditor/editor.go: what it lists is the difference between the
-- checkout and the view.
use mathlib.Core.Path.{subst}
use sovereign_ai.Prelude.{
  ◌≡◌, refl, false, Bool-cases, List, [], ◌∷◌, Option, none, some, ap, sym, ◌∙◌, arith, inl, inr,
  ◌≢◌, ◌⊎◌, All, Elem, ok, >>=-ok, if◌then◌else◌,
}
use sovereign_ai.Prelude.Int.{pos}
use sovereign_ai.Text.{Bytes, bytes_eq}
use sovereign_ai.Text.Equality.{bytes_eq-ne, bytes_eq_sound}
use sovereign_ai.Editor.{Editor, Overlay, overlay_stat, deleted, limit, read_at}
use sovereign_ai.Editor.View.{view, over, content_at, stat_of, digest_of, read_at-stat}
use sovereign_ai.Editor.Listing.{ChangedFile, new_content, change_of, with_change, list_changes}

-- The content that the listed changes leave at a path of the checkout.
abbrev pub patched : Editor → List ChangedFile → Bytes → Option Bytes
patched e [] p = content_at (e.base p)
patched e (changed ∷ rest) p =
    let later = patched e rest p in
    if bytes_eq changed.path p then changed.result_content else later

new_content-over :
    (old overlaid : Option Bytes)
    → new_content false old overlaid ≡ over (stat_of overlaid) (stat_of old)
new_content-over none none = refl
new_content-over (some c) none = refl
new_content-over old (some c) = refl

-- What a path holds before and after.
module _ (e : Editor) (o : Overlay) (path : Bytes) where
  new_content-view :
      (old overlaid : Option Bytes)
      → e.base path ≡ stat_of old
      → overlay_stat o.files path ≡ stat_of overlaid
      → new_content (deleted e o path) old overlaid ≡ view e o path
  new_content-view old overlaid b s = elim (Bool-cases (deleted e o path)) [
    | inl t ↦ rw t refl
    | inr f ↦ rw (f, b, s) (new_content-over old overlaid)
  ]

-- What a record says of a path whose content before and after is given.
abbrev pub IsChange : Editor → Bytes → Option Bytes → Option Bytes → ChangedFile → Type 0
IsChange e path old new changed =
    (changed.path ≡ path)
    × (changed.base_digest ≡ digest_of e old)
    × (changed.result_content ≡ new)
    × (old ≢ new)

change_of-some :
    (e : Editor) (path : Bytes) (old new : Option Bytes) (changed : ChangedFile)
    → change_of e path old new ≡ some changed
    → IsChange e path old new changed
unfolding change_of
change_of-some e path none none changed h = cc
change_of-some e path none (some new) changed h =
    (ground arith, ground arith, ground arith, λ s. cc)
change_of-some e path (some old) none changed h =
    (ground arith, ground arith, ground arith, λ s. cc)
change_of-some e path (some old) (some new) changed h = elim (Bool-cases (bytes_eq old new)) [
  | inl t ↦ absurd (ground arith)
  | inr f ↦
      let ne = bytes_eq-ne old new f in
      (ground arith, ground arith, ground arith, λ s. ne (ground arith))
]

change_of-none :
    (e : Editor) (path : Bytes) (old new : Option Bytes)
    → change_of e path old new ≡ none
    → old ≡ new
unfolding change_of
change_of-none e path none none h = refl
change_of-none e path none (some new) h = cc
change_of-none e path (some old) none h = cc
change_of-none e path (some old) (some new) h = elim (Bool-cases (bytes_eq old new)) [
  | inl t ↦ ap some (bytes_eq_sound old new t)
  | inr f ↦ absurd (ground arith)
]

-- Either the changes give the view at `p`, or `p` was not looked at and keeps the base's content.
abbrev pub Covers : Editor → Overlay → List ChangedFile → List Bytes → Bytes → Type 0
Covers e o files paths p =
    (patched e files p ≡ view e o p)
    ⊎ (¬ Elem p paths × (patched e files p ≡ content_at (e.base p)))

content_at-stat_of : (found : Option Bytes) → content_at (stat_of found) ≡ found
content_at-stat_of none = refl
content_at-stat_of (some c) = refl

module _ (e : Editor) (o : Overlay) (p : Bytes) (path : Bytes) (rest : List Bytes)
    (old new : Option Bytes) (b : content_at (e.base path) ≡ old) (n : new ≡ view e o path) where
  keep-Covers :
      (change : Option ChangedFile) (files : List ChangedFile)
      → change_of e path old new ≡ change
      → Covers e o files rest p
      → Covers e o (with_change change files) (path ∷ rest) p
  keep-Covers none files h (inl same) = inl same
  keep-Covers none files h (inr (unlisted, same)) = elim (Bool-cases (bytes_eq path p)) [
    | inl t ↦
        let is = bytes_eq_sound path p t in
        let unchanged = change_of-none e path old new h in
        inl (same ∙ rw (← is) (b ∙ unchanged ∙ n))
    | inr f ↦
        inr ((λ m. elim m [ inl s ↦ bytes_eq-ne path p f (sym s) | inr l ↦ unlisted l ]), same)
  ]
  keep-Covers (some changed) files h covers =
      let (own_path, _, result, _) = change_of-some e path old new changed h in
      elim (Bool-cases (bytes_eq path p)) [
        | inl t ↦
            let is = bytes_eq_sound path p t in
            inl (rw (own_path, t) (result ∙ n ∙ ap (λ q. view e o q) is))
        | inr f ↦ elim covers [
          | inl same ↦ inl (rw (own_path, f) same)
          | inr (unlisted, same) ↦ inr (
            (λ m. elim m [ inl s ↦ bytes_eq-ne path p f (sym s) | inr l ↦ unlisted l ]),
            rw (own_path, f) same,
          )
        ]
      ]

-- The parts of a listing that succeeded.
module _ (e : Editor) (o : Overlay) (path : Bytes) (rest : List Bytes)
    (files : List ChangedFile) where
  list_changes_parts :
      list_changes e o (path ∷ rest) ≡ ok files
      → (later : List ChangedFile) × (list_changes e o rest ≡ ok later)
        × (files ≡ with_change (change_of e path (content_at (e.base path)) (view e o path)) later)
  unfolding list_changes
  list_changes_parts h =
      let (old, a, h) = >>=-ok (read_at (e.base path) (limit e (pos 0))) _ h in
      let (overlaid, b, h) = >>=-ok (read_at (overlay_stat o.files path) (limit e (pos 0))) _ h in
      let (later, c, h) = >>=-ok (list_changes e o rest) _ h in
      let base_stat = read_at-stat (e.base path) (limit e (pos 0)) old a in
      let new_stat = read_at-stat (overlay_stat o.files path) (limit e (pos 0)) overlaid b in
      let before : content_at (e.base path) ≡ old =
        ap content_at base_stat ∙ content_at-stat_of old in
      let after = new_content-view e o path old overlaid base_stat new_stat in
      (later, c, rw (before, ← after) (ground arith))

list_changes_nil :
    (e : Editor) (o : Overlay) (files : List ChangedFile)
    → list_changes e o [] ≡ ok files
    → files ≡ []
unfolding list_changes
list_changes_nil e o files h = ground arith

pub list_changes-Covers :
    (e : Editor) (o : Overlay) (p : Bytes) (paths : List Bytes) (files : List ChangedFile)
    → list_changes e o paths ≡ ok files
    → Covers e o files paths p
list_changes-Covers e o p [] files h = rw (list_changes_nil e o files h) (inr ((λ m. m), refl))
list_changes-Covers e o p (path ∷ rest) files h =
    let (later, c, is) = list_changes_parts e o path rest files h in
    rw is (
      keep-Covers e o p path rest (content_at (e.base path)) (view e o path) refl refl
        (change_of e path (content_at (e.base path)) (view e o path)) later refl
        (list_changes-Covers e o p rest later c))

-- A record of the listing names the content of the checkout and of the view, which differ.
abbrev pub IsRecord : Editor → Overlay → ChangedFile → Type 0
IsRecord e o changed =
    IsChange e changed.path (content_at (e.base changed.path)) (view e o changed.path) changed

keep-IsRecord :
    (e : Editor) (o : Overlay) (path : Bytes) (change : Option ChangedFile)
    (later : List ChangedFile)
    → change_of e path (content_at (e.base path)) (view e o path) ≡ change
    → All (IsRecord e o) later
    → All (IsRecord e o) (with_change change later)
keep-IsRecord e o path none later h l = l
keep-IsRecord e o path (some changed) later h l =
    let (own, base_digest, result, differ) =
      change_of-some e path (content_at (e.base path)) (view e o path) changed h in
    (
      subst (λ q. IsChange e q (content_at (e.base q)) (view e o q) changed) (sym own)
          (own, base_digest, result, differ),
      l,
    )

pub list_changes-IsRecord :
    (e : Editor) (o : Overlay) (paths : List Bytes) (files : List ChangedFile)
    → list_changes e o paths ≡ ok files
    → All (IsRecord e o) files
list_changes-IsRecord e o [] files h = rw (list_changes_nil e o files h) tt
list_changes-IsRecord e o (path ∷ rest) files h =
    let (later, c, is) = list_changes_parts e o path rest files h in
    rw is (
      keep-IsRecord e o path (change_of e path (content_at (e.base path)) (view e o path)) later
        refl (list_changes-IsRecord e o rest later c))
