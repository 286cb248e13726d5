-- ===== src/Editor/View.antt =====
-- What the editor promises: a finite map from paths to contents, which Read shows and which Write
-- and Delete change at one path.
use sovereign_ai.Prelude.{
  ℕ, ◌≡◌, refl, Bool, true, false, Bool-cases, Option, none, some, arith, inl, inr, ◌≢◌, Elem,
  Result, ok, err, >>=-ok, >>=-err, length, not, ◌||◌, ltb, if◌then◌else◌,
}
use sovereign_ai.Text.{contains_byte, valid_utf8, Bytes}
use sovereign_ai.Editor.{
  Editor, Overlay, File, EditError, too_large, not_text, not_exist, Stat, absent, regular,
  ancestors, overlay_stat, deleted, read_at, read_relative, or_base, or_missing, new_file,
  content_digest, absent_digest,
}

abbrev pub content_at : Stat → Option Bytes
content_at (regular c) = some c
content_at _ = none

abbrev pub over : Stat → Stat → Option Bytes
over absent below = content_at below
over (regular c) below = some c
over _ below = none

-- The text at a path: none if it is marked as deleted, else the overlay's, else the checkout's.
abbrev pub view : Editor → Overlay → Bytes → Option Bytes
view e o path = if deleted e o path then none else over (overlay_stat o.files path) (e.base path)

-- The digest by which a caller names the present content.
abbrev pub digest_of : Editor → Option Bytes → Bytes
digest_of e none = absent_digest
digest_of e (some content) = content_digest e content

-- Neither path is the other, a directory of it or below it.
abbrev pub Apart : Bytes → Bytes → Type 0
Apart p q = (q ≢ p) × ¬ Elem q (ancestors p) × ¬ Elem p (ancestors q)

-- No two names have the same hash.
abbrev pub IsInjective : (Bytes → Bytes) → Type 0
IsInjective hash = (a b : Bytes) → hash a ≡ hash b → a ≡ b

abbrev pub stat_of : Option Bytes → Stat
stat_of none = absent
stat_of (some c) = regular c

accepted_text :
    (large other : Bool) (c : Bytes) (found : Option Bytes)
    → ◌≡◌ {A = Result EditError (Option Bytes)}
        (if large then err too_large else if other then err not_text else ok (some c))
        (ok found)
    → regular c ≡ stat_of found
accepted_text true other c found h = cc
accepted_text false true c found h = cc
accepted_text false false c none h = cc
accepted_text false false c (some d) h = ground arith

-- Where readAt finds a text, and where it finds nothing.
pub read_at-stat :
    (s : Stat) (most : ℕ) (found : Option Bytes) → read_at s most ≡ ok found → s ≡ stat_of found
unfolding read_at
read_at-stat (regular c) most found h =
    accepted_text (ltb most (length c)) (not (valid_utf8 c) || contains_byte 0 c) c found h
read_at-stat absent most none h = refl
read_at-stat absent most (some c) h = cc
read_at-stat _ most found h = cc

or_missing-view :
    (e : Editor) (relative : Bytes) (found : Option Bytes) (f : File)
    → or_missing e relative found ≡ ok f
    → (content_at (stat_of found) ≡ some f.content)
      × (f.digest ≡ content_digest e f.content)
      × (f.path ≡ relative)
      × (f.bytes ≡ length f.content)
unfolding new_file
or_missing-view e relative none f h = cc
or_missing-view e relative (some c) f h = (ground arith, ground arith, ground arith, ground arith)

or_base-view :
    (e : Editor) (relative : Bytes) (most : ℕ) (found : Option Bytes) (f : File)
    → or_base e relative most found ≡ ok f
    → (over (stat_of found) (e.base relative) ≡ some f.content)
      × (f.digest ≡ content_digest e f.content)
      × (f.path ≡ relative)
      × (f.bytes ≡ length f.content)
unfolding new_file
or_base-view e relative most (some c) f h = (ground arith, ground arith, ground arith, ground arith)
or_base-view e relative most none f h =
    let (found, r, k) = >>=-ok (read_at (e.base relative) most) _ h in
    let (content, same_digest, same_path, same_bytes) = or_missing-view e relative found f k in
    (rw (read_at-stat (e.base relative) most found r) content, same_digest, same_path, same_bytes)

-- What Read returns is the view, with the digest that names it; what it reports as missing is not
-- in the view.
module _ (e : Editor) (o : Overlay) (relative : Bytes) (most : ℕ) where
  pub read_relative-view :
      (f : File)
      → read_relative e o relative most ≡ ok f
      → (view e o relative ≡ some f.content)
        × (f.digest ≡ content_digest e f.content)
        × (f.path ≡ relative)
        × (f.bytes ≡ length f.content)
  unfolding read_relative
  read_relative-view f h = elim (Bool-cases (deleted e o relative)) [
    | inl t ↦ absurd (ground arith)
    | inr g ↦
        let (found, r, k) = >>=-ok (read_at (overlay_stat o.files relative) most) _ (rw g at h) in
        rw (g, read_at-stat _ most found r) (or_base-view e relative most found f k)
  ]

text_refused :
    (large other : Bool) (c : Bytes)
    → ◌≢◌ {A = Result EditError (Option Bytes)}
        (if large then err too_large else if other then err not_text else ok (some c))
        (err not_exist)
text_refused true other c h = cc
text_refused false true c h = cc
text_refused false false c h = cc

read_at-ne : (s : Stat) (most : ℕ) → read_at s most ≢ err not_exist
unfolding read_at
read_at-ne (regular c) most h =
    text_refused (ltb most (length c)) (not (valid_utf8 c) || contains_byte 0 c) c h
read_at-ne _ most h = cc

or_missing-none :
    (e : Editor) (relative : Bytes) (found : Option Bytes)
    → or_missing e relative found ≡ err not_exist
    → content_at (stat_of found) ≡ none
or_missing-none e relative none h = refl
or_missing-none e relative (some c) h = cc

or_base-none :
    (e : Editor) (relative : Bytes) (most : ℕ) (found : Option Bytes)
    → or_base e relative most found ≡ err not_exist
    → over (stat_of found) (e.base relative) ≡ none
or_base-none e relative most (some c) h = cc
or_base-none e relative most none h = elim (>>=-err (read_at (e.base relative) most) _ h) [
  | inl r ↦ absurd (read_at-ne (e.base relative) most r)
  | inr (found, r, k) ↦
      rw (read_at-stat (e.base relative) most found r) (or_missing-none e relative found k)
]

pub read_relative-missing :
    (e : Editor) (o : Overlay) (relative : Bytes) (most : ℕ)
    → read_relative e o relative most ≡ err not_exist
    → view e o relative ≡ none
unfolding read_relative
read_relative-missing e o relative most h = elim (Bool-cases (deleted e o relative)) [
  | inl t ↦ rw t refl
  | inr g ↦ elim (>>=-err (read_at (overlay_stat o.files relative) most) _ (rw g at h)) [
    | inl r ↦ absurd (read_at-ne (overlay_stat o.files relative) most r)
    | inr (found, r, k) ↦
        rw (g, read_at-stat (overlay_stat o.files relative) most found r)
          (or_base-none e relative most found k)
  ]
]
