-- ===== src/Paths.antt =====
-- Repository paths: normalizePath of internal/workspaceeditor/editor.go, with Go's path/filepath on
-- Unix, where FromSlash and ToSlash change nothing.
use sovereign_ai.Prelude.{
  ℕ, zero, suc, ◌≡◌, Bool, true, false, not, ◌&&◌, ◌||◌, List, [], ◌∷◌, ◌++◌, Result, ok, err, leb,
  eqb, any, if◌then◌else◌,
}
use sovereign_ai.Text.{Bytes, bytes_eq, contains_byte, has_prefix}
use mathlib.Core.List.{reverse}
pub mod Segments
pub mod Cleaning
pub mod Again
pub mod Normal

abbrev pub slash : ℕ
slash = b'/'

abbrev pub dot : Bytes
dot = b'.' ∷ []

abbrev pub dot_dot : Bytes
dot_dot = b'.' ∷ b'.' ∷ []

-- Puts a byte before the first of a list of segments.
abbrev pub onto_first : ℕ → List Bytes → List Bytes
onto_first b [] = (b ∷ []) ∷ []
onto_first b (s ∷ rest) = (b ∷ s) ∷ rest

-- `strings.Split(path, "/")`.
unfoldable pub split : Bytes → List Bytes
split [] = [] ∷ []
split (b ∷ s) = let rest = split s in if eqb b slash then [] ∷ rest else onto_first b rest

-- `strings.Join(segments, "/")`.
unfoldable pub join : List Bytes → Bytes
join [] = []
join (s ∷ []) = s
join (s ∷ t ∷ rest) = s ++ slash ∷ join (t ∷ rest)

-- The output of filepath.Clean so far, last segment first, after a segment "..".
unfoldable pub pop_segment : List Bytes → List Bytes
pop_segment [] = dot_dot ∷ []
pop_segment (top ∷ rest) = if bytes_eq top dot_dot then dot_dot ∷ top ∷ rest else rest

unfoldable pub clean_segment : Bytes → List Bytes → List Bytes
unfolding pop_segment
clean_segment s out =
    if bytes_eq s [] || bytes_eq s dot
    then out
    else if bytes_eq s dot_dot
    then pop_segment out
    else s ∷ out

unfoldable pub clean_segments : List Bytes → List Bytes → List Bytes
unfolding clean_segment
clean_segments [] out = reverse out
clean_segments (s ∷ rest) out = clean_segments rest (clean_segment s out)

abbrev pub or_dot : List Bytes → Bytes
or_dot [] = dot
or_dot (s ∷ rest) = join (s ∷ rest)

-- `filepath.Clean` of a relative path.
unfoldable pub clean : Bytes → Bytes
unfolding split join clean_segments
clean path = or_dot (clean_segments (split path) [])

-- The first rune is white space (`unicode.IsSpace`) of so many bytes; 0 if it is not.
unfoldable pub space_width : Bytes → ℕ
space_width (b ∷ []) = if (leb 9 b && leb b 13) || eqb b 32 then 1 else 0
space_width (b ∷ c ∷ []) =
    if (leb 9 b && leb b 13) || eqb b 32
    then 1
    else if eqb b 194 && (eqb c 133 || eqb c 160)
    then 2
    else 0
space_width (b ∷ c ∷ d ∷ s) =
    if (leb 9 b && leb b 13) || eqb b 32
    then 1
    else if eqb b 194 && (eqb c 133 || eqb c 160)
    then 2
    else if (eqb b 225 && eqb c 154 && eqb d 128)
        || (eqb b 226
            && ((eqb c 128 && ((leb 128 d && leb d 138) || eqb d 168 || eqb d 169 || eqb d 175))
                || (eqb c 129 && eqb d 159)))
        || (eqb b 227 && eqb c 128 && eqb d 128)
    then 3
    else 0
space_width [] = 0

-- `strings.TrimSpace(path) == ""`: the path is white space, where `skip` bytes of it are read.
unfoldable pub blank_from : ℕ → Bytes → Bool
unfolding space_width
blank_from skip [] = true
blank_from (suc skip) (b ∷ s) = blank_from skip s
blank_from zero (b ∷ s) = elim (space_width (b ∷ s)) [ zero ↦ false | suc rest ↦ blank_from rest s ]

unfoldable pub is_blank : Bytes → Bool
unfolding blank_from
is_blank path = blank_from zero path

abbrev pub git : Bytes
git = b'.' ∷ b'g' ∷ b'i' ∷ b't' ∷ []

abbrev pub sovereign : Bytes
sovereign = b'.' ∷ b's' ∷ b'o' ∷ b'v' ∷ b'e' ∷ b'r' ∷ b'e' ∷ b'i' ∷ b'g' ∷ b'n' ∷ []

abbrev pub attempts : Bytes
attempts = b'a' ∷ b't' ∷ b't' ∷ b'e' ∷ b'm' ∷ b'p' ∷ b't' ∷ b's' ∷ []

unfoldable pub is_reserved : Bytes → Bool
is_reserved part = bytes_eq part git || bytes_eq part sovereign || bytes_eq part attempts

pub data PathError : Type 0 where
  not_relative escapes reserved : PathError

unfoldable pub normalize_path : Bytes → Result PathError Bytes
unfolding is_blank contains_byte clean has_prefix split is_reserved
normalize_path path =
    if is_blank path || has_prefix (slash ∷ []) path || contains_byte 0 path
    then err not_relative
    else let cleaned : Bytes = clean path in
      if bytes_eq cleaned dot
        || bytes_eq cleaned dot_dot
        || has_prefix (b'.' ∷ b'.' ∷ slash ∷ []) cleaned
      then err escapes
      else if any is_reserved (split cleaned)
      then err reserved
      else ok cleaned
