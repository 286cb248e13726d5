-- ===== src/Text.antt =====
-- The byte strings of internal/workspaceeditor/editor.go: the functions of Go's `strings` and `utf8`
-- that the editor calls, and its line endings.
use sovereign_ai.Prelude.{
  ℕ, zero, suc, ◌+◌, ◌-◌, ◌≡◌, Bool, true, false, not, ◌&&◌, ◌||◌, List, [], ◌∷◌, ◌++◌, Option,
  none, some, Result, ok, err, length, leb, eqb, ltb, any, if◌then◌else◌,
}
pub mod Endings
pub mod Equality

-- A Go string or byte slice; a byte is a number below 256.
abbrev pub Bytes : Type 0
Bytes = List ℕ

unfoldable pub bytes_eq : Bytes → Bytes → Bool
bytes_eq [] [] = true
bytes_eq (a ∷ s) (b ∷ t) = eqb a b && bytes_eq s t
bytes_eq _ _ = false

-- `strings.HasPrefix`, with the prefix first.
unfoldable pub has_prefix : Bytes → Bytes → Bool
has_prefix [] s = true
has_prefix (a ∷ p) [] = false
has_prefix (a ∷ p) (b ∷ s) = eqb a b && has_prefix p s

-- `strings.ContainsRune` and `bytes.IndexByte(…) >= 0` of an ASCII character.
unfoldable pub contains_byte : ℕ → Bytes → Bool
contains_byte c s = any (λ b. eqb b c) s

-- What is left of the number of replacements; `none` is Go's -1, no limit.
abbrev pub has_budget : Option ℕ → Bool
has_budget none = true
has_budget (some n) = ltb 0 n

abbrev pub spend : Option ℕ → Option ℕ
spend none = none
spend (some n) = some (n - 1)

-- `strings.Replace` of a non-empty text: left to right and without overlap. The fourth argument
-- counts the bytes still to skip of the occurrence that was replaced last.
unfoldable pub replace_from : Bytes → Bytes → Option ℕ → ℕ → Bytes → Bytes
unfolding has_prefix
replace_from old new n skip [] = []
replace_from old new n (suc skip) (b ∷ s) = replace_from old new n skip s
replace_from old new n zero (b ∷ s) = elim (has_budget n && has_prefix old (b ∷ s)) [
  | true ↦ new ++ replace_from old new (spend n) (length old - 1) s
  | false ↦ b ∷ replace_from old new n zero s
]

unfoldable pub replace_all : Bytes → Bytes → Bytes → Bytes
unfolding replace_from
replace_all old new s = replace_from old new none zero s

unfoldable pub replace : Bytes → Bytes → ℕ → Bytes → Bytes
unfolding replace_from
replace old new n s = replace_from old new (some n) zero s

-- `strings.Count` of a non-empty text.
unfoldable pub count_from : Bytes → ℕ → Bytes → ℕ
unfolding has_prefix
count_from old skip [] = 0
count_from old (suc skip) (b ∷ s) = count_from old skip s
count_from old zero (b ∷ s) = elim (has_prefix old (b ∷ s)) [
  | true ↦ suc (count_from old (length old - 1) s)
  | false ↦ count_from old zero s
]

unfoldable pub count : Bytes → Bytes → ℕ
unfolding count_from
count old s = count_from old zero s

-- `strings.Contains` of a non-empty text.
unfoldable pub contains_text : Bytes → Bytes → Bool
unfolding has_prefix
contains_text old [] = false
contains_text old (b ∷ s) = has_prefix old (b ∷ s) || contains_text old s

-- What follows the first byte of a rune: how many bytes, and the range of the next one.
pub record Continuation : Type 0 where
  pub needed : ℕ
  pub low : ℕ
  pub high : ℕ

abbrev within : ℕ → ℕ → ℕ → Bool
within low high b = leb low b && leb b high

-- The first bytes of UTF-8; `none` for a byte that begins no rune.
unfoldable pub start_rune : ℕ → Option Continuation
start_rune b =
    if leb b 127
    then some (record { needed = 0; low = 128; high = 191 })
    else if within 194 223 b
    then some (record { needed = 1; low = 128; high = 191 })
    else if eqb b 224
    then some (record { needed = 2; low = 160; high = 191 })
    else if eqb b 237
    then some (record { needed = 2; low = 128; high = 159 })
    else if within 225 239 b
    then some (record { needed = 2; low = 128; high = 191 })
    else if eqb b 240
    then some (record { needed = 3; low = 144; high = 191 })
    else if within 241 243 b
    then some (record { needed = 3; low = 128; high = 191 })
    else if eqb b 244
    then some (record { needed = 3; low = 128; high = 143 })
    else none

-- `utf8.Valid`, inside a rune of which `needed` bytes are to come.
unfoldable pub valid_from : ℕ → ℕ → ℕ → Bytes → Bool
unfolding start_rune
valid_from zero low high [] = true
valid_from (suc needed) low high [] = false
valid_from (suc needed) low high (b ∷ s) = within low high b && valid_from needed 128 191 s
valid_from zero low high (b ∷ s) = elim (start_rune b) [
  | none ↦ false
  | some next ↦ valid_from next.needed next.low next.high s
]

unfoldable pub valid_utf8 : Bytes → Bool
unfolding valid_from
valid_utf8 s = valid_from zero 0 0 s

abbrev pub cr : ℕ
cr = 13

abbrev pub lf : ℕ
lf = 10

abbrev pub crlf : Bytes
crlf = cr ∷ lf ∷ []

unfoldable pub normalize_line_endings : Bytes → Bytes
unfolding replace_all
normalize_line_endings value =
    let value : Bytes = replace_all crlf (lf ∷ []) value in replace_all (cr ∷ []) (lf ∷ []) value

pub data LineEnding : Type 0 where
  unix windows : LineEnding

pub data EndingError : Type 0 where
  inconsistent : EndingError

unfoldable pub detect_line_ending : Bytes → Result EndingError LineEnding
unfolding replace_all contains_byte contains_text
detect_line_ending value =
    let without_crlf : Bytes = replace_all crlf [] value in
    if contains_byte cr without_crlf
    then err inconsistent
    else if contains_text crlf value
    then (if contains_byte lf without_crlf then err inconsistent else ok windows)
    else ok unix

-- `Write`: a normalized text gets the line endings of the file that it replaces.
unfoldable pub restore_line_endings : LineEnding → Bytes → Bytes
unfolding replace_all
restore_line_endings unix normalized = normalized
restore_line_endings windows normalized = replace_all (lf ∷ []) crlf normalized
