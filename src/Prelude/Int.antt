-- ===== src/Prelude/Int.antt =====
-- Signed machine integers. A value is an integer; every addition and subtraction of the program is
-- followed by `wrap`, two's complement at the width.
use Prim.Native.Nat.{ℕ, suc, ◌+◌, ◌-◌, ◌%◌, ◌≤◌, ◌<◌}
use mathlib.Core.Path.{◌≡◌}
use mathlib.Core.Logic.{◌↔◌}
use mathlib.Core.Bool.{Bool, true, false}
use native.Mathlib.Omega.{arith}
use sovereign_ai.Prelude.Tests.{ltb, leb, eqb, if◌then◌else◌}

-- `negsuc n` is -(n + 1).
pub data ℤ : Type 0 where
  pos : ℕ → ℤ
  negsuc : ℕ → ℤ

abbrev pub pos_part : ℤ → ℕ
pos_part (pos n) = n
pos_part (negsuc n) = 0

abbrev pub neg_part : ℤ → ℕ
neg_part (pos n) = 0
neg_part (negsuc n) = suc n

abbrev pub sub_ℕ : ℕ → ℕ → ℤ
sub_ℕ a b = if leb b a then pos (a - b) else negsuc (b - a - 1)

infixl 65 ◌+ℤ◌ ◌-ℤ◌
infix 50 ◌≤ℤ◌ ◌<ℤ◌
unfoldable pub ◌+ℤ◌ : ℤ → ℤ → ℤ
a +ℤ b = sub_ℕ (pos_part a + pos_part b) (neg_part a + neg_part b)

unfoldable pub ◌-ℤ◌ : ℤ → ℤ → ℤ
a -ℤ b = sub_ℕ (pos_part a + neg_part b) (neg_part a + pos_part b)

abbrev pub ◌≤ℤ◌ : ℤ → ℤ → Type 0
a ≤ℤ b = pos_part a + neg_part b ≤ pos_part b + neg_part a

abbrev pub ◌<ℤ◌ : ℤ → ℤ → Type 0
a <ℤ b = pos_part a + neg_part b < pos_part b + neg_part a

-- The tests `<`, `<=` and `==` of the program.
abbrev pub ltb_ℤ : ℤ → ℤ → Bool
ltb_ℤ a b = ltb (pos_part a + neg_part b) (pos_part b + neg_part a)

abbrev pub leb_ℤ : ℤ → ℤ → Bool
leb_ℤ a b = leb (pos_part a + neg_part b) (pos_part b + neg_part a)

abbrev pub eqb_ℤ : ℤ → ℤ → Bool
eqb_ℤ (pos a) (pos b) = eqb a b
eqb_ℤ (negsuc a) (negsuc b) = eqb a b
eqb_ℤ (pos a) (negsuc b) = false
eqb_ℤ (negsuc a) (pos b) = false

-- Two's complement: the residue modulo `modulus`, read as negative from `half` on.
abbrev pub residue : ℕ → ℤ → ℕ
residue modulus (pos n) = n % modulus
residue modulus (negsuc n) = modulus - 1 - n % modulus

abbrev pub of_residue : ℕ → ℕ → ℕ → ℤ
of_residue modulus half u = if ltb u half then pos u else negsuc (modulus - 1 - u)

unfoldable pub i32 : ℤ → ℤ
i32 a = of_residue 4294967296 2147483648 (residue 4294967296 a)

unfoldable pub i64 : ℤ → ℤ
i64 a = of_residue 18446744073709551616 9223372036854775808 (residue 18446744073709551616 a)

abbrev pub max_i32 : ℕ
max_i32 = 2147483647

abbrev pub max_i64 : ℕ
max_i64 = 9223372036854775807

-- The values that a width holds.
abbrev pub IsI32 : ℤ → Type 0
IsI32 a = (negsuc max_i32 ≤ℤ a) × (a ≤ℤ pos max_i32)

abbrev pub IsI64 : ℤ → Type 0
IsI64 a = (negsuc max_i64 ≤ℤ a) × (a ≤ℤ pos max_i64)

pub i32_of_IsI32 : (a : ℤ) → IsI32 a → i32 a ≡ a
unfolding i32
i32_of_IsI32 (pos n) h = ground arith
i32_of_IsI32 (negsuc n) h = ground arith

pub i64_of_IsI64 : (a : ℤ) → IsI64 a → i64 a ≡ a
unfolding i64
i64_of_IsI64 (pos n) h = ground arith
i64_of_IsI64 (negsuc n) h = ground arith

pub i32-IsI32 : (a : ℤ) → IsI32 (i32 a)
unfolding i32
i32-IsI32 (pos n) = ground arith
i32-IsI32 (negsuc n) = ground arith

pub eqb_ℤ_iff : (a b : ℤ) → (eqb_ℤ a b ≡ true) ↔ (a ≡ b)
eqb_ℤ_iff (pos a) (pos b) = ground arith
eqb_ℤ_iff (pos a) (negsuc b) = ground arith
eqb_ℤ_iff (negsuc a) (pos b) = ground arith
eqb_ℤ_iff (negsuc a) (negsuc b) = ground arith

-- One lemma for each operation lets `omega` work with the operations shut.
pub +ℤ_parts :
    (a b : ℤ)
    → pos_part (a +ℤ b) + neg_part a + neg_part b ≡ neg_part (a +ℤ b) + pos_part a + pos_part b
unfolding ◌+ℤ◌
+ℤ_parts a b = ground arith

pub -ℤ_parts :
    (a b : ℤ)
    → pos_part (a -ℤ b) + neg_part a + pos_part b ≡ neg_part (a -ℤ b) + pos_part a + neg_part b
unfolding ◌-ℤ◌
-ℤ_parts a b = ground arith

pub eq_of_parts : (a b : ℤ) → pos_part a + neg_part b ≡ pos_part b + neg_part a → a ≡ b
eq_of_parts a b h = ground arith

pub ruleset int_laws = (arith, +ℤ_parts, -ℤ_parts, eq_of_parts)
