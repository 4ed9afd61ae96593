-- ===== src/Common/Int.antt =====
-- Signed integers over the native numbers: the values of an i128 and Rust's operators on them.
-- The checked operations of the contracts test `in_i128` on the exact result.
use Prim.Native.Nat.{ℕ, zero, suc, ◌+◌, ◌-◌, ◌*◌, ◌/◌, ◌%◌, ◌^◌, ◌≤◌}
use mathlib.Core.Path.{◌≡◌, ap}
use mathlib.Core.Bool.{Bool, ◌&&◌}
use native.Mathlib.Omega.{arith}
use helix_mongolian_spring.Common.Tests.{ltb, leb, ◌==◌, if◌then◌else◌}

-- `negsuc n` is -(n + 1).
pub data ℤ : Type 0 where
  pos : ℕ → ℤ
  negsuc : ℕ → ℤ

abbrev pub pos_part : ℤ → ℕ
pos_part (pos n) = n
pos_part (negsuc n) = 0

abbrev pub neg_part : ℤ → ℕ
neg_part (pos n) = 0
neg_part (negsuc n) = suc n

-- -n
abbrev pub neg : ℕ → ℤ
neg zero = pos 0
neg (suc n) = negsuc n

-- a - b, as an integer.
abbrev pub sub_ℕ : ℕ → ℕ → ℤ
sub_ℕ a b = if leb b a then pos (a - b) else negsuc (b - a - 1)

infixl 65 ◌+ℤ◌ ◌-ℤ◌
infixl 70 ◌*ℤ◌ ◌/ℤ◌ ◌%ℤ◌
infix 50 ◌≤ℤ◌ ◌<ℤ◌
unfoldable pub ◌+ℤ◌ : ℤ → ℤ → ℤ
a +ℤ b = sub_ℕ (pos_part a + pos_part b) (neg_part a + neg_part b)

unfoldable pub ◌-ℤ◌ : ℤ → ℤ → ℤ
a -ℤ b = sub_ℕ (pos_part a + neg_part b) (neg_part a + pos_part b)

unfoldable pub ◌*ℤ◌ : ℤ → ℤ → ℤ
pos a *ℤ pos b = pos (a * b)
pos a *ℤ negsuc b = neg (a * suc b)
negsuc a *ℤ pos b = neg (suc a * b)
negsuc a *ℤ negsuc b = pos (suc a * suc b)

-- Rust's `/` truncates towards zero. (It panics at 0, which every caller excludes.)
unfoldable pub ◌/ℤ◌ : ℤ → ℤ → ℤ
pos a /ℤ pos b = pos (a / b)
pos a /ℤ negsuc b = neg (a / suc b)
negsuc a /ℤ pos b = neg (suc a / b)
negsuc a /ℤ negsuc b = pos (suc a / suc b)

-- Rust's `%` has the sign of the dividend.
unfoldable pub ◌%ℤ◌ : ℤ → ℤ → ℤ
pos a %ℤ pos b = pos (a % b)
pos a %ℤ negsuc b = pos (a % suc b)
negsuc a %ℤ pos b = neg (suc a % b)
negsuc a %ℤ negsuc b = neg (suc a % suc b)

abbrev pub ◌≤ℤ◌ : ℤ → ℤ → Type 0
a ≤ℤ b = pos_part a + neg_part b ≤ pos_part b + neg_part a

abbrev pub ◌<ℤ◌ : ℤ → ℤ → Type 0
a <ℤ b = suc (pos_part a + neg_part b) ≤ pos_part b + neg_part a

abbrev pub ltb_ℤ : ℤ → ℤ → Bool
ltb_ℤ a b = ltb (pos_part a + neg_part b) (pos_part b + neg_part a)

abbrev pub leb_ℤ : ℤ → ℤ → Bool
leb_ℤ a b = leb (pos_part a + neg_part b) (pos_part b + neg_part a)

abbrev pub eqb_ℤ : ℤ → ℤ → Bool
eqb_ℤ a b = (pos_part a + neg_part b) == (pos_part b + neg_part a)

-- `i128::MAX`
abbrev pub i128_max : ℕ
i128_max = 2 ^ 127 - 1

-- The value is representable: -2^127 ≤ a ≤ 2^127 - 1.
unfoldable pub in_i128 : ℤ → Bool
in_i128 a = leb (pos_part a) i128_max && leb (neg_part a) (i128_max + 1)

-- One lemma for each operation lets `omega` work with the operations shut.
pub +ℤ_parts :
    (a b : ℤ)
    → pos_part (a +ℤ b) + neg_part a + neg_part b ≡ neg_part (a +ℤ b) + pos_part a + pos_part b
unfolding ◌+ℤ◌
+ℤ_parts a b = ground arith

pub -ℤ_parts :
    (a b : ℤ)
    → pos_part (a -ℤ b) + neg_part a + pos_part b ≡ neg_part (a -ℤ b) + pos_part a + neg_part b
unfolding ◌-ℤ◌
-ℤ_parts a b = ground arith

pub eq_of_parts : (a b : ℤ) → pos_part a + neg_part b ≡ pos_part b + neg_part a → a ≡ b
eq_of_parts a b h = ground arith

pub ruleset int_laws = (arith, +ℤ_parts, -ℤ_parts, eq_of_parts)

pub +ℤ_extend : (w a b c d : ℤ) → a +ℤ b ≡ c +ℤ d → w +ℤ a +ℤ b ≡ w +ℤ c +ℤ d
+ℤ_extend w a b c d e = omega (int_laws, ap pos_part e, ap neg_part e)

pub +ℤ_cancel_right : (a b w : ℤ) → a +ℤ w ≡ b +ℤ w → a ≡ b
+ℤ_cancel_right a b w e = omega (int_laws, ap pos_part e, ap neg_part e)

abbrev pub neg_ℤ : ℤ → ℤ
neg_ℤ (pos n) = neg n
neg_ℤ (negsuc n) = pos (suc n)

neg_parts : (n : ℕ) → (pos_part (neg n) ≡ 0) × (neg_part (neg n) ≡ n)
neg_parts zero = omega arith
neg_parts (suc n) = omega arith

pub neg_ℤ_parts : (a : ℤ) → pos_part (neg_ℤ a) + pos_part a ≡ neg_part (neg_ℤ a) + neg_part a
neg_ℤ_parts (pos n) = omega (arith, neg_parts n)
neg_ℤ_parts (negsuc n) = omega arith

pub +ℤ_zero : (a : ℤ) → a +ℤ pos 0 ≡ a
+ℤ_zero a = omega int_laws

pub -ℤ_neg : (a b : ℤ) → a +ℤ neg_ℤ b ≡ a -ℤ b
-ℤ_neg a b = omega (int_laws, neg_ℤ_parts b)

-- A sum in which one term `old` is replaced by `new`.
pub replace_term_eq : (s s' old new d : ℤ) → s' +ℤ old ≡ s +ℤ new → new ≡ old +ℤ d → s' ≡ s +ℤ d
replace_term_eq s s' old new d e f =
    omega (int_laws, ap pos_part e, ap neg_part e, ap pos_part f, ap neg_part f)

pub replace_term_le :
    (s s' old new b c : ℤ) → s' +ℤ old ≡ s +ℤ new → old +ℤ b ≤ℤ new → c ≤ℤ s → c +ℤ b ≤ℤ s'
replace_term_le s s' old new b c e h k = omega (int_laws, ap pos_part e, ap neg_part e)

-- A product and a quotient of values that are not negative is not negative.
pub *ℤ_nonneg : (a b : ℤ) → pos 0 ≤ℤ a → pos 0 ≤ℤ b → pos 0 ≤ℤ a *ℤ b
unfolding ◌*ℤ◌
*ℤ_nonneg (pos a) (pos b) h k = omega arith
*ℤ_nonneg (pos a) (negsuc b) h k = absurd (omega arith)
*ℤ_nonneg (negsuc a) b h k = absurd (omega arith)

pub /ℤ_nonneg : (a b : ℤ) → pos 0 ≤ℤ a → pos 0 ≤ℤ b → pos 0 ≤ℤ a /ℤ b
unfolding ◌/ℤ◌
/ℤ_nonneg (pos a) (pos b) h k = omega arith
/ℤ_nonneg (pos a) (negsuc b) h k = absurd (omega arith)
/ℤ_nonneg (negsuc a) b h k = absurd (omega arith)
