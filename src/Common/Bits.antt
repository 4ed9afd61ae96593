-- ===== src/Common/Bits.antt =====
-- The exclusive or of two numbers, digit by digit.
use Prim.Native.Nat.{
  ℕ, zero, suc, ◌+◌, ◌*◌, ◌/◌, ◌%◌, ◌≤◌, ◌<◌, bit_xor, digits, differ, bit_xor-bitwise,
}
use mathlib.Core.Path.{◌≡◌, refl, ap, ◌∙◌}
use native.Mathlib.Omega.{arith}

abbrev from_lowest : ℕ → ℕ → ℕ → ℕ
from_lowest n a b = digits (λ b. b) differ n a b

from_lowest_fuel : (n m a b : ℕ) → a ≤ n → a ≤ m → from_lowest n a b ≡ from_lowest m a b
from_lowest_fuel zero zero a b p q = refl
from_lowest_fuel zero (suc m) zero b p q = refl
from_lowest_fuel zero (suc m) (suc a) b p q = absurd (omega arith)
from_lowest_fuel (suc n) zero zero b p q = refl
from_lowest_fuel (suc n) zero (suc a) b p q = absurd (omega arith)
from_lowest_fuel (suc n) (suc m) zero b p q = refl
from_lowest_fuel (suc n) (suc m) (suc a) b p q =
    ap (λ d. d * 2 + differ (suc a % 2) (b % 2))
      (from_lowest_fuel n m (suc a / 2) (b / 2) (omega arith) (omega arith))

zero-bit_xor : (b : ℕ) → bit_xor 0 b ≡ b
zero-bit_xor b = bit_xor-bitwise 0 b

-- The lowest digit and the others.
pub bit_xor_step : (a b : ℕ) → bit_xor a b ≡ bit_xor (a / 2) (b / 2) * 2 + differ (a % 2) (b % 2)
bit_xor_step zero b = omega (arith, zero-bit_xor b, zero-bit_xor (b / 2))
bit_xor_step (suc a) b = omega (
  arith,
  bit_xor-bitwise (suc a) b,
  bit_xor-bitwise (suc a / 2) (b / 2),
  from_lowest_fuel a (suc a / 2) (suc a / 2) (b / 2) (omega arith) (omega arith),
)

-- A zero digit on the right keeps the digit.
differ-zero : (d : ℕ) → differ d 0 ≡ d
differ-zero zero = refl
differ-zero (suc d) = refl

-- Some digits at the end, against none: `m` is the power of two.
abbrev KeepsLow : ℕ → Type 0
KeepsLow m =
    (high low byte : ℕ)
    → low < m
    → bit_xor (high * m + low) (byte * m) ≡ bit_xor high byte * m + low

one_digit : (x y d : ℕ) → d < 2 → bit_xor (x * 2 + d) (y * 2) ≡ bit_xor x y * 2 + d
one_digit x y d h =
    let x_of : (x * 2 + d) / 2 ≡ x = omega arith in
    let y_of : y * 2 / 2 ≡ y = omega arith in
    let d_of : (x * 2 + d) % 2 ≡ d = omega arith in
    let e_of : y * 2 % 2 ≡ 0 = omega arith in
    bit_xor_step (x * 2 + d) (y * 2)
    ∙ rw (x_of, y_of, d_of, e_of) (ap (λ t. bit_xor x y * 2 + t) (differ-zero d))

double-KeepsLow : (m : ℕ) → KeepsLow m → KeepsLow (m * 2)
double-KeepsLow m k high low byte h =
    let left : high * (m * 2) + low ≡ (high * m + low / 2) * 2 + low % 2 = grind arith in
    let right : byte * (m * 2) ≡ byte * m * 2 = grind arith in
    let rest = k high (low / 2) byte (omega arith) in
    rw (left, right)
      (one_digit (high * m + low / 2) (byte * m) (low % 2) (omega arith) ∙ rw rest (grind arith))

one-KeepsLow : KeepsLow 1
one-KeepsLow high low byte h =
    let left : high * 1 + low ≡ high = omega arith in
    let right : byte * 1 ≡ byte = omega arith in rw (left, right) (omega arith)

-- Eight digits at the end, against none.
pub bit_xor_byte :
    (high low byte : ℕ)
    → low < 256
    → bit_xor (high * 256 + low) (byte * 256) ≡ bit_xor high byte * 256 + low
bit_xor_byte = double-KeepsLow 128 (
    double-KeepsLow 64 (
      double-KeepsLow 32 (
        double-KeepsLow 16 (
          double-KeepsLow 8
            (double-KeepsLow 4 (double-KeepsLow 2 (double-KeepsLow 1 one-KeepsLow)))))))

abbrev StaysBelow : ℕ → Type 0
StaysBelow m = (a b : ℕ) → a < m → b < m → bit_xor a b < m

digit_bound : (c d : ℕ) → c < 2 → d < 2 → differ c d < 2
digit_bound zero d h k = k
digit_bound (suc zero) zero h k = omega arith
digit_bound (suc zero) (suc d) h k = omega arith
digit_bound (suc (suc c)) d h k = absurd (omega arith)

double-StaysBelow : (m : ℕ) → StaysBelow m → StaysBelow (m * 2)
double-StaysBelow m k a b h h' = omega (
  arith,
  bit_xor_step a b,
  k (a / 2) (b / 2) (omega arith) (omega arith),
  digit_bound (a % 2) (b % 2) (omega arith) (omega arith),
)

one-StaysBelow : StaysBelow 1
one-StaysBelow a b h h' =
    let zero_a : a ≡ 0 = omega arith in rw zero_a (omega (arith, zero-bit_xor b))

-- Two bytes make a byte.
pub bit_xor_below_byte : StaysBelow 256
bit_xor_below_byte = double-StaysBelow 128 (
    double-StaysBelow 64 (
      double-StaysBelow 32 (
        double-StaysBelow 16 (
          double-StaysBelow 8
            (double-StaysBelow 4 (double-StaysBelow 2 (double-StaysBelow 1 one-StaysBelow)))))))

-- Two u16 make a u16.
pub bit_xor_below_u16 : StaysBelow 65536
bit_xor_below_u16 = double-StaysBelow 32768 (
    double-StaysBelow 16384 (
      double-StaysBelow 8192 (
        double-StaysBelow 4096 (
          double-StaysBelow 2048 (
            double-StaysBelow 1024
              (double-StaysBelow 512 (double-StaysBelow 256 bit_xor_below_byte)))))))
