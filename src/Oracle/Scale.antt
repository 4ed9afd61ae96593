-- ===== src/Oracle/Scale.antt =====
-- contracts/oracle-adaptor/src/lib.rs: `scale_price`.
use helix_mongolian_spring.Common.{
  ℕ, zero, suc, ◌-◌, ◌*◌, ◌/◌, ◌^◌, ◌≤◌, ◌≡◌, refl, ℤ, pos, ◌*ℤ◌, ◌/ℤ◌, arith, ok,
}
use native.Mathlib.Nat.{div-div-eq-div-mul, pow-succ', mul_assoc}
use helix_mongolian_spring.Oracle.{World}
use helix_mongolian_spring.Oracle.Calls.{scale_price, scale_up, scale_down}

-- Dropping digits one at a time divides by a power of ten.
scale_down_lem : (p k : ℕ) → scale_down (pos p) k ≡ pos (p / 10 ^ k)
unfolding scale_down ◌/ℤ◌
scale_down_lem p zero = ground arith
scale_down_lem p (suc k) =
    rw (scale_down_lem (p / 10) k, div-div-eq-div-mul p 10 (10 ^ k)) (ground arith)

-- Adding digits one at a time multiplies by a power of ten.
scale_up_lem :
    {W : Type 0} (p k : ℕ) (q : ℤ) (w w' : World W)
    → scale_up (pos p) k w ≡ ok (q, w')
    → (q ≡ pos (p * 10 ^ k)) × (w' ≡ w)
unfolding scale_up ◌*ℤ◌
scale_up_lem p zero q w w' e = ground arith
scale_up_lem p (suc k) q w w' e =
    let next : p * 10 ^ suc k ≡ p * 10 * 10 ^ k =
      rw (pow-succ' 10 k, mul_assoc p 10 (10 ^ k)) refl in
    ground (arith, scale_up_lem (p * 10) k q w w', next)

div-one : (p : ℕ) → p / 10 ^ 0 ≡ p
div-one p = ground arith

-- A price of `p` units from a feed with `m` decimals, in `n` decimals: where the conversion returns,
-- its loops have multiplied by the power of ten that is missing, or divided by the one that is too
-- much, rounding down once; and nothing is written.
pub scale_price_lem :
    {W : Type 0} (p m n : ℕ) (q : ℤ) (w w' : World W)
    → scale_price (pos p) m n w ≡ ok (q, w')
    → (w' ≡ w) × (m ≤ n → q ≡ pos (p * 10 ^ (n - m))) × (n ≤ m → q ≡ pos (p / 10 ^ (m - n)))
unfolding scale_price
scale_price_lem p m n q w w' e =
    ground (arith, scale_up_lem p (n - m) q w w', scale_down_lem p (m - n), div-one p)
