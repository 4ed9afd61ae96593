-- ===== src/Vault/Solvency.antt =====
-- contracts/vault/src/lib.rs: the borrowing limit, the health factor and interest.
use helix_mongolian_spring.Common.{
  ℕ, ◌*◌, ◌/◌, ◌≤◌, ◌<◌, ◌≡◌, inl, inr, some, ℤ, pos, negsuc, ◌*ℤ◌, ◌/ℤ◌, ◌≤ℤ◌, ◌<ℤ◌, arith, ok,
  Address, Env, Result-cases, unchanged,
}
use native.Mathlib.Nat.{le-div_iff_mul-le}
use helix_mongolian_spring.Vault.{
  Position, Instance, World, Externals, get_instance, checked_mul_div_floor,
}
use helix_mongolian_spring.Vault.Risk.{
  bps_denominator, accrued_interest, preview_accrued_position, collateral_value_for_position,
  max_borrow_for_position, health_factor_for_position,
}
use helix_mongolian_spring.Vault.Interest.{preview_accrued_position-Accrued}
use helix_mongolian_spring.Vault.Quiet.{collateral_value_same}

-- Interest on a debt of `b` over `n` seconds, where it is computed: the yearly rate, in hundredths of a
-- percent, for that part of a year of 365 days, rounded down once.
pub accrued_interest_lem :
    {W : Type 0} (b n : ℕ) (i : Instance) (r : ℤ) (w w' : World W)
    → w.store.instance_storage ≡ some i
    → accrued_interest (pos b) n w ≡ ok (r, w')
    → r ≡ pos (b * i.pool_config.interest_rate * n / 315360000000)
unfolding accrued_interest get_instance checked_mul_div_floor ◌*ℤ◌ ◌/ℤ◌
accrued_interest_lem b n i r w w' es e = ground arith

-- Accruing a position twice at one time is accruing it once.
pub preview_accrued_position_idem :
    {W : Type 0} (env : Env) (p q : Position) (w w' : World W)
    → preview_accrued_position env p w ≡ ok (q, w')
    → preview_accrued_position env q w' ≡ ok (q, w')
unfolding preview_accrued_position
preview_accrued_position_idem env p q w w' e =
    let (_, a) = preview_accrued_position-Accrued env p q w w' e in ground (arith, a.stamped)

limit_enough : (v ltv liq b : ℕ) → b ≤ v * ltv / 10000 → ltv ≤ liq → 0 < b → 10000 ≤ v * liq / b
limit_enough v ltv liq b h k pb =
    let m : b * 10000 ≤ v * ltv =
      (le-div_iff_mul-le {k = 10000} {x = b} {y = v * ltv} (omega arith)).0 h in
    let n : v * ltv ≤ v * liq = grind arith in
    (le-div_iff_mul-le {k = b} {x = 10000} {y = v * liq} pb).1 (omega arith)

module _ {W : Type 0} (x : Externals W) (env : Env) (c : Address) (p : Position) (i : Instance)
    (w : World W) (es : w.store.instance_storage ≡ some i) where
  max_borrow_lem :
      (v l : ℤ) (w1 : World W)
      → collateral_value_for_position x env c p.deposited_shares w ≡ ok (v, w)
      → max_borrow_for_position x env c p w ≡ ok (l, w1)
      → l ≡ v *ℤ pos i.pool_config.max_ltv /ℤ bps_denominator
  unfolding max_borrow_for_position get_instance checked_mul_div_floor
  max_borrow_lem v l w1 e1 e2 = ground arith

  health_factor_lem :
      (v h : ℤ) (w1 : World W)
      → pos 0 <ℤ p.borrowed_amount
      → collateral_value_for_position x env c p.deposited_shares w ≡ ok (v, w)
      → health_factor_for_position x env c p w ≡ ok (h, w1)
      → h ≡ v *ℤ pos i.pool_config.liq_threshold /ℤ p.borrowed_amount
  unfolding health_factor_for_position get_instance checked_mul_div_floor
  health_factor_lem v h w1 pb e1 e2 = ground arith

ratio_enough :
    (v b : ℤ) (ltv liq : ℕ)
    → ltv ≤ liq
    → pos 0 <ℤ b
    → b ≤ℤ v *ℤ pos ltv /ℤ bps_denominator
    → bps_denominator ≤ℤ v *ℤ pos liq /ℤ b
unfolding ◌*ℤ◌ ◌/ℤ◌
ratio_enough (pos v) (pos b) ltv liq h pb k =
    let m = limit_enough v ltv liq b (omega arith) h (omega arith) in ground (arith, m)
ratio_enough (negsuc v) (pos b) ltv liq h pb k = absurd (ground arith)
ratio_enough v (negsuc b) ltv liq h pb k = absurd (omega arith)

module _ {W : Type 0} (x : Externals W) (env : Env) where
  -- Under a configuration whose `max_ltv` is at most its `liq_threshold`, a position whose debt is
  -- positive and within the borrowing limit has a health factor of 10000 or more, where the limit and
  -- the factor can be computed.
  pub max_borrow-health_factor :
      (c : Address) (p : Position) (i : Instance) (l h : ℤ) (w w1 w2 : World W)
      → w.store.instance_storage ≡ some i
      → i.pool_config.max_ltv ≤ i.pool_config.liq_threshold
      → pos 0 <ℤ p.borrowed_amount
      → max_borrow_for_position x env c p w ≡ ok (l, w1)
      → p.borrowed_amount ≤ℤ l
      → health_factor_for_position x env c p w ≡ ok (h, w2)
      → bps_denominator ≤ℤ h
  max_borrow-health_factor c p i l h w w1 w2 es cfg pb e1 k e2 =
      elim (Result-cases (collateral_value_for_position x env c p.deposited_shares w)) [
        | inl (v, w3, e3) ↦
            let f3 = unchanged e3 (collateral_value_same x env c p.deposited_shares v w w3 e3) in
            let el = max_borrow_lem x env c p i w es v l w1 f3 e1 in
            let eh = health_factor_lem x env c p i w es v h w2 pb f3 e2 in
            rw eh (ratio_enough v p.borrowed_amount _ _ cfg pb (rw el at k))
        | inr (f, e3) ↦ absurd (unfold max_borrow_for_position in ground arith)
      ]
