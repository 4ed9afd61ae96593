-- ===== src/Vault/Risk.antt =====
-- contracts/vault/src/lib.rs: interest, prices, the collateral's value and the health factor, and
-- the checks on amounts and balances.
use helix_mongolian_spring.Common.{
  ℕ, ◌-◌, ◌*◌, not, ◌&&◌, ◌||◌, ℤ, pos, i128_max, ltb, ltb_ℤ, leb_ℤ, eqb_ℤ, ◌==◌, if◌then◌else◌,
  Address, Env, pure, ◌>>=◌, ◌>>◌, panic_if,
}
use helix_mongolian_spring.Vault.{
  Position, PoolConfig, Externals, Call, ask, get_instance, checked_add, checked_sub, checked_mul,
  checked_mul_div_floor, invalid_amount, oracle_stale, below_min_position, clawback_detected,
}

abbrev pub bps_denominator : ℤ
bps_denominator = pos 10000

abbrev pub price_scalar : ℤ
price_scalar = pos 10000000

abbrev pub oracle_decimals : ℕ
oracle_decimals = 7

abbrev pub oracle_stale_window : ℕ
oracle_stale_window = 3600

abbrev pub seconds_per_year : ℤ
seconds_per_year = pos (365 * 24 * 3600)

module _ {W : Type 0} where
  unfoldable pub validate_config : PoolConfig → Call W (Unit {0})
  validate_config config =
      panic_if
        (leb_ℤ config.min_position (pos 0)
          || config.max_ltv == 0
          || ltb 10000 config.max_ltv
          || config.liq_threshold == 0
          || ltb 10000 config.liq_threshold
          || ltb 10000 config.liq_bonus)
        invalid_amount

  unfoldable pub enforce_min_position : ℤ → Call W (Unit {0})
  unfolding get_instance
  enforce_min_position deposited_shares = if eqb_ℤ deposited_shares (pos 0) then pure tt else do
    config ← get_instance (λ i. i.pool_config)
    panic_if (ltb_ℤ deposited_shares config.min_position) below_min_position

  unfoldable pub require_exact_incoming_delta : ℤ → ℤ → ℤ → Call W (Unit {0})
  unfolding checked_sub
  require_exact_incoming_delta balance_before balance_after expected_delta = do
    actual_delta ← checked_sub balance_after balance_before
    panic_if (not (eqb_ℤ actual_delta expected_delta)) clawback_detected

  unfoldable pub require_exact_outgoing_delta : ℤ → ℤ → ℤ → Call W (Unit {0})
  unfolding checked_sub
  require_exact_outgoing_delta balance_before balance_after expected_delta = do
    actual_delta ← checked_sub balance_before balance_after
    panic_if (not (eqb_ℤ actual_delta expected_delta)) clawback_detected

  -- The interest on a debt over some seconds; rounded towards zero.
  unfoldable pub accrued_interest : ℤ → ℕ → Call W ℤ
  unfolding get_instance checked_mul
  accrued_interest borrowed_amount elapsed_seconds = do
    config ← get_instance (λ i. i.pool_config)
    annual ← checked_mul borrowed_amount (pos config.interest_rate)
    scale ← checked_mul seconds_per_year bps_denominator
    checked_mul_div_floor annual (pos elapsed_seconds) scale

  -- `saturating_sub` is `-` on ℕ.
  unfoldable pub preview_accrued_position : Env → Position → Call W Position
  unfolding checked_add
  preview_accrued_position env position =
      if not
        (ltb_ℤ (pos 0) position.borrowed_amount && ltb 0 (env.timestamp - position.last_update))
      then pure (record position { last_update = env.timestamp })
      else do
        accrued ← accrued_interest position.borrowed_amount (env.timestamp - position.last_update)
        borrowed_amount ← checked_add position.borrowed_amount accrued
        pure (record position { borrowed_amount = borrowed_amount; last_update = env.timestamp })

module _ {W : Type 0} (x : Externals W) (env : Env) where
  unfoldable pub oracle_price : Address → Call W ℤ
  unfolding get_instance
  oracle_price asset = do
    oracle ← get_instance (λ i. i.oracle_address)
    decimals ← ask (x.decimals oracle asset)
    panic_if (not (decimals == oracle_decimals)) invalid_amount
    quote ← ask (x.lastprice oracle asset)
    panic_if (leb_ℤ quote.0 (pos 0)) invalid_amount
    panic_if (ltb oracle_stale_window (env.timestamp - quote.1)) oracle_stale
    pure quote.0

  unfoldable pub collateral_value_for_position : Address → ℤ → Call W ℤ
  unfolding oracle_price checked_mul_div_floor
  collateral_value_for_position collateral_token deposited_shares =
      if eqb_ℤ deposited_shares (pos 0) then pure (pos 0) else do
        assets ← ask (x.assets_for_shares collateral_token deposited_shares)
        price ← oracle_price collateral_token
        checked_mul_div_floor assets price price_scalar

  unfoldable pub max_borrow_for_position : Address → Position → Call W ℤ
  unfolding get_instance checked_mul_div_floor
  max_borrow_for_position collateral_token position = do
    config ← get_instance (λ i. i.pool_config)
    collateral_value ← collateral_value_for_position collateral_token position.deposited_shares
    checked_mul_div_floor collateral_value (pos config.max_ltv) bps_denominator

  unfoldable pub health_factor_for_position : Address → Position → Call W ℤ
  unfolding get_instance checked_mul_div_floor
  health_factor_for_position collateral_token position =
      if eqb_ℤ position.borrowed_amount (pos 0) then pure (pos i128_max) else do
        config ← get_instance (λ i. i.pool_config)
        collateral_value ← collateral_value_for_position collateral_token position.deposited_shares
        checked_mul_div_floor collateral_value (pos config.liq_threshold) position.borrowed_amount
