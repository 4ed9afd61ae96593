-- ===== src/Vault/Calls/Debt.antt =====
-- contracts/vault/src/lib.rs: `borrow`, `repay` and `liquidate`.
use helix_mongolian_spring.Common.{
  ◌/ℤ◌, ℤ, pos, ltb_ℤ, leb_ℤ, if◌then◌else◌, Address, Env, pure, ◌>>=◌, ◌>>◌, panic_if,
  require_auth,
}
use helix_mongolian_spring.Vault.{
  Externals, Call, liquidator_role, ask, require_initialized, get_instance, primary_supported_asset,
  require_not_paused, read_position, read_position_required, require_role, validate_positive_amount,
  checked_add, checked_sub, checked_mul_div_floor, with_lock, insufficient_collateral,
  insufficient_liquidity, health_factor_too_low,
}
use helix_mongolian_spring.Vault.Risk.{
  bps_denominator, price_scalar, preview_accrued_position, oracle_price, max_borrow_for_position,
  health_factor_for_position,
}
use helix_mongolian_spring.Vault.Calls.Steps.{
  or_new, capped, book_borrow, book_repayment, book_liquidation, receive_exactly, send_exactly,
}

module _ {W : Type 0} (x : Externals W) (env : Env) where
  unfoldable pub borrow_locked : (user borrow_token : Address) → ℤ → Call W (Unit {0})
  unfolding read_position checked_add get_instance
  borrow_locked user borrow_token amount = do
    collateral_token ← primary_supported_asset
    found ← read_position user
    position ← preview_accrued_position env (or_new env found)
    borrowed_amount ← checked_add position.borrowed_amount amount
    let updated = record position { borrowed_amount = borrowed_amount }
    max_borrow_allowed ← max_borrow_for_position x env collateral_token updated
    panic_if (ltb_ℤ max_borrow_allowed borrowed_amount) insufficient_collateral
    vault_balance_before ← ask (x.balance borrow_token env.current_contract)
    panic_if (ltb_ℤ vault_balance_before amount) insufficient_liquidity
    send_exactly x env borrow_token user amount vault_balance_before
    total_borrows ← get_instance (λ i. i.total_borrows)
    updated_total_borrows ← checked_add total_borrows amount
    health_factor ← health_factor_for_position x env collateral_token updated
    book_borrow user amount updated_total_borrows health_factor updated

  unfoldable pub borrow : (user : Address) → ℤ → Call W (Unit {0})
  unfolding require_initialized validate_positive_amount require_not_paused get_instance
  borrow user amount = do
    require_initialized
    validate_positive_amount amount
    require_auth env user
    require_not_paused
    borrow_token ← get_instance (λ i. i.borrow_token)
    with_lock (borrow_locked user borrow_token amount)

  unfoldable pub repay_locked : (user borrow_token : Address) → ℤ → Call W (Unit {0})
  unfolding read_position_required checked_sub
  repay_locked user borrow_token amount = do
    stored ← read_position_required user
    position ← preview_accrued_position env stored
    let actual_repay = capped amount position.borrowed_amount
    if leb_ℤ actual_repay (pos 0)
        then pure tt
        else receive_exactly x env borrow_token user actual_repay
    borrowed_amount ← checked_sub position.borrowed_amount actual_repay
    book_repayment user actual_repay (record position { borrowed_amount = borrowed_amount })

  unfoldable pub repay : (user : Address) → ℤ → Call W (Unit {0})
  unfolding require_initialized validate_positive_amount get_instance
  repay user amount = do
    require_initialized
    validate_positive_amount amount
    require_auth env user
    borrow_token ← get_instance (λ i. i.borrow_token)
    with_lock (repay_locked user borrow_token amount)

  unfoldable pub liquidate_locked :
      (liquidator user collateral_token borrow_token : Address) → ℤ → Call W (Unit {0})
  unfolding read_position_required checked_add checked_sub checked_mul_div_floor
      validate_positive_amount get_instance ◌/ℤ◌
  liquidate_locked liquidator user collateral_token borrow_token repay_amount = do
    config ← get_instance (λ i. i.pool_config)
    stored ← read_position_required user
    position ← preview_accrued_position env stored
    health_factor ← health_factor_for_position x env collateral_token position
    panic_if (ltb_ℤ bps_denominator health_factor) health_factor_too_low
    let actual_repay = capped repay_amount (position.borrowed_amount /ℤ pos 2)
    validate_positive_amount actual_repay
    receive_exactly x env borrow_token liquidator actual_repay
    bonus ← checked_mul_div_floor actual_repay (pos config.liq_bonus) bps_denominator
    seize_value ← checked_add actual_repay bonus
    price ← oracle_price x env collateral_token
    assets_to_seize ← checked_mul_div_floor seize_value price_scalar price
    shares_to_seize ← ask (x.shares_for_assets collateral_token assets_to_seize)
    validate_positive_amount shares_to_seize
    panic_if (ltb_ℤ position.deposited_shares shares_to_seize) insufficient_collateral
    collateral_balance_before ← ask (x.balance collateral_token env.current_contract)
    send_exactly x env collateral_token liquidator shares_to_seize collateral_balance_before
    deposited_shares ← checked_sub position.deposited_shares shares_to_seize
    borrowed_amount ← checked_sub position.borrowed_amount actual_repay
    book_liquidation liquidator user actual_repay shares_to_seize bonus
        (record position { deposited_shares = deposited_shares; borrowed_amount = borrowed_amount })

  unfoldable pub liquidate : (liquidator user : Address) → ℤ → Call W (Unit {0})
  unfolding require_initialized validate_positive_amount require_role require_not_paused
      get_instance
  liquidate liquidator user repay_amount = do
    require_initialized
    validate_positive_amount repay_amount
    require_auth env liquidator
    require_role liquidator liquidator_role
    require_not_paused
    collateral_token ← primary_supported_asset
    borrow_token ← get_instance (λ i. i.borrow_token)
    with_lock (liquidate_locked liquidator user collateral_token borrow_token repay_amount)
