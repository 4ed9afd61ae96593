-- ===== src/Vault/Calls/Collateral.antt =====
-- contracts/vault/src/lib.rs: `deposit` and `withdraw`.
use helix_mongolian_spring.Common.{ℤ, ltb_ℤ, Address, Env, ◌>>=◌, ◌>>◌, panic_if, require_auth}
use helix_mongolian_spring.Vault.{
  Externals, Call, ask, require_initialized, require_supported_asset, require_not_paused,
  read_position, read_position_required, validate_positive_amount, checked_add, checked_sub,
  with_lock, insufficient_collateral,
}
use helix_mongolian_spring.Vault.Risk.{enforce_min_position, preview_accrued_position}
use helix_mongolian_spring.Vault.Calls.Steps.{
  book_deposit, book_withdrawal, receive_exactly, send_exactly, position_to_credit, require_healthy,
}

module _ {W : Type 0} (x : Externals W) (env : Env) where
  unfoldable pub deposit_locked : (user collateral_token : Address) → ℤ → Call W (Unit {0})
  unfolding read_position checked_add
  deposit_locked user collateral_token amount = do
    found ← read_position user
    position ← position_to_credit x env found
    receive_exactly x env collateral_token user amount
    deposited_shares ← checked_add position.deposited_shares amount
    enforce_min_position deposited_shares
    book_deposit user collateral_token amount
        (record position { deposited_shares = deposited_shares })

  unfoldable pub deposit : (user collateral_token : Address) → ℤ → Call W (Unit {0})
  unfolding require_initialized validate_positive_amount require_not_paused require_supported_asset
  deposit user collateral_token amount = do
    require_initialized
    validate_positive_amount amount
    require_auth env user
    require_not_paused
    require_supported_asset collateral_token
    with_lock (deposit_locked user collateral_token amount)

  unfoldable pub withdraw_locked : (user collateral_token : Address) → ℤ → Call W (Unit {0})
  unfolding read_position_required checked_sub
  withdraw_locked user collateral_token amount = do
    stored ← read_position_required user
    position ← preview_accrued_position env stored
    panic_if (ltb_ℤ position.deposited_shares amount) insufficient_collateral
    deposited_shares ← checked_sub position.deposited_shares amount
    enforce_min_position deposited_shares
    require_healthy x env collateral_token (record position { deposited_shares = deposited_shares })
    vault_balance_before ← ask (x.balance collateral_token env.current_contract)
    send_exactly x env collateral_token user amount vault_balance_before
    book_withdrawal user collateral_token amount
        (record position { deposited_shares = deposited_shares })

  unfoldable pub withdraw : (user collateral_token : Address) → ℤ → Call W (Unit {0})
  unfolding require_initialized validate_positive_amount require_not_paused require_supported_asset
  withdraw user collateral_token amount = do
    require_initialized
    validate_positive_amount amount
    require_auth env user
    require_not_paused
    require_supported_asset collateral_token
    with_lock (withdraw_locked user collateral_token amount)
