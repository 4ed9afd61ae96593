-- ===== src/Vault/Calls/Steps.antt =====
-- contracts/vault/src/lib.rs: the steps that the users' entry points share, and the writes at their
-- ends.
use helix_mongolian_spring.Common.{
  Option, none, some, ℤ, pos, ltb_ℤ, leb_ℤ, if◌then◌else◌, Address, Env, pure, ◌>>=◌, ◌>>◌,
  panic_if,
}
use helix_mongolian_spring.Vault.{
  Position, Event, Externals, Call, ask, invoke, publish, get_instance, write_total_deposits,
  write_total_borrows, write_position, store_or_remove_position, checked_add, checked_sub,
  health_factor_too_low,
}
use helix_mongolian_spring.Vault.Risk.{
  bps_denominator, require_exact_incoming_delta, require_exact_outgoing_delta,
  preview_accrued_position, health_factor_for_position,
}

-- `unwrap_or` of a position that is not stored
abbrev pub or_new : Env → Option Position → Position
or_new env none = record {
  deposited_shares = pos 0;
  borrowed_amount = pos 0;
  last_update = env.timestamp;
}
or_new env (some position) = position

-- The lesser of an amount and a cap, as the source chooses it.
abbrev pub capped : ℤ → ℤ → ℤ
capped amount cap = if ltb_ℤ cap amount then cap else amount

-- The writes at the end of each entry point.
module _ {W : Type 0} where
  unfoldable pub book_deposit : (user collateral_token : Address) → ℤ → Position → Call W (Unit {0})
  unfolding checked_add get_instance write_total_deposits write_position
  book_deposit user collateral_token amount position = do
    total_deposits ← get_instance (λ i. i.total_deposits)
    updated_total_deposits ← checked_add total_deposits amount
    write_total_deposits updated_total_deposits
    write_position user position
    publish (Event.deposit user collateral_token amount position)

  unfoldable pub book_withdrawal :
      (user collateral_token : Address) → ℤ → Position → Call W (Unit {0})
  unfolding checked_sub get_instance write_total_deposits store_or_remove_position
  book_withdrawal user collateral_token amount position = do
    total_deposits ← get_instance (λ i. i.total_deposits)
    updated_total_deposits ← checked_sub total_deposits amount
    write_total_deposits updated_total_deposits
    store_or_remove_position user position
    publish (Event.withdraw user collateral_token amount position)

  unfoldable pub book_borrow :
      (user : Address) (amount updated_total_borrows health_factor : ℤ)
      → Position
      → Call W (Unit {0})
  unfolding write_total_borrows write_position
  book_borrow user amount updated_total_borrows health_factor position = do
    write_total_borrows updated_total_borrows
    write_position user position
    publish (Event.borrow user amount health_factor)

  unfoldable pub book_repayment : (user : Address) → ℤ → Position → Call W (Unit {0})
  unfolding checked_sub get_instance write_total_borrows store_or_remove_position
  book_repayment user actual_repay position = do
    total_borrows ← get_instance (λ i. i.total_borrows)
    updated_total_borrows ← checked_sub total_borrows actual_repay
    write_total_borrows updated_total_borrows
    store_or_remove_position user position
    publish (Event.repay user actual_repay position.borrowed_amount)

  unfoldable pub book_liquidation :
      (liquidator user : Address) (actual_repay shares_to_seize bonus : ℤ)
      → Position
      → Call W (Unit {0})
  unfolding checked_sub get_instance write_total_deposits write_total_borrows
      store_or_remove_position
  book_liquidation liquidator user actual_repay shares_to_seize bonus position = do
    total_deposits ← get_instance (λ i. i.total_deposits)
    total_borrows ← get_instance (λ i. i.total_borrows)
    updated_total_deposits ← checked_sub total_deposits shares_to_seize
    updated_total_borrows ← checked_sub total_borrows actual_repay
    write_total_deposits updated_total_deposits
    write_total_borrows updated_total_borrows
    store_or_remove_position user position
    publish (Event.liquidation liquidator user actual_repay shares_to_seize bonus)

module _ {W : Type 0} (x : Externals W) (env : Env) where
  -- a token's `transfer_from` into the vault, between two reads of the vault's balance
  unfoldable pub receive_exactly : (token from : Address) → ℤ → Call W (Unit {0})
  receive_exactly token from amount = do
    vault_balance_before ← ask (x.balance token env.current_contract)
    invoke (x.transfer_from token env.current_contract from env.current_contract amount)
    vault_balance_after ← ask (x.balance token env.current_contract)
    require_exact_incoming_delta vault_balance_before vault_balance_after amount

  -- a token's `transfer` out of the vault, and the vault's balance after it
  unfoldable pub send_exactly : (token to : Address) → ℤ → ℤ → Call W (Unit {0})
  send_exactly token to amount vault_balance_before = do
    invoke (x.transfer token env.current_contract to amount)
    vault_balance_after ← ask (x.balance token env.current_contract)
    require_exact_outgoing_delta vault_balance_before vault_balance_after amount

  -- the position that a deposit adds to
  unfoldable pub position_to_credit : Option Position → Call W Position
  position_to_credit found =
      if ltb_ℤ (pos 0) (or_new env found).borrowed_amount
      then preview_accrued_position env (or_new env found)
      else pure (record (or_new env found) { last_update = env.timestamp })

  -- a position with a debt must stay above the liquidation threshold
  unfoldable pub require_healthy : Address → Position → Call W (Unit {0})
  require_healthy collateral_token position =
      if leb_ℤ position.borrowed_amount (pos 0) then pure tt else do
        health_factor ← health_factor_for_position x env collateral_token position
        panic_if (leb_ℤ health_factor bps_denominator) health_factor_too_low
