-- ===== src/Vault/Tests/Books.antt =====
-- contracts/vault/src/lib.rs: what the entry points book and pay, on concrete inputs.
use helix_mongolian_spring.Common.{
  ◌≡◌, refl, pos, ◌+ℤ◌, ◌-ℤ◌, ◌*ℤ◌, ◌/ℤ◌, in_i128, neg_ℤ, arith, ok, commit, get, put, ◌⊎◌, none,
}
use helix_mongolian_spring.Vault.{
  World, primary_supported_asset, get_instance, read_position, read_position_required, checked_add,
  checked_sub, checked_mul, checked_mul_div_floor,
}
use helix_mongolian_spring.Vault.Risk.{
  enforce_min_position, require_exact_incoming_delta, require_exact_outgoing_delta,
  accrued_interest, preview_accrued_position, oracle_price, collateral_value_for_position,
  max_borrow_for_position, health_factor_for_position,
}
use helix_mongolian_spring.Vault.Calls
use helix_mongolian_spring.Vault.Admin
use helix_mongolian_spring.Vault.Reach.{Op, apply}
use helix_mongolian_spring.Vault.Authority.{IsAdministered, apply-config_of}
use helix_mongolian_spring.Vault.Accounting.{config_of, Booked, total_deposits_of, total_borrows_of}
use helix_mongolian_spring.Vault.Tests.{
  pool, Balances, alice, keeper, collateral, dollar, par, fallen, now, a_year_on, lending,
  lending-IsSound, after_withdrawal, withdrawn,
}
use helix_mongolian_spring.Vault.Books.{withdraw_locked-Booked, borrow_locked-Booked}
use helix_mongolian_spring.Vault.Repayment.{Repaid, repay_locked-Repaid}
use helix_mongolian_spring.Vault.Custody.{
  BalanceMoved, deposit_locked-BalanceMoved, withdraw_locked-BalanceMoved,
  borrow_locked-BalanceMoved,
}

abbrev after_loan : World Balances
after_loan = commit (Calls.borrow_locked par now alice dollar (pos 50)) lending

lent : Calls.borrow_locked par now alice dollar (pos 50) lending ≡ ok (tt, after_loan)
unfolding Calls.borrow_locked Calls.send_exactly Calls.book_borrow primary_supported_asset
    get_instance read_position preview_accrued_position accrued_interest oracle_price
    collateral_value_for_position max_borrow_for_position health_factor_for_position
    require_exact_outgoing_delta checked_add checked_sub checked_mul_div_floor ◌+ℤ◌ ◌-ℤ◌ ◌*ℤ◌ ◌/ℤ◌
    in_i128 get put
lent = refl

borrow_locked-Booked_example : Booked alice (pos 0) (pos 50) lending.store after_loan.store
borrow_locked-Booked_example =
    borrow_locked-Booked par now lending after_loan lending-IsSound alice dollar (pos 50)
      (omega arith) lent

abbrev after_repayment : World Balances
after_repayment = commit (Calls.repay_locked par a_year_on alice dollar (pos 100)) lending

repaid_in_part :
    Calls.repay_locked par a_year_on alice dollar (pos 100) lending ≡ ok (tt, after_repayment)
unfolding Calls.repay_locked Calls.receive_exactly Calls.book_repayment get_instance
    read_position_required preview_accrued_position accrued_interest require_exact_incoming_delta
    checked_add checked_mul checked_sub checked_mul_div_floor ◌+ℤ◌ ◌-ℤ◌ ◌*ℤ◌ ◌/ℤ◌ in_i128 get put
repaid_in_part = refl

repay_locked-Repaid_example : Repaid par a_year_on alice dollar (pos 100) lending after_repayment
repay_locked-Repaid_example =
    repay_locked-Repaid par a_year_on alice dollar (pos 100) lending after_repayment repaid_in_part

abbrev after_deposit : World Balances
after_deposit = commit (Calls.deposit_locked par now alice collateral (pos 70)) lending

deposited : Calls.deposit_locked par now alice collateral (pos 70) lending ≡ ok (tt, after_deposit)
unfolding Calls.deposit_locked Calls.position_to_credit Calls.receive_exactly Calls.book_deposit
    get_instance read_position enforce_min_position preview_accrued_position
    require_exact_incoming_delta checked_add checked_sub ◌+ℤ◌ ◌-ℤ◌ in_i128 get put
deposited = refl

deposit_locked-BalanceMoved_example :
    BalanceMoved par now collateral (pos 70) lending after_deposit
    × (total_deposits_of after_deposit.store ≡ total_deposits_of lending.store +ℤ pos 70)
deposit_locked-BalanceMoved_example =
    deposit_locked-BalanceMoved par now lending after_deposit lending-IsSound alice collateral
      (pos 70) (omega arith) deposited

withdraw_locked-Booked_example :
    Booked alice (neg_ℤ (pos 100)) (pos 0) lending.store after_withdrawal.store
withdraw_locked-Booked_example =
    withdraw_locked-Booked par now lending after_withdrawal lending-IsSound alice collateral
      (pos 100) withdrawn

withdraw_locked-BalanceMoved_example :
    BalanceMoved par now collateral (neg_ℤ (pos 100)) lending after_withdrawal
    × (total_deposits_of after_withdrawal.store
        ≡ total_deposits_of lending.store +ℤ neg_ℤ (pos 100))
withdraw_locked-BalanceMoved_example =
    withdraw_locked-BalanceMoved par now lending after_withdrawal lending-IsSound alice collateral
      (pos 100) withdrawn

borrow_locked-BalanceMoved_example :
    BalanceMoved par now dollar (neg_ℤ (pos 50)) lending after_loan
    × (total_borrows_of after_loan.store ≡ total_borrows_of lending.store +ℤ pos 50)
borrow_locked-BalanceMoved_example =
    borrow_locked-BalanceMoved par now lending after_loan lending-IsSound alice dollar (pos 50)
      (omega arith) lent

abbrev after_seizure : World Balances
after_seizure =
    commit (Calls.liquidate_locked fallen now keeper alice collateral dollar (pos 100)) lending

abbrev after_update : World Balances
after_update = commit (apply par now (Op.update_config pool)) lending

updated : apply par now (Op.update_config pool) lending ≡ ok (tt, after_update)
unfolding apply Admin.update_config
updated = refl

apply-config_of_example :
    (config_of after_update.store ≡ config_of lending.store)
    ⊎ ((lending.store.instance_storage ≡ none) ⊎ IsAdministered now lending)
apply-config_of_example =
    apply-config_of par now lending after_update lending-IsSound (Op.update_config pool) updated
