-- ===== src/Vault/Calls.antt =====
-- contracts/vault/src/lib.rs: the entry points of the users, `deposit` to `get_position_snapshot`.
mod Steps
mod Collateral
mod Debt
mod Queries
pub use Steps.*
unfoldable pub use Steps.{
  book_deposit, book_withdrawal, book_borrow, book_repayment, book_liquidation, receive_exactly,
  send_exactly, position_to_credit, require_healthy,
}
pub use Collateral.*
unfoldable pub use Collateral.{deposit_locked, deposit, withdraw_locked, withdraw}
pub use Debt.*
unfoldable pub use Debt.{borrow_locked, borrow, repay_locked, repay, liquidate_locked, liquidate}
pub use Queries.*
unfoldable pub use Queries.{get_health_factor, get_position_snapshot, get_position, get_pool_config}
