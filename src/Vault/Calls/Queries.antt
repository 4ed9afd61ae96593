-- ===== src/Vault/Calls/Queries.antt =====
-- contracts/vault/src/lib.rs: `get_health_factor` to `get_position_snapshot`.
use helix_mongolian_spring.Common.{ℤ, Address, Env, pure, ◌>>=◌, ◌>>◌}
use helix_mongolian_spring.Vault.{
  Position, PoolConfig, Externals, Call, require_initialized, get_instance, primary_supported_asset,
  read_position_required, checked_sub,
}
use helix_mongolian_spring.Vault.Risk.{preview_accrued_position, health_factor_for_position}

pub record PositionSnapshot : Type 0 where
  pub stored_position : Position
  pub accrued_position : Position
  pub accrued_interest : ℤ
  pub health_factor : ℤ
  pub pool_config : PoolConfig
  pub collateral_token : Address
  pub borrow_token : Address

module _ {W : Type 0} (x : Externals W) (env : Env) where
  unfoldable pub get_health_factor : Address → Call W ℤ
  unfolding require_initialized primary_supported_asset read_position_required
  get_health_factor user = do
    require_initialized
    collateral_token ← primary_supported_asset
    position ← read_position_required user
    preview ← preview_accrued_position env position
    health_factor_for_position x env collateral_token preview

  unfoldable pub get_position_snapshot : Address → Call W PositionSnapshot
  unfolding require_initialized primary_supported_asset get_instance read_position_required
      checked_sub
  get_position_snapshot user = do
    require_initialized
    collateral_token ← primary_supported_asset
    borrow_token ← get_instance (λ i. i.borrow_token)
    stored_position ← read_position_required user
    accrued_position ← preview_accrued_position env stored_position
    accrued_interest ← checked_sub accrued_position.borrowed_amount stored_position.borrowed_amount
    health_factor ← health_factor_for_position x env collateral_token accrued_position
    pool_config ← get_instance (λ i. i.pool_config)
    pure (record {
      stored_position = stored_position;
      accrued_position = accrued_position;
      accrued_interest = accrued_interest;
      health_factor = health_factor;
      pool_config = pool_config;
      collateral_token = collateral_token;
      borrow_token = borrow_token;
    })

module _ {W : Type 0} where
  unfoldable pub get_position : Address → Call W Position
  unfolding require_initialized read_position_required
  get_position user = do require_initialized; read_position_required user

  unfoldable pub get_pool_config : Call W PoolConfig
  unfolding require_initialized get_instance
  get_pool_config = do require_initialized; get_instance (λ i. i.pool_config)
