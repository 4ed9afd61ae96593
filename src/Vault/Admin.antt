-- ===== src/Vault/Admin.antt =====
-- contracts/vault/src/lib.rs: `initialize` and the entry points of the administrator and the pausers.
use helix_mongolian_spring.Common.{
  ℕ, true, false, some, List, [], ◌∷◌, ◌++◌, ◌==◌, pos, if◌then◌else◌, Address, Env, pure, ◌>>=◌,
  ◌>>◌, require_auth,
}
use helix_mongolian_spring.Vault.{
  PoolConfig, Event, Call, admin_role, pauser_role, contains_address, update, publish,
  assert_not_initialized, require_initialized, get_instance, set_instance, set_paused, require_role,
  write_role,
}
use helix_mongolian_spring.Vault.Risk.{validate_config}

-- `remove_supported_asset`'s loop
unfoldable pub without : Address → List Address → List Address
without asset [] = []
without asset (supported ∷ rest) =
    if supported == asset then without asset rest else supported ∷ without asset rest

module _ {W : Type 0} (env : Env) where
  unfoldable pub initialize : (admin oracle borrow_token : Address) → PoolConfig → Call W (Unit {0})
  unfolding assert_not_initialized write_role validate_config
  initialize admin oracle borrow_token config = do
    assert_not_initialized
    require_auth env admin
    validate_config config
    update λ s. record s {
      instance_storage = some (record {
        admin = admin;
        pool_config = config;
        supported_assets = [];
        oracle_address = oracle;
        borrow_token = borrow_token;
        paused = false;
        locked = false;
        total_deposits = pos 0;
        total_borrows = pos 0;
      });
    }
    write_role admin admin_role true
    write_role admin pauser_role true
    write_role oracle pauser_role true

  unfoldable pub require_admin_auth : Call W Address
  unfolding get_instance
  require_admin_auth = do admin ← get_instance (λ i. i.admin); require_auth env admin; pure admin

  unfoldable pub require_pauser_auth : Address → Call W Address
  unfolding require_role
  require_pauser_auth caller = do
    require_auth env caller
    require_role caller pauser_role
    pure caller

  unfoldable pub pause : Call W (Unit {0})
  unfolding require_initialized get_instance require_pauser_auth set_paused
  pause = do
    require_initialized
    admin ← get_instance (λ i. i.admin)
    caller ← require_pauser_auth admin
    set_paused true
    publish (Event.pause caller)

  unfoldable pub unpause : Call W (Unit {0})
  unfolding require_initialized get_instance require_pauser_auth set_paused
  unpause = do
    require_initialized
    admin ← get_instance (λ i. i.admin)
    caller ← require_pauser_auth admin
    set_paused false
    publish (Event.unpause caller)

  unfoldable pub pause_by : Address → Call W (Unit {0})
  unfolding require_initialized require_pauser_auth set_paused
  pause_by caller = do
    require_initialized
    caller ← require_pauser_auth caller
    set_paused true
    publish (Event.pause caller)

  unfoldable pub unpause_by : Address → Call W (Unit {0})
  unfolding require_initialized require_pauser_auth set_paused
  unpause_by caller = do
    require_initialized
    caller ← require_pauser_auth caller
    set_paused false
    publish (Event.unpause caller)

  unfoldable pub update_config : PoolConfig → Call W (Unit {0})
  unfolding require_initialized require_admin_auth validate_config set_instance
  update_config new_config = do
    require_initialized
    require_admin_auth
    validate_config new_config
    set_instance (λ i. record i { pool_config = new_config })
    publish (Event.config_update new_config)

  unfoldable pub add_supported_asset : Address → Call W (Unit {0})
  unfolding require_initialized require_admin_auth get_instance contains_address set_instance
  add_supported_asset asset = do
    require_initialized
    require_admin_auth
    assets ← get_instance (λ i. i.supported_assets)
    if contains_address assets asset
        then pure tt
        else set_instance (λ i. record i { supported_assets = assets ++ asset ∷ [] })

  unfoldable pub remove_supported_asset : Address → Call W (Unit {0})
  unfolding require_initialized require_admin_auth get_instance without set_instance
  remove_supported_asset asset = do
    require_initialized
    require_admin_auth
    assets ← get_instance (λ i. i.supported_assets)
    set_instance (λ i. record i { supported_assets = without asset assets })

  unfoldable pub grant_role : Address → ℕ → Call W (Unit {0})
  unfolding require_initialized require_admin_auth write_role
  grant_role addr role = do require_initialized; require_admin_auth; write_role addr role true

  unfoldable pub revoke_role : Address → ℕ → Call W (Unit {0})
  unfolding require_initialized require_admin_auth write_role
  revoke_role addr role = do require_initialized; require_admin_auth; write_role addr role false

  unfoldable pub upgrade : ℕ → Call W (Unit {0})
  unfolding require_initialized require_admin_auth
  upgrade new_wasm_hash = do
    require_initialized
    require_admin_auth
    update λ s. record s { wasm_hash = new_wasm_hash }
