-- ===== src/Bridge/Admin.antt =====
-- contracts/bridge-handler/src/lib.rs: registration, the queries, and the administrator's entry points.
use helix_mongolian_spring.Common.{
  ℕ, Bool, true, false, Option, ℤ, pos, ltb_ℤ, ◌==◌, ◌||◌, Address, Bytes, Env, pure, ◌>>=◌, ◌>>◌,
  panic_if, require_auth, update,
}
use helix_mongolian_spring.Bridge.{
  Event, Call, publish, require_initialized, get_instance, set_instance, require_admin_auth,
  read_recipient_mapping, write_recipient_mapping, invalid_amount,
}

module _ {W : Type 0} where
  unfoldable pub get_recipient : Bytes → Call W (Option Address)
  unfolding require_initialized read_recipient_mapping
  get_recipient evm_address = do require_initialized; read_recipient_mapping evm_address

  unfoldable pub withdrawals_enabled : Call W Bool
  unfolding require_initialized get_instance
  withdrawals_enabled = do require_initialized; get_instance (λ i. i.withdrawals_enabled)

  unfoldable pub source_config : Call W (Bytes × Bytes)
  unfolding require_initialized get_instance
  source_config = do
    require_initialized
    source_chain ← get_instance (λ i. i.source_chain)
    source_address ← get_instance (λ i. i.source_address)
    pure (source_chain, source_address)

module _ {W : Type 0} (env : Env) where
  unfoldable pub register_recipient : Address → Bytes → Call W (Unit {0})
  unfolding require_initialized write_recipient_mapping
  register_recipient user evm_address = do
    require_initialized
    require_auth env user
    write_recipient_mapping evm_address user
    publish (Event.recipient_registered user evm_address)

  unfoldable pub set_rate_limits : (max_mint max_burn : ℤ) (epoch_duration : ℕ) → Call W (Unit {0})
  unfolding require_initialized require_admin_auth set_instance
  set_rate_limits max_mint max_burn epoch_duration = do
    require_initialized
    require_admin_auth env
    panic_if (ltb_ℤ max_mint (pos 0) || ltb_ℤ max_burn (pos 0) || epoch_duration == 0)
        invalid_amount
    set_instance (λ i. record i {
      max_mint_per_epoch = max_mint;
      max_burn_per_epoch = max_burn;
      epoch_duration = epoch_duration;
    })

  unfoldable pub pause : Call W (Unit {0})
  unfolding require_initialized require_admin_auth set_instance
  pause = do
    require_initialized
    require_admin_auth env
    set_instance (λ i. record i { paused = true })

  unfoldable pub unpause : Call W (Unit {0})
  unfolding require_initialized require_admin_auth set_instance
  unpause = do
    require_initialized
    require_admin_auth env
    set_instance (λ i. record i { paused = false })

  unfoldable pub set_withdrawals_enabled : Bool → Call W (Unit {0})
  unfolding require_initialized require_admin_auth set_instance
  set_withdrawals_enabled enabled = do
    require_initialized
    require_admin_auth env
    set_instance (λ i. record i { withdrawals_enabled = enabled })
    publish (Event.withdrawals_enabled_set enabled)

  unfoldable pub set_source_config : (source_chain source_address : Bytes) → Call W (Unit {0})
  unfolding require_initialized require_admin_auth set_instance
  set_source_config source_chain source_address = do
    require_initialized
    require_admin_auth env
    set_instance (λ i. record i { source_chain = source_chain; source_address = source_address })
    publish (Event.source_config_set source_chain source_address)

  unfoldable pub set_admin : Address → Call W (Unit {0})
  unfolding require_initialized require_admin_auth set_instance
  set_admin new_admin = do
    require_initialized
    require_admin_auth env
    set_instance (λ i. record i { admin = new_admin })

  unfoldable pub upgrade : ℕ → Call W (Unit {0})
  unfolding require_initialized require_admin_auth
  upgrade new_wasm_hash = do
    require_initialized
    require_admin_auth env
    update λ s. record s { wasm_hash = new_wasm_hash }
