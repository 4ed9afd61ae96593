-- ===== src/Token/Calls.antt =====
-- contracts/token/src/lib.rs: the entry points of the hstETH token, `HelixToken` and its
-- `TokenInterface`.
use Prim.Native.String.{String}
use helix_mongolian_spring.Common.{
  ℕ, some, ◌||◌, ℤ, pos, ◌/ℤ◌, leb_ℤ, eqb_ℤ, if◌then◌else◌, Address, Env, pure, ◌>>=◌, ◌>>◌, modify,
  panic_if, require_auth,
}
use helix_mongolian_spring.Token.{
  Call, Event, publish, invalid_amount, mint_shares, assert_not_initialized, require_initialized,
  validate_amount, get_instance, set_instance, burn_internal, read_total_assets, read_total_shares,
  checked_mul, allowance_amount, write_allowance, read_balance, spend_balance, receive_balance,
  spend_allowance, burn_external_shares,
}

module _ (env : Env) where
  unfoldable pub initialize :
      (admin vault bridge : Address) (name symbol : String) (decimals : ℕ) → Call (Unit {0})
  unfolding assert_not_initialized
  initialize admin vault bridge name symbol decimals = do
    assert_not_initialized
    require_auth env admin
    modify λ s. record s {
      instance_storage = some (record {
        admin = admin;
        vault_contract = vault;
        bridge_handler = bridge;
        name = name;
        symbol = symbol;
        decimals = decimals;
        total_shares = pos 0;
        total_assets = pos 0;
      });
    }

  unfoldable pub vault_mint : Address → ℤ → Call (Unit {0})
  unfolding require_initialized validate_amount get_instance
  vault_mint to shares = do
    require_initialized
    validate_amount shares
    vault ← get_instance (λ i. i.vault_contract)
    require_auth env vault
    mint_shares to shares

  unfoldable pub bridge_mint : Address → ℤ → Call (Unit {0})
  unfolding require_initialized validate_amount get_instance
  bridge_mint to shares = do
    require_initialized
    validate_amount shares
    bridge ← get_instance (λ i. i.bridge_handler)
    require_auth env bridge
    mint_shares to shares

  unfoldable pub vault_burn : Address → ℤ → Call (Unit {0})
  unfolding require_initialized validate_amount get_instance
  vault_burn from shares = do
    require_initialized
    validate_amount shares
    vault ← get_instance (λ i. i.vault_contract)
    require_auth env vault
    burn_internal from shares

  unfoldable pub bridge_burn : Address → ℤ → Call (Unit {0})
  unfolding require_initialized validate_amount get_instance
  bridge_burn from shares = do
    require_initialized
    validate_amount shares
    bridge ← get_instance (λ i. i.bridge_handler)
    require_auth env bridge
    burn_internal from shares

  unfoldable pub update_exchange_rate : ℤ → Call (Unit {0})
  unfolding require_initialized get_instance set_instance read_total_assets read_total_shares
  update_exchange_rate new_total_assets = do
    require_initialized
    panic_if (leb_ℤ new_total_assets (pos 0)) invalid_amount
    bridge ← get_instance (λ i. i.bridge_handler)
    require_auth env bridge
    old_total_assets ← read_total_assets
    total_shares ← read_total_shares
    set_instance (λ i. record i { total_assets = new_total_assets })
    publish (Event.exchange_rate_update old_total_assets new_total_assets total_shares)

  unfoldable pub set_admin : Address → Call (Unit {0})
  unfolding require_initialized get_instance set_instance
  set_admin new_admin = do
    require_initialized
    current_admin ← get_instance (λ i. i.admin)
    require_auth env current_admin
    set_instance (λ i. record i { admin = new_admin })
    publish (Event.set_admin current_admin new_admin)

  unfoldable pub upgrade : ℕ → Call (Unit {0})
  unfolding require_initialized get_instance
  upgrade new_wasm_hash = do
    require_initialized
    admin ← get_instance (λ i. i.admin)
    require_auth env admin
    modify λ s. record s { wasm_hash = new_wasm_hash }

  unfoldable pub allowance : Address → Address → Call ℤ
  unfolding require_initialized allowance_amount
  allowance from spender = do require_initialized; allowance_amount env from spender

  unfoldable pub approve : Address → Address → ℤ → ℕ → Call (Unit {0})
  unfolding require_initialized validate_amount write_allowance
  approve from spender amount expiration_ledger = do
    require_initialized
    validate_amount amount
    require_auth env from
    write_allowance env from spender amount expiration_ledger
    publish (Event.approve from spender amount expiration_ledger)

  unfoldable pub transfer : (from to : Address) → ℤ → Call (Unit {0})
  unfolding require_initialized validate_amount
  transfer from to amount = do
    require_initialized
    validate_amount amount
    require_auth env from
    spend_balance from amount
    receive_balance to amount
    publish (Event.transfer from to amount)

  unfoldable pub transfer_from : (spender from to : Address) → ℤ → Call (Unit {0})
  unfolding require_initialized validate_amount
  transfer_from spender from to amount = do
    require_initialized
    validate_amount amount
    require_auth env spender
    spend_allowance env from spender amount
    spend_balance from amount
    receive_balance to amount
    publish (Event.transfer from to amount)

  unfoldable pub burn : Address → ℤ → Call (Unit {0})
  unfolding require_initialized validate_amount
  burn from amount = do
    require_initialized
    validate_amount amount
    require_auth env from
    spend_balance from amount
    burn_external_shares amount
    publish (Event.burn from amount)

  unfoldable pub burn_from : (spender from : Address) → ℤ → Call (Unit {0})
  unfolding require_initialized validate_amount
  burn_from spender from amount = do
    require_initialized
    validate_amount amount
    require_auth env spender
    spend_allowance env from spender amount
    spend_balance from amount
    burn_external_shares amount
    publish (Event.burn from amount)

-- The queries take no part of the environment.
unfoldable pub exchange_rate : Call (ℤ × ℤ)
unfolding require_initialized read_total_shares read_total_assets
exchange_rate = do
  require_initialized
  total_shares ← read_total_shares
  if eqb_ℤ total_shares (pos 0)
      then pure (pos 0, pos 0)
      else do total_assets ← read_total_assets; pure (total_assets, total_shares)

unfoldable pub assets_for_shares : ℤ → Call ℤ
unfolding require_initialized validate_amount read_total_shares read_total_assets checked_mul
assets_for_shares shares = do
  require_initialized
  validate_amount shares
  total_shares ← read_total_shares
  if eqb_ℤ total_shares (pos 0) || eqb_ℤ shares (pos 0) then pure (pos 0) else do
    total_assets ← read_total_assets
    product ← checked_mul shares total_assets
    pure (product /ℤ total_shares)

unfoldable pub shares_for_assets : ℤ → Call ℤ
unfolding require_initialized validate_amount read_total_shares read_total_assets checked_mul
shares_for_assets assets = do
  require_initialized
  validate_amount assets
  total_assets ← read_total_assets
  if eqb_ℤ total_assets (pos 0) || eqb_ℤ assets (pos 0) then pure (pos 0) else do
    total_shares ← read_total_shares
    product ← checked_mul assets total_shares
    pure (product /ℤ total_assets)

unfoldable pub total_supply : Call ℤ
unfolding require_initialized read_total_shares
total_supply = do require_initialized; read_total_shares

unfoldable pub balance : Address → Call ℤ
unfolding require_initialized read_balance
balance id = do require_initialized; read_balance id

unfoldable pub decimals : Call ℕ
unfolding require_initialized get_instance
decimals = do require_initialized; get_instance (λ i. i.decimals)

unfoldable pub name : Call String
unfolding require_initialized get_instance
name = do require_initialized; get_instance (λ i. i.name)

unfoldable pub symbol : Call String
unfolding require_initialized get_instance
symbol = do require_initialized; get_instance (λ i. i.symbol)
