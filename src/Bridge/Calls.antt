-- ===== src/Bridge/Calls.antt =====
-- contracts/bridge-handler/src/lib.rs: the entry points of the bridge handler and the messages that it
-- processes.
use helix_mongolian_spring.Common.{
  ℕ, not, none, some, [], ℤ, ltb, ltb_ℤ, ◌==◌, if◌then◌else◌, Address, Bytes, length, get_elem?,
  eqb_bytes, Env, pure, ◌>>=◌, ◌>>◌, panic_if, require_auth, invoke, invoke_for,
}
use helix_mongolian_spring.Bridge.{
  Event, Externals, Library, Call, default_gas_amount, panic, publish, ok_or, or_trap,
  require_initialized, get_instance, require_not_paused, require_withdrawals_enabled,
  require_message_not_processed, write_processed_message, read_recipient_mapping, read_epoch_mints,
  write_epoch_mints, read_epoch_burns, write_epoch_burns, validate_amount, checked_add,
  current_epoch, unauthorized, invalid_source_chain, invalid_source_address, invalid_payload,
  invalid_message_type, abi_decode_failed, invalid_amount, rate_limit_exceeded,
}
use helix_mongolian_spring.Bridge.Words.{u256_to_i128, i128_to_u256, withdrawal_nonce}
use helix_mongolian_spring.Bridge.Strkey.{contract_id_to_strkey}

abbrev pub message_type_deposit : ℕ
message_type_deposit = 1

abbrev pub message_type_withdraw : ℕ
message_type_withdraw = 2

abbrev pub message_type_yield_update : ℕ
message_type_yield_update = 3

module _ {W : Type 0} where
  -- the last byte of the first thirty-two
  unfoldable pub get_message_type : Bytes → Call W ℕ
  unfolding length get_elem?
  get_message_type payload = do
    panic_if (ltb (length payload) 32) invalid_payload
    or_trap (get_elem? payload 31)

module _ {W : Type 0} (lib : Library) (x : Externals W) (env : Env) where
  -- a recipient that registered an address, or the address that the bytes are
  unfoldable pub recipient_of : Bytes → Call W Address
  unfolding read_recipient_mapping
  recipient_of recipient_bytes = do
    registered ← read_recipient_mapping recipient_bytes
    elim registered [
      | some recipient ↦ pure recipient
      | none ↦ or_trap (lib.address_from_str (contract_id_to_strkey recipient_bytes))
    ]

  unfoldable pub process_deposit : (message_id payload payload_hash : Bytes) → Call W (Unit {0})
  unfolding require_not_paused require_message_not_processed read_epoch_mints checked_add
      get_instance write_processed_message write_epoch_mints
  process_deposit message_id payload payload_hash = do
    decoded ← ok_or abi_decode_failed (lib.abi_decode_deposit payload)
    require_not_paused
    require_message_not_processed payload_hash
    shares ← ok_or invalid_amount (u256_to_i128 decoded.shares)
    epoch ← current_epoch env
    current_mints ← read_epoch_mints epoch
    updated_mints ← checked_add current_mints shares
    max_mint_per_epoch ← get_instance (λ i. i.max_mint_per_epoch)
    panic_if (ltb_ℤ max_mint_per_epoch updated_mints) rate_limit_exceeded
    recipient ← recipient_of decoded.stellar_recipient
    token_address ← get_instance (λ i. i.token_contract)
    invoke (x.bridge_mint token_address recipient shares)
    write_processed_message payload_hash
    write_epoch_mints epoch updated_mints
    publish (Event.deposit_processed recipient shares message_id payload_hash)

  unfoldable pub process_yield_update :
      (message_id payload payload_hash : Bytes) → Call W (Unit {0})
  unfolding require_not_paused require_message_not_processed get_instance write_processed_message
  process_yield_update message_id payload payload_hash = do
    decoded ← ok_or abi_decode_failed (lib.abi_decode_yield_update payload)
    require_not_paused
    require_message_not_processed payload_hash
    new_total_assets ← ok_or invalid_amount (u256_to_i128 decoded.exchange_rate)
    token_address ← get_instance (λ i. i.token_contract)
    invoke (x.update_exchange_rate token_address new_total_assets)
    write_processed_message payload_hash
    publish (Event.yield_updated new_total_assets message_id payload_hash)

  -- the `match` on the type of an approved message
  unfoldable pub process_message : ℕ → (message_id payload payload_hash : Bytes) → Call W (Unit {0})
  process_message message_type message_id payload payload_hash =
      if message_type == message_type_deposit
      then process_deposit message_id payload payload_hash
      else if message_type == message_type_yield_update
      then process_yield_update message_id payload payload_hash
      else panic invalid_message_type

  unfoldable pub execute :
      (source_chain message_id source_address payload : Bytes) → Call W (Unit {0})
  unfolding require_initialized get_instance get_message_type
  execute source_chain message_id source_address payload = do
    require_initialized
    expected_chain ← get_instance (λ i. i.source_chain)
    panic_if (not (eqb_bytes source_chain expected_chain)) invalid_source_chain
    expected_address ← get_instance (λ i. i.source_address)
    panic_if (not (eqb_bytes source_address expected_address)) invalid_source_address
    gateway ← get_instance (λ i. i.gateway)
    is_approved ← invoke_for (
        x.validate_message gateway env.current_contract source_chain message_id source_address
          (lib.keccak256 payload))
    panic_if (not is_approved) unauthorized
    message_type ← get_message_type payload
    process_message message_type message_id payload (lib.keccak256 payload)

  -- the message and the payment for it
  unfoldable pub send_withdrawal : (user : Address) (payload : Bytes) → Call W (Unit {0})
  unfolding get_instance
  send_withdrawal user payload = do
    destination_chain ← get_instance (λ i. i.source_chain)
    destination_address ← get_instance (λ i. i.source_address)
    gas_service ← get_instance (λ i. i.gas_service)
    invoke (
        x.pay_gas gas_service env.current_contract destination_chain destination_address payload
          user (record { address = lib.gas_token_address; amount = default_gas_amount }) [])
    gateway ← get_instance (λ i. i.gateway)
    invoke
        (x.call_contract gateway env.current_contract destination_chain destination_address payload)

  unfoldable pub encode_withdraw_message : Bytes → ℤ → ℕ → Call W Bytes
  encode_withdraw_message eth_recipient shares nonce = do
    word ← ok_or invalid_amount (i128_to_u256 shares)
    pure (
        lib.abi_encode_withdraw (record {
          message_type = message_type_withdraw;
          eth_recipient = eth_recipient;
          shares = word;
          nonce = nonce;
        }))

  unfoldable pub initiate_withdrawal : Address → ℤ → Bytes → Call W (Unit {0})
  unfolding require_initialized require_not_paused require_withdrawals_enabled validate_amount
      read_epoch_burns checked_add get_instance write_epoch_burns
  initiate_withdrawal user shares eth_recipient = do
    require_initialized
    require_auth env user
    require_not_paused
    require_withdrawals_enabled
    validate_amount shares
    epoch ← current_epoch env
    current_burns ← read_epoch_burns epoch
    updated_burns ← checked_add current_burns shares
    max_burn_per_epoch ← get_instance (λ i. i.max_burn_per_epoch)
    panic_if (ltb_ℤ max_burn_per_epoch updated_burns) rate_limit_exceeded
    token_address ← get_instance (λ i. i.token_contract)
    invoke (x.bridge_burn token_address user shares)
    payload ←
        encode_withdraw_message eth_recipient shares (withdrawal_nonce env.sequence current_burns)
    send_withdrawal user payload
    write_epoch_burns epoch updated_burns
    publish (Event.withdrawal_initiated user shares eth_recipient (lib.keccak256 payload))
