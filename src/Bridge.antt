-- ===== src/Bridge.antt =====
-- contracts/bridge-handler/src/lib.rs: the storage of the bridge handler and the functions on it. `Words`
-- and `Strkey` have its conversions, `Calls` its entry points. The contracts that it calls are the
-- parameter `Externals`; what it takes from the host and from alloy is the parameter `Library`.
-- Extending an entry's time to live changes no value and is left out.
pub mod Words
pub mod Strkey
pub mod Calls
pub mod Admin
pub mod Runs
pub mod Withdrawals
pub mod Executions
pub mod Transactions
pub mod Messages
pub mod Reach
pub mod Limits
pub mod Delivery
mod Tests
use mathlib.Core.Option
use helix_mongolian_spring.Common.{
  ℕ, ◌^◌, ◌-◌, ◌/◌, Bool, true, false, not, Option, none, some, List, [], ◌∷◌, ◌++◌, ℤ, pos, ◌+ℤ◌,
  ltb_ℤ, ◌==◌, if◌then◌else◌, Address, Bytes, eqb_bytes, Env, raised, callee, ok, err, Exec, pure,
  fail, gets, ◌>>=◌, ◌>>◌, panic_if, checked, require_auth, Map, get, put, World, update, i128_max,
}

pub data BridgeHandlerError : Type 0 where
  not_initialized unauthorized is_paused invalid_source_chain : BridgeHandlerError
  invalid_source_address message_already_processed rate_limit_exceeded : BridgeHandlerError
  invalid_payload invalid_message_type invalid_amount abi_decode_failed : BridgeHandlerError
  withdrawals_disabled : BridgeHandlerError

pub record DepositMessage : Type 0 where
  pub message_type : ℕ
  pub stellar_recipient : Bytes
  pub shares : ℕ
  pub nonce : ℕ

pub record WithdrawMessage : Type 0 where
  pub message_type : ℕ
  pub eth_recipient : Bytes
  pub shares : ℕ
  pub nonce : ℕ

pub record YieldUpdateMessage : Type 0 where
  pub message_type : ℕ
  pub exchange_rate : ℕ
  pub timestamp : ℕ
  pub nonce : ℕ

pub record GasToken : Type 0 where
  pub address : Address
  pub amount : ℤ

-- The instance entries, which the constructor writes together.
pub record Instance : Type 0 where
  pub admin : Address
  pub gateway : Address
  pub gas_service : Address
  pub token_contract : Address
  pub vault_contract : Address
  pub source_chain : Bytes
  pub source_address : Bytes
  pub paused : Bool
  pub max_mint_per_epoch : ℤ
  pub max_burn_per_epoch : ℤ
  pub epoch_duration : ℕ
  pub withdrawals_enabled : Bool

pub data Event : Type 0 where
  recipient_registered : Address → Bytes → Event
  withdrawal_initiated : Address → ℤ → (eth_recipient payload_hash : Bytes) → Event
  withdrawals_enabled_set : Bool → Event
  source_config_set : (source_chain source_address : Bytes) → Event
  deposit_processed : Address → ℤ → (message_id payload_hash : Bytes) → Event
  yield_updated : ℤ → (message_id payload_hash : Bytes) → Event

pub record Store : Type 0 where
  pub instance_storage : Option Instance
  pub processed_messages : Bytes → Bool
  pub recipient_mapping : Bytes → Option Address
  pub epoch_mints : Map ℤ
  pub epoch_burns : Map ℤ
  pub wasm_hash : ℕ
  pub events : List Event

-- The Axelar gateway and gas service, and the share token, over a type `W` of their storage. `none`
-- is a call that fails. The handler authorizes each call of the token, so that the token's
-- `require_auth` of the handler passes.
pub record Externals (W : Type 0) : Type 0 where
  pub validate_message :
      (gateway caller : Address) (source_chain message_id source_address payload_hash : Bytes)
      → W
      → Option (Bool × W)
  pub call_contract :
      (gateway caller : Address) (destination_chain destination_address payload : Bytes)
      → W
      → Option W
  pub pay_gas :
      (gas_service sender : Address) (destination_chain destination_address payload : Bytes)
      (spender : Address)
      → GasToken
      → (metadata : Bytes) → W
      → Option W
  pub bridge_mint : (token to : Address) → ℤ → W → Option W
  pub bridge_burn : (token from : Address) → ℤ → W → Option W
  pub update_exchange_rate : (token : Address) → ℤ → W → Option W

-- The host's hash and parser of addresses, and alloy's ABI coding. `none` is a failure.
pub record Library : Type 0 where
  pub keccak256 : Bytes → Bytes
  pub address_from_str : Bytes → Option Address
  pub gas_token_address : Address
  pub abi_decode_deposit : Bytes → Option DepositMessage
  pub abi_decode_yield_update : Bytes → Option YieldUpdateMessage
  pub abi_encode_withdraw : WithdrawMessage → Bytes

abbrev pub Call : Type 0 → Type 0 → Type 0
Call W A = Exec BridgeHandlerError (World Store W) A

abbrev pub default_epoch_duration : ℕ
default_epoch_duration = 17280

abbrev pub default_gas_amount : ℤ
default_gas_amount = pos 10000000000

-- The storage that the constructor writes.
pub constructed :
    (admin gateway gas_service token vault : Address) (source_chain source_address : Bytes) → Store
constructed admin gateway gas_service token vault source_chain source_address = record {
  instance_storage = some (record {
    admin = admin;
    gateway = gateway;
    gas_service = gas_service;
    token_contract = token;
    vault_contract = vault;
    source_chain = source_chain;
    source_address = source_address;
    paused = false;
    max_mint_per_epoch = pos i128_max;
    max_burn_per_epoch = pos i128_max;
    epoch_duration = default_epoch_duration;
    withdrawals_enabled = false;
  });
  processed_messages = λ h. false;
  recipient_mapping = λ b. none;
  epoch_mints = [];
  epoch_burns = [];
  wasm_hash = 0;
  events = [];
}

-- `get(&key).unwrap_or(0)`
abbrev pub count_of : ℕ → Map ℤ → ℤ
count_of epoch m = elim (get epoch m) [ none ↦ pos 0 | some n ↦ n ]

module _ {W : Type 0} where
  abbrev pub panic : {A : Type 0} → BridgeHandlerError → Call W A
  panic e = fail (raised e)

  abbrev pub publish : Event → Call W (Unit {0})
  publish e = update λ s. record s { events = s.events ++ e ∷ [] }

  -- `ok_or`
  abbrev pub ok_or : {A : Type 0} → BridgeHandlerError → Option A → Call W A
  ok_or e none = panic e
  ok_or e (some a) = pure a

  -- a failure of the host, which ends the invocation
  abbrev pub or_trap : {A : Type 0} → Option A → Call W A
  or_trap none = fail callee
  or_trap (some a) = pure a

  pub require_initialized : Call W (Unit {0})
  require_initialized w = elim w.store.instance_storage [
    | none ↦ err (raised not_initialized)
    | some _ ↦ ok (tt, w)
  ]

  pub get_instance : {A : Type 0} → (Instance → A) → Call W A
  get_instance field w = elim w.store.instance_storage [
    | none ↦ err (raised not_initialized)
    | some i ↦ ok (field i, w)
  ]

  -- `env.storage().instance().set`, after `require_initialized`
  pub set_instance : (Instance → Instance) → Call W (Unit {0})
  set_instance change =
      update λ s. record s { instance_storage = Option.map change s.instance_storage }

  -- `Self::admin(&env).require_auth()`
  pub require_admin_auth : Env → Call W (Unit {0})
  unfolding get_instance
  require_admin_auth env = do admin ← get_instance (λ i. i.admin); require_auth env admin

  pub require_not_paused : Call W (Unit {0})
  unfolding get_instance
  require_not_paused = do paused ← get_instance (λ i. i.paused); panic_if paused is_paused

  pub require_withdrawals_enabled : Call W (Unit {0})
  unfolding get_instance
  require_withdrawals_enabled = do
    enabled ← get_instance (λ i. i.withdrawals_enabled)
    panic_if (not enabled) withdrawals_disabled

  pub require_message_not_processed : Bytes → Call W (Unit {0})
  require_message_not_processed payload_hash w =
      panic_if (w.store.processed_messages payload_hash) message_already_processed w

  pub write_processed_message : Bytes → Call W (Unit {0})
  write_processed_message payload_hash = update λ s. record s {
    processed_messages = λ h. if eqb_bytes h payload_hash then true else s.processed_messages h;
  }

  pub read_recipient_mapping : Bytes → Call W (Option Address)
  read_recipient_mapping evm_address = gets λ w. w.store.recipient_mapping evm_address

  pub write_recipient_mapping : Bytes → Address → Call W (Unit {0})
  write_recipient_mapping evm_address user = update λ s. record s {
    recipient_mapping = λ b. if eqb_bytes b evm_address then some user else s.recipient_mapping b;
  }

  pub read_epoch_mints : ℕ → Call W ℤ
  read_epoch_mints epoch = gets λ w. count_of epoch w.store.epoch_mints

  pub write_epoch_mints : ℕ → ℤ → Call W (Unit {0})
  write_epoch_mints epoch amount =
      update λ s. record s { epoch_mints = put epoch (some amount) s.epoch_mints }

  pub read_epoch_burns : ℕ → Call W ℤ
  read_epoch_burns epoch = gets λ w. count_of epoch w.store.epoch_burns

  pub write_epoch_burns : ℕ → ℤ → Call W (Unit {0})
  write_epoch_burns epoch amount =
      update λ s. record s { epoch_burns = put epoch (some amount) s.epoch_burns }

  pub validate_amount : ℤ → Call W (Unit {0})
  validate_amount amount = panic_if (ltb_ℤ amount (pos 0)) invalid_amount

  pub checked_add : ℤ → ℤ → Call W ℤ
  checked_add left right = checked invalid_amount (left +ℤ right)

  pub current_epoch : Env → Call W ℕ
  unfolding get_instance
  current_epoch env = do
    epoch_duration ← get_instance (λ i. i.epoch_duration)
    panic_if (epoch_duration == 0) invalid_amount
    pure (env.sequence / epoch_duration)
