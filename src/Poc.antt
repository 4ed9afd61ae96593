-- ===== src/Poc.antt =====
-- contracts/bridge-poc/src/lib.rs: the bridge experiment, which sends and receives texts over Axelar.
-- Extending an entry's time to live changes no value and is left out.
pub mod Delivery
mod Tests
use mathlib.Core.Option
use helix_mongolian_spring.Common.{
  ℕ, zero, suc, Bool, true, false, not, Option, none, some, List, [], ◌∷◌, ◌++◌, ℤ, pos, ◌==◌, ltb,
  Address, Bytes, length, Env, raised, ok, err, Exec, pure, fail, gets, ◌>>=◌, ◌>>◌, panic_if,
  require_auth, World, ask, invoke, invoke_for, update,
}
use helix_mongolian_spring.Bridge.{GasToken}
use helix_mongolian_spring.System.{Axelar}

pub data BridgePocError : Type 0 where
  not_initialized empty_message message_not_approved invalid_utf8 message_too_long : BridgePocError

-- The instance entries that the constructor writes together.
pub record Instance : Type 0 where
  pub gateway : Address
  pub gas_service : Address

pub data Event : Type 0 where
  message_sent :
      (caller : Address) (destination_chain destination_address payload_hash : Bytes) → Event
  message_received : (source_chain message_id source_address payload_hash : Bytes) → Event

pub record Store : Type 0 where
  pub instance_storage : Option Instance
  pub last_received_message : Option Bytes
  pub events : List Event

-- What the call takes from the Soroban SDK and from the standard library, over texts and byte vectors as
-- their bytes: the hash and the address of the gas token; a text copied into a slice, the slice as it is
-- afterwards; the bytes made of a slice; bytes put into a buffer of a size, and the part that they fill;
-- the test of UTF-8, and the text made of bytes that pass it.
pub record Library : Type 0 where
  pub keccak256 : Bytes → Bytes
  pub gas_token_address : Address
  pub copy_into_slice : (message slice : Bytes) → Option Bytes
  pub from_slice : Bytes → Bytes
  pub to_buffer : (size : ℕ) → Bytes → Option Bytes
  pub is_utf8 : Bytes → Bool
  pub from_str : Bytes → Bytes

abbrev pub Call : Type 0 → Type 0 → Type 0
Call A R = Exec BridgePocError (World Store A) R

abbrev pub max_message_bytes : ℕ
max_message_bytes = 1024

abbrev pub default_gas_amount : ℤ
default_gas_amount = pos 10000000000

-- The storage that the constructor writes.
pub constructed : (gateway gas_service : Address) → Store
constructed gateway gas_service = record {
  instance_storage = some (record { gateway = gateway; gas_service = gas_service });
  last_received_message = none;
  events = [];
}

module _ {A : Type 0} where
  abbrev pub publish : Event → Call A (Unit {0})
  publish e = update λ s. record s { events = s.events ++ e ∷ [] }

  unfoldable pub get_instance : {R : Type 0} → (Instance → R) → Call A R
  get_instance field w = elim w.store.instance_storage [
    | none ↦ err (raised not_initialized)
    | some i ↦ ok (field i, w)
  ]

  unfoldable pub require_initialized : Call A (Unit {0})
  unfolding get_instance
  require_initialized = do
    gateway ← get_instance (λ i. i.gateway)
    gas_service ← get_instance (λ i. i.gas_service)
    pure tt

  unfoldable pub received_message : Call A (Option Bytes)
  unfolding require_initialized
  received_message = do require_initialized; gets (λ w. w.store.last_received_message)

-- `[0_u8; MAX_MESSAGE_BYTES]`
unfoldable pub zeros : ℕ → Bytes
zeros zero = []
zeros (suc n) = 0 ∷ zeros n

-- `&mut buffer[..length]` of a buffer that is not shorter
unfoldable pub prefix : ℕ → Bytes → Bytes
prefix zero buffer = []
prefix (suc n) [] = []
prefix (suc n) (b ∷ buffer) = b ∷ prefix n buffer

module _ {A : Type 0} (lib : Library) (x : Axelar A) (env : Env) where
  unfoldable pub message_to_bytes : Bytes → Call A Bytes
  unfolding length
  message_to_bytes message = do
    panic_if (length message == 0) empty_message
    panic_if (ltb max_message_bytes (length message)) message_too_long
    slice ←
        ask (λ o. lib.copy_into_slice message (prefix (length message) (zeros max_message_bytes)))
    pure (lib.from_slice slice)

  unfoldable pub bytes_to_message : Bytes → Call A Bytes
  unfolding length
  bytes_to_message payload = do
    panic_if (ltb max_message_bytes (length payload)) message_too_long
    bytes ← ask (λ o. lib.to_buffer max_message_bytes payload)
    panic_if (not (lib.is_utf8 bytes)) invalid_utf8
    pure (lib.from_str bytes)

  unfoldable pub send_message :
      (caller : Address) (destination_chain destination_address message : Bytes) → Call A (Unit {0})
  unfolding require_initialized message_to_bytes get_instance
  send_message caller destination_chain destination_address message = do
    require_initialized
    require_auth env caller
    payload ← message_to_bytes message
    gateway ← get_instance (λ i. i.gateway)
    gas_service ← get_instance (λ i. i.gas_service)
    invoke (
        x.pay_gas gas_service env.current_contract destination_chain destination_address payload
          caller (record { address = lib.gas_token_address; amount = default_gas_amount }) [])
    invoke
        (x.call_contract gateway env.current_contract destination_chain destination_address payload)
    publish
        (Event.message_sent caller destination_chain destination_address (lib.keccak256 payload))

  unfoldable pub execute :
      (source_chain message_id source_address payload : Bytes) → Call A (Unit {0})
  unfolding require_initialized bytes_to_message get_instance
  execute source_chain message_id source_address payload = do
    require_initialized
    gateway ← get_instance (λ i. i.gateway)
    is_approved ← invoke_for (
        x.validate_message gateway env.current_contract source_chain message_id source_address
          (lib.keccak256 payload))
    panic_if (not is_approved) message_not_approved
    received_message ← bytes_to_message payload
    update λ s. record s { last_received_message = some received_message }
    publish (Event.message_received source_chain message_id source_address (lib.keccak256 payload))
