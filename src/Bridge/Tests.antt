-- ===== src/Bridge/Tests.antt =====
-- contracts/bridge-handler/src/lib.rs: a handler on concrete messages, and the theorems applied to it.
use helix_mongolian_spring.Common.{
  ◌%◌, ◌/◌, ℕ, ◌+◌, ◌-◌, ◌^◌, ◌≡◌, refl, some, none, true, false, List, [], ◌∷◌, pos, ◌+ℤ◌, in_i128,
  arith, Bytes, Env, ok, err, raised, commit, World, get, put, length, get_elem?, eqb_bytes,
}
use helix_mongolian_spring.Bridge.{
  message_already_processed, Instance, Store, Externals, Library, constructed, current_epoch,
  get_instance, read_epoch_mints, write_epoch_mints, checked_add, require_initialized,
  require_not_paused, require_message_not_processed, write_processed_message,
  read_recipient_mapping,
}
use helix_mongolian_spring.Bridge.Words.{u256_to_i128}
use helix_mongolian_spring.Bridge.Calls.{
  process_deposit, process_message, get_message_type, recipient_of, send_withdrawal,
  encode_withdraw_message,
}
use helix_mongolian_spring.Bridge.Calls
use helix_mongolian_spring.Bridge.Transactions.{Op, apply}
use helix_mongolian_spring.Bridge.Reach.{run, IsSettled, run-constructed-IsSettled}
use helix_mongolian_spring.Bridge.Delivery.{process_deposit-delivers}
use helix_mongolian_spring.Bridge.Strkey.{crc16_xmodem, crc16_from, crc16_round}
use helix_mongolian_spring.Bridge.Strkey.Checksum.{register_from, crc16_xmodem-register_from}
use helix_mongolian_spring.Bridge.Limits.{Limited, apply-Limited}

-- Thirty-one zeros and the type.
abbrev deposit_payload : Bytes
deposit_payload =
    0 ∷ 0 ∷ 0 ∷ 0 ∷ 0 ∷ 0 ∷ 0 ∷ 0 ∷ 0 ∷ 0 ∷ 0 ∷ 0 ∷ 0 ∷ 0 ∷ 0 ∷ 0 ∷ 0 ∷ 0 ∷ 0 ∷ 0 ∷ 0 ∷ 0 ∷ 0 ∷ 0
    ∷ 0 ∷ 0 ∷ 0 ∷ 0 ∷ 0 ∷ 0 ∷ 0 ∷ 1 ∷ []

abbrev alloy : Library
alloy = record {
  keccak256 = λ b. b;
  address_from_str = λ s. some 6;
  gas_token_address = 8;
  abi_decode_deposit =
      λ b. some (record { message_type = 1; stellar_recipient = 7 ∷ []; shares = 250; nonce = 1 });
  abi_decode_yield_update = λ b. none;
  abi_encode_withdraw = λ m. m.nonce ∷ [];
}

-- The other contracts keep a count of the calls.
abbrev axelar : Externals ℕ
axelar = record {
  validate_message = λ gateway caller c m a h o. some (true, o + 1);
  call_contract = λ gateway caller c a p o. some (o + 1);
  pay_gas = λ gas sender c a p spender token metadata o. some (o + 1);
  bridge_mint = λ token to n o. some (o + 1);
  bridge_burn = λ token from n o. some (o + 1);
  update_exchange_rate = λ token n o. some (o + 1);
}

abbrev now : Env
now = record { timestamp = 1000; sequence = 40000; current_contract = 9; authorized = λ a. true }

abbrev later : Env
later = record now { sequence = 50000 }

abbrev handler : Instance
handler = record {
  admin = 1;
  gateway = 2;
  gas_service = 3;
  token_contract = 4;
  vault_contract = 5;
  source_chain = 101 ∷ [];
  source_address = 102 ∷ [];
  paused = false;
  max_mint_per_epoch = pos (2 ^ 127 - 1);
  max_burn_per_epoch = pos (2 ^ 127 - 1);
  epoch_duration = 17280;
  withdrawals_enabled = false;
}

abbrev registered : Store
registered = record {
  instance_storage = some handler;
  processed_messages = λ h. false;
  recipient_mapping = λ b. some 6;
  epoch_mints = [];
  epoch_burns = [];
  wasm_hash = 0;
  events = [];
}

abbrev ready : World Store ℕ
ready = record { store = registered; outside = 0 }

abbrev deposit_op : Op
deposit_op = Op.execute (101 ∷ []) (103 ∷ []) (102 ∷ []) deposit_payload

abbrev deposited : World Store ℕ
unfolding apply Calls.execute process_message process_deposit get_message_type recipient_of
    current_epoch get_instance read_epoch_mints write_epoch_mints checked_add require_initialized
    require_not_paused require_message_not_processed write_processed_message read_recipient_mapping
    u256_to_i128 eqb_bytes length get_elem? in_i128 ◌+ℤ◌ put get
deposited = commit (apply alloy axelar now deposit_op) ready

abbrev returns : apply alloy axelar now deposit_op ready ≡ ok (tt, deposited)
unfolding apply Calls.execute process_message process_deposit get_message_type recipient_of
    current_epoch get_instance read_epoch_mints write_epoch_mints checked_add require_initialized
    require_not_paused require_message_not_processed write_processed_message read_recipient_mapping
    u256_to_i128 eqb_bytes length get_elem? in_i128 ◌+ℤ◌ put get
returns = refl

-- A deposit of 250 shares leaves the counts of the other epochs.
apply-Limited_example : Limited now handler registered deposited.store
apply-Limited_example =
    apply-Limited alloy axelar now deposit_op handler ready deposited refl returns

abbrev txs : List (ℕ × Env × Op)
txs =
    (0, now, Op.register_recipient 6 (7 ∷ []))
    ∷ (0, now, deposit_op)
    ∷ (9, now, deposit_op)
    ∷ (9, now, Op.set_withdrawals_enabled true)
    ∷ (9, now, Op.initiate_withdrawal 6 (pos 100) (7 ∷ []))
    ∷ []

run-constructed-IsSettled_example :
    IsSettled (run alloy axelar txs (constructed 1 2 3 4 5 (101 ∷ []) (102 ∷ [])))
run-constructed-IsSettled_example =
    run-constructed-IsSettled alloy axelar txs 1 2 3 4 5 (101 ∷ []) (102 ∷ [])

process_deposit-delivers_example :
    (s : Store) × (process_deposit alloy axelar now [] deposit_payload (0 ∷ []) ready
      ≡ ok (tt, record { store = s; outside = 1 }))
    × (process_deposit alloy axelar later
          (1 ∷ [])
          deposit_payload
          (0 ∷ [])
          (record { store = s; outside = 5 })
        ≡ err (raised message_already_processed))
process_deposit-delivers_example =
    process_deposit-delivers alloy axelar now later [] (1 ∷ []) deposit_payload (0 ∷ []) handler
      (record { message_type = 1; stellar_recipient = 7 ∷ []; shares = 250; nonce = 1 }) (pos 250) 6
      ready 1 5 refl refl (omega arith) refl refl (unfold u256_to_i128 in refl)
      (unfold ◌+ℤ◌ in_i128 get in refl) (unfold ◌+ℤ◌ get in omega arith) refl refl

-- "123456789", whose checksum of this kind is 0x31c3
abbrev nine_digits : Bytes
nine_digits = 49 ∷ 50 ∷ 51 ∷ 52 ∷ 53 ∷ 54 ∷ 55 ∷ 56 ∷ 57 ∷ []

crc16_xmodem-register_from_example :
    crc16_xmodem nine_digits
    ≡ register_from 0 nine_digits % 2 ^ 8 ∷ register_from 0 nine_digits / 2 ^ 8 ∷ []
crc16_xmodem-register_from_example = crc16_xmodem-register_from nine_digits (
  omega arith,
  (
    omega arith,
    (
      omega arith,
      (omega arith, (omega arith, (omega arith, (omega arith, (omega arith, (omega arith, tt)))))),
    ),
  ),
)

check_of_nine_digits : crc16_xmodem nine_digits ≡ 0xc3 ∷ 0x31 ∷ []
unfolding crc16_xmodem crc16_from crc16_round get_elem?
check_of_nine_digits = refl
