-- ===== src/Poc/Tests.antt =====
-- contracts/bridge-poc/src/lib.rs: a text sent and received, and the theorem applied to it.
use helix_mongolian_spring.Common.{
  ◌+◌, ◌==◌, ltb, if◌then◌else◌, arith, ℕ, ◌≡◌, refl, some, none, true, [], ◌∷◌, Bytes, Env, ok,
  World, commit, length,
}
use helix_mongolian_spring.System.{Axelar}
use helix_mongolian_spring.Poc.{
  Store, Library, get_instance, require_initialized, message_to_bytes, prefix, zeros, send_message,
  execute, received_message,
}
use helix_mongolian_spring.Poc.Delivery.{IsDocumented, send_message-execute}

abbrev host : Library
host = record {
  keccak256 = λ b. b;
  gas_token_address = 8;
  copy_into_slice = λ message slice. if length slice == length message then some message else none;
  from_slice = λ b. b;
  to_buffer = λ size b. if ltb size (length b) then none else some b;
  is_utf8 = λ b. true;
  from_str = λ b. b;
}

host-IsDocumented : IsDocumented host
host-IsDocumented = record {
  copied = λ message slice h. ground arith;
  sliced = λ slice. refl;
  buffered = λ size b h. ground arith;
  read = λ b h. refl;
}

abbrev axelar : Axelar ℕ
axelar = record {
  validate_message = λ gateway caller c m a h o. some (true, o + 1);
  call_contract = λ gateway caller c a p o. some (o + 1);
  pay_gas = λ gas sender c a p spender token metadata o. some (o + 1);
}

abbrev now : Env
now = record { timestamp = 1000; sequence = 10; current_contract = 9; authorized = λ a. true }

-- "hi"
abbrev text : Bytes
text = 104 ∷ 105 ∷ []

abbrev deployed : World Store ℕ
deployed = record {
  store = record {
    instance_storage = some (record { gateway = 2; gas_service = 3 });
    last_received_message = none;
    events = [];
  };
  outside = 0;
}

abbrev after_sending : World Store ℕ
after_sending = commit (send_message host axelar now 5 (101 ∷ []) (102 ∷ []) text) deployed

sending :
    send_message host axelar now 5 (101 ∷ []) (102 ∷ []) text deployed ≡ ok (tt, after_sending)
unfolding send_message require_initialized message_to_bytes prefix zeros get_instance length
sending = refl

send_message-execute_example :
    ((paid : ℕ) × (axelar.call_contract 2 now.current_contract (101 ∷ []) (102 ∷ []) text paid
        ≡ some after_sending.outside))
    × ((v' : World Store ℕ) × (execute host axelar now
            (103 ∷ [])
            (104 ∷ [])
            (105 ∷ [])
            text
            deployed
          ≡ ok (tt, v'))
        × (v'.store.instance_storage ≡ deployed.store.instance_storage)
        × (received_message v' ≡ ok (some text, v')))
send_message-execute_example =
    send_message-execute host axelar host-IsDocumented now now 5 (101 ∷ []) (102 ∷ []) text
      (103 ∷ []) (104 ∷ []) (105 ∷ []) (record { gateway = 2; gas_service = 3 })
      (record { gateway = 2; gas_service = 3 }) deployed after_sending deployed 1 refl sending refl
      refl refl
