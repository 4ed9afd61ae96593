-- ===== src/System/Tests.antt =====
-- contracts/bridge-handler/src/lib.rs over contracts/token/src/lib.rs: a deposit, a replay of it, a
-- withdrawal and a burn, and the theorems applied to them.
use helix_mongolian_spring.Common.{
  All, ◌==◌, refl, some, none, true, false, List, [], ◌∷◌, pos, ◌+ℤ◌, arith, Bytes, Env, total,
}
use helix_mongolian_spring.Token
use helix_mongolian_spring.Token.Reach as Shares
use helix_mongolian_spring.Bridge.{Library}
use helix_mongolian_spring.Bridge.Transactions as Handler
use helix_mongolian_spring.System.{Axelar, System, Tx, to_handler, to_token, IsForeign, run}
use helix_mongolian_spring.System.Ledger.{Reach, IsCovered, ledger, sum_of}
use helix_mongolian_spring.System.Refines.{IsLinked, run-Reach, run-IsCovered}

-- Thirty-one zeros and the type.
abbrev deposit_payload : Bytes
deposit_payload =
    0 ∷ 0 ∷ 0 ∷ 0 ∷ 0 ∷ 0 ∷ 0 ∷ 0 ∷ 0 ∷ 0 ∷ 0 ∷ 0 ∷ 0 ∷ 0 ∷ 0 ∷ 0 ∷ 0 ∷ 0 ∷ 0 ∷ 0 ∷ 0 ∷ 0 ∷ 0 ∷ 0
    ∷ 0 ∷ 0 ∷ 0 ∷ 0 ∷ 0 ∷ 0 ∷ 0 ∷ 1 ∷ []

abbrev alloy : Library
alloy = record {
  keccak256 = λ b. b;
  address_from_str = λ s. some 6;
  gas_token_address = 8;
  abi_decode_deposit =
      λ b. some (record { message_type = 1; stellar_recipient = 7 ∷ []; shares = 250; nonce = 1 });
  abi_decode_yield_update = λ b. none;
  abi_encode_withdraw = λ m. m.nonce ∷ [];
}

abbrev axelar : Axelar (Unit {0})
axelar = record {
  validate_message = λ gateway caller c m a h o. some (true, o);
  call_contract = λ gateway caller c a p o. some o;
  pay_gas = λ gas sender c a p spender token metadata o. some o;
}

abbrev now : Env
now = record { timestamp = 1000; sequence = 40000; current_contract = 0; authorized = λ a. true }

-- The handler is at 9, the vault at 2, the token at 4.
abbrev hsteth : Token.Store
hsteth = record {
  instance_storage = some (record {
    admin = 1;
    vault_contract = 2;
    bridge_handler = 9;
    name = "Helix Staked ETH";
    symbol = "hstETH";
    decimals = 7;
    total_shares = pos 0;
    total_assets = pos 0;
  });
  balances = [];
  allowances = λ f p. none;
  wasm_hash = 0;
  events = [];
}

abbrev deployed : System (Unit {0})
deployed = record {
  store = record {
    instance_storage = some (record {
      admin = 1;
      gateway = 2;
      gas_service = 3;
      token_contract = 4;
      vault_contract = 2;
      source_chain = 101 ∷ [];
      source_address = 102 ∷ [];
      paused = false;
      max_mint_per_epoch = pos 1000;
      max_burn_per_epoch = pos 1000;
      epoch_duration = 17280;
      withdrawals_enabled = true;
    });
    processed_messages = λ h. false;
    recipient_mapping = λ b. some 6;
    epoch_mints = [];
    epoch_burns = [];
    wasm_hash = 0;
    events = [];
  };
  outside = record { token = hsteth; axelar = tt };
}

-- A transaction that the account 6 authorised.
abbrev by_holder : Env
by_holder = record now { authorized = λ a. a == 6 }

abbrev txs : List (Tx (Unit {0}))
txs =
    to_handler now (Handler.Op.execute (101 ∷ []) (103 ∷ []) (102 ∷ []) deposit_payload)
    ∷ to_handler now (Handler.Op.execute (101 ∷ []) (103 ∷ []) (102 ∷ []) deposit_payload)
    ∷ to_handler now (Handler.Op.initiate_withdrawal 6 (pos 100) (7 ∷ []))
    ∷ to_token by_holder (Shares.Op.burn 6 (pos 50))
    ∷ []

hsteth-IsLinked : IsLinked 2 9 hsteth
unfolding total
hsteth-IsLinked = record {
  backed = record { backed = refl; positive = tt; assets_nonneg = omega arith };
  wired = refl;
}

txs-IsForeign : All (IsForeign alloy axelar 9 2 4) txs
txs-IsForeign = (tt, (tt, (tt, ((refl, λ h. refl), tt))))

run-Reach_example : Reach (ledger deployed) (ledger (run alloy axelar 9 2 4 txs deployed))
run-Reach_example = run-Reach alloy axelar 9 2 4 txs deployed txs-IsForeign hsteth-IsLinked

covered : IsCovered (ledger deployed)
unfolding sum_of ◌+ℤ◌
covered = omega arith

run-IsCovered_example : IsCovered (ledger (run alloy axelar 9 2 4 txs deployed))
run-IsCovered_example =
    run-IsCovered alloy axelar 9 2 4 txs deployed txs-IsForeign hsteth-IsLinked covered
