-- ===== src/System.antt =====
-- contracts/bridge-handler/src/lib.rs over contracts/token/src/lib.rs: the handler whose token is the
-- token of this development. The gateway and the gas service stay outside.
pub mod Ledger
pub mod Refines
mod Tests
use helix_mongolian_spring.Common.{
  ℕ, ◌≡◌, Bool, true, false, Option, none, some, List, [], ◌∷◌, ◌==◌, ◌||◌, if◌then◌else◌, ℤ,
  Address, Bytes, Env, ok, err, commit, World,
}
use helix_mongolian_spring.Token
use helix_mongolian_spring.Token.Calls
use helix_mongolian_spring.Token.Reach
use helix_mongolian_spring.Bridge
use helix_mongolian_spring.Bridge.{Externals, Library, GasToken}
use helix_mongolian_spring.Bridge.Transactions as Handler

-- The Axelar contracts, over a type `A` of their storage.
pub record Axelar (A : Type 0) : Type 0 where
  pub validate_message :
      (gateway caller : Address) (source_chain message_id source_address payload_hash : Bytes)
      → A
      → Option (Bool × A)
  pub call_contract :
      (gateway caller : Address) (destination_chain destination_address payload : Bytes)
      → A
      → Option A
  pub pay_gas :
      (gas_service sender : Address) (destination_chain destination_address payload : Bytes)
      (spender : Address)
      → GasToken
      → (metadata : Bytes) → A
      → Option A

pub record Outside (A : Type 0) : Type 0 where
  pub token : Token.Store
  pub axelar : A

abbrev pub System : Type 0 → Type 0
System A = World Bridge.Store (Outside A)

module _ {A : Type 0} (token_address : Address) (x : Axelar A) (env : Env) where
  -- a call by the handler, for which the handler's own authorisation is there
  abbrev pub token_env : Env
  token_env = record {
    timestamp = env.timestamp;
    sequence = env.sequence;
    current_contract = token_address;
    authorized = λ a. a == env.current_contract;
  }

  -- a call of the token at an address; there is none at another one
  abbrev pub call_token : Address → Token.Call (Unit {0}) → Outside A → Option (Outside A)
  call_token address call o =
      if address == token_address
      then elim (call o.token) [ ok (_, t) ↦ some (record o { token = t }) | err _ ↦ none ]
      else none

  abbrev pub linked : Externals (Outside A)
  linked = record {
    validate_message = λ gateway caller chain id address hash o.
        elim (x.validate_message gateway caller chain id address hash o.axelar) [
          | none ↦ none
          | some r ↦ some (r.0, record o { axelar = r.1 })
        ];
    call_contract = λ gateway caller chain address payload o.
        elim (x.call_contract gateway caller chain address payload o.axelar) [
          | none ↦ none
          | some a ↦ some (record o { axelar = a })
        ];
    pay_gas = λ gas sender chain address payload spender token metadata o.
        elim (x.pay_gas gas sender chain address payload spender token metadata o.axelar) [
          | none ↦ none
          | some a ↦ some (record o { axelar = a })
        ];
    bridge_mint = λ token to n. call_token token (Calls.bridge_mint token_env to n);
    bridge_burn = λ token from n. call_token token (Calls.bridge_burn token_env from n);
    update_exchange_rate = λ token n. call_token token (Calls.update_exchange_rate token_env n);
  }

-- A transaction: a call of the handler, a call of the token from elsewhere, or something that happens to the
-- Axelar contracts.
pub data Tx (A : Type 0) : Type 0 where
  to_handler : Env → Handler.Op → Tx A
  to_token : Env → Token.Reach.Op → Tx A
  elsewhere : A → Tx A

-- A call of `vault_mint`.
abbrev pub issues : Token.Reach.Op → Bool
issues (Token.Reach.Op.vault_mint to n) = true
issues op = false

module _ {A : Type 0} (lib : Library) (x : Axelar A) (handler vault token : Address) where
  abbrev pub at_handler : Env → Env
  at_handler env = record env { current_contract = handler }

  -- A call of the token from elsewhere does not carry the handler's authorisation, which the host gives to
  -- the handler's own calls alone; and the vault's does not come with `vault_mint`, which the vault's
  -- code does not call.
  abbrev pub IsForeign : Tx A → Type 0
  IsForeign (to_handler env op) = Unit
  IsForeign (to_token env op) =
      (env.authorized handler ≡ false) × (issues op ≡ true → env.authorized vault ≡ false)
  IsForeign (elsewhere a) = Unit

  unfoldable pub step : Tx A → System A → System A
  step (to_handler env op) w =
      commit (Handler.apply lib (linked token x (at_handler env)) (at_handler env) op) w
  step (to_token env op) w =
      let token = commit (Token.Reach.apply env op) w.outside.token in
      record { store = w.store; outside = record { token = token; axelar = w.outside.axelar } }
  step (elsewhere a) w = record {
    store = w.store;
    outside = record { token = w.outside.token; axelar = a };
  }

  unfoldable pub run : List (Tx A) → System A → System A
  run [] w = w
  run (tx ∷ txs) w = run txs (step tx w)
