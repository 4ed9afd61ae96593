-- ===== src/Bot.antt =====
-- liquidation-bot/src: its types (types.rs, config.rs), and what it keeps and asks for. Every request of
-- rpc.rs is a field of the parameter `Rpc`, over any type `N` of the network. A text is its bytes. The
-- log is left out.
pub mod Health
pub mod Retry
pub mod Retrying
pub mod Executor
pub mod Scanner
pub mod Sending
pub mod Agreement
pub mod Ordering
pub mod Candidates
pub mod Tracking
pub mod Positions
pub mod Iteration
mod Tests
use helix_mongolian_spring.Common.{
  ℕ, Bool, true, false, Option, none, some, List, [], ◌∷◌, ◌++◌, ℤ, pos, Bytes,
}

pub record Position : Type 0 where
  pub deposited_shares : ℤ
  pub borrowed_amount : ℤ
  pub last_update : ℕ

pub record PoolConfig : Type 0 where
  pub max_ltv : ℕ
  pub liq_threshold : ℕ
  pub liq_bonus : ℕ
  pub interest_rate : ℕ
  pub min_position : ℤ

pub record PositionKey : Type 0 where
  pub user : Bytes
  pub asset : Bytes

pub record TrackedPosition : Type 0 where
  pub key : PositionKey
  pub position : Position
  pub last_event_ledger : ℕ

pub record HealthAssessment : Type 0 where
  pub tracked : TrackedPosition
  pub health_factor : ℤ
  pub oracle_price : ℤ
  pub oracle_timestamp : ℕ
  pub expected_profit : ℤ

-- `Config`, as far as it decides anything here
pub record Config : Type 0 where
  pub vault_contract_id : Bytes
  pub oracle_contract_id : Bytes
  pub token_contract_id : Bytes
  pub start_ledger : Option ℕ
  pub min_profit_threshold : ℤ
  pub max_liquidations_per_run : ℕ

abbrev pub health_factor_one : ℤ
health_factor_one = pos 10000

abbrev pub default_liquidation_bonus_bps : ℕ
default_liquidation_bonus_bps = 500

-- A computation that changes a state also where it ends in an error, which is `none`.
abbrev pub Action : Type 0 → Type 0 → Type 0
Action S A = S → Option A × S

module _ {S A : Type 0} where
  abbrev pub pure : A → Action S A
  pure a s = (some a, s)

  abbrev pub fail : Action S A
  fail s = (none, s)

infixl 5 ◌>>=◌ ◌>>◌
abbrev pub ◌>>=◌ : {S A B : Type 0} → Action S A → (A → Action S B) → Action S B
◌>>=◌ m f s = let r = m s in elim r.0 [ some a ↦ f a r.1 | none ↦ (none, r.1) ]

abbrev pub ◌>>◌ : {S A B : Type 0} → Action S A → Action S B → Action S B
m >> k = m >>= λ _. k

-- A liquidation that was asked for, and whether the request went through.
pub record Sent : Type 0 where
  pub user : Bytes
  pub repay_amount : ℤ
  pub went_through : Bool

-- The network, and the liquidations asked of it.
pub record Session (N : Type 0) : Type 0 where
  pub network : N
  pub sent : List Sent

-- The requests. Each may find the network changed, and may fail.
pub record Rpc (N : Type 0) : Type 0 where
  pub liquidator_public_key : Bytes
  pub get_health_factor : (vault_contract_id user : Bytes) → Action N ℤ
  pub last_price : (oracle_contract_id asset : Bytes) → Action N (ℤ × ℕ)
  pub token_balance : (token_contract_id user : Bytes) → Action N ℤ
  pub read_pool_config : (vault_contract_id : Bytes) → Action N (Option PoolConfig)
  pub liquidate : Config → (user : Bytes) → (repay_amount : ℤ) → N → Bool × N

module _ {N : Type 0} where
  abbrev pub request : {A : Type 0} → Action N A → Action (Session N) A
  request m s = let r = m s.network in (r.0, record s { network = r.1 })

  abbrev pub send : Rpc N → Config → Bytes → ℤ → Action (Session N) Bool
  send rpc config user repay_amount s =
      let r = rpc.liquidate config user repay_amount s.network in
      (
        some r.0,
        record {
          network = r.1;
          sent =
              s.sent
              ++ record { user = user; repay_amount = repay_amount; went_through = r.0 } ∷ [];
        },
      )
