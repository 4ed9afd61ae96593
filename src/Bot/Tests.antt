-- ===== src/Bot/Tests.antt =====
-- liquidation-bot/src: two tracked positions and a network that counts requests, and the theorems applied
-- to them.
mod Scans
mod Retries
use helix_mongolian_spring.Common.{
  All, ℕ, ◌+◌, ◌≡◌, refl, Option, none, some, true, false, List, [], ◌∷◌, pos, ◌+ℤ◌, ◌*ℤ◌, ◌/ℤ◌,
  in_i128, arith, Env, eqb_bytes, ok, if◌then◌else◌,
}
use helix_mongolian_spring.Vault
use helix_mongolian_spring.Vault.{checked_mul_div_floor}
use helix_mongolian_spring.Vault.Risk.{preview_accrued_position, accrued_interest, bps_denominator}
use helix_mongolian_spring.Vault.Calls.{capped}
use helix_mongolian_spring.Bot.{TrackedPosition, HealthAssessment, PoolConfig, Config, Session, Rpc}
use helix_mongolian_spring.Bot.Health.{
  liquidation_repay_amount, expected_profit, insert, sort_by_health_factor, price_of, assess,
  assess_all, bonus_of, evaluate,
}
use helix_mongolian_spring.Bot.Candidates.{Evaluated, evaluate-Evaluated}
use helix_mongolian_spring.Bot.Agreement.{liquidation_terms}

abbrev config : Config
config = record {
  vault_contract_id = 1 ∷ [];
  oracle_contract_id = 2 ∷ [];
  token_contract_id = 3 ∷ [];
  start_ledger = none;
  min_profit_threshold = pos 10;
  max_liquidations_per_run = 1;
}

-- The health factor is 9000 of the user 7 and 8000 of any other.
abbrev client : Rpc ℕ
client = record {
  liquidator_public_key = 5 ∷ [];
  get_health_factor = λ vault user n.
      ((if eqb_bytes user (7 ∷ []) then some (pos 9000) else some (pos 8000)), n + 1);
  last_price = λ oracle asset n. (some (pos 10000000, 1000), n + 1);
  token_balance = λ token user n. (some (pos 400), n + 1);
  read_pool_config = λ vault n. (some none, n + 1);
  liquidate = λ config user amount n. (true, n + 1);
}

abbrev debtor : ℕ → ℕ → TrackedPosition
debtor user debt = record {
  key = record { user = user ∷ []; asset = 4 ∷ [] };
  position = record { deposited_shares = pos 1000; borrowed_amount = pos debt; last_update = 1000 };
  last_event_ledger = 3;
}

abbrev assessment : ℕ → ℕ → ℕ → ℕ → HealthAssessment
assessment user debt factor profit = record {
  tracked = debtor user debt;
  health_factor = pos factor;
  oracle_price = pos 10000000;
  oracle_timestamp = 1000;
  expected_profit = pos profit;
}

abbrev start : Session ℕ
start = record { network = 0; sent = [] }

abbrev found : List HealthAssessment
found = assessment 8 700 8000 17 ∷ assessment 7 600 9000 15 ∷ []

evaluated :
    evaluate config client (debtor 7 600 ∷ debtor 8 700 ∷ []) start
    ≡ (some found, record { network = 5; sent = [] })
unfolding evaluate assess_all assess price_of insert sort_by_health_factor expected_profit
    liquidation_repay_amount eqb_bytes ◌*ℤ◌ ◌/ℤ◌
evaluated = refl

evaluate-Evaluated_example : Evaluated config client (debtor 7 600 ∷ debtor 8 700 ∷ []) 0 found 5
evaluate-Evaluated_example =
    evaluate-Evaluated config client (debtor 7 600 ∷ debtor 8 700 ∷ []) found start
      (record { network = 5; sent = [] }) evaluated
