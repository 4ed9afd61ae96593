-- ===== src/Vault/Tests/Terms.antt =====
-- liquidation-bot/src and contracts/vault/src/lib.rs: a liquidation by the amount that the bot reckons, of
-- a debt on which a year's interest is due, and the theorem applied to it.
use helix_mongolian_spring.Common.{
  ◌≡◌, refl, some, true, false, [], ◌∷◌, ◌++◌, ℤ, pos, neg_ℤ, ◌+ℤ◌, ◌-ℤ◌, ◌*ℤ◌, ◌/ℤ◌, in_i128, ◌==◌,
  if◌then◌else◌, arith, Address, Env, ok, commit, get, put,
}
use helix_mongolian_spring.Vault
use helix_mongolian_spring.Vault.Risk
use helix_mongolian_spring.Vault.Calls
use helix_mongolian_spring.Vault.Accounting.{total_borrows_of}
use helix_mongolian_spring.Bot.{TrackedPosition}
use helix_mongolian_spring.Bot.Health.{liquidation_repay_amount, expected_profit}
use helix_mongolian_spring.Bot.Agreement.{liquidation_terms}

-- What the vault holds of each token.
abbrev Balances : Type 0
Balances = Address → ℤ

abbrev add_to : Address → ℤ → Balances → Balances
add_to token n o t = if t == token then o t +ℤ n else o t

-- The price has fallen to seven tenths.
abbrev market : Vault.Externals Balances
market = record {
  balance = λ token id o. some (o token);
  transfer = λ token from to n o. some (add_to token (neg_ℤ n) o);
  transfer_from = λ token spender from to n o. some (add_to token n o);
  assets_for_shares = λ token n o. some n;
  shares_for_assets = λ token n o. some n;
  lastprice = λ oracle asset o. some (pos 7000000, 31537000);
  decimals = λ oracle asset o. some 7;
}

abbrev a_year_on : Env
a_year_on = record {
  timestamp = 31537000;
  sequence = 10;
  current_contract = 0;
  authorized = λ a. true;
}

abbrev opened : Vault.Instance
opened = record {
  admin = 1;
  pool_config = record {
    max_ltv = 7000;
    liq_threshold = 8000;
    liq_bonus = 500;
    interest_rate = 1000;
    min_position = pos 10;
  };
  supported_assets = 4 ∷ [];
  oracle_address = 2;
  borrow_token = 3;
  paused = false;
  locked = false;
  total_deposits = pos 1000;
  total_borrows = pos 600;
}

abbrev stored : Vault.Position
stored = record { deposited_shares = pos 1000; borrowed_amount = pos 600; last_update = 1000 }

abbrev charging : Vault.World Balances
charging = record {
  store = record {
    instance_storage = some opened;
    positions = (5, some stored) ∷ [];
    roles = λ a r. true;
    wasm_hash = 0;
    events = [];
  };
  outside = λ t. pos 1000;
}

abbrev tracked : TrackedPosition
tracked = record {
  key = record { user = 5 ∷ []; asset = 4 ∷ [] };
  position = record { deposited_shares = pos 1000; borrowed_amount = pos 600; last_update = 1000 };
  last_event_ledger = 3;
}

abbrev after_liquidation : Vault.World Balances
after_liquidation =
    commit (Calls.liquidate market a_year_on 6 5 (liquidation_repay_amount tracked)) charging

liquidated :
    Calls.liquidate market a_year_on 6 5 (liquidation_repay_amount tracked) charging
    ≡ ok (tt, after_liquidation)
unfolding liquidation_repay_amount Calls.liquidate Calls.liquidate_locked Calls.receive_exactly
    Calls.send_exactly Calls.book_liquidation Vault.primary_supported_asset Vault.get_instance
    Vault.with_lock Vault.read_position_required Risk.preview_accrued_position Risk.accrued_interest
    Risk.oracle_price Risk.collateral_value_for_position Risk.health_factor_for_position
    Risk.require_exact_incoming_delta Risk.require_exact_outgoing_delta Vault.checked_add
    Vault.checked_sub Vault.checked_mul Vault.checked_mul_div_floor ◌+ℤ◌ ◌-ℤ◌ ◌*ℤ◌ ◌/ℤ◌ in_i128 get
    put
liquidated = refl

reported :
    after_liquidation.store.events ≡ Vault.Event.liquidation 6 5 (pos 300) (pos 450) (pos 15) ∷ []
unfolding liquidation_repay_amount Calls.liquidate Calls.liquidate_locked Calls.receive_exactly
    Calls.send_exactly Calls.book_liquidation Vault.primary_supported_asset Vault.get_instance
    Vault.with_lock Vault.read_position_required Risk.preview_accrued_position Risk.accrued_interest
    Risk.oracle_price Risk.collateral_value_for_position Risk.health_factor_for_position
    Risk.require_exact_incoming_delta Risk.require_exact_outgoing_delta Vault.checked_add
    Vault.checked_sub Vault.checked_mul Vault.checked_mul_div_floor ◌+ℤ◌ ◌-ℤ◌ ◌*ℤ◌ ◌/ℤ◌ in_i128 get
    put
reported = refl

liquidation_terms_example :
    (total_borrows_of after_liquidation.store
      ≡ total_borrows_of charging.store +ℤ neg_ℤ (liquidation_repay_amount tracked))
    × ((shares : ℤ) × (after_liquidation.store.events
          ≡ charging.store.events
            ++ Vault.Event.liquidation 6 5
                (liquidation_repay_amount tracked)
                shares
                (expected_profit (liquidation_repay_amount tracked) 500)
              ∷ []))
liquidation_terms_example =
    liquidation_terms market a_year_on tracked 6 5 opened stored charging after_liquidation refl
      (unfold get in refl) refl (omega arith) liquidated
