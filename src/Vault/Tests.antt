-- ===== src/Vault/Tests.antt =====
-- contracts/vault/src/lib.rs: a vault of one pool on concrete inputs, and the theorems applied to it.
mod Books
mod Terms
use helix_mongolian_spring.Common.{
  ℕ, ◌≡◌, ◌==◌, Bool, refl, inl, some, true, false, List, [], ◌∷◌, ℤ, pos, ◌+ℤ◌, ◌-ℤ◌, ◌*◌, ◌/◌,
  ◌*ℤ◌, ◌/ℤ◌, ◌≤ℤ◌, in_i128, neg_ℤ, if◌then◌else◌, arith, Address, Env, ok, err, raised, commit,
  get, put, total,
}
use helix_mongolian_spring.Vault.{
  Position, PoolConfig, Instance, Store, World, Externals, with_lock, is_paused, reentrancy,
  primary_supported_asset, get_instance, read_position_required, checked_sub, checked_mul_div_floor,
  checked_mul, checked_add, read_position,
}
use helix_mongolian_spring.Vault.Risk
use helix_mongolian_spring.Vault.Risk.{
  validate_config, enforce_min_position, require_exact_incoming_delta, require_exact_outgoing_delta,
  accrued_interest, preview_accrued_position, oracle_price, collateral_value_for_position,
  max_borrow_for_position, health_factor_for_position,
}
use helix_mongolian_spring.Vault.Calls
use helix_mongolian_spring.Vault.Reach.{Op, fresh, run, run-fresh-IsSound}
use helix_mongolian_spring.Vault.Accounting.{IsSound, Booked}
use helix_mongolian_spring.Vault.Solvency.{
  max_borrow-health_factor, accrued_interest_lem, preview_accrued_position_idem,
}
use helix_mongolian_spring.Vault.Interest.{Accrued, preview_accrued_position-Accrued}
use helix_mongolian_spring.Vault.Lock.{with_lock_held}
use helix_mongolian_spring.Vault.Books.{borrow_locked-Booked, repay_locked-Booked}
use helix_mongolian_spring.Vault.Unlocked.{is_locked, run-fresh-is_locked}
use helix_mongolian_spring.Vault.Outcomes.{
  receive_exactly_exact, paused_refuses, StaysHealthy, withdraw_locked_healthy,
}
use helix_mongolian_spring.Vault.Seizure.{Seized, liquidate-Seized}
use helix_mongolian_spring.Vault.Calls.{withdraw_locked}

abbrev alice : Address
alice = 5

abbrev keeper : Address
keeper = 6

abbrev collateral : Address
collateral = 4

abbrev dollar : Address
dollar = 3

abbrev contract : Address
contract = 0

-- The vault's balance in each token is all that the other contracts keep; prices are 1 at time 1000.
abbrev Balances : Type 0
Balances = Address → ℤ

abbrev add_to : Address → ℤ → Balances → Balances
add_to token n o t = if t == token then o t +ℤ n else o t

abbrev market : ℤ → Externals Balances
market price = record {
  balance = λ token id o. some (o token);
  transfer = λ token from to n o. some (add_to token (neg_ℤ n) o);
  transfer_from = λ token spender from to n o. some (add_to token n o);
  assets_for_shares = λ token n o. some n;
  shares_for_assets = λ token n o. some n;
  lastprice = λ oracle asset o. some (price, 1000);
  decimals = λ oracle asset o. some 7;
}

abbrev par : Externals Balances
par = market (pos 10000000)

abbrev at_time : ℕ → Env
at_time t = record {
  timestamp = t;
  sequence = 1;
  current_contract = contract;
  authorized = λ a. true;
}

abbrev pool : PoolConfig
pool = record {
  max_ltv = 7000;
  liq_threshold = 8000;
  liq_bonus = 500;
  interest_rate = 1000;
  min_position = pos 10;
}

abbrev opened : Bool → Bool → ℤ → ℤ → Instance
opened paused locked deposits borrows = record {
  admin = 1;
  pool_config = pool;
  supported_assets = collateral ∷ [];
  oracle_address = 2;
  borrow_token = dollar;
  paused = paused;
  locked = locked;
  total_deposits = deposits;
  total_borrows = borrows;
}

abbrev debtor : Position
debtor = record { deposited_shares = pos 1000; borrowed_amount = pos 600; last_update = 1000 }

abbrev vault_with : Instance → Position → Store
vault_with i p = record {
  instance_storage = some i;
  positions = (alice, some p) ∷ [];
  roles = λ a r. true;
  wasm_hash = 0;
  events = [];
}

-- alice has 1000 shares and a debt of 600; the vault holds her collateral and 400 to lend.
abbrev lending : World Balances
lending = record {
  store = vault_with (opened false false (pos 1000) (pos 600)) debtor;
  outside = λ t. pos 1000;
}

abbrev txs : List (Balances × Env × Op)
txs =
    ((λ t. pos 0), at_time 1000, Op.initialize 1 2 dollar pool)
    ∷ ((λ t. pos 0), at_time 1000, Op.add_supported_asset collateral)
    ∷ ((λ t. pos 500), at_time 1000, Op.deposit alice collateral (pos 1000))
    ∷ ((λ t. pos 500), at_time 1000, Op.borrow alice (pos 300))
    ∷ []

run-fresh-IsSound_example : IsSound (run par txs fresh)
run-fresh-IsSound_example = run-fresh-IsSound par txs

run-fresh-is_locked_example : is_locked (run par txs fresh) ≡ false
run-fresh-is_locked_example = run-fresh-is_locked par txs

-- The same store with a health factor below the threshold: the price has fallen.
abbrev fallen : Externals Balances
fallen = market (pos 7000000)

abbrev after_liquidation : World Balances
after_liquidation = commit (Calls.liquidate fallen (at_time 1000) keeper alice (pos 100)) lending

liquidated :
    Calls.liquidate fallen (at_time 1000) keeper alice (pos 100) lending
    ≡ ok (tt, after_liquidation)
unfolding Calls.liquidate Calls.liquidate_locked Calls.receive_exactly Calls.send_exactly
    Calls.book_liquidation primary_supported_asset get_instance with_lock read_position_required
    preview_accrued_position accrued_interest oracle_price collateral_value_for_position
    health_factor_for_position require_exact_incoming_delta require_exact_outgoing_delta checked_sub
    checked_mul_div_floor ◌+ℤ◌ ◌-ℤ◌ ◌*ℤ◌ ◌/ℤ◌ in_i128 get put
liquidated = refl

liquidate-Seized_example :
    Seized fallen (at_time 1000) keeper alice (pos 100) lending after_liquidation
liquidate-Seized_example =
    liquidate-Seized fallen (at_time 1000) keeper alice (pos 100) lending after_liquidation
      liquidated

abbrev after_withdrawal : World Balances
after_withdrawal = commit (withdraw_locked par (at_time 1000) alice collateral (pos 100)) lending

withdrawn :
    withdraw_locked par (at_time 1000) alice collateral (pos 100) lending
    ≡ ok (tt, after_withdrawal)
unfolding withdraw_locked Calls.receive_exactly Calls.send_exactly Calls.book_withdrawal
    Calls.require_healthy get_instance read_position_required enforce_min_position
    preview_accrued_position accrued_interest oracle_price collateral_value_for_position
    health_factor_for_position require_exact_incoming_delta require_exact_outgoing_delta checked_sub
    checked_mul_div_floor ◌+ℤ◌ ◌-ℤ◌ ◌*ℤ◌ ◌/ℤ◌ in_i128 get put
withdrawn = refl

withdraw_locked_healthy_example :
    StaysHealthy par (at_time 1000) alice collateral (pos 100) lending after_withdrawal
withdraw_locked_healthy_example =
    withdraw_locked_healthy par (at_time 1000) alice collateral (pos 100) lending after_withdrawal
      withdrawn

abbrev now : Env
now = at_time 1000

limit_of_debtor : max_borrow_for_position par now collateral debtor lending ≡ ok (pos 700, lending)
unfolding max_borrow_for_position collateral_value_for_position oracle_price get_instance
    checked_mul_div_floor ◌*ℤ◌ ◌/ℤ◌ in_i128
limit_of_debtor = refl

health_of_debtor :
    health_factor_for_position par now collateral debtor lending ≡ ok (pos 13333, lending)
unfolding health_factor_for_position collateral_value_for_position oracle_price get_instance
    checked_mul_div_floor ◌*ℤ◌ ◌/ℤ◌ in_i128
health_of_debtor = refl

max_borrow-health_factor_example : Risk.bps_denominator ≤ℤ pos 13333
max_borrow-health_factor_example =
    max_borrow-health_factor par now collateral debtor (opened false false (pos 1000) (pos 600))
      (pos 700) (pos 13333) lending lending lending refl (omega arith) (omega arith) limit_of_debtor
      (omega arith) health_of_debtor

abbrev halted : World Balances
halted = record lending { store = vault_with (opened true false (pos 1000) (pos 600)) debtor }

paused_refuses_example :
    (Calls.deposit par now alice collateral (pos 5) halted ≡ err (raised is_paused))
    × (Calls.withdraw par now alice collateral (pos 5) halted ≡ err (raised is_paused))
    × (Calls.borrow par now alice (pos 5) halted ≡ err (raised is_paused))
    × (Calls.liquidate par now keeper alice (pos 5) halted ≡ err (raised is_paused))
paused_refuses_example =
    paused_refuses par now (opened true false (pos 1000) (pos 600)) halted refl refl alice
      collateral keeper (pos 5) (omega arith) refl refl refl

lending-IsSound : IsSound lending.store
unfolding total ◌+ℤ◌
lending-IsSound = record {
  configured = (omega arith, omega arith, omega arith, omega arith, omega arith, omega arith);
  holding = ((omega arith, omega arith, inl (omega arith)), tt);
  deposits = refl;
  borrows = omega arith;
}

abbrev a_year_on : Env
a_year_on = at_time 31537000
