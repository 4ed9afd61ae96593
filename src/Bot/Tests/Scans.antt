-- ===== src/Bot/Tests/Scans.antt =====
-- liquidation-bot/src/scanner.rs and main.rs: scans and an iteration on a small network, and the theorems
-- applied to them.
use helix_mongolian_spring.Common.{
  ℕ, ◌+◌, ◌≡◌, ◌==◌, refl, Option, none, some, true, false, [], ◌∷◌, pos, ◌*ℤ◌, ◌/ℤ◌, eqb_bytes,
  get_elem?, if◌then◌else◌,
}
use helix_mongolian_spring.Bot.{Position, Config, Rpc}
use helix_mongolian_spring.Bot.Health.{
  liquidation_repay_amount, expected_profit, insert, sort_by_health_factor, price_of, assess,
  assess_all, evaluate,
}
use helix_mongolian_spring.Bot.Executor.{attempt, execute_from, execute}
use helix_mongolian_spring.Bot.Scanner.{
  ScannerState, Event, Values, EventRpc, Scanning, deposit_event, scan, scan_events, scan_event,
  scan_new, scan_user, insert_seen, address_at, user_of, asset_of, track, insert_position,
  read_primary_asset,
}
use helix_mongolian_spring.Bot.Tracking.{scan_event-again}
use helix_mongolian_spring.Bot.Positions.{Tracked, scan_user-Tracked}
use helix_mongolian_spring.Bot.Iteration.{
  Running, Justified, run_iteration, run_iteration-Justified,
}

abbrev config : Config
config = record {
  vault_contract_id = 1 ∷ [];
  oracle_contract_id = 2 ∷ [];
  token_contract_id = 3 ∷ [];
  start_ledger = none;
  min_profit_threshold = pos 10;
  max_liquidations_per_run = 1;
}

-- A value is a number: any is the name of a deposit, and the address that it makes.
abbrev numbers : Values ℕ
numbers = record {
  parse_event_name = λ v. some deposit_event;
  parse_address = λ v. some (v ∷ []);
  parse_vec = λ v. some (v ∷ []);
}

abbrev deposit_of : ℕ → Event ℕ
deposit_of user = record { id = user ∷ []; topic = 0 ∷ user ∷ []; value = 4; ledger = 30 }

abbrev held : Position
held = record { deposited_shares = pos 1000; borrowed_amount = pos 600; last_update = 1000 }

-- The network counts requests, and does not answer the fifth.
abbrev source : EventRpc ℕ ℕ
source = record {
  read_supported_asset = λ vault n. (some (some (4 ∷ [])), n + 1);
  latest_ledger = λ n. (some 40, n + 1);
  get_events = λ from vault names limit n. (some (deposit_of 7 ∷ []), n + 1);
  get_position = λ vault user n. ((if n == 4 then none else some (some held)), n + 1);
}

abbrev client : Rpc ℕ
client = record {
  liquidator_public_key = 5 ∷ [];
  get_health_factor = λ vault user n. (some (pos 9000), n + 1);
  last_price = λ oracle asset n. (some (pos 10000000, 1000), n + 1);
  token_balance = λ token user n. (some (pos 400), n + 1);
  read_pool_config = λ vault n. (some none, n + 1);
  liquidate = λ config user amount n. (true, n + 1);
}

abbrev empty : ScannerState
empty = record {
  positions = [];
  seen_event_ids = λ b. false;
  user_assets = λ b. none;
  last_seen_ledger = none;
  primary_asset = none;
}

abbrev at_request : ℕ → Scanning ℕ
at_request n = record { network = n; state = empty }

abbrev tracked : Scanning ℕ
tracked = (scan_user config numbers source deposit_event (7 ∷ []) (deposit_of 7) (at_request 0)).1

tracking :
    scan_user config numbers source deposit_event (7 ∷ []) (deposit_of 7) (at_request 0)
    ≡ (some 1, tracked)
unfolding scan_user asset_of track insert_position eqb_bytes get_elem?
tracking = refl

scan_user-Tracked_example :
    Tracked config numbers source (7 ∷ []) (deposit_of 7) (at_request 0) tracked
scan_user-Tracked_example =
    scan_user-Tracked config numbers source deposit_event (7 ∷ []) (deposit_of 7) 1 (at_request 0)
      tracked tracking

abbrev after_error : Scanning ℕ
after_error = (scan_event config numbers source (deposit_of 7) (at_request 4)).1

unanswered : scan_event config numbers source (deposit_of 7) (at_request 4) ≡ (none, after_error)
unfolding scan_event insert_seen scan_new user_of address_at scan_user asset_of eqb_bytes get_elem?
unanswered = refl

abbrev after_again : Scanning ℕ
after_again = (scan_event config numbers source (deposit_of 7) after_error).1

again : scan_event config numbers source (deposit_of 7) after_error ≡ (some 0, after_again)
unfolding scan_event insert_seen scan_new user_of address_at scan_user asset_of eqb_bytes get_elem?
again = refl

abbrev no_updates : Option ℕ
no_updates = some 0

scan_event-again_example :
    (no_updates ≡ some 0)
    × (after_again.network ≡ after_error.network)
    × (after_again.state.positions ≡ after_error.state.positions)
    × (after_again.state.last_seen_ledger ≡ after_error.state.last_seen_ledger)
scan_event-again_example =
    scan_event-again config numbers source (deposit_of 7) (at_request 4) after_error after_again
      no_updates unanswered again

abbrev idle : Running ℕ
idle = record { network = 0; state = empty; sent = [] }

abbrev after_run : Running ℕ
after_run = (run_iteration config numbers source client idle).1

ran : run_iteration config numbers source client idle ≡ (some tt, after_run)
unfolding run_iteration scan scan_events scan_event insert_seen scan_new user_of address_at
    scan_user asset_of track insert_position read_primary_asset eqb_bytes get_elem? evaluate
    assess_all assess price_of insert sort_by_health_factor expected_profit liquidation_repay_amount
    execute execute_from attempt ◌*ℤ◌ ◌/ℤ◌
ran = refl

run_iteration-Justified_example : Justified config numbers source client idle after_run
run_iteration-Justified_example =
    run_iteration-Justified config numbers source client (some tt) idle after_run ran
