-- ===== src/Token/Tests.antt =====
-- contracts/token/src/lib.rs: a token with two holders on concrete inputs, and the theorems applied to it.
use helix_mongolian_spring.Common.{
  ◌≡◌, ◌≢◌, ◌⊎◌, ◌≤◌, ◌-◌, ◌*◌, refl, some, none, true, ◌==◌, ◌&&◌, List, [], ◌∷◌, pos, ◌+ℤ◌, ◌-ℤ◌,
  ◌*ℤ◌, ◌/ℤ◌, ◌%ℤ◌, ◌≤ℤ◌, in_i128, if◌then◌else◌, arith, Address, Env, ok, commit, get, put, total,
}
use helix_mongolian_spring.Token.{
  Instance, Store, balance_of, spend_balance, receive_balance, store_balance, spend_allowance,
  write_allowance, put_allowance, burn_external_shares, checked_div_ceil, mint_shares,
}
use helix_mongolian_spring.Token.Calls.{
  transfer, transfer_from, burn, assets_for_shares, shares_for_assets,
}
use helix_mongolian_spring.Token.Calls
use helix_mongolian_spring.Token.Supply.{IsBacked, supply, assets}
use helix_mongolian_spring.Token.Rate.{ceil_div}
use helix_mongolian_spring.Token.Reach.{Op, apply, run, fresh, run-fresh-IsBacked}
use helix_mongolian_spring.Token.Allowance.{Spent}
use helix_mongolian_spring.Token.Transfers.{Moved, transfer-Moved, transfer_from-Moved}
use helix_mongolian_spring.Token.Conversion.{burn_rate, shares-assets-shares}
use helix_mongolian_spring.Token.Authority.{IsTrusted, apply-supply}

abbrev alice : Address
alice = 5

abbrev bob : Address
bob = 6

abbrev broker : Address
broker = 7

abbrev now : Env
now = record { timestamp = 1000; sequence = 10; current_contract = 9; authorized = λ a. true }

abbrev hsteth : Instance
hsteth = record {
  admin = 1;
  vault_contract = 2;
  bridge_handler = 3;
  name = "Helix Staked ETH";
  symbol = "hstETH";
  decimals = 7;
  total_shares = pos 30;
  total_assets = pos 40;
}

abbrev held_by_two : Store
held_by_two = record {
  instance_storage = some hsteth;
  balances = (alice, some (pos 20)) ∷ (bob, some (pos 10)) ∷ [];
  allowances = λ f p.
      if f == alice && p == broker
      then some (record { amount = pos 8; expiration_ledger = 50 })
      else none;
  wasm_hash = 0;
  events = [];
}

abbrev txs : List (Env × Op)
txs =
    (now, Op.initialize 1 2 3 "Helix Staked ETH" "hstETH" 7)
    ∷ (now, Op.vault_mint alice (pos 20))
    ∷ (now, Op.transfer alice bob (pos 5))
    ∷ (now, Op.burn bob (pos 9))
    ∷ []

run-fresh-IsBacked_example : IsBacked (run txs fresh)
run-fresh-IsBacked_example = run-fresh-IsBacked txs

alice_not_bob : alice ≢ bob
alice_not_bob = λ e. omega (arith, e)

abbrev after_transfer : Store
after_transfer = commit (transfer now alice bob (pos 5)) held_by_two

transferred : transfer now alice bob (pos 5) held_by_two ≡ ok (tt, after_transfer)
unfolding transfer spend_balance receive_balance store_balance balance_of ◌+ℤ◌ ◌-ℤ◌ in_i128 get put
transferred = refl

transfer-Moved_example :
    (now.authorized alice ≡ true)
    × (pos 0 ≤ℤ pos 5)
    × (pos 5 ≤ℤ balance_of alice held_by_two)
    × Moved alice bob (pos 5) held_by_two after_transfer
transfer-Moved_example =
    transfer-Moved now alice bob (pos 5) held_by_two after_transfer alice_not_bob transferred

abbrev after_delegation : Store
after_delegation = commit (transfer_from now broker alice bob (pos 5)) held_by_two

delegated : transfer_from now broker alice bob (pos 5) held_by_two ≡ ok (tt, after_delegation)
unfolding transfer_from spend_allowance write_allowance put_allowance spend_balance receive_balance
    store_balance balance_of ◌+ℤ◌ ◌-ℤ◌ in_i128 get put
delegated = refl

transfer_from-Moved_example :
    (now.authorized broker ≡ true)
    × Spent now alice broker (pos 5) held_by_two after_delegation
    × Moved alice bob (pos 5) held_by_two after_delegation
transfer_from-Moved_example =
    transfer_from-Moved now broker alice bob (pos 5) held_by_two after_delegation alice_not_bob
      (omega arith) delegated

held_by_two-IsBacked : IsBacked held_by_two
unfolding total ◌+ℤ◌
held_by_two-IsBacked = record {
  backed = refl;
  positive = (omega arith, (omega arith, tt));
  assets_nonneg = omega arith;
}

abbrev after_burn : Store
after_burn = commit (burn now alice (pos 7)) held_by_two

burned : burn now alice (pos 7) held_by_two ≡ ok (tt, after_burn)
unfolding burn spend_balance burn_external_shares checked_div_ceil store_balance balance_of ◌+ℤ◌
    ◌-ℤ◌ ◌*ℤ◌ ◌/ℤ◌ ◌%ℤ◌ in_i128 get put
burned = refl

burn_rate_example :
    (7 ≤ 30)
    × (supply after_burn ≡ pos (30 - 7))
    × (assets after_burn ≡ pos (40 - ceil_div (7 * 40) 30))
    × ((40 - ceil_div (7 * 40) 30) * 30 ≤ 40 * (30 - 7))
burn_rate_example =
    burn_rate now alice 7 30 40 hsteth held_by_two after_burn held_by_two-IsBacked refl refl refl
      (omega arith) burned

worth : assets_for_shares (pos 7) held_by_two ≡ ok (pos 9, held_by_two)
unfolding assets_for_shares ◌*ℤ◌ ◌/ℤ◌ in_i128
worth = refl

worth_back : shares_for_assets (pos 9) held_by_two ≡ ok (pos 6, held_by_two)
unfolding shares_for_assets ◌*ℤ◌ ◌/ℤ◌ in_i128
worth_back = refl

shares-assets-shares_example : (pos 6 ≤ℤ pos 7) × (held_by_two ≡ held_by_two)
shares-assets-shares_example =
    shares-assets-shares 30 40 7 hsteth held_by_two held_by_two held_by_two (pos 9) (pos 6) refl
      refl refl worth worth_back

abbrev after_mint : Store
after_mint = commit (apply now (Op.vault_mint bob (pos 3))) held_by_two

minted : apply now (Op.vault_mint bob (pos 3)) held_by_two ≡ ok (tt, after_mint)
unfolding apply Calls.vault_mint mint_shares store_balance balance_of ◌+ℤ◌ in_i128 get put
minted = refl

apply-supply_example : (supply after_mint ≤ℤ supply held_by_two) ⊎ IsTrusted now held_by_two
apply-supply_example = apply-supply now held_by_two after_mint (Op.vault_mint bob (pos 3)) minted
