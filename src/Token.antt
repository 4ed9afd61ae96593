-- ===== src/Token.antt =====
-- contracts/token/src/lib.rs: the storage of the hstETH token and its internal functions. The entry
-- points are in `Calls`. Extending an entry's time to live changes no value and is left out.
pub mod Calls
pub mod Supply
pub mod Rate
pub mod Reach
mod Tests
pub mod Authority
pub mod Allowance
pub mod Transfers
pub mod Conversion
pub mod Wiring
pub mod Issue
use Prim.Native.String.{String}
use mathlib.Core.Option
use helix_mongolian_spring.Common.{
  ℕ, ◌≡◌, Bool, Option, none, some, List, [], ◌∷◌, ◌++◌, ℤ, pos, ◌+ℤ◌, ◌-ℤ◌, ◌*ℤ◌, ◌/ℤ◌, ◌%ℤ◌,
  ltb_ℤ, leb_ℤ, eqb_ℤ, ltb, ◌==◌, ◌&&◌, if◌then◌else◌, Address, Env, Fault, raised, Result, ok, err,
  Exec, pure, fail, ◌>>=◌, ◌>>◌, modify, gets, panic_if, checked, Map, get, put,
}

pub data TokenError : Type 0 where
  not_initialized already_initialized unauthorized insufficient_balance : TokenError
  invalid_amount insufficient_allowance allowance_expired : TokenError

pub record AllowanceData : Type 0 where
  pub amount : ℤ
  pub expiration_ledger : ℕ

-- The instance entries, which `initialize` writes together.
pub record Instance : Type 0 where
  pub admin : Address
  pub vault_contract : Address
  pub bridge_handler : Address
  pub name : String
  pub symbol : String
  pub decimals : ℕ
  pub total_shares : ℤ
  pub total_assets : ℤ

pub data Event : Type 0 where
  mint : Address → ℤ → ℤ → Event
  burn_shares : Address → ℤ → ℤ → Event
  exchange_rate_update : ℤ → ℤ → ℤ → Event
  set_admin : Address → Address → Event
  approve : Address → Address → ℤ → ℕ → Event
  transfer : Address → Address → ℤ → Event
  burn : Address → ℤ → Event

pub record Store : Type 0 where
  pub instance_storage : Option Instance
  pub balances : Map ℤ
  pub allowances : Address → Address → Option AllowanceData
  pub wasm_hash : ℕ
  pub events : List Event

abbrev pub Call : Type 0 → Type 0
Call A = Exec TokenError Store A

abbrev pub panic : {A : Type 0} → TokenError → Call A
panic e = fail (raised e)

abbrev pub publish : Event → Call (Unit {0})
publish e = modify λ s. record s { events = s.events ++ e ∷ [] }

abbrev initialized : Store → Bool
initialized s = elim s.instance_storage [ none ↦ Bool.false | some _ ↦ Bool.true ]

assert_not_initialized : Call (Unit {0})
assert_not_initialized = do panic_if (← gets initialized) already_initialized

require_initialized : Call (Unit {0})
require_initialized s = elim s.instance_storage [
  | none ↦ err (raised not_initialized)
  | some _ ↦ ok (tt, s)
]

get_instance : {A : Type 0} → (Instance → A) → Call A
get_instance field s = elim s.instance_storage [
  | none ↦ err (raised not_initialized)
  | some i ↦ ok (field i, s)
]

-- `env.storage().instance().set`, after `require_initialized`.
set_instance : (Instance → Instance) → Call (Unit {0})
set_instance change s =
    ok (tt, record s { instance_storage = Option.map change s.instance_storage })

read_total_shares : Call ℤ
unfolding get_instance
read_total_shares = get_instance (λ i. i.total_shares)

write_total_shares : ℤ → Call (Unit {0})
unfolding set_instance
write_total_shares amount = set_instance (λ i. record i { total_shares = amount })

read_total_assets : Call ℤ
unfolding get_instance
read_total_assets = get_instance (λ i. i.total_assets)

write_total_assets : ℤ → Call (Unit {0})
unfolding set_instance
write_total_assets amount = set_instance (λ i. record i { total_assets = amount })

checked_add : ℤ → ℤ → Call ℤ
checked_add left right = checked invalid_amount (left +ℤ right)

checked_sub : ℤ → ℤ → Call ℤ
checked_sub left right = checked invalid_amount (left -ℤ right)

checked_mul : ℤ → ℤ → Call ℤ
checked_mul left right = checked invalid_amount (left *ℤ right)

pub checked_div_ceil : ℤ → ℤ → Call ℤ
unfolding checked_add
checked_div_ceil numerator denominator = do
  panic_if (leb_ℤ denominator (pos 0)) invalid_amount
  if eqb_ℤ (numerator %ℤ denominator) (pos 0)
      then pure (numerator /ℤ denominator)
      else checked_add (numerator /ℤ denominator) (pos 1)

validate_amount : ℤ → Call (Unit {0})
validate_amount amount = panic_if (ltb_ℤ amount (pos 0)) invalid_amount

-- `get(&key).unwrap_or(0)`
pub balance_of : Address → Store → ℤ
balance_of address s = elim (get address s.balances) [ none ↦ pos 0 | some b ↦ b ]

read_balance : Address → Call ℤ
read_balance address = gets (balance_of address)

-- A balance of zero is not stored.
pub store_balance : Address → ℤ → Store → Store
store_balance address amount s = record s {
  balances = put address (if eqb_ℤ amount (pos 0) then none else some amount) s.balances;
}

write_balance : Address → ℤ → Call (Unit {0})
write_balance address amount = do
  panic_if (ltb_ℤ amount (pos 0)) invalid_amount
  modify (store_balance address amount)

pub spend_balance : Address → ℤ → Call (Unit {0})
unfolding read_balance checked_sub write_balance
spend_balance address amount = do
  balance ← read_balance address
  panic_if (ltb_ℤ balance amount) insufficient_balance
  updated_balance ← checked_sub balance amount
  write_balance address updated_balance

-- The credit of `transfer` and `transfer_from`.
pub receive_balance : Address → ℤ → Call (Unit {0})
unfolding read_balance checked_add write_balance
receive_balance to amount = do
  recipient_balance ← read_balance to
  updated_balance ← checked_add recipient_balance amount
  write_balance to updated_balance

pub mint_shares : Address → ℤ → Call (Unit {0})
unfolding read_balance read_total_shares checked_add write_balance write_total_shares
mint_shares to shares = do
  balance ← read_balance to
  total_shares ← read_total_shares
  updated_balance ← checked_add balance shares
  updated_total_shares ← checked_add total_shares shares
  write_balance to updated_balance
  write_total_shares updated_total_shares
  publish (mint to shares updated_total_shares)

pub burn_internal : Address → ℤ → Call (Unit {0})
unfolding spend_balance read_total_shares checked_sub write_total_shares
burn_internal from shares = do
  spend_balance from shares
  total_shares ← read_total_shares
  updated_total_shares ← checked_sub total_shares shares
  write_total_shares updated_total_shares
  publish (burn_shares from shares updated_total_shares)

pub burn_external_shares : ℤ → Call (Unit {0})
unfolding read_total_shares read_total_assets checked_mul checked_div_ceil checked_sub
    write_total_shares write_total_assets
burn_external_shares shares = if eqb_ℤ shares (pos 0) then pure tt else do
  total_shares ← read_total_shares
  total_assets ← read_total_assets
  product ← checked_mul shares total_assets
  assets_to_remove ← checked_div_ceil product total_shares
  updated_total_shares ← checked_sub total_shares shares
  updated_total_assets ← checked_sub total_assets assets_to_remove
  write_total_shares updated_total_shares
  write_total_assets updated_total_assets

pub put_allowance : Address → Address → Option AllowanceData → Store → Store
put_allowance from spender a s = record s {
  allowances = λ f p. if f == from && p == spender then a else s.allowances f p;
}

module _ (env : Env) where
  abbrev pub is_expired : AllowanceData → Bool
  is_expired allowance = ltb allowance.expiration_ledger env.sequence

  -- An expired allowance counts as none.
  allowance_amount : Address → Address → Call ℤ
  allowance_amount from spender s = elim (s.allowances from spender) [
    | none ↦ ok (pos 0, s)
    | some allowance ↦ ok ((if is_expired allowance then pos 0 else allowance.amount), s)
  ]

  pub write_allowance : Address → Address → ℤ → ℕ → Call (Unit {0})
  write_allowance from spender amount expiration_ledger =
      if eqb_ℤ amount (pos 0) then modify (put_allowance from spender none) else do
        panic_if (ltb expiration_ledger env.sequence) invalid_amount
        modify (
            put_allowance from spender
              (some (record { amount = amount; expiration_ledger = expiration_ledger })))

  abbrev spend_found : Address → Address → ℤ → Option AllowanceData → Call (Unit {0})
  spend_found from spender amount none = panic insufficient_allowance
  spend_found from spender amount (some allowance) = do
    panic_if (is_expired allowance) allowance_expired
    panic_if (ltb_ℤ allowance.amount amount) insufficient_allowance
    updated_amount ← checked_sub allowance.amount amount
    write_allowance from spender updated_amount allowance.expiration_ledger

  pub spend_allowance : Address → Address → ℤ → Call (Unit {0})
  unfolding checked_sub
  spend_allowance from spender amount =
      if eqb_ℤ amount (pos 0)
      then pure tt
      else do found ← gets (λ s. s.allowances from spender); spend_found from spender amount found
