-- ===== src/Vault.antt =====
-- contracts/vault/src/lib.rs: the storage of the vault and the functions on it. `Risk` has interest
-- and prices, `Calls` the users' entry points and `Admin` the others. The contracts that the vault
-- calls are the parameter `Externals`. Extending an entry's time to live changes no value and is
-- left out.
pub mod Risk
pub mod Calls
pub mod Admin
pub mod Interest
pub mod Quiet
pub mod Accounting
pub mod CollateralRuns
pub mod DebtRuns
pub mod LiquidationRun
pub mod Books
pub mod Lock
pub mod Solvency
pub mod Outcomes
pub mod Released
pub mod Seizure
pub mod Repayment
pub mod Custody
pub mod Reach
pub mod Unlocked
pub mod Authority
mod Tests
use mathlib.Core.Option
use helix_mongolian_spring.Common.{
  ℕ, Bool, true, false, not, Option, none, some, List, [], ◌∷◌, ◌++◌, ◌&&◌, ℤ, pos, ◌+ℤ◌, ◌-ℤ◌,
  ◌*ℤ◌, ◌/ℤ◌, leb_ℤ, eqb_ℤ, ◌==◌, if◌then◌else◌, Address, Env, raised, callee, Result, ok, err,
  Exec, pure, fail, ◌>>=◌, ◌>>◌, gets, modify, panic_if, checked, require_auth, Map, get, put,
}

pub data VaultError : Type 0 where
  not_initialized already_initialized insufficient_collateral insufficient_liquidity : VaultError
  invalid_amount unauthorized position_not_found oracle_stale is_paused reentrancy : VaultError
  health_factor_too_low clawback_detected below_min_position : VaultError

pub record Position : Type 0 where
  pub deposited_shares : ℤ
  pub borrowed_amount : ℤ
  pub last_update : ℕ

pub record PoolConfig : Type 0 where
  pub max_ltv : ℕ
  pub liq_threshold : ℕ
  pub liq_bonus : ℕ
  pub interest_rate : ℕ
  pub min_position : ℤ

-- The instance entries, which `initialize` writes together.
pub record Instance : Type 0 where
  pub admin : Address
  pub pool_config : PoolConfig
  pub supported_assets : List Address
  pub oracle_address : Address
  pub borrow_token : Address
  pub paused : Bool
  pub locked : Bool
  pub total_deposits : ℤ
  pub total_borrows : ℤ

pub data Event : Type 0 where
  deposit withdraw : Address → Address → ℤ → Position → Event
  borrow repay : Address → ℤ → ℤ → Event
  liquidation : Address → Address → ℤ → ℤ → ℤ → Event
  pause unpause : Address → Event
  config_update : PoolConfig → Event

pub record Store : Type 0 where
  pub instance_storage : Option Instance
  pub positions : Map Position
  pub roles : Address → ℕ → Bool
  pub wasm_hash : ℕ
  pub events : List Event

-- The other contracts, over a type `W` of all their storage: a token's `balance`, `transfer` and
-- `transfer_from`, the collateral token's conversions, and the oracle. A query reads `W` and writes
-- nothing. `none` is a call that fails. The host lets no contract call back into the vault while a
-- call of the vault runs, so none of these changes the vault's own storage.
pub record Externals (W : Type 0) : Type 0 where
  pub balance : (token id : Address) → W → Option ℤ
  pub transfer : (token from to : Address) → ℤ → W → Option W
  pub transfer_from : (token spender from to : Address) → ℤ → W → Option W
  pub assets_for_shares : (token : Address) → ℤ → W → Option ℤ
  pub shares_for_assets : (token : Address) → ℤ → W → Option ℤ
  pub lastprice : (oracle asset : Address) → W → Option (ℤ × ℕ)
  pub decimals : (oracle asset : Address) → W → Option ℕ

pub record World (W : Type 0) : Type 0 where
  pub store : Store
  pub outside : W

abbrev pub Call : Type 0 → Type 0 → Type 0
Call W A = Exec VaultError (World W) A

abbrev pub admin_role : ℕ
admin_role = 0

abbrev pub liquidator_role : ℕ
liquidator_role = 1

abbrev pub pauser_role : ℕ
pauser_role = 2

abbrev pub with_role : Address → ℕ → Bool → Store → Store
with_role addr role enabled s = record s {
  roles = λ a r. if a == addr && r == role then enabled else s.roles a r;
}

pub contains_address : List Address → Address → Bool
contains_address [] target = false
contains_address (address ∷ rest) target =
    if address == target then true else contains_address rest target

abbrev pub is_empty : Position → Bool
is_empty position =
    eqb_ℤ position.deposited_shares (pos 0) && eqb_ℤ position.borrowed_amount (pos 0)

module _ {W : Type 0} where
  abbrev pub panic : {A : Type 0} → VaultError → Call W A
  panic e = fail (raised e)

  -- a query of another contract
  abbrev pub ask : {A : Type 0} → (W → Option A) → Call W A
  ask query w = elim (query w.outside) [ none ↦ err callee | some a ↦ ok (a, w) ]

  -- a call of another contract that writes
  abbrev pub invoke : (W → Option W) → Call W (Unit {0})
  invoke call w = elim (call w.outside) [
    | none ↦ err callee
    | some o ↦ ok (tt, record w { outside = o })
  ]

  abbrev pub update : (Store → Store) → Call W (Unit {0})
  update change = modify λ w. record w { store = change w.store }

  abbrev pub publish : Event → Call W (Unit {0})
  publish e = update λ s. record s { events = s.events ++ e ∷ [] }

  pub assert_not_initialized : Call W (Unit {0})
  assert_not_initialized w = elim w.store.instance_storage [
    | none ↦ ok (tt, w)
    | some _ ↦ err (raised already_initialized)
  ]

  pub require_initialized : Call W (Unit {0})
  require_initialized w = elim w.store.instance_storage [
    | none ↦ err (raised not_initialized)
    | some _ ↦ ok (tt, w)
  ]

  unfoldable pub get_instance : {A : Type 0} → (Instance → A) → Call W A
  get_instance field w = elim w.store.instance_storage [
    | none ↦ err (raised not_initialized)
    | some i ↦ ok (field i, w)
  ]

  -- `env.storage().instance().set`, after `require_initialized`
  pub set_instance : (Instance → Instance) → Call W (Unit {0})
  set_instance change =
      update λ s. record s { instance_storage = Option.map change s.instance_storage }

  pub set_locked : Bool → Call W (Unit {0})
  unfolding set_instance
  set_locked locked = set_instance (λ i. record i { locked = locked })

  pub set_paused : Bool → Call W (Unit {0})
  unfolding set_instance
  set_paused paused = set_instance (λ i. record i { paused = paused })

  pub write_total_deposits : ℤ → Call W (Unit {0})
  unfolding set_instance
  write_total_deposits total_deposits =
      set_instance (λ i. record i { total_deposits = total_deposits })

  pub write_total_borrows : ℤ → Call W (Unit {0})
  unfolding set_instance
  write_total_borrows total_borrows = set_instance (λ i. record i { total_borrows = total_borrows })

  abbrev pub first_asset : List Address → Call W Address
  first_asset [] = panic invalid_amount
  first_asset (asset ∷ _) = pure asset

  pub primary_supported_asset : Call W Address
  unfolding get_instance
  primary_supported_asset = do assets ← get_instance (λ i. i.supported_assets); first_asset assets

  pub require_supported_asset : Address → Call W (Unit {0})
  unfolding get_instance
  require_supported_asset asset = do
    assets ← get_instance (λ i. i.supported_assets)
    panic_if (not (contains_address assets asset)) invalid_amount

  pub require_not_paused : Call W (Unit {0})
  unfolding get_instance
  require_not_paused = do paused ← get_instance (λ i. i.paused); panic_if paused is_paused

  pub read_position : Address → Call W (Option Position)
  read_position user = gets λ w. get user w.store.positions

  abbrev pub or_not_found : Option Position → Call W Position
  or_not_found none = panic position_not_found
  or_not_found (some position) = pure position

  pub read_position_required : Address → Call W Position
  unfolding read_position
  read_position_required user = do found ← read_position user; or_not_found found

  pub write_position : Address → Position → Call W (Unit {0})
  write_position user position =
      update λ s. record s { positions = put user (some position) s.positions }

  pub store_or_remove_position : Address → Position → Call W (Unit {0})
  store_or_remove_position user position = update λ s. record s {
    positions = put user (if is_empty position then none else some position) s.positions;
  }

  pub require_role : Address → ℕ → Call W (Unit {0})
  require_role addr role w = panic_if (not (w.store.roles addr role)) unauthorized w

  pub write_role : Address → ℕ → Bool → Call W (Unit {0})
  write_role addr role enabled = update (with_role addr role enabled)

  pub validate_positive_amount : ℤ → Call W (Unit {0})
  validate_positive_amount amount = panic_if (leb_ℤ amount (pos 0)) invalid_amount

  unfoldable pub checked_add : ℤ → ℤ → Call W ℤ
  checked_add left right = checked invalid_amount (left +ℤ right)

  pub checked_sub : ℤ → ℤ → Call W ℤ
  checked_sub left right = checked invalid_amount (left -ℤ right)

  unfoldable pub checked_mul : ℤ → ℤ → Call W ℤ
  checked_mul left right = checked invalid_amount (left *ℤ right)

  -- the name says floor; Rust's `/` truncates, which agrees where the product is not negative
  unfoldable pub checked_mul_div_floor : ℤ → ℤ → ℤ → Call W ℤ
  unfolding checked_mul
  checked_mul_div_floor left right denominator = do
    panic_if (leb_ℤ denominator (pos 0)) invalid_amount
    product ← checked_mul left right
    pure (product /ℤ denominator)

  -- Runs `f` between taking and releasing the lock.
  pub with_lock : {A : Type 0} → Call W A → Call W A
  unfolding get_instance set_locked
  with_lock f = do
    locked ← get_instance (λ i. i.locked)
    panic_if locked reentrancy
    set_locked true
    result ← f
    set_locked false
    pure result
