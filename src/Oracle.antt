-- ===== src/Oracle.antt =====
-- contracts/oracle-adaptor/src/lib.rs: the storage of the oracle adaptor and the functions on it. The
-- entry points are in `Calls`. The two price feeds and the vault are the parameter `Externals`.
-- Extending an entry's time to live changes no value and is left out, and so is the expiry of the
-- temporary entries.
pub mod Calls
pub mod Feeds
pub mod Scale
pub mod Reach
pub mod Prices
mod Tests
pub mod Average
use mathlib.Core.Option
use helix_mongolian_spring.Common.{
  ℕ, zero, suc, ◌+◌, ◌-◌, ◌^◌, Bool, true, false, Option, none, some, List, [], ◌∷◌, ◌++◌, ℤ, pos,
  ◌+ℤ◌, ◌-ℤ◌, ◌*ℤ◌, ◌/ℤ◌, ltb, leb, ltb_ℤ, leb_ℤ, ◌==◌, if◌then◌else◌, Address, Env, raised, auth,
  callee, ok, err, Exec, pure, fail, gets, ◌>>=◌, ◌>>◌, modify, panic_if, checked, require_auth,
  Map, get, put,
}

-- What `source` names.
pub data Source : Type 0 where
  primary secondary blended : Source

pub record PriceData : Type 0 where
  pub price : ℤ
  pub timestamp : ℕ
  pub source : Source

pub record TwapData : Type 0 where
  pub cumulative_price : ℤ
  pub num_samples : ℕ
  pub window_start : ℕ

pub data OracleError : Type 0 where
  not_initialized stale_price deviation_too_high feed_unavailable : OracleError
  unauthorized already_initialized : OracleError

-- The instance entries, which `initialize` writes together.
pub record Instance : Type 0 where
  pub admin : Address
  pub primary_oracle : Address
  pub secondary_oracle : Address
  pub vault_callback : Address
  pub twap_window : ℕ
  pub staleness_threshold : ℕ
  pub deviation_threshold : ℕ

pub data Event : Type 0 where
  safe_mode : Address → ℤ → ℤ → Event
  price_update : Address → ℤ → ℕ → Source → ℕ → Event
  configure : (primary secondary : Address) → (twap_window staleness deviation : ℕ) → Event

pub record Store : Type 0 where
  pub instance_storage : Option Instance
  pub cached_prices : Map PriceData
  pub twap_states : Map TwapData
  pub wasm_hash : ℕ
  pub events : List Event

-- The other contracts, over a type `W` of all their storage. `none` is a call that fails.
pub record Externals (W : Type 0) : Type 0 where
  pub lastprice : (oracle asset : Address) → W → Option (ℤ × ℕ)
  pub decimals : (oracle asset : Address) → W → Option ℕ
  pub pause_by : (vault caller : Address) → W → Option W
  pub unpause_by : (vault caller : Address) → W → Option W

pub record World (W : Type 0) : Type 0 where
  pub store : Store
  pub outside : W

abbrev pub Call : Type 0 → Type 0 → Type 0
Call W A = Exec OracleError (World W) A

abbrev pub default_twap_window : ℕ
default_twap_window = 1800

abbrev pub default_staleness_threshold : ℕ
default_staleness_threshold = 600

abbrev pub default_deviation_threshold : ℕ
default_deviation_threshold = 500

abbrev pub bps_denominator : ℤ
bps_denominator = pos 10000

-- `saturating_add(1)` on a u32
abbrev pub saturating_suc : ℕ → ℕ
saturating_suc n = if ltb n (2 ^ 32 - 1) then n + 1 else 2 ^ 32 - 1

abbrev pub min_ℕ : ℕ → ℕ → ℕ
min_ℕ a b = if leb a b then a else b

module _ {W : Type 0} where
  abbrev pub panic : {A : Type 0} → OracleError → Call W A
  panic e = fail (raised e)

  abbrev pub update : (Store → Store) → Call W (Unit {0})
  update change = modify λ w. record w { store = change w.store }

  abbrev pub publish : Event → Call W (Unit {0})
  publish e = update λ s. record s { events = s.events ++ e ∷ [] }

  -- `try_invoke_contract` of a query: a failure is a value.
  abbrev pub try_ask : {A : Type 0} → (W → Option A) → Call W (Option A)
  try_ask query = gets λ w. query w.outside

  abbrev pub invoke : (W → Option W) → Call W (Unit {0})
  invoke call w = elim (call w.outside) [
    | none ↦ err callee
    | some o ↦ ok (tt, record w { outside = o })
  ]

  pub assert_not_initialized : Call W (Unit {0})
  assert_not_initialized w = elim w.store.instance_storage [
    | none ↦ ok (tt, w)
    | some _ ↦ err (raised already_initialized)
  ]

  pub require_initialized : Call W (Unit {0})
  require_initialized w = elim w.store.instance_storage [
    | none ↦ err (raised not_initialized)
    | some _ ↦ ok (tt, w)
  ]

  pub get_instance : {A : Type 0} → (Instance → A) → Call W A
  get_instance field w = elim w.store.instance_storage [
    | none ↦ err (raised not_initialized)
    | some i ↦ ok (field i, w)
  ]

  -- `env.storage().instance().set`, after `require_initialized`
  pub set_instance : (Instance → Instance) → Call W (Unit {0})
  set_instance change =
      update λ s. record s { instance_storage = Option.map change s.instance_storage }

  pub require_admin_auth : Env → Call W Address
  unfolding get_instance
  require_admin_auth env = do
    admin ← get_instance (λ i. i.admin)
    require_auth env admin
    pure admin

  pub read_cached_price : Address → Call W (Option PriceData)
  read_cached_price asset = gets λ w. get asset w.store.cached_prices

  pub read_twap_state : Address → Call W (Option TwapData)
  read_twap_state asset = gets λ w. get asset w.store.twap_states

  pub write_cached_price : Address → PriceData → Call W (Unit {0})
  write_cached_price asset price =
      update λ s. record s { cached_prices = put asset (some price) s.cached_prices }

  pub write_twap_state : Address → TwapData → Call W (Unit {0})
  write_twap_state asset state =
      update λ s. record s { twap_states = put asset (some state) s.twap_states }

  pub checked_add : ℤ → ℤ → Call W ℤ
  checked_add left right = checked feed_unavailable (left +ℤ right)

  pub checked_mul : ℤ → ℤ → Call W ℤ
  checked_mul left right = checked feed_unavailable (left *ℤ right)

  abbrev pub or_unavailable : {A : Type 0} → Option A → Call W A
  or_unavailable none = panic feed_unavailable
  or_unavailable (some a) = pure a
