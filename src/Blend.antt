-- ===== src/Blend.antt =====
-- contracts/blend-oracle-adaptor/src/lib.rs: the price feed for Blend, over the Helix oracle, which is the
-- parameter `HelixOracle`. Extending an entry's time to live changes no value and is left out.
pub mod Quotes
mod Tests
use mathlib.Core.Option
use helix_mongolian_spring.Common.{
  ℕ, Bool, true, false, Option, none, some, List, [], ◌∷◌, ℤ, pos, leb_ℤ, ◌==◌, ◌||◌, if◌then◌else◌,
  Address, Env, raised, ok, err, Exec, pure, fail, ◌>>=◌, ◌>>◌, panic_if, require_auth, World, ask,
  update,
}

pub data BlendOracleError : Type 0 where
  not_initialized already_initialized invalid_config : BlendOracleError

-- The `Asset` of SEP-40: a contract on Stellar, or a symbol.
pub data Asset : Type 0 where
  stellar : Address → Asset
  other : ℕ → Asset

-- The `PriceData` of SEP-40.
pub record PriceData : Type 0 where
  pub price : ℤ
  pub timestamp : ℕ

-- The instance entries, which `initialize` writes together.
pub record Instance : Type 0 where
  pub admin : Address
  pub helix_oracle : Address
  pub base_asset : Asset
  pub assets : List Asset
  pub decimals : ℕ
  pub resolution : ℕ

pub record Store : Type 0 where
  pub instance_storage : Option Instance

-- `HelixOracleInterface`, as far as it is called; `none` is a call that fails.
pub record HelixOracle (W : Type 0) : Type 0 where
  pub lastprice : (helix_oracle asset : Address) → W → Option (ℤ × ℕ)

abbrev pub Call : Type 0 → Type 0 → Type 0
Call W A = Exec BlendOracleError (World Store W) A

abbrev is_empty : List Asset → Bool
is_empty [] = true
is_empty (asset ∷ assets) = false

-- the loop of `contains_asset`
unfoldable pub contains : Address → List Asset → Bool
contains target [] = false
contains target (stellar address ∷ assets) =
    let rest = contains target assets in if address == target then true else rest
contains target (other symbol ∷ assets) = contains target assets

module _ {W : Type 0} where
  abbrev pub panic : {A : Type 0} → BlendOracleError → Call W A
  panic e = fail (raised e)

  pub assert_not_initialized : Call W (Unit {0})
  assert_not_initialized w = elim w.store.instance_storage [
    | none ↦ ok (tt, w)
    | some _ ↦ err (raised already_initialized)
  ]

  unfoldable pub require_initialized : Call W (Unit {0})
  require_initialized w = elim w.store.instance_storage [
    | none ↦ err (raised not_initialized)
    | some _ ↦ ok (tt, w)
  ]

  unfoldable pub get_instance : {A : Type 0} → (Instance → A) → Call W A
  get_instance field w = elim w.store.instance_storage [
    | none ↦ err (raised not_initialized)
    | some i ↦ ok (field i, w)
  ]

  abbrev set_instance : (Instance → Instance) → Call W (Unit {0})
  set_instance change =
      update λ s. record s { instance_storage = Option.map change s.instance_storage }

  unfoldable pub contains_asset : Address → Call W Bool
  unfolding get_instance
  contains_asset target = do assets ← get_instance (λ i. i.assets); pure (contains target assets)

  unfoldable pub base : Call W Asset
  unfolding require_initialized get_instance
  base = do require_initialized; get_instance (λ i. i.base_asset)

  unfoldable pub assets : Call W (List Asset)
  unfolding require_initialized get_instance
  assets = do require_initialized; get_instance (λ i. i.assets)

  unfoldable pub decimals : Call W ℕ
  unfolding require_initialized get_instance
  decimals = do require_initialized; get_instance (λ i. i.decimals)

  unfoldable pub resolution : Call W ℕ
  unfolding require_initialized get_instance
  resolution = do require_initialized; get_instance (λ i. i.resolution)

module _ {W : Type 0} (env : Env) where
  unfoldable pub initialize :
      (admin helix_oracle : Address) (base : Asset) (assets : List Asset) (decimals resolution : ℕ)
      → Call W (Unit {0})
  unfolding assert_not_initialized
  initialize admin helix_oracle base assets decimals resolution = do
    assert_not_initialized
    require_auth env admin
    panic_if (is_empty assets || resolution == 0) invalid_config
    update λ s. record {
      instance_storage = some (record {
        admin = admin;
        helix_oracle = helix_oracle;
        base_asset = base;
        assets = assets;
        decimals = decimals;
        resolution = resolution;
      });
    }

  unfoldable pub set_helix_oracle : Address → Call W (Unit {0})
  unfolding require_initialized get_instance
  set_helix_oracle helix_oracle = do
    require_initialized
    admin ← get_instance (λ i. i.admin)
    require_auth env admin
    set_instance (λ i. record i { helix_oracle = helix_oracle })

  unfoldable pub set_assets : List Asset → Call W (Unit {0})
  unfolding require_initialized get_instance
  set_assets assets = do
    require_initialized
    admin ← get_instance (λ i. i.admin)
    require_auth env admin
    panic_if (is_empty assets) invalid_config
    set_instance (λ i. record i { assets = assets })

module _ {W : Type 0} (x : HelixOracle W) where
  -- the quote for an asset that is listed; one that is not positive is none
  unfoldable pub quote_of : Address → Call W (Option PriceData)
  unfolding get_instance
  quote_of asset_address = do
    helix_oracle ← get_instance (λ i. i.helix_oracle)
    quote ← ask (x.lastprice helix_oracle asset_address)
    pure (
        if leb_ℤ quote.0 (pos 0)
        then none
        else some (record { price = quote.0; timestamp = quote.1 }))

  unfoldable pub lastprice : Asset → Call W (Option PriceData)
  unfolding require_initialized contains_asset quote_of
  lastprice (stellar asset_address) = do
    require_initialized
    listed ← contains_asset asset_address
    if listed then quote_of asset_address else pure none
  lastprice (other symbol) = do require_initialized; pure none

  unfoldable pub price : Asset → ℕ → Call W (Option PriceData)
  price asset timestamp = do
    latest ← lastprice asset
    pure (elim latest [
      | none ↦ none
      | some latest ↦ if latest.timestamp == timestamp then some latest else none
    ])

  unfoldable pub prices : Asset → (records : ℕ) → Call W (Option (List PriceData))
  prices asset records = if records == 0 then pure none else do
    latest ← lastprice asset
    pure (elim latest [ none ↦ none | some latest ↦ some (latest ∷ []) ])
