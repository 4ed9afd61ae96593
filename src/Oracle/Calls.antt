-- ===== src/Oracle/Calls.antt =====
-- contracts/oracle-adaptor/src/lib.rs: prices, their scaling and merging, and the entry points.
use helix_mongolian_spring.Common.{
  ℕ, zero, suc, ◌-◌, Bool, true, Option, none, some, ℤ, pos, ◌-ℤ◌, ◌/ℤ◌, ltb, leb, ltb_ℤ, leb_ℤ,
  ◌==◌, ◌||◌, if◌then◌else◌, Address, Env, pure, ◌>>=◌, ◌>>◌, panic_if, require_auth,
}
use helix_mongolian_spring.Oracle.{
  Source, PriceData, TwapData, Event, Externals, Call, default_twap_window,
  default_staleness_threshold, default_deviation_threshold, bps_denominator, saturating_suc, min_ℕ,
  update, publish, try_ask, invoke, assert_not_initialized, require_initialized, get_instance,
  set_instance, require_admin_auth, read_cached_price, read_twap_state, write_cached_price,
  write_twap_state, checked_add, checked_mul, or_unavailable, stale_price, panic, feed_unavailable,
}

module _ {W : Type 0} where
  -- the loop that adds digits
  unfoldable pub scale_up : ℤ → ℕ → Call W ℤ
  unfolding checked_mul
  scale_up price zero = pure price
  scale_up price (suc scale) = do price ← checked_mul price (pos 10); scale_up price scale

-- the loop that drops digits
unfoldable pub scale_down : ℤ → ℕ → ℤ
scale_down price zero = price
scale_down price (suc scale) = scale_down (price /ℤ pos 10) scale

-- the average of the window, or the cached price where no sample is stored
abbrev pub average_or : ℤ → Option TwapData → ℤ
average_or price none = price
average_or price (some state) =
    if ltb 0 state.num_samples then state.cumulative_price /ℤ pos state.num_samples else price

module _ {W : Type 0} where
  unfoldable pub scale_price : ℤ → (from_decimals to_decimals : ℕ) → Call W ℤ
  scale_price price from_decimals to_decimals =
      if from_decimals == to_decimals
      then pure price
      else if ltb from_decimals to_decimals
      then scale_up price (to_decimals - from_decimals)
      else pure (scale_down price (from_decimals - to_decimals))

  unfoldable pub merge_observations : PriceData → PriceData → Call W PriceData
  unfolding checked_add
  merge_observations left right = do
    sum ← checked_add left.price right.price
    pure (record {
      price = sum /ℤ pos 2;
      timestamp = min_ℕ left.timestamp right.timestamp;
      source = Source.blended;
    })

  unfoldable pub deviation_exceeded : ℤ → ℤ → Call W Bool
  unfolding checked_mul get_instance
  deviation_exceeded left right =
      let difference = if leb_ℤ right left then left -ℤ right else right -ℤ left in
      let baseline = if leb_ℤ left right then left else right in
      if leb_ℤ baseline (pos 0) then pure true else do
        scaled ← checked_mul difference bps_denominator
        threshold ← get_instance (λ i. i.deviation_threshold)
        pure (ltb_ℤ (pos threshold) (scaled /ℤ baseline))

  -- the entry of `price_update`'s window that `update_price` writes
  unfoldable pub next_twap_state : (now window : ℕ) → ℤ → Option TwapData → Call W TwapData
  unfolding checked_add
  next_twap_state now window price none =
      pure (record { cumulative_price = price; num_samples = 1; window_start = now })
  next_twap_state now window price (some state) =
      if state.num_samples == 0 || leb window (now - state.window_start)
      then pure (record { cumulative_price = price; num_samples = 1; window_start = now })
      else do
        cumulative_price ← checked_add state.cumulative_price price
        pure (record state {
          cumulative_price = cumulative_price;
          num_samples = saturating_suc state.num_samples;
        })

  unfoldable pub validated_cached_price : Env → Address → Call W PriceData
  unfolding read_cached_price get_instance
  validated_cached_price env asset = do
    found ← read_cached_price asset
    cached ← or_unavailable found
    threshold ← get_instance (λ i. i.staleness_threshold)
    panic_if (ltb threshold (env.timestamp - cached.timestamp)) stale_price
    pure cached

  unfoldable pub current_twap : Env → Address → Call W (ℤ × ℕ)
  unfolding validated_cached_price read_twap_state
  current_twap env asset = do
    cached ← validated_cached_price env asset
    state ← read_twap_state asset
    pure (average_or cached.price state, cached.timestamp)

  unfoldable pub lastprice : Env → Address → Call W (ℤ × ℕ)
  unfolding require_initialized
  lastprice env asset = do require_initialized; current_twap env asset

  -- The duration's effect stops at reading the window: it is not used.
  unfoldable pub get_twap : Env → Address → ℕ → Call W (ℤ × ℕ)
  unfolding require_initialized get_instance
  get_twap env asset duration = do
    require_initialized
    window ← get_instance (λ i. i.twap_window)
    current_twap env asset

  -- the end of `update_price`, once a price is chosen
  unfoldable pub record_price : Env → Address → PriceData → Call W (Unit {0})
  unfolding read_twap_state get_instance write_cached_price write_twap_state
  record_price env asset price = do
    found ← read_twap_state asset
    window ← get_instance (λ i. i.twap_window)
    state ← next_twap_state env.timestamp window price.price found
    write_cached_price asset price
    write_twap_state asset state
    publish (Event.price_update asset price.price price.timestamp price.source state.num_samples)

module _ {W : Type 0} (env : Env) where
  unfoldable pub initialize :
      (admin primary_oracle secondary_oracle vault_callback : Address) → Call W (Unit {0})
  unfolding assert_not_initialized
  initialize admin primary_oracle secondary_oracle vault_callback = do
    assert_not_initialized
    require_auth env admin
    update λ s. record s {
      instance_storage = some (record {
        admin = admin;
        primary_oracle = primary_oracle;
        secondary_oracle = secondary_oracle;
        vault_callback = vault_callback;
        twap_window = default_twap_window;
        staleness_threshold = default_staleness_threshold;
        deviation_threshold = default_deviation_threshold;
      });
    }

  unfoldable pub configure :
      (primary secondary : Address) (twap_window staleness deviation : ℕ) → Call W (Unit {0})
  unfolding require_initialized require_admin_auth set_instance
  configure primary secondary twap_window staleness deviation = do
    require_initialized
    require_admin_auth env
    set_instance (λ i. record i {
      primary_oracle = primary;
      secondary_oracle = secondary;
      twap_window = twap_window;
      staleness_threshold = staleness;
      deviation_threshold = deviation;
    })
    publish (Event.configure primary secondary twap_window staleness deviation)

  unfoldable pub upgrade : ℕ → Call W (Unit {0})
  unfolding require_initialized require_admin_auth
  upgrade new_wasm_hash = do
    require_initialized
    require_admin_auth env
    update λ s. record s { wasm_hash = new_wasm_hash }

-- both queries of a feed answered
abbrev pub answered : Option ℕ → Option (ℤ × ℕ) → Option (ℕ × (ℤ × ℕ))
answered none quote = none
answered (some d) none = none
answered (some d) (some quote) = some (d, quote)

module _ {W : Type 0} (x : Externals W) (env : Env) where
  unfoldable pub canonical_decimals : (primary secondary asset : Address) → Call W ℕ
  canonical_decimals primary secondary asset = do
    first ← try_ask (x.decimals primary asset)
    second ← try_ask (x.decimals secondary asset)
    or_unavailable (elim first [ some d ↦ some d | none ↦ second ])

  unfoldable pub decimals : Address → Call W ℕ
  unfolding require_initialized get_instance canonical_decimals
  decimals asset = do
    require_initialized
    primary ← get_instance (λ i. i.primary_oracle)
    secondary ← get_instance (λ i. i.secondary_oracle)
    canonical_decimals primary secondary asset

  -- an observation from a feed that answered
  unfoldable pub observation :
      ℕ → Source → (target_decimals oracle_decimals : ℕ) → ℤ × ℕ → Call W (Option PriceData)
  observation staleness source target_decimals oracle_decimals (price, timestamp) =
      if leb_ℤ price (pos 0)
      then pure none
      else if ltb staleness (env.timestamp - timestamp)
      then pure none
      else do
        scaled ← scale_price price oracle_decimals target_decimals
        pure (some (record { price = scaled; timestamp = timestamp; source = source }))

  unfoldable pub fetch_observation :
      (oracle asset : Address) → ℕ → Source → Call W (Option PriceData)
  unfolding get_instance
  fetch_observation oracle asset target_decimals source = do
    oracle_decimals ← try_ask (x.decimals oracle asset)
    quote ← try_ask (x.lastprice oracle asset)
    staleness ← get_instance (λ i. i.staleness_threshold)
    elim (answered oracle_decimals quote) [
      | none ↦ pure none
      | some (d, q) ↦ observation staleness source target_decimals d q
    ]

  unfoldable pub set_safe_mode_internal : Bool → Call W (Unit {0})
  unfolding get_instance
  set_safe_mode_internal enabled = do
    vault ← get_instance (λ i. i.vault_callback)
    invoke (
        if enabled
        then x.pause_by vault env.current_contract
        else x.unpause_by vault env.current_contract)

  unfoldable pub set_safe_mode : Bool → Call W (Unit {0})
  unfolding require_initialized require_admin_auth
  set_safe_mode enabled = do
    require_initialized
    require_admin_auth env
    set_safe_mode_internal enabled

  -- both feeds answered
  unfoldable pub record_both : Address → PriceData → PriceData → Call W (Unit {0})
  record_both asset primary secondary = do
    exceeded ← deviation_exceeded primary.price secondary.price
    if exceeded
        then set_safe_mode_internal true
          >> publish (Event.safe_mode asset primary.price secondary.price)
        else merge_observations primary secondary >>= record_price env asset

  unfoldable pub record_observed : Address → Option PriceData → Option PriceData → Call W (Unit {0})
  record_observed asset (some primary) (some secondary) = record_both asset primary secondary
  record_observed asset (some primary) none = record_price env asset primary
  record_observed asset none (some secondary) = record_price env asset secondary
  record_observed asset none none = panic feed_unavailable

  unfoldable pub update_price : Address → Call W (Unit {0})
  unfolding require_initialized get_instance
  update_price asset = do
    require_initialized
    primary_address ← get_instance (λ i. i.primary_oracle)
    secondary_address ← get_instance (λ i. i.secondary_oracle)
    target_decimals ← canonical_decimals primary_address secondary_address asset
    found_primary ← fetch_observation primary_address asset target_decimals Source.primary
    found_secondary ← fetch_observation secondary_address asset target_decimals Source.secondary
    record_observed asset found_primary found_secondary
