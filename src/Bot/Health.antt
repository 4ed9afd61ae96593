-- ===== src/Bot/Health.antt =====
-- liquidation-bot/src/health.rs: the positions that may be liquidated.
use helix_mongolian_spring.Common.{
  ℕ, Option, none, some, List, [], ◌∷◌, ℤ, pos, negsuc, ◌*ℤ◌, ◌/ℤ◌, leb_ℤ, ltb_ℤ, i128_max, Bytes,
  eqb_bytes, if◌then◌else◌,
}
use helix_mongolian_spring.Bot.{
  PoolConfig, TrackedPosition, HealthAssessment, Config, health_factor_one,
  default_liquidation_bonus_bps, Action, pure, ◌>>=◌, Session, Rpc, request,
}

-- "__primary_asset__"
abbrev pub primary_asset_placeholder : Bytes
primary_asset_placeholder =
    95 ∷ 95 ∷ 112 ∷ 114 ∷ 105 ∷ 109 ∷ 97 ∷ 114 ∷ 121 ∷ 95 ∷ 97 ∷ 115 ∷ 115 ∷ 101 ∷ 116 ∷ 95 ∷ 95
    ∷ []

-- The nearest i128.
abbrev pub saturate : ℤ → ℤ
saturate v =
    if ltb_ℤ (pos i128_max) v
    then pos i128_max
    else if ltb_ℤ v (negsuc i128_max)
    then negsuc i128_max
    else v

unfoldable pub liquidation_repay_amount : TrackedPosition → ℤ
liquidation_repay_amount tracked = tracked.position.borrowed_amount /ℤ pos 2

-- `saturating_div(10_000)` cannot overflow.
unfoldable pub expected_profit : ℤ → ℕ → ℤ
expected_profit repay_amount liq_bonus_bps =
    saturate (repay_amount *ℤ pos liq_bonus_bps) /ℤ pos 10000

-- `sort_by_key` keeps the order of equal keys.
unfoldable pub insert : HealthAssessment → List HealthAssessment → List HealthAssessment
insert a [] = a ∷ []
insert a (b ∷ rest) =
    let inserted = insert a rest in
    if leb_ℤ a.health_factor b.health_factor then a ∷ b ∷ rest else b ∷ inserted

unfoldable pub sort_by_health_factor : List HealthAssessment → List HealthAssessment
sort_by_health_factor [] = []
sort_by_health_factor (a ∷ rest) = insert a (sort_by_health_factor rest)

-- `map(|cfg| cfg.liq_bonus).unwrap_or(DEFAULT_LIQUIDATION_BONUS_BPS)`
abbrev pub bonus_of : Option PoolConfig → ℕ
bonus_of none = default_liquidation_bonus_bps
bonus_of (some cfg) = cfg.liq_bonus

module _ {N : Type 0} (config : Config) (rpc : Rpc N) where
  -- the price of an asset that the scanner knows
  unfoldable pub price_of : TrackedPosition → Action (Session N) (ℤ × ℕ)
  price_of tracked =
      if eqb_bytes tracked.key.asset primary_asset_placeholder
      then pure (pos 0, 0)
      else request (rpc.last_price config.oracle_contract_id tracked.key.asset)

  -- one round of the loop: an assessment, or none of a healthy position
  unfoldable pub assess : ℕ → TrackedPosition → Action (Session N) (Option HealthAssessment)
  unfolding liquidation_repay_amount expected_profit
  assess liquidation_bonus_bps tracked = do
    health_factor ← request (rpc.get_health_factor config.vault_contract_id tracked.key.user)
    if leb_ℤ health_factor_one health_factor then pure none else (do
      price ← price_of tracked
      pure (
          some (record {
            tracked = tracked;
            health_factor = health_factor;
            oracle_price = price.0;
            oracle_timestamp = price.1;
            expected_profit =
                expected_profit (liquidation_repay_amount tracked) liquidation_bonus_bps;
          })))

  unfoldable pub assess_all : ℕ → List TrackedPosition → Action (Session N) (List HealthAssessment)
  assess_all liquidation_bonus_bps [] = pure []
  assess_all liquidation_bonus_bps (tracked ∷ rest) = do
    found ← assess liquidation_bonus_bps tracked
    others ← assess_all liquidation_bonus_bps rest
    pure (elim found [ none ↦ others | some a ↦ a ∷ others ])

  -- on the positions that the scanner tracks
  unfoldable pub evaluate : List TrackedPosition → Action (Session N) (List HealthAssessment)
  evaluate tracked_positions = do
    pool_config ← request (rpc.read_pool_config config.vault_contract_id)
    results ← assess_all (bonus_of pool_config) tracked_positions
    pure (sort_by_health_factor results)
