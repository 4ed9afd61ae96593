-- ===== src/Bot/Executor.antt =====
-- liquidation-bot/src/executor.rs: the liquidations that are sent.
use helix_mongolian_spring.Common.{
  ℕ, ◌+◌, List, [], ◌∷◌, pos, ◌/ℤ◌, leb, leb_ℤ, ltb_ℤ, if◌then◌else◌,
}
use helix_mongolian_spring.Bot.{
  HealthAssessment, Config, Action, pure, ◌>>=◌, Session, Rpc, request, send,
}

module _ {N : Type 0} (config : Config) (rpc : Rpc N) where
  -- one round of the loop: the number of liquidations that it submits
  unfoldable pub attempt : HealthAssessment → Action (Session N) ℕ
  attempt candidate =
      let repay_amount = candidate.tracked.position.borrowed_amount /ℤ pos 2 in
      if leb_ℤ repay_amount (pos 0)
      then pure 0
      else if ltb_ℤ candidate.expected_profit config.min_profit_threshold
      then pure 0
      else (do
        liquidator_balance ←
            request (rpc.token_balance config.token_contract_id rpc.liquidator_public_key)
        if ltb_ℤ liquidator_balance repay_amount then pure 0 else (do
          went_through ← send rpc config candidate.tracked.key.user repay_amount
          pure (if went_through then 1 else 0)))

  -- the loop, with the number submitted before
  unfoldable pub execute_from : ℕ → List HealthAssessment → Action (Session N) ℕ
  execute_from submitted [] = pure submitted
  execute_from submitted (candidate ∷ candidates) =
      if leb config.max_liquidations_per_run submitted
      then pure submitted
      else (do n ← attempt candidate; execute_from (submitted + n) candidates)

  unfoldable pub execute : List HealthAssessment → Action (Session N) ℕ
  execute candidates = execute_from 0 candidates
