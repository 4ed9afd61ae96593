-- ===== src/Bot/Agreement.antt =====
-- liquidation-bot/src/health.rs and executor.rs beside contracts/vault/src/lib.rs: the amount and the
-- profit that the bot counts on are those of the vault.
use helix_mongolian_spring.Common.{
  ◌≡◌, ◌∙◌, ap, some, [], ◌∷◌, ◌++◌, ℤ, pos, negsuc, neg_ℤ, ◌+ℤ◌, ◌*ℤ◌, ◌/ℤ◌, ◌≤ℤ◌, in_i128, true,
  arith, inl, inr, Address, Env, ok, get,
}
use helix_mongolian_spring.Vault
use helix_mongolian_spring.Vault.Calls.{liquidate}
use helix_mongolian_spring.Vault.Accounting.{total_borrows_of}
use helix_mongolian_spring.Vault.Interest.{charged, charged_grown}
use helix_mongolian_spring.Vault.Seizure.{liquidate-Seized}
use helix_mongolian_spring.Bot.{TrackedPosition}
use helix_mongolian_spring.Bot.Health.{liquidation_repay_amount, expected_profit, saturate}

saturate-in_i128 : (v : ℤ) → in_i128 v ≡ true → saturate v ≡ v
unfolding in_i128
saturate-in_i128 v h = ground arith

half_le : (a b : ℤ) → pos 0 ≤ℤ a → a ≤ℤ b → a /ℤ pos 2 ≤ℤ b /ℤ pos 2
unfolding ◌/ℤ◌
half_le (pos a) (pos b) h k = omega arith
half_le (pos a) (negsuc b) h k = absurd (omega arith)
half_le (negsuc a) b h k = absurd (omega arith)

same_ℤ : (a b : ℤ) → a ≤ℤ b → b ≤ℤ a → a ≡ b
same_ℤ (pos a) (pos b) h k = ground arith
same_ℤ (pos a) (negsuc b) h k = absurd (omega arith)
same_ℤ (negsuc a) (pos b) h k = absurd (omega arith)
same_ℤ (negsuc a) (negsuc b) h k = ground arith

-- The bot tracks a position with the debt, not negative, that the vault has stored. The vault is asked to
-- liquidate it by the amount that the bot reckons, and the call returns. Then the vault takes exactly that
-- amount off `total_borrows`, and reports it with a bonus that is the profit that the bot expected, at
-- the bonus of the vault's configuration.
pub liquidation_terms :
    {W : Type 0} (x : Vault.Externals W) (env : Env) (tracked : TrackedPosition)
    (liquidator user : Address) (i : Vault.Instance) (stored : Vault.Position)
    (w w' : Vault.World W)
    → w.store.instance_storage ≡ some i
    → get user w.store.positions ≡ some stored
    → tracked.position.borrowed_amount ≡ stored.borrowed_amount
    → pos 0 ≤ℤ stored.borrowed_amount
    → liquidate x env liquidator user (liquidation_repay_amount tracked) w ≡ ok (tt, w')
    → (total_borrows_of w'.store
        ≡ total_borrows_of w.store +ℤ neg_ℤ (liquidation_repay_amount tracked))
      × ((shares : ℤ) × (w'.store.events
            ≡ w.store.events
              ++ Vault.Event.liquidation liquidator user
                  (liquidation_repay_amount tracked)
                  shares
                  (expected_profit (liquidation_repay_amount tracked) i.pool_config.liq_bonus)
                ∷ []))
unfolding liquidation_repay_amount expected_profit
liquidation_terms x env tracked liquidator user i stored w w' es found same nonneg e =
    let half = tracked.position.borrowed_amount /ℤ pos 2 in
    let run = liquidate-Seized x env liquidator user half w w' e in
    let same_stored : stored ≡ run.stored = ground (arith, run.found) in
    let same_instance : i ≡ run.instance_before = ground (arith, run.initialized) in
    let owed = (charged env w.store run.stored).borrowed_amount in
    let fits : half ≤ℤ owed /ℤ pos 2 = rw same (
      half_le stored.borrowed_amount owed nonneg
        (rw same_stored (charged_grown env w.store run.stored (rw same_stored at nonneg)))) in
    let repaid : run.repay ≡ half = elim run.whole [
      | inl e ↦ e
      | inr e ↦ same_ℤ run.repay half run.le_asked (rw e fits)
    ] in
    let product = half *ℤ pos i.pool_config.liq_bonus in
    let in_range : in_i128 product ≡ true = rw (same_instance, ← repaid) run.bonus_fits in
    let profit : run.bonus ≡ saturate product /ℤ pos 10000 =
      rw (saturate-in_i128 product in_range, same_instance, ← repaid) run.bonus_value in
    (
      rw (← repaid) run.written.borrows,
      (
        run.shares,
        run.reported
            ∙ ap
                (λ r.
                  w.store.events
                  ++ Vault.Event.liquidation liquidator user r run.shares run.bonus ∷ [])
                repaid
            ∙ ap
                (λ b.
                  w.store.events ++ Vault.Event.liquidation liquidator user half run.shares b ∷ [])
                profit,
      ),
    )
