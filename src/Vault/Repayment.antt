-- ===== src/Vault/Repayment.antt =====
-- contracts/vault/src/lib.rs: what `repay` has done under the lock when it returns.
use std.Path.{subst}
use helix_mongolian_spring.Common.{
  ◌≡◌, ◌∙◌, ap, ◌⊎◌, inl, inr, some, ℤ, pos, neg_ℤ, ◌-ℤ◌, ◌≤ℤ◌, ◌<ℤ◌, arith, ok, Address, Env, get,
}
use helix_mongolian_spring.Vault.{Position, World, Externals}
use helix_mongolian_spring.Vault.Calls.{capped, repay_locked, book_repayment}
use helix_mongolian_spring.Vault.Interest.{charged}
use helix_mongolian_spring.Vault.Accounting.{Writes, book_repayment-Writes}
use helix_mongolian_spring.Vault.DebtRuns.{repay_locked-RepayRun}
use helix_mongolian_spring.Vault.Outcomes.{receive_exactly_exact}
use helix_mongolian_spring.Vault.Released.{capped_le, capped_one}
use helix_mongolian_spring.Vault.Custody.{BalanceMoved}

book_repayment-outside :
    {W : Type 0} (user : Address) (n : ℤ) (p : Position) (w w' : World W)
    → book_repayment user n p w ≡ ok (tt, w')
    → w'.outside ≡ w.outside
unfolding book_repayment
book_repayment-outside user n p w w' e = ground arith

module _ {W : Type 0} (x : Externals W) (env : Env) where
  -- The vault has received `r` of the token, or nothing where `r` is not positive.
  abbrev Paid : Address → ℤ → World W → World W → Type 0
  Paid token r w w' =
      ((pos 0 <ℤ r) × BalanceMoved x env token r w w') ⊎ ((r ≤ℤ pos 0) × (w'.outside ≡ w.outside))

  -- Of the amount `n` and the stored debt with the interest due the lesser is paid, and taken off the
  -- debt that is stored and off `total_borrows`.
  pub record Repaid (user token : Address) (n : ℤ) (w w' : World W) : Type 0 where
    pub stored : Position
    pub amount : ℤ
    pub found : get user w.store.positions ≡ some stored
    pub le_asked : amount ≤ℤ n
    pub le_debt : amount ≤ℤ (charged env w.store stored).borrowed_amount
    pub whole : (amount ≡ n) ⊎ (amount ≡ (charged env w.store stored).borrowed_amount)
    pub written :
        Writes user
          (record (charged env w.store stored) {
            borrowed_amount = (charged env w.store stored).borrowed_amount -ℤ amount;
          })
          (pos 0)
          (neg_ℤ amount)
          w.store
          w'.store
    pub paid : Paid token amount w w'

  -- A repayment under the lock that returns: a position was stored. Of the amount and its debt, with the
  -- interest due, the lesser is what the vault has received, as the token reports its balance, where
  -- that is positive; it is taken off the debt that is stored afterwards and off `total_borrows`.
  pub repay_locked-Repaid :
      (user token : Address) (n : ℤ) (w w' : World W)
      → repay_locked x env user token n w ≡ ok (tt, w')
      → Repaid user token n w w'
  repay_locked-Repaid user token n w w' e =
      let run = repay_locked-RepayRun x env user token n w w' e in
      let q = run.position in
      let r = capped n q.borrowed_amount in
      let exact = run.exact in
      let writes =
        book_repayment-Writes user r (record q { borrowed_amount = q.borrowed_amount -ℤ r })
          run.paid w' run.booked in
      let outside = book_repayment-outside user r _ run.paid w' run.booked in
      record {
        stored = run.stored;
        amount = r;
        found = run.found;
        le_asked = (capped_le n q.borrowed_amount).0;
        le_debt = rw exact (capped_le n (charged env w.store run.stored).borrowed_amount).1;
        whole = rw exact (capped_one n (charged env w.store run.stored).borrowed_amount);
        written =
            subst
              (λ (p : Position).
                Writes user (record p { borrowed_amount = p.borrowed_amount -ℤ r }) (pos 0)
                  (neg_ℤ r) w.store w'.store)
              exact (rw run.same at writes);
        paid = elim run.received [
          | inl (positive, got) ↦
              let (before, after, counted, moved, eq) =
                receive_exactly_exact x env token user r w run.paid got in
              inl (
                positive,
                record {
                  before = before;
                  counted = counted;
                  moved = rw outside (moved ∙ ap some eq);
                },
              )
          | inr (nothing, same) ↦ inr (nothing, outside ∙ ap (λ (v : World W). v.outside) same)
        ];
      }
