-- ===== src/Vault/Books.antt =====
-- contracts/vault/src/lib.rs: the books and the user entry points.
use helix_mongolian_spring.Common.{
  ◌≡◌, refl, some, ℤ, pos, neg_ℤ, ◌+ℤ◌, ◌-ℤ◌, ◌/ℤ◌, ◌≤ℤ◌, ◌<ℤ◌, +ℤ_parts, -ℤ_parts, -ℤ_neg, +ℤ_zero,
  ap, arith, Address, Env, ok, get, Entries-get,
}
use helix_mongolian_spring.Vault.{Position, World, Externals}
use helix_mongolian_spring.Vault.Calls.{
  capped, deposit_locked, withdraw_locked, borrow_locked, repay_locked, liquidate_locked,
}
use helix_mongolian_spring.Vault.Accounting.{
  IsSound, IsHolding, Booked, Writes-Booked, book_deposit-Writes, book_withdrawal-Writes,
  book_borrow-Writes, book_repayment-Writes, book_liquidation-Writes, debt_of,
}
use helix_mongolian_spring.Vault.CollateralRuns.{
  deposit_locked-DepositRun, withdraw_locked-WithdrawRun,
}
use helix_mongolian_spring.Vault.DebtRuns.{borrow_locked-BorrowRun, repay_locked-RepayRun}
use helix_mongolian_spring.Vault.LiquidationRun.{repaid, liquidate_locked-LiquidationRun}

-- Half of a debt that is not negative is no more than the debt.
repaid-le : (n : ℤ) (p : Position) → pos 0 ≤ℤ p.borrowed_amount → repaid n p ≤ℤ p.borrowed_amount
unfolding ◌/ℤ◌
repaid-le n p h = ground arith

module _ {W : Type 0} (x : Externals W) (env : Env) (w w' : World W) (v : IsSound w.store) where
  -- A deposit of a positive amount under the lock that returns, on sound books: `total_deposits` grows
  -- by the amount and `total_borrows` by nothing, and the user's entry alone is written, with the
  -- amount more shares and a debt at least the one it had.
  pub deposit_locked-Booked :
      (user token : Address) (n : ℤ)
      → pos 0 <ℤ n
      → deposit_locked x env user token n w ≡ ok (tt, w')
      → Booked user n (pos 0) w.store w'.store
  deposit_locked-Booked user token n pn e =
      let run = deposit_locked-DepositRun x env user token n w w' e in
      let q = run.position in
      let h = Entries-get IsHolding user w.store.positions v.holding tt in
      let sum = +ℤ_parts q.deposited_shares n in
      let p = record q { deposited_shares = q.deposited_shares +ℤ n } in
      let writes = book_deposit-Writes user token n p run.paid w' (ground arith) run.booked in
      Writes-Booked user p n (pos 0) w.store w'.store (rw run.same at writes) (ground arith)
        (ground (arith, +ℤ_parts (debt_of (get user w.store.positions)) (pos 0))) (ground arith)
        (ground arith)

  -- A withdrawal under the lock that returns, on sound books: `total_deposits` falls by the amount and
  -- `total_borrows` stays, and the user's entry alone is written, with the amount fewer shares and a
  -- debt at least the one it had; an entry that is left with nothing is removed.
  pub withdraw_locked-Booked :
      (user token : Address) (n : ℤ)
      → withdraw_locked x env user token n w ≡ ok (tt, w')
      → Booked user (neg_ℤ n) (pos 0) w.store w'.store
  withdraw_locked-Booked user token n e =
      let run = withdraw_locked-WithdrawRun x env user token n w w' e in
      let q = run.position in
      let h = Entries-get IsHolding user w.store.positions v.holding tt in
      let left = -ℤ_parts q.deposited_shares n in
      let p = record q { deposited_shares = q.deposited_shares -ℤ n } in
      let writes = book_withdrawal-Writes user token n p run.paid w' run.booked in
      Writes-Booked user p (neg_ℤ n) (pos 0) w.store w'.store (rw run.same at writes)
        (rw (run.found, -ℤ_neg) (ap (λ s. s -ℤ n) run.accrued.same_shares))
        (ground (arith, +ℤ_parts (debt_of (get user w.store.positions)) (pos 0))) (ground arith)
        (ground arith)

  -- A loan of a positive amount under the lock that returns, on sound books: `total_borrows` and
  -- `total_deposits` change by the amount and by nothing, as the user's entry alone is written, with
  -- the shares it had and a debt that grew by the amount at least.
  pub borrow_locked-Booked :
      (user token : Address) (n : ℤ)
      → pos 0 <ℤ n
      → borrow_locked x env user token n w ≡ ok (tt, w')
      → Booked user (pos 0) n w.store w'.store
  borrow_locked-Booked user token n pn e =
      let run = borrow_locked-BorrowRun x env user token n w w' e in
      let q = run.position in
      let h = Entries-get IsHolding user w.store.positions v.holding tt in
      let sum = +ℤ_parts q.borrowed_amount n in
      let old = debt_of (get user w.store.positions) in
      let p = record q { borrowed_amount = q.borrowed_amount +ℤ n } in
      let here : run.paid.store.instance_storage ≡ some run.instance_before =
        rw run.same run.initialized in
      let writes =
        book_borrow-Writes user n (run.instance_before.total_borrows +ℤ n) run.health_factor p
          run.instance_before run.paid w' here refl (ground arith) run.booked in
      Writes-Booked user p (pos 0) n w.store w'.store (rw run.same at writes)
        (rw +ℤ_zero (ground arith)) (ground (arith, +ℤ_parts old n)) (ground arith) (ground arith)

  -- A repayment of a positive amount under the lock that returns, on sound books: some `r` between none
  -- and the amount is taken off `total_borrows`, and the user's entry alone is written, with the shares
  -- it had and a debt lower by `r` at most.
  pub repay_locked-Booked :
      (user token : Address) (n : ℤ)
      → pos 0 <ℤ n
      → repay_locked x env user token n w ≡ ok (tt, w')
      → (r : ℤ) × (pos 0 ≤ℤ r) × (r ≤ℤ n) × Booked user (pos 0) (neg_ℤ r) w.store w'.store
  repay_locked-Booked user token n pn e =
      let run = repay_locked-RepayRun x env user token n w w' e in
      let q = run.position in
      let h = Entries-get IsHolding user w.store.positions v.holding tt in
      let r = capped n q.borrowed_amount in
      let left = -ℤ_parts q.borrowed_amount r in
      let old = debt_of (get user w.store.positions) in
      let p = record q { borrowed_amount = q.borrowed_amount -ℤ r } in
      let writes = book_repayment-Writes user r p run.paid w' run.booked in
      (
        r,
        ground arith,
        ground arith,
        Writes-Booked user p (pos 0) (neg_ℤ r) w.store w'.store (rw run.same at writes)
            (rw (run.found, +ℤ_zero) run.accrued.same_shares)
            (rw -ℤ_neg (ground (arith, -ℤ_parts old r))) (ground arith) (ground arith),
      )

  pub liquidate_locked-Booked :
      (liquidator user c d : Address) (n : ℤ)
      → liquidate_locked x env liquidator user c d n w ≡ ok (tt, w')
      → (r k : ℤ) × (pos 0 <ℤ r) × (pos 0 <ℤ k) × Booked user (neg_ℤ k) (neg_ℤ r) w.store w'.store
  liquidate_locked-Booked liquidator user c d n e =
      let run = liquidate_locked-LiquidationRun x env liquidator user c d n w w' e in
      let q = run.position in
      let h = Entries-get IsHolding user w.store.positions v.holding tt in
      let r = repaid n q in
      let k = run.seized in
      let nonneg : pos 0 ≤ℤ q.borrowed_amount = ground arith in
      let half = repaid-le n q nonneg in
      let left = -ℤ_parts q.borrowed_amount r in
      let kept = -ℤ_parts q.deposited_shares k in
      let old = debt_of (get user w.store.positions) in
      let p = record q {
        deposited_shares = q.deposited_shares -ℤ k;
        borrowed_amount = q.borrowed_amount -ℤ r;
      } in
      let writes = book_liquidation-Writes liquidator user r k _ p run.paid w' run.booked in
      (
        r,
        k,
        run.positive,
        run.some_seized,
        Writes-Booked user p (neg_ℤ k) (neg_ℤ r) w.store w'.store (rw run.same_paid at writes)
            (rw (run.found, -ℤ_neg) (ap (λ s. s -ℤ k) run.accrued.same_shares))
            (rw -ℤ_neg (ground (arith, -ℤ_parts old r))) (ground arith) (ground arith),
      )
