-- ===== src/Vault/Outcomes.antt =====
-- contracts/vault/src/lib.rs: what a user entry point has done when it returns, and when it is refused.
use helix_mongolian_spring.Common.{
  ◌+◌, ◌≡◌, ◌⊎◌, inl, inr, true, some, ℤ, pos, ◌+ℤ◌, ◌-ℤ◌, ◌≤ℤ◌, ◌<ℤ◌, int_laws, arith, ok, err,
  raised, Address, Env, get, Option-cases, Result-cases, Bool-cases, unchanged, leb_ℤ, pos_part,
  neg_part, neg_ℤ,
}
use helix_mongolian_spring.Vault.{
  Position, Instance, World, Externals, with_lock, liquidator_role, is_paused,
}
use helix_mongolian_spring.Vault.Risk.{
  bps_denominator, health_factor_for_position, require_exact_incoming_delta,
}
use helix_mongolian_spring.Vault.Calls.{
  receive_exactly, deposit, withdraw, borrow, liquidate, require_healthy, deposit_locked,
  withdraw_locked,
}
use helix_mongolian_spring.Vault.Interest.{charged}
use helix_mongolian_spring.Vault.Accounting.{Writes, book_withdrawal-Writes}
use helix_mongolian_spring.Vault.Quiet.{health_factor_same}
use helix_mongolian_spring.Vault.CollateralRuns.{withdraw_locked-WithdrawRun}

module _ {W : Type 0} (x : Externals W) (env : Env) where
  -- Taking a payment that returns: the vault's balance of the token, as the token reports it, has
  -- grown by exactly the amount.
  pub receive_exactly_exact :
      (token from : Address) (n : ℤ) (w w' : World W)
      → receive_exactly x env token from n w ≡ ok (tt, w')
      → (before after : ℤ) × (x.balance token env.current_contract w.outside ≡ some before)
        × (x.balance token env.current_contract w'.outside ≡ some after)
        × (after ≡ before +ℤ n)
  unfolding receive_exactly require_exact_incoming_delta
  receive_exactly_exact token from n w w' e =
      elim (Option-cases (x.balance token env.current_contract w.outside)) [
        | inl unread ↦ absurd (ground arith)
        | inr (b, eb) ↦ elim (Option-cases (x.balance token env.current_contract w'.outside)) [
          | inl unread ↦ absurd (ground arith)
          | inr (a, ea) ↦
              let same : pos_part (a -ℤ b) + neg_part n ≡ pos_part n + neg_part (a -ℤ b) =
                ground arith in
              (b, a, eb, ea, grind int_laws)
        ]
      ]

  -- A paused vault refuses, as paused, every deposit, withdrawal, loan and liquidation of a positive
  -- amount that the caller authorised, the liquidator holding its role.
  pub paused_refuses :
      (i : Instance) (w : World W)
      → w.store.instance_storage ≡ some i
      → i.paused ≡ true
      → (user token liquidator : Address) (n : ℤ) → pos 0 <ℤ n
      → env.authorized user ≡ true
      → env.authorized liquidator ≡ true
      → w.store.roles liquidator liquidator_role ≡ true
      → (deposit x env user token n w ≡ err (raised is_paused))
        × (withdraw x env user token n w ≡ err (raised is_paused))
        × (borrow x env user n w ≡ err (raised is_paused))
        × (liquidate x env liquidator user n w ≡ err (raised is_paused))
  unfolding deposit withdraw borrow liquidate
  paused_refuses i w es h user token liquidator n pn au al role =
      (ground arith, ground arith, ground arith, ground arith)

  -- A deposit that returns: the user authorised it, the vault was not paused, the amount was positive
  -- and the token supported. The rest is what `deposit_locked` did under the lock.
  deposit_checks :
      (user token : Address) (n : ℤ) (w w' : World W)
      → deposit x env user token n w ≡ ok (tt, w')
      → (env.authorized user ≡ true)
        × (pos 0 <ℤ n)
        × (with_lock (deposit_locked x env user token n) w ≡ ok (tt, w'))
  unfolding deposit
  deposit_checks user token n w w' e = (ground arith, ground arith, ground arith)

  -- A position is stored that holds `n` shares. Its debt with the interest due is what is left of the
  -- debt, and `n` shares less are left: that is what `w'` holds of the user, with `total_deposits` lower
  -- by `n`. It has no debt, or a health factor above 10000.
  pub StaysHealthy : (user token : Address) → ℤ → (w w' : World W) → Type 0
  StaysHealthy user token n w w' =
      (stored : Position) × (get user w.store.positions ≡ some stored)
      × (n ≤ℤ stored.deposited_shares)
      × (let left = record (charged env w.store stored) {
        deposited_shares = stored.deposited_shares -ℤ n;
      } in
          Writes user left (neg_ℤ n) (pos 0) w.store w'.store
          × ((left.borrowed_amount ≤ℤ pos 0)
              ⊎ ((h : ℤ) × (health_factor_for_position x env token left w ≡ ok (h, w))
                  × (bps_denominator <ℤ h))))

  StaysHealthy-of :
      (user token : Address) (n : ℤ) (w w' : World W) (stored q : Position)
      → q ≡ charged env w.store stored
      → get user w.store.positions ≡ some stored
      → n ≤ℤ q.deposited_shares
      → (let left = record q { deposited_shares = q.deposited_shares -ℤ n } in
          Writes user left (neg_ℤ n) (pos 0) w.store w'.store
          × ((left.borrowed_amount ≤ℤ pos 0)
              ⊎ ((h : ℤ) × (health_factor_for_position x env token left w ≡ ok (h, w))
                  × (bps_denominator <ℤ h))))
      → StaysHealthy user token n w w'
  unfolding StaysHealthy
  StaysHealthy-of user token n w w' stored q exact found covered healthy =
      (stored, found, rw exact at covered, rw exact at healthy)

  -- A withdrawal under the lock that returns: a position was stored that held the shares. What is stored
  -- of it afterwards, if anything is left, is its shares less those withdrawn and its debt with the
  -- interest due; that has no debt or a health factor above 10000. `total_deposits` falls by the shares.
  pub withdraw_locked_healthy :
      (user token : Address) (n : ℤ) (w w' : World W)
      → withdraw_locked x env user token n w ≡ ok (tt, w')
      → StaysHealthy user token n w w'
  unfolding require_healthy
  withdraw_locked_healthy user token n w w' e =
      let run = withdraw_locked-WithdrawRun x env user token n w w' e in
      let q = run.position in
      let left = record q { deposited_shares = q.deposited_shares -ℤ n } in
      let healthy = run.healthy in
      let writes = book_withdrawal-Writes user token n left run.paid w' run.booked in
      StaysHealthy-of user token n w w' run.stored q run.exact run.found run.covered (
        rw run.same at writes,
        elim (Result-cases (health_factor_for_position x env token left w)) [
          | inl (h, w1, e1) ↦
              let f1 = unchanged e1 (health_factor_same x env token left h w w1 e1) in
              elim (Bool-cases (leb_ℤ q.borrowed_amount (pos 0))) [
                | inl clear ↦ inl (ground arith)
                | inr owed ↦ inr (h, f1, ground arith)
              ]
          | inr (f, e1) ↦ inl (ground arith)
        ],
      )
