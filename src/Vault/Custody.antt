-- ===== src/Vault/Custody.antt =====
-- contracts/vault/src/lib.rs: the vault's balance of a token beside its books.
use helix_mongolian_spring.Common.{
  ◌+◌, ◌≡◌, ◌∙◌, ap, inl, inr, some, ℤ, pos, pos_part, neg_part, neg_ℤ, neg_ℤ_parts, ◌+ℤ◌, ◌-ℤ◌,
  ◌<ℤ◌, int_laws, arith, ok, Address, Env, Option-cases,
}
use helix_mongolian_spring.Vault.{Position, World, Externals}
use helix_mongolian_spring.Vault.Risk.{require_exact_outgoing_delta}
use helix_mongolian_spring.Vault.Calls.{
  book_deposit, book_withdrawal, book_borrow, deposit_locked, withdraw_locked, borrow_locked,
  send_exactly, receive_exactly,
}
use helix_mongolian_spring.Vault.Accounting.{IsSound, total_deposits_of, total_borrows_of}
use helix_mongolian_spring.Vault.Books.{
  deposit_locked-Booked, withdraw_locked-Booked, borrow_locked-Booked,
}
use helix_mongolian_spring.Vault.CollateralRuns.{
  deposit_locked-DepositRun, withdraw_locked-WithdrawRun,
}
use helix_mongolian_spring.Vault.DebtRuns.{borrow_locked-BorrowRun}
use helix_mongolian_spring.Vault.Outcomes.{receive_exactly_exact}

module _ {W : Type 0} where
  book_deposit_outside :
      (user token : Address) (n : ℤ) (p : Position) (w w' : World W)
      → book_deposit user token n p w ≡ ok (tt, w')
      → w'.outside ≡ w.outside
  unfolding book_deposit
  book_deposit_outside user token n p w w' e = ground arith

  book_withdrawal_outside :
      (user token : Address) (n : ℤ) (p : Position) (w w' : World W)
      → book_withdrawal user token n p w ≡ ok (tt, w')
      → w'.outside ≡ w.outside
  unfolding book_withdrawal
  book_withdrawal_outside user token n p w w' e = ground arith

  book_borrow_outside :
      (user : Address) (n t h : ℤ) (p : Position) (w w' : World W)
      → book_borrow user n t h p w ≡ ok (tt, w')
      → w'.outside ≡ w.outside
  unfolding book_borrow
  book_borrow_outside user n t h p w w' e = ground arith

module _ {W : Type 0} (x : Externals W) (env : Env) where
  -- The vault's balance of a token, as the token reports it, was `before` and is `before + d`.
  pub record BalanceMoved (token : Address) (d : ℤ) (w w' : World W) : Type 0 where
    pub before : ℤ
    pub counted : x.balance token env.current_contract w.outside ≡ some before
    pub moved : x.balance token env.current_contract w'.outside ≡ some (before +ℤ d)

  BalanceMoved-same :
      (token : Address) (d : ℤ) (w w1 w' : World W)
      → w'.outside ≡ w1.outside
      → BalanceMoved token d w w1
      → BalanceMoved token d w w'
  BalanceMoved-same token d w w1 w' e m = record {
    before = m.before;
    counted = m.counted;
    moved = rw e m.moved;
  }

  receive_exactly-BalanceMoved :
      (token from : Address) (n : ℤ) (w w' : World W)
      → receive_exactly x env token from n w ≡ ok (tt, w')
      → BalanceMoved token n w w'
  receive_exactly-BalanceMoved token from n w w' e =
      let (b, a, eb, ea, same) = receive_exactly_exact x env token from n w w' e in
      record { before = b; counted = eb; moved = ea ∙ ap some same }

  -- the balance after a payment that was checked against the one before
  sent_exactly :
      (token to : Address) (n before : ℤ) (w w' : World W)
      → send_exactly x env token to n before w ≡ ok (tt, w')
      → x.balance token env.current_contract w'.outside ≡ some (before +ℤ neg_ℤ n)
  unfolding send_exactly require_exact_outgoing_delta
  sent_exactly token to n before w w' e =
      elim (Option-cases (x.balance token env.current_contract w'.outside)) [
        | inl unread ↦ absurd (ground arith)
        | inr (a, ea) ↦
            let delta : pos_part (before -ℤ a) + neg_part n ≡ pos_part n + neg_part (before -ℤ a) =
              ground arith in
            ea ∙ ap some (paid_out before a n delta)
      ]
    where
      paid_out :
          (b a n : ℤ)
          → pos_part (b -ℤ a) + neg_part n ≡ pos_part n + neg_part (b -ℤ a)
          → a ≡ b +ℤ neg_ℤ n
      paid_out b a n h = omega (int_laws, neg_ℤ_parts n)

  send_exactly-BalanceMoved :
      (token to : Address) (n before : ℤ) (w w' : World W)
      → x.balance token env.current_contract w.outside ≡ some before
      → send_exactly x env token to n before w ≡ ok (tt, w')
      → BalanceMoved token (neg_ℤ n) w w'
  send_exactly-BalanceMoved token to n before w w' c e = record {
    before = before;
    counted = c;
    moved = sent_exactly token to n before w w' e;
  }

  module _ (w w' : World W) (v : IsSound w.store) where
    -- A deposit of a positive amount under the lock that returns, on sound books: the vault's balance
    -- of the token and `total_deposits` have both grown by the amount.
    pub deposit_locked-BalanceMoved :
        (user token : Address) (n : ℤ)
        → pos 0 <ℤ n
        → deposit_locked x env user token n w ≡ ok (tt, w')
        → BalanceMoved token n w w' × (total_deposits_of w'.store ≡ total_deposits_of w.store +ℤ n)
    deposit_locked-BalanceMoved user token n pn e =
        let run = deposit_locked-DepositRun x env user token n w w' e in
        let moved = receive_exactly-BalanceMoved token user n w run.paid run.received in
        let quiet = book_deposit_outside user token n _ run.paid w' run.booked in
        let books = deposit_locked-Booked x env w w' v user token n pn e in
        (BalanceMoved-same token n w run.paid w' quiet moved, books.deposits)

    -- A withdrawal under the lock that returns, on sound books: the vault's balance of the token and
    -- `total_deposits` have both fallen by the amount.
    pub withdraw_locked-BalanceMoved :
        (user token : Address) (n : ℤ)
        → withdraw_locked x env user token n w ≡ ok (tt, w')
        → BalanceMoved token (neg_ℤ n) w w'
          × (total_deposits_of w'.store ≡ total_deposits_of w.store +ℤ neg_ℤ n)
    withdraw_locked-BalanceMoved user token n e =
        let run = withdraw_locked-WithdrawRun x env user token n w w' e in
        let moved =
          send_exactly-BalanceMoved token user n run.before w run.paid run.counted run.sent in
        let quiet = book_withdrawal_outside user token n _ run.paid w' run.booked in
        let books = withdraw_locked-Booked x env w w' v user token n e in
        (BalanceMoved-same token (neg_ℤ n) w run.paid w' quiet moved, books.deposits)

    -- A loan of a positive amount under the lock that returns, on sound books: the vault's balance of
    -- the token has fallen by the amount, and `total_borrows` has grown by it.
    pub borrow_locked-BalanceMoved :
        (user token : Address) (n : ℤ)
        → pos 0 <ℤ n
        → borrow_locked x env user token n w ≡ ok (tt, w')
        → BalanceMoved token (neg_ℤ n) w w'
          × (total_borrows_of w'.store ≡ total_borrows_of w.store +ℤ n)
    borrow_locked-BalanceMoved user token n pn e =
        let run = borrow_locked-BorrowRun x env user token n w w' e in
        let moved =
          send_exactly-BalanceMoved token user n run.before w run.paid run.counted run.sent in
        let quiet = book_borrow_outside user n _ _ _ run.paid w' run.booked in
        let books = borrow_locked-Booked x env w w' v user token n pn e in
        (BalanceMoved-same token (neg_ℤ n) w run.paid w' quiet moved, books.borrows)
