-- ===== src/Vault/CollateralRuns.antt =====
-- contracts/vault/src/lib.rs: the steps that `deposit` and `withdraw` have gone through when they
-- return.
use helix_mongolian_spring.Common.{
  ◌≡◌, some, ℤ, ◌+ℤ◌, ◌-ℤ◌, ◌≤ℤ◌, arith, Address, Env, ok, get, Result-cases, inl, inr, unchanged,
  Option-cases,
}
use helix_mongolian_spring.Vault.{Position, World, Externals}
use helix_mongolian_spring.Vault.Risk.{enforce_min_position, preview_accrued_position}
use helix_mongolian_spring.Vault.Calls.{
  or_new, receive_exactly, send_exactly, position_to_credit, require_healthy, deposit_locked,
  withdraw_locked, book_deposit, book_withdrawal,
}
use helix_mongolian_spring.Vault.Interest.{
  Accrued, preview_accrued_position-Accrued, charged, preview_accrued_position-charged,
}
use helix_mongolian_spring.Vault.Quiet.{
  enforce_min_position_same, receive_exactly_same, send_exactly_same, position_to_credit-Accrued,
  require_healthy_same,
}

module _ {W : Type 0} (x : Externals W) (env : Env) where
  pub record DepositRun (user token : Address) (n : ℤ) (w w' : World W) : Type 0 where
    pub position : Position
    pub paid : World W
    pub accrued : Accrued env (or_new env (get user w.store.positions)) position
    pub received : receive_exactly x env token user n w ≡ ok (tt, paid)
    pub same : paid.store ≡ w.store
    pub enough : enforce_min_position (position.deposited_shares +ℤ n) paid ≡ ok (tt, paid)
    pub booked :
        book_deposit user token n
          (record position { deposited_shares = position.deposited_shares +ℤ n })
          paid
        ≡ ok (tt, w')

  pub deposit_locked-DepositRun :
      (user token : Address) (n : ℤ) (w w' : World W)
      → deposit_locked x env user token n w ≡ ok (tt, w')
      → DepositRun user token n w w'
  unfolding deposit_locked
  deposit_locked-DepositRun user token n w w' e =
      elim (Result-cases (position_to_credit x env (get user w.store.positions) w)) [
        | inl (q, w1, e1) ↦
            let (same1, a) =
              position_to_credit-Accrued x env (get user w.store.positions) q w w1 e1 in
            let f1 = unchanged e1 same1 in
            elim (Result-cases (receive_exactly x env token user n w)) [
              | inl (_, w2, e2) ↦
                  elim (Result-cases (enforce_min_position (q.deposited_shares +ℤ n) w2)) [
                    | inl (_, w3, e3) ↦
                        let f3 =
                          unchanged e3
                            (enforce_min_position_same (q.deposited_shares +ℤ n) w2 w3 e3) in
                        record {
                          position = q;
                          paid = w2;
                          accrued = a;
                          received = e2;
                          same = receive_exactly_same x env token user n w w2 e2;
                          enough = f3;
                          booked = ground arith;
                        }
                    | inr (f, e3) ↦ absurd (ground arith)
                  ]
              | inr (f, e2) ↦ absurd (ground arith)
            ]
        | inr (f, e1) ↦ absurd (ground arith)
      ]

  pub record WithdrawRun (user token : Address) (n : ℤ) (w w' : World W) : Type 0 where
    pub stored : Position
    pub position : Position
    pub before : ℤ
    pub paid : World W
    pub found : get user w.store.positions ≡ some stored
    pub accrued : Accrued env stored position
    pub exact : position ≡ charged env w.store stored
    pub covered : n ≤ℤ position.deposited_shares
    pub enough : enforce_min_position (position.deposited_shares -ℤ n) w ≡ ok (tt, w)
    pub healthy :
        require_healthy x env token
          (record position { deposited_shares = position.deposited_shares -ℤ n })
          w
        ≡ ok (tt, w)
    pub counted : x.balance token env.current_contract w.outside ≡ some before
    pub sent : send_exactly x env token user n before w ≡ ok (tt, paid)
    pub same : paid.store ≡ w.store
    pub booked :
        book_withdrawal user token n
          (record position { deposited_shares = position.deposited_shares -ℤ n })
          paid
        ≡ ok (tt, w')

  pub withdraw_locked-WithdrawRun :
      (user token : Address) (n : ℤ) (w w' : World W)
      → withdraw_locked x env user token n w ≡ ok (tt, w')
      → WithdrawRun user token n w w'
  unfolding withdraw_locked
  withdraw_locked-WithdrawRun user token n w w' e =
      elim (Option-cases (get user w.store.positions)) [
        | inl missing ↦ absurd (ground arith)
        | inr (stored, found) ↦ elim (Result-cases (preview_accrued_position env stored w)) [
          | inl (q, w1, e1) ↦
              let (same1, a) = preview_accrued_position-Accrued env stored q w w1 e1 in
              let f1 = unchanged e1 same1 in
              let left = q.deposited_shares -ℤ n in
              let p = record q { deposited_shares = left } in
              elim (Result-cases (enforce_min_position left w)) [
                | inl (_, w2, e2) ↦
                    let f2 = unchanged e2 (enforce_min_position_same left w w2 e2) in
                    elim (Result-cases (require_healthy x env token p w)) [
                      | inl (_, w3, e3) ↦
                          let f3 = unchanged e3 (require_healthy_same x env token p w w3 e3) in
                          elim (Option-cases (x.balance token env.current_contract w.outside)) [
                            | inl unread ↦ absurd (ground arith)
                            | inr (before, counted) ↦
                                elim (Result-cases (send_exactly x env token user n before w)) [
                                  | inl (_, w4, e4) ↦ record {
                                    stored = stored;
                                    position = q;
                                    before = before;
                                    paid = w4;
                                    found = found;
                                    accrued = a;
                                    exact = preview_accrued_position-charged env stored q w w1 e1;
                                    covered = ground arith;
                                    enough = f2;
                                    healthy = f3;
                                    counted = counted;
                                    sent = e4;
                                    same = send_exactly_same x env token user n before w w4 e4;
                                    booked = ground arith;
                                  }
                                  | inr (f, e4) ↦ absurd (ground arith)
                                ]
                          ]
                      | inr (f, e3) ↦ absurd (ground arith)
                    ]
                | inr (f, e2) ↦ absurd (ground arith)
              ]
          | inr (f, e1) ↦ absurd (ground arith)
        ]
      ]
