-- ===== src/Vault/DebtRuns.antt =====
-- contracts/vault/src/lib.rs: the steps that `borrow` and `repay` have gone through when they return.
use helix_mongolian_spring.Common.{
  ◌≡◌, ◌⊎◌, some, ℤ, pos, ◌+ℤ◌, ◌-ℤ◌, ◌≤ℤ◌, ◌<ℤ◌, arith, Address, Env, ok, get, Result-cases,
  Option-cases, Bool-cases, inl, inr, unchanged, leb_ℤ, refl,
}
use helix_mongolian_spring.Vault.{Position, Instance, World, Externals, primary_supported_asset}
use helix_mongolian_spring.Vault.Risk.{
  preview_accrued_position, max_borrow_for_position, health_factor_for_position,
}
use helix_mongolian_spring.Vault.Calls.{
  or_new, capped, receive_exactly, send_exactly, borrow_locked, repay_locked, book_borrow,
  book_repayment,
}
use helix_mongolian_spring.Vault.Interest.{
  Accrued, preview_accrued_position-Accrued, charged, preview_accrued_position-charged,
}
use helix_mongolian_spring.Vault.Quiet.{
  primary_supported_asset_same, receive_exactly_same, send_exactly_same, max_borrow_same,
  health_factor_same,
}

module _ {W : Type 0} (x : Externals W) (env : Env) where
  pub record BorrowRun (user token : Address) (n : ℤ) (w w' : World W) : Type 0 where
    pub instance_before : Instance
    pub collateral : Address
    pub position : Position
    pub limit : ℤ
    pub before : ℤ
    pub paid : World W
    pub health_factor : ℤ
    pub initialized : w.store.instance_storage ≡ some instance_before
    pub first : primary_supported_asset w ≡ ok (collateral, w)
    pub accrued : Accrued env (or_new env (get user w.store.positions)) position
    pub limited :
        max_borrow_for_position x env collateral
          (record position { borrowed_amount = position.borrowed_amount +ℤ n })
          w
        ≡ ok (limit, w)
    pub within : position.borrowed_amount +ℤ n ≤ℤ limit
    pub counted : x.balance token env.current_contract w.outside ≡ some before
    pub liquid : n ≤ℤ before
    pub sent : send_exactly x env token user n before w ≡ ok (tt, paid)
    pub same : paid.store ≡ w.store
    pub rated :
        health_factor_for_position x env collateral
          (record position { borrowed_amount = position.borrowed_amount +ℤ n })
          paid
        ≡ ok (health_factor, paid)
    pub booked :
        book_borrow user n
          (instance_before.total_borrows +ℤ n)
          health_factor
          (record position { borrowed_amount = position.borrowed_amount +ℤ n })
          paid
        ≡ ok (tt, w')

  -- the steps from the payout on
  borrow_locked-paid :
      (user token : Address) (n : ℤ) (w w' : World W) (i : Instance) (c : Address) (q : Position)
      (l b : ℤ)
      → borrow_locked x env user token n w ≡ ok (tt, w')
      → w.store.instance_storage ≡ some i
      → primary_supported_asset w ≡ ok (c, w)
      → preview_accrued_position env (or_new env (get user w.store.positions)) w ≡ ok (q, w)
      → Accrued env (or_new env (get user w.store.positions)) q
      → max_borrow_for_position x env c (record q { borrowed_amount = q.borrowed_amount +ℤ n }) w
        ≡ ok (l, w)
      → x.balance token env.current_contract w.outside ≡ some b
      → BorrowRun user token n w w'
  unfolding borrow_locked
  borrow_locked-paid user token n w w' i c q l b e es ec e1 a e2 counted =
      let p = record q { borrowed_amount = q.borrowed_amount +ℤ n } in
      elim (Result-cases (send_exactly x env token user n b w)) [
        | inl (_, w3, e3) ↦
            let s3 = send_exactly_same x env token user n b w w3 e3 in
            let es3 : w3.store.instance_storage ≡ some i = ground arith in
            elim (Result-cases (health_factor_for_position x env c p w3)) [
              | inl (h, w4, e4) ↦
                  let f4 = unchanged e4 (health_factor_same x env c p h w3 w4 e4) in
                  record {
                    instance_before = i;
                    collateral = c;
                    position = q;
                    limit = l;
                    before = b;
                    paid = w3;
                    health_factor = h;
                    initialized = es;
                    first = ec;
                    accrued = a;
                    limited = e2;
                    within = ground arith;
                    counted = counted;
                    liquid = ground arith;
                    sent = e3;
                    same = s3;
                    rated = f4;
                    booked = ground arith;
                  }
              | inr (f, e4) ↦ absurd (ground arith)
            ]
        | inr (f, e3) ↦ absurd (ground arith)
      ]

  pub borrow_locked-BorrowRun :
      (user token : Address) (n : ℤ) (w w' : World W)
      → borrow_locked x env user token n w ≡ ok (tt, w')
      → BorrowRun user token n w w'
  unfolding borrow_locked
  borrow_locked-BorrowRun user token n w w' e = elim (Option-cases w.store.instance_storage) [
    | inl missing ↦ absurd (unfold primary_supported_asset in ground arith)
    | inr (i, es) ↦ elim (Result-cases (primary_supported_asset w)) [
      | inl (c, w0, e0) ↦
          let f0 = unchanged e0 (primary_supported_asset_same c w w0 e0) in
          let old = or_new env (get user w.store.positions) in
          elim (Result-cases (preview_accrued_position env old w)) [
            | inl (q, w1, e1) ↦
                let (same1, a) = preview_accrued_position-Accrued env old q w w1 e1 in
                let f1 = unchanged e1 same1 in
                let p = record q { borrowed_amount = q.borrowed_amount +ℤ n } in
                elim (Result-cases (max_borrow_for_position x env c p w)) [
                  | inl (l, w2, e2) ↦
                      let f2 = unchanged e2 (max_borrow_same x env c p l w w2 e2) in
                      elim (Option-cases (x.balance token env.current_contract w.outside)) [
                        | inl unread ↦ absurd (ground arith)
                        | inr (b, counted) ↦
                            borrow_locked-paid user token n w w' i c q l b e es f0 f1 a f2 counted
                      ]
                  | inr (f, e2) ↦ absurd (ground arith)
                ]
            | inr (f, e1) ↦ absurd (ground arith)
          ]
      | inr (f, e0) ↦ absurd (ground arith)
    ]
  ]

  pub record RepayRun (user token : Address) (n : ℤ) (w w' : World W) : Type 0 where
    pub stored : Position
    pub position : Position
    pub paid : World W
    pub found : get user w.store.positions ≡ some stored
    pub accrued : Accrued env stored position
    pub exact : position ≡ charged env w.store stored
    pub received :
        (pos 0 <ℤ capped n position.borrowed_amount
          × (receive_exactly x env token user (capped n position.borrowed_amount) w
              ≡ ok (tt, paid)))
        ⊎ ((capped n position.borrowed_amount ≤ℤ pos 0) × (paid ≡ w))
    pub same : paid.store ≡ w.store
    pub booked :
        book_repayment user
          (capped n position.borrowed_amount)
          (record position {
            borrowed_amount = position.borrowed_amount -ℤ capped n position.borrowed_amount;
          })
          paid
        ≡ ok (tt, w')

  pub repay_locked-RepayRun :
      (user token : Address) (n : ℤ) (w w' : World W)
      → repay_locked x env user token n w ≡ ok (tt, w')
      → RepayRun user token n w w'
  unfolding repay_locked
  repay_locked-RepayRun user token n w w' e = elim (Option-cases (get user w.store.positions)) [
    | inl missing ↦ absurd (ground arith)
    | inr (stored, found) ↦ elim (Result-cases (preview_accrued_position env stored w)) [
      | inl (q, w1, e1) ↦
          let (same1, a) = preview_accrued_position-Accrued env stored q w w1 e1 in
          let f1 = unchanged e1 same1 in
          let exact = preview_accrued_position-charged env stored q w w1 e1 in
          let r = capped n q.borrowed_amount in
          elim (Bool-cases (leb_ℤ r (pos 0))) [
            | inl nothing ↦ record {
              stored = stored;
              position = q;
              paid = w;
              found = found;
              accrued = a;
              exact = exact;
              received = inr (ground arith, refl);
              same = refl;
              booked = ground arith;
            }
            | inr owed ↦ elim (Result-cases (receive_exactly x env token user r w)) [
              | inl (_, w2, e2) ↦ record {
                stored = stored;
                position = q;
                paid = w2;
                found = found;
                accrued = a;
                exact = exact;
                received = inl (ground arith, e2);
                same = receive_exactly_same x env token user r w w2 e2;
                booked = ground arith;
              }
              | inr (f, e2) ↦ absurd (ground arith)
            ]
          ]
      | inr (f, e1) ↦ absurd (ground arith)
    ]
  ]
