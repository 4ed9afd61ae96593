-- ===== src/Vault/LiquidationRun.antt =====
-- contracts/vault/src/lib.rs: the steps that `liquidate` has gone through when it returns.
use helix_mongolian_spring.Common.{
  ◌≡◌, ◌∙◌, some, ℤ, pos, ◌+ℤ◌, ◌-ℤ◌, ◌*ℤ◌, ◌/ℤ◌, ◌≤ℤ◌, ◌<ℤ◌, arith, Address, Env, ok, get,
  Result-cases, Option-cases, inl, inr, unchanged, in_i128, true,
}
use helix_mongolian_spring.Vault.{Position, Instance, World, Externals}
use helix_mongolian_spring.Vault.Risk.{
  bps_denominator, price_scalar, preview_accrued_position, oracle_price, health_factor_for_position,
}
use helix_mongolian_spring.Vault.Calls.{
  capped, receive_exactly, send_exactly, liquidate_locked, book_liquidation,
}
use helix_mongolian_spring.Vault.Interest.{
  Accrued, preview_accrued_position-Accrued, charged, preview_accrued_position-charged,
}
use helix_mongolian_spring.Vault.Quiet.{
  receive_exactly_same, send_exactly_same, health_factor_same, oracle_price_same,
}

-- What the liquidator pays: the amount, at most half of the debt.
abbrev pub repaid : ℤ → Position → ℤ
repaid n p = capped n (p.borrowed_amount /ℤ pos 2)

abbrev pub bonus_on : Instance → ℤ → ℤ
bonus_on i n = n *ℤ pos i.pool_config.liq_bonus /ℤ bps_denominator

module _ {W : Type 0} (x : Externals W) (env : Env) where
  pub record LiquidationRun (liquidator user collateral debt : Address) (n : ℤ) (w w' : World W)
      : Type 0 where
    pub instance_before : Instance
    pub stored : Position
    pub position : Position
    pub health_factor : ℤ
    pub price : ℤ
    pub seized : ℤ
    pub before : ℤ
    pub repaying : World W
    pub paid : World W
    pub initialized : w.store.instance_storage ≡ some instance_before
    pub found : get user w.store.positions ≡ some stored
    pub accrued : Accrued env stored position
    pub exact : position ≡ charged env w.store stored
    pub rated : health_factor_for_position x env collateral position w ≡ ok (health_factor, w)
    pub unhealthy : health_factor ≤ℤ bps_denominator
    pub positive : pos 0 <ℤ repaid n position
    pub received : receive_exactly x env debt liquidator (repaid n position) w ≡ ok (tt, repaying)
    pub same_repaying : repaying.store ≡ w.store
    pub bonus_fits : in_i128 (repaid n position *ℤ pos instance_before.pool_config.liq_bonus) ≡ true
    pub priced : oracle_price x env collateral repaying ≡ ok (price, repaying)
    pub converted :
        x.shares_for_assets collateral
          ((repaid n position +ℤ bonus_on instance_before (repaid n position))
            *ℤ price_scalar
            /ℤ price)
          repaying.outside
        ≡ some seized
    pub some_seized : pos 0 <ℤ seized
    pub covered : seized ≤ℤ position.deposited_shares
    pub counted : x.balance collateral env.current_contract repaying.outside ≡ some before
    pub sent : send_exactly x env collateral liquidator seized before repaying ≡ ok (tt, paid)
    pub same_paid : paid.store ≡ w.store
    pub booked :
        book_liquidation liquidator user
          (repaid n position)
          seized
          (bonus_on instance_before (repaid n position))
          (record position {
            deposited_shares = position.deposited_shares -ℤ seized;
            borrowed_amount = position.borrowed_amount -ℤ repaid n position;
          })
          paid
        ≡ ok (tt, w')

  module _ (liquidator user c d : Address) (n : ℤ) (w w' : World W)
      (e : liquidate_locked x env liquidator user c d n w ≡ ok (tt, w')) where
    liquidate_locked-seized :
        (i : Instance) (stored q : Position) (h p : ℤ) (w1 : World W)
        → w.store.instance_storage ≡ some i
        → get user w.store.positions ≡ some stored
        → preview_accrued_position env stored w ≡ ok (q, w)
        → Accrued env stored q
        → health_factor_for_position x env c q w ≡ ok (h, w)
        → receive_exactly x env d liquidator (repaid n q) w ≡ ok (tt, w1)
        → w1.store ≡ w.store
        → oracle_price x env c w1 ≡ ok (p, w1)
        → LiquidationRun liquidator user c d n w w'
    unfolding liquidate_locked
    liquidate_locked-seized i stored q h p w1 es found e1 a e2 e3 s3 e4 =
        let r = repaid n q in
        let value = (r +ℤ bonus_on i r) *ℤ price_scalar /ℤ p in
        elim (Option-cases (x.shares_for_assets c value w1.outside)) [
          | inl failed ↦ absurd (ground arith)
          | inr (k, converted) ↦ elim (Option-cases (x.balance c env.current_contract w1.outside)) [
            | inl unread ↦ absurd (ground arith)
            | inr (b, counted) ↦ elim (Result-cases (send_exactly x env c liquidator k b w1)) [
              | inl (_, w2, e5) ↦
                  let s5 = send_exactly_same x env c liquidator k b w1 w2 e5 in
                  record {
                    instance_before = i;
                    stored = stored;
                    position = q;
                    health_factor = h;
                    price = p;
                    seized = k;
                    before = b;
                    repaying = w1;
                    paid = w2;
                    initialized = es;
                    found = found;
                    accrued = a;
                    exact = preview_accrued_position-charged env stored q w w e1;
                    rated = e2;
                    unhealthy = ground arith;
                    positive = ground arith;
                    received = e3;
                    same_repaying = s3;
                    bonus_fits = ground arith;
                    priced = e4;
                    converted = converted;
                    some_seized = ground arith;
                    covered = ground arith;
                    counted = counted;
                    sent = e5;
                    same_paid = s5 ∙ s3;
                    booked = ground arith;
                  }
              | inr (f, e5) ↦ absurd (ground arith)
            ]
          ]
        ]

    pub liquidate_locked-LiquidationRun : LiquidationRun liquidator user c d n w w'
    unfolding liquidate_locked
    liquidate_locked-LiquidationRun = elim (Option-cases w.store.instance_storage) [
      | inl missing ↦ absurd (ground arith)
      | inr (i, es) ↦ elim (Option-cases (get user w.store.positions)) [
        | inl missing ↦ absurd (ground arith)
        | inr (stored, found) ↦ elim (Result-cases (preview_accrued_position env stored w)) [
          | inl (q, w1, e1) ↦
              let (same1, a) = preview_accrued_position-Accrued env stored q w w1 e1 in
              let f1 = unchanged e1 same1 in
              elim (Result-cases (health_factor_for_position x env c q w)) [
                | inl (h, w2, e2) ↦
                    let f2 = unchanged e2 (health_factor_same x env c q h w w2 e2) in
                    elim (Result-cases (receive_exactly x env d liquidator (repaid n q) w)) [
                      | inl (_, w3, e3) ↦
                          let s3 = receive_exactly_same x env d liquidator (repaid n q) w w3 e3 in
                          elim (Result-cases (oracle_price x env c w3)) [
                            | inl (p, w4, e4) ↦
                                let f4 = unchanged e4 (oracle_price_same x env c p w3 w4 e4) in
                                liquidate_locked-seized i stored q h p w3 es found f1 a f2 e3 s3 f4
                            | inr (f, e4) ↦ absurd (ground arith)
                          ]
                      | inr (f, e3) ↦ absurd (ground arith)
                    ]
                | inr (f, e2) ↦ absurd (ground arith)
              ]
          | inr (f, e1) ↦ absurd (ground arith)
        ]
      ]
    ]
