-- ===== src/Vault/Seizure.antt =====
-- contracts/vault/src/lib.rs: what `liquidate` has done when it returns.
use std.Path.{subst}
use helix_mongolian_spring.Common.{
  ◌≡◌, ◌∙◌, ap, refl, ◌⊎◌, inl, inr, true, false, some, [], ◌∷◌, ◌++◌, ℤ, pos, neg_ℤ, ◌+ℤ◌, ◌-ℤ◌,
  ◌*ℤ◌, ◌/ℤ◌, ◌≤ℤ◌, ◌<ℤ◌, in_i128, arith, ok, Address, Env, get, Option-cases, Result-cases,
  unchanged,
}
use helix_mongolian_spring.Vault.{
  Position, PoolConfig, Instance, Event, World, Externals, with_lock, primary_supported_asset,
  liquidator_role,
}
use helix_mongolian_spring.Vault.Risk.{
  bps_denominator, price_scalar, oracle_price, health_factor_for_position,
}
use helix_mongolian_spring.Vault.Calls.{
  receive_exactly, liquidate, liquidate_locked, book_liquidation,
}
use helix_mongolian_spring.Vault.Interest.{charged}
use helix_mongolian_spring.Vault.Quiet.{primary_supported_asset_same}
use helix_mongolian_spring.Vault.Accounting.{Writes, book_liquidation-Writes}
use helix_mongolian_spring.Vault.LiquidationRun.{
  repaid, bonus_on, LiquidationRun, liquidate_locked-LiquidationRun,
}
use helix_mongolian_spring.Vault.Released.{capped_le, capped_one, charged-lock_as, Writes-lock_as}
use helix_mongolian_spring.Vault.Lock.{lock_as, locking, with_lock_lem}

module _ {W : Type 0} (x : Externals W) (env : Env) where
  liquidate_checks :
      (liquidator user : Address) (n : ℤ) (w w' : World W)
      → liquidate x env liquidator user n w ≡ ok (tt, w')
      → (i : Instance) × (c : Address) × (w.store.instance_storage ≡ some i)
        × (primary_supported_asset w ≡ ok (c, w))
        × (i.paused ≡ false)
        × (env.authorized liquidator ≡ true)
        × (w.store.roles liquidator liquidator_role ≡ true)
        × (pos 0 <ℤ n)
        × (with_lock (liquidate_locked x env liquidator user c i.borrow_token n) w ≡ ok (tt, w'))
  unfolding liquidate
  liquidate_checks liquidator user n w w' e = elim (Option-cases w.store.instance_storage) [
    | inl missing ↦ absurd (ground arith)
    | inr (i, es) ↦ elim (Result-cases (primary_supported_asset w)) [
      | inl (c, w1, e1) ↦
          let f1 = unchanged e1 (primary_supported_asset_same c w w1 e1) in
          (i, c, es, f1, ground arith, ground arith, ground arith, ground arith, ground arith)
      | inr (f, e1) ↦ absurd (ground arith)
    ]
  ]

  book_liquidation-events :
      (liquidator user : Address) (n k c : ℤ) (p : Position) (w w' : World W)
      → book_liquidation liquidator user n k c p w ≡ ok (tt, w')
      → w'.store.events ≡ w.store.events ++ Event.liquidation liquidator user n k c ∷ []
  unfolding book_liquidation
  book_liquidation-events liquidator user n k c p w w' e = ground arith

  -- A liquidation of a position that is stored. Its debt with the interest due, `owed`, and its shares
  -- have a health factor of at most 10000 on the first supported asset. Of the amount `n` and half
  -- of `owed` the lesser is repaid; what it and the bonus on it are worth is seized. The amounts are
  -- positive, and the shares were there. They are taken off the position and off the totals, and reported.
  pub record Seized (liquidator user : Address) (n : ℤ) (w w' : World W) : Type 0 where
    pub instance_before : Instance
    pub stored : Position
    pub collateral : Address
    pub health_factor : ℤ
    pub repay : ℤ
    pub bonus : ℤ
    pub price : ℤ
    pub shares : ℤ
    pub repaying : World W
    pub initialized : w.store.instance_storage ≡ some instance_before
    pub running : instance_before.paused ≡ false
    pub authorized : env.authorized liquidator ≡ true
    pub role : w.store.roles liquidator liquidator_role ≡ true
    pub first : primary_supported_asset w ≡ ok (collateral, w)
    pub found : get user w.store.positions ≡ some stored
    pub rated :
        health_factor_for_position x env collateral (charged env w.store stored) (locking true w)
        ≡ ok (health_factor, locking true w)
    pub unhealthy : health_factor ≤ℤ bps_denominator
    pub positive : pos 0 <ℤ repay
    pub le_asked : repay ≤ℤ n
    pub le_half : repay ≤ℤ (charged env w.store stored).borrowed_amount /ℤ pos 2
    pub whole : (repay ≡ n) ⊎ (repay ≡ (charged env w.store stored).borrowed_amount /ℤ pos 2)
    pub received :
        receive_exactly x env instance_before.borrow_token liquidator repay (locking true w)
        ≡ ok (tt, repaying)
    pub bonus_value : bonus ≡ repay *ℤ pos instance_before.pool_config.liq_bonus /ℤ bps_denominator
    pub bonus_fits : in_i128 (repay *ℤ pos instance_before.pool_config.liq_bonus) ≡ true
    pub priced : oracle_price x env collateral repaying ≡ ok (price, repaying)
    pub converted :
        x.shares_for_assets collateral ((repay +ℤ bonus) *ℤ price_scalar /ℤ price) repaying.outside
        ≡ some shares
    pub some_seized : pos 0 <ℤ shares
    pub covered : shares ≤ℤ stored.deposited_shares
    pub written :
        Writes user
          (record (charged env w.store stored) {
            deposited_shares = stored.deposited_shares -ℤ shares;
            borrowed_amount = (charged env w.store stored).borrowed_amount -ℤ repay;
          })
          (neg_ℤ shares)
          (neg_ℤ repay)
          w.store
          w'.store
    pub reported :
        w'.store.events
        ≡ w.store.events ++ Event.liquidation liquidator user repay shares bonus ∷ []

  -- the record, from the steps under the lock
  LiquidationRun-Seized :
      (liquidator user c : Address) (n : ℤ) (i : Instance) (w w1 w' : World W)
      → w.store.instance_storage ≡ some i
      → primary_supported_asset w ≡ ok (c, w)
      → i.paused ≡ false
      → env.authorized liquidator ≡ true
      → w.store.roles liquidator liquidator_role ≡ true
      → LiquidationRun x env liquidator user c i.borrow_token n (locking true w) w1
      → w' ≡ locking false w1
      → Seized liquidator user n w w'
  LiquidationRun-Seized liquidator user c n i w w1 w' es first free auth holds run released =
      let same_config : run.instance_before.pool_config ≡ i.pool_config =
        unfold lock_as in ground (arith, run.initialized, es) in
      let exact : run.position ≡ charged env w.store run.stored =
        run.exact ∙ charged-lock_as env true w.store run.stored in
      let q = run.position in
      let writes = book_liquidation-Writes liquidator user _ _ _ _ run.paid w1 run.booked in
      let reported = book_liquidation-events liquidator user _ _ _ _ run.paid w1 run.booked in
      let same_bonus : bonus_on run.instance_before (repaid n q) ≡ bonus_on i (repaid n q) =
        ap (λ (c : PoolConfig). repaid n q *ℤ pos c.liq_bonus /ℤ bps_denominator) same_config in
      let left : Position → Position = λ p. record p {
        deposited_shares = p.deposited_shares -ℤ run.seized;
        borrowed_amount = p.borrowed_amount -ℤ repaid n q;
      } in
      let caps = capped_le n (q.borrowed_amount /ℤ pos 2) in
      record {
        instance_before = i;
        stored = run.stored;
        collateral = c;
        health_factor = run.health_factor;
        repay = repaid n q;
        bonus = bonus_on i (repaid n q);
        price = run.price;
        shares = run.seized;
        repaying = run.repaying;
        initialized = es;
        running = free;
        authorized = auth;
        role = holds;
        first = first;
        found = unfold lock_as in run.found;
        rated = rw exact at run.rated;
        unhealthy = run.unhealthy;
        positive = run.positive;
        le_asked = caps.0;
        le_half = subst (λ (p : Position). repaid n q ≤ℤ p.borrowed_amount /ℤ pos 2) exact caps.1;
        whole =
            subst (λ (p : Position). (repaid n q ≡ n) ⊎ (repaid n q ≡ p.borrowed_amount /ℤ pos 2))
              exact (capped_one n (q.borrowed_amount /ℤ pos 2));
        received = run.received;
        bonus_value = refl;
        bonus_fits =
            subst (λ (c : PoolConfig). in_i128 (repaid n q *ℤ pos c.liq_bonus) ≡ true) same_config
              run.bonus_fits;
        priced = run.priced;
        converted = rw same_bonus at run.converted;
        some_seized = run.some_seized;
        covered = ground (arith, run.covered, run.accrued.same_shares);
        written = rw released (
            subst
              (λ (p : Position).
                Writes user (left p) (neg_ℤ run.seized) (neg_ℤ (repaid n q)) w.store
                  (lock_as false w1.store))
              exact
              (Writes-lock_as user (left q) (neg_ℤ run.seized) (neg_ℤ (repaid n q)) w.store w1.store
                (rw run.same_paid at writes)));
        reported = rw (released, ← same_bonus) (unfold lock_as in rw run.same_paid at reported);
      }

  -- A liquidation that returns: the liquidator has the role and authorised it, and the vault was not
  -- paused. The stored position, its debt taken with the interest due, had a health factor of at most
  -- 10000 on the first supported asset. Of the amount asked for and half that debt the lesser is
  -- repaid to the vault; the shares that it and the bonus are worth at the oracle's price are seized. Both
  -- are positive, and the position held the shares. They are taken off what is stored of the user and
  -- off the totals, and the event reports them.
  pub liquidate-Seized :
      (liquidator user : Address) (n : ℤ) (w w' : World W)
      → liquidate x env liquidator user n w ≡ ok (tt, w')
      → Seized liquidator user n w w'
  liquidate-Seized liquidator user n w w' e =
      let (i, c, es, first, free, auth, holds, pn, e1) =
        liquidate_checks liquidator user n w w' e in
      let (_, w1, _, _, e2, released) = with_lock_lem _ w w' e1 in
      LiquidationRun-Seized liquidator user c n i w w1 w' es first free auth holds
        (liquidate_locked-LiquidationRun x env liquidator user c i.borrow_token n (locking true w)
          w1 e2)
        released
