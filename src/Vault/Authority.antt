-- ===== src/Vault/Authority.antt =====
-- contracts/vault/src/lib.rs: whose authorisation a change of the configuration takes.
use helix_mongolian_spring.Common.{
  ◌≡◌, ◌⊎◌, ◌∙◌, none, some, true, arith, ℤ, pos, ◌<ℤ◌, Address, Env, ok, Result-cases,
  Option-cases, inl, inr, unchanged,
}
use helix_mongolian_spring.Vault.{
  PoolConfig, World, Instance, Externals, Call, with_lock, primary_supported_asset,
}
use helix_mongolian_spring.Vault.Calls
use helix_mongolian_spring.Vault.Calls.{
  deposit_locked, withdraw_locked, borrow_locked, repay_locked, liquidate_locked,
}
use helix_mongolian_spring.Vault.Admin
use helix_mongolian_spring.Vault.Accounting.{IsSound, config_of}
use helix_mongolian_spring.Vault.Quiet.{primary_supported_asset_same}
use helix_mongolian_spring.Vault.Lock.{locking, with_lock_lem, config_of-lock_as, lock_as-IsSound}
use helix_mongolian_spring.Vault.Books.{
  deposit_locked-Booked, withdraw_locked-Booked, borrow_locked-Booked, repay_locked-Booked,
  liquidate_locked-Booked,
}
use helix_mongolian_spring.Vault.Reach.{
  Op, initialize, deposit, withdraw, borrow, repay, liquidate, pause, unpause, pause_by, unpause_by,
  update_config, add_supported_asset, remove_supported_asset, grant_role, revoke_role, upgrade,
  apply,
}

module _ {W : Type 0} where
  with_lock-config_of :
      (f : Call W (Unit {0})) (w w' : World W)
      → ((u u' : World W)
          → IsSound u.store
          → f u ≡ ok (tt, u')
          → config_of u'.store ≡ config_of u.store)
      → IsSound w.store
      → with_lock f w ≡ ok (tt, w')
      → config_of w'.store ≡ config_of w.store
  with_lock-config_of f w w' keep v e =
      let (_, w1, _, _, e1, e2) = with_lock_lem f w w' e in
      let inside = keep (locking true w) w1 (lock_as-IsSound true w.store v) e1 in
      rw e2 (config_of-lock_as _ w1.store ∙ inside ∙ config_of-lock_as true w.store)

-- The administrator of an initialized vault gave its authorisation.
pub IsAdministered : {W : Type 0} → Env → World W → Type 0
IsAdministered env w =
    (i : Instance) × (w.store.instance_storage ≡ some i) × (env.authorized i.admin ≡ true)

module _ {W : Type 0} (x : Externals W) (env : Env) (w w' : World W) (v : IsSound w.store) where
  deposit-config_of :
      (user token : Address) (n : ℤ)
      → Calls.deposit x env user token n w ≡ ok (tt, w')
      → config_of w'.store ≡ config_of w.store
  unfolding Calls.deposit
  deposit-config_of user token n e =
      let pn : pos 0 <ℤ n = ground arith in
      with_lock-config_of (deposit_locked x env user token n) w w'
        (λ u u' s k. (deposit_locked-Booked x env u u' s user token n pn k).same_config) v
        (ground arith)

  withdraw-config_of :
      (user token : Address) (n : ℤ)
      → Calls.withdraw x env user token n w ≡ ok (tt, w')
      → config_of w'.store ≡ config_of w.store
  unfolding Calls.withdraw
  withdraw-config_of user token n e =
      with_lock-config_of (withdraw_locked x env user token n) w w'
        (λ u u' s k. (withdraw_locked-Booked x env u u' s user token n k).same_config) v
        (ground arith)

  borrow-config_of :
      (user : Address) (n : ℤ)
      → Calls.borrow x env user n w ≡ ok (tt, w')
      → config_of w'.store ≡ config_of w.store
  unfolding Calls.borrow
  borrow-config_of user n e = elim (Option-cases w.store.instance_storage) [
    | inl missing ↦ absurd (ground arith)
    | inr (i, es) ↦
        let pn : pos 0 <ℤ n = ground arith in
        with_lock-config_of (borrow_locked x env user i.borrow_token n) w w'
          (λ u u' s k. (borrow_locked-Booked x env u u' s user i.borrow_token n pn k).same_config) v
          (ground arith)
  ]

  repay-config_of :
      (user : Address) (n : ℤ)
      → Calls.repay x env user n w ≡ ok (tt, w')
      → config_of w'.store ≡ config_of w.store
  unfolding Calls.repay
  repay-config_of user n e = elim (Option-cases w.store.instance_storage) [
    | inl missing ↦ absurd (ground arith)
    | inr (i, es) ↦
        let pn : pos 0 <ℤ n = ground arith in
        with_lock-config_of (repay_locked x env user i.borrow_token n) w w'
          (λ u u' s k. (repay_locked-Booked x env u u' s user i.borrow_token n pn k).3.same_config)
          v (ground arith)
  ]

  liquidate-config_of :
      (liquidator user : Address) (n : ℤ)
      → Calls.liquidate x env liquidator user n w ≡ ok (tt, w')
      → config_of w'.store ≡ config_of w.store
  unfolding Calls.liquidate
  liquidate-config_of liquidator user n e = elim (Option-cases w.store.instance_storage) [
    | inl missing ↦ absurd (ground arith)
    | inr (i, es) ↦ elim (Result-cases (primary_supported_asset w)) [
      | inl (c, w1, e1) ↦
          let f1 = unchanged e1 (primary_supported_asset_same c w w1 e1) in
          let d = i.borrow_token in
          with_lock-config_of (liquidate_locked x env liquidator user c d n) w w'
            (λ u u' s k.
              (liquidate_locked-Booked x env u u' s liquidator user c d n k).4.same_config)
            v (ground arith)
      | inr (f, e1) ↦ absurd (ground arith)
    ]
  ]

  update_config-IsAdministered :
      (config : PoolConfig) → Admin.update_config env config w ≡ ok (tt, w') → IsAdministered env w
  unfolding Admin.update_config IsAdministered
  update_config-IsAdministered config e = elim (Option-cases w.store.instance_storage) [
    | inl missing ↦ absurd (ground arith)
    | inr (i, es) ↦ (i, es, ground arith)
  ]

  -- A call that returns, on a vault whose books are sound, keeps the configuration, unless the vault
  -- was not initialized or its administrator gave its authorisation.
  pub apply-config_of :
      (op : Op)
      → apply x env op w ≡ ok (tt, w')
      → (config_of w'.store ≡ config_of w.store)
        ⊎ ((w.store.instance_storage ≡ none) ⊎ IsAdministered env w)
  unfolding apply
  apply-config_of (initialize admin oracle token config) e =
      inr (inl (unfold Admin.initialize in ground arith))
  apply-config_of (deposit user token n) e = inl (deposit-config_of user token n e)
  apply-config_of (withdraw user token n) e = inl (withdraw-config_of user token n e)
  apply-config_of (borrow user n) e = inl (borrow-config_of user n e)
  apply-config_of (repay user n) e = inl (repay-config_of user n e)
  apply-config_of (liquidate liquidator user n) e = inl (liquidate-config_of liquidator user n e)
  apply-config_of pause e = inl (unfold Admin.pause in ground arith)
  apply-config_of unpause e = inl (unfold Admin.unpause in ground arith)
  apply-config_of (pause_by caller) e = inl (unfold Admin.pause_by in ground arith)
  apply-config_of (unpause_by caller) e = inl (unfold Admin.unpause_by in ground arith)
  apply-config_of (update_config config) e = inr (inr (update_config-IsAdministered config e))
  apply-config_of (add_supported_asset asset) e =
      inl (unfold Admin.add_supported_asset in ground arith)
  apply-config_of (remove_supported_asset asset) e =
      inl (unfold Admin.remove_supported_asset in ground arith)
  apply-config_of (grant_role addr role) e = inl (unfold Admin.grant_role in ground arith)
  apply-config_of (revoke_role addr role) e = inl (unfold Admin.revoke_role in ground arith)
  apply-config_of (upgrade hash) e = inl (unfold Admin.upgrade in ground arith)
