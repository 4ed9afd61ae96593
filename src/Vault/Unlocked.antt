-- ===== src/Vault/Unlocked.antt =====
-- contracts/vault/src/lib.rs: the lock between transactions.
use helix_mongolian_spring.Common.{
  ◌≡◌, refl, none, some, false, Bool, List, [], ◌∷◌, arith, Env, ok, commit, Result-cases,
  Option-cases, inl, inr, unchanged,
}
use helix_mongolian_spring.Vault.{Store, World, Externals, Call, with_lock, primary_supported_asset}
use helix_mongolian_spring.Vault.Calls
use helix_mongolian_spring.Vault.Calls.{
  deposit_locked, withdraw_locked, borrow_locked, repay_locked, liquidate_locked,
}
use helix_mongolian_spring.Vault.Admin
use helix_mongolian_spring.Vault.Quiet.{primary_supported_asset_same}
use helix_mongolian_spring.Vault.Lock.{lock_as, with_lock_lem}
use helix_mongolian_spring.Vault.Reach.{
  Op, initialize, deposit, withdraw, borrow, repay, liquidate, pause, unpause, pause_by, unpause_by,
  update_config, add_supported_asset, remove_supported_asset, grant_role, revoke_role, upgrade,
  apply, run, fresh,
}

-- Where the vault is initialized, its lock is free.
abbrev pub is_locked : Store → Bool
is_locked s = elim s.instance_storage [ none ↦ false | some i ↦ i.locked ]

module _ {W : Type 0} where
  with_lock-is_locked :
      (f : Call W (Unit {0})) (w w' : World W)
      → with_lock f w ≡ ok (tt, w')
      → is_locked w'.store ≡ false
  unfolding lock_as
  with_lock-is_locked f w w' e =
      let (_, w1, _, _, _, e2) = with_lock_lem f w w' e in rw e2 (unlocked w1.store)
    where
      unlocked : (s : Store) → is_locked (lock_as false s) ≡ false
      unlocked s = ground arith

module _ {W : Type 0} (x : Externals W) where
  apply-is_locked :
      (env : Env) (op : Op) (w w' : World W)
      → apply x env op w ≡ ok (tt, w')
      → is_locked w.store ≡ false
      → is_locked w'.store ≡ false
  unfolding apply
  apply-is_locked env (initialize admin oracle token config) w w' e v =
      unfold Admin.initialize in ground arith
  apply-is_locked env (deposit user token n) w w' e v =
      unfold Calls.deposit in
      ground (arith, with_lock-is_locked (deposit_locked x env user token n) w w')
  apply-is_locked env (withdraw user token n) w w' e v =
      unfold Calls.withdraw in
      ground (arith, with_lock-is_locked (withdraw_locked x env user token n) w w')
  apply-is_locked env (borrow user n) w w' e v = elim (Option-cases w.store.instance_storage) [
    | inl missing ↦ unfold Calls.borrow in ground arith
    | inr (i, es) ↦
        unfold Calls.borrow in
        ground (arith, with_lock-is_locked (borrow_locked x env user i.borrow_token n) w w')
  ]
  apply-is_locked env (repay user n) w w' e v = elim (Option-cases w.store.instance_storage) [
    | inl missing ↦ unfold Calls.repay in ground arith
    | inr (i, es) ↦
        unfold Calls.repay in
        ground (arith, with_lock-is_locked (repay_locked x env user i.borrow_token n) w w')
  ]
  apply-is_locked env (liquidate liquidator user n) w w' e v =
      elim (Option-cases w.store.instance_storage) [
        | inl missing ↦ unfold Calls.liquidate in ground arith
        | inr (i, es) ↦ elim (Result-cases (primary_supported_asset w)) [
          | inl (c, w1, e1) ↦
              let f1 = unchanged e1 (primary_supported_asset_same c w w1 e1) in
              let body = liquidate_locked x env liquidator user c i.borrow_token n in
              unfold Calls.liquidate in ground (arith, with_lock-is_locked body w w')
          | inr (f, e1) ↦ unfold Calls.liquidate in ground arith
        ]
      ]
  apply-is_locked env pause w w' e v = unfold Admin.pause in ground arith
  apply-is_locked env unpause w w' e v = unfold Admin.unpause in ground arith
  apply-is_locked env (pause_by caller) w w' e v = unfold Admin.pause_by in ground arith
  apply-is_locked env (unpause_by caller) w w' e v = unfold Admin.unpause_by in ground arith
  apply-is_locked env (update_config config) w w' e v = unfold Admin.update_config in ground arith
  apply-is_locked env (add_supported_asset asset) w w' e v =
      unfold Admin.add_supported_asset in ground arith
  apply-is_locked env (remove_supported_asset asset) w w' e v =
      unfold Admin.remove_supported_asset in ground arith
  apply-is_locked env (grant_role addr role) w w' e v = unfold Admin.grant_role in ground arith
  apply-is_locked env (revoke_role addr role) w w' e v = unfold Admin.revoke_role in ground arith
  apply-is_locked env (upgrade hash) w w' e v = unfold Admin.upgrade in ground arith

  commit-is_locked :
      (env : Env) (op : Op) (w : World W)
      → is_locked w.store ≡ false
      → is_locked (commit (apply x env op) w).store ≡ false
  commit-is_locked env op w v = elim (Result-cases (apply x env op w)) [
    | inl (_, w', e) ↦ rw (e, commit) (apply-is_locked env op w w' e v)
    | inr (f, e) ↦ rw (e, commit) v
  ]

  run-is_locked :
      (ts : List (W × Env × Op)) (s : Store) → is_locked s ≡ false → is_locked (run x ts s) ≡ false
  unfolding run
  run-is_locked [] s v = v
  run-is_locked ((o, env, op) ∷ ts) s v =
      run-is_locked ts _ (commit-is_locked env op (record { store = s; outside = o }) v)

-- Whatever transactions are sent to a vault from its deployment on, failed ones included, the lock is
-- free after them: no failure leaves the vault locked.
pub run-fresh-is_locked :
    {W : Type 0} (x : Externals W) (ts : List (W × Env × Op)) → is_locked (run x ts fresh) ≡ false
run-fresh-is_locked x ts = run-is_locked x ts fresh refl
