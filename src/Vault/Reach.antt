-- ===== src/Vault/Reach.antt =====
-- contracts/vault/src/lib.rs: every sequence of transactions on the vault.
use helix_mongolian_spring.Common.{
  ℕ, ◌≡◌, refl, none, false, List, [], ◌∷◌, ℤ, arith, Address, Env, ok, commit, total, Result-cases,
  Option-cases, inl, inr, unchanged,
}
use helix_mongolian_spring.Vault.{
  PoolConfig, Store, World, Externals, Call, primary_supported_asset,
}
use helix_mongolian_spring.Vault.Calls
use helix_mongolian_spring.Vault.Admin
use helix_mongolian_spring.Vault.Quiet.{primary_supported_asset_same}
use helix_mongolian_spring.Vault.Accounting.{IsSound}
use helix_mongolian_spring.Vault.Lock.{
  deposit_locked-IsSound, withdraw_locked-IsSound, borrow_locked-IsSound, repay_locked-IsSound,
  liquidate_locked-IsSound,
}

-- The entry points that write.
pub data Op : Type 0 where
  initialize : (admin oracle borrow_token : Address) → PoolConfig → Op
  deposit withdraw : (user collateral_token : Address) → ℤ → Op
  borrow repay : (user : Address) → ℤ → Op
  liquidate : (liquidator user : Address) → ℤ → Op
  pause unpause : Op
  pause_by unpause_by : (caller : Address) → Op
  update_config : PoolConfig → Op
  add_supported_asset remove_supported_asset : (asset : Address) → Op
  grant_role revoke_role : (addr : Address) → ℕ → Op
  upgrade : ℕ → Op

module _ {W : Type 0} (x : Externals W) where
  unfoldable pub apply : Env → Op → Call W (Unit {0})
  apply env (initialize admin oracle token config) = Admin.initialize env admin oracle token config
  apply env (deposit user token n) = Calls.deposit x env user token n
  apply env (withdraw user token n) = Calls.withdraw x env user token n
  apply env (borrow user n) = Calls.borrow x env user n
  apply env (repay user n) = Calls.repay x env user n
  apply env (liquidate liquidator user n) = Calls.liquidate x env liquidator user n
  apply env pause = Admin.pause env
  apply env unpause = Admin.unpause env
  apply env (pause_by caller) = Admin.pause_by env caller
  apply env (unpause_by caller) = Admin.unpause_by env caller
  apply env (update_config config) = Admin.update_config env config
  apply env (add_supported_asset asset) = Admin.add_supported_asset env asset
  apply env (remove_supported_asset asset) = Admin.remove_supported_asset env asset
  apply env (grant_role addr role) = Admin.grant_role env addr role
  apply env (revoke_role addr role) = Admin.revoke_role env addr role
  apply env (upgrade hash) = Admin.upgrade env hash

  apply-IsSound :
      (env : Env) (op : Op) (w w' : World W)
      → apply env op w ≡ ok (tt, w')
      → IsSound w.store
      → IsSound w'.store
  unfolding apply
  apply-IsSound env (initialize admin oracle token config) w w' e v =
      unfold Admin.initialize in ground arith
  apply-IsSound env (deposit user token n) w w' e v =
      unfold Calls.deposit in ground (arith, deposit_locked-IsSound x env user token n w w')
  apply-IsSound env (withdraw user token n) w w' e v =
      unfold Calls.withdraw in ground (arith, withdraw_locked-IsSound x env user token n w w')
  apply-IsSound env (borrow user n) w w' e v = elim (Option-cases w.store.instance_storage) [
    | inl missing ↦ unfold Calls.borrow in ground arith
    | inr (i, es) ↦
        unfold Calls.borrow in
        ground (arith, borrow_locked-IsSound x env user i.borrow_token n w w')
  ]
  apply-IsSound env (repay user n) w w' e v = elim (Option-cases w.store.instance_storage) [
    | inl missing ↦ unfold Calls.repay in ground arith
    | inr (i, es) ↦
        unfold Calls.repay in ground (arith, repay_locked-IsSound x env user i.borrow_token n w w')
  ]
  apply-IsSound env (liquidate liquidator user n) w w' e v =
      elim (Option-cases w.store.instance_storage) [
        | inl missing ↦ unfold Calls.liquidate in ground arith
        | inr (i, es) ↦ elim (Result-cases (primary_supported_asset w)) [
          | inl (c, w1, e1) ↦
              let f1 = unchanged e1 (primary_supported_asset_same c w w1 e1) in
              unfold Calls.liquidate in
              ground (arith, liquidate_locked-IsSound x env liquidator user c i.borrow_token n w w')
          | inr (f, e1) ↦ unfold Calls.liquidate in ground arith
        ]
      ]
  apply-IsSound env pause w w' e v = unfold Admin.pause in ground arith
  apply-IsSound env unpause w w' e v = unfold Admin.unpause in ground arith
  apply-IsSound env (pause_by caller) w w' e v = unfold Admin.pause_by in ground arith
  apply-IsSound env (unpause_by caller) w w' e v = unfold Admin.unpause_by in ground arith
  apply-IsSound env (update_config config) w w' e v = unfold Admin.update_config in ground arith
  apply-IsSound env (add_supported_asset asset) w w' e v =
      unfold Admin.add_supported_asset in ground arith
  apply-IsSound env (remove_supported_asset asset) w w' e v =
      unfold Admin.remove_supported_asset in ground arith
  apply-IsSound env (grant_role addr role) w w' e v = unfold Admin.grant_role in ground arith
  apply-IsSound env (revoke_role addr role) w w' e v = unfold Admin.revoke_role in ground arith
  apply-IsSound env (upgrade hash) w w' e v = unfold Admin.upgrade in ground arith

  commit-IsSound :
      (env : Env) (op : Op) (w : World W)
      → IsSound w.store
      → IsSound (commit (apply env op) w).store
  commit-IsSound env op w v = elim (Result-cases (apply env op w)) [
    | inl (_, w', e) ↦ rw (e, commit) (apply-IsSound env op w w' e v)
    | inr (f, e) ↦ rw (e, commit) v
  ]

  -- Transactions one after another. Each finds the other contracts in a state of its own, because
  -- anyone may have called them since.
  unfoldable pub run : List (W × Env × Op) → Store → Store
  run [] s = s
  run ((o, env, op) ∷ ts) s =
      run ts (commit (apply env op) (record { store = s; outside = o })).store

  run-IsSound : (ts : List (W × Env × Op)) (s : Store) → IsSound s → IsSound (run ts s)
  unfolding run
  run-IsSound [] s v = v
  run-IsSound ((o, env, op) ∷ ts) s v =
      run-IsSound ts _ (commit-IsSound env op (record { store = s; outside = o }) v)

-- The storage of a vault just deployed.
abbrev pub fresh : Store
fresh = record {
  instance_storage = none;
  positions = [];
  roles = λ a r. false;
  wasm_hash = 0;
  events = [];
}

-- Whatever transactions are sent to a vault from its deployment on, failed ones included, and
-- whatever the other contracts answer: the configuration is within the bounds that `validate_config`
-- checks, no stored share count or debt is negative, no stored
-- position is empty, `total_deposits` is the sum of the positions' shares, and `total_borrows` is
-- at most the sum of the stored debts.
pub run-fresh-IsSound :
    {W : Type 0} (x : Externals W) (ts : List (W × Env × Op)) → IsSound (run x ts fresh)
unfolding total
run-fresh-IsSound x ts =
    run-IsSound x ts fresh
      (record { configured = tt; holding = tt; deposits = refl; borrows = omega arith })
