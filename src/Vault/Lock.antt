-- ===== src/Vault/Lock.antt =====
-- contracts/vault/src/lib.rs: `with_lock`.
use mathlib.Core.Option
use helix_mongolian_spring.Common.{
  ◌≡◌, some, true, false, Bool, arith, Env, ok, err, raised, Result-cases, Option-cases, inl, inr,
  ℤ, ◌<ℤ◌, pos, Address,
}
use helix_mongolian_spring.Vault.{Store, World, Call, Externals, with_lock, Instance, reentrancy}
use helix_mongolian_spring.Vault.Calls.{
  deposit_locked, withdraw_locked, borrow_locked, repay_locked, liquidate_locked,
}
use helix_mongolian_spring.Vault.Accounting.{IsSound, config_of, Booked-IsSound}
use helix_mongolian_spring.Vault.Books.{
  deposit_locked-Booked, withdraw_locked-Booked, borrow_locked-Booked, repay_locked-Booked,
  liquidate_locked-Booked,
}

-- The lock set to a value.
unfoldable pub lock_as : Bool → Store → Store
lock_as b s = record s {
  instance_storage = Option.map {A = Instance} (λ i. record i { locked = b }) s.instance_storage;
}

pub config_of-lock_as : (b : Bool) (s : Store) → config_of (lock_as b s) ≡ config_of s
unfolding lock_as
config_of-lock_as b s = elim (Option-cases s.instance_storage) [
  | inl n ↦ ground arith
  | inr (i, e) ↦ ground arith
]

pub lock_as-IsSound : (b : Bool) (s : Store) → IsSound s → IsSound (lock_as b s)
unfolding lock_as
lock_as-IsSound b s v = elim (Option-cases s.instance_storage) [
  | inl n ↦ record {
    configured = rw config_of-lock_as v.configured;
    holding = v.holding;
    deposits = ground arith;
    borrows = ground arith;
  }
  | inr (i, e) ↦ record {
    configured = rw config_of-lock_as v.configured;
    holding = v.holding;
    deposits = ground arith;
    borrows = ground arith;
  }
]

module _ {W : Type 0} where
  abbrev pub locking : Bool → World W → World W
  locking b w = record w { store = lock_as b w.store }

  -- A call under the lock that returns: the lock was free, the body ran while it was taken, and it
  -- is released at the end.
  pub with_lock_lem :
      (f : Call W (Unit {0})) (w w' : World W)
      → with_lock f w ≡ ok (tt, w')
      → (i : Instance) × (w1 : World W) × (w.store.instance_storage ≡ some i)
        × (i.locked ≡ false)
        × (f (locking true w) ≡ ok (tt, w1))
        × (w' ≡ locking false w1)
  unfolding with_lock lock_as
  with_lock_lem f w w' e = elim (Option-cases w.store.instance_storage) [
    | inl n ↦ absurd (ground arith)
    | inr (i, es) ↦ elim (Result-cases (f (locking true w))) [
      | inl (_, w1, e1) ↦ (i, w1, es, ground arith, e1, ground arith)
      | inr (g, e1) ↦ absurd (ground arith)
    ]
  ]

  -- While the lock is held, `with_lock` refuses any body as a reentrancy.
  pub with_lock_held :
      (f : Call W (Unit {0})) (i : Instance) (w : World W)
      → w.store.instance_storage ≡ some i
      → i.locked ≡ true
      → with_lock f w ≡ err (raised reentrancy)
  unfolding with_lock
  with_lock_held f i w es h = ground arith

  with_lock-IsSound :
      (f : Call W (Unit {0})) (w w' : World W)
      → ((u u' : World W) → f u ≡ ok (tt, u') → IsSound u.store → IsSound u'.store)
      → with_lock f w ≡ ok (tt, w')
      → IsSound w.store
      → IsSound w'.store
  with_lock-IsSound f w w' keep e v =
      let (_, w1, _, _, e1, e2) = with_lock_lem f w w' e in
      rw e2 (
        lock_as-IsSound false w1.store
          (keep (locking true w) w1 e1 (lock_as-IsSound true w.store v)))

module _ {W : Type 0} (x : Externals W) (env : Env) where
  pub deposit_locked-IsSound :
      (user token : Address) (n : ℤ) (w w' : World W)
      → pos 0 <ℤ n
      → with_lock (deposit_locked x env user token n) w ≡ ok (tt, w')
      → IsSound w.store
      → IsSound w'.store
  deposit_locked-IsSound user token n w w' pn =
      with_lock-IsSound (deposit_locked x env user token n) w w' λ u u' e v.
        Booked-IsSound user _ _ u.store u'.store
          (deposit_locked-Booked x env u u' v user token n pn e) v

  pub withdraw_locked-IsSound :
      (user token : Address) (n : ℤ) (w w' : World W)
      → with_lock (withdraw_locked x env user token n) w ≡ ok (tt, w')
      → IsSound w.store
      → IsSound w'.store
  withdraw_locked-IsSound user token n w w' =
      with_lock-IsSound (withdraw_locked x env user token n) w w' λ u u' e v.
        Booked-IsSound user _ _ u.store u'.store
          (withdraw_locked-Booked x env u u' v user token n e) v

  pub borrow_locked-IsSound :
      (user token : Address) (n : ℤ) (w w' : World W)
      → pos 0 <ℤ n
      → with_lock (borrow_locked x env user token n) w ≡ ok (tt, w')
      → IsSound w.store
      → IsSound w'.store
  borrow_locked-IsSound user token n w w' pn =
      with_lock-IsSound (borrow_locked x env user token n) w w' λ u u' e v.
        Booked-IsSound user _ _ u.store u'.store
          (borrow_locked-Booked x env u u' v user token n pn e) v

  pub repay_locked-IsSound :
      (user token : Address) (n : ℤ) (w w' : World W)
      → pos 0 <ℤ n
      → with_lock (repay_locked x env user token n) w ≡ ok (tt, w')
      → IsSound w.store
      → IsSound w'.store
  repay_locked-IsSound user token n w w' pn =
      with_lock-IsSound (repay_locked x env user token n) w w' λ u u' e v.
        let (_, _, _, k) = repay_locked-Booked x env u u' v user token n pn e in
        Booked-IsSound user _ _ u.store u'.store k v

  pub liquidate_locked-IsSound :
      (liquidator user c d : Address) (n : ℤ) (w w' : World W)
      → with_lock (liquidate_locked x env liquidator user c d n) w ≡ ok (tt, w')
      → IsSound w.store
      → IsSound w'.store
  liquidate_locked-IsSound liquidator user c d n w w' =
      with_lock-IsSound (liquidate_locked x env liquidator user c d n) w w' λ u u' e v.
        let (_, _, _, _, k) = liquidate_locked-Booked x env u u' v liquidator user c d n e in
        Booked-IsSound user _ _ u.store u'.store k v
