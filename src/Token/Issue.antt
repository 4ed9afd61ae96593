-- ===== src/Token/Issue.antt =====
-- contracts/token/src/lib.rs: what the calls of the bridge do to the supply.
use helix_mongolian_spring.Common.{
  ◌≡◌, some, ℤ, pos, ◌+ℤ◌, ◌-ℤ◌, ◌≤ℤ◌, arith, Address, Env, ok, Option-cases, Result-cases, inl,
  inr,
}
use helix_mongolian_spring.Token.{
  Instance, Store, mint_shares, burn_internal, spend_balance, store_balance,
}
use helix_mongolian_spring.Token.Calls
use helix_mongolian_spring.Token.Supply.{
  supply, IsBacked, balance_of-le-held, spend_balance-Debited,
}

mint_shares-supply :
    (a : Address) (n : ℤ) (s s' : Store) (i : Instance)
    → s.instance_storage ≡ some i
    → mint_shares a n s ≡ ok (tt, s')
    → supply s' ≡ supply s +ℤ n
unfolding mint_shares store_balance
mint_shares-supply a n s s' i es e = ground arith

pub bridge_mint-supply :
    (env : Env) (a : Address) (n : ℤ) (s s' : Store)
    → Calls.bridge_mint env a n s ≡ ok (tt, s')
    → (pos 0 ≤ℤ n) × (supply s' ≡ supply s +ℤ n)
unfolding Calls.bridge_mint
bridge_mint-supply env a n s s' e = elim (Option-cases s.instance_storage) [
  | inl missing ↦ absurd (ground arith)
  | inr (i, es) ↦ ground (arith, mint_shares-supply a n s s' i es)
]

burn_internal-supply :
    (a : Address) (n : ℤ) (s s' : Store) (i : Instance)
    → s.instance_storage ≡ some i
    → IsBacked s
    → burn_internal a n s ≡ ok (tt, s')
    → (n ≤ℤ supply s) × (supply s' ≡ supply s -ℤ n)
unfolding burn_internal
burn_internal-supply a n s s' i es v e = elim (Result-cases (spend_balance a n s)) [
  | inl (_, s1, e1) ↦
      let d = spend_balance-Debited a n s s1 e1 in
      let c = balance_of-le-held a s v.positive in ground (arith, v.backed)
  | inr (f, e1) ↦ absurd (ground arith)
]

pub bridge_burn-supply :
    (env : Env) (a : Address) (n : ℤ) (s s' : Store)
    → IsBacked s
    → Calls.bridge_burn env a n s ≡ ok (tt, s')
    → (pos 0 ≤ℤ n) × (n ≤ℤ supply s) × (supply s' ≡ supply s -ℤ n)
unfolding Calls.bridge_burn
bridge_burn-supply env a n s s' v e = elim (Option-cases s.instance_storage) [
  | inl missing ↦ absurd (ground arith)
  | inr (i, es) ↦ ground (arith, burn_internal-supply a n s s' i es v)
]

pub update_exchange_rate-supply :
    (env : Env) (n : ℤ) (s s' : Store)
    → Calls.update_exchange_rate env n s ≡ ok (tt, s')
    → supply s' ≡ supply s
unfolding Calls.update_exchange_rate
update_exchange_rate-supply env n s s' e = elim (Option-cases s.instance_storage) [
  | inl missing ↦ absurd (ground arith)
  | inr (i, es) ↦ ground arith
]
