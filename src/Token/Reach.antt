-- ===== src/Token/Reach.antt =====
-- contracts/token/src/lib.rs: every sequence of transactions on the token.
use Prim.Native.String.{String}
use helix_mongolian_spring.Common.{
  ℕ, ◌≡◌, refl, none, some, List, [], ◌∷◌, ℤ, arith, Address, Env, ok, commit, total, ◌∙◌,
  Option-cases, Result-cases, inl, inr, ◌>>◌,
}
use helix_mongolian_spring.Token.{
  Store, Call, spend_balance, receive_balance, Instance, burn_external_shares, write_allowance,
  spend_allowance,
}
use helix_mongolian_spring.Token.Calls
use helix_mongolian_spring.Token.Allowance.{
  SameFunds, write_allowance-SameFunds, spend_allowance-SameFunds,
}
use helix_mongolian_spring.Token.Supply.{
  IsBacked, mint_shares-IsBacked, burn_internal-IsBacked, burn_external-IsBacked, move-IsBacked,
}

-- The entry points that write.
pub data Op : Type 0 where
  initialize : (admin vault bridge : Address) (name symbol : String) (decimals : ℕ) → Op
  vault_mint bridge_mint vault_burn bridge_burn burn : Address → ℤ → Op
  update_exchange_rate : ℤ → Op
  set_admin : Address → Op
  upgrade : ℕ → Op
  approve : (from spender : Address) → ℤ → ℕ → Op
  transfer burn_from : Address → Address → ℤ → Op
  transfer_from : (spender from to : Address) → ℤ → Op

unfoldable pub apply : Env → Op → Call (Unit {0})
apply env (initialize admin vault bridge name symbol decimals) =
    Calls.initialize env admin vault bridge name symbol decimals
apply env (vault_mint to x) = Calls.vault_mint env to x
apply env (bridge_mint to x) = Calls.bridge_mint env to x
apply env (vault_burn from x) = Calls.vault_burn env from x
apply env (bridge_burn from x) = Calls.bridge_burn env from x
apply env (burn from x) = Calls.burn env from x
apply env (update_exchange_rate a) = Calls.update_exchange_rate env a
apply env (set_admin a) = Calls.set_admin env a
apply env (upgrade h) = Calls.upgrade env h
apply env (approve from spender x n) = Calls.approve env from spender x n
apply env (transfer from to x) = Calls.transfer env from to x
apply env (burn_from spender from x) = Calls.burn_from env spender from x
apply env (transfer_from spender from to x) = Calls.transfer_from env spender from to x

SameFunds-IsBacked : {s s' : Store} → SameFunds s s' → IsBacked s → IsBacked s'
SameFunds-IsBacked same v = ground arith

module _ (env : Env) where
  approve-IsBacked :
      (from spender : Address) (x : ℤ) (n : ℕ) (s s' : Store)
      → Calls.approve env from spender x n s ≡ ok (tt, s')
      → IsBacked s
      → IsBacked s'
  unfolding Calls.approve
  approve-IsBacked from spender x n s s' e v =
      elim (Result-cases (write_allowance env from spender x n s)) [
        | inl (_, s1, e1) ↦
            ground
              (arith, SameFunds-IsBacked (write_allowance-SameFunds env from spender x n s s1 e1) v)
        | inr (f, e1) ↦ ground arith
      ]

  transfer-IsBacked :
      (from to : Address) (x : ℤ) (s s' : Store)
      → Calls.transfer env from to x s ≡ ok (tt, s')
      → IsBacked s
      → IsBacked s'
  unfolding Calls.transfer
  transfer-IsBacked from to x s s' e v =
      elim (Result-cases ((spend_balance from x >> receive_balance to x) s)) [
        | inl (_, s1, e1) ↦ ground (arith, move-IsBacked from to x s s1 e1 v)
        | inr (f, e1) ↦ ground arith
      ]

  burn-IsBacked :
      (from : Address) (x : ℤ) (i : Instance) (s s' : Store)
      → s.instance_storage ≡ some i
      → Calls.burn env from x s ≡ ok (tt, s')
      → IsBacked s
      → IsBacked s'
  unfolding Calls.burn
  burn-IsBacked from x i s s' es e v =
      elim (Result-cases ((spend_balance from x >> burn_external_shares x) s)) [
        | inl (_, s1, e1) ↦ ground (arith, burn_external-IsBacked from x i s s1 es)
        | inr (f, e1) ↦ ground arith
      ]

  transfer_from-IsBacked :
      (spender from to : Address) (x : ℤ) (s s' : Store)
      → Calls.transfer_from env spender from to x s ≡ ok (tt, s')
      → IsBacked s
      → IsBacked s'
  unfolding Calls.transfer_from
  transfer_from-IsBacked spender from to x s s' e v =
      elim (Result-cases (spend_allowance env from spender x s)) [
        | inl (_, s1, e1) ↦
            let v1 = SameFunds-IsBacked (spend_allowance-SameFunds env spender from x s s1 e1) v in
            elim (Result-cases ((spend_balance from x >> receive_balance to x) s1)) [
              | inl (_, s2, e2) ↦ ground (arith, move-IsBacked from to x s1 s2 e2 v1)
              | inr (f, e2) ↦ ground arith
            ]
        | inr (f, e1) ↦ ground arith
      ]

  burn_from-IsBacked :
      (spender from : Address) (x : ℤ) (i : Instance) (s s' : Store)
      → s.instance_storage ≡ some i
      → Calls.burn_from env spender from x s ≡ ok (tt, s')
      → IsBacked s
      → IsBacked s'
  unfolding Calls.burn_from
  burn_from-IsBacked spender from x i s s' es e v =
      elim (Result-cases (spend_allowance env from spender x s)) [
        | inl (_, s1, e1) ↦
            let same = spend_allowance-SameFunds env spender from x s s1 e1 in
            let v1 = SameFunds-IsBacked same v in
            elim (Result-cases ((spend_balance from x >> burn_external_shares x) s1)) [
              | inl (_, s2, e2) ↦
                  ground (arith, burn_external-IsBacked from x i s1 s2 (same.same_instance ∙ es))
              | inr (f, e2) ↦ ground arith
            ]
        | inr (f, e1) ↦ ground arith
      ]

-- Every entry point keeps the supply backed, on every store and from every caller.
pub apply-IsBacked :
    (env : Env) (op : Op) (s s' : Store) → apply env op s ≡ ok (tt, s') → IsBacked s → IsBacked s'
unfolding apply
apply-IsBacked env (initialize admin vault bridge name symbol decimals) s s' e v =
    unfold Calls.initialize in ground arith
apply-IsBacked env (vault_mint to x) s s' e v =
    unfold Calls.vault_mint in ground (arith, mint_shares-IsBacked to x s s')
apply-IsBacked env (bridge_mint to x) s s' e v =
    unfold Calls.bridge_mint in ground (arith, mint_shares-IsBacked to x s s')
apply-IsBacked env (vault_burn from x) s s' e v =
    unfold Calls.vault_burn in ground (arith, burn_internal-IsBacked from x s s')
apply-IsBacked env (bridge_burn from x) s s' e v =
    unfold Calls.bridge_burn in ground (arith, burn_internal-IsBacked from x s s')
apply-IsBacked env (burn from x) s s' e v = elim (Option-cases s.instance_storage) [
  | inl n ↦ unfold Calls.burn in ground arith
  | inr (i, es) ↦ burn-IsBacked env from x i s s' es e v
]
apply-IsBacked env (update_exchange_rate a) s s' e v =
    unfold Calls.update_exchange_rate in ground arith
apply-IsBacked env (set_admin a) s s' e v = unfold Calls.set_admin in ground arith
apply-IsBacked env (upgrade h) s s' e v = unfold Calls.upgrade in ground arith
apply-IsBacked env (approve from spender x n) s s' e v =
    approve-IsBacked env from spender x n s s' e v
apply-IsBacked env (transfer from to x) s s' e v = transfer-IsBacked env from to x s s' e v
apply-IsBacked env (burn_from spender from x) s s' e v = elim (Option-cases s.instance_storage) [
  | inl n ↦ unfold Calls.burn_from in ground arith
  | inr (i, es) ↦ burn_from-IsBacked env spender from x i s s' es e v
]
apply-IsBacked env (transfer_from spender from to x) s s' e v =
    transfer_from-IsBacked env spender from to x s s' e v

abbrev pub fresh : Store
fresh = record {
  instance_storage = none;
  balances = [];
  allowances = λ _ _. none;
  wasm_hash = 0;
  events = [];
}

-- A ledger of transactions, each with the environment that the host gives it.
pub run : List (Env × Op) → Store → Store
unfolding apply
run [] s = s
run ((env, op) ∷ txs) s = run txs (commit (apply env op) s)

commit-IsBacked :
    (env : Env) (op : Op) (s : Store) → IsBacked s → IsBacked (commit (apply env op) s)
commit-IsBacked env op s v = elim (Result-cases (apply env op s)) [
  | inl (_, s1, e) ↦ rw (e, commit) (apply-IsBacked env op s s1 e v)
  | inr (f, e) ↦ rw (e, commit) v
]

run-IsBacked : (txs : List (Env × Op)) (s : Store) → IsBacked s → IsBacked (run txs s)
unfolding run
run-IsBacked [] s v = v
run-IsBacked ((env, op) ∷ txs) s v =
    run-IsBacked txs (commit (apply env op) s) (commit-IsBacked env op s v)

-- Whatever is sent to a freshly deployed token, by whomever, the supply stays the sum of the balances,
-- every balance stored is positive, and the assets are not negative.
pub run-fresh-IsBacked : (txs : List (Env × Op)) → IsBacked (run txs fresh)
run-fresh-IsBacked txs =
    run-IsBacked txs fresh
      (record { backed = unfold total in refl; positive = tt; assets_nonneg = omega arith })
