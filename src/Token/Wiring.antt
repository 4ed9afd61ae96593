-- ===== src/Token/Wiring.antt =====
-- contracts/token/src/lib.rs: the vault and the bridge of a token.
use helix_mongolian_spring.Common.{
  ◌≡◌, none, some, Option, ℤ, arith, Address, Env, ok, Result-cases, inl, inr, ◌>>◌, >>=-eq-ok, ◌∙◌,
}
use helix_mongolian_spring.Token.{
  Instance, Store, burn_internal, burn_external_shares, mint_shares, spend_balance, spend_allowance,
  store_balance,
}
use helix_mongolian_spring.Token.Calls
use helix_mongolian_spring.Token.Supply.{spend_balance-Debited}
use helix_mongolian_spring.Token.Allowance.{spend_allowance-SameFunds}
use helix_mongolian_spring.Token.Authority.{
  approve_instance, transfer_instance, transfer_from_instance,
}
use helix_mongolian_spring.Token.Reach.{
  Op, initialize, vault_mint, bridge_mint, vault_burn, bridge_burn, burn, update_exchange_rate,
  set_admin, upgrade, approve, transfer, burn_from, transfer_from, apply,
}

-- The vault and the bridge, where the token is initialized.
abbrev pub wiring : Store → Option (Address × Address)
wiring s = elim s.instance_storage [
  | none ↦ none
  | some i ↦ some (i.vault_contract, i.bridge_handler)
]

module _ (i : Instance) (s s' : Store) (es : s.instance_storage ≡ some i) where
  same_wiring : s'.instance_storage ≡ s.instance_storage → wiring s' ≡ wiring s
  same_wiring e = ground arith

  mint_shares-wiring :
      (a : Address) (x : ℤ) → mint_shares a x s ≡ ok (tt, s') → wiring s' ≡ wiring s
  unfolding mint_shares store_balance
  mint_shares-wiring a x e = ground arith

  burn_internal-wiring :
      (a : Address) (x : ℤ) → burn_internal a x s ≡ ok (tt, s') → wiring s' ≡ wiring s
  unfolding burn_internal store_balance
  burn_internal-wiring a x e = ground arith

  burn_external-wiring : (x : ℤ) → burn_external_shares x s ≡ ok (tt, s') → wiring s' ≡ wiring s
  unfolding burn_external_shares
  burn_external-wiring x e = ground arith

burn_out-wiring :
    (i : Instance) (s s' : Store)
    → s.instance_storage ≡ some i
    → (a : Address) (x : ℤ) → (spend_balance a x >> burn_external_shares x) s ≡ ok (tt, s')
    → wiring s' ≡ wiring s
burn_out-wiring i s s' es a x e =
    let (_, s1, e1, e2) = >>=-eq-ok (spend_balance a x) (λ _. burn_external_shares x) s e in
    let same = (spend_balance-Debited a x s s1 e1).same_instance in
    burn_external-wiring i s1 s' (same ∙ es) x e2 ∙ same_wiring i s s1 es same

module _ (env : Env) (i : Instance) (s s' : Store) (es : s.instance_storage ≡ some i) where
  burn-wiring :
      (from : Address) (x : ℤ) → Calls.burn env from x s ≡ ok (tt, s') → wiring s' ≡ wiring s
  unfolding Calls.burn
  burn-wiring from x e = elim (Result-cases ((spend_balance from x >> burn_external_shares x) s)) [
    | inl (_, s1, e1) ↦ ground (arith, burn_out-wiring i s s1 es from x e1)
    | inr (f, e1) ↦ ground arith
  ]

  burn_from-wiring :
      (spender from : Address) (x : ℤ)
      → Calls.burn_from env spender from x s ≡ ok (tt, s')
      → wiring s' ≡ wiring s
  unfolding Calls.burn_from
  burn_from-wiring spender from x e = elim (Result-cases (spend_allowance env from spender x s)) [
    | inl (_, s1, e1) ↦
        let same = (spend_allowance-SameFunds env spender from x s s1 e1).same_instance in
        elim (Result-cases ((spend_balance from x >> burn_external_shares x) s1)) [
          | inl (_, s2, e2) ↦
              ground
                (arith, burn_out-wiring i s1 s2 (same ∙ es) from x e2, same_wiring i s s1 es same)
          | inr (f, e2) ↦ ground arith
        ]
    | inr (f, e1) ↦ ground arith
  ]

  -- Once the token is initialized, no call that returns changes its vault or its bridge.
  pub apply-wiring : (op : Op) → apply env op s ≡ ok (tt, s') → wiring s' ≡ wiring s
  unfolding apply
  apply-wiring (initialize admin vault bridge name symbol decimals) e =
      absurd (unfold Calls.initialize in ground arith)
  apply-wiring (vault_mint to x) e =
      unfold Calls.vault_mint in ground (arith, mint_shares-wiring i s s' es to x)
  apply-wiring (bridge_mint to x) e =
      unfold Calls.bridge_mint in ground (arith, mint_shares-wiring i s s' es to x)
  apply-wiring (vault_burn from x) e =
      unfold Calls.vault_burn in ground (arith, burn_internal-wiring i s s' es from x)
  apply-wiring (bridge_burn from x) e =
      unfold Calls.bridge_burn in ground (arith, burn_internal-wiring i s s' es from x)
  apply-wiring (burn from x) e = burn-wiring from x e
  apply-wiring (update_exchange_rate a) e = unfold Calls.update_exchange_rate in ground arith
  apply-wiring (set_admin a) e = unfold Calls.set_admin in ground arith
  apply-wiring (upgrade h) e = unfold Calls.upgrade in ground arith
  apply-wiring (approve from spender x n) e =
      same_wiring i s s' es (approve_instance env s s' from spender x n e)
  apply-wiring (transfer from to x) e =
      same_wiring i s s' es (transfer_instance env s s' from to x e)
  apply-wiring (burn_from spender from x) e = burn_from-wiring spender from x e
  apply-wiring (transfer_from spender from to x) e =
      same_wiring i s s' es (transfer_from_instance env s s' spender from to x e)
