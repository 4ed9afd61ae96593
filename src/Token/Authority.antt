-- ===== src/Token/Authority.antt =====
-- contracts/token/src/lib.rs: whose authorisation a rise of the supply takes.
use helix_mongolian_spring.Common.{
  ℕ, ◌≡◌, ◌⊎◌, inl, inr, some, true, ℤ, pos, ◌≤ℤ◌, -ℤ_parts, arith, Address, Env, ok, Option-cases,
  Result-cases, ◌>>◌, >>=-eq-ok, ◌∙◌,
}
use helix_mongolian_spring.Token.{
  Instance, Store, burn_internal, burn_external_shares, spend_balance, receive_balance,
  write_allowance, spend_allowance, store_balance,
}
use helix_mongolian_spring.Token.Calls
use helix_mongolian_spring.Token.Supply.{supply, spend_balance-Debited, receive_balance-Credited}
use helix_mongolian_spring.Token.Allowance.{write_allowance-SameFunds, spend_allowance-SameFunds}
use helix_mongolian_spring.Token.Reach.{
  Op, initialize, vault_mint, bridge_mint, vault_burn, bridge_burn, burn, update_exchange_rate,
  set_admin, upgrade, approve, transfer, burn_from, transfer_from, apply,
}

move_instance :
    (a b : Address) (x : ℤ) (s s' : Store)
    → (spend_balance a x >> receive_balance b x) s ≡ ok (tt, s')
    → s'.instance_storage ≡ s.instance_storage
move_instance a b x s s' e =
    let (_, s1, e1, e2) = >>=-eq-ok (spend_balance a x) (λ _. receive_balance b x) s e in
    (receive_balance-Credited b x s1 s' e2).same_instance
    ∙ (spend_balance-Debited a x s s1 e1).same_instance

burn_external_le :
    (x : ℤ) (s s' : Store)
    → pos 0 ≤ℤ x
    → burn_external_shares x s ≡ ok (tt, s')
    → supply s' ≤ℤ supply s
unfolding burn_external_shares
burn_external_le x s s' h e = elim (Option-cases s.instance_storage) [
  | inl missing ↦ ground arith
  | inr (i, es) ↦ ground (arith, -ℤ_parts i.total_shares x)
]

burn_internal_le :
    (a : Address) (x : ℤ) (s s' : Store)
    → pos 0 ≤ℤ x
    → burn_internal a x s ≡ ok (tt, s')
    → supply s' ≤ℤ supply s
unfolding burn_internal store_balance
burn_internal_le a x s s' h e = elim (Option-cases s.instance_storage) [
  | inl missing ↦ ground arith
  | inr (i, es) ↦ ground (arith, -ℤ_parts i.total_shares x)
]

burn_out_le :
    (a : Address) (x : ℤ) (s s' : Store)
    → pos 0 ≤ℤ x
    → (spend_balance a x >> burn_external_shares x) s ≡ ok (tt, s')
    → supply s' ≤ℤ supply s
burn_out_le a x s s' h e =
    let (_, s1, e1, e2) = >>=-eq-ok (spend_balance a x) (λ _. burn_external_shares x) s e in
    let d = spend_balance-Debited a x s s1 e1 in
    ground (arith, burn_external_le x s1 s' h e2, d.same_instance)

-- The vault or the bridge of the token gave its authorisation.
unfoldable pub IsTrusted : Env → Store → Type 0
IsTrusted env s =
    (i : Instance) × (s.instance_storage ≡ some i)
    × ((env.authorized i.vault_contract ≡ true) ⊎ (env.authorized i.bridge_handler ≡ true))

-- A mint with the authorisation that it takes: the vault's for the vault's, the bridge's for the bridge's.
pub data Issues (env : Env) (s : Store) : Op → Type 0 where
  by_vault :
      (to : Address) (x : ℤ) (i : Instance)
      → s.instance_storage ≡ some i
      → env.authorized i.vault_contract ≡ true
      → Issues env s (vault_mint to x)
  by_bridge :
      (to : Address) (x : ℤ) (i : Instance)
      → s.instance_storage ≡ some i
      → env.authorized i.bridge_handler ≡ true
      → Issues env s (bridge_mint to x)

Issues-IsTrusted : (env : Env) (s : Store) (op : Op) → Issues env s op → IsTrusted env s
unfolding IsTrusted
Issues-IsTrusted env s op (by_vault to x i es a) = (i, es, inl a)
Issues-IsTrusted env s op (by_bridge to x i es a) = (i, es, inr a)

module _ (env : Env) (s s' : Store) where
  not_raised :
      (op : Op)
      → s'.instance_storage ≡ s.instance_storage
      → (supply s' ≤ℤ supply s) ⊎ Issues env s op
  not_raised op e = inl (ground arith)

  vault_mint-Issues :
      (to : Address) (x : ℤ)
      → Calls.vault_mint env to x s ≡ ok (tt, s')
      → Issues env s (vault_mint to x)
  unfolding Calls.vault_mint
  vault_mint-Issues to x e = elim (Option-cases s.instance_storage) [
    | inl missing ↦ absurd (ground arith)
    | inr (i, es) ↦ by_vault to x i es (ground arith)
  ]

  bridge_mint-Issues :
      (to : Address) (x : ℤ)
      → Calls.bridge_mint env to x s ≡ ok (tt, s')
      → Issues env s (bridge_mint to x)
  unfolding Calls.bridge_mint
  bridge_mint-Issues to x e = elim (Option-cases s.instance_storage) [
    | inl missing ↦ absurd (ground arith)
    | inr (i, es) ↦ by_bridge to x i es (ground arith)
  ]

  burn_supply :
      (from : Address) (x : ℤ) → Calls.burn env from x s ≡ ok (tt, s') → supply s' ≤ℤ supply s
  unfolding Calls.burn
  burn_supply from x e = elim (Result-cases ((spend_balance from x >> burn_external_shares x) s)) [
    | inl (_, s1, e1) ↦ ground (arith, burn_out_le from x s s1)
    | inr (f, e1) ↦ ground arith
  ]

  burn_from_supply :
      (spender from : Address) (x : ℤ)
      → Calls.burn_from env spender from x s ≡ ok (tt, s')
      → supply s' ≤ℤ supply s
  unfolding Calls.burn_from
  burn_from_supply spender from x e = elim (Result-cases (spend_allowance env from spender x s)) [
    | inl (_, s1, e1) ↦
        let same = spend_allowance-SameFunds env spender from x s s1 e1 in
        elim (Result-cases ((spend_balance from x >> burn_external_shares x) s1)) [
          | inl (_, s2, e2) ↦ ground (arith, burn_out_le from x s1 s2, same.same_instance)
          | inr (f, e2) ↦ ground arith
        ]
    | inr (f, e1) ↦ ground arith
  ]

  pub approve_instance :
      (from spender : Address) (x : ℤ) (n : ℕ)
      → Calls.approve env from spender x n s ≡ ok (tt, s')
      → s'.instance_storage ≡ s.instance_storage
  unfolding Calls.approve
  approve_instance from spender x n e =
      elim (Result-cases (write_allowance env from spender x n s)) [
        | inl (_, s1, e1) ↦
            let same = write_allowance-SameFunds env from spender x n s s1 e1 in
            ground (arith, same.same_instance)
        | inr (f, e1) ↦ ground arith
      ]

  pub transfer_instance :
      (from to : Address) (x : ℤ)
      → Calls.transfer env from to x s ≡ ok (tt, s')
      → s'.instance_storage ≡ s.instance_storage
  unfolding Calls.transfer
  transfer_instance from to x e =
      elim (Result-cases ((spend_balance from x >> receive_balance to x) s)) [
        | inl (_, s1, e1) ↦ ground (arith, move_instance from to x s s1 e1)
        | inr (f, e1) ↦ ground arith
      ]

  pub transfer_from_instance :
      (spender from to : Address) (x : ℤ)
      → Calls.transfer_from env spender from to x s ≡ ok (tt, s')
      → s'.instance_storage ≡ s.instance_storage
  unfolding Calls.transfer_from
  transfer_from_instance spender from to x e =
      elim (Result-cases (spend_allowance env from spender x s)) [
        | inl (_, s1, e1) ↦
            let same = spend_allowance-SameFunds env spender from x s s1 e1 in
            elim (Result-cases ((spend_balance from x >> receive_balance to x) s1)) [
              | inl (_, s2, e2) ↦
                  ground (arith, move_instance from to x s1 s2 e2, same.same_instance)
              | inr (f, e2) ↦ ground arith
            ]
        | inr (f, e1) ↦ ground arith
      ]

  -- A call that returns raises the supply only as a mint that is authorised.
  pub apply-Issues :
      (op : Op) → apply env op s ≡ ok (tt, s') → (supply s' ≤ℤ supply s) ⊎ Issues env s op
  unfolding apply
  apply-Issues (initialize admin vault bridge name symbol decimals) e =
      inl (unfold Calls.initialize in ground arith)
  apply-Issues (vault_mint to x) e = inr (vault_mint-Issues to x e)
  apply-Issues (bridge_mint to x) e = inr (bridge_mint-Issues to x e)
  apply-Issues (vault_burn from x) e =
      inl (unfold Calls.vault_burn in ground (arith, burn_internal_le from x s s'))
  apply-Issues (bridge_burn from x) e =
      inl (unfold Calls.bridge_burn in ground (arith, burn_internal_le from x s s'))
  apply-Issues (burn from x) e = inl (burn_supply from x e)
  apply-Issues (update_exchange_rate a) e = inl (unfold Calls.update_exchange_rate in ground arith)
  apply-Issues (set_admin a) e = inl (unfold Calls.set_admin in ground arith)
  apply-Issues (upgrade h) e = inl (unfold Calls.upgrade in ground arith)
  apply-Issues (approve from spender x n) e =
      not_raised (approve from spender x n) (approve_instance from spender x n e)
  apply-Issues (transfer from to x) e =
      not_raised (transfer from to x) (transfer_instance from to x e)
  apply-Issues (burn_from spender from x) e = inl (burn_from_supply spender from x e)
  apply-Issues (transfer_from spender from to x) e =
      not_raised (transfer_from spender from to x) (transfer_from_instance spender from to x e)

  -- A call that returns raises the supply only with the authorisation of the token's vault or bridge.
  pub apply-supply :
      (op : Op) → apply env op s ≡ ok (tt, s') → (supply s' ≤ℤ supply s) ⊎ IsTrusted env s
  apply-supply op e = elim (apply-Issues op e) [
    | inl le ↦ inl le
    | inr issued ↦ inr (Issues-IsTrusted env s op issued)
  ]
