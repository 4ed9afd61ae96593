-- ===== src/Token/Supply.antt =====
-- contracts/token/src/lib.rs: the share supply and the balances.
use helix_mongolian_spring.Common.{
  ◌≡◌, Option, none, some, ℤ, pos, negsuc, zero, suc, refl, +ℤ_cancel_right, >>=-eq-ok, ◌>>◌, ◌+ℤ◌,
  ◌-ℤ◌, ◌≤ℤ◌, ◌<ℤ◌, int_laws, arith, Address, ok, Entries, total, total-put, Entries-put,
  get-le-total, Entries-imp, weight,
}
use helix_mongolian_spring.Token.Rate.{burn_external_shares_lem}
use helix_mongolian_spring.Token.{
  Instance, Store, store_balance, balance_of, spend_balance, receive_balance, mint_shares,
  burn_internal, burn_external_shares,
}

-- The sum of the balances.
abbrev pub held : Store → ℤ
held s = total (λ b. b) s.balances

abbrev pub supply : Store → ℤ
supply s = elim s.instance_storage [ none ↦ pos 0 | some i ↦ i.total_shares ]

abbrev pub assets : Store → ℤ
assets s = elim s.instance_storage [ none ↦ pos 0 | some i ↦ i.total_assets ]

-- A stored balance is positive.
abbrev pub IsPositive : Option ℤ → Type 0
IsPositive none = Unit
IsPositive (some b) = pos 0 <ℤ b

pub held-store_balance :
    (a : Address) (v : ℤ) (s : Store) → held (store_balance a v s) +ℤ balance_of a s ≡ held s +ℤ v
unfolding store_balance balance_of
held-store_balance a v s = grind (arith, total-put)

pub IsPositive-store_balance :
    (a : Address) (v : ℤ) (s : Store)
    → pos 0 ≤ℤ v
    → Entries IsPositive s.balances
    → Entries IsPositive (store_balance a v s).balances
unfolding store_balance
IsPositive-store_balance a v s h p = grind (arith, Entries-put)

pub instance-store_balance :
    (a : Address) (v : ℤ) (s : Store) → (store_balance a v s).instance_storage ≡ s.instance_storage
unfolding store_balance
instance-store_balance a v s = ground arith

-- What the supply promises: it is the sum of the balances, and the balances stored are positive.
pub record IsBacked (s : Store) : Type 0 where
  pub backed : held s ≡ supply s
  pub positive : Entries IsPositive s.balances
  pub assets_nonneg : pos 0 ≤ℤ assets s

pub mint_shares-IsBacked :
    (a : Address) (x : ℤ) (s s' : Store)
    → mint_shares a x s ≡ ok (tt, s')
    → IsBacked s
    → IsBacked s'
unfolding mint_shares
mint_shares-IsBacked a x s s' e v = record {
  backed = grind (
    int_laws,
    held-store_balance a (balance_of a s +ℤ x) s,
    instance-store_balance a (balance_of a s +ℤ x) s,
  );
  positive = ground (arith, IsPositive-store_balance a (balance_of a s +ℤ x) s);
  assets_nonneg = ground (arith, instance-store_balance a (balance_of a s +ℤ x) s);
}

pub burn_internal-IsBacked :
    (a : Address) (x : ℤ) (s s' : Store)
    → burn_internal a x s ≡ ok (tt, s')
    → IsBacked s
    → IsBacked s'
unfolding burn_internal
burn_internal-IsBacked a x s s' e v = record {
  backed = grind (
    int_laws,
    held-store_balance a (balance_of a s -ℤ x) s,
    instance-store_balance a (balance_of a s -ℤ x) s,
  );
  positive = ground (arith, IsPositive-store_balance a (balance_of a s -ℤ x) s);
  assets_nonneg = ground (arith, instance-store_balance a (balance_of a s -ℤ x) s);
}

-- What a debit leaves: the instance, and a sum of the balances that is lower by the amount, which
-- the balance covered.
pub record Debited (a : Address) (x : ℤ) (s s' : Store) : Type 0 where
  pub same_instance : s'.instance_storage ≡ s.instance_storage
  pub covered : x ≤ℤ balance_of a s
  pub lowered : held s' +ℤ x ≡ held s
  pub positive : Entries IsPositive s.balances → Entries IsPositive s'.balances

pub spend_balance-Debited :
    (a : Address) (x : ℤ) (s s' : Store) → spend_balance a x s ≡ ok (tt, s') → Debited a x s s'
unfolding spend_balance
spend_balance-Debited a x s s' e =
    let written = store_balance a (balance_of a s -ℤ x) s in
    record {
      same_instance = ground (arith, instance-store_balance a (balance_of a s -ℤ x) s);
      covered = ground arith;
      lowered = grind (int_laws, held-store_balance a (balance_of a s -ℤ x) s);
      positive = λ p. ground (arith, IsPositive-store_balance a (balance_of a s -ℤ x) s);
    }

pub record Credited (a : Address) (x : ℤ) (s s' : Store) : Type 0 where
  pub same_instance : s'.instance_storage ≡ s.instance_storage
  pub raised : held s' ≡ held s +ℤ x
  pub positive : Entries IsPositive s.balances → Entries IsPositive s'.balances

pub receive_balance-Credited :
    (a : Address) (x : ℤ) (s s' : Store) → receive_balance a x s ≡ ok (tt, s') → Credited a x s s'
unfolding receive_balance
receive_balance-Credited a x s s' e = record {
  same_instance = ground (arith, instance-store_balance a (balance_of a s +ℤ x) s);
  raised = grind (int_laws, held-store_balance a (balance_of a s +ℤ x) s);
  positive = λ p. ground (arith, IsPositive-store_balance a (balance_of a s +ℤ x) s);
}

-- A stored balance is covered by the sum of them all.
positive_weight : (o : Option ℤ) → IsPositive o → pos 0 ≤ℤ weight (λ b. b) o
positive_weight none h = omega arith
positive_weight (some b) h = omega arith

pub balance_of-le-held :
    (a : Address) (s : Store) → Entries IsPositive s.balances → balance_of a s ≤ℤ held s
unfolding balance_of
balance_of-le-held a s h =
    ground (arith, get-le-total (λ b. b) a s.balances (Entries-imp positive_weight s.balances h))

-- `transfer` and `transfer_from` after their guards, also from an account to itself.
pub move-IsBacked :
    (a b : Address) (x : ℤ) (s s' : Store)
    → (spend_balance a x >> receive_balance b x) s ≡ ok (tt, s')
    → IsBacked s
    → IsBacked s'
move-IsBacked a b x s s' e v =
    let (_, s1, e1, e2) = >>=-eq-ok (spend_balance a x) (λ _. receive_balance b x) s e in
    let d = spend_balance-Debited a x s s1 e1 in
    let c = receive_balance-Credited b x s1 s' e2 in ground arith

-- What `burn_external_shares` leaves.
pub record Settled (x : ℤ) (i : Instance) (s s' : Store) : Type 0 where
  pub same_balances : s'.balances ≡ s.balances
  pub lowered : supply s' +ℤ x ≡ i.total_shares
  pub assets_nonneg : pos 0 ≤ℤ assets s'

burn_external_shares-Settled :
    (x t a : ℤ) (i : Instance) (s s' : Store)
    → s.instance_storage ≡ some i
    → i.total_shares ≡ t
    → i.total_assets ≡ a
    → pos 0 ≤ℤ x
    → x ≤ℤ t
    → pos 0 ≤ℤ a
    → burn_external_shares x s ≡ ok (tt, s')
    → Settled x i s s'
unfolding ◌+ℤ◌
burn_external_shares-Settled (negsuc x) t a i s s' es et ea p q r e = absurd (omega arith)
burn_external_shares-Settled (pos x) (negsuc t) a i s s' es et ea p q r e = absurd (omega arith)
burn_external_shares-Settled (pos x) (pos t) (negsuc a) i s s' es et ea p q r e =
    absurd (omega arith)
burn_external_shares-Settled (pos zero) (pos t) (pos a) i s s' es et ea p q r e =
    unfold burn_external_shares in ground arith
burn_external_shares-Settled (pos (suc x)) (pos t) (pos a) i s s' es et ea p q r e =
    ground (arith, burn_external_shares_lem (suc x) t a i s s' es et ea)

-- `burn` and `burn_from` after their guards: the shares leave the balance and the supply.
pub burn_external-IsBacked :
    (a : Address) (x : ℤ) (i : Instance) (s s' : Store)
    → s.instance_storage ≡ some i
    → pos 0 ≤ℤ x
    → (spend_balance a x >> burn_external_shares x) s ≡ ok (tt, s')
    → IsBacked s
    → IsBacked s'
burn_external-IsBacked a x i s s' es p e v =
    let (_, s1, e1, e2) = >>=-eq-ok (spend_balance a x) (λ _. burn_external_shares x) s e in
    let d = spend_balance-Debited a x s s1 e1 in
    let c = balance_of-le-held a s v.positive in
    let z =
      burn_external_shares-Settled x _ _ i s1 s' (ground arith) refl refl p (ground arith)
        (ground arith) e2 in
    record {
      backed = +ℤ_cancel_right (held s') (supply s') x (ground arith);
      positive = ground arith;
      assets_nonneg = z.assets_nonneg;
    }
