-- ===== src/Token/Transfers.antt =====
-- contracts/token/src/lib.rs: what a transfer does to each balance and to the allowance it spends.
use helix_mongolian_spring.Common.{
  ◌≡◌, ◌≢◌, refl, true, sym, ℤ, pos, ◌+ℤ◌, ◌-ℤ◌, ◌≤ℤ◌, ◌<ℤ◌, arith, Address, Env, ok, get-put,
  Result-cases, ◌∙◌, inl, inr, ◌>>◌, >>=-eq-ok,
}
use helix_mongolian_spring.Token.{
  Store, store_balance, balance_of, spend_balance, receive_balance, spend_allowance,
}
use helix_mongolian_spring.Token.Supply.{spend_balance-Debited}
use helix_mongolian_spring.Token.Allowance.{
  Spent, Spent-same, spend_allowance-Spent, spend_allowance-SameFunds,
}
use helix_mongolian_spring.Token.Calls.{transfer, transfer_from}

balance_of-store_balance :
    (a : Address) (v : ℤ) (s : Store) → balance_of a (store_balance a v s) ≡ v
unfolding balance_of store_balance
balance_of-store_balance a v s = grind (arith, get-put)

balance_of-store_balance_ne :
    (c a : Address) (v : ℤ) (s : Store)
    → c ≢ a
    → balance_of c (store_balance a v s) ≡ balance_of c s
unfolding balance_of store_balance
balance_of-store_balance_ne c a v s ne = grind (arith, get-put)

-- A transfer of `x` from `a` to another account `b`.
pub record Moved (a b : Address) (x : ℤ) (s s' : Store) : Type 0 where
  pub debited : balance_of a s' ≡ balance_of a s -ℤ x
  pub credited : balance_of b s' ≡ balance_of b s +ℤ x
  pub others : (c : Address) → c ≢ a → c ≢ b → balance_of c s' ≡ balance_of c s

move-Moved :
    (a b : Address) (x : ℤ) (s s' : Store)
    → a ≢ b
    → (spend_balance a x >> receive_balance b x) s ≡ ok (tt, s')
    → Moved a b x s s'
unfolding spend_balance receive_balance
move-Moved a b x s s' ne e =
    let s1 = store_balance a (balance_of a s -ℤ x) s in
    let en = λ (p : b ≡ a). ne (sym p) in
    let v = balance_of b s1 +ℤ x in
    record {
      debited = ground (
        arith,
        balance_of-store_balance a (balance_of a s -ℤ x) s,
        balance_of-store_balance_ne a b v s1 ne,
      );
      credited = ground (
        arith,
        balance_of-store_balance b v s1,
        balance_of-store_balance_ne b a (balance_of a s -ℤ x) s en,
      );
      others = λ c ca cb. ground (
        arith,
        balance_of-store_balance_ne c b v s1 cb,
        balance_of-store_balance_ne c a (balance_of a s -ℤ x) s ca,
      );
    }

balance_of_same :
    (c : Address) (s s' : Store) → s'.balances ≡ s.balances → balance_of c s' ≡ balance_of c s
unfolding balance_of
balance_of_same c s s' e = rw e

-- Only the balances matter.
Moved-same :
    (a b : Address) (x : ℤ) (s r r' s' : Store)
    → r.balances ≡ s.balances
    → s'.balances ≡ r'.balances
    → Moved a b x r r'
    → Moved a b x s s'
Moved-same a b x s r r' s' e f m = record {
  debited = ground (arith, balance_of_same a s r e, balance_of_same a r' s' f);
  credited = ground (arith, balance_of_same b s r e, balance_of_same b r' s' f);
  others = λ c ca cb. balance_of_same c r' s' f ∙ m.others c ca cb ∙ balance_of_same c s r e;
}

-- A transfer that returns, between two accounts: the sender's authorisation was given, exactly the
-- amount moves, the sender could cover it, and no third balance changes.
pub transfer-Moved :
    (env : Env) (a b : Address) (x : ℤ) (s s' : Store)
    → a ≢ b
    → transfer env a b x s ≡ ok (tt, s')
    → (env.authorized a ≡ true) × (pos 0 ≤ℤ x) × (x ≤ℤ balance_of a s) × Moved a b x s s'
unfolding transfer
transfer-Moved env a b x s s' ne e =
    elim (Result-cases ((spend_balance a x >> receive_balance b x) s)) [
      | inl (_, s1, e1) ↦
          let m = move-Moved a b x s s1 ne e1 in
          let (_, s2, e2, _) = >>=-eq-ok (spend_balance a x) (λ _. receive_balance b x) s e1 in
          let d = spend_balance-Debited a x s s2 e2 in
          (ground arith, ground arith, d.covered, Moved-same a b x s s s1 s' refl (ground arith) m)
      | inr (f, e1) ↦ absurd (ground arith)
    ]

move-allowances :
    (a b : Address) (x : ℤ) (s s' : Store)
    → (spend_balance a x >> receive_balance b x) s ≡ ok (tt, s')
    → s'.allowances ≡ s.allowances
unfolding spend_balance receive_balance store_balance
move-allowances a b x s s' e = ground arith

-- A transfer on an allowance that returns, of a positive amount between two accounts: the spender's
-- authorisation was given, the owner's allowance to it had not expired, covered the amount and is
-- lowered by it, and the balances move as in a transfer.
pub transfer_from-Moved :
    (env : Env) (spender a b : Address) (x : ℤ) (s s' : Store)
    → a ≢ b
    → pos 0 <ℤ x
    → transfer_from env spender a b x s ≡ ok (tt, s')
    → (env.authorized spender ≡ true) × Spent env a spender x s s' × Moved a b x s s'
unfolding transfer_from
transfer_from-Moved env spender a b x s s' ne px e =
    elim (Result-cases (spend_allowance env a spender x s)) [
      | inl (_, s1, e1) ↦
          let same = spend_allowance-SameFunds env spender a x s s1 e1 in
          let spent = spend_allowance-Spent env a spender x s s1 px e1 in
          elim (Result-cases ((spend_balance a x >> receive_balance b x) s1)) [
            | inl (_, s2, e2) ↦
                let m = move-Moved a b x s1 s2 ne e2 in
                (
                  ground arith,
                  Spent-same env a spender x s s1 s'
                      ((ground arith) ∙ move-allowances a b x s1 s2 e2) spent,
                  Moved-same a b x s s1 s2 s' same.same_balances (ground arith) m,
                )
            | inr (f, e2) ↦ absurd (ground arith)
          ]
      | inr (f, e1) ↦ absurd (ground arith)
    ]
