-- ===== src/Token/Allowance.antt =====
-- contracts/token/src/lib.rs: allowances.
use helix_mongolian_spring.Common.{
  ℕ, ◌≡◌, ◌≢◌, ◌⊎◌, inl, inr, ◌≤◌, Option, none, some, ℤ, pos, ◌-ℤ◌, ◌≤ℤ◌, ◌<ℤ◌, eqb_ℤ,
  if◌then◌else◌, arith, Address, Env, ok, Option-cases,
}
use helix_mongolian_spring.Token.{
  Store, AllowanceData, put_allowance, write_allowance, spend_allowance,
}

-- The balances and the instance entries are as before.
pub record SameFunds (s s' : Store) : Type 0 where
  pub same_instance : s'.instance_storage ≡ s.instance_storage
  pub same_balances : s'.balances ≡ s.balances

module _ (env : Env) where
  pub write_allowance-SameFunds :
      (from spender : Address) (x : ℤ) (n : ℕ) (s s' : Store)
      → write_allowance env from spender x n s ≡ ok (tt, s')
      → SameFunds s s'
  unfolding write_allowance put_allowance
  write_allowance-SameFunds from spender x n s s' e = ground arith

  pub spend_allowance-SameFunds :
      (spender from : Address) (x : ℤ) (s s' : Store)
      → spend_allowance env from spender x s ≡ ok (tt, s')
      → SameFunds s s'
  unfolding spend_allowance
  spend_allowance-SameFunds spender from x s s' e = grind (arith, write_allowance-SameFunds)

-- What is left of an allowance; one that is used up is removed.
abbrev pub remaining : AllowanceData → ℤ → Option AllowanceData
remaining a x =
    if eqb_ℤ (a.amount -ℤ x) (pos 0) then none else some (record a { amount = a.amount -ℤ x })

-- Spending a positive amount `x`: an allowance was found that has not expired and covers it, and it
-- is lowered by exactly `x`.
pub record Spent (env : Env) (from spender : Address) (x : ℤ) (s s' : Store) : Type 0 where
  pub granted : AllowanceData
  pub found : s.allowances from spender ≡ some granted
  pub current : env.sequence ≤ granted.expiration_ledger
  pub covered : x ≤ℤ granted.amount
  pub lowered : s'.allowances from spender ≡ remaining granted x
  pub others : (f p : Address) → (f ≢ from) ⊎ (p ≢ spender) → s'.allowances f p ≡ s.allowances f p

pub spend_allowance-Spent :
    (env : Env) (from spender : Address) (x : ℤ) (s s' : Store)
    → pos 0 <ℤ x
    → spend_allowance env from spender x s ≡ ok (tt, s')
    → Spent env from spender x s s'
unfolding spend_allowance write_allowance put_allowance
spend_allowance-Spent env from spender x s s' px e =
    elim (Option-cases (s.allowances from spender)) [
      | inl n ↦ absurd (ground arith)
      | inr (a, found) ↦ record {
        granted = a;
        found = found;
        current = ground arith;
        covered = ground arith;
        lowered = ground arith;
        others = λ f p ne. ground arith;
      }
    ]

pub Spent-same :
    (env : Env) (from spender : Address) (x : ℤ) (s r s' : Store)
    → s'.allowances ≡ r.allowances
    → Spent env from spender x s r
    → Spent env from spender x s s'
Spent-same env from spender x s r s' e h = record {
  granted = h.granted;
  found = h.found;
  current = h.current;
  covered = h.covered;
  lowered = rw e h.lowered;
  others = λ f p ne. rw e (h.others f p ne);
}
