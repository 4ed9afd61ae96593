-- ===== src/Vault/Released.antt =====
-- contracts/vault/src/lib.rs: the lesser of two amounts, and what the lock leaves of the books.
use helix_mongolian_spring.Common.{
  Bool, ◌≡◌, ◌∙◌, ap, refl, ◌⊎◌, inl, inr, true, false, ℤ, ◌+ℤ◌, ◌≤ℤ◌, arith, Address, Env,
  Option-cases,
}
use helix_mongolian_spring.Vault.{Position, Store}
use helix_mongolian_spring.Vault.Calls.{capped}
use helix_mongolian_spring.Vault.Interest.{charged}
use helix_mongolian_spring.Vault.Accounting.{Writes, total_deposits_of, total_borrows_of}
use helix_mongolian_spring.Vault.Lock.{lock_as, config_of-lock_as}

pub capped_le : (n m : ℤ) → (capped n m ≤ℤ n) × (capped n m ≤ℤ m)
capped_le n m = ground arith

pub capped_one : (n m : ℤ) → (capped n m ≡ n) ⊎ (capped n m ≡ m)
capped_one n m = ground arith

pub charged-lock_as :
    (env : Env) (b : Bool) (s : Store) (p : Position)
    → charged env (lock_as b s) p ≡ charged env s p
unfolding lock_as
charged-lock_as env b s p = elim (Option-cases s.instance_storage) [
  | inl n ↦ rw n refl
  | inr (i, e) ↦ rw e refl
]

totals-lock_as :
    (b : Bool) (s : Store)
    → (total_deposits_of (lock_as b s) ≡ total_deposits_of s)
      × (total_borrows_of (lock_as b s) ≡ total_borrows_of s)
unfolding lock_as
totals-lock_as b s = elim (Option-cases s.instance_storage) [
  | inl n ↦ rw n (refl, refl)
  | inr (i, e) ↦ rw e (refl, refl)
]

-- What is written under the lock, once it is released.
pub Writes-lock_as :
    (user : Address) (p : Position) (d b : ℤ) (s t : Store)
    → Writes user p d b (lock_as true s) t
    → Writes user p d b s (lock_as false t)
unfolding lock_as
Writes-lock_as user p d b s t k =
    let before = totals-lock_as true s in
    let after = totals-lock_as false t in
    record {
      entry = k.entry;
      same_config = config_of-lock_as false t ∙ k.same_config ∙ config_of-lock_as true s;
      written = k.written;
      kept = k.kept;
      deposits = after.0 ∙ k.deposits ∙ ap (λ v. v +ℤ d) before.0;
      borrows = after.1 ∙ k.borrows ∙ ap (λ v. v +ℤ b) before.1;
    }
