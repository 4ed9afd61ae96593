-- ===== src/Vault/Accounting.antt =====
-- contracts/vault/src/lib.rs: the vault's books.
use helix_mongolian_spring.Common.{
  ◌≤◌, ◌<◌, ◌≡◌, refl, Option, none, some, ◌⊎◌, ℤ, pos, ◌+ℤ◌, ◌≤ℤ◌, ◌<ℤ◌, arith, Address, ok,
  Entries, total, weight, total-put, Entries-put, get, put, inl, inr, Bool-cases, true, false,
  neg_ℤ, +ℤ_zero, -ℤ_neg, replace_term_eq, replace_term_le, if◌then◌else◌,
}
use helix_mongolian_spring.Vault.{PoolConfig, Position, Instance, Store, World, is_empty}
use helix_mongolian_spring.Vault.Calls.{
  book_deposit, book_withdrawal, book_borrow, book_repayment, book_liquidation,
}

abbrev pub shares_of : Option Position → ℤ
shares_of = weight (λ p. p.deposited_shares)

abbrev pub debt_of : Option Position → ℤ
debt_of = weight (λ p. p.borrowed_amount)

-- A stored position holds shares or a debt, and neither is negative.
abbrev pub IsHolding : Option Position → Type 0
IsHolding none = Unit
IsHolding (some p) =
    (pos 0 ≤ℤ p.deposited_shares)
    × (pos 0 ≤ℤ p.borrowed_amount)
    × ((pos 0 <ℤ p.deposited_shares) ⊎ (pos 0 <ℤ p.borrowed_amount))

abbrev pub total_deposits_of : Store → ℤ
total_deposits_of s = elim s.instance_storage [ none ↦ pos 0 | some i ↦ i.total_deposits ]

abbrev pub total_borrows_of : Store → ℤ
total_borrows_of s = elim s.instance_storage [ none ↦ pos 0 | some i ↦ i.total_borrows ]

-- The configuration, and the bounds that `validate_config` checks.
abbrev pub config_of : Store → Option PoolConfig
config_of s = elim s.instance_storage [ none ↦ none | some i ↦ some i.pool_config ]

abbrev pub IsInBounds : Option PoolConfig → Type 0
IsInBounds none = Unit
IsInBounds (some c) =
    (pos 0 <ℤ c.min_position)
    × (0 < c.max_ltv)
    × (c.max_ltv ≤ 10000)
    × (0 < c.liq_threshold)
    × (c.liq_threshold ≤ 10000)
    × (c.liq_bonus ≤ 10000)

pub record IsSound (s : Store) : Type 0 where
  pub configured : IsInBounds (config_of s)
  pub holding : Entries IsHolding s.positions
  pub deposits : total (λ p. p.deposited_shares) s.positions ≡ total_deposits_of s
  pub borrows : total_borrows_of s ≤ℤ total (λ p. p.borrowed_amount) s.positions

-- One user's entry changes: the shares by `d`, with `total_deposits`; the debt by at least `b`, which
-- is what `total_borrows` changes by.
pub record Booked (user : Address) (d b : ℤ) (s s' : Store) : Type 0 where
  pub entry : Option Position
  pub same_config : config_of s' ≡ config_of s
  pub written : s'.positions ≡ put user entry s.positions
  pub deposits : total_deposits_of s' ≡ total_deposits_of s +ℤ d
  pub borrows : total_borrows_of s' ≡ total_borrows_of s +ℤ b
  pub shares : shares_of entry ≡ shares_of (get user s.positions) +ℤ d
  pub debt : debt_of (get user s.positions) +ℤ b ≤ℤ debt_of entry
  pub holding : IsHolding entry

pub Booked-IsSound :
    (user : Address) (d b : ℤ) (s s' : Store) → Booked user d b s s' → IsSound s → IsSound s'
Booked-IsSound user d b s s' k v =
    let td = total-put (λ (p : Position). p.deposited_shares) user k.entry s.positions in
    let tb = total-put (λ (p : Position). p.borrowed_amount) user k.entry s.positions in
    record {
      configured = rw k.same_config v.configured;
      holding = rw k.written (Entries-put IsHolding user k.entry s.positions v.holding k.holding);
      deposits = rw (k.written, k.deposits, ← v.deposits) (replace_term_eq _ _ _ _ d td k.shares);
      borrows = rw (k.written, k.borrows) (replace_term_le _ _ _ _ b _ tb k.debt v.borrows);
    }

stored_or_removed :
    (p : Position)
    → let entry = if is_empty p then none else some p in
      ((entry ≡ some p) × (is_empty p ≡ false)) ⊎ ((entry ≡ none) × (is_empty p ≡ true))
stored_or_removed p = elim (Bool-cases (is_empty p)) [
  | inl e ↦ rw e (inr (refl, refl))
  | inr e ↦ rw e (inl (refl, refl))
]

-- What the writes at the end of an entry point do.
pub record Writes (user : Address) (p : Position) (d b : ℤ) (s s' : Store) : Type 0 where
  pub entry : Option Position
  pub same_config : config_of s' ≡ config_of s
  pub written : s'.positions ≡ put user entry s.positions
  pub kept : ((entry ≡ some p) × (is_empty p ≡ false)) ⊎ ((entry ≡ none) × (is_empty p ≡ true))
  pub deposits : total_deposits_of s' ≡ total_deposits_of s +ℤ d
  pub borrows : total_borrows_of s' ≡ total_borrows_of s +ℤ b

module _ {W : Type 0} where
  pub book_deposit-Writes :
      (user token : Address) (n : ℤ) (p : Position) (w w' : World W)
      → is_empty p ≡ false
      → book_deposit user token n p w ≡ ok (tt, w')
      → Writes user p n (pos 0) w.store w'.store
  unfolding book_deposit
  book_deposit-Writes user token n p w w' filled e = record {
    entry = some p;
    same_config = ground arith;
    written = ground arith;
    kept = inl (refl, filled);
    deposits = ground arith;
    borrows = rw +ℤ_zero (ground arith);
  }

  pub book_withdrawal-Writes :
      (user token : Address) (n : ℤ) (p : Position) (w w' : World W)
      → book_withdrawal user token n p w ≡ ok (tt, w')
      → Writes user p (neg_ℤ n) (pos 0) w.store w'.store
  unfolding book_withdrawal
  book_withdrawal-Writes user token n p w w' e = record {
    entry = if is_empty p then none else some p;
    same_config = ground arith;
    written = ground arith;
    kept = stored_or_removed p;
    deposits = rw -ℤ_neg (ground arith);
    borrows = rw +ℤ_zero (ground arith);
  }

  pub book_borrow-Writes :
      (user : Address) (n t h : ℤ) (p : Position) (i : Instance) (w w' : World W)
      → w.store.instance_storage ≡ some i
      → t ≡ i.total_borrows +ℤ n
      → is_empty p ≡ false
      → book_borrow user n t h p w ≡ ok (tt, w')
      → Writes user p (pos 0) n w.store w'.store
  unfolding book_borrow
  book_borrow-Writes user n t h p i w w' es et filled e = record {
    entry = some p;
    same_config = ground arith;
    written = ground arith;
    kept = inl (refl, filled);
    deposits = rw +ℤ_zero (ground arith);
    borrows = ground arith;
  }

  pub book_repayment-Writes :
      (user : Address) (n : ℤ) (p : Position) (w w' : World W)
      → book_repayment user n p w ≡ ok (tt, w')
      → Writes user p (pos 0) (neg_ℤ n) w.store w'.store
  unfolding book_repayment
  book_repayment-Writes user n p w w' e = record {
    entry = if is_empty p then none else some p;
    same_config = ground arith;
    written = ground arith;
    kept = stored_or_removed p;
    deposits = rw +ℤ_zero (ground arith);
    borrows = rw -ℤ_neg (ground arith);
  }

  pub book_liquidation-Writes :
      (liquidator user : Address) (n k c : ℤ) (p : Position) (w w' : World W)
      → book_liquidation liquidator user n k c p w ≡ ok (tt, w')
      → Writes user p (neg_ℤ k) (neg_ℤ n) w.store w'.store
  unfolding book_liquidation
  book_liquidation-Writes liquidator user n k c p w w' e = record {
    entry = if is_empty p then none else some p;
    same_config = ground arith;
    written = ground arith;
    kept = stored_or_removed p;
    deposits = rw -ℤ_neg (ground arith);
    borrows = rw -ℤ_neg (ground arith);
  }

pub Writes-Booked :
    (user : Address) (p : Position) (d b : ℤ) (s s' : Store)
    → Writes user p d b s s'
    → p.deposited_shares ≡ shares_of (get user s.positions) +ℤ d
    → debt_of (get user s.positions) +ℤ b ≤ℤ p.borrowed_amount
    → pos 0 ≤ℤ p.deposited_shares
    → pos 0 ≤ℤ p.borrowed_amount
    → Booked user d b s s'
Writes-Booked user p d b s s' k es hb nd nb = record {
  entry = k.entry;
  same_config = k.same_config;
  written = k.written;
  deposits = k.deposits;
  borrows = k.borrows;
  shares = ground arith;
  debt = ground arith;
  holding = ground arith;
}
