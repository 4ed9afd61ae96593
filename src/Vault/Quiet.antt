-- ===== src/Vault/Quiet.antt =====
-- contracts/vault/src/lib.rs: the parts of the entry points that leave the vault's storage alone, and
-- what they establish when they return.
use helix_mongolian_spring.Common.{
  ◌≡◌, Option, ℤ, pos, arith, Address, Env, ok, Result-cases, Bool-cases, ltb_ℤ, inl, inr,
}
use helix_mongolian_spring.Vault.{Position, World, Externals, primary_supported_asset}
use helix_mongolian_spring.Vault.Risk.{
  enforce_min_position, require_exact_incoming_delta, require_exact_outgoing_delta, oracle_price,
  max_borrow_for_position, health_factor_for_position, collateral_value_for_position,
}
use helix_mongolian_spring.Vault.Calls.{
  or_new, receive_exactly, send_exactly, position_to_credit, require_healthy,
}
use helix_mongolian_spring.Vault.Interest.{Accrued, preview_accrued_position-Accrued}

module _ {W : Type 0} where
  pub enforce_min_position_same :
      (n : ℤ) (w w' : World W) → enforce_min_position n w ≡ ok (tt, w') → w' ≡ w
  unfolding enforce_min_position
  enforce_min_position_same n w w' e = ground arith

  pub primary_supported_asset_same :
      (c : Address) (w w' : World W) → primary_supported_asset w ≡ ok (c, w') → w' ≡ w
  unfolding primary_supported_asset
  primary_supported_asset_same c w w' e = ground arith

module _ {W : Type 0} (x : Externals W) (env : Env) where
  pub oracle_price_same :
      (asset : Address) (p : ℤ) (w w' : World W) → oracle_price x env asset w ≡ ok (p, w') → w' ≡ w
  unfolding oracle_price
  oracle_price_same asset p w w' e = ground arith

  pub collateral_value_same :
      (token : Address) (n v : ℤ) (w w' : World W)
      → collateral_value_for_position x env token n w ≡ ok (v, w')
      → w' ≡ w
  unfolding collateral_value_for_position
  collateral_value_same token n v w w' e = ground arith

  pub max_borrow_same :
      (token : Address) (p : Position) (v : ℤ) (w w' : World W)
      → max_borrow_for_position x env token p w ≡ ok (v, w')
      → w' ≡ w
  unfolding max_borrow_for_position
  max_borrow_same token p v w w' e =
      elim (Result-cases (collateral_value_for_position x env token p.deposited_shares w)) [
        | inl (c, w1, e1) ↦ ground (arith, collateral_value_same token p.deposited_shares c w w1 e1)
        | inr (f, e1) ↦ ground arith
      ]

  pub health_factor_same :
      (token : Address) (p : Position) (v : ℤ) (w w' : World W)
      → health_factor_for_position x env token p w ≡ ok (v, w')
      → w' ≡ w
  unfolding health_factor_for_position
  health_factor_same token p v w w' e =
      elim (Result-cases (collateral_value_for_position x env token p.deposited_shares w)) [
        | inl (c, w1, e1) ↦ ground (arith, collateral_value_same token p.deposited_shares c w w1 e1)
        | inr (f, e1) ↦ ground arith
      ]

  pub require_healthy_same :
      (token : Address) (p : Position) (w w' : World W)
      → require_healthy x env token p w ≡ ok (tt, w')
      → w' ≡ w
  unfolding require_healthy
  require_healthy_same token p w w' e =
      elim (Result-cases (health_factor_for_position x env token p w)) [
        | inl (c, w1, e1) ↦ ground (arith, health_factor_same token p c w w1 e1)
        | inr (f, e1) ↦ ground arith
      ]

  pub receive_exactly_same :
      (token from : Address) (n : ℤ) (w w' : World W)
      → receive_exactly x env token from n w ≡ ok (tt, w')
      → w'.store ≡ w.store
  unfolding receive_exactly require_exact_incoming_delta
  receive_exactly_same token from n w w' e = ground arith

  pub send_exactly_same :
      (token to : Address) (n before : ℤ) (w w' : World W)
      → send_exactly x env token to n before w ≡ ok (tt, w')
      → w'.store ≡ w.store
  unfolding send_exactly require_exact_outgoing_delta
  send_exactly_same token to n before w w' e = ground arith

  -- A position to add a deposit to is the stored one, with interest, or a new one.
  pub position_to_credit-Accrued :
      (found : Option Position) (q : Position) (w w' : World W)
      → position_to_credit x env found w ≡ ok (q, w')
      → (w' ≡ w) × Accrued env (or_new env found) q
  unfolding position_to_credit
  position_to_credit-Accrued found q w w' e =
      elim (Bool-cases (ltb_ℤ (pos 0) (or_new env found).borrowed_amount)) [
        | inl debt ↦ preview_accrued_position-Accrued env (or_new env found) q w w' (ground arith)
        | inr clear ↦ (
          ground arith,
          record { same_shares = ground arith; stamped = ground arith; grown = λ h. ground arith },
        )
      ]
