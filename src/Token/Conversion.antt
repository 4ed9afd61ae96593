-- ===== src/Token/Conversion.antt =====
-- contracts/token/src/lib.rs: conversions between shares and assets, and the rate after a burn.
use helix_mongolian_spring.Common.{
  ℕ, ◌-◌, ◌*◌, ◌/◌, ◌≤◌, ◌<◌, ◌≡◌, some, ℤ, pos, ◌≤ℤ◌, ◌/ℤ◌, ◌*ℤ◌, arith, Address, Env, ok,
  Result-cases, inl, inr, ◌∙◌,
}
use helix_mongolian_spring.Token.{Instance, Store, spend_balance, burn_external_shares}
use helix_mongolian_spring.Token.Calls.{assets_for_shares, shares_for_assets, burn}
use helix_mongolian_spring.Token.Rate.{
  ceil_div, back_and_forth, ceil_share-rate, burn_external_shares_lem,
}
use helix_mongolian_spring.Token.Supply.{
  IsBacked, supply, assets, spend_balance-Debited, balance_of-le-held,
}

module _ (t a : ℕ) (i : Instance) (s : Store) (es : s.instance_storage ≡ some i)
    (et : i.total_shares ≡ pos t) (ea : i.total_assets ≡ pos a) where
  assets_for_shares_lem :
      (x : ℕ) (y : ℤ) (s1 : Store)
      → assets_for_shares (pos x) s ≡ ok (y, s1)
      → (s1 ≡ s) × (y ≡ pos (x * a / t))
  unfolding assets_for_shares ◌/ℤ◌ ◌*ℤ◌
  assets_for_shares_lem x y s1 e = ground arith

  shares_for_assets_lem :
      (y : ℕ) (z : ℤ) (s1 : Store)
      → shares_for_assets (pos y) s ≡ ok (z, s1)
      → (s1 ≡ s) × (z ≡ pos (y * t / a))
  unfolding shares_for_assets ◌/ℤ◌ ◌*ℤ◌
  shares_for_assets_lem y z s1 e = ground arith

-- Shares worth some assets, converted back, are never more than the shares, and neither query
-- writes: so a holder cannot gain by converting forth and back.
pub shares-assets-shares :
    (t a x : ℕ) (i : Instance) (s s1 s2 : Store) (y z : ℤ)
    → s.instance_storage ≡ some i
    → i.total_shares ≡ pos t
    → i.total_assets ≡ pos a
    → assets_for_shares (pos x) s ≡ ok (y, s1)
    → shares_for_assets y s1 ≡ ok (z, s2)
    → (z ≤ℤ pos x) × (s2 ≡ s)
shares-assets-shares t a x i s s1 s2 y z es et ea e1 e2 =
    let (same, ey) = assets_for_shares_lem t a i s es et ea x y s1 e1 in
    let e2' = rw (same, ey) at e2 in
    let (same2, ez) = shares_for_assets_lem t a i s es et ea (x * a / t) z s2 e2' in
    (rw ez (omega (arith, back_and_forth x a t)), same2)

-- A holder's burn of `x` shares out of `t`, over `a` assets. Both totals fall, by `x` and by the
-- share's part of the assets rounded up, and what is left is worth no more per share than before.
pub burn_rate :
    (env : Env) (from : Address) (x t a : ℕ) (i : Instance) (s s' : Store)
    → IsBacked s
    → s.instance_storage ≡ some i
    → i.total_shares ≡ pos t
    → i.total_assets ≡ pos a
    → 0 < x
    → burn env from (pos x) s ≡ ok (tt, s')
    → (x ≤ t)
      × (supply s' ≡ pos (t - x))
      × (assets s' ≡ pos (a - ceil_div (x * a) t))
      × ((a - ceil_div (x * a) t) * t ≤ a * (t - x))
unfolding burn
burn_rate env from x t a i s s' v es et ea px e =
    elim (Result-cases (spend_balance from (pos x) s)) [
      | inl (_, s1, e1) ↦
          let d = spend_balance-Debited from (pos x) s s1 e1 in
          let c = balance_of-le-held from s v.positive in
          let k : x ≤ t = ground arith in
          elim (Result-cases (burn_external_shares (pos x) s1)) [
            | inl (_, s2, e2) ↦
                let done =
                  burn_external_shares_lem x t a i s1 s2 (d.same_instance ∙ es) et ea px k e2 in
                (k, ground arith, ground arith, ceil_share-rate x t a (omega arith) k)
            | inr (f, e2) ↦ absurd (ground arith)
          ]
      | inr (f, e1) ↦ absurd (ground arith)
    ]
