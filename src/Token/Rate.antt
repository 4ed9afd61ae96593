-- ===== src/Token/Rate.antt =====
-- contracts/token/src/lib.rs: the exchange rate between shares and assets.
use helix_mongolian_spring.Common.{
  ℕ, ◌+◌, ◌*◌, ◌-◌, ◌≤◌, ◌<◌, ◌/◌, ◌%◌, ◌≡◌, ℤ, pos, ◌+ℤ◌, ◌-ℤ◌, ◌*ℤ◌, ◌/ℤ◌, ◌%ℤ◌, arith, ok, some,
  zero, suc,
}
use native.Mathlib.Nat.{le_of_mul-le-mul_right, div-add-mod', mod-lt, lt_of_mul-lt-mul_right}
use helix_mongolian_spring.Token.{Store, Instance, checked_div_ceil, burn_external_shares}

-- The number that rounding up returns: the least k whose multiple reaches the numerator.
abbrev pub ceil_div : ℕ → ℕ → ℕ
ceil_div n d = elim (n % d) [ zero ↦ n / d | suc _ ↦ n / d + 1 ]

round_up_bounds :
    (n d q r : ℕ)
    → q * d + r ≡ n
    → r < d
    → let k = elim r as (λ _. ℕ) [ zero ↦ q | suc _ ↦ q + 1 ] in (n ≤ k * d) × (k * d < n + d)
round_up_bounds n d q zero e h = omega arith
round_up_bounds n d q (suc r) e h = omega arith

pub ceil_div_bounds : (n d : ℕ) → 0 < d → (n ≤ ceil_div n d * d) × (ceil_div n d * d < n + d)
ceil_div_bounds n d h = round_up_bounds n d (n / d) (n % d) (div-add-mod' n d) (mod-lt n h)

pub checked_div_ceil_lem :
    (n d : ℕ) (s s' : Store) (q : ℤ)
    → checked_div_ceil (pos n) (pos d) s ≡ ok (q, s')
    → (0 < d) × (q ≡ pos (ceil_div n d)) × (s' ≡ s)
unfolding checked_div_ceil ◌/ℤ◌ ◌%ℤ◌ ◌+ℤ◌
checked_div_ceil_lem n d s s' q e = ground arith

-- What a burn takes from the assets never exceeds them.
pub ceil_share-le : (x t a : ℕ) → 0 < t → x ≤ t → ceil_div (x * a) t ≤ a
ceil_share-le x t a h k =
    let b = ceil_div_bounds (x * a) t h in
    let m : x * a ≤ t * a = grind arith in
    let l : ceil_div (x * a) t * t < (a + 1) * t = omega arith in
    omega (arith, lt_of_mul-lt-mul_right t l)

rest_rate : (r c u x : ℕ) → x * (r + c) ≤ c * (u + x) → r * (u + x) ≤ (r + c) * u
rest_rate r c u x h = omega arith

-- After a burn each remaining share is worth no more than before.
pub ceil_share-rate : (x t a : ℕ) → 0 < t → x ≤ t → (a - ceil_div (x * a) t) * t ≤ a * (t - x)
ceil_share-rate x t a h k =
    let c = ceil_div (x * a) t in
    let ea : a - c + c ≡ a = omega (arith, ceil_share-le x t a h k) in
    let et : t - x + x ≡ t = omega arith in
    let b : x * (a - c + c) ≤ c * (t - x + x) = rw (ea, et) (ceil_div_bounds (x * a) t h).0 in
    let goal = rest_rate (a - c) c (t - x) x b in rw (ea, et) at goal

-- `burn_external_shares` on a supply of `t` shares over `a` assets.
pub burn_external_shares_lem :
    (x t a : ℕ) (i : Instance) (s s' : Store)
    → s.instance_storage ≡ some i
    → i.total_shares ≡ pos t
    → i.total_assets ≡ pos a
    → 0 < x
    → x ≤ t
    → burn_external_shares (pos x) s ≡ ok (tt, s')
    → s' ≡ record s {
      instance_storage =
          some
            (record i { total_shares = pos (t - x); total_assets = pos (a - ceil_div (x * a) t) });
    }
unfolding burn_external_shares ◌*ℤ◌ ◌-ℤ◌ ◌/ℤ◌ ◌%ℤ◌ ◌+ℤ◌
burn_external_shares_lem x t a i s s' es et ea h k e = ground (arith, ceil_share-le x t a)

-- Going from shares to assets and back never gains a share.
pub back_and_forth : (x a t : ℕ) → x * a / t * t / a ≤ x
back_and_forth x zero t = omega arith
back_and_forth x (suc a) t =
    let p = x * suc a / t in
    let inner : p * t ≤ x * suc a = omega (arith, div-add-mod' (x * suc a) t) in
    let outer : p * t / suc a * suc a ≤ x * suc a = omega (arith, div-add-mod' (p * t) (suc a)) in
    le_of_mul-le-mul_right outer (omega arith)
