-- ===== src/Oracle/Average.antt =====
-- contracts/oracle-adaptor/src/lib.rs: merging two feeds' prices, and the average of the window.
use helix_mongolian_spring.Common.{
  ℕ, ◌+◌, ◌-◌, ◌*◌, ◌/◌, ◌^◌, ◌≤◌, ◌<◌, ◌≡◌, ◌⊎◌, inl, inr, some, ℤ, pos, ◌≤ℤ◌, ◌+ℤ◌, ◌/ℤ◌, arith,
  ok, int_laws, ◌-ℤ◌, refl, leb_ℤ, leb, Bool-cases, if◌then◌else◌,
}
use native.Mathlib.Nat.{le-div_iff_mul-le, div-lt_iff_lt-mul, div-mul-le_self, lt-div-mul-add}
use helix_mongolian_spring.Oracle.{PriceData, TwapData, World}
use helix_mongolian_spring.Oracle.Calls.{
  merge_observations, deviation_exceeded, next_twap_state, average_or,
}

-- Merging two prices that are not negative gives a price between them, as old as the older one, and
-- writes nothing.
pub merge_observations_between :
    {W : Type 0} (p q r : PriceData) (w w' : World W)
    → pos 0 ≤ℤ p.price
    → p.price ≤ℤ q.price
    → merge_observations p q w ≡ ok (r, w')
    → (p.price ≤ℤ r.price)
      × (r.price ≤ℤ q.price)
      × (r.timestamp ≤ p.timestamp)
      × (r.timestamp ≤ q.timestamp)
      × ((r.timestamp ≡ p.timestamp) ⊎ (r.timestamp ≡ q.timestamp))
      × (w' ≡ w)
unfolding merge_observations ◌/ℤ◌ ◌+ℤ◌
merge_observations_between p q r w w' h k e = ground arith

difference_comm :
    (a b : ℤ) → (if leb_ℤ b a then a -ℤ b else b -ℤ a) ≡ (if leb_ℤ a b then b -ℤ a else a -ℤ b)
difference_comm a b = grind int_laws

baseline_comm : (a b : ℤ) → (if leb_ℤ a b then a else b) ≡ (if leb_ℤ b a then b else a)
baseline_comm a b = grind int_laws

-- Which of the two feeds is named first does not matter to the test of their deviation.
pub deviation_exceeded_comm :
    {W : Type 0} (a b : ℤ) (w : World W) → deviation_exceeded a b w ≡ deviation_exceeded b a w
unfolding deviation_exceeded
deviation_exceeded_comm a b w = rw (difference_comm a b, baseline_comm a b) refl

below_new : (c n p k : ℕ) → k * n ≤ c → k ≤ p → k ≤ (c + p) / (n + 1)
below_new c n p k h l = (le-div_iff_mul-le (omega arith)).1 (omega arith)

above_new : (c n p k : ℕ) → c < k * n + n → p ≤ k → (c + p) / (n + 1) ≤ k
above_new c n p k h l =
    let l' : c + p < (k + 1) * (n + 1) = omega arith in
    let m : (c + p) / (n + 1) < k + 1 =
      (div-lt_iff_lt-mul {k = n + 1} {x = c + p} {y = k + 1} (omega arith)).1 l' in
    omega arith

new_between :
    (c n p : ℕ)
    → 0 < n
    → let old = c / n in
      let new = (c + p) / (n + 1) in ((old ≤ new) × (new ≤ p)) ⊎ ((p ≤ new) × (new ≤ old))
new_between c n p h =
    let low : c / n * n ≤ c = div-mul-le_self c n in
    let high : c < c / n * n + n = lt-div-mul-add h in
    elim (Bool-cases (leb (c / n) p)) [
      | inl l ↦
          let le : c / n ≤ p = ground arith in
          let m : c / n * n ≤ p * n = grind arith in
          inl (below_new c n p (c / n) low le, above_new c n p p (omega arith) (omega arith))
      | inr g ↦
          let le : p ≤ c / n = ground arith in
          let m : p * n ≤ c / n * n = grind arith in
          inr (below_new c n p p (omega arith) (omega arith), above_new c n p (c / n) high le)
    ]

-- A price of `p` reported while a window runs, whose `n` samples sum to `c` and whose count is not at
-- the greatest u32: one sample is counted, and the new average lies between the old one and `p`.
pub next_twap_state_between :
    {W : Type 0} (now window c n p : ℕ) (state next : TwapData) (w w' : World W)
    → state.cumulative_price ≡ pos c
    → state.num_samples ≡ n
    → 0 < n
    → n < 2 ^ 32 - 1
    → now - state.window_start < window
    → next_twap_state now window (pos p) (some state) w ≡ ok (next, w')
    → let old = c / n in
      let new = (c + p) / (n + 1) in
      (next.num_samples ≡ n + 1)
      × (average_or (pos p) (some next) ≡ pos new)
      × (((old ≤ new) × (new ≤ p)) ⊎ ((p ≤ new) × (new ≤ old)))
unfolding next_twap_state ◌+ℤ◌ ◌/ℤ◌
next_twap_state_between now window c n p state next w w' ec en pn small running e =
    (ground arith, ground arith, new_between c n p pn)
