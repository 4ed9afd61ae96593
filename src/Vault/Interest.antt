-- ===== src/Vault/Interest.antt =====
-- contracts/vault/src/lib.rs: what accrual does to a position.
use helix_mongolian_spring.Common.{
  ℕ, ◌≡◌, ◌&&◌, ltb, ltb_ℤ, some, none, if◌then◌else◌, ℤ, pos, ◌+ℤ◌, ◌*ℤ◌, ◌/ℤ◌, in_i128, true,
  ◌≤ℤ◌, +ℤ_parts, ◌-◌, arith, *ℤ_nonneg, /ℤ_nonneg, Env, ok, Result-cases, Bool-cases, inl, inr,
  Option-cases,
}
use helix_mongolian_spring.Vault.{
  Position, Store, World, get_instance, checked_add, checked_mul, checked_mul_div_floor,
}
use helix_mongolian_spring.Vault.Risk.{
  accrued_interest, preview_accrued_position, seconds_per_year, bps_denominator,
}

accrued_interest_same :
    {W : Type 0} (b r : ℤ) (n : ℕ) (w w' : World W) → accrued_interest b n w ≡ ok (r, w') → w' ≡ w
unfolding accrued_interest checked_mul_div_floor get_instance
accrued_interest_same b r n w w' e = ground arith

-- Interest on a debt that is not negative is not negative, and computing it writes nothing.
accrued_interest_nonneg :
    {W : Type 0} (b r : ℤ) (n : ℕ) (w w' : World W)
    → pos 0 ≤ℤ b
    → accrued_interest b n w ≡ ok (r, w')
    → (w' ≡ w) × (pos 0 ≤ℤ r)
unfolding accrued_interest checked_mul_div_floor get_instance
accrued_interest_nonneg b r n w w' h e = elim (Option-cases w.store.instance_storage) [
  | inl none_there ↦ absurd (ground arith)
  | inr (i, es) ↦
      let annual = b *ℤ pos i.pool_config.interest_rate in
      let a0 = *ℤ_nonneg b (pos i.pool_config.interest_rate) h (omega arith) in
      let a1 = *ℤ_nonneg annual (pos n) a0 (omega arith) in
      let scale = seconds_per_year *ℤ bps_denominator in
      let a2 = *ℤ_nonneg seconds_per_year bps_denominator (omega arith) (omega arith) in
      (ground arith, ground (arith, /ℤ_nonneg (annual *ℤ pos n) scale a1 a2))
]

abbrev pub interest_rate_of : Store → ℕ
interest_rate_of s = elim s.instance_storage [ none ↦ 0 | some i ↦ i.pool_config.interest_rate ]

-- A position at the time of the call: a debt that is positive and some time old has grown by its interest
-- at the yearly rate, in hundredths of a percent, rounded towards zero.
abbrev pub charged : Env → Store → Position → Position
charged env s p =
    let age = env.timestamp - p.last_update in
    let debt = p.borrowed_amount in
    record p {
      borrowed_amount =
          if ltb_ℤ (pos 0) debt && ltb 0 age
          then debt
            +ℤ debt *ℤ pos (interest_rate_of s) *ℤ pos age /ℤ (seconds_per_year *ℤ bps_denominator)
          else debt;
      last_update = env.timestamp;
    }

-- Accruing a position, where it returns, answers the position with its interest.
pub preview_accrued_position-charged :
    {W : Type 0} (env : Env) (p q : Position) (w w' : World W)
    → preview_accrued_position env p w ≡ ok (q, w')
    → q ≡ charged env w.store p
unfolding preview_accrued_position accrued_interest checked_mul checked_mul_div_floor checked_add
    get_instance
preview_accrued_position-charged env p q w w' e = elim (Option-cases w.store.instance_storage) [
  | inl missing ↦ ground arith
  | inr (i, es) ↦ ground arith
]

-- `q` has the shares of `p` and the time of the call, and a debt at least that of `p` where the latter
-- is not negative.
pub record Accrued (env : Env) (p q : Position) : Type 0 where
  pub same_shares : q.deposited_shares ≡ p.deposited_shares
  pub stamped : q.last_update ≡ env.timestamp
  pub grown : pos 0 ≤ℤ p.borrowed_amount → p.borrowed_amount ≤ℤ q.borrowed_amount

-- Accruing a position, where it returns, writes nothing, keeps the shares, stamps the time of the call
-- and never lowers a debt that is not negative.
pub preview_accrued_position-Accrued :
    {W : Type 0} (env : Env) (p q : Position) (w w' : World W)
    → preview_accrued_position env p w ≡ ok (q, w')
    → (w' ≡ w) × Accrued env p q
unfolding preview_accrued_position
preview_accrued_position-Accrued env p q w w' e =
    elim (Result-cases (accrued_interest p.borrowed_amount (env.timestamp - p.last_update) w)) [
      | inl (r, w1, e1) ↦
          let same =
            accrued_interest_same p.borrowed_amount r (env.timestamp - p.last_update) w w1 e1 in
          let nonneg =
            accrued_interest_nonneg p.borrowed_amount r (env.timestamp - p.last_update) w w1 in
          let parts = +ℤ_parts p.borrowed_amount r in
          (
            ground arith,
            record {
              same_shares = ground arith;
              stamped = ground arith;
              grown = λ h. ground (arith, nonneg h e1, parts);
            },
          )
      | inr (f, e1) ↦ (
        ground arith,
        record { same_shares = ground arith; stamped = ground arith; grown = λ h. ground arith },
      )
    ]

-- The quotient of the product, which is an i128.
pub checked_mul_div_floor_value :
    {W : Type 0} (l m d r : ℤ) (w w' : World W)
    → checked_mul_div_floor l m d w ≡ ok (r, w')
    → (in_i128 (l *ℤ m) ≡ true) × (r ≡ l *ℤ m /ℤ d)
unfolding checked_mul_div_floor
checked_mul_div_floor_value l m d r w w' e = ground arith

-- Interest does not lower a debt that is not negative.
pub charged_grown :
    (env : Env) (s : Store) (p : Position)
    → pos 0 ≤ℤ p.borrowed_amount
    → p.borrowed_amount ≤ℤ (charged env s p).borrowed_amount
charged_grown env s p h =
    let b = p.borrowed_amount in
    let age = env.timestamp - p.last_update in
    let scale = seconds_per_year *ℤ bps_denominator in
    let annual = b *ℤ pos (interest_rate_of s) in
    let due = annual *ℤ pos age /ℤ scale in
    let a0 = *ℤ_nonneg b (pos (interest_rate_of s)) h (omega arith) in
    let a1 = *ℤ_nonneg annual (pos age) a0 (omega arith) in
    let a2 = *ℤ_nonneg seconds_per_year bps_denominator (omega arith) (omega arith) in
    let nonneg = /ℤ_nonneg (annual *ℤ pos age) scale a1 a2 in
    let parts = +ℤ_parts b due in
    elim (Bool-cases (ltb_ℤ (pos 0) b && ltb 0 age)) [
      | inl older ↦ rw older (ground arith)
      | inr same ↦ rw same (ground arith)
    ]
