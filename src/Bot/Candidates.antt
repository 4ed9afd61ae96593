-- ===== src/Bot/Candidates.antt =====
-- liquidation-bot/src/health.rs: the candidates that an evaluation returns.
use mathlib.Core.List.{Mem, Perm, mem-cons_self, mem-cons_of_mem}
use helix_mongolian_spring.Common.{
  All, ℕ, ℤ, pos, ◌/ℤ◌, eqb_bytes, if◌then◌else◌, ◌≡◌, ap, ◌⊎◌, Option, some, none, List, [], ◌∷◌,
  ◌≤ℤ◌, ◌<ℤ◌, leb_ℤ, arith, Option-cases, Bool-cases, inl, inr,
}
use helix_mongolian_spring.Bot.Ordering.{IsAscending, sort-Perm, sort-IsAscending}
use helix_mongolian_spring.Bot.{
  TrackedPosition, HealthAssessment, PoolConfig, Config, health_factor_one, Session, Rpc,
}
use helix_mongolian_spring.Bot.Health.{
  liquidation_repay_amount, expected_profit, sort_by_health_factor, price_of, assess, assess_all,
  bonus_of, evaluate, primary_asset_placeholder,
}

All-Mem :
    (P : HealthAssessment → Type 0) (l : List HealthAssessment)
    → ((a : HealthAssessment) → Mem a l → P a)
    → All P l
All-Mem P [] h = tt
All-Mem P (a ∷ l) h = (h a mem-cons_self, All-Mem P l (λ b m. h b (mem-cons_of_mem a m)))

module _ {N : Type 0} (config : Config) (rpc : Rpc N) where
  -- The vault's answer on a position's health factor, and the network after it.
  abbrev health_of : TrackedPosition → N → Option ℤ × N
  health_of t n = rpc.get_health_factor config.vault_contract_id t.key.user n

  -- The oracle's answer on the price of a position's asset, where the asset is known.
  abbrev priced : TrackedPosition → N → Option (ℤ × ℕ) × N
  priced t n =
      if eqb_bytes t.key.asset primary_asset_placeholder
      then (some (pos 0, 0), n)
      else rpc.last_price config.oracle_contract_id t.key.asset n

  -- The tracked positions, asked for one after the other from a network on, and the assessments of
  -- exactly those of which the vault answers a health factor below 10000.
  pub data Assessed (liquidation_bonus_bps : ℕ)
      : List TrackedPosition → N → List HealthAssessment → N → Type 0 where
    none_left : (n : N) → Assessed liquidation_bonus_bps [] n [] n
    healthy :
        {t : TrackedPosition} {ts : List TrackedPosition} {l : List HealthAssessment} {n n1 n' : N}
        (h : ℤ)
        → health_of t n ≡ (some h, n1)
        → health_factor_one ≤ℤ h
        → Assessed liquidation_bonus_bps ts n1 l n'
        → Assessed liquidation_bonus_bps (t ∷ ts) n l n'
    unhealthy :
        {t : TrackedPosition} {ts : List TrackedPosition} {l : List HealthAssessment}
        {n n1 n2 n' : N} (h : ℤ) (price : ℤ × ℕ)
        → health_of t n ≡ (some h, n1)
        → h <ℤ health_factor_one
        → priced t n1 ≡ (some price, n2)
        → Assessed liquidation_bonus_bps ts n2 l n'
        → Assessed liquidation_bonus_bps
            (t ∷ ts)
            n
            (record {
              tracked = t;
              health_factor = h;
              oracle_price = price.0;
              oracle_timestamp = price.1;
              expected_profit =
                  expected_profit (t.position.borrowed_amount /ℤ pos 2) liquidation_bonus_bps;
            }
              ∷ l)
            n'

  -- the assessment of a position at the factor `h` and a price
  abbrev assessed : ℕ → TrackedPosition → ℤ → ℤ × ℕ → HealthAssessment
  assessed liquidation_bonus_bps t h price = record {
    tracked = t;
    health_factor = h;
    oracle_price = price.0;
    oracle_timestamp = price.1;
    expected_profit = expected_profit (t.position.borrowed_amount /ℤ pos 2) liquidation_bonus_bps;
  }

  -- One position: the vault answers; then nothing more is asked, or a price is.
  assess-cases :
      (bonus : ℕ) (t : TrackedPosition) (r : Option HealthAssessment) (s s' : Session N)
      → assess config rpc bonus t s ≡ (some r, s')
      → (h : ℤ) × (n : N) × (health_of t s.network ≡ (some h, n))
        × (((health_factor_one ≤ℤ h) × (r ≡ none) × (s'.network ≡ n))
            ⊎ ((price : ℤ × ℕ) × (h <ℤ health_factor_one)
                × (r ≡ some (assessed bonus t h price))
                × (priced t n ≡ (some price, s'.network))))
  unfolding assess price_of liquidation_repay_amount
  assess-cases bonus t r s s' e =
      let a = health_of t s.network in
      elim (Option-cases a.0) [
        | inl failed ↦ absurd (ground arith)
        | inr (h, eh) ↦ (
          h,
          a.1,
          ap (λ o. (o, a.1)) eh,
          elim (Bool-cases (leb_ℤ health_factor_one h)) [
            | inl fine ↦ inl (ground arith, ground arith, ground arith)
            | inr low ↦ elim (Bool-cases (eqb_bytes t.key.asset primary_asset_placeholder)) [
              | inl unknown ↦ inr ((pos 0, 0), ground arith, ground arith, ground arith)
              | inr known ↦
                  elim (Option-cases (rpc.last_price config.oracle_contract_id t.key.asset a.1).0) [
                    | inl no_price ↦ absurd (ground arith)
                    | inr (p, ep) ↦
                        let q = rpc.last_price config.oracle_contract_id t.key.asset a.1 in
                        let after : s'.network ≡ q.1 = ground arith in
                        inr
                          (p, ground arith, ground arith, rw (known, after) (ap (λ o. (o, q.1)) ep))
                  ]
            ]
          ],
        )
      ]

  assess_all-Assessed :
      (bonus : ℕ) (ts : List TrackedPosition) (l : List HealthAssessment) (s s' : Session N)
      → assess_all config rpc bonus ts s ≡ (some l, s')
      → Assessed bonus ts s.network l s'.network
  unfolding assess_all
  assess_all-Assessed bonus [] l s s' e =
      let empty : l ≡ [] = ground arith in
      let same : s'.network ≡ s.network = ground arith in rw (empty, same) (none_left s.network)
  assess_all-Assessed bonus (t ∷ ts) l s s' e =
      let r = assess config rpc bonus t s in
      let others = assess_all config rpc bonus ts r.1 in
      elim (Option-cases r.0) [
        | inl failed ↦ absurd (ground arith)
        | inr (found, ef) ↦ elim (Option-cases others.0) [
          | inl failed ↦ absurd (ground arith)
          | inr (rest, er) ↦
              let same : s' ≡ others.1 = ground arith in
              let ih =
                assess_all-Assessed bonus ts rest r.1 others.1 (ap (λ o. (o, others.1)) er) in
              let (h, n, answered, what) =
                assess-cases bonus t found s r.1 (ap (λ o. (o, r.1)) ef) in
              elim what [
                | inl (fine, none_found, stays) ↦
                    let kept : l ≡ rest = ground arith in
                    rw (kept, same) (healthy h answered fine (rw stays at ih))
                | inr (price, low, one_found, quoted) ↦
                    let kept : l ≡ assessed bonus t h price ∷ rest = ground arith in
                    rw (kept, same) (unhealthy h price answered low quoted ih)
              ]
        ]
      ]

  -- The candidates that an evaluation returns: the assessments of the tracked positions, at the bonus of the
  -- configuration that the vault answers, in ascending order of the health factors.
  pub record Evaluated (tracked_positions : List TrackedPosition) (n : N)
      (candidates : List HealthAssessment) (n' : N) : Type 0 where
    pub pool_config : Option PoolConfig
    pub opened : N
    pub found : List HealthAssessment
    pub configured : rpc.read_pool_config config.vault_contract_id n ≡ (some pool_config, opened)
    pub asked : Assessed (bonus_of pool_config) tracked_positions opened found n'
    pub ascending : IsAscending candidates
    pub same : Perm found candidates

  -- The candidates that an evaluation returns are, in ascending order of their health factors, the
  -- assessments of exactly those tracked positions of which the vault, asked for each of them in turn,
  -- answers a health factor below 10000: with that factor, the price that the oracle answers, or none
  -- where the asset is not known, and the profit on half the debt at the bonus of the configuration
  -- that the vault answers, or 500 where it answers none.
  pub evaluate-Evaluated :
      (ts : List TrackedPosition) (l : List HealthAssessment) (s s' : Session N)
      → evaluate config rpc ts s ≡ (some l, s')
      → Evaluated ts s.network l s'.network
  unfolding evaluate
  evaluate-Evaluated ts l s s' e =
      let r = rpc.read_pool_config config.vault_contract_id s.network in
      elim (Option-cases r.0) [
        | inl failed ↦ absurd (ground arith)
        | inr (cfg, ec) ↦
            let u = record s { network = r.1 } in
            let a = assess_all config rpc (bonus_of cfg) ts u in
            elim (Option-cases a.0) [
              | inl failed ↦ absurd (ground arith)
              | inr (m, em) ↦
                  let same : l ≡ sort_by_health_factor m = ground arith in
                  let after : s' ≡ a.1 = ground arith in
                  record {
                    pool_config = cfg;
                    opened = r.1;
                    found = m;
                    configured = ap (λ o. (o, r.1)) ec;
                    asked =
                        rw after
                          (assess_all-Assessed (bonus_of cfg) ts m u a.1 (ap (λ o. (o, a.1)) em));
                    ascending = rw same (sort-IsAscending m);
                    same = rw same (sort-Perm m);
                  }
            ]
      ]

  -- One of the candidates of an evaluation that starts from the network `n`.
  abbrev pub IsCandidate : List TrackedPosition → N → HealthAssessment → Type 0
  IsCandidate tracked_positions n a =
      (candidates : List HealthAssessment) × (n' : N) × Evaluated tracked_positions n candidates n'
      × Mem a candidates

  pub evaluate-All :
      (ts : List TrackedPosition) (l : List HealthAssessment) (s s' : Session N)
      → evaluate config rpc ts s ≡ (some l, s')
      → All (IsCandidate ts s.network) l
  evaluate-All ts l s s' e =
      All-Mem (IsCandidate ts s.network) l
        (λ a m. (l, s'.network, evaluate-Evaluated ts l s s' e, m))
