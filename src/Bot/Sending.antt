-- ===== src/Bot/Sending.antt =====
-- liquidation-bot/src/executor.rs: which liquidations a run sends, and how many.
use mathlib.Core.List.{append-nil, append_assoc}
use helix_mongolian_spring.Common.{
  All, ℕ, ◌+◌, ◌≤◌, ◌≡◌, ◌⊎◌, Option, ◌∙◌, ap, sym, refl, some, List, [], ◌∷◌, ◌++◌, pos, ◌/ℤ◌,
  ◌≤ℤ◌, ◌<ℤ◌, leb, leb_ℤ, ltb_ℤ, if◌then◌else◌, arith, Option-cases, Bool-cases, inl, inr,
}
use helix_mongolian_spring.Bot.{HealthAssessment, Config, Session, Sent, Rpc}
use helix_mongolian_spring.Bot.Executor.{attempt, execute_from, execute}

-- How many requests went through.
unfoldable pub submitted : List Sent → ℕ
submitted [] = 0
submitted (s ∷ rest) = (if s.went_through then 1 else 0) + submitted rest

-- A request for half the debt of a candidate of which `P` holds, not for nothing, and worth it.
pub record IsWorthwhile (config : Config) (P : HealthAssessment → Type 0) (s : Sent) : Type 0 where
  pub candidate : HealthAssessment
  pub chosen : P candidate
  pub of_user : s.user ≡ candidate.tracked.key.user
  pub half : s.repay_amount ≡ candidate.tracked.position.borrowed_amount /ℤ pos 2
  pub positive : pos 0 <ℤ s.repay_amount
  pub profitable : config.min_profit_threshold ≤ℤ candidate.expected_profit

module _ {N : Type 0} (config : Config) (rpc : Rpc N) (P : HealthAssessment → Type 0) where
  -- One candidate: nothing is sent and nothing counted, or a request worth its while is sent, and counted
  -- where it went through.
  attempt-cases :
      (c : HealthAssessment) (s s' : Session N) (result : Option ℕ)
      → P c
      → attempt config rpc c s ≡ (result, s')
      → ((s'.sent ≡ s.sent) × ((n : ℕ) → result ≡ some n → n ≡ 0))
        ⊎ ((x : Sent) × IsWorthwhile config P x
            × (s'.sent ≡ s.sent ++ x ∷ [])
            × (result ≡ some (if x.went_through then 1 else 0)))
  unfolding attempt
  attempt-cases c s s' result h e =
      let amount = c.tracked.position.borrowed_amount /ℤ pos 2 in
      let balance =
        rpc.token_balance config.token_contract_id rpc.liquidator_public_key s.network in
      let answer = rpc.liquidate config c.tracked.key.user amount balance.1 in
      elim (Bool-cases (leb_ℤ amount (pos 0))) [
        | inl nothing ↦ inl (ground arith, λ n k. ground arith)
        | inr positive ↦ elim (Bool-cases (ltb_ℤ c.expected_profit config.min_profit_threshold)) [
          | inl small ↦ inl (ground arith, λ n k. ground arith)
          | inr worth ↦ elim (Option-cases balance.0) [
            | inl failed ↦ inl (ground arith, λ n k. ground arith)
            | inr (b, eb) ↦ elim (Bool-cases (ltb_ℤ b amount)) [
              | inl poor ↦ inl (ground arith, λ n k. ground arith)
              | inr rich ↦ inr (
                record {
                  user = c.tracked.key.user;
                  repay_amount = amount;
                  went_through = answer.0;
                },
                record {
                  candidate = c;
                  chosen = h;
                  of_user = refl;
                  half = refl;
                  positive = ground arith;
                  profitable = ground arith;
                },
                ground arith,
                ground arith,
              )
            ]
          ]
        ]
      ]

-- What a run adds to the requests.
pub record Executed {N : Type 0} (config : Config) (P : HealthAssessment → Type 0) (before : ℕ)
    (s s' : Session N) (result : Option ℕ) : Type 0 where
  pub extra : List Sent
  pub appended : s'.sent ≡ s.sent ++ extra
  pub worthwhile : All (IsWorthwhile config P) extra
  pub within : before + submitted extra ≤ config.max_liquidations_per_run
  pub counted : (n : ℕ) → result ≡ some n → n ≡ before + submitted extra

module _ {N : Type 0} (config : Config) (rpc : Rpc N) (P : HealthAssessment → Type 0) where
  nothing_sent :
      (before : ℕ) (s s' : Session N) (result : Option ℕ)
      → before ≤ config.max_liquidations_per_run
      → s'.sent ≡ s.sent
      → ((n : ℕ) → result ≡ some n → n ≡ before)
      → Executed config P before s s' result
  unfolding submitted
  nothing_sent before s s' result le same counted = record {
    extra = [];
    appended = same ∙ sym (append-nil s.sent);
    worthwhile = tt;
    within = omega arith;
    counted = λ n k. omega (arith, counted n k);
  }

  execute_from-Executed :
      (candidates : List HealthAssessment) (before : ℕ) (s s' : Session N) (result : Option ℕ)
      → before ≤ config.max_liquidations_per_run
      → All P candidates
      → execute_from config rpc before candidates s ≡ (result, s')
      → Executed config P before s s' result
  unfolding execute_from submitted
  execute_from-Executed [] before s s' result le h e =
      nothing_sent before s s' result le (ground arith) (λ n k. ground arith)
  execute_from-Executed (c ∷ cs) before s s' result le h e =
      elim (Bool-cases (leb config.max_liquidations_per_run before)) [
        | inl full ↦ nothing_sent before s s' result le (ground arith) (λ n k. ground arith)
        | inr room ↦
            let r = attempt config rpc c s in
            elim (attempt-cases config rpc P c s r.1 r.0 h.0 refl) [
              | inl (same, none_counted) ↦ elim (Option-cases r.0) [
                | inl failed ↦
                    nothing_sent before s s' result le (ground arith) (λ n k. ground arith)
                | inr (n, en) ↦
                    let zero_counted = none_counted n en in
                    let ih =
                      execute_from-Executed cs (before + n) r.1 s' result (omega arith) h.1
                        (ground arith) in
                    record {
                      extra = ih.extra;
                      appended = rw same at ih.appended;
                      worthwhile = ih.worthwhile;
                      within = omega (arith, ih.within);
                      counted = λ m k. omega (arith, ih.counted m k);
                    }
              ]
              | inr (x, worth, sent, counted) ↦
                  let n = if x.went_through then 1 else 0 in
                  let ih =
                    execute_from-Executed cs (before + n) r.1 s' result (ground arith) h.1
                      (ground arith) in
                  record {
                    extra = x ∷ ih.extra;
                    appended =
                        ih.appended
                        ∙ ap (λ l. l ++ ih.extra) sent
                        ∙ append_assoc s.sent (x ∷ []) ih.extra;
                    worthwhile = (worth, ih.worthwhile);
                    within = omega (arith, ih.within);
                    counted = λ m k. omega (arith, ih.counted m k);
                  }
            ]
      ]

  -- A run of the executor on candidates of each of which `P` holds, also a run that ends in an error:
  -- every request it adds is for half the debt of a candidate of which `P` holds, not for nothing, and
  -- promises the least profit at least; no more of them go through than the configuration allows; and
  -- a count that is returned is that of those that did.
  pub execute-Executed :
      (candidates : List HealthAssessment) (s s' : Session N) (result : Option ℕ)
      → All P candidates
      → execute config rpc candidates s ≡ (result, s')
      → Executed config P 0 s s' result
  unfolding execute
  execute-Executed candidates s s' result h e =
      execute_from-Executed candidates 0 s s' result (omega arith) h e
