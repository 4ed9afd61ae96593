-- ===== src/Bot/Iteration.antt =====
-- liquidation-bot/src/main.rs: one iteration of the bot's loop, and what it sends.
use helix_mongolian_spring.Common.{
  All, ℕ, ◌≤◌, ◌≡◌, ◌∙◌, ap, sym, refl, Option, some, List, [], ◌∷◌, ◌++◌, arith, Option-cases, inl,
  inr,
}
use mathlib.Core.List.{append-nil}
use helix_mongolian_spring.Bot.{
  Config, HealthAssessment, TrackedPosition, Action, pure, ◌>>=◌, Session, Sent, Rpc,
}
use helix_mongolian_spring.Bot.Scanner.{ScannerState, Values, EventRpc, Scanning, scan}
use helix_mongolian_spring.Bot.Health.{price_of, assess, assess_all, bonus_of, evaluate}
use helix_mongolian_spring.Bot.Executor.{execute}
use helix_mongolian_spring.Bot.Candidates.{IsCandidate, evaluate-All}
use helix_mongolian_spring.Bot.Sending.{submitted, IsWorthwhile, execute-Executed}

-- The network, the scanner's state, and the liquidations asked of the network.
pub record Running (N : Type 0) : Type 0 where
  pub network : N
  pub state : ScannerState
  pub sent : List Sent

module _ {N A : Type 0} where
  abbrev on_scanning : Action (Scanning N) A → Action (Running N) A
  on_scanning m r =
      let a = m (record { network = r.network; state = r.state }) in
      (a.0, record r { network = a.1.network; state = a.1.state })

  abbrev on_session : Action (Session N) A → Action (Running N) A
  on_session m r =
      let a = m (record { network = r.network; sent = r.sent }) in
      (a.0, record r { network = a.1.network; sent = a.1.sent })

module _ {N V : Type 0} (config : Config) (values : Values V) (events : EventRpc N V)
    (rpc : Rpc N) where
  unfoldable pub run_iteration : Action (Running N) (Unit {0})
  run_iteration = do
    updates ← on_scanning (scan config values events)
    tracked_positions ← (λ r. (some r.state.positions, r))
    candidates ← on_session (evaluate config rpc tracked_positions)
    submitted ← on_session (execute config rpc candidates)
    pure tt

module _ {N : Type 0} (config : Config) (rpc : Rpc N) where
  assess-sent :
      (bonus : ℕ) (t : TrackedPosition) (r : Option (Option HealthAssessment)) (s s' : Session N)
      → assess config rpc bonus t s ≡ (r, s')
      → s'.sent ≡ s.sent
  unfolding assess price_of
  assess-sent bonus t r s s' e = ground arith

  assess_all-sent :
      (bonus : ℕ) (ts : List TrackedPosition) (r : Option (List HealthAssessment))
      (s s' : Session N)
      → assess_all config rpc bonus ts s ≡ (r, s')
      → s'.sent ≡ s.sent
  unfolding assess_all
  assess_all-sent bonus [] r s s' e = ground arith
  assess_all-sent bonus (t ∷ ts) r s s' e =
      let a = assess config rpc bonus t s in
      let same = assess-sent bonus t a.0 s a.1 refl in
      let others = assess_all config rpc bonus ts a.1 in
      let same' = assess_all-sent bonus ts others.0 a.1 others.1 refl in
      elim (Option-cases a.0) [
        | inl failed ↦ ground arith
        | inr (found, ef) ↦ elim (Option-cases others.0) [
          | inl failed ↦ ground arith
          | inr (rest, er) ↦ ground arith
        ]
      ]

  evaluate-sent :
      (ts : List TrackedPosition) (r : Option (List HealthAssessment)) (s s' : Session N)
      → evaluate config rpc ts s ≡ (r, s')
      → s'.sent ≡ s.sent
  unfolding evaluate
  evaluate-sent ts r s s' e =
      let c = rpc.read_pool_config config.vault_contract_id s.network in
      elim (Option-cases c.0) [
        | inl failed ↦ ground arith
        | inr (cfg, ec) ↦
            let u = record s { network = c.1 } in
            let a = assess_all config rpc (bonus_of cfg) ts u in
            let same = assess_all-sent (bonus_of cfg) ts a.0 u a.1 refl in
            elim (Option-cases a.0) [ inl failed ↦ ground arith | inr (l, el) ↦ ground arith ]
      ]

-- What an iteration has sent: of the candidates of the evaluation that starts where its scan ended.
pub record Justified {N V : Type 0} (config : Config) (values : Values V) (events : EventRpc N V)
    (rpc : Rpc N) (r r' : Running N) : Type 0 where
  pub answer : Option ℕ
  pub scanned : Scanning N
  pub extra : List Sent
  pub scanning :
      scan config values events (record { network = r.network; state = r.state })
      ≡ (answer, scanned)
  pub same_state : r'.state ≡ scanned.state
  pub appended : r'.sent ≡ r.sent ++ extra
  pub worthwhile :
      All
        (IsWorthwhile config (IsCandidate config rpc scanned.state.positions scanned.network))
        extra
  pub within : submitted extra ≤ config.max_liquidations_per_run

module _ {N V : Type 0} (config : Config) (values : Values V) (events : EventRpc N V)
    (rpc : Rpc N) where
  nothing_sent :
      (r r' : Running N)
      → r'.sent ≡ r.sent
      → r'.state
        ≡ (scan config values events (record { network = r.network; state = r.state })).1.state
      → Justified config values events rpc r r'
  unfolding submitted
  nothing_sent r r' same state =
      let a = scan config values events (record { network = r.network; state = r.state }) in
      record {
        answer = a.0;
        scanned = a.1;
        extra = [];
        scanning = refl;
        same_state = state;
        appended = same ∙ sym (append-nil r.sent);
        worthwhile = tt;
        within = omega arith;
      }

  -- One iteration, also one that ends in an error: every liquidation it asks for is of a candidate of the
  -- evaluation that starts where its scan ended, so of a position tracked then of which the vault answers a
  -- health factor below 10000; it is for half the debt, not for nothing, and the profit on it, at the
  -- bonus that the vault's configuration gives, is the least profit at least; no more of them go
  -- through than the configuration allows.
  pub run_iteration-Justified :
      (result : Option (Unit {0})) (r r' : Running N)
      → run_iteration config values events rpc r ≡ (result, r')
      → Justified config values events rpc r r'
  unfolding run_iteration
  run_iteration-Justified result r r' e =
      let a = scan config values events (record { network = r.network; state = r.state }) in
      elim (Option-cases a.0) [
        | inl failed ↦ nothing_sent r r' (ground arith) (ground arith)
        | inr (updates, ea) ↦
            let ts = a.1.state.positions in
            let u : Session N = record { network = a.1.network; sent = r.sent } in
            let b = evaluate config rpc ts u in
            let same = evaluate-sent config rpc ts b.0 u b.1 refl in
            elim (Option-cases b.0) [
              | inl failed ↦ nothing_sent r r' (ground arith) (ground arith)
              | inr (l, eb) ↦
                  let P = IsCandidate config rpc ts a.1.network in
                  let candidates = evaluate-All config rpc ts l u b.1 (ap (λ o. (o, b.1)) eb) in
                  let c = execute config rpc l b.1 in
                  let run = execute-Executed config rpc P l b.1 c.1 c.0 candidates refl in
                  let last : r'.sent ≡ c.1.sent = ground arith in
                  record {
                    answer = a.0;
                    scanned = a.1;
                    extra = run.extra;
                    scanning = refl;
                    same_state = ground arith;
                    appended = last ∙ run.appended ∙ ap (λ l. l ++ run.extra) same;
                    worthwhile = run.worthwhile;
                    within = omega (arith, run.within);
                  }
            ]
      ]
