-- ===== src/System/Refines.antt =====
-- contracts/bridge-handler/src/lib.rs over contracts/token/src/lib.rs: the contracts as the ledger of
-- `System/Ledger`.
use helix_mongolian_spring.Common.{
  All, ◌≡◌, ◌∙◌, ap, refl, some, true, false, List, [], ◌∷◌, ◌++◌, ℤ, pos, ◌+ℤ◌, +ℤ_zero, arith,
  Address, Bytes, Env, ok, commit, ◌==◌, Option-cases, Result-cases, Bool-cases, inl, inr,
}
use helix_mongolian_spring.Token
use helix_mongolian_spring.Token.Calls
use helix_mongolian_spring.Token.Supply.{supply, IsBacked}
use helix_mongolian_spring.Token.Wiring.{wiring, apply-wiring}
use helix_mongolian_spring.Token.Issue.{
  bridge_mint-supply, bridge_burn-supply, update_exchange_rate-supply,
}
use helix_mongolian_spring.Token.Reach as Shares
use helix_mongolian_spring.Token.Reach.{apply-IsBacked}
use helix_mongolian_spring.Token.Authority.{Issues, by_vault, by_bridge, apply-Issues}
use helix_mongolian_spring.Bridge.{Event, Library, Store, Instance, default_gas_amount}
use helix_mongolian_spring.Bridge.Calls.{send_withdrawal}
use helix_mongolian_spring.Bridge.Runs.{DepositRun, YieldRun}
use helix_mongolian_spring.Bridge.Withdrawals.{WithdrawalRun, send_withdrawal-calls}
use helix_mongolian_spring.Bridge.Executions.{Approved}
use helix_mongolian_spring.Bridge.Transactions.{
  tells_of_shares, Quiet, Called, executed, withdrew, kept_quiet, apply-Called, apply,
}
use helix_mongolian_spring.System.{
  Axelar, Outside, System, token_env, call_token, linked, Tx, to_handler, to_token, elsewhere,
  at_handler, issues, IsForeign, step, run,
}
use helix_mongolian_spring.System.Ledger.{
  Ledger, Step, deposit, yield_update, withdraw, other, Reach, here, next, IsCovered,
  Reach-IsCovered, ledger, sum_of, sum_of-append, brought, taken,
}

-- The token is initialized with this vault and this handler, and its supply is backed.
pub record IsLinked (vault handler : Address) (s : Token.Store) : Type 0 where
  pub backed : IsBacked s
  pub wired : wiring s ≡ some (vault, handler)

apply-IsLinked :
    (vault handler : Address) (env : Env) (op : Shares.Op) (s s' : Token.Store)
    → Shares.apply env op s ≡ ok (tt, s')
    → IsLinked vault handler s
    → IsLinked vault handler s'
apply-IsLinked vault handler env op s s' e v = record {
  backed = apply-IsBacked env op s s' e v.backed;
  wired = elim (Option-cases s.instance_storage) [
    | inl missing ↦ absurd (ground (arith, v.wired))
    | inr (i, es) ↦ apply-wiring env i s s' es op e ∙ v.wired
  ];
}

module _ {A : Type 0} (lib : Library) (x : Axelar A) (handler vault token : Address)
    (env : Env) where
  -- A call of the token by the handler.
  call_token_lem :
      (address : Address) (call : Token.Call (Unit {0})) (o o' : Outside A)
      → call_token token x env address call o ≡ some o'
      → call o.token ≡ ok (tt, o'.token)
  call_token_lem address call o o' e = elim (Bool-cases (address == token)) [
    | inl here_it_is ↦ elim (Result-cases (call o.token)) [
      | inl (_, t, et) ↦ ground arith
      | inr (f, ef) ↦ absurd (ground arith)
    ]
    | inr elsewhere_it_is ↦ absurd (ground arith)
  ]

  Approved-token :
      (c m a p : Bytes) (w w' : System A) (run : Approved lib (linked token x env) env c m a p w w')
      → run.approved.outside.token ≡ w.outside.token
  Approved-token c m a p w w' run =
      elim (Option-cases (
        x.validate_message run.instance_before.gateway env.current_contract c m a (lib.keccak256 p)
          w.outside.axelar)) [
            | inl failed ↦ absurd (ground (arith, run.validated))
            | inr (r, er) ↦ ground (arith, run.validated)
          ]

  send_withdrawal-token :
      (user : Address) (p : Bytes) (i : Instance) (w w' : System A)
      → w.store.instance_storage ≡ some i
      → send_withdrawal lib (linked token x env) env user p w ≡ ok (tt, w')
      → w'.outside.token ≡ w.outside.token
  send_withdrawal-token user p i w w' es e =
      let (o, paid, sent) = send_withdrawal-calls lib (linked token x env) env user p i w w' es e in
      elim (Option-cases (
        x.pay_gas i.gas_service env.current_contract i.source_chain i.source_address p user
          (record { address = lib.gas_token_address; amount = default_gas_amount }) []
          w.outside.axelar)) [
            | inl failed ↦ absurd (ground arith)
            | inr (a, ea) ↦
                elim (Option-cases (
                  x.call_contract i.gateway env.current_contract i.source_chain i.source_address p
                    a)) [ inl lost ↦ absurd (ground arith) | inr (b, eb) ↦ ground arith ]
          ]

  -- One more event.
  module _ (w w' : System A) (e : Event)
      (appended : w'.store.events ≡ w.store.events ++ e ∷ []) where
    sum_of-event :
        (amount : Event → ℤ)
        → sum_of amount w'.store.events ≡ sum_of amount w.store.events +ℤ amount e
    sum_of-event amount = ap (sum_of amount) appended ∙ sum_of-append amount w.store.events e

    sum_of-event_none :
        (amount : Event → ℤ)
        → amount e ≡ pos 0
        → sum_of amount w'.store.events ≡ sum_of amount w.store.events
    sum_of-event_none amount n = sum_of-event amount ∙ rw n (+ℤ_zero (sum_of amount w.store.events))

  DepositRun-Step :
      (m p h : Bytes) (w w' : System A)
      → DepositRun lib (linked token x env) env m p h w w'
      → IsLinked vault handler w.outside.token
      → Step (ledger w) (ledger w') × IsLinked vault handler w'.outside.token
  DepositRun-Step m p h w w' d v =
      let t = token_env token x env in
      let e =
        call_token_lem d.instance_before.token_contract (Calls.bridge_mint t d.recipient d.shares)
          w.outside w'.outside d.minted in
      let (nn, sup) =
        bridge_mint-supply t d.recipient d.shares w.outside.token w'.outside.token e in
      let ev = Event.deposit_processed d.recipient d.shares m h in
      let appended = ap (λ (s : Store). s.events) d.written in
      (
        deposit h d.shares d.new nn sup (sum_of-event w w' ev appended brought)
            (sum_of-event_none w w' ev appended taken refl)
            (ap (λ (s : Store). s.processed_messages) d.written),
        apply-IsLinked vault handler t (Shares.Op.bridge_mint d.recipient d.shares) w.outside.token
            w'.outside.token (unfold Shares.apply in e) v,
      )

  YieldRun-Step :
      (m p h : Bytes) (w w' : System A)
      → YieldRun lib (linked token x env) env m p h w w'
      → IsLinked vault handler w.outside.token
      → Step (ledger w) (ledger w') × IsLinked vault handler w'.outside.token
  YieldRun-Step m p h w w' d v =
      let t = token_env token x env in
      let e =
        call_token_lem d.instance_before.token_contract
          (Calls.update_exchange_rate t d.new_total_assets) w.outside w'.outside d.updated in
      let ev = Event.yield_updated d.new_total_assets m h in
      let appended = ap (λ (s : Store). s.events) d.written in
      (
        yield_update h d.new
            (update_exchange_rate-supply t d.new_total_assets w.outside.token w'.outside.token e)
            (sum_of-event_none w w' ev appended brought refl)
            (sum_of-event_none w w' ev appended taken refl)
            (ap (λ (s : Store). s.processed_messages) d.written),
        apply-IsLinked vault handler t (Shares.Op.update_exchange_rate d.new_total_assets)
            w.outside.token w'.outside.token (unfold Shares.apply in e) v,
      )

  WithdrawalRun-Step :
      (user : Address) (n : ℤ) (b : Bytes) (w w' : System A)
      → WithdrawalRun lib (linked token x env) env user n b w w'
      → IsLinked vault handler w.outside.token
      → Step (ledger w) (ledger w') × IsLinked vault handler w'.outside.token
  WithdrawalRun-Step user n b w w' d v =
      let t = token_env token x env in
      let e =
        call_token_lem d.instance_before.token_contract (Calls.bridge_burn t user n) w.outside
          d.burned d.burn in
      let (nn, le, sup) = bridge_burn-supply t user n w.outside.token d.burned.token v.backed e in
      let kept =
        send_withdrawal-token user d.payload d.instance_before (record w { outside = d.burned })
          (record w { outside = w'.outside }) d.initialized d.sent in
      let ev = Event.withdrawal_initiated user n b (lib.keccak256 d.payload) in
      let appended = ap (λ (s : Store). s.events) d.written in
      let linked_after =
        apply-IsLinked vault handler t (Shares.Op.bridge_burn user n) w.outside.token d.burned.token
          (unfold Shares.apply in e) v in
      (
        withdraw n nn le (ap supply kept ∙ sup) (sum_of-event_none w w' ev appended brought refl)
            (sum_of-event w w' ev appended taken)
            (ap (λ (s : Store). s.processed_messages) d.written),
        rw (← kept) at linked_after,
      )

  moves_none : (e : Event) → tells_of_shares e ≡ false → (brought e ≡ pos 0) × (taken e ≡ pos 0)
  moves_none (Event.deposit_processed recipient shares message_id g) q = absurd (ground arith)
  moves_none (Event.yield_updated total message_id g) q = absurd (ground arith)
  moves_none (Event.withdrawal_initiated user shares b g) q = absurd (ground arith)
  moves_none (Event.recipient_registered user b) q = (refl, refl)
  moves_none (Event.withdrawals_enabled_set enabled) q = (refl, refl)
  moves_none (Event.source_config_set chain address) q = (refl, refl)

  Quiet-Step : (w w' : System A) → Quiet w w' → Step (ledger w) (ledger w')
  Quiet-Step w w' q =
      let same = ap (λ (o : Outside A). supply o.token) q.same_outside in
      elim q.notice [
        | inl none_new ↦
            other (rw same (omega arith)) (ap (sum_of brought) none_new)
              (ap (sum_of taken) none_new) q.same_marks
        | inr (e, unrelated, appended) ↦
            let (b, t) = moves_none e unrelated in
            other (rw same (omega arith)) (sum_of-event_none w w' e appended brought b)
              (sum_of-event_none w w' e appended taken t) q.same_marks
      ]

  Called-Step :
      (w w' : System A)
      → Called lib (linked token x env) env w w'
      → IsLinked vault handler w.outside.token
      → Step (ledger w) (ledger w') × IsLinked vault handler w'.outside.token
  Called-Step w w' (executed c m a p run (inl d)) v =
      let same_token = Approved-token c m a p w w' run in
      let done = DepositRun-Step m p (lib.keccak256 p) run.approved w' d (rw (← same_token) at v) in
      rw (run.same, same_token) at done
  Called-Step w w' (executed c m a p run (inr y)) v =
      let same_token = Approved-token c m a p w w' run in
      let done = YieldRun-Step m p (lib.keccak256 p) run.approved w' y (rw (← same_token) at v) in
      rw (run.same, same_token) at done
  Called-Step w w' (withdrew user n b run) v = WithdrawalRun-Step user n b w w' run v
  Called-Step w w' (kept_quiet q) v =
      (Quiet-Step w w' q, rw (← ap (λ (o : Outside A). o.token) q.same_outside) at v)

module _ {A : Type 0} (lib : Library) (x : Axelar A) (handler vault token : Address) where
  idle :
      (a b : Ledger)
      → b.outstanding ≡ a.outstanding
      → b.received ≡ a.received
      → b.released ≡ a.released
      → b.settled ≡ a.settled
      → Step a b
  idle a b o i r s = other (rw o (omega arith)) i r s

  not-Issues :
      (env : Env) (op : Shares.Op) (s : Token.Store)
      → wiring s ≡ some (vault, handler)
      → env.authorized handler ≡ false
      → (issues op ≡ true → env.authorized vault ≡ false)
      → ¬ Issues env s op
  not-Issues env op s v no_handler no_vault (by_vault to n i es a) =
      let refused = no_vault refl in ground arith
  not-Issues env op s v no_handler no_vault (by_bridge to n i es a) = ground arith

  step-Step :
      (tx : Tx A) (w : System A)
      → IsForeign lib x handler vault token tx
      → IsLinked vault handler w.outside.token
      → Step (ledger w) (ledger (step lib x handler vault token tx w))
        × IsLinked vault handler (step lib x handler vault token tx w).outside.token
  unfolding step
  step-Step (to_handler env op) w f v =
      let here_env = at_handler lib x handler vault token env in
      elim (Result-cases (apply lib (linked token x here_env) here_env op w)) [
        | inl (_, w', e) ↦
            rw (e, commit)
              (Called-Step lib x handler vault token here_env w w'
                (apply-Called lib (linked token x here_env) here_env w w' op e) v)
        | inr (f, e) ↦ rw (e, commit) (idle (ledger w) (ledger w) refl refl refl refl, v)
      ]
  step-Step (to_token env op) w (no_handler, no_vault) v =
      elim (Result-cases (Shares.apply env op w.outside.token)) [
        | inl (_, t, e) ↦
            rw (e, commit)
              (
                elim (apply-Issues env w.outside.token t op e) [
                  | inl le ↦ other le refl refl refl
                  | inr issued ↦
                      absurd (not-Issues env op w.outside.token v.wired no_handler no_vault issued)
                ],
                apply-IsLinked vault handler env op w.outside.token t e v,
              )
        | inr (f, e) ↦ rw (e, commit) (idle (ledger w) (ledger w) refl refl refl refl, v)
      ]
  step-Step (elsewhere a) w f v = (idle (ledger w) _ refl refl refl refl, v)

  -- Whatever transactions are sent to a handler and an initialized token that are linked to each other,
  -- failed ones included, and whatever Axelar answers, as long as calls of the token from elsewhere carry
  -- no authorisation of the handler, and calls of `vault_mint` none of the vault: the contracts move as the
  -- ledger may, by deposits and yield updates with new messages, by withdrawals of shares that exist,
  -- and by steps that bring no share into existence.
  pub run-Reach :
      (txs : List (Tx A)) (w : System A)
      → All (IsForeign lib x handler vault token) txs
      → IsLinked vault handler w.outside.token
      → Reach (ledger w) (ledger (run lib x handler vault token txs w))
  unfolding run
  run-Reach [] w fs v = here
  run-Reach (tx ∷ txs) w fs v =
      let (s, v') = step-Step tx w fs.0 v in
      next s (run-Reach txs (step lib x handler vault token tx w) fs.1 v')

  -- Whatever transactions are sent to such a handler and token, as long as calls of the token from
  -- elsewhere carry no authorisation of the handler, and calls of `vault_mint` none of the vault: the shares
  -- in existence and those that withdrawals took are together no more than those that deposits brought,
  -- if that is so at first.
  pub run-IsCovered :
      (txs : List (Tx A)) (w : System A)
      → All (IsForeign lib x handler vault token) txs
      → IsLinked vault handler w.outside.token
      → IsCovered (ledger w)
      → IsCovered (ledger (run lib x handler vault token txs w))
  run-IsCovered txs w fs v h = Reach-IsCovered (run-Reach txs w fs v) h
