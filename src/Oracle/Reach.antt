-- ===== src/Oracle/Reach.antt =====
-- contracts/oracle-adaptor/src/lib.rs: every sequence of transactions on the oracle adaptor.
use helix_mongolian_spring.Common.{
  ℕ, ◌≡◌, none, some, Option, true, false, Bool, List, [], ◌∷◌, ℤ, pos, ◌≤ℤ◌, /ℤ_nonneg, arith,
  Address, Env, ok, commit, get, Entries-get, Result-cases, Option-cases, inl, inr, unchanged,
}
use helix_mongolian_spring.Oracle.{
  Source, PriceData, TwapData, Store, World, Externals, Call, get_instance,
}
use helix_mongolian_spring.Oracle.Calls
use helix_mongolian_spring.Oracle.Calls.{
  canonical_decimals, fetch_observation, record_observed, record_both, record_price,
  deviation_exceeded, merge_observations, set_safe_mode_internal, lastprice, current_twap,
  average_or,
}
use helix_mongolian_spring.Oracle.Feeds.{set_safe_mode_internal-SafeMode, deviation_exceeded_same}
use helix_mongolian_spring.Oracle.Prices.{
  IsPrice, IsWindow, IsServing, record_price-IsServing, merge_observations-IsPrice,
  fetch_observation-IsPrice,
}

-- The entry points that write.
pub data Op : Type 0 where
  initialize : (admin primary secondary vault : Address) → Op
  update_price : (asset : Address) → Op
  set_safe_mode : Bool → Op
  configure : (first second : Address) (twap_window staleness deviation : ℕ) → Op
  upgrade : ℕ → Op

module _ {W : Type 0} (x : Externals W) where
  unfoldable pub apply : Env → Op → Call W (Unit {0})
  apply env (initialize admin primary secondary vault) =
      Calls.initialize env admin primary secondary vault
  apply env (update_price asset) = Calls.update_price x env asset
  apply env (set_safe_mode enabled) = Calls.set_safe_mode x env enabled
  apply env (configure first second twap_window staleness deviation) =
      Calls.configure env first second twap_window staleness deviation
  apply env (upgrade hash) = Calls.upgrade env hash

  record_both-IsServing :
      (env : Env) (asset : Address) (p q : PriceData) (w w' : World W)
      → IsPrice (some p)
      → IsPrice (some q)
      → IsServing w.store
      → record_both x env asset p q w ≡ ok (tt, w')
      → IsServing w'.store
  unfolding record_both
  record_both-IsServing env asset p q w w' hp hq v e =
      elim (Result-cases (deviation_exceeded p.price q.price w)) [
        | inl (true, w1, e1) ↦
            let f1 = unchanged e1 (deviation_exceeded_same p.price q.price true w w1 e1) in
            elim (Result-cases (set_safe_mode_internal x env true w)) [
              | inl (_, w2, e2) ↦
                  let m = set_safe_mode_internal-SafeMode x env w w2 e2 in
                  let ep : w'.store.cached_prices ≡ w.store.cached_prices =
                    ground (arith, m.same_prices) in
                  let ew : w'.store.twap_states ≡ w.store.twap_states =
                    ground (arith, m.same_states) in
                  record { prices = rw ep v.prices; windows = rw ew v.windows }
              | inr (f, e2) ↦ absurd (ground arith)
            ]
        | inl (false, w1, e1) ↦
            let f1 = unchanged e1 (deviation_exceeded_same p.price q.price false w w1 e1) in
            elim (Result-cases (merge_observations p q w)) [
              | inl (r, w2, e2) ↦
                  let (same, hr) = merge_observations-IsPrice p q r w w2 hp hq e2 in
                  let f2 = unchanged e2 same in
                  record_price-IsServing env asset r w w' hr v (ground arith)
              | inr (f, e2) ↦ absurd (ground arith)
            ]
        | inr (f, e1) ↦ absurd (ground arith)
      ]

  record_observed-IsServing :
      (env : Env) (asset : Address) (o1 o2 : Option PriceData) (w w' : World W)
      → IsPrice o1
      → IsPrice o2
      → IsServing w.store
      → record_observed x env asset o1 o2 w ≡ ok (tt, w')
      → IsServing w'.store
  unfolding record_observed
  record_observed-IsServing env asset (some p) (some q) w w' h k v e =
      record_both-IsServing env asset p q w w' h k v e
  record_observed-IsServing env asset (some p) none w w' h k v e =
      record_price-IsServing env asset p w w' h v e
  record_observed-IsServing env asset none (some q) w w' h k v e =
      record_price-IsServing env asset q w w' k v e
  record_observed-IsServing env asset none none w w' h k v e = absurd (ground arith)

  canonical_decimals_same :
      (env : Env) (first second asset : Address) (d : ℕ) (w w' : World W)
      → canonical_decimals x env first second asset w ≡ ok (d, w')
      → w' ≡ w
  unfolding canonical_decimals
  canonical_decimals_same env first second asset d w w' e = ground arith

  update_price-IsServing :
      (env : Env) (asset : Address) (w w' : World W)
      → Calls.update_price x env asset w ≡ ok (tt, w')
      → IsServing w.store
      → IsServing w'.store
  unfolding Calls.update_price get_instance
  update_price-IsServing env asset w w' e v = elim (Option-cases w.store.instance_storage) [
    | inl missing ↦ absurd (ground arith)
    | inr (i, es) ↦
        elim (Result-cases (canonical_decimals x env i.primary_oracle i.secondary_oracle asset w)) [
          | inl (d, w1, e1) ↦
              let f1 =
                unchanged e1 (
                  canonical_decimals_same env i.primary_oracle i.secondary_oracle asset d w w1
                    e1) in
              elim (Result-cases
                (fetch_observation x env i.primary_oracle asset d Source.primary w)) [
                  | inl (o1, w2, e2) ↦
                      let (s2, h1) =
                        fetch_observation-IsPrice x env i.primary_oracle asset d Source.primary o1 w
                          w2 e2 in
                      let f2 = unchanged e2 s2 in
                      elim (Result-cases
                        (fetch_observation x env i.secondary_oracle asset d Source.secondary w)) [
                          | inl (o2, w3, e3) ↦
                              let (s3, h2) =
                                fetch_observation-IsPrice x env i.secondary_oracle asset d
                                  Source.secondary o2 w w3 e3 in
                              let f3 = unchanged e3 s3 in
                              record_observed-IsServing env asset o1 o2 w w' h1 h2 v (ground arith)
                          | inr (f, e3) ↦ absurd (ground arith)
                        ]
                  | inr (f, e2) ↦ absurd (ground arith)
                ]
          | inr (f, e1) ↦ absurd (ground arith)
        ]
  ]

  -- Nothing but the price entries matters.
  IsServing-same :
      (s s' : Store)
      → s'.cached_prices ≡ s.cached_prices
      → s'.twap_states ≡ s.twap_states
      → IsServing s
      → IsServing s'
  IsServing-same s s' ep ew v = record { prices = rw ep v.prices; windows = rw ew v.windows }

  set_safe_mode_same :
      (env : Env) (enabled : Bool) (w w' : World W)
      → Calls.set_safe_mode x env enabled w ≡ ok (tt, w')
      → w'.store ≡ w.store
  unfolding Calls.set_safe_mode get_instance set_safe_mode_internal
  set_safe_mode_same env enabled w w' e = ground arith

  apply-IsServing :
      (env : Env) (op : Op) (w w' : World W)
      → apply env op w ≡ ok (tt, w')
      → IsServing w.store
      → IsServing w'.store
  unfolding apply
  apply-IsServing env (initialize admin primary secondary vault) w w' e v =
      IsServing-same w.store w'.store (unfold Calls.initialize in ground arith)
        (unfold Calls.initialize in ground arith) v
  apply-IsServing env (update_price asset) w w' e v = update_price-IsServing env asset w w' e v
  apply-IsServing env (set_safe_mode enabled) w w' e v =
      rw (set_safe_mode_same env enabled w w' e) v
  apply-IsServing env (configure first second twap_window staleness deviation) w w' e v =
      IsServing-same w.store w'.store (unfold Calls.configure in ground arith)
        (unfold Calls.configure in ground arith) v
  apply-IsServing env (upgrade hash) w w' e v =
      IsServing-same w.store w'.store (unfold Calls.upgrade in ground arith)
        (unfold Calls.upgrade in ground arith) v

  commit-IsServing :
      (env : Env) (op : Op) (w : World W)
      → IsServing w.store
      → IsServing (commit (apply env op) w).store
  commit-IsServing env op w v = elim (Result-cases (apply env op w)) [
    | inl (_, w', e) ↦ rw (e, commit) (apply-IsServing env op w w' e v)
    | inr (f, e) ↦ rw (e, commit) v
  ]

  -- Transactions one after another; each finds the other contracts in a state of its own.
  unfoldable pub run : List (W × Env × Op) → Store → Store
  run [] s = s
  run ((o, env, op) ∷ ts) s =
      run ts (commit (apply env op) (record { store = s; outside = o })).store

  run-IsServing : (ts : List (W × Env × Op)) (s : Store) → IsServing s → IsServing (run ts s)
  unfolding run
  run-IsServing [] s v = v
  run-IsServing ((o, env, op) ∷ ts) s v =
      run-IsServing ts _ (commit-IsServing env op (record { store = s; outside = o }) v)

-- The storage of an adaptor just deployed.
abbrev pub fresh : Store
fresh = record {
  instance_storage = none;
  cached_prices = [];
  twap_states = [];
  wasm_hash = 0;
  events = [];
}

average_nonneg : (p : ℤ) (o : Option TwapData) → pos 0 ≤ℤ p → IsWindow o → pos 0 ≤ℤ average_or p o
average_nonneg p none h v = h
average_nonneg p (some t) h v =
    ground (arith, /ℤ_nonneg t.cumulative_price (pos t.num_samples) v.2 (omega arith))

lastprice_nonneg :
    {W : Type 0} (env : Env) (asset : Address) (p : ℤ) (t : ℕ) (w w' : World W)
    → IsServing w.store
    → lastprice env asset w ≡ ok ((p, t), w')
    → pos 0 ≤ℤ p
unfolding lastprice current_twap get_instance
lastprice_nonneg env asset p t w w' v e =
    let hp = Entries-get IsPrice asset w.store.cached_prices v.prices tt in
    let hw = Entries-get IsWindow asset w.store.twap_states v.windows tt in
    elim (Option-cases (get asset w.store.cached_prices)) [
      | inl missing ↦ absurd (ground arith)
      | inr (c, ec) ↦
          let n = average_nonneg c.price (get asset w.store.twap_states) (ground arith) hw in
          ground (arith, n)
    ]

-- Whatever transactions are sent to an adaptor from its deployment on, failed ones included, and
-- whatever the feeds answer: a price that `lastprice` then returns is not negative.
pub lastprice-run_nonneg :
    {W : Type 0} (x : Externals W) (ts : List (W × Env × Op)) (env : Env) (asset : Address) (o : W)
    (p : ℤ) (t : ℕ) (w' : World W)
    → lastprice env asset (record { store = run x ts fresh; outside = o }) ≡ ok ((p, t), w')
    → pos 0 ≤ℤ p
lastprice-run_nonneg x ts env asset o p t w' e =
    let v = run-IsServing x ts fresh (record { prices = tt; windows = tt }) in
    lastprice_nonneg env asset p t (record { store = run x ts fresh; outside = o }) w' v e
