-- ===== src/Oracle/Feeds.antt =====
-- contracts/oracle-adaptor/src/lib.rs: stale prices, and feeds that disagree.
use helix_mongolian_spring.Common.{
  ℕ, ◌-◌, ◌≤◌, ◌≡◌, ◌⊎◌, inl, inr, true, false, some, none, Option, ℤ, arith, ok, Address, Env, get,
  get-put, Option-cases, Result-cases, unchanged, ==_refl, ◌∙◌, Bool,
}
use helix_mongolian_spring.Oracle.{
  PriceData, TwapData, Instance, World, Externals, get_instance, write_cached_price,
  write_twap_state,
}
use helix_mongolian_spring.Oracle.Calls.{
  lastprice, current_twap, deviation_exceeded, merge_observations, record_both, record_price,
  next_twap_state, set_safe_mode_internal,
}

-- Where `lastprice` returns, a price is cached for the asset, its timestamp is the one returned, and it
-- is no older than the threshold. The call writes nothing.
pub lastprice_fresh :
    {W : Type 0} (env : Env) (asset : Address) (p : ℤ) (t : ℕ) (w w' : World W)
    → lastprice env asset w ≡ ok ((p, t), w')
    → (cached : PriceData) × (i : Instance) × (get asset w.store.cached_prices ≡ some cached)
      × (w.store.instance_storage ≡ some i)
      × (t ≡ cached.timestamp)
      × (env.timestamp - t ≤ i.staleness_threshold)
      × (w' ≡ w)
unfolding lastprice current_twap get_instance
lastprice_fresh env asset p t w w' e = elim (Option-cases w.store.instance_storage) [
  | inl missing ↦ absurd (ground arith)
  | inr (i, es) ↦ elim (Option-cases (get asset w.store.cached_prices)) [
    | inl missing ↦ absurd (ground arith)
    | inr (c, ec) ↦ (c, i, ec, es, ground arith, ground arith, ground arith)
  ]
]

module _ {W : Type 0} where
  pub deviation_exceeded_same :
      (a b : ℤ) (d : Bool) (w w' : World W) → deviation_exceeded a b w ≡ ok (d, w') → w' ≡ w
  unfolding deviation_exceeded get_instance
  deviation_exceeded_same a b d w w' e = ground arith

  merge_observations_same :
      (p q r : PriceData) (w w' : World W) → merge_observations p q w ≡ ok (r, w') → w' ≡ w
  unfolding merge_observations
  merge_observations_same p q r w w' e = ground arith

  next_twap_state_same :
      (now window : ℕ) (p : ℤ) (found : Option TwapData) (t : TwapData) (w w' : World W)
      → next_twap_state now window p found w ≡ ok (t, w')
      → w' ≡ w
  unfolding next_twap_state
  next_twap_state_same now window p none t w w' e = ground arith
  next_twap_state_same now window p (some s) t w w' e = ground arith

  record_price_cached :
      (env : Env) (asset : Address) (r : PriceData) (w w' : World W)
      → record_price env asset r w ≡ ok (tt, w')
      → (get asset w'.store.cached_prices ≡ some r) × (w'.outside ≡ w.outside)
  unfolding record_price get_instance write_cached_price write_twap_state
  record_price_cached env asset r w w' e = elim (Option-cases w.store.instance_storage) [
    | inl missing ↦ absurd (ground arith)
    | inr (i, es) ↦
        let found = get asset w.store.twap_states in
        elim (Result-cases (next_twap_state env.timestamp i.twap_window r.price found w)) [
          | inl (t, w1, e1) ↦
              let f1 =
                unchanged e1
                  (next_twap_state_same env.timestamp i.twap_window r.price found t w w1 e1) in
              (
                ground (arith, get-put asset asset (some r) w.store.cached_prices, ==_refl asset),
                ground arith,
              )
          | inr (f, e1) ↦ absurd (ground arith)
        ]
  ]

module _ {W : Type 0} (x : Externals W) (env : Env) where
  -- The prices that the adaptor serves are as before, and the vault was told to pause.
  pub record SafeMode (w w' : World W) : Type 0 where
    pub instance_before : Instance
    pub initialized : w.store.instance_storage ≡ some instance_before
    pub same_prices : w'.store.cached_prices ≡ w.store.cached_prices
    pub same_states : w'.store.twap_states ≡ w.store.twap_states
    pub paused :
        x.pause_by instance_before.vault_callback env.current_contract w.outside ≡ some w'.outside

  pub set_safe_mode_internal-SafeMode :
      (w w' : World W) → set_safe_mode_internal x env true w ≡ ok (tt, w') → SafeMode w w'
  unfolding set_safe_mode_internal get_instance
  set_safe_mode_internal-SafeMode w w' e = elim (Option-cases w.store.instance_storage) [
    | inl missing ↦ absurd (ground arith)
    | inr (i, es) ↦ record {
      instance_before = i;
      initialized = es;
      same_prices = ground arith;
      same_states = ground arith;
      paused = ground arith;
    }
  ]

  SafeMode-same :
      (w w1 w' : World W)
      → SafeMode w w1
      → w'.store.cached_prices ≡ w1.store.cached_prices
      → w'.store.twap_states ≡ w1.store.twap_states
      → w'.outside ≡ w1.outside
      → SafeMode w w'
  SafeMode-same w w1 w' m e f g = record {
    instance_before = m.instance_before;
    initialized = m.initialized;
    same_prices = e ∙ m.same_prices;
    same_states = f ∙ m.same_states;
    paused = rw g m.paused;
  }

  -- Two feeds answered, and the call returned. Either their prices deviate too much: then the prices
  -- that the adaptor serves are as before and the vault was told to pause. Or they do not: then the
  -- merged price is the one cached, and no contract was called.
  pub record_both-cases :
      (asset : Address) (p q : PriceData) (w w' : World W)
      → record_both x env asset p q w ≡ ok (tt, w')
      → ((deviation_exceeded p.price q.price w ≡ ok (true, w)) × SafeMode w w')
        ⊎ ((deviation_exceeded p.price q.price w ≡ ok (false, w))
            × (r : PriceData) × (merge_observations p q w ≡ ok (r, w))
            × (get asset w'.store.cached_prices ≡ some r)
            × (w'.outside ≡ w.outside))
  unfolding record_both
  record_both-cases asset p q w w' e = elim (Result-cases (deviation_exceeded p.price q.price w)) [
    | inl (true, w1, e1) ↦
        let f1 = unchanged e1 (deviation_exceeded_same p.price q.price true w w1 e1) in
        elim (Result-cases (set_safe_mode_internal x env true w)) [
          | inl (_, w2, e2) ↦
              let m = set_safe_mode_internal-SafeMode w w2 e2 in
              inl (f1, SafeMode-same w w2 w' m (ground arith) (ground arith) (ground arith))
          | inr (f, e2) ↦ absurd (ground arith)
        ]
    | inl (false, w1, e1) ↦
        let f1 = unchanged e1 (deviation_exceeded_same p.price q.price false w w1 e1) in
        elim (Result-cases (merge_observations p q w)) [
          | inl (r, w2, e2) ↦
              let f2 = unchanged e2 (merge_observations_same p q r w w2 e2) in
              let (cached, quiet) = record_price_cached env asset r w w' (ground arith) in
              inr (f1, r, f2, cached, quiet)
          | inr (f, e2) ↦ absurd (ground arith)
        ]
    | inr (f, e1) ↦ absurd (ground arith)
  ]
