-- ===== src/Oracle/Prices.antt =====
-- contracts/oracle-adaptor/src/lib.rs: the prices and windows that the adaptor keeps.
use helix_mongolian_spring.Common.{
  ℕ, ◌-◌, ◌^◌, ◌≤◌, ◌<◌, ◌≡◌, inl, inr, some, none, Option, ℤ, pos, negsuc, ◌+ℤ◌, ◌≤ℤ◌, +ℤ_parts,
  /ℤ_nonneg, arith, ok, Address, Env, get, put, leb, leb_ℤ, Entries, Entries-put, Entries-get,
  Option-cases, Result-cases, Bool-cases, unchanged,
}
use helix_mongolian_spring.Oracle.{
  Source, PriceData, TwapData, Store, World, Externals, get_instance, write_cached_price,
  write_twap_state,
}
use helix_mongolian_spring.Oracle.Calls.{
  merge_observations, next_twap_state, observation, fetch_observation, scale_price, record_price,
  answered,
}
use helix_mongolian_spring.Oracle.Scale.{scale_price_lem}

abbrev pub IsPrice : Option PriceData → Type 0
IsPrice none = Unit
IsPrice (some p) = pos 0 ≤ℤ p.price

-- A window holds a sample or more, as many as a u32 can count, of prices that are not negative.
abbrev pub IsWindow : Option TwapData → Type 0
IsWindow none = Unit
IsWindow (some t) =
    (0 < t.num_samples) × (t.num_samples ≤ 2 ^ 32 - 1) × (pos 0 ≤ℤ t.cumulative_price)

pub record IsServing (s : Store) : Type 0 where
  pub prices : Entries IsPrice s.cached_prices
  pub windows : Entries IsWindow s.twap_states

module _ {W : Type 0} where
  next_twap_state-IsWindow :
      (now window : ℕ) (p : ℤ) (found : Option TwapData) (t : TwapData) (w w' : World W)
      → pos 0 ≤ℤ p
      → IsWindow found
      → next_twap_state now window p found w ≡ ok (t, w')
      → (w' ≡ w) × IsWindow (some t)
  unfolding next_twap_state
  next_twap_state-IsWindow now window p none t w w' h v e = (ground arith, ground arith)
  next_twap_state-IsWindow now window p (some s) t w w' h v e =
      (ground arith, ground (arith, +ℤ_parts s.cumulative_price p))

  pub merge_observations-IsPrice :
      (p q r : PriceData) (w w' : World W)
      → IsPrice (some p)
      → IsPrice (some q)
      → merge_observations p q w ≡ ok (r, w')
      → (w' ≡ w) × IsPrice (some r)
  unfolding merge_observations
  merge_observations-IsPrice p q r w w' h k e =
      let sum = +ℤ_parts p.price q.price in
      let nonneg = /ℤ_nonneg (p.price +ℤ q.price) (pos 2) (omega (arith, sum)) (omega arith) in
      (ground arith, ground (arith, nonneg))

  pub record_price-IsServing :
      (env : Env) (asset : Address) (r : PriceData) (w w' : World W)
      → IsPrice (some r)
      → IsServing w.store
      → record_price env asset r w ≡ ok (tt, w')
      → IsServing w'.store
  unfolding record_price get_instance write_cached_price write_twap_state
  record_price-IsServing env asset r w w' h v e = elim (Option-cases w.store.instance_storage) [
    | inl missing ↦ absurd (ground arith)
    | inr (i, es) ↦
        let found = get asset w.store.twap_states in
        let k = Entries-get IsWindow asset w.store.twap_states v.windows tt in
        elim (Result-cases (next_twap_state env.timestamp i.twap_window r.price found w)) [
          | inl (t, w1, e1) ↦
              let (same, n) =
                next_twap_state-IsWindow env.timestamp i.twap_window r.price found t w w1 h k e1 in
              let f1 = unchanged e1 same in
              let ps = Entries-put IsPrice asset (some r) w.store.cached_prices v.prices h in
              let ws = Entries-put IsWindow asset (some t) w.store.twap_states v.windows n in
              let ep : w'.store.cached_prices ≡ put asset (some r) w.store.cached_prices =
                ground arith in
              let ew : w'.store.twap_states ≡ put asset (some t) w.store.twap_states =
                ground arith in
              record { prices = rw ep ps; windows = rw ew ws }
          | inr (f, e1) ↦ absurd (ground arith)
        ]
  ]

scaled_nonneg :
    {W : Type 0} (p q : ℤ) (m n : ℕ) (w w' : World W)
    → pos 0 ≤ℤ p
    → scale_price p m n w ≡ ok (q, w')
    → (w' ≡ w) × (pos 0 ≤ℤ q)
scaled_nonneg (pos p) q m n w w' h e =
    let (same, up, down) = scale_price_lem p m n q w w' e in
    elim (Bool-cases (leb m n)) [
      | inl l ↦ (same, rw (up (ground arith)) (omega arith))
      | inr g ↦ (same, rw (down (ground arith)) (omega arith))
    ]
scaled_nonneg (negsuc p) q m n w w' h e = absurd (omega arith)

module _ {W : Type 0} (x : Externals W) (env : Env) where
  observation-IsPrice :
      (staleness : ℕ) (source : Source) (target d : ℕ) (p : ℤ) (t : ℕ) (o : Option PriceData)
      (w w' : World W)
      → observation x env staleness source target d (p, t) w ≡ ok (o, w')
      → (w' ≡ w) × IsPrice o
  unfolding observation
  observation-IsPrice staleness source target d p t o w w' e = elim (Bool-cases (leb_ℤ p (pos 0))) [
    | inl none_left ↦ (ground arith, ground arith)
    | inr positive ↦ elim (Result-cases (scale_price p d target w)) [
      | inl (q, w1, e1) ↦
          let (same, n) = scaled_nonneg p q d target w w1 (ground arith) e1 in
          (ground arith, ground arith)
      | inr (f, e1) ↦ (ground arith, ground arith)
    ]
  ]

  pub fetch_observation-IsPrice :
      (oracle asset : Address) (target : ℕ) (source : Source) (o : Option PriceData)
      (w w' : World W)
      → fetch_observation x env oracle asset target source w ≡ ok (o, w')
      → (w' ≡ w) × IsPrice o
  unfolding fetch_observation get_instance
  fetch_observation-IsPrice oracle asset target source o w w' e =
      elim (Option-cases w.store.instance_storage) [
        | inl missing ↦ absurd (ground arith)
        | inr (i, es) ↦
            elim (Option-cases
              (answered (x.decimals oracle asset w.outside) (x.lastprice oracle asset w.outside))) [
                | inl silent ↦ (ground arith, ground arith)
                | inr ((d, (p, t)), heard) ↦
                    observation-IsPrice i.staleness_threshold source target d p t o w w'
                      (ground arith)
              ]
      ]
