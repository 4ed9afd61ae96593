-- ===== src/Blend/Quotes.antt =====
-- contracts/blend-oracle-adaptor/src/lib.rs: what the feed answers, also over the Helix oracle of
-- contracts/oracle-adaptor/src/lib.rs.
use mathlib.Core.List.{Mem, mem-cons_self, mem-cons_of_mem}
use helix_mongolian_spring.Common.{
  ℕ, ◌-◌, ◌≤◌, ◌≡◌, ◌∙◌, sym, refl, none, some, true, List, [], ◌∷◌, pos, ◌<ℤ◌, ◌==◌, ==_iff,
  if◌then◌else◌, arith, Address, Env, ok, err, World, get, Option-cases, Result-cases, Bool-cases,
  inl, inr,
}
use helix_mongolian_spring.Oracle as Helix
use helix_mongolian_spring.Oracle.Calls as HelixCalls
use helix_mongolian_spring.Oracle.Feeds.{lastprice_fresh}
use helix_mongolian_spring.Blend.{
  Asset, stellar, other, PriceData, Instance, Store, HelixOracle, contains, get_instance, lastprice,
  price, prices,
}

contains_lem :
    (a : Address) (assets : List Asset) → contains a assets ≡ true → Mem (stellar a) assets
unfolding contains
contains_lem a [] h = absurd (ground arith)
contains_lem a (stellar b ∷ assets) h = elim (Bool-cases (b == a)) [
  | inl same ↦ rw ((==_iff b a).0 same) mem-cons_self
  | inr differ ↦ mem-cons_of_mem (stellar b) (contains_lem a assets (ground arith))
]
contains_lem a (other symbol ∷ assets) h = mem-cons_of_mem (other symbol) (contains_lem a assets h)

-- A price that the feed answers.
pub record Quoted {W : Type 0} (x : HelixOracle W) (asset : Asset) (q : PriceData)
    (w w' : World Store W) : Type 0 where
  pub instance_now : Instance
  pub address : Address
  pub initialized : w.store.instance_storage ≡ some instance_now
  pub on_stellar : asset ≡ stellar address
  pub listed : Mem (stellar address) instance_now.assets
  pub answered :
      x.lastprice instance_now.helix_oracle address w.outside ≡ some (q.price, q.timestamp)
  pub positive : pos 0 <ℤ q.price
  pub same : w' ≡ w

module _ {W : Type 0} (x : HelixOracle W) where
  lastprice-Quoted :
      (asset : Asset) (q : PriceData) (w w' : World Store W)
      → lastprice x asset w ≡ ok (some q, w')
      → Quoted x asset q w w'
  unfolding lastprice get_instance
  lastprice-Quoted (other symbol) q w w' e = absurd (ground arith)
  lastprice-Quoted (stellar a) q w w' e = elim (Option-cases w.store.instance_storage) [
    | inl missing ↦ absurd (ground arith)
    | inr (i, es) ↦ elim (Bool-cases (contains a i.assets)) [
      | inr unlisted ↦ absurd (ground arith)
      | inl listed ↦ elim (Option-cases (x.lastprice i.helix_oracle a w.outside)) [
        | inl failed ↦ absurd (ground arith)
        | inr (r, er) ↦ record {
          instance_now = i;
          address = a;
          initialized = es;
          on_stellar = refl;
          listed = contains_lem a i.assets listed;
          answered = ground arith;
          positive = ground arith;
          same = ground arith;
        }
      ]
    ]
  ]

  -- The price at a time is the last price where that has this time, and else none; the prices are the
  -- last price alone, or none where none are asked for.
  pub price-prices :
      (asset : Asset) (q : PriceData) (w w' : World Store W)
      → lastprice x asset w ≡ ok (some q, w')
      → (t records : ℕ)
      → (price x asset t w ≡ ok ((if q.timestamp == t then some q else none), w'))
        × (prices x asset records w ≡ ok ((if records == 0 then none else some (q ∷ [])), w'))
  unfolding price prices
  price-prices asset q w w' e t records =
      let kept = (lastprice-Quoted asset q w w' e).same in ground (arith, kept)

-- The Helix oracle at an address, asked at a time. There is none at another address.
abbrev pub helix : {V : Type 0} → Env → (oracle : Address) → HelixOracle (Helix.World V)
helix env oracle = record {
  lastprice = λ address asset o.
      if address == oracle
      then elim (HelixCalls.lastprice env asset o) [ ok (r, _) ↦ some r | err _ ↦ none ]
      else none;
}

-- A price that the feed answers over the Helix oracle.
pub record Served {V : Type 0} (env : Env) (oracle : Address) (asset : Asset) (q : PriceData)
    (w w' : World Store (Helix.World V)) : Type 0 where
  pub quoted : Quoted (helix env oracle) asset q w w'
  pub cached : Helix.PriceData
  pub oracle_instance : Helix.Instance
  pub oracle_initialized : w.outside.store.instance_storage ≡ some oracle_instance
  pub found : get quoted.address w.outside.store.cached_prices ≡ some cached
  pub timed : q.timestamp ≡ cached.timestamp
  pub young : env.timestamp - q.timestamp ≤ oracle_instance.staleness_threshold

-- Over the Helix oracle, a price that the feed answers is positive, is of an asset on Stellar that the
-- feed lists, and carries the time of the oracle's cached price of that asset, which is no older
-- than the oracle's threshold; nothing is written.
pub lastprice-Served :
    {V : Type 0} (env : Env) (oracle : Address) (asset : Asset) (q : PriceData)
    (w w' : World Store (Helix.World V))
    → lastprice (helix env oracle) asset w ≡ ok (some q, w')
    → Served env oracle asset q w w'
lastprice-Served env oracle asset q w w' e =
    let run = lastprice-Quoted (helix env oracle) asset q w w' e in
    elim (Result-cases (HelixCalls.lastprice env run.address w.outside)) [
      | inl ((p, t), o, eo) ↦
          let (cached, i, ec, es, et, young, kept) =
            lastprice_fresh env run.address p t w.outside o eo in
          let same_time : t ≡ q.timestamp = ground (arith, run.answered) in
          record {
            quoted = run;
            cached = cached;
            oracle_instance = i;
            oracle_initialized = es;
            found = ec;
            timed = sym same_time ∙ et;
            young = omega (arith, same_time, young);
          }
      | inr (f, ef) ↦ absurd (ground (arith, run.answered))
    ]
