-- ===== src/Oracle/Tests.antt =====
-- contracts/oracle-adaptor/src/lib.rs: an adaptor with two feeds on concrete inputs, and the theorems
-- applied to it.
use helix_mongolian_spring.Common.{
  put, List, ℕ, ◌≡◌, ◌⊎◌, ◌≤◌, ◌-◌, ◌+◌, ◌*◌, ◌/◌, ◌^◌, refl, some, true, false, [], ◌∷◌, pos, ◌+ℤ◌,
  ◌-ℤ◌, ◌*ℤ◌, ◌/ℤ◌, ◌≤ℤ◌, in_i128, arith, Address, Env, ok, commit, get,
}
use helix_mongolian_spring.Oracle.{
  Source, PriceData, TwapData, Instance, World, Externals, get_instance, write_cached_price,
  write_twap_state,
}
use helix_mongolian_spring.Oracle.Calls.{
  average_or, scale_price, scale_up, merge_observations, deviation_exceeded, next_twap_state,
  lastprice, current_twap, record_both, set_safe_mode_internal, record_price, canonical_decimals,
  fetch_observation, observation, record_observed,
}
use helix_mongolian_spring.Oracle.Calls
use helix_mongolian_spring.Oracle.Reach.{Op, apply, run, fresh, lastprice-run_nonneg}
use helix_mongolian_spring.Oracle.Average.{next_twap_state_between}
use helix_mongolian_spring.Oracle.Scale.{scale_price_lem}
use helix_mongolian_spring.Oracle.Feeds.{lastprice_fresh, SafeMode, record_both-cases}

abbrev asset : Address
asset = 4

-- The other contracts keep a count of the pauses.
abbrev feeds : Externals ℕ
feeds = record {
  lastprice = λ oracle asset o. some (pos 10000000, 1000);
  decimals = λ oracle asset o. some 7;
  pause_by = λ vault caller o. some (o + 1);
  unpause_by = λ vault caller o. some o;
}

abbrev now : Env
now = record { timestamp = 1100; sequence = 10; current_contract = 0; authorized = λ a. true }

abbrev adaptor : Instance
adaptor = record {
  admin = 1;
  primary_oracle = 2;
  secondary_oracle = 3;
  vault_callback = 5;
  twap_window = 1800;
  staleness_threshold = 600;
  deviation_threshold = 500;
}

abbrev quote : ℕ → ℕ → PriceData
quote price timestamp = record { price = pos price; timestamp = timestamp; source = Source.primary }

abbrev samples : TwapData
samples = record { cumulative_price = pos 300; num_samples = 3; window_start = 900 }

abbrev serving : World ℕ
serving = record {
  store = record {
    instance_storage = some adaptor;
    cached_prices = (asset, some (quote 101 1000)) ∷ [];
    twap_states = (asset, some samples) ∷ [];
    wasm_hash = 0;
    events = [];
  };
  outside = 0;
}

scaled : scale_price (pos 12345) 2 4 serving ≡ ok (pos 1234500, serving)
unfolding scale_price scale_up ◌*ℤ◌ in_i128
scaled = refl

scale_price_lem_example :
    (serving ≡ serving)
    × (2 ≤ 4 → pos 1234500 ≡ pos (12345 * 10 ^ (4 - 2)))
    × (4 ≤ 2 → pos 1234500 ≡ pos (12345 / 10 ^ (2 - 4)))
scale_price_lem_example = scale_price_lem 12345 2 4 (pos 1234500) serving serving scaled

abbrev sampled : TwapData
sampled = record { cumulative_price = pos 410; num_samples = 4; window_start = 900 }

counted : next_twap_state 1100 1800 (pos 110) (some samples) serving ≡ ok (sampled, serving)
unfolding next_twap_state ◌+ℤ◌ in_i128
counted = refl

next_twap_state_between_example :
    (4 ≡ 3 + 1)
    × (average_or (pos 110) (some sampled) ≡ pos ((300 + 110) / (3 + 1)))
    × ((300 / 3 ≤ (300 + 110) / (3 + 1) × (300 + 110) / (3 + 1) ≤ 110)
        ⊎ (110 ≤ (300 + 110) / (3 + 1) × (300 + 110) / (3 + 1) ≤ 300 / 3))
next_twap_state_between_example =
    next_twap_state_between 1100 1800 300 3 110 samples sampled serving serving refl refl
      (omega arith) (omega arith) (omega arith) counted

served : lastprice now asset serving ≡ ok ((pos 100, 1000), serving)
unfolding lastprice current_twap ◌/ℤ◌ get
served = refl

lastprice_fresh_example :
    (cached : PriceData) × (i : Instance) × (get asset serving.store.cached_prices ≡ some cached)
    × (serving.store.instance_storage ≡ some i)
    × (1000 ≡ cached.timestamp)
    × (1100 - 1000 ≤ i.staleness_threshold)
    × (serving ≡ serving)
lastprice_fresh_example = lastprice_fresh now asset (pos 100) 1000 serving serving served

abbrev after_dispute : World ℕ
after_dispute = commit (record_both feeds now asset (quote 100 1050) (quote 120 1000)) serving

disputed :
    record_both feeds now asset (quote 100 1050) (quote 120 1000) serving ≡ ok (tt, after_dispute)
unfolding record_both deviation_exceeded set_safe_mode_internal get_instance ◌-ℤ◌ ◌*ℤ◌ ◌/ℤ◌ in_i128
disputed = refl

record_both-cases_example :
    ((deviation_exceeded (pos 100) (pos 120) serving ≡ ok (true, serving))
      × SafeMode feeds now serving after_dispute)
    ⊎ ((deviation_exceeded (pos 100) (pos 120) serving ≡ ok (false, serving))
        × (r : PriceData) × (merge_observations (quote 100 1050) (quote 120 1000) serving
            ≡ ok (r, serving))
        × (get asset after_dispute.store.cached_prices ≡ some r)
        × (after_dispute.outside ≡ serving.outside))
record_both-cases_example =
    record_both-cases feeds now asset (quote 100 1050) (quote 120 1000) serving after_dispute
      disputed

abbrev history : List (ℕ × Env × Op)
history = (0, now, Op.initialize 1 2 3 5) ∷ (0, now, Op.update_price asset) ∷ []

abbrev standing : World ℕ
standing = record { store = run feeds history fresh; outside = 0 }

quoted : lastprice now asset standing ≡ ok ((pos 10000000, 1000), standing)
unfolding run apply Calls.initialize Calls.update_price canonical_decimals fetch_observation
    observation scale_price record_observed record_both deviation_exceeded merge_observations
    record_price next_twap_state lastprice current_twap get_instance write_cached_price
    write_twap_state ◌+ℤ◌ ◌-ℤ◌ ◌*ℤ◌ ◌/ℤ◌ in_i128 get put
quoted = refl

lastprice-run_nonneg_example : pos 0 ≤ℤ pos 10000000
lastprice-run_nonneg_example =
    lastprice-run_nonneg feeds history now asset 0 (pos 10000000) 1000 standing quoted
