-- ===== src/Blend/Tests.antt =====
-- contracts/blend-oracle-adaptor/src/lib.rs: a feed over the Helix oracle with one cached price, and the
-- theorems applied to it.
use helix_mongolian_spring.Common.{◌≡◌, refl, some, true, [], ◌∷◌, pos, ◌/ℤ◌, Env, ok, World, get}
use helix_mongolian_spring.Oracle as Helix
use helix_mongolian_spring.Oracle.Calls as HelixCalls
use helix_mongolian_spring.Blend.{
  stellar, other, PriceData, Store, contains, lastprice, quote_of, contains_asset, get_instance,
  require_initialized,
}
use helix_mongolian_spring.Blend.Quotes.{helix, Served, lastprice-Served}

abbrev now : Env
now = record { timestamp = 1100; sequence = 10; current_contract = 0; authorized = λ a. true }

abbrev cache : Helix.World (Unit {0})
cache = record {
  store = record {
    instance_storage = some (record {
      admin = 1;
      primary_oracle = 2;
      secondary_oracle = 3;
      vault_callback = 5;
      twap_window = 1800;
      staleness_threshold = 600;
      deviation_threshold = 500;
    });
    cached_prices =
        (4, some (record { price = pos 101; timestamp = 1000; source = Helix.Source.primary }))
        ∷ [];
    twap_states = [];
    wasm_hash = 0;
    events = [];
  };
  outside = tt;
}

abbrev feed : World Store (Helix.World (Unit {0}))
feed = record {
  store = record {
    instance_storage = some (record {
      admin = 1;
      helix_oracle = 20;
      base_asset = other 0;
      assets = other 7 ∷ stellar 4 ∷ [];
      decimals = 14;
      resolution = 300;
    });
  };
  outside = cache;
}

abbrev quote : PriceData
quote = record { price = pos 101; timestamp = 1000 }

abbrev answered : lastprice (helix now 20) (stellar 4) feed ≡ ok (some quote, feed)
unfolding lastprice quote_of contains_asset contains get_instance require_initialized
    HelixCalls.lastprice HelixCalls.current_twap ◌/ℤ◌ get
answered = refl

lastprice-Served_example : Served now 20 (stellar 4) quote feed feed
lastprice-Served_example = lastprice-Served now 20 (stellar 4) quote feed feed answered
