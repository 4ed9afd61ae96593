-- ===== src/Bot/Scanner.antt =====
-- liquidation-bot/src/scanner.rs: the positions that the bot tracks, from the vault's events. The values
-- in an event are of the type `V` of another library; `Values` is the parsing of rpc.rs on them.
use helix_mongolian_spring.Common.{
  ℕ, ◌+◌, ◌-◌, ◌^◌, Bool, true, not, ◌&&◌, ◌||◌, Option, none, some, List, [], ◌∷◌, Bytes,
  eqb_bytes, get_elem?, ltb, if◌then◌else◌,
}
use helix_mongolian_spring.Bot.{
  Position, PositionKey, TrackedPosition, Config, Action, pure, fail, ◌>>=◌, ◌>>◌,
}
use helix_mongolian_spring.Bot.Health.{primary_asset_placeholder}

abbrev pub initial_ledger_lookback : ℕ
initial_ledger_lookback = 1000

abbrev pub event_page_limit : ℕ
event_page_limit = 200

-- "deposit", "borrow", "repay", "withdraw" and "liquidation"
abbrev pub deposit_event : Bytes
deposit_event = 100 ∷ 101 ∷ 112 ∷ 111 ∷ 115 ∷ 105 ∷ 116 ∷ []

abbrev pub borrow_event : Bytes
borrow_event = 98 ∷ 111 ∷ 114 ∷ 114 ∷ 111 ∷ 119 ∷ []

abbrev pub repay_event : Bytes
repay_event = 114 ∷ 101 ∷ 112 ∷ 97 ∷ 121 ∷ []

abbrev pub withdraw_event : Bytes
withdraw_event = 119 ∷ 105 ∷ 116 ∷ 104 ∷ 100 ∷ 114 ∷ 97 ∷ 119 ∷ []

abbrev pub liquidation_event : Bytes
liquidation_event = 108 ∷ 105 ∷ 113 ∷ 117 ∷ 105 ∷ 100 ∷ 97 ∷ 116 ∷ 105 ∷ 111 ∷ 110 ∷ []

abbrev pub tracked_events : List Bytes
tracked_events =
    deposit_event ∷ borrow_event ∷ repay_event ∷ withdraw_event ∷ liquidation_event ∷ []

-- `positions` is listed in any order, each key once.
pub record ScannerState : Type 0 where
  pub positions : List TrackedPosition
  pub seen_event_ids : Bytes → Bool
  pub user_assets : Bytes → Option Bytes
  pub last_seen_ledger : Option ℕ
  pub primary_asset : Option Bytes

pub record Event (V : Type 0) : Type 0 where
  pub id : Bytes
  pub topic : List V
  pub value : V
  pub ledger : ℕ

pub record Values (V : Type 0) : Type 0 where
  pub parse_event_name : V → Option Bytes
  pub parse_address : V → Option Bytes
  pub parse_vec : V → Option (List V)

-- The requests of the scanner, as those of `Rpc`.
pub record EventRpc (N V : Type 0) : Type 0 where
  pub read_supported_asset : (vault_contract_id : Bytes) → Action N (Option Bytes)
  pub latest_ledger : Action N ℕ
  pub get_events :
      (from_ledger : ℕ) (contract_id : Bytes) (event_names : List Bytes) (limit : ℕ)
      → Action N (List (Event V))
  pub get_position : (vault_contract_id user : Bytes) → Action N (Option Position)

pub record Scanning (N : Type 0) : Type 0 where
  pub network : N
  pub state : ScannerState

abbrev pub is_key : PositionKey → TrackedPosition → Bool
is_key key tracked = eqb_bytes tracked.key.user key.user && eqb_bytes tracked.key.asset key.asset

-- `HashMap::insert`: in place of the entry with the same key, or a new one.
unfoldable pub insert_position : TrackedPosition → List TrackedPosition → List TrackedPosition
insert_position tracked [] = tracked ∷ []
insert_position tracked (t ∷ rest) =
    let inserted = insert_position tracked rest in
    if is_key tracked.key t then tracked ∷ rest else t ∷ inserted

-- `HashMap::retain` of the other users' entries
unfoldable pub without_user : Bytes → List TrackedPosition → List TrackedPosition
without_user user [] = []
without_user user (t ∷ rest) =
    let others = without_user user rest in if eqb_bytes t.key.user user then others else t ∷ others

unfoldable pub remove_user : Bytes → ScannerState → ScannerState
remove_user user s = record s {
  positions = without_user user s.positions;
  user_assets = λ b. if eqb_bytes b user then none else s.user_assets b;
}

module _ {N : Type 0} where
  abbrev pub request : {A : Type 0} → Action N A → Action (Scanning N) A
  request m s = let r = m s.network in (r.0, record s { network = r.1 })

  abbrev pub gets : {A : Type 0} → (ScannerState → A) → Action (Scanning N) A
  gets f s = (some (f s.state), s)

  abbrev pub modify : (ScannerState → ScannerState) → Action (Scanning N) (Unit {0})
  modify f s = (some tt, record s { state = f s.state })

  -- `?` on a result
  abbrev pub or_fail : {A : Type 0} → Option A → Action (Scanning N) A
  or_fail none = fail
  or_fail (some a) = pure a

module _ {N V : Type 0} (config : Config) (values : Values V) (rpc : EventRpc N V) where
  -- `seen_event_ids.insert`: whether the event is new
  unfoldable pub insert_seen : Bytes → Action (Scanning N) Bool
  insert_seen id = do
    seen ← gets (λ s. s.seen_event_ids id)
    modify
        λ s. record s { seen_event_ids = λ b. if eqb_bytes b id then true else s.seen_event_ids b }
    pure (not seen)

  -- `topic.get(i).map(parse_address).transpose()?`
  unfoldable pub address_at : ℕ → List V → Action (Scanning N) (Option Bytes)
  unfolding get_elem?
  address_at i topic = elim (get_elem? topic i) [
    | none ↦ pure none
    | some value ↦ (do user ← or_fail (values.parse_address value); pure (some user))
  ]

  unfoldable pub user_of : Bytes → List V → Action (Scanning N) (Option Bytes)
  user_of event_name topic =
      if eqb_bytes event_name deposit_event
        || eqb_bytes event_name borrow_event
        || eqb_bytes event_name repay_event
        || eqb_bytes event_name withdraw_event
      then address_at 1 topic
      else if eqb_bytes event_name liquidation_event
      then address_at 2 topic
      else pure none

  abbrev or_else : Option Bytes → Option Bytes → Bytes
  or_else (some asset) primary = asset
  or_else none (some asset) = asset
  or_else none none = primary_asset_placeholder

  unfoldable pub asset_of : Bytes → (user : Bytes) → V → Action (Scanning N) Bytes
  unfolding get_elem?
  asset_of event_name user value =
      if eqb_bytes event_name deposit_event
      then (do
        parsed ← or_fail (values.parse_vec value)
        first_value ← or_fail (get_elem? parsed 0)
        deposit_asset ← or_fail (values.parse_address first_value)
        modify λ s. record s {
          user_assets = λ b. if eqb_bytes b user then some deposit_asset else s.user_assets b;
        }
        pure deposit_asset)
      else gets (λ s. or_else (s.user_assets user) s.primary_asset)

  -- the `match` on the position
  unfoldable pub track : (user asset : Bytes) → ℕ → Option Position → Action (Scanning N) ℕ
  unfolding insert_position remove_user
  track user asset ledger (some position) = do
    modify λ s. record s {
      positions =
          insert_position
            (record {
              key = record { user = user; asset = asset };
              position = position;
              last_event_ledger = ledger;
            })
            s.positions;
    }
    pure 1
  track user asset ledger none = do modify (remove_user user); pure 0

  unfoldable pub scan_user : (event_name user : Bytes) → Event V → Action (Scanning N) ℕ
  scan_user event_name user event = do
    asset ← asset_of event_name user event.value
    position ← request (rpc.get_position config.vault_contract_id user)
    updates ← track user asset event.ledger position
    modify λ s. record s { last_seen_ledger = some event.ledger }
    pure updates

  -- an event that was not seen before
  unfoldable pub scan_new : Event V → Action (Scanning N) ℕ
  scan_new event = elim event.topic [
    | [] ↦ pure 0
    | first_topic ∷ topics ↦ (do
      event_name ← or_fail (values.parse_event_name first_topic)
      user ← user_of event_name event.topic
      elim user [ none ↦ pure 0 | some user ↦ scan_user event_name user event ])
  ]

  -- one round of the loop: the number of updates
  unfoldable pub scan_event : Event V → Action (Scanning N) ℕ
  scan_event event = do new ← insert_seen event.id; if new then scan_new event else pure 0

  unfoldable pub scan_events : List (Event V) → Action (Scanning N) ℕ
  scan_events [] = pure 0
  scan_events (event ∷ events) = do
    n ← scan_event event
    updates ← scan_events events
    pure (n + updates)

  -- `saturating_add(1)` on a u64, or where the first scan starts
  abbrev pub from_ledger_of : Option ℕ → ℕ → ℕ
  from_ledger_of (some ledger) latest_ledger =
      if ltb ledger (2 ^ 64 - 1) then ledger + 1 else 2 ^ 64 - 1
  from_ledger_of none latest_ledger = elim config.start_ledger [
    | some ledger ↦ ledger
    | none ↦ latest_ledger - initial_ledger_lookback
  ]

  unfoldable pub read_primary_asset : Action (Scanning N) (Unit {0})
  read_primary_asset s = elim s.state.primary_asset [
    | some asset ↦ pure tt s
    | none ↦
        (do
          asset ← request (rpc.read_supported_asset config.vault_contract_id)
          modify λ t. record t { primary_asset = asset })
          s
  ]

  unfoldable pub scan : Action (Scanning N) ℕ
  scan = do
    read_primary_asset
    latest_ledger ← request rpc.latest_ledger
    last_seen_ledger ← gets (λ s. s.last_seen_ledger)
    events ← request (
        rpc.get_events (from_ledger_of last_seen_ledger latest_ledger) config.vault_contract_id
          tracked_events event_page_limit)
    updates ← scan_events events
    modify λ s. record s {
      last_seen_ledger = elim s.last_seen_ledger [
        | none ↦ some latest_ledger
        | some ledger ↦ some ledger
      ];
    }
    pure updates
