-- ===== src/Bot/Positions.antt =====
-- liquidation-bot/src/scanner.rs: what is tracked of a user after an event.
use helix_mongolian_spring.Common.{
  ℕ, ◌≡◌, ◌∙◌, ap, sym, refl, Option, none, some, true, false, List, [], ◌∷◌, arith, Bytes,
  eqb_bytes, eqb_bytes_eq, if◌then◌else◌, ◌&&◌, Option-cases, Bool-cases, inl, inr,
}
use helix_mongolian_spring.Bot.{Position, PositionKey, TrackedPosition, Config}
use helix_mongolian_spring.Bot.Scanner.{
  Event, Values, EventRpc, Scanning, is_key, insert_position, without_user, remove_user, asset_of,
  track, scan_user,
}
use helix_mongolian_spring.Bot.Tracking.{asset_of-same}

-- `HashMap::get`
unfoldable pub tracked_at : PositionKey → List TrackedPosition → Option TrackedPosition
tracked_at key [] = none
tracked_at key (t ∷ rest) = if is_key key t then some t else tracked_at key rest

is_key_same :
    (key key' : PositionKey) (t : TrackedPosition)
    → is_key key' t ≡ true
    → is_key key t ≡ (eqb_bytes key'.user key.user && eqb_bytes key'.asset key.asset)
is_key_same key key' t h =
    let user = eqb_bytes_eq t.key.user key'.user (ground arith) in
    let asset = eqb_bytes_eq t.key.asset key'.asset (ground arith) in rw (user, asset) refl

tracked_at-insert_position :
    (key : PositionKey) (t : TrackedPosition) (l : List TrackedPosition)
    → tracked_at key (insert_position t l) ≡ (if is_key key t then some t else tracked_at key l)
unfolding tracked_at insert_position
tracked_at-insert_position key t [] = refl
tracked_at-insert_position key t (u ∷ rest) = elim (Bool-cases (is_key t.key u)) [
  | inl here ↦ let same : is_key key u ≡ is_key key t = is_key_same key t.key u here in ground arith
  | inr there ↦
      let ih = tracked_at-insert_position key t rest in
      elim (Bool-cases (is_key key t)) [
        | inl mine ↦
            let user = eqb_bytes_eq t.key.user key.user (ground arith) in
            let asset = eqb_bytes_eq t.key.asset key.asset (ground arith) in
            let other_key : is_key key u ≡ false = rw (user, asset) at there in
            rw (there, other_key, mine) (rw mine at ih)
        | inr another ↦
            rw (there, another) (ap (λ o. if is_key key u then some u else o) (rw another at ih))
      ]
]

tracked_at-without_user :
    (key : PositionKey) (user : Bytes) (l : List TrackedPosition)
    → tracked_at key (without_user user l)
      ≡ (if eqb_bytes key.user user then none else tracked_at key l)
unfolding tracked_at without_user
tracked_at-without_user key user [] = ground arith
tracked_at-without_user key user (u ∷ rest) =
    let ih = tracked_at-without_user key user rest in
    elim (Bool-cases (eqb_bytes u.key.user user)) [
      | inl gone ↦ elim (Bool-cases (is_key key u)) [
        | inl mine ↦
            let same = eqb_bytes_eq u.key.user key.user (ground arith) in
            let mine_too : eqb_bytes key.user user ≡ true = rw same at gone in
            rw (gone, mine_too) (rw mine_too at ih)
        | inr another ↦ rw (gone, another) ih
      ]
      | inr stays ↦ elim (Bool-cases (is_key key u)) [
        | inl mine ↦
            let same = eqb_bytes_eq u.key.user key.user (ground arith) in
            let kept : eqb_bytes key.user user ≡ false = rw same at stays in
            rw (stays, mine, kept) refl
        | inr another ↦ rw (stays, another) ih
      ]
    ]

-- What is tracked at a key, once the vault has answered with a position of a user or with none.
abbrev pub tracked_after :
    (user asset : Bytes) (ledger : ℕ)
    → Option Position
    → PositionKey
    → Option TrackedPosition
    → Option TrackedPosition
tracked_after user asset ledger (some position) key before =
    let tracked : TrackedPosition = record {
      key = record { user = user; asset = asset };
      position = position;
      last_event_ledger = ledger;
    } in
    if is_key key tracked then some tracked else before
tracked_after user asset ledger none key before = if eqb_bytes key.user user then none else before

module _ {N V : Type 0} (config : Config) (values : Values V) (rpc : EventRpc N V) where
  pub record Tracked (user : Bytes) (event : Event V) (s s' : Scanning N) : Type 0 where
    pub asset : Bytes
    pub found : Option Position
    pub answered : (rpc.get_position config.vault_contract_id user s.network).0 ≡ some found
    pub now :
        (key : PositionKey)
        → tracked_at key s'.state.positions
          ≡ tracked_after user asset event.ledger found key (tracked_at key s.state.positions)
    pub seen_to : s'.state.last_seen_ledger ≡ some event.ledger

  track-tracked_after :
      (user asset : Bytes) (ledger n : ℕ) (found : Option Position) (s s' : Scanning N)
      → track config values rpc user asset ledger found s ≡ (some n, s')
      → (key : PositionKey)
      → tracked_at key s'.state.positions
        ≡ tracked_after user asset ledger found key (tracked_at key s.state.positions)
  unfolding track remove_user
  track-tracked_after user asset ledger n none s s' e key =
      ap (λ p. tracked_at key p.1.state.positions) (sym e)
      ∙ tracked_at-without_user key user s.state.positions
  track-tracked_after user asset ledger n (some p) s s' e key =
      ap (λ p. tracked_at key p.1.state.positions) (sym e)
      ∙ tracked_at-insert_position key _ s.state.positions

  -- An event of a user that the scanner takes to the end: the vault was asked for the user's position.
  -- Where it has one, that is what is tracked of the user and of one asset, and nothing else changed;
  -- where it has none, nothing is tracked of the user, and nothing of the others changed. The ledger
  -- of the event is noted as seen.
  pub scan_user-Tracked :
      (name user : Bytes) (event : Event V) (n : ℕ) (s s' : Scanning N)
      → scan_user config values rpc name user event s ≡ (some n, s')
      → Tracked user event s s'
  unfolding scan_user
  scan_user-Tracked name user event n s s' e =
      let a = asset_of config values rpc name user event.value s in
      let (seen, kept, same) =
        asset_of-same config values rpc name user event.value a.0 s a.1 refl in
      elim (Option-cases a.0) [
        | inl failed ↦ absurd (ground arith)
        | inr (asset, ea) ↦
            let p = rpc.get_position config.vault_contract_id user a.1.network in
            let u = record a.1 { network = p.1 } in
            elim (Option-cases p.0) [
              | inl failed ↦ absurd (ground arith)
              | inr (found, ep) ↦
                  let t = track config values rpc user asset event.ledger found u in
                  elim (Option-cases t.0) [
                    | inl failed ↦ absurd (ground arith)
                    | inr (m, et) ↦
                        let here =
                          track-tracked_after user asset event.ledger m found u t.1
                            (ground arith) in
                        let positions : s'.state.positions ≡ t.1.state.positions = ground arith in
                        record {
                          asset = asset;
                          found = found;
                          answered = rw same at ep;
                          now = λ key.
                              ap (tracked_at key) positions
                              ∙ here key
                              ∙ ap
                                  (λ l.
                                    tracked_after user asset event.ledger found key
                                      (tracked_at key l))
                                  kept;
                          seen_to = ground arith;
                        }
                  ]
            ]
      ]
