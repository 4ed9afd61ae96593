-- ===== src/Bot/Tracking.antt =====
-- liquidation-bot/src/scanner.rs: what an event does to the tracked positions, and what an error leaves.
use helix_mongolian_spring.Common.{
  ℕ, ◌≡◌, ◌∙◌, ap, sym, refl, Option, none, some, true, false, List, arith, Bytes, eqb_bytes,
  eqb_bytes_refl, if◌then◌else◌, Option-cases, List-cases, Bool-cases, inl, inr,
}
use helix_mongolian_spring.Bot.{Position, Config}
use helix_mongolian_spring.Bot.Scanner.{
  Event, Values, EventRpc, Scanning, remove_user, address_at, user_of, asset_of, track, scan_user,
  scan_new, scan_event, insert_seen,
}

some≢none : {A : Type 0} {a : A} → ¬ (some a ≡ none)
some≢none e = ground arith

module _ {N V : Type 0} (config : Config) (values : Values V) (rpc : EventRpc N V) where
  user_of-same :
      (name : Bytes) (topic : List V) (r : Option (Option Bytes)) (s s' : Scanning N)
      → user_of config values rpc name topic s ≡ (r, s')
      → s' ≡ s
  unfolding user_of address_at
  user_of-same name topic r s s' e = ground arith

  -- The asset of a user may be written, and nothing else.
  pub asset_of-same :
      (name user : Bytes) (value : V) (r : Option Bytes) (s s' : Scanning N)
      → asset_of config values rpc name user value s ≡ (r, s')
      → (s'.state.seen_event_ids ≡ s.state.seen_event_ids)
        × (s'.state.positions ≡ s.state.positions)
        × (s'.network ≡ s.network)
  unfolding asset_of
  asset_of-same name user value r s s' e = ground arith

  track-seen :
      (user asset : Bytes) (ledger : ℕ) (found : Option Position) (r : Option ℕ) (s s' : Scanning N)
      → track config values rpc user asset ledger found s ≡ (r, s')
      → s'.state.seen_event_ids ≡ s.state.seen_event_ids
  unfolding track remove_user
  track-seen user asset ledger none r s s' e = ground arith
  track-seen user asset ledger (some p) r s s' e = ground arith

  scan_user-seen :
      (name user : Bytes) (event : Event V) (r : Option ℕ) (s s' : Scanning N)
      → scan_user config values rpc name user event s ≡ (r, s')
      → s'.state.seen_event_ids ≡ s.state.seen_event_ids
  unfolding scan_user
  scan_user-seen name user event r s s' e =
      let a = asset_of config values rpc name user event.value s in
      let kept = (asset_of-same name user event.value a.0 s a.1 refl).0 in
      elim (Option-cases a.0) [
        | inl failed ↦ ground arith
        | inr (asset, ea) ↦
            let p = rpc.get_position config.vault_contract_id user a.1.network in
            let u = record a.1 { network = p.1 } in
            elim (Option-cases p.0) [
              | inl failed ↦ ground arith
              | inr (found, ep) ↦
                  let t = track config values rpc user asset event.ledger found u in
                  let kept' = track-seen user asset event.ledger found t.0 u t.1 refl in
                  elim (Option-cases t.0) [ inl failed ↦ ground arith | inr (n, et) ↦ ground arith ]
            ]
      ]

  scan_new-seen :
      (event : Event V) (r : Option ℕ) (s s' : Scanning N)
      → scan_new config values rpc event s ≡ (r, s')
      → s'.state.seen_event_ids ≡ s.state.seen_event_ids
  unfolding scan_new
  scan_new-seen event r s s' e = elim (List-cases event.topic) [
    | inl empty ↦ ground arith
    | inr (first_topic, topics, et) ↦ elim (Option-cases (values.parse_event_name first_topic)) [
      | inl unnamed ↦ ground arith
      | inr (name, en) ↦
          let u = user_of config values rpc name event.topic s in
          let same = user_of-same name event.topic u.0 s u.1 refl in
          elim (Option-cases u.0) [
            | inl failed ↦ ground arith
            | inr (found, eu) ↦ elim (Option-cases found) [
              | inl nobody ↦ ground arith
              | inr (user, ef) ↦
                  let done = scan_user-seen name user event r u.1 s' (ground arith) in ground arith
            ]
          ]
    ]
  ]

  abbrev with_seen : Bytes → Scanning N → Scanning N
  with_seen id s = record s {
    state = record s.state {
      seen_event_ids = λ b. if eqb_bytes b id then true else s.state.seen_event_ids b;
    };
  }

  scan_event-scan_new :
      (event : Event V) (s : Scanning N)
      → s.state.seen_event_ids event.id ≡ false
      → scan_event config values rpc event s
        ≡ scan_new config values rpc event (with_seen event.id s)
  unfolding scan_event insert_seen
  scan_event-scan_new event s new = rw new refl

  scan_event_old :
      (event : Event V) (s : Scanning N)
      → s.state.seen_event_ids event.id ≡ true
      → scan_event config values rpc event s ≡ (some 0, with_seen event.id s)
  unfolding scan_event insert_seen
  scan_event_old event s old = rw old refl

  -- An event that ends in an error is marked as seen all the same: read again, it changes no tracked
  -- position, no network and no ledger, and counts no update.
  pub scan_event-again :
      (event : Event V) (s s' s'' : Scanning N) (r : Option ℕ)
      → scan_event config values rpc event s ≡ (none, s')
      → scan_event config values rpc event s' ≡ (r, s'')
      → (r ≡ some 0)
        × (s''.network ≡ s'.network)
        × (s''.state.positions ≡ s'.state.positions)
        × (s''.state.last_seen_ledger ≡ s'.state.last_seen_ledger)
  scan_event-again event s s' s'' r e f = elim (Bool-cases (s.state.seen_event_ids event.id)) [
    | inl old ↦ absurd (some≢none (ap (λ p. p.0) (sym (scan_event_old event s old) ∙ e)))
    | inr new ↦
        let kept =
          scan_new-seen event none (with_seen event.id s) s'
            (sym (scan_event-scan_new event s new) ∙ e) in
        let seen : s'.state.seen_event_ids event.id ≡ true =
          ap (λ g. g event.id) kept ∙ rw (eqb_bytes_refl event.id) refl in
        let done = sym f ∙ scan_event_old event s' seen in
        (
          ap (λ p. p.0) done,
          ap (λ p. p.1.network) done,
          ap (λ p. p.1.state.positions) done,
          ap (λ p. p.1.state.last_seen_ledger) done,
        )
  ]
