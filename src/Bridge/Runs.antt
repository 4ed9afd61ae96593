-- ===== src/Bridge/Runs.antt =====
-- contracts/bridge-handler/src/lib.rs: the steps that a processed message and a withdrawal have gone
-- through when they return.
use helix_mongolian_spring.Common.{
  ℕ, ◌/◌, ◌≡◌, some, true, false, ℤ, ◌+ℤ◌, ◌≤ℤ◌, [], ◌∷◌, ◌++◌, arith, Address, Bytes, eqb_bytes,
  if◌then◌else◌, Env, ok, put, World, Result-cases, Option-cases, inl, inr, unchanged,
}
use helix_mongolian_spring.Bridge.{
  Instance, Event, Store, Externals, Library, DepositMessage, YieldUpdateMessage, count_of,
  current_epoch, get_instance,
}
use helix_mongolian_spring.Bridge.Words.{u256_to_i128}
use helix_mongolian_spring.Bridge.Calls.{recipient_of, process_deposit, process_yield_update}

module _ {W : Type 0} where
  -- An epoch is a count of whole durations since ledger 0.
  pub current_epoch_lem :
      (env : Env) (epoch : ℕ) (i : Instance) (w w' : World Store W)
      → w.store.instance_storage ≡ some i
      → current_epoch env w ≡ ok (epoch, w')
      → (w' ≡ w) × (epoch ≡ env.sequence / i.epoch_duration)
  unfolding current_epoch get_instance
  current_epoch_lem env epoch i w w' es e = ground arith

-- The storage with a message marked as processed.
abbrev pub with_processed : Bytes → Store → Store
with_processed payload_hash s = record s {
  processed_messages = λ h. if eqb_bytes h payload_hash then true else s.processed_messages h;
}

module _ {W : Type 0} (lib : Library) (x : Externals W) (env : Env) where
  recipient_of_same :
      (b : Bytes) (a : Address) (w w' : World Store W)
      → recipient_of lib x env b w ≡ ok (a, w')
      → w' ≡ w
  unfolding recipient_of
  recipient_of_same b a w w' e = elim (Option-cases (w.store.recipient_mapping b)) [
    | inl missing ↦ ground arith
    | inr (r, er) ↦ ground arith
  ]

  pub record DepositRun (message_id payload payload_hash : Bytes) (w w' : World Store W)
      : Type 0 where
    pub decoded : DepositMessage
    pub shares : ℤ
    pub epoch : ℕ
    pub recipient : Address
    pub instance_before : Instance
    pub initialized : w.store.instance_storage ≡ some instance_before
    pub message : lib.abi_decode_deposit payload ≡ some decoded
    pub running : instance_before.paused ≡ false
    pub new : w.store.processed_messages payload_hash ≡ false
    pub word : u256_to_i128 decoded.shares ≡ some shares
    pub dated : epoch ≡ env.sequence / instance_before.epoch_duration
    pub within : count_of epoch w.store.epoch_mints +ℤ shares ≤ℤ instance_before.max_mint_per_epoch
    pub minted :
        x.bridge_mint instance_before.token_contract recipient shares w.outside ≡ some w'.outside
    pub written : w'.store ≡ record (with_processed payload_hash w.store) {
      epoch_mints =
          put epoch (some (count_of epoch w.store.epoch_mints +ℤ shares)) w.store.epoch_mints;
      events =
          w.store.events ++ Event.deposit_processed recipient shares message_id payload_hash ∷ [];
    }

  pub process_deposit-DepositRun :
      (message_id payload payload_hash : Bytes) (w w' : World Store W)
      → process_deposit lib x env message_id payload payload_hash w ≡ ok (tt, w')
      → DepositRun message_id payload payload_hash w w'
  unfolding process_deposit
  process_deposit-DepositRun message_id payload payload_hash w w' e =
      elim (Option-cases (lib.abi_decode_deposit payload)) [
        | inl undecoded ↦ absurd (ground arith)
        | inr (d, ed) ↦ elim (Option-cases w.store.instance_storage) [
          | inl missing ↦ absurd (ground arith)
          | inr (i, es) ↦ elim (Option-cases (u256_to_i128 d.shares)) [
            | inl too_large ↦ absurd (ground arith)
            | inr (n, en) ↦ elim (Result-cases (current_epoch env w)) [
              | inl (k, w1, e1) ↦
                  let (same1, ek) = current_epoch_lem env k i w w1 es e1 in
                  let f1 = unchanged e1 same1 in
                  elim (Result-cases (recipient_of lib x env d.stellar_recipient w)) [
                    | inl (a, w2, e2) ↦
                        let f2 = unchanged e2 (recipient_of_same d.stellar_recipient a w w2 e2) in
                        elim (Option-cases (x.bridge_mint i.token_contract a n w.outside)) [
                          | inl failed ↦ absurd (ground arith)
                          | inr (o, eo) ↦ record {
                            decoded = d;
                            shares = n;
                            epoch = k;
                            recipient = a;
                            instance_before = i;
                            initialized = es;
                            message = ed;
                            running = ground arith;
                            new = ground arith;
                            word = en;
                            dated = ek;
                            within = ground arith;
                            minted = ground arith;
                            written = ground arith;
                          }
                        ]
                    | inr (f, e2) ↦ absurd (ground arith)
                  ]
              | inr (f, e1) ↦ absurd (ground arith)
            ]
          ]
        ]
      ]

  pub record YieldRun (message_id payload payload_hash : Bytes) (w w' : World Store W)
      : Type 0 where
    pub decoded : YieldUpdateMessage
    pub new_total_assets : ℤ
    pub instance_before : Instance
    pub initialized : w.store.instance_storage ≡ some instance_before
    pub message : lib.abi_decode_yield_update payload ≡ some decoded
    pub running : instance_before.paused ≡ false
    pub new : w.store.processed_messages payload_hash ≡ false
    pub word : u256_to_i128 decoded.exchange_rate ≡ some new_total_assets
    pub updated :
        x.update_exchange_rate instance_before.token_contract new_total_assets w.outside
        ≡ some w'.outside
    pub written : w'.store ≡ record (with_processed payload_hash w.store) {
      events = w.store.events ++ Event.yield_updated new_total_assets message_id payload_hash ∷ [];
    }

  pub process_yield_update-YieldRun :
      (message_id payload payload_hash : Bytes) (w w' : World Store W)
      → process_yield_update lib x env message_id payload payload_hash w ≡ ok (tt, w')
      → YieldRun message_id payload payload_hash w w'
  unfolding process_yield_update
  process_yield_update-YieldRun message_id payload payload_hash w w' e =
      elim (Option-cases (lib.abi_decode_yield_update payload)) [
        | inl undecoded ↦ absurd (ground arith)
        | inr (d, ed) ↦ elim (Option-cases w.store.instance_storage) [
          | inl missing ↦ absurd (ground arith)
          | inr (i, es) ↦ elim (Option-cases (u256_to_i128 d.exchange_rate)) [
            | inl too_large ↦ absurd (ground arith)
            | inr (n, en) ↦
                elim (Option-cases (x.update_exchange_rate i.token_contract n w.outside)) [
                  | inl failed ↦ absurd (ground arith)
                  | inr (o, eo) ↦ record {
                    decoded = d;
                    new_total_assets = n;
                    instance_before = i;
                    initialized = es;
                    message = ed;
                    running = ground arith;
                    new = ground arith;
                    word = en;
                    updated = ground arith;
                    written = ground arith;
                  }
                ]
          ]
        ]
      ]
