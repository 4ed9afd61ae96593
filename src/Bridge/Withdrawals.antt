-- ===== src/Bridge/Withdrawals.antt =====
-- contracts/bridge-handler/src/lib.rs: the steps that a withdrawal has gone through when it returns.
use helix_mongolian_spring.Common.{
  ℕ, ◌/◌, ◌≡◌, some, true, false, ℤ, pos, ◌+ℤ◌, ◌≤ℤ◌, [], ◌∷◌, ◌++◌, arith, Address, Bytes, Env, ok,
  put, World, Result-cases, Option-cases, inl, inr, unchanged,
}
use helix_mongolian_spring.Bridge.{
  Instance, Event, Store, Externals, Library, default_gas_amount, count_of, current_epoch,
  get_instance,
}
use helix_mongolian_spring.Bridge.Runs.{current_epoch_lem}
use helix_mongolian_spring.Bridge.Words.{withdrawal_nonce}
use helix_mongolian_spring.Bridge.Calls.{
  initiate_withdrawal, send_withdrawal, encode_withdraw_message,
}

module _ {W : Type 0} (lib : Library) (x : Externals W) (env : Env) where
  -- The message is paid for, and then sent.
  pub send_withdrawal-calls :
      (user : Address) (p : Bytes) (i : Instance) (w w' : World Store W)
      → w.store.instance_storage ≡ some i
      → send_withdrawal lib x env user p w ≡ ok (tt, w')
      → (o : W) × (x.pay_gas i.gas_service env.current_contract i.source_chain i.source_address p
            user
            (record { address = lib.gas_token_address; amount = default_gas_amount })
            []
            w.outside
          ≡ some o)
        × (x.call_contract i.gateway env.current_contract i.source_chain i.source_address p o
            ≡ some w'.outside)
  unfolding send_withdrawal get_instance
  send_withdrawal-calls user p i w w' es e =
      elim (Option-cases (
        x.pay_gas i.gas_service env.current_contract i.source_chain i.source_address p user
          (record { address = lib.gas_token_address; amount = default_gas_amount }) [] w.outside)) [
            | inl failed ↦ absurd (ground arith)
            | inr (o, eo) ↦ (o, eo, ground arith)
          ]

  send_withdrawal_same :
      (user : Address) (payload : Bytes) (w w' : World Store W)
      → send_withdrawal lib x env user payload w ≡ ok (tt, w')
      → w'.store ≡ w.store
  unfolding send_withdrawal get_instance
  send_withdrawal_same user payload w w' e = ground arith

  encode_withdraw_message_same :
      (eth_recipient payload : Bytes) (n : ℤ) (nonce : ℕ) (w w' : World Store W)
      → encode_withdraw_message lib x env eth_recipient n nonce w ≡ ok (payload, w')
      → w' ≡ w
  unfolding encode_withdraw_message
  encode_withdraw_message_same b p n nonce w w' e = ground arith

  pub record WithdrawalRun (user : Address) (shares : ℤ) (eth_recipient : Bytes)
      (w w' : World Store W) : Type 0 where
    pub instance_before : Instance
    pub epoch : ℕ
    pub payload : Bytes
    pub burned : W
    pub initialized : w.store.instance_storage ≡ some instance_before
    pub authorized : env.authorized user ≡ true
    pub running : instance_before.paused ≡ false
    pub enabled : instance_before.withdrawals_enabled ≡ true
    pub nonneg : pos 0 ≤ℤ shares
    pub dated : epoch ≡ env.sequence / instance_before.epoch_duration
    pub within : count_of epoch w.store.epoch_burns +ℤ shares ≤ℤ instance_before.max_burn_per_epoch
    pub burn : x.bridge_burn instance_before.token_contract user shares w.outside ≡ some burned
    pub encoded :
        encode_withdraw_message lib x env eth_recipient shares
          (withdrawal_nonce env.sequence (count_of epoch w.store.epoch_burns))
          (record w { outside = burned })
        ≡ ok (payload, record w { outside = burned })
    pub sent :
        send_withdrawal lib x env user payload (record w { outside = burned })
        ≡ ok (tt, record w { outside = w'.outside })
    pub written : w'.store ≡ record w.store {
      epoch_burns =
          put epoch (some (count_of epoch w.store.epoch_burns +ℤ shares)) w.store.epoch_burns;
      events =
          w.store.events
          ++ Event.withdrawal_initiated user shares eth_recipient (lib.keccak256 payload) ∷ [];
    }

  pub initiate_withdrawal-WithdrawalRun :
      (user : Address) (shares : ℤ) (eth_recipient : Bytes) (w w' : World Store W)
      → initiate_withdrawal lib x env user shares eth_recipient w ≡ ok (tt, w')
      → WithdrawalRun user shares eth_recipient w w'
  unfolding initiate_withdrawal
  initiate_withdrawal-WithdrawalRun user n b w w' e = elim (Option-cases w.store.instance_storage) [
    | inl missing ↦ absurd (ground arith)
    | inr (i, es) ↦ elim (Result-cases (current_epoch env w)) [
      | inl (k, w1, e1) ↦
          let (same1, ek) = current_epoch_lem env k i w w1 es e1 in
          let f1 = unchanged e1 same1 in
          let nonce = withdrawal_nonce env.sequence (count_of k w.store.epoch_burns) in
          elim (Option-cases (x.bridge_burn i.token_contract user n w.outside)) [
            | inl failed ↦ absurd (ground arith)
            | inr (o, eo) ↦
                let u = record w { outside = o } in
                elim (Result-cases (encode_withdraw_message lib x env b n nonce u)) [
                  | inl (p, w2, e2) ↦
                      let f2 = unchanged e2 (encode_withdraw_message_same b p n nonce u w2 e2) in
                      elim (Result-cases (send_withdrawal lib x env user p u)) [
                        | inl (_, w3, e3) ↦
                            let same3 = send_withdrawal_same user p u w3 e3 in
                            record {
                              instance_before = i;
                              epoch = k;
                              payload = p;
                              burned = o;
                              initialized = es;
                              authorized = ground arith;
                              running = ground arith;
                              enabled = ground arith;
                              nonneg = ground arith;
                              dated = ek;
                              within = ground arith;
                              burn = eo;
                              encoded = f2;
                              sent = ground arith;
                              written = ground arith;
                            }
                        | inr (f, e3) ↦ absurd (ground arith)
                      ]
                  | inr (f, e2) ↦ absurd (ground arith)
                ]
          ]
      | inr (f, e1) ↦ absurd (ground arith)
    ]
  ]
