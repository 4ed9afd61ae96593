-- ===== src/Bridge/Delivery.antt =====
-- contracts/bridge-handler/src/lib.rs: that an acceptable deposit is processed, and then no more.
use helix_mongolian_spring.Common.{
  ◌/◌, ◌≡◌, ◌≢◌, some, true, false, ℤ, ◌+ℤ◌, ◌≤ℤ◌, in_i128, arith, Address, Bytes, eqb_bytes_refl,
  Env, ok, err, raised, World, Result-cases, inl, inr,
}
use helix_mongolian_spring.Bridge.{
  Instance, Store, Externals, Library, DepositMessage, count_of, current_epoch, get_instance,
  message_already_processed,
}
use helix_mongolian_spring.Bridge.Words.{u256_to_i128}
use helix_mongolian_spring.Bridge.Calls.{recipient_of, process_deposit}

module _ {W : Type 0} (lib : Library) (x : Externals W) where
  current_epoch_now :
      (env : Env) (i : Instance) (w : World Store W)
      → w.store.instance_storage ≡ some i
      → i.epoch_duration ≢ 0
      → current_epoch env w ≡ ok (env.sequence / i.epoch_duration, w)
  unfolding current_epoch get_instance
  current_epoch_now env i w es n = ground arith

  recipient_of_registered :
      (env : Env) (b : Bytes) (a : Address) (w : World Store W)
      → w.store.recipient_mapping b ≡ some a
      → recipient_of lib x env b w ≡ ok (a, w)
  unfolding recipient_of
  recipient_of_registered env b a w e = ground arith

  -- Once a payload's hash is marked, its deposit is refused in any later state of the contracts.
  process_deposit_again :
      (env : Env) (message_id payload h : Bytes) (i : Instance) (d : DepositMessage)
      (w : World Store W)
      → w.store.instance_storage ≡ some i
      → i.paused ≡ false
      → lib.abi_decode_deposit payload ≡ some d
      → w.store.processed_messages h ≡ true
      → process_deposit lib x env message_id payload h w ≡ err (raised message_already_processed)
  unfolding process_deposit
  process_deposit_again env message_id payload h i d w es ep ed em = ground arith

  -- A deposit that decodes, on a handler that is not paused and has not processed it, whose shares fit
  -- the limit of the epoch, whose recipient is registered and whose mint the token accepts, is
  -- processed: the token has minted. The same payload is refused right after, by whatever message
  -- and in whatever ledger it comes.
  pub process_deposit-delivers :
      (env later : Env) (message_id message_id' payload h : Bytes) (i : Instance)
      (d : DepositMessage) (shares : ℤ) (recipient : Address) (w : World Store W) (o o' : W)
      → w.store.instance_storage ≡ some i
      → i.paused ≡ false
      → i.epoch_duration ≢ 0
      → w.store.processed_messages h ≡ false
      → lib.abi_decode_deposit payload ≡ some d
      → u256_to_i128 d.shares ≡ some shares
      → in_i128 (count_of (env.sequence / i.epoch_duration) w.store.epoch_mints +ℤ shares) ≡ true
      → count_of (env.sequence / i.epoch_duration) w.store.epoch_mints +ℤ shares
        ≤ℤ i.max_mint_per_epoch
      → w.store.recipient_mapping d.stellar_recipient ≡ some recipient
      → x.bridge_mint i.token_contract recipient shares w.outside ≡ some o
      → (s : Store) × (process_deposit lib x env message_id payload h w
          ≡ ok (tt, record { store = s; outside = o }))
        × (process_deposit lib x later message_id' payload h (record { store = s; outside = o' })
            ≡ err (raised message_already_processed))
  unfolding process_deposit
  process_deposit-delivers env later m m' p h i d n a w o o' es ep nz em ed en fits le er eo =
      let e1 = current_epoch_now env i w es nz in
      let e2 = recipient_of_registered env d.stellar_recipient a w er in
      elim (Result-cases (process_deposit lib x env m p h w)) [
        | inl (_, w', e) ↦
            let marked : w'.store.processed_messages h ≡ true = ground (arith, eqb_bytes_refl h) in
            let kept : w'.store.instance_storage ≡ some i = ground arith in
            (
              w'.store,
              ground arith,
              process_deposit_again later m' p h i d (record { store = w'.store; outside = o' })
                  kept ep ed marked,
            )
        | inr (f, e) ↦ absurd (ground arith)
      ]
