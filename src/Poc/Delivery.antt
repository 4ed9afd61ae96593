-- ===== src/Poc/Delivery.antt =====
-- contracts/bridge-poc/src/lib.rs: a text that was sent, at its receiver.
use helix_mongolian_spring.Common.{
  ℕ, zero, suc, ◌≤◌, ◌≡◌, refl, some, true, arith, Bool-cases, ltb, Address, Bytes, length, Env, ok,
  World, [], Result-cases, Option-cases, inl, inr,
}
use helix_mongolian_spring.System.{Axelar}
use helix_mongolian_spring.Poc.{
  Instance, Store, Library, zeros, prefix, message_to_bytes, bytes_to_message, get_instance,
  default_gas_amount, send_message, execute, received_message,
}

-- What the SDK and the standard library document: a text fills a slice of its length, a slice becomes the
-- bytes that it holds, a buffer that is large enough holds the bytes put into it, and the text of bytes
-- that are UTF-8 has these bytes.
pub record IsDocumented (lib : Library) : Type 0 where
  pub copied :
      (message slice : Bytes)
      → length slice ≡ length message
      → lib.copy_into_slice message slice ≡ some message
  pub sliced : (slice : Bytes) → lib.from_slice slice ≡ slice
  pub buffered : (size : ℕ) (b : Bytes) → length b ≤ size → lib.to_buffer size b ≡ some b
  pub read : (b : Bytes) → lib.is_utf8 b ≡ true → lib.from_str b ≡ b

length-prefix : (n m : ℕ) → n ≤ m → length (prefix n (zeros m)) ≡ n
unfolding length prefix zeros
length-prefix zero m h = refl
length-prefix (suc n) zero h = absurd (omega arith)
length-prefix (suc n) (suc m) h = omega (arith, length-prefix n m (omega arith))

module _ {A : Type 0} (lib : Library) (x : Axelar A) (documented : IsDocumented lib) where
  -- The bytes of a text that is neither empty nor too long.
  message_to_bytes-message :
      (env : Env) (message payload : Bytes) (w w' : World Store A)
      → message_to_bytes lib x env message w ≡ ok (payload, w')
      → (payload ≡ message) × (w' ≡ w) × (length message ≤ 1024)
  unfolding message_to_bytes
  message_to_bytes-message env message payload w w' e =
      elim (Bool-cases (ltb 1024 (length message))) [
        | inl long ↦ absurd (ground arith)
        | inr short ↦
            let fits : length message ≤ 1024 = ground arith in
            let filled =
              documented.copied message (prefix (length message) (zeros 1024))
                (length-prefix (length message) 1024 fits) in
            let same = documented.sliced message in ground arith
      ]

  -- A text that is not too long comes out of the bytes that it has.
  bytes_to_message-message :
      (env : Env) (message : Bytes) (w : World Store A)
      → length message ≤ 1024
      → lib.is_utf8 message ≡ true
      → bytes_to_message lib x env message w ≡ ok (message, w)
  unfolding bytes_to_message
  bytes_to_message-message env message w short utf =
      let held = documented.buffered 1024 message short in
      let same = documented.read message utf in ground arith

  send_message-sent :
      (env : Env) (caller : Address) (chain address message : Bytes) (i : Instance)
      (w w' : World Store A)
      → w.store.instance_storage ≡ some i
      → send_message lib x env caller chain address message w ≡ ok (tt, w')
      → (length message ≤ 1024)
        × ((paid : A) × (x.call_contract i.gateway env.current_contract chain address message paid
              ≡ some w'.outside))
  unfolding send_message get_instance
  send_message-sent env caller chain address message i w w' es e =
      elim (Result-cases (message_to_bytes lib x env message w)) [
        | inr (f, e1) ↦ absurd (ground arith)
        | inl (payload, w1, e1) ↦
            let (same, still, short) = message_to_bytes-message env message payload w w1 e1 in
            elim (Option-cases (
              x.pay_gas i.gas_service env.current_contract chain address message caller
                (record { address = lib.gas_token_address; amount = default_gas_amount }) []
                w.outside)) [
                  | inl failed ↦ absurd (ground arith)
                  | inr (paid, ep) ↦ (short, (paid, ground arith))
                ]
      ]

  execute_received :
      (env : Env) (message chain id address : Bytes) (j : Instance) (v : World Store A) (o : A)
      → length message ≤ 1024
      → lib.is_utf8 message ≡ true
      → v.store.instance_storage ≡ some j
      → x.validate_message j.gateway env.current_contract chain id address
          (lib.keccak256 message)
          v.outside
        ≡ some (true, o)
      → (v' : World Store A) × (execute lib x env chain id address message v ≡ ok (tt, v'))
        × (v'.store.instance_storage ≡ v.store.instance_storage)
        × (received_message v' ≡ ok (some message, v'))
  unfolding execute received_message get_instance
  execute_received env message chain id address j v o short utf ev approved =
      let shown = bytes_to_message-message env message (record v { outside = o }) short utf in
      elim (Result-cases (execute lib x env chain id address message v)) [
        | inl (_, v', e) ↦ (v', e, ground arith, ground arith)
        | inr (f, e) ↦ absurd (ground arith)
      ]

  -- Where the host copies, slices and buffers bytes as the SDK documents: a text that one contract sent is
  -- the payload that its gateway was given. Where that payload is brought to a contract, whose gateway
  -- approves it, and is UTF-8, the call returns, what the constructor wrote is unchanged, and the last
  -- message is the text that was sent.
  pub send_message-execute :
      (env env' : Env) (caller : Address) (chain address message from_chain id from_address : Bytes)
      (i j : Instance) (w w' v : World Store A) (o : A)
      → w.store.instance_storage ≡ some i
      → send_message lib x env caller chain address message w ≡ ok (tt, w')
      → lib.is_utf8 message ≡ true
      → v.store.instance_storage ≡ some j
      → x.validate_message j.gateway env'.current_contract from_chain id from_address
          (lib.keccak256 message)
          v.outside
        ≡ some (true, o)
      → ((paid : A) × (x.call_contract i.gateway env.current_contract chain address message paid
            ≡ some w'.outside))
        × ((v' : World Store A) × (execute lib x env' from_chain id from_address message v
              ≡ ok (tt, v'))
            × (v'.store.instance_storage ≡ v.store.instance_storage)
            × (received_message v' ≡ ok (some message, v')))
  send_message-execute env env' caller chain address message from id sender i j w w' v o es e utf ev
        approved =
      let (short, sent) = send_message-sent env caller chain address message i w w' es e in
      (sent, execute_received env' message from id sender j v o short utf ev approved)
