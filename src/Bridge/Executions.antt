-- ===== src/Bridge/Executions.antt =====
-- contracts/bridge-handler/src/lib.rs: the steps that an executed message has gone through.
use helix_mongolian_spring.Common.{
  ℕ, ◌≡◌, ◌⊎◌, refl, some, true, arith, Bytes, eqb_bytes_eq, ◌==◌, Env, ok, World, Option-cases,
  Bool-cases, inl, inr, get_elem?,
}
use helix_mongolian_spring.Bridge.{Instance, Store, Externals, Library}
use helix_mongolian_spring.Bridge.Calls.{
  process_message, execute, message_type_deposit, message_type_yield_update,
}
use helix_mongolian_spring.Bridge.Runs.{
  DepositRun, process_deposit-DepositRun, YieldRun, process_yield_update-YieldRun,
}

module _ {W : Type 0} (lib : Library) (x : Externals W) (env : Env) where
  -- Only deposits and yield updates are processed.
  pub process_message-cases :
      (t : ℕ) (message_id payload h : Bytes) (w w' : World Store W)
      → process_message lib x env t message_id payload h w ≡ ok (tt, w')
      → DepositRun lib x env message_id payload h w w'
        ⊎ YieldRun lib x env message_id payload h w w'
  unfolding process_message
  process_message-cases t message_id payload h w w' e =
      elim (Bool-cases (t == message_type_deposit)) [
        | inl deposit ↦
            inl (process_deposit-DepositRun lib x env message_id payload h w w' (ground arith))
        | inr other ↦ elim (Bool-cases (t == message_type_yield_update)) [
          | inl yield_update ↦
              inr (process_yield_update-YieldRun lib x env message_id payload h w w' (ground arith))
          | inr neither ↦ absurd (ground arith)
        ]
      ]

  -- What a message has passed before it is processed.
  pub record Approved (source_chain message_id source_address payload : Bytes)
      (w w' : World Store W) : Type 0 where
    pub instance_before : Instance
    pub message_type : ℕ
    pub approved : World Store W
    pub initialized : w.store.instance_storage ≡ some instance_before
    pub from_chain : source_chain ≡ instance_before.source_chain
    pub from_address : source_address ≡ instance_before.source_address
    pub validated :
        x.validate_message instance_before.gateway env.current_contract source_chain message_id
          source_address
          (lib.keccak256 payload)
          w.outside
        ≡ some (true, approved.outside)
    pub same : approved.store ≡ w.store
    pub typed : get_elem? payload 31 ≡ some message_type
    pub processed :
        process_message lib x env message_type message_id payload (lib.keccak256 payload) approved
        ≡ ok (tt, w')

  pub execute-Approved :
      (source_chain message_id source_address payload : Bytes) (w w' : World Store W)
      → execute lib x env source_chain message_id source_address payload w ≡ ok (tt, w')
      → Approved source_chain message_id source_address payload w w'
  unfolding execute
  execute-Approved c m a p w w' e = elim (Option-cases w.store.instance_storage) [
    | inl missing ↦ absurd (ground arith)
    | inr (i, es) ↦
        elim (Option-cases
          (x.validate_message i.gateway env.current_contract c m a (lib.keccak256 p) w.outside)) [
            | inl failed ↦ absurd (ground arith)
            | inr ((b, o), eo) ↦ elim (Option-cases (get_elem? p 31)) [
              | inl short ↦ absurd (ground arith)
              | inr (t, et) ↦ record {
                instance_before = i;
                message_type = t;
                approved = record w { outside = o };
                initialized = es;
                from_chain = eqb_bytes_eq c i.source_chain (ground arith);
                from_address = eqb_bytes_eq a i.source_address (ground arith);
                validated = ground arith;
                same = refl;
                typed = et;
                processed = ground arith;
              }
            ]
          ]
  ]
