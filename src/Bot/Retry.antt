-- ===== src/Bot/Retry.antt =====
-- liquidation-bot/src/rpc.rs: `with_retry`, the loop around every request. The request is the parameter
-- `operation`: its answer, or that it took longer than the timeout, with the network as it leaves it.
-- The log is left out.
use helix_mongolian_spring.Common.{
  ℕ, zero, suc, ◌+◌, ◌*◌, Option, some, none, List, [], ◌∷◌, ◌++◌, ◌⊎◌, inl, inr, ltb,
  if◌then◌else◌,
}

abbrev pub rpc_retries : ℕ
rpc_retries = 3

-- the first delay, in milliseconds
abbrev pub first_delay : ℕ
first_delay = 250

-- What comes of `timeout(RPC_TIMEOUT, operation())`, with an error of type `E`.
pub data Reply (E A : Type 0) : Type 0 where
  answered : (value : A) → Reply E A
  refused : (error : E) → Reply E A
  timed_out : Reply E A

-- The errors of `with_retry`.
pub data RpcError (E : Type 0) : Type 0 where
  call_failed : (error : E) → RpcError E
  call_timed_out : RpcError E
  without_an_error : RpcError E

-- The network, the number of calls made, and the delays slept.
pub record Line (N : Type 0) : Type 0 where
  pub network : N
  pub calls : ℕ
  pub slept : List ℕ

module _ {E N A : Type 0} (operation : N → Reply E A × N) where
  abbrev pub call : Line N → Reply E A × Line N
  call s = let r = operation s.network in (r.0, record s { network = r.1; calls = s.calls + 1 })

  abbrev pub sleep_before_next : ℕ → ℕ → Line N → Line N
  sleep_before_next attempt delay s =
      if ltb attempt rpc_retries then record s { slept = s.slept ++ delay ∷ [] } else s

  abbrev pub delay_after : ℕ → ℕ → ℕ
  delay_after attempt delay = if ltb attempt rpc_retries then delay * 2 else delay

  abbrev pub last_or_default : Option (RpcError E) → RpcError E
  last_or_default last_error = elim last_error [ some e ↦ e | none ↦ without_an_error ]

  -- the loop with `left` attempts left, from the attempt numbered `attempt`
  unfoldable pub retry_from :
      (left attempt delay : ℕ) → Option (RpcError E) → Line N → (RpcError E ⊎ A) × Line N
  retry_from zero attempt delay last_error s = (inl (last_or_default last_error), s)
  retry_from (suc left) attempt delay last_error s =
      let r = call s in
      elim r.0 [
        | answered value ↦ (inr value, r.1)
        | refused error ↦
            retry_from left (attempt + 1) (delay_after attempt delay) (some (call_failed error))
              (sleep_before_next attempt delay r.1)
        | timed_out ↦
            retry_from left (attempt + 1) (delay_after attempt delay) (some call_timed_out)
              (sleep_before_next attempt delay r.1)
      ]

  unfoldable pub with_retry : N → (RpcError E ⊎ A) × Line N
  with_retry network =
      retry_from rpc_retries 1 first_delay none
        (record { network = network; calls = 0; slept = [] })
