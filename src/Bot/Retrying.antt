-- ===== src/Bot/Retrying.antt =====
-- liquidation-bot/src/rpc.rs: what `with_retry` asks for, and what it returns.
use mathlib.Core.List.{append-nil, append_assoc}
use helix_mongolian_spring.Common.{
  ℕ, zero, suc, ◌+◌, ◌*◌, ◌<◌, ◌≡◌, ◌⊎◌, inl, inr, Option, some, none, List, [], ◌∷◌, ◌++◌, refl,
  ap, ◌∙◌, arith,
}
use helix_mongolian_spring.Bot.Retry.{
  Reply, answered, refused, timed_out, RpcError, call_failed, call_timed_out, Line, rpc_retries,
  first_delay, retry_from, with_retry,
}

-- The error that an answer counts as.
unfoldable error_of : {E A : Type 0} → Reply E A → Option (RpcError E)
error_of (answered value) = none
error_of (refused error) = some (call_failed error)
error_of timed_out = some call_timed_out

reply-cases :
    {E A : Type 0} (r : Reply E A)
    → ((v : A) × (r ≡ answered v)) ⊎ ((e : RpcError E) × (error_of r ≡ some e))
unfolding error_of
reply-cases (answered v) = inl (v, refl)
reply-cases (refused e) = inr (call_failed e, refl)
reply-cases timed_out = inr (call_timed_out, refl)

error_of-cases :
    {E A : Type 0} (r : Reply E A) (e : RpcError E)
    → error_of r ≡ some e
    → ((x : E) × (r ≡ refused x) × (e ≡ call_failed x)) ⊎ ((r ≡ timed_out) × (e ≡ call_timed_out))
unfolding error_of
error_of-cases (answered v) e h = ground arith
error_of-cases (refused x) e h = inl (x, refl, ground arith)
error_of-cases timed_out e h = inr (refl, ground arith)

-- `k` delays, the first one of `delay`, each one twice the one before.
unfoldable backoff : (k delay : ℕ) → List ℕ
backoff zero delay = []
backoff (suc k) delay = delay ∷ backoff k (delay * 2)

module _ {E N A : Type 0} (operation : N → Reply E A × N) where
  -- The network after `k` calls.
  unfoldable after : ℕ → N → N
  after zero network = network
  after (suc k) network = after k (operation network).1

  -- The answer to the call after `k` calls.
  abbrev reply : ℕ → N → Reply E A
  reply k network = (operation (after k network)).0

  -- The first `k` calls fail.
  unfoldable Fails : ℕ → N → Type 0
  Fails zero network = Unit
  Fails (suc k) network =
      ((e : RpcError E) × (error_of (operation network).0 ≡ some e)) × Fails k (operation network).1

  -- The line after `k` calls more, and the delays between `pauses + 1` of them.
  abbrev called : (k pauses delay : ℕ) → Line N → Line N
  called k pauses delay s = record {
    network = after k s.network;
    calls = s.calls + k;
    slept = s.slept ++ backoff pauses delay;
  }

  called-called :
      (k pauses delay : ℕ) (s : Line N)
      → called k pauses (delay * 2) (called 1 1 delay s) ≡ called (suc k) (suc pauses) delay s
  unfolding after backoff
  called-called k pauses delay s =
      grind (arith, append_assoc s.slept (delay ∷ []) (backoff pauses (delay * 2)))

  -- Of `m + 1` calls the first one that does not fail is the last one made, and its value returned; or all
  -- are made, and the error of the last one is returned.
  pub Retried : (m delay : ℕ) → Line N → (RpcError E ⊎ A) × Line N → Type 0
  Retried m delay s result =
      ((k : ℕ) × (v : A) × (k < suc m)
        × Fails k s.network
        × (reply k s.network ≡ answered v)
        × (result ≡ (inr v, called (suc k) k delay s)))
      ⊎ ((e : RpcError E) × Fails (suc m) s.network
          × (error_of (reply m s.network) ≡ some e)
          × (result ≡ (inl e, called (suc m) m delay s)))

  -- A call that fails with attempts left: the loop goes on after a delay.
  retry_from-failed :
      (m attempt delay : ℕ) (last_error : Option (RpcError E)) (s : Line N) (e : RpcError E)
      → attempt < rpc_retries
      → error_of (operation s.network).0 ≡ some e
      → retry_from operation (suc m) attempt delay last_error s
        ≡ retry_from operation m (attempt + 1) (delay * 2) (some e) (called 1 1 delay s)
  unfolding retry_from error_of backoff after
  retry_from-failed m attempt delay last_error s e h k =
      elim (error_of-cases (operation s.network).0 e k) [
        | inl (x, r, eq) ↦ ground arith
        | inr (r, eq) ↦ ground arith
      ]

  -- The last call, where it fails.
  retry_from-exhausted :
      (attempt delay : ℕ) (last_error : Option (RpcError E)) (s : Line N) (e : RpcError E)
      → attempt ≡ rpc_retries
      → error_of (operation s.network).0 ≡ some e
      → retry_from operation 1 attempt delay last_error s ≡ (inl e, called 1 0 delay s)
  unfolding retry_from error_of backoff after
  retry_from-exhausted attempt delay last_error s e h k =
      elim (error_of-cases (operation s.network).0 e k) [
        | inl (x, r, eq) ↦ grind (arith, append-nil s.slept)
        | inr (r, eq) ↦ grind (arith, append-nil s.slept)
      ]

  -- A call that is answered.
  retry_from-answered :
      (m attempt delay : ℕ) (last_error : Option (RpcError E)) (s : Line N) (v : A)
      → (operation s.network).0 ≡ answered v
      → retry_from operation (suc m) attempt delay last_error s ≡ (inr v, called 1 0 delay s)
  unfolding retry_from backoff after
  retry_from-answered m attempt delay last_error s v e = grind (arith, append-nil s.slept)

  retry_from-Retried :
      (m attempt delay : ℕ) (last_error : Option (RpcError E)) (s : Line N)
      → attempt + m ≡ rpc_retries
      → Retried m delay s (retry_from operation (suc m) attempt delay last_error s)
  unfolding Retried Fails after
  retry_from-Retried zero attempt delay last_error s h =
      elim (reply-cases (operation s.network).0) [
        | inl (v, e) ↦
            inl (0, v, omega arith, tt, e, retry_from-answered 0 attempt delay last_error s v e)
        | inr (x, e) ↦
            inr (
              x,
              ((x, e), tt),
              e,
              retry_from-exhausted attempt delay last_error s x (omega arith) e,
            )
      ]
  retry_from-Retried (suc m) attempt delay last_error s h =
      elim (reply-cases (operation s.network).0) [
        | inl (v, e) ↦
            inl
              (0, v, omega arith, tt, e, retry_from-answered (suc m) attempt delay last_error s v e)
        | inr (x, e) ↦
            let goes_on = retry_from-failed (suc m) attempt delay last_error s x (omega arith) e in
            elim (retry_from-Retried m (attempt + 1) (delay * 2) (some x) (called 1 1 delay s)
              (omega arith)) [
                | inl (k, v, below, fails, at_k, eq) ↦ inl (
                  suc k,
                  v,
                  omega arith,
                  ((x, e), fails),
                  at_k,
                  goes_on ∙ eq ∙ ap (λ z. (inr v, z)) (called-called (suc k) k delay s),
                )
                | inr (y, fails, at_m, eq) ↦ inr (
                  y,
                  ((x, e), fails),
                  at_m,
                  goes_on ∙ eq ∙ ap (λ z. (inl y, z)) (called-called (suc m) m delay s),
                )
              ]
      ]

-- A request ends after at most three calls. Either one of them is answered, all before it fail and it is
-- the last one made: then its value is returned. Or all three fail, and the error of the third is
-- returned. Between two calls a delay is slept, first of 250 milliseconds and then each time of twice as
-- many.
pub with_retry-Retried :
    {E N A : Type 0} (operation : N → Reply E A × N) (network : N)
    → Retried operation 2 first_delay
        (record { network = network; calls = 0; slept = [] })
        (with_retry operation network)
unfolding with_retry
with_retry-Retried operation network =
    retry_from-Retried operation 2 1 first_delay none
      (record { network = network; calls = 0; slept = [] }) (omega arith)
