-- ===== src/Bot/Tests/Retries.antt =====
-- liquidation-bot/src/rpc.rs: requests that fail at first and always, and the theorem applied to them.
use helix_mongolian_spring.Common.{ℕ, ◌+◌, ◌≡◌, inl, inr, refl, [], ◌∷◌, ltb, if◌then◌else◌}
use helix_mongolian_spring.Bot.Retry.{
  Reply, answered, refused, timed_out, call_failed, first_delay, retry_from, with_retry,
}
use helix_mongolian_spring.Bot.Retrying.{Retried, with_retry-Retried}

-- The network counts the calls; the third one is answered.
abbrev flaky : ℕ → Reply ℕ ℕ × ℕ
flaky n = ((if ltb n 1 then refused 5 else if ltb n 2 then timed_out else answered 7), n + 1)

abbrev dead : ℕ → Reply ℕ ℕ × ℕ
dead n = (refused n, n + 1)

third_time : with_retry flaky 0 ≡ (inr 7, record { network = 3; calls = 3; slept = 250 ∷ 500 ∷ [] })
unfolding with_retry retry_from
third_time = refl

gives_up :
    with_retry dead 0
    ≡ (inl (call_failed 2), record { network = 3; calls = 3; slept = 250 ∷ 500 ∷ [] })
unfolding with_retry retry_from
gives_up = refl

with_retry-Retried_example :
    Retried flaky 2 first_delay (record { network = 0; calls = 0; slept = [] }) (with_retry flaky 0)
with_retry-Retried_example = with_retry-Retried flaky 0
