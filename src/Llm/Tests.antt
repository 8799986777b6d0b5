-- ===== src/Llm/Tests.antt =====
-- The retry loop's theorems at a network that recovers.
use sheeld.Prelude.{string_eq, ℕ, ◌+◌, ◌-◌, ◌≤◌, ◌≡◌, ◌↔◌, str, []}
use sheeld.Llm.Client.{chat_completion_at, response}
use sheeld.Llm.Client.Retry.{attempts_bounded, response_iff, doubling, sent, SucceedsAt}
use sheeld.Samples.{client, recovering, greeting, answer}

attempts_bounded_example :
    ((chat_completion_at client recovering [] (str "key") greeting).attempts
      ≤ client.max_retries + 1)
    × (1 ≤ (chat_completion_at client recovering [] (str "key") greeting).attempts)
    × ((chat_completion_at client recovering [] (str "key") greeting).waits
        ≡ doubling client.base_backoff
            ((chat_completion_at client recovering [] (str "key") greeting).attempts - 1))
attempts_bounded_example = attempts_bounded client recovering [] (str "key") greeting

response_iff_example :
    ((chat_completion_at client recovering [] (str "key") greeting).reply ≡ response answer) ↔ (
      (k : ℕ) × (k ≤ client.max_retries)
      × SucceedsAt recovering (sent client [] (str "key") greeting) 0 k answer)
response_iff_example = response_iff client recovering [] (str "key") greeting answer
