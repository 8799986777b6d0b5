-- ===== src/Alert/Tests.antt =====
-- The notifier with a counter for a bucket.
use sheeld.Prelude.{ℕ, zero, suc, ◌≡◌, refl, nat_eq, Bool, true, false, str, [], ◌∷◌, some}
use sheeld.Prelude.Int.{pos}
use sheeld.Domain.{AlertWebhookConfig}
use sheeld.RateLimit.{Buckets}
use sheeld.BackendConfig.{Store, alert_webhooks}
use sheeld.Processor.Report.{Event}
use sheeld.Alert.{notify, slack_text}

-- Tokens that are never refilled: a bucket starts with three.
abbrev take_token : ℕ → Bool × ℕ
take_token zero = (false, 0)
take_token (suc n) = (true, n)

abbrev tokens : Buckets ℕ
tokens = record {
  new_limiter = λ r s. 3;
  limit = λ n. pos 0;
  burst = λ n. pos 3;
  set_limit = λ n r. n;
  set_burst = λ n s. n;
  allow = λ now n. take_token n;
}

abbrev hook : ℕ → AlertWebhookConfig
hook id = record { id = id; url = "https://a.b"; payload_format = "slack" }

-- Organization 7 has two webhooks, organization 8 another.
abbrev store : Store
store = record {
  current = some (record {
    version = "v1";
    api_keys = [];
    sources = [];
    alerts = (7, hook 1 ∷ hook 2 ∷ []) ∷ (8, hook 3 ∷ []) ∷ [];
  });
}

abbrev rejection : Event
rejection = record {
  organization_id = 7;
  source_route = "chat";
  phase = "input";
  request_id = "r1";
  failed_guards = record { name = "words"; kind = "blocklist"; message = "no" } ∷ [];
}

-- The first webhook has no token left.
one_is_suppressed :
    (notify tokens 0 store rejection ((1, 0) ∷ [])).deliveries
    ≡ record { url = "https://a.b"; format = "slack"; event = rejection } ∷ []
unfolding notify alert_webhooks
one_is_suppressed = refl

says :
    slack_text rejection
    ≡ str
        ":no_entry: Sheeld rejected a request on source `chat` (input phase)\n• *words* (blocklist): no\nrequest_id: `r1`"
unfolding slack_text
says = refl
