-- ===== src/ControlPlane/Accounts.antt =====
-- internal/controlplane/service: `AlertService` (alert.go), and the API keys of `AuthService` (auth.go).
-- The hexadecimal text of the random bytes of a new key, which are always read, and the digest of a key
-- are parameters.
pub mod Keys
use sheeld.Prelude.{
  ℕ, Bool, true, false, ◌||◌, ◌==◌, string_eq, if◌then◌else◌, String, Str, str, ◌++◌, Option, none,
  some, take,
}
use sheeld.Prelude.Int.{ℤ, to_int32}
use sheeld.Prelude.Outcome.{Outcome, ok, err, ◌>>=◌}
use sheeld.ControlPlane.{AlertWebhook, ApiKey, Database, Result}
use sheeld.ControlPlane.Queries.Accounts.{
  create_alert_webhook, get_alert_webhook, update_alert_webhook, create_api_key,
  get_api_key_by_hash,
}
use sheeld.ControlPlane.Services.{Environment, after}
use sheeld.ControlPlane.Guardrails.{default_true}

pub record AlertWebhookParams : Type 0 where
  pub name : String
  pub url : String
  pub payload_format : String
  pub enabled : Option Bool

module _ (env : Environment) where
  -- `validate`, which also sets the payload format's default: the format that results.
  unfoldable pub validate_webhook : AlertWebhookParams → Outcome String
  validate_webhook p =
      if p.name == ""
      then err "name is required"
      else env.check_url (str p.url) >>= λ u.
          if p.payload_format == ""
          then ok "json"
          else if (p.payload_format == "json") || (p.payload_format == "slack")
          then ok (p.payload_format)
          else err "payload_format must be \"json\" or \"slack\""

  abbrev pub webhook_row : ℕ → ℕ → AlertWebhookParams → String → Bool → AlertWebhook
  webhook_row id org p format enabled = record {
    id = id;
    org_id = org;
    name = p.name;
    url = p.url;
    payload_format = format;
    enabled = enabled;
  }

  unfoldable pub create_webhook_of : ℕ → ℕ → AlertWebhookParams → Database → Result AlertWebhook
  unfolding validate_webhook create_alert_webhook
  create_webhook_of id org p db =
      after (validate_webhook p) db
        (λ format. create_alert_webhook (webhook_row id org p format (default_true p.enabled)) db)

  -- An omitted `enabled` keeps the stored one.
  abbrev pub enabled_or : Bool → Option Bool → Bool
  enabled_or stored none = stored
  enabled_or stored (some b) = b

  unfoldable pub update_webhook_of : ℕ → ℕ → AlertWebhookParams → Database → Result AlertWebhook
  unfolding validate_webhook get_alert_webhook update_alert_webhook
  update_webhook_of org id p db = after (validate_webhook p) db (λ format.
      after (get_alert_webhook id org db) db (λ w.
        update_alert_webhook (webhook_row id org p format (enabled_or w.enabled p.enabled)) db))

module _ (digest : Str → String) where
  -- "shld_" and the hexadecimal text.
  abbrev pub raw_key : Str → Str
  raw_key hex = str "shld_" ++ hex

  -- The column is an INT.
  abbrev pub as_int32 : Option ℤ → Option ℤ
  as_int32 none = none
  as_int32 (some n) = some (to_int32 n)

  -- `CreateAPIKey`: the row, and the key itself, which is shown only here.
  unfoldable pub create_api_key_of :
      Str → ℕ → ℕ → String → Option ℤ → Option ℤ → Database → Result (ApiKey × Str)
  unfolding create_api_key
  create_api_key_of hex id org name rps burst db =
      let (o, db') =
        create_api_key
          (record {
            id = id;
            org_id = org;
            name = name;
            key_hash = digest (raw_key hex);
            key_prefix = take 13 (raw_key hex);
            rate_limit_rps = rps;
            rate_limit_burst = as_int32 burst;
            revoked = false;
          })
          db in
      (o >>= λ k. ok (k, raw_key hex), db')

  -- `ValidateAPIKey`: the organization of the key.
  unfoldable pub validate_api_key : Str → Database → Outcome ℕ
  unfolding get_api_key_by_hash
  validate_api_key raw db = get_api_key_by_hash (digest raw) db >>= λ k. ok k.org_id
