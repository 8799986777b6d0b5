-- ===== src/ControlPlane/Api.antt =====
-- internal/controlplane/api: the requests of the dashboard and the replies to them. The parts of a
-- request that a handler reads are its fields; `Decoders` are `uuid.Parse` and `json.Decode` into the
-- type that a handler decodes, and `uuid.Nil` is 0. A `Payload` is the value that `response.JSON` encodes.
pub mod Sources
pub mod Guardrails
pub mod Transformers
pub mod Webhooks
pub mod Sessions
pub mod AuditLogs
pub mod Shapes
pub mod Handlers
pub mod Router
mod Tests
use sheeld.Prelude.{ℕ, ◌==◌, nat_eq, Bool, if◌then◌else◌, String, Str, List, Option, none, some}
use sheeld.Prelude.Int.{ℤ}
use sheeld.Prelude.Outcome.{Outcome, ok, err}
use sheeld.Guard.{GuardResult}
use sheeld.Domain.{WorkspaceConfig}
use sheeld.ControlPlane.{AlertWebhook, ApiKey, Transformer, Source, Database, Result}
use sheeld.ControlPlane.Redaction.{Config}
use sheeld.ControlPlane.Services.{Environment}
use sheeld.ControlPlane.Guardrails.{GuardrailParams, GuardrailResponse}
use sheeld.ControlPlane.Sources.{SourceParams, SourceResponse}
use sheeld.ControlPlane.Transformers.{TransformerParams}
use sheeld.ControlPlane.Accounts.{AlertWebhookParams}
use sheeld.ControlPlane.Authentication.{AuthService, RegisterResult, LoginResult, Draws}

-- The headers, the URL parameters `id` and `sourceID`, the query string and the body.
pub record Request : Type 0 where
  pub authorization : Str
  pub if_none_match : String
  pub id : Str
  pub source_id : Str
  pub query : String → Str
  pub body : Str

pub record RegisterRequest : Type 0 where
  pub org_name : String
  pub email : String
  pub password : Str

pub record LoginRequest : Type 0 where
  pub email : String
  pub password : Str

-- A rate is in billionths of a request per second.
pub record CreateApiKeyRequest : Type 0 where
  pub name : String
  pub rate_limit_rps : Option ℤ
  pub rate_limit_burst : Option ℤ

-- `attach_to_guardrail` reads the field `source_id` as a text, `attach_to_transformer` as a UUID.
pub record Decoders : Type 0 where
  pub parse_uuid : Str → Option ℕ
  pub source_params : Str → Option SourceParams
  pub guardrail_params : Str → Option GuardrailParams
  pub test_input : Str → Option Str
  pub attach_to_guardrail : Str → Option Str
  pub transformer_params : Str → Option TransformerParams
  pub attach_to_transformer : Str → Option ℕ
  pub transformer_ids : Str → Option (List ℕ)
  pub webhook_params : Str → Option AlertWebhookParams
  pub registration : Str → Option RegisterRequest
  pub credentials : Str → Option LoginRequest
  pub key_params : Str → Option CreateApiKeyRequest

-- The services, and what a request draws: the time in seconds and in nanoseconds, the identifier of a row that is created, what a registration
-- draws, and the hexadecimal text of a new key's bytes.
pub record Server : Type 0 where
  pub env : Environment
  pub auth : AuthService
  pub decode : Decoders

pub record Drawn : Type 0 where
  pub now : ℕ
  pub clock : ℕ
  pub row : ℕ
  pub draws : Draws
  pub key_hex : Str

-- `toSourceSummaries`
pub record SourceSummary : Type 0 where
  pub id : ℕ
  pub name : String
  pub route : String

-- `TransformerResponse`, without its times; `position` is set in a source's chain only.
pub record TransformerResponse : Type 0 where
  pub id : ℕ
  pub organization_id : ℕ
  pub name : String
  pub transformer_type : String
  pub phase : String
  pub config : Config
  pub enabled : Bool
  pub position : Option ℕ

-- `apiKeySummary`, without its times: whether `revoked_at` is set.
pub record ApiKeySummary : Type 0 where
  pub id : ℕ
  pub name : String
  pub revoked : Bool
  pub rate_limit_rps : Option ℤ
  pub rate_limit_burst : Option ℤ

pub data Payload : Type 0 where
  error_body : String → Payload
  validation_body : String → String → Payload
  status_body : String → Payload
  source_body : SourceResponse → Payload
  sources_body : List SourceResponse → Payload
  summaries_body : List SourceSummary → Payload
  guardrail_body : GuardrailResponse → Payload
  guardrails_body : List GuardrailResponse → Payload
  result_body : GuardResult → Payload
  transformer_body : TransformerResponse → Payload
  transformers_body : List TransformerResponse → Payload
  connections_body : List (ℕ × ℕ) → Payload
  webhook_body : AlertWebhook → Payload
  webhooks_body : List AlertWebhook → Payload
  registered_body : RegisterResult → Payload
  session_body : LoginResult → Payload
  token_body : Str → Payload
  new_key_body : ApiKey → Str → Payload
  keys_body : List ApiKeySummary → Payload
  proxied_body : Str → Payload
  config_body : WorkspaceConfig → Payload
  no_body : Payload

pub record Response : Type 0 where
  pub status : ℕ
  pub payload : Payload

-- What a handler writes, and the database after it.
abbrev pub Reply : Type 0
Reply = Response × Database

abbrev pub json : ℕ → Payload → Response
json status payload = record { status = status; payload = payload }

abbrev pub error : ℕ → String → Response
error status message = json status (error_body message)

abbrev pub validation_error : String → String → Response
validation_error field message = json 400 (validation_body field message)

-- The early returns of a handler: the organization is nil; a text does not parse; a check fails.
abbrev pub authorized : ℕ → Database → Reply → Reply
authorized org db next = if org == 0 then (error 401 "unauthorized", db) else next

abbrev pub parsed : {A : Type 0} → Option A → String → Database → (A → Reply) → Reply
parsed none message db next = (error 400 message, db)
parsed (some a) message db next = next a

abbrev pub required : Bool → String → String → Database → Reply → Reply
required missing field message db next =
    if missing then (validation_error field message, db) else next

-- The end of a handler: the reply to a service's error, whose text `says` may show, or to its result.
abbrev pub finished : {A : Type 0} → Result A → ℕ → (String → String) → ℕ → (A → Payload) → Reply
finished (ok a, db) code says success shows = (json success (shows a), db)
finished (err e, db) code says success shows = (error code (says e), db)

abbrev pub fixed : String → String → String
fixed message e = message

abbrev pub shown : String → String
shown e = e
