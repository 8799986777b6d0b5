-- ===== src/ControlPlane.antt =====
-- internal/controlplane: the database's tables (db/generated/models.go, db/migrations) and the
-- services over them. A UUID is a number. Every table is the list of its rows in the order of their
-- creation, which stands for `created_at`; `updated_at` is left out. A query that the database does not
-- answer at all is not modelled: an error of a query is a missing row or a broken constraint.
pub mod Table
pub mod Queries
pub mod Redaction
pub mod Services
pub mod Guardrails
pub mod Sources
pub mod Transformers
pub mod Accounts
pub mod Authentication
pub mod Api
pub mod Calls
pub mod Builder
mod Tests
use sheeld.Prelude.{ℕ, Bool, String, Str, List, Option}
use sheeld.Prelude.Int.{ℤ}
use sheeld.Prelude.Outcome.{Outcome}
use sheeld.Json.{Json}

-- A row of `organizations`, and of `users`; their times are left out.
pub record Organization : Type 0 where
  pub id : ℕ
  pub name : String

pub record User : Type 0 where
  pub id : ℕ
  pub org_id : ℕ
  pub email : String
  pub password_hash : Str

pub record Source : Type 0 where
  pub id : ℕ
  pub org_id : ℕ
  pub name : String
  pub route : String
  pub description : Option String
  pub llm_provider : String
  pub llm_model : Str
  pub llm_api_key_enc : Str
  pub llm_base_url : Str
  pub input_pass_criteria : String
  pub input_pass_threshold : Option ℤ
  pub output_pass_criteria : String
  pub output_pass_threshold : Option ℤ
  pub enabled : Bool

pub record Guardrail : Type 0 where
  pub id : ℕ
  pub org_id : ℕ
  pub name : String
  pub guard_type : String
  pub phase : String
  pub config : Json
  pub enabled : Bool

pub record Transformer : Type 0 where
  pub id : ℕ
  pub org_id : ℕ
  pub name : String
  pub transformer_type : String
  pub phase : String
  pub config : Json
  pub enabled : Bool

pub record AlertWebhook : Type 0 where
  pub id : ℕ
  pub org_id : ℕ
  pub name : String
  pub url : String
  pub payload_format : String
  pub enabled : Bool

-- `revoked` is whether `revoked_at` is set; a rate is in billionths of a request per second.
pub record ApiKey : Type 0 where
  pub id : ℕ
  pub org_id : ℕ
  pub name : String
  pub key_hash : String
  pub key_prefix : Str
  pub rate_limit_rps : Option ℤ
  pub rate_limit_burst : Option ℤ
  pub revoked : Bool

-- A row of `source_transformers`.
pub record Link : Type 0 where
  pub source_id : ℕ
  pub transformer_id : ℕ
  pub position : ℕ

-- A row of `source_guardrails` is a source's identifier with a guardrail's.
pub record Database : Type 0 where
  pub organizations : List Organization
  pub users : List User
  pub sources : List Source
  pub guardrails : List Guardrail
  pub transformers : List Transformer
  pub alert_webhooks : List AlertWebhook
  pub api_keys : List ApiKey
  pub source_guardrails : List (ℕ × ℕ)
  pub source_transformers : List Link

-- What a query returns, and the database after it.
abbrev pub Result : Type 0 → Type 0
Result A = Outcome A × Database
