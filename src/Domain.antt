-- ===== src/Domain.antt =====
-- internal/shared/domain/workspaceconfig.go: the configuration that the control plane serves to data
-- planes. UUIDs are numbers, and 0 is `uuid.Nil`; a rate is in billionths of a request per second.
use sheeld.Prelude.{ℕ, Bool, String, Str, List, Option}
use sheeld.Prelude.Int.{ℤ}
use sheeld.Json.{Json}

pub record AlertWebhookConfig : Type 0 where
  pub id : ℕ
  pub url : String
  pub payload_format : String

pub record ApiKeyConfig : Type 0 where
  pub key_hash : String
  pub rate_limit_rps : Option ℤ
  pub rate_limit_burst : Option ℤ

pub record SourceConfig : Type 0 where
  pub id : ℕ
  pub route : String
  pub enabled : Bool
  pub llm_model : Str
  pub llm_api_key : Str
  pub llm_base_url : Str
  pub input_pass_criteria : String
  pub input_pass_threshold : Option ℤ
  pub output_pass_criteria : String
  pub output_pass_threshold : Option ℤ
  pub guardrail_ids : List ℕ
  pub transformer_ids : List ℕ

pub record TransformerConfig : Type 0 where
  pub id : ℕ
  pub name : String
  pub transformer_type : String
  pub phase : String
  pub config : Json

pub record GuardrailConfig : Type 0 where
  pub id : ℕ
  pub name : String
  pub guard_type : String
  pub phase : String
  pub config : Json

pub record OrgConfig : Type 0 where
  pub id : ℕ
  pub api_keys : List ApiKeyConfig
  pub sources : List SourceConfig
  pub guardrails : List GuardrailConfig
  pub transformers : List TransformerConfig
  pub alert_webhooks : List AlertWebhookConfig

pub record WorkspaceConfig : Type 0 where
  pub version : String
  pub organizations : List OrgConfig
