-- ===== src/BackendConfig.antt =====
-- internal/dataplane/backendconfig/store.go: the snapshot of the configuration and its lookups. The
-- atomic pointer is the field `current`, so each operation is one step. `hash` is hex of SHA-256.
pub mod Apply
pub mod Poller
mod Tests
use sheeld.Prelude.{
  ℕ, Bool, true, false, ◌==◌, ◌&&◌, nat_eq, string_eq, eq_iff, Comparable, ◌≡◌, ◌↔◌, arith, String,
  Str, List, [], ◌∷◌, Option, none, some, lookup,
}
use sheeld.Prelude.Int.{ℤ}
use sheeld.Domain.{AlertWebhookConfig}
use sheeld.Guard.{Guard}
use sheeld.Transform.{Transformer}

pub record ResolvedSource : Type 0 where
  pub id : ℕ
  pub org_id : ℕ
  pub route : String
  pub enabled : Bool
  pub llm_model : Str
  pub llm_api_key : Str
  pub llm_base_url : Str
  pub input_pass_criteria : String
  pub input_pass_threshold : Option ℤ
  pub output_pass_criteria : String
  pub output_pass_threshold : Option ℤ
  pub input_guards : List Guard
  pub output_guards : List Guard
  pub input_transformers : List Transformer
  pub output_transformers : List Transformer

-- `sourceKey`
pub record SourceKey : Type 0 where
  pub org_id : ℕ
  pub route : String

abbrev pub key_beq : SourceKey → SourceKey → Bool
key_beq a b = (a.org_id == b.org_id) && (a.route == b.route)

pub key_beq_iff : (a b : SourceKey) → (key_beq a b ≡ true) ↔ (a ≡ b)
key_beq_iff a b = ground (arith, eq_iff a.org_id b.org_id, eq_iff a.route b.route)

instance abbrev pub key_eq : Comparable SourceKey
key_eq = record { same = key_beq; decides = key_beq_iff }

pub record AuthInfo : Type 0 where
  pub org_id : ℕ
  pub key_hash : String
  pub rate_limit_rps : ℤ
  pub rate_limit_burst : ℤ

pub record Snapshot : Type 0 where
  pub version : String
  pub api_keys : List (String × AuthInfo)
  pub sources : List (SourceKey × ResolvedSource)
  pub alerts : List (ℕ × List AlertWebhookConfig)

pub record Store : Type 0 where
  pub current : Option Snapshot

abbrev pub new_store : Store
new_store = record { current = none }

unfoldable pub loaded : Store → Bool
loaded s = elim s.current [ none ↦ false | some snap ↦ true ]

unfoldable pub version : Store → String
version s = elim s.current [ none ↦ "" | some snap ↦ snap.version ]

unfoldable pub lookup_api_key : (Str → String) → Store → Str → Option AuthInfo
lookup_api_key hash s raw_key = elim s.current [
  | none ↦ none
  | some snap ↦ lookup (hash raw_key) snap.api_keys
]

unfoldable pub lookup_source : Store → ℕ → String → Option ResolvedSource
lookup_source s org_id route = elim s.current [
  | none ↦ none
  | some snap ↦ lookup (record { org_id = org_id; route = route }) snap.sources
]

abbrev webhooks_or_nil : Option (List AlertWebhookConfig) → List AlertWebhookConfig
webhooks_or_nil none = []
webhooks_or_nil (some ws) = ws

unfoldable pub alert_webhooks : Store → ℕ → List AlertWebhookConfig
alert_webhooks s org_id = elim s.current [
  | none ↦ []
  | some snap ↦ webhooks_or_nil (lookup org_id snap.alerts)
]
