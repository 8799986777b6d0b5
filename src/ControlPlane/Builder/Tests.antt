-- ===== src/ControlPlane/Builder/Tests.antt =====
-- The configuration that is built from a concrete database, and what a data plane looks up in it.
use mathlib.Core.List.Memᴰ
use sheeld.Prelude.{
  ℕ, ◌≡◌, refl, Bool, true, false, String, Str, str, List, [], ◌∷◌, none, some, drop, All,
}
use sheeld.Prelude.Int.{pos}
use sheeld.Prelude.Outcome.{Outcome, ok}
use sheeld.Domain.{WorkspaceConfig, OrgConfig, SourceConfig, TransformerConfig}
use sheeld.BackendConfig.{ResolvedSource, AuthInfo, lookup_source, lookup_api_key}
use sheeld.BackendConfig.Apply.{apply}
use sheeld.BackendConfig.Apply.Atomic.{serving}
use sheeld.ControlPlane.Redaction.{marshal_config}
use sheeld.ControlPlane.Tests.{tables, env, webhook}
use sheeld.ControlPlane.Builder.{
  build_config, empty_org, add_sources, list_all_sources, add_rows, list_all_enabled_alert_webhooks,
  list_all_active_api_keys, add_empty, list_all_organization_ids, list_all_enabled_transformers,
  list_all_enabled_guardrails, key_config, attached_to, list_all_source_guardrails,
  list_all_source_transformers,
}
use sheeld.ControlPlane.Builder.Ownership.{build_config-owned, HasOwnRows}
use sheeld.ControlPlane.Builder.Served.{IsBuilt, ServedSource, ServedKey, served_source, served_key}

abbrev decrypt : Str → Outcome Str
decrypt s = ok (drop 4 s)

abbrev digest : List OrgConfig → String
digest orgs = "v1"

abbrev collates : String → String → Bool
collates a b = false

abbrev source_json : ℕ → SourceConfig
source_json id = record {
  id = id;
  route = "chat";
  enabled = true;
  llm_model = str "gpt";
  llm_api_key = str "key";
  llm_base_url = [];
  input_pass_criteria = "all";
  input_pass_threshold = none;
  output_pass_criteria = "n_of_m";
  output_pass_threshold = some (pos 2);
  guardrail_ids = [];
  transformer_ids = [];
}

abbrev transformer_json : ℕ → TransformerConfig
transformer_json id = record {
  id = id;
  name = "pii";
  transformer_type = "presidio";
  phase = "input";
  config = marshal_config (some []);
}

abbrev config : WorkspaceConfig
config = record {
  version = "v1";
  organizations =
      record {
        id = 1;
        api_keys =
            record { key_hash = "hash"; rate_limit_rps = none; rate_limit_burst = none } ∷ [];
        sources = source_json 10 ∷ [];
        guardrails =
            record {
              id = 30;
              name = "words";
              guard_type = "blocklist";
              phase = "input";
              config = webhook.config;
            }
            ∷ [];
        transformers = transformer_json 40 ∷ transformer_json 41 ∷ [];
        alert_webhooks = [];
      }
      ∷ record (empty_org 2) { sources = source_json 20 ∷ [] }
      ∷ [];
}

builds : build_config decrypt digest collates tables ≡ ok config
unfolding build_config add_sources list_all_sources add_rows list_all_enabled_alert_webhooks
    list_all_active_api_keys add_empty list_all_organization_ids list_all_enabled_transformers
    list_all_enabled_guardrails key_config attached_to list_all_source_guardrails
    list_all_source_transformers
builds = refl

owned_rows : All (HasOwnRows decrypt digest collates tables) config.organizations
owned_rows = build_config-owned decrypt digest collates tables config builds

config-IsBuilt :
    All (IsBuilt env.guards env.transformers decrypt digest collates (tables ∷ [])) (config ∷ [])
config-IsBuilt = ((tables, (Memᴰ.head refl, builds)), tt)

abbrev resolved : ResolvedSource
resolved = record {
  id = 20;
  org_id = 2;
  route = "chat";
  enabled = true;
  llm_model = str "gpt";
  llm_api_key = str "key";
  llm_base_url = [];
  input_pass_criteria = "all";
  input_pass_threshold = none;
  output_pass_criteria = "n_of_m";
  output_pass_threshold = some (pos 2);
  input_guards = [];
  output_guards = [];
  input_transformers = [];
  output_transformers = [];
}

finds : lookup_source (serving env.guards env.transformers (config ∷ [])) 2 "chat" ≡ some resolved
unfolding lookup_source apply
finds = refl

served_source_example :
    ServedSource env.guards env.transformers decrypt digest collates (tables ∷ []) 2 "chat" resolved
served_source_example =
    served_source env.guards env.transformers decrypt digest collates (tables ∷ []) (config ∷ [])
      config-IsBuilt 2 "chat" resolved finds

abbrev accepted : AuthInfo
accepted = record {
  org_id = 1;
  key_hash = "hash";
  rate_limit_rps = pos 0;
  rate_limit_burst = pos 0;
}

accepts :
    lookup_api_key (λ key. "hash") (serving env.guards env.transformers (config ∷ [])) (str "k")
    ≡ some accepted
unfolding lookup_api_key apply
accepts = refl

served_key_example :
    ServedKey env.guards env.transformers decrypt digest collates (tables ∷ []) "hash" 1
served_key_example =
    served_key env.guards env.transformers decrypt digest collates (tables ∷ []) (config ∷ [])
      config-IsBuilt (λ key. "hash") (str "k") accepted accepts
