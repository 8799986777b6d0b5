-- ===== src/ControlPlane/Builder.antt =====
-- internal/controlplane/workspaceconfig/builder.go: the configuration that is served to data planes,
-- and the queries of db/generated/workspace_config.sql.go that it reads. `decrypt` is `crypto.Decrypt`
-- with the server's key, `hash` the digest of the payload, and `collates` the database's order of texts;
-- `GeneratedAt` is left out.
pub mod Ownership
pub mod Served
mod Tests
use sheeld.Prelude.{
  ℕ, Bool, true, false, not, ◌&&◌, ◌||◌, ◌==◌, nat_eq, ltb, leb, if◌then◌else◌, String, Str, List,
  [], ◌∷◌, ◌++◌, Option, none, some, lookup, insert, filter, map, sort_by,
}
use sheeld.Prelude.Outcome.{Outcome, ok, err, ◌>>=◌}
use sheeld.Domain.{
  WorkspaceConfig, OrgConfig, ApiKeyConfig, SourceConfig, GuardrailConfig, TransformerConfig,
  AlertWebhookConfig,
}
use sheeld.ControlPlane.{
  Organization, Source, Guardrail, Transformer, AlertWebhook, ApiKey, Link, Database,
}

unfoldable pub list_all_organization_ids : Database → List ℕ
list_all_organization_ids db = sort_by ltb (map (λ (o : Organization). o.id) db.organizations)

unfoldable pub list_all_active_api_keys : Database → List ApiKey
list_all_active_api_keys db =
    sort_by (λ a b. ltb a.org_id b.org_id) (filter (λ k. not k.revoked) db.api_keys)

unfoldable pub list_all_sources : (String → String → Bool) → Database → List Source
list_all_sources collates db =
    sort_by (λ a b. ltb a.org_id b.org_id || ((a.org_id == b.org_id) && collates a.route b.route))
      db.sources

unfoldable pub list_all_enabled_guardrails : Database → List Guardrail
list_all_enabled_guardrails db =
    sort_by (λ a b. ltb a.org_id b.org_id || ((a.org_id == b.org_id) && ltb a.id b.id))
      (filter (λ g. g.enabled) db.guardrails)

unfoldable pub list_all_source_guardrails : Database → List (ℕ × ℕ)
list_all_source_guardrails db = sort_by (λ a b. ltb a.0 b.0) db.source_guardrails

unfoldable pub list_all_enabled_transformers : Database → List Transformer
list_all_enabled_transformers db =
    sort_by (λ a b. ltb a.org_id b.org_id || ((a.org_id == b.org_id) && ltb a.id b.id))
      (filter (λ t. t.enabled) db.transformers)

abbrev pub link_before : Link → Link → Bool
link_before a b =
    ltb a.source_id b.source_id
    || ((a.source_id == b.source_id)
        && (ltb a.position b.position
            || ((a.position == b.position) && ltb a.transformer_id b.transformer_id)))

unfoldable pub list_all_source_transformers : Database → List (ℕ × ℕ)
list_all_source_transformers db =
    map (λ (a : Link). (a.source_id, a.transformer_id)) (sort_by link_before db.source_transformers)

unfoldable pub list_all_enabled_alert_webhooks : Database → List AlertWebhook
list_all_enabled_alert_webhooks db =
    sort_by (λ a b. ltb a.org_id b.org_id) (filter (λ w. w.enabled) db.alert_webhooks)

abbrev Orgs : Type 0
Orgs = List (ℕ × OrgConfig)

-- The map from a source to what is attached to it, in order; a source without entry has the empty list.
unfoldable pub attached_to : ℕ → List (ℕ × ℕ) → List ℕ
attached_to source [] = []
attached_to source ((s, a) ∷ pairs) =
    let rest = attached_to source pairs in if s == source then a ∷ rest else rest

abbrev pub empty_org : ℕ → OrgConfig
empty_org id = record {
  id = id;
  api_keys = [];
  sources = [];
  guardrails = [];
  transformers = [];
  alert_webhooks = [];
}

-- The first loop: an entry for every organization.
unfoldable pub add_empty : List ℕ → Orgs → Orgs
add_empty [] orgs = orgs
add_empty (id ∷ ids) orgs = add_empty ids (insert id (empty_org id) orgs)

-- The loops over rows: `if org, ok := orgs[owner]; ok { … }`.
module _ {Row : Type 0} (owner : Row → ℕ) (add : Row → OrgConfig → OrgConfig) where
  unfoldable pub add_rows : List Row → Orgs → Orgs
  add_rows [] orgs = orgs
  add_rows (row ∷ rows) orgs = elim (lookup (owner row) orgs) [
    | none ↦ add_rows rows orgs
    | some o ↦ add_rows rows (insert (owner row) (add row o) orgs)
  ]

unfoldable pub key_config : ApiKey → ApiKeyConfig
key_config k = record {
  key_hash = k.key_hash;
  rate_limit_rps = k.rate_limit_rps;
  rate_limit_burst = k.rate_limit_burst;
}

abbrev pub add_key : ApiKey → OrgConfig → OrgConfig
add_key k o = record o { api_keys = o.api_keys ++ key_config k ∷ [] }

abbrev pub add_webhook : AlertWebhook → OrgConfig → OrgConfig
add_webhook w o = record o {
  alert_webhooks =
      o.alert_webhooks ++ record { id = w.id; url = w.url; payload_format = w.payload_format } ∷ [];
}

abbrev pub add_guardrail : Guardrail → OrgConfig → OrgConfig
add_guardrail g o = record o {
  guardrails =
      o.guardrails
      ++ record {
        id = g.id;
        name = g.name;
        guard_type = g.guard_type;
        phase = g.phase;
        config = g.config;
      }
        ∷ [];
}

abbrev pub add_transformer : Transformer → OrgConfig → OrgConfig
add_transformer t o = record o {
  transformers =
      o.transformers
      ++ record {
        id = t.id;
        name = t.name;
        transformer_type = t.transformer_type;
        phase = t.phase;
        config = t.config;
      }
        ∷ [];
}

module _ (decrypt : Str → Outcome Str) (guardrails_of transformers_of : ℕ → List ℕ) where
  unfoldable pub source_config : Source → Str → SourceConfig
  source_config s key = record {
    id = s.id;
    route = s.route;
    enabled = s.enabled;
    llm_model = s.llm_model;
    llm_api_key = key;
    llm_base_url = s.llm_base_url;
    input_pass_criteria = s.input_pass_criteria;
    input_pass_threshold = s.input_pass_threshold;
    output_pass_criteria = s.output_pass_criteria;
    output_pass_threshold = s.output_pass_threshold;
    guardrail_ids = guardrails_of s.id;
    transformer_ids = transformers_of s.id;
  }

  -- The loop over the sources: a key that does not decrypt fails the whole build.
  unfoldable pub add_sources : List Source → Orgs → Outcome Orgs
  unfolding source_config
  add_sources [] orgs = ok orgs
  add_sources (s ∷ sources) orgs = elim (lookup s.org_id orgs) [
    | none ↦ add_sources sources orgs
    | some o ↦ decrypt s.llm_api_key_enc >>= λ key.
        add_sources sources
          (insert s.org_id (record o { sources = o.sources ++ source_config s key ∷ [] }) orgs)
  ]

-- The last loop: the organizations in their order.
unfoldable pub gather : List ℕ → Orgs → List OrgConfig
gather [] orgs = []
gather (id ∷ ids) orgs =
    let rest = gather ids orgs in elim (lookup id orgs) [ none ↦ rest | some o ↦ o ∷ rest ]

module _ (decrypt : Str → Outcome Str) (hash : List OrgConfig → String)
    (collates : String → String → Bool) (db : Database) where
  -- The loops before the one over the sources.
  abbrev pub orgs_with_keys : Orgs
  orgs_with_keys =
      add_rows (λ (w : AlertWebhook). w.org_id) add_webhook (list_all_enabled_alert_webhooks db)
        (add_rows (λ (k : ApiKey). k.org_id) add_key (list_all_active_api_keys db)
          (add_empty (list_all_organization_ids db) []))

  abbrev pub orgs_with_sources : Outcome Orgs
  orgs_with_sources =
      add_sources decrypt (λ s. attached_to s (list_all_source_guardrails db))
        (λ s. attached_to s (list_all_source_transformers db)) (list_all_sources collates db)
        orgs_with_keys

  -- The loops after it.
  abbrev pub orgs_with_guardrails : Orgs → Orgs
  orgs_with_guardrails orgs =
      add_rows (λ (t : Transformer). t.org_id) add_transformer (list_all_enabled_transformers db)
        (add_rows (λ (g : Guardrail). g.org_id) add_guardrail (list_all_enabled_guardrails db) orgs)

  unfoldable pub build_config : Outcome WorkspaceConfig
  unfolding gather
  build_config = orgs_with_sources >>= λ orgs.
      let gathered = gather (list_all_organization_ids db) (orgs_with_guardrails orgs) in
      ok (record { version = hash gathered; organizations = gathered })
