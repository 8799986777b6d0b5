-- ===== src/BackendConfig/Apply.antt =====
-- internal/dataplane/backendconfig/store.go: `Apply` and the readers of a guard's configuration.
pub mod Atomic
pub mod Isolation
pub mod Policy
use sheeld.Prelude.{
  ℕ, Bool, true, false, ◌==◌, ◌||◌, nat_eq, string_eq, bytes_eq, if◌then◌else◌, String, Str, str,
  List, [], ◌∷◌, ◌++◌, Option, none, some, lookup, insert,
}
use sheeld.Prelude.Int.{ℤ, pos}
use sheeld.Prelude.Outcome.{Outcome, ok, err, ◌>>=◌}
use sheeld.Json.{Json, null, bool, num, text, arr, obj, Fields, end, field}
use sheeld.Llm.Codec.{decode_string, record_key}
use sheeld.Domain.{
  AlertWebhookConfig, ApiKeyConfig, SourceConfig, TransformerConfig, GuardrailConfig, OrgConfig,
  WorkspaceConfig,
}
use sheeld.Guard.{Guard, with_fail_open, with_shadow, with_scope_all_messages}
use sheeld.Transform
use sheeld.Transform.{Transformer}
use sheeld.Registry.{Registry, create}
use sheeld.BackendConfig.{ResolvedSource, SourceKey, key_eq, AuthInfo, Snapshot, Store}

-- Decoding one string member of a struct, over the members of the object in order.
string_member : Str → Str → Fields → Option Str
string_member name old end = some old
string_member name old (field k v fs) =
    let typed = decode_string old v in
    if record_key k == name
    then elim typed [ none ↦ none | some s ↦ string_member name s fs ]
    else string_member name old fs

-- The member, or "" when the configuration does not decode.
config_string : Str → Json → Str
unfolding string_member
config_string name (obj fs) = elim (string_member name [] fs) [ none ↦ [] | some s ↦ s ]
config_string name null = []
config_string name (bool b) = []
config_string name (num n) = []
config_string name (text s) = []
config_string name (arr vs) = []

unfoldable pub read_scope : Json → Str
unfolding config_string
read_scope config = config_string (str "scope") config

unfoldable pub is_fail_open : Json → Bool
unfolding config_string
is_fail_open config = config_string (str "on_error") config == str "fail_open"

unfoldable pub is_shadow : Json → Bool
unfolding config_string
is_shadow config = config_string (str "mode") config == str "shadow"

-- The decorators that a guardrail's configuration asks for, in the order of the source.
abbrev pub apply_when : Bool → (Guard → Guard) → Guard → Guard
apply_when b f g = if b then f g else g

pub decorate : Json → Guard → Guard
unfolding read_scope is_fail_open is_shadow
decorate config g = apply_when (is_shadow config) with_shadow (
    apply_when (is_fail_open config) with_fail_open
      (apply_when (read_scope config == str "all_messages") with_scope_all_messages g))

-- Appending a guard to the phases that it is configured for.
add_guard : String → Guard → ResolvedSource → ResolvedSource
add_guard phase g r = record r {
  input_guards =
      if (phase == "input") || (phase == "both") then r.input_guards ++ g ∷ [] else r.input_guards;
  output_guards =
      if (phase == "output") || (phase == "both")
      then r.output_guards ++ g ∷ []
      else r.output_guards;
}

add_transformer : String → Transformer → ResolvedSource → ResolvedSource
add_transformer phase t r = record r {
  input_transformers =
      if phase == "input" then r.input_transformers ++ t ∷ [] else r.input_transformers;
  output_transformers =
      if phase == "output" then r.output_transformers ++ t ∷ [] else r.output_transformers;
}

index_guardrails : List (ℕ × GuardrailConfig) → List GuardrailConfig → List (ℕ × GuardrailConfig)
index_guardrails m [] = m
index_guardrails m (g ∷ gs) = index_guardrails (insert g.id g m) gs

index_transformers :
    List (ℕ × TransformerConfig) → List TransformerConfig → List (ℕ × TransformerConfig)
index_transformers m [] = m
index_transformers m (t ∷ ts) = index_transformers (insert t.id t m) ts

-- A limit that is not set is 0, which stands for the default.
unfoldable pub auth_info : ℕ → ApiKeyConfig → AuthInfo
auth_info org_id k = record {
  org_id = org_id;
  key_hash = k.key_hash;
  rate_limit_rps = elim k.rate_limit_rps [ none ↦ pos 0 | some r ↦ r ];
  rate_limit_burst = elim k.rate_limit_burst [ none ↦ pos 0 | some b ↦ b ];
}

add_keys : ℕ → List (String × AuthInfo) → List ApiKeyConfig → List (String × AuthInfo)
unfolding auth_info
add_keys org_id m [] = m
add_keys org_id m (k ∷ ks) = add_keys org_id (insert k.key_hash (auth_info org_id k) m) ks

unfoldable pub new_source : ℕ → SourceConfig → ResolvedSource
new_source org_id src = record {
  id = src.id;
  org_id = org_id;
  route = src.route;
  enabled = src.enabled;
  llm_model = src.llm_model;
  llm_api_key = src.llm_api_key;
  llm_base_url = src.llm_base_url;
  input_pass_criteria = src.input_pass_criteria;
  input_pass_threshold = src.input_pass_threshold;
  output_pass_criteria = src.output_pass_criteria;
  output_pass_threshold = src.output_pass_threshold;
  input_guards = [];
  output_guards = [];
  input_transformers = [];
  output_transformers = [];
}

module _ (guards : Registry Guard) (transformers : Registry Transformer) where
  -- An attached guardrail that is not in the payload is skipped.
  attach_guard : Option GuardrailConfig → ResolvedSource → Outcome ResolvedSource
  unfolding add_guard decorate
  attach_guard none r = ok r
  attach_guard (some gc) r = do
    g ← create guards gc.guard_type gc.name gc.config
    ok (add_guard gc.phase (decorate gc.config g) r)

  attach_guards : List (ℕ × GuardrailConfig) → List ℕ → ResolvedSource → Outcome ResolvedSource
  unfolding attach_guard
  attach_guards by_id [] r = ok r
  attach_guards by_id (gid ∷ gids) r =
      attach_guard (lookup gid by_id) r >>= attach_guards by_id gids

  attach_transformer : Option TransformerConfig → ResolvedSource → Outcome ResolvedSource
  unfolding add_transformer is_fail_open
  attach_transformer none r = ok r
  attach_transformer (some tc) r = do
    t ← create transformers tc.transformer_type tc.name tc.config
    ok (
        add_transformer tc.phase (if is_fail_open tc.config then Transform.with_fail_open t else t)
          r)

  attach_transformers :
      List (ℕ × TransformerConfig) → List ℕ → ResolvedSource → Outcome ResolvedSource
  unfolding attach_transformer
  attach_transformers by_id [] r = ok r
  attach_transformers by_id (tid ∷ tids) r =
      attach_transformer (lookup tid by_id) r >>= attach_transformers by_id tids

  resolve_source :
      List (ℕ × GuardrailConfig)
      → List (ℕ × TransformerConfig)
      → ℕ
      → SourceConfig
      → Outcome ResolvedSource
  unfolding attach_guards attach_transformers new_source
  resolve_source guardrails_by_id transformers_by_id org_id src = do
    r ← attach_guards guardrails_by_id src.guardrail_ids (new_source org_id src)
    attach_transformers transformers_by_id src.transformer_ids r

  add_sources :
      List (ℕ × GuardrailConfig)
      → List (ℕ × TransformerConfig)
      → ℕ
      → List (SourceKey × ResolvedSource)
      → List SourceConfig
      → Outcome (List (SourceKey × ResolvedSource))
  unfolding resolve_source
  add_sources gs ts org_id m [] = ok m
  add_sources gs ts org_id m (src ∷ srcs) = do
    r ← resolve_source gs ts org_id src
    add_sources gs ts org_id (insert (record { org_id = org_id; route = src.route }) r m) srcs

  -- One organization into the snapshot under construction.
  add_org : Snapshot → OrgConfig → Outcome Snapshot
  unfolding add_sources add_keys index_guardrails index_transformers
  add_org snap org = do
    sources ←
        add_sources (index_guardrails [] org.guardrails) (index_transformers [] org.transformers)
          org.id snap.sources org.sources
    ok (record snap {
      sources = sources;
      api_keys = add_keys org.id snap.api_keys org.api_keys;
      alerts = elim org.alert_webhooks [
        | [] ↦ snap.alerts
        | w ∷ ws ↦ insert org.id org.alert_webhooks snap.alerts
      ];
    })

  add_orgs : Snapshot → List OrgConfig → Outcome Snapshot
  unfolding add_org
  add_orgs snap [] = ok snap
  add_orgs snap (org ∷ orgs) = add_org snap org >>= λ s. add_orgs s orgs

  abbrev empty_snapshot : String → Snapshot
  empty_snapshot version = record { version = version; api_keys = []; sources = []; alerts = [] }

  pub build : WorkspaceConfig → Outcome Snapshot
  unfolding add_orgs
  build cfg = add_orgs (empty_snapshot cfg.version) cfg.organizations

  -- The error of `Apply`, if any, and the store after it.
  unfoldable pub apply : WorkspaceConfig → Store → Option String × Store
  unfolding build
  apply cfg s = elim (build cfg) [
    | err e ↦ (some e, s)
    | ok snap ↦ (none, record { current = some snap })
  ]
