-- ===== src/ControlPlane/Builder/Served.antt =====
-- The two planes together: what a data plane that applied configurations built by the control plane
-- looks up, against the control plane's rows.
use mathlib.Core.List.{Memᴰ}
use sheeld.Prelude.{ℕ, ◌≡◌, ap, ◌∙◌, sym, Bool, false, String, Str, List, some, All, All-Mem}
use sheeld.Prelude.Outcome.{Outcome, ok}
use sheeld.Domain.{WorkspaceConfig, OrgConfig, SourceConfig, ApiKeyConfig}
use sheeld.Guard.{Guard}
use sheeld.Transform.{Transformer as Rewriting}
use sheeld.Registry.{Registry}
use sheeld.BackendConfig.{ResolvedSource, AuthInfo, lookup_source, lookup_api_key}
use sheeld.BackendConfig.Apply.{new_source, auth_info}
use sheeld.BackendConfig.Apply.Atomic.{serving, lookup_source_isolated, lookup_api_key_sound}
use sheeld.ControlPlane.{Source, ApiKey, Database}
use sheeld.ControlPlane.Builder.{build_config, source_config, key_config}
use sheeld.ControlPlane.Builder.Ownership.{HasOwnRows, build_config-owned}

module _ (guards : Registry Guard) (transformers : Registry Rewriting) (decrypt : Str → Outcome Str)
    (hash : List OrgConfig → String) (collates : String → String → Bool) (dbs : List Database) where
  -- A configuration that was built from one of the databases.
  abbrev pub IsBuilt : WorkspaceConfig → Type 0
  IsBuilt cfg = (db : Database) × (Memᴰ db dbs × (build_config decrypt hash collates db ≡ ok cfg))

  -- The resolved source is a row of the organization in one of the databases, with the row's settings.
  pub record ServedSource (org : ℕ) (route : String) (r : ResolvedSource) : Type 0 where
    pub db : Database
    pub among : Memᴰ db dbs
    pub row : Source
    pub listed : Memᴰ row db.sources
    pub owned : row.org_id ≡ org
    pub routed : row.route ≡ route
    pub key : decrypt row.llm_api_key_enc ≡ ok (r.llm_api_key)
    pub enabled : r.enabled ≡ row.enabled
    pub input_criteria : r.input_pass_criteria ≡ row.input_pass_criteria
    pub output_criteria : r.output_pass_criteria ≡ row.output_pass_criteria

  -- The key is a row of the organization in one of the databases, and was not revoked there.
  pub record ServedKey (key_hash : String) (org : ℕ) : Type 0 where
    pub db : Database
    pub among : Memᴰ db dbs
    pub row : ApiKey
    pub listed : Memᴰ row db.api_keys
    pub active : row.revoked ≡ false
    pub owned : row.org_id ≡ org
    pub hashed : row.key_hash ≡ key_hash

  module _ (cfgs : List WorkspaceConfig) (built : All IsBuilt cfgs) where
    -- The configuration's organization, in terms of the rows of the database that it was built from.
    org_rows :
        (cfg : WorkspaceConfig) (org : OrgConfig)
        → Memᴰ cfg cfgs
        → Memᴰ org cfg.organizations
        → (db : Database) × (Memᴰ db dbs × HasOwnRows decrypt hash collates db org)
    org_rows cfg org i j =
        let (db, (m, e)) = All-Mem IsBuilt cfg cfgs i built in
        (
          db,
          (
            m,
            All-Mem (HasOwnRows decrypt hash collates db) org cfg.organizations j
                (build_config-owned decrypt hash collates db cfg e),
          ),
        )

    -- From the databases to a request: when every configuration that was applied was built by the
    -- control plane from one of `dbs`, a source that a data plane finds for an organization and a route
    -- is a row of that organization with that route in one of `dbs`, with the row's criteria and its key
    -- decrypted.
    pub served_source :
        (org : ℕ) (route : String) (r : ResolvedSource)
        → lookup_source (serving guards transformers cfgs) org route ≡ some r
        → ServedSource org route r
    unfolding new_source source_config
    served_source org route r h =
        let (o, t, (cfg, i, q)) = lookup_source_isolated guards transformers cfgs org route r h in
        let (db, (m, rows)) = org_rows cfg q.org i q.org_listed in
        let s = All-Mem _ q.src q.org.sources q.src_listed rows.1.1 in
        let same = q.same_settings ∙ ap (new_source q.org.id) s.same in
        record {
          db = db;
          among = m;
          row = s.row;
          listed = s.listed;
          owned = s.owned ∙ sym q.key_org;
          routed = sym (ap (λ (c : SourceConfig). c.route) s.same) ∙ sym q.key_route;
          key = s.decrypted ∙ ap ok (sym (ap (λ (z : ResolvedSource). z.llm_api_key) same));
          enabled = ap (λ (z : ResolvedSource). z.enabled) same;
          input_criteria = ap (λ (z : ResolvedSource). z.input_pass_criteria) same;
          output_criteria = ap (λ (z : ResolvedSource). z.output_pass_criteria) same;
        }

    -- From the databases to authentication: when every configuration that was applied was built by the
    -- control plane from one of `dbs`, an API key that a data plane accepts is a row, in one of `dbs`, of
    -- the organization that it is accepted for, with the hash of what was presented, and is not revoked
    -- in that database.
    pub served_key :
        (key_hash : Str → String) (raw : Str) (info : AuthInfo)
        → lookup_api_key key_hash (serving guards transformers cfgs) raw ≡ some info
        → ServedKey (key_hash raw) info.org_id
    unfolding auth_info key_config
    served_key key_hash raw info h =
        let (same_hash, (cfg, i, q)) =
          lookup_api_key_sound guards transformers key_hash cfgs raw info h in
        let (db, (m, rows)) = org_rows cfg q.org i q.org_listed in
        let k = All-Mem _ q.key q.org.api_keys q.key_listed rows.1.0 in
        record {
          db = db;
          among = m;
          row = k.row;
          listed = k.listed;
          active = k.active;
          owned = k.owned ∙ sym (ap (λ (z : AuthInfo). z.org_id) q.same_info);
          hashed = sym (ap (λ (c : ApiKeyConfig). c.key_hash) k.same) ∙ sym q.same_hash;
        }
