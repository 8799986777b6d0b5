-- ===== src/ControlPlane/Tests.antt =====
-- The control plane's services at concrete databases.
use sheeld.Prelude.{
  ℕ, ◌+◌, ◌≡◌, ◌≢◌, refl, true, ◌&&◌, leb, if◌then◌else◌, String, Str, str, List, [], ◌∷◌, ◌++◌,
  none, some, inl, map, Bool, false,
}
use sheeld.Prelude.Int.{pos}
use sheeld.Prelude.Outcome.{ok, err}
use sheeld.Json.{Json, text}
use sheeld.Registry.{register, create}
use sheeld.ControlPlane.{Source, Guardrail, Transformer, ApiKey, Database}
use sheeld.ControlPlane.Queries.{
  get_source, get_guardrail, attach_guardrail_to_source, list_sources_by_guardrail,
}
use sheeld.ControlPlane.Redaction.{sanitize_config, marshal_config}
use sheeld.ControlPlane.Redaction.RoundTrip.{sanitize_hides}
use sheeld.ControlPlane.Services.{Environment}
use sheeld.ControlPlane.Guardrails.{
  attach_guardrail, list_sources_of_guardrail, update_guardrail_of, to_guardrail_response,
}
use sheeld.ControlPlane.Guardrails.Updates.{resubmitted, IsStored, resubmitted_unchanged}
use sheeld.ControlPlane.Sources.{SourceParams, update_source_of}
use sheeld.ControlPlane.Sources.Updates.{update_keeps_key}
use sheeld.ControlPlane.Transformers.{set_source_transformers}
use sheeld.ControlPlane.Transformers.Chain.Replaced.{SetsChain, set_source_transformers_lem}
use sheeld.ControlPlane.Calls.{
  Call, updates_source, deletes_guardrail, sets_chain, attaches_guardrail,
}
use sheeld.ControlPlane.Queries.{no_rows}
use sheeld.ControlPlane.Queries.Accounts.{create_api_key, revoke_api_key}
use sheeld.ControlPlane.Accounts.{as_int32, create_api_key_of, validate_api_key}
use sheeld.ControlPlane.Accounts.Keys.{key_lifecycle}
use sheeld.Samples.{blocks_bad, redacts}

abbrev ascii_lower : Str → Str
ascii_lower s = map (λ c. if leb 65 c && leb c 90 then c + 32 else c) s

abbrev pub env : Environment
env = record {
  guards = register [] "blocklist" (λ name config. ok blocks_bad);
  transformers = register [] "presidio" (λ name config. ok redacts);
  encrypt = λ s. ok (str "enc:" ++ s);
  check_url = λ u. ok tt;
  to_lower = ascii_lower;
  digest = λ key. "digest";
}

abbrev pub source_of : ℕ → ℕ → Source
source_of id org = record {
  id = id;
  org_id = org;
  name = "chat";
  route = "chat";
  description = none;
  llm_provider = "openai";
  llm_model = str "gpt";
  llm_api_key_enc = str "enc:key";
  llm_base_url = [];
  input_pass_criteria = "all";
  input_pass_threshold = none;
  output_pass_criteria = "n_of_m";
  output_pass_threshold = some (pos 2);
  enabled = true;
}

abbrev secret_config : List (String × Json)
secret_config = ("url", text (str "https://a.b")) ∷ ("Api_Key", text (str "sk-1")) ∷ []

abbrev pub webhook : Guardrail
webhook = record {
  id = 30;
  org_id = 1;
  name = "words";
  guard_type = "blocklist";
  phase = "input";
  config = marshal_config (some secret_config);
  enabled = true;
}

abbrev transformer_of : ℕ → Transformer
transformer_of id = record {
  id = id;
  org_id = 1;
  name = "pii";
  transformer_type = "presidio";
  phase = "input";
  config = marshal_config (some []);
  enabled = true;
}

abbrev pub key_of : ℕ → Bool → ApiKey
key_of id revoked = record {
  id = id;
  org_id = 1;
  name = "laptop";
  key_hash = "hash";
  key_prefix = str "shld_0";
  rate_limit_rps = none;
  rate_limit_burst = none;
  revoked = revoked;
}

-- Organization 1 has the source 10, organization 2 the source 20.
abbrev pub tables : Database
tables = record {
  organizations = record { id = 1; name = "Acme" } ∷ record { id = 2; name = "Beta" } ∷ [];
  users = [];
  sources = source_of 10 1 ∷ source_of 20 2 ∷ [];
  guardrails = webhook ∷ [];
  transformers = transformer_of 40 ∷ transformer_of 41 ∷ [];
  alert_webhooks = [];
  api_keys = key_of 50 false ∷ key_of 51 true ∷ [];
  source_guardrails = [];
  source_transformers = [];
}

abbrev renamed : SourceParams
renamed = record {
  name = "talk";
  route = "talk";
  description = none;
  llm_provider = "openai";
  llm_model = str "gpt";
  llm_api_key = [];
  llm_base_url = [];
  input_pass_criteria = "";
  input_pass_threshold = none;
  output_pass_criteria = "any";
  output_pass_threshold = none;
  enabled = none;
}

-- Organization 1 attaches its guardrail to the source of organization 2, and is then shown that source.
foreign_source_shown :
    list_sources_of_guardrail 1 30 (attach_guardrail 1 30 20 tables).1 ≡ ok (source_of 20 2 ∷ [])
unfolding list_sources_of_guardrail attach_guardrail get_guardrail attach_guardrail_to_source
    list_sources_by_guardrail
foreign_source_shown = refl

abbrev calls : List (ℕ × Call)
calls =
    (1, updates_source 10 renamed)
    ∷ (1, sets_chain 10 (41 ∷ 40 ∷ []))
    ∷ (1, attaches_guardrail 30 20)
    ∷ (1, deletes_guardrail 30)
    ∷ []

set_source_transformers_lem_example :
    SetsChain 1 10 (41 ∷ 40 ∷ []) tables (set_source_transformers 1 10 (41 ∷ 40 ∷ []) tables)
set_source_transformers_lem_example =
    set_source_transformers_lem 1 10 (41 ∷ 40 ∷ []) tables (refl, (refl, tt))

abbrev renamed_row : Source
renamed_row = record (source_of 10 1) {
  name = "talk";
  route = "talk";
  output_pass_criteria = "any";
  output_pass_threshold = none;
}

abbrev renamed_tables : Database
renamed_tables = record tables { sources = renamed_row ∷ source_of 20 2 ∷ [] }

renames : update_source_of env 1 10 renamed tables ≡ (ok renamed_row, renamed_tables)
unfolding update_source_of
renames = refl

found_ten : get_source 10 1 tables ≡ ok (source_of 10 1)
unfolding get_source
found_ten = refl

update_keeps_key_example :
    (get_source 10 1 renamed_tables ≡ ok renamed_row)
    × ((renamed.llm_api_key ≡ [] → renamed_row.llm_api_key_enc ≡ str "enc:key")
        × (renamed.llm_api_key ≢ []
            → env.encrypt renamed.llm_api_key ≡ ok (renamed_row.llm_api_key_enc)))
update_keeps_key_example =
    update_keeps_key env 1 10 renamed (source_of 10 1) renamed_row tables renamed_tables found_ten
      renames

webhook-IsStored : IsStored env webhook
unfolding create register
webhook-IsStored = record {
  config = some secret_config;
  marshalled = refl;
  is_map = (refl, (refl, tt));
  has_phase = λ e. cc;
  guard = blocks_bad;
  accepted = refl;
}

found_thirty : get_guardrail 30 1 tables ≡ ok webhook
unfolding get_guardrail
found_thirty = refl

resubmitted_unchanged_example :
    ((update_guardrail_of env 1 30 (resubmitted (to_guardrail_response env webhook)) tables).0
      ≡ ok webhook)
    × (get_guardrail 30 1
          (update_guardrail_of env 1 30 (resubmitted (to_guardrail_response env webhook)) tables).1
        ≡ ok webhook)
resubmitted_unchanged_example =
    resubmitted_unchanged env 1 30 webhook tables webhook-IsStored found_thirty

abbrev other_secret : List (String × Json)
other_secret = ("url", text (str "https://a.b")) ∷ ("Api_Key", text (str "sk-2")) ∷ []

sanitize_hides_example :
    sanitize_config ascii_lower (some secret_config)
    ≡ sanitize_config ascii_lower (some other_secret)
sanitize_hides_example =
    sanitize_hides ascii_lower secret_config other_secret
      (refl, (λ e. refl, (refl, (λ n. absurd (n (inl refl)), tt))))

-- A digest that tells the keys of the tests apart.
abbrev digest : Str → String
digest raw = "fresh"

abbrev created : ApiKey
created = record (key_of 52 false) {
  org_id = 2;
  key_hash = "fresh";
  key_prefix = str "shld_abcd0123";
}

abbrev grown_tables : Database
grown_tables = record tables { api_keys = key_of 50 false ∷ key_of 51 true ∷ created ∷ [] }

creates :
    create_api_key_of digest (str "abcd012345") 52 2 "laptop" none none tables
    ≡ (ok (created, str "shld_abcd012345"), grown_tables)
unfolding create_api_key_of create_api_key
creates = refl

key_lifecycle_example :
    (validate_api_key digest (str "shld_abcd012345") grown_tables ≡ ok 2)
    × ((validate_api_key digest (str "shld_abcd012345") (revoke_api_key 52 2 grown_tables).1
          ≡ err no_rows)
        × ((other j : ℕ)
            → other ≢ 2
            → validate_api_key digest
                (str "shld_abcd012345")
                (revoke_api_key j other grown_tables).1
              ≡ ok 2))
key_lifecycle_example =
    key_lifecycle digest (str "abcd012345") 52 2 "laptop" none none tables created
      (str "shld_abcd012345") grown_tables creates

-- A burst of 2 ^ 32 + 1 is stored as a burst of one.
burst_wraps : as_int32 digest (some (pos 4294967297)) ≡ some (pos 1)
burst_wraps = refl
