-- ===== src/ControlPlane/Sources.antt =====
-- internal/controlplane/service/source.go: `SourceService`.
pub mod Criteria
pub mod Updates
use sheeld.Prelude.{
  ℕ, Bool, true, false, ◌==◌, string_eq, bytes_eq, if◌then◌else◌, String, Str, List, [], Option,
  none, some, map, ◌||◌,
}
use sheeld.Prelude.Int.{ℤ, is_positive}
use sheeld.Prelude.Outcome.{Outcome, ok, err, ◌>>=◌}
use sheeld.ControlPlane.{Source, Database, Result}
use sheeld.ControlPlane.Queries.{create_source, get_source, update_source, delete_source}
use sheeld.ControlPlane.Services.{Environment, Checked, after}
use sheeld.ControlPlane.Guardrails.{default_true}

-- `CreateSourceParams` and `UpdateSourceParams`
pub record SourceParams : Type 0 where
  pub name : String
  pub route : String
  pub description : Option String
  pub llm_provider : String
  pub llm_model : Str
  pub llm_api_key : Str
  pub llm_base_url : Str
  pub input_pass_criteria : String
  pub input_pass_threshold : Option ℤ
  pub output_pass_criteria : String
  pub output_pass_threshold : Option ℤ
  pub enabled : Option Bool

abbrev pub bad_threshold : String
bad_threshold = "pass_threshold must be >= 1 when pass_criteria is n_of_m"

abbrev pub bad_criteria : String
bad_criteria = "pass_criteria must be one of all, any, n_of_m"

-- `threshold == nil || *threshold < 1`, negated.
abbrev pub at_least_one : Option ℤ → Bool
at_least_one none = false
at_least_one (some t) = is_positive t

unfoldable pub validate_criteria : String → Option ℤ → Outcome String
validate_criteria criteria threshold =
    let c = if criteria == "" then "all" else criteria in
    if (c == "all") || (c == "any")
    then ok c
    else if c == "n_of_m"
    then (if at_least_one threshold then ok c else err bad_threshold)
    else err bad_criteria

module _ (env : Environment) where
  unfoldable pub validate_llm_base_url : Str → Checked
  validate_llm_base_url raw = if raw == [] then ok tt else env.check_url raw

  -- The row that a create or an update writes, with the encrypted key.
  unfoldable pub source_row : ℕ → ℕ → SourceParams → Str → String → String → Source
  source_row id org params key input_criteria output_criteria = record {
    id = id;
    org_id = org;
    name = params.name;
    route = params.route;
    description = params.description;
    llm_provider = params.llm_provider;
    llm_model = params.llm_model;
    llm_api_key_enc = key;
    llm_base_url = params.llm_base_url;
    input_pass_criteria = input_criteria;
    input_pass_threshold = params.input_pass_threshold;
    output_pass_criteria = output_criteria;
    output_pass_threshold = params.output_pass_threshold;
    enabled = default_true params.enabled;
  }

  -- The rest of `Create` and `Update`, from the encrypted key on; `write` is the query.
  unfoldable pub write_source :
      ℕ → ℕ → SourceParams → (Source → Database → Result Source) → Database → Str → Result Source
  unfolding validate_criteria source_row
  write_source id org params write db key =
      after (validate_criteria params.input_pass_criteria params.input_pass_threshold) db (λ input.
        after (validate_criteria params.output_pass_criteria params.output_pass_threshold) db
          (λ output. write (source_row id org params key input output) db))

  unfoldable pub create_source_of : ℕ → ℕ → SourceParams → Database → Result Source
  unfolding validate_llm_base_url write_source create_source
  create_source_of id org params db =
      after (validate_llm_base_url params.llm_base_url) db (λ u.
        after (env.encrypt params.llm_api_key) db (write_source id org params create_source db))

  -- The key that an update stores: an empty one in the request keeps the stored one.
  unfoldable pub updated_key : ℕ → ℕ → Str → Database → Outcome Str
  unfolding get_source
  updated_key org id key db =
      if key == [] then (get_source id org db >>= λ s. ok s.llm_api_key_enc) else env.encrypt key

  unfoldable pub update_source_of : ℕ → ℕ → SourceParams → Database → Result Source
  unfolding validate_llm_base_url updated_key write_source update_source
  update_source_of org id params db = after (validate_llm_base_url params.llm_base_url) db (λ u.
      after (updated_key org id params.llm_api_key db) db
        (write_source id org params update_source db))

-- `SourceResponse`, without its times.
pub record SourceResponse : Type 0 where
  pub id : ℕ
  pub name : String
  pub route : String
  pub description : Option String
  pub llm_provider : String
  pub llm_model : Str
  pub llm_base_url : Str
  pub input_pass_criteria : String
  pub input_pass_threshold : Option ℤ
  pub output_pass_criteria : String
  pub output_pass_threshold : Option ℤ
  pub enabled : Bool

unfoldable pub to_source_response : Source → SourceResponse
to_source_response src = record {
  id = src.id;
  name = src.name;
  route = src.route;
  description = src.description;
  llm_provider = src.llm_provider;
  llm_model = src.llm_model;
  llm_base_url = src.llm_base_url;
  input_pass_criteria = src.input_pass_criteria;
  input_pass_threshold = src.input_pass_threshold;
  output_pass_criteria = src.output_pass_criteria;
  output_pass_threshold = src.output_pass_threshold;
  enabled = src.enabled;
}

unfoldable pub to_source_responses : List Source → List SourceResponse
unfolding to_source_response
to_source_responses sources = map to_source_response sources
