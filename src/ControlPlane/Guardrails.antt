-- ===== src/ControlPlane/Guardrails.antt =====
-- internal/controlplane/service/guardrail.go: `GuardrailService`.
pub mod Updates
use sheeld.Prelude.{
  ℕ, Bool, true, false, ◌==◌, string_eq, if◌then◌else◌, String, Str, List, [], Option, none, some,
  map,
}
use sheeld.Prelude.Outcome.{Outcome, ok, err, ◌>>=◌}
use sheeld.Json.{Json}
use sheeld.Guard.{Guard, CallMeta, Validation, validated, errored, GuardResult, validate}
use sheeld.Registry.{create}
use sheeld.ControlPlane.{Source, Guardrail, Database, Result}
use sheeld.ControlPlane.Queries.{
  create_guardrail, get_guardrail, list_guardrails_by_org, list_guardrails_by_source,
  list_enabled_guardrails_by_source, update_guardrail, delete_guardrail, attach_guardrail_to_source,
  detach_guardrail_from_source, list_sources_by_guardrail, get_source,
}
use sheeld.ControlPlane.Redaction.{
  Config, sanitize_config, preserve_redacted_secrets, marshal_config, unmarshal_config,
}
use sheeld.ControlPlane.Services.{Environment, after}

-- `CreateGuardrailParams` and `UpdateGuardrailParams`
pub record GuardrailParams : Type 0 where
  pub name : String
  pub guard_type : String
  pub phase : String
  pub config : Config
  pub enabled : Option Bool

abbrev pub default_true : Option Bool → Bool
default_true none = true
default_true (some b) = b

abbrev pub default_phase : String → String
default_phase phase = if phase == "" then "input" else phase

unfoldable pub guardrail_defaults : String → Option Bool → String × Bool
guardrail_defaults phase enabled = (default_phase phase, default_true enabled)

-- `GuardrailResponse`, without its times.
pub record GuardrailResponse : Type 0 where
  pub id : ℕ
  pub organization_id : ℕ
  pub name : String
  pub guard_type : String
  pub phase : String
  pub config : Config
  pub enabled : Bool

module _ (env : Environment) where
  unfoldable pub validate_config : String → String → Config → Outcome Json
  validate_config name kind config =
      create env.guards kind name (marshal_config config) >>= λ g. ok (marshal_config config)

  -- The row that a create or an update writes.
  unfoldable pub guardrail_row : ℕ → ℕ → GuardrailParams → Json → Guardrail
  unfolding guardrail_defaults
  guardrail_row id org params config =
      let (phase, enabled) = guardrail_defaults params.phase params.enabled in
      record {
        id = id;
        org_id = org;
        name = params.name;
        guard_type = params.guard_type;
        phase = phase;
        config = config;
        enabled = enabled;
      }

  -- `id` is the identifier that the database gives the new row.
  unfoldable pub create_guardrail_of : ℕ → ℕ → GuardrailParams → Database → Result Guardrail
  unfolding validate_config guardrail_row create_guardrail
  create_guardrail_of id org params db =
      after (validate_config params.name params.guard_type params.config) db
        (λ config. create_guardrail (guardrail_row id org params config) db)

  -- The stored secrets, where the guardrail is found.
  unfoldable pub with_stored_secrets : Outcome Guardrail → Config → Config
  with_stored_secrets (err e) config = config
  with_stored_secrets (ok g) config = preserve_redacted_secrets config (unmarshal_config g.config)

  unfoldable pub update_guardrail_of : ℕ → ℕ → GuardrailParams → Database → Result Guardrail
  unfolding with_stored_secrets validate_config guardrail_row update_guardrail get_guardrail
  update_guardrail_of org id params db =
      let config = with_stored_secrets (get_guardrail id org db) params.config in
      after (validate_config params.name params.guard_type config) db
        (λ json. update_guardrail (guardrail_row id org params json) db)

  -- `Test`: the guard of a stored guardrail on a sample text.
  unfoldable pub test_guardrail : ℕ → ℕ → Str → Database → Outcome GuardResult
  unfolding get_guardrail
  test_guardrail org id input db = get_guardrail id org db >>= λ g.
      create env.guards g.guard_type g.name g.config >>= λ built.
      elim (validate built
        (some (record { phase = "test"; source_route = ""; all_messages_text = [] })) input) [
          | validated r ↦ ok r
          | errored e ↦ err e
        ]

  unfoldable pub to_guardrail_response : Guardrail → GuardrailResponse
  to_guardrail_response g = record {
    id = g.id;
    organization_id = g.org_id;
    name = g.name;
    guard_type = g.guard_type;
    phase = g.phase;
    config = sanitize_config env.to_lower (unmarshal_config g.config);
    enabled = g.enabled;
  }

  unfoldable pub to_guardrail_responses : List Guardrail → List GuardrailResponse
  to_guardrail_responses gs = map to_guardrail_response gs

unfoldable pub list_guardrails_of_source : ℕ → ℕ → Database → Outcome (List Guardrail)
list_guardrails_of_source org source db =
    get_source source org db >>= λ s. ok (list_guardrails_by_source source db)

-- It checks that the guardrail is the organization's; nothing is asked of the source.
unfoldable pub attach_guardrail : ℕ → ℕ → ℕ → Database → Result Unit
attach_guardrail org id source db =
    after (get_guardrail id org db) db (λ g. attach_guardrail_to_source source id db)

unfoldable pub detach_guardrail : ℕ → ℕ → ℕ → Database → Result Unit
detach_guardrail org id source db =
    after (get_guardrail id org db) db (λ g. detach_guardrail_from_source source id db)

unfoldable pub list_sources_of_guardrail : ℕ → ℕ → Database → Outcome (List Source)
list_sources_of_guardrail org id db =
    get_guardrail id org db >>= λ g. ok (list_sources_by_guardrail id db)
