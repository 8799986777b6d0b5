-- ===== src/ControlPlane/Api/Guardrails.antt =====
-- internal/controlplane/api/handler/guardrail.go: `GuardrailHandler`. None of its methods asks whether
-- the organization is nil.
use sheeld.Prelude.{ℕ, ◌==◌, string_eq, List, map}
use sheeld.ControlPlane.{Source, Database}
use sheeld.ControlPlane.Queries.{get_guardrail, list_guardrails_by_org, delete_guardrail}
use sheeld.ControlPlane.Guardrails.{
  GuardrailParams, create_guardrail_of, update_guardrail_of, test_guardrail, to_guardrail_response,
  to_guardrail_responses, attach_guardrail, detach_guardrail, list_sources_of_guardrail,
  list_guardrails_of_source, default_phase,
}
use sheeld.ControlPlane.Api.{
  Server, Drawn, Request, Reply, SourceSummary, json, parsed, required, finished, fixed, shown,
  guardrail_body, guardrails_body, result_body, status_body, summaries_body,
}

unfoldable pub to_source_summaries : List Source → List SourceSummary
to_source_summaries sources =
    map (λ (s : Source). record { id = s.id; name = s.name; route = s.route }) sources

module _ (server : Server) (org : ℕ) (r : Request) (db : Database) where
  -- The identifiers in the URL.
  abbrev pub parse_guardrail_id : (ℕ → Reply) → Reply
  parse_guardrail_id = parsed (server.decode.parse_uuid r.id) "invalid guardrail ID" db

  abbrev pub parse_source_id_param : (ℕ → Reply) → Reply
  parse_source_id_param = parsed (server.decode.parse_uuid r.source_id) "invalid source ID" db

  create_guardrail_params : ℕ → GuardrailParams → Reply
  create_guardrail_params id p = required (p.name == "") "name" "name is required" db (
      required (p.guard_type == "") "guard_type" "guard type is required" db (
        finished
          (create_guardrail_of server.env id org (record p { phase = default_phase p.phase }) db)
          422 shown 201 (λ g. guardrail_body (to_guardrail_response server.env g))))

  unfoldable pub create_guardrail_handler : Drawn → Reply
  unfolding create_guardrail_params
  create_guardrail_handler drawn =
      parsed (server.decode.guardrail_params r.body) "invalid request body" db
        (create_guardrail_params drawn.row)

  unfoldable pub list_guardrails_handler : Reply
  list_guardrails_handler = (
    json 200 (guardrails_body (to_guardrail_responses server.env (list_guardrails_by_org org db))),
    db,
  )

  unfoldable pub get_guardrail_handler : Reply
  get_guardrail_handler = parse_guardrail_id (λ id.
      finished (get_guardrail id org db, db) 404 (fixed "guardrail not found") 200
        (λ g. guardrail_body (to_guardrail_response server.env g)))

  unfoldable pub test_guardrail_handler : Reply
  test_guardrail_handler = parse_guardrail_id (λ id.
      parsed (server.decode.test_input r.body) "invalid request body" db (λ input.
        finished (test_guardrail server.env org id input db, db) 422 shown 200
          (λ result. result_body result)))

  unfoldable pub update_guardrail_handler : Reply
  update_guardrail_handler = parse_guardrail_id (λ id.
      parsed (server.decode.guardrail_params r.body) "invalid request body" db (λ p.
        finished (update_guardrail_of server.env org id p db) 422 shown 200
          (λ g. guardrail_body (to_guardrail_response server.env g))))

  unfoldable pub delete_guardrail_handler : Reply
  delete_guardrail_handler = parse_guardrail_id (λ id.
      finished (delete_guardrail id org db) 500 (fixed "failed to delete guardrail") 200
        (λ u. status_body "deleted"))

  unfoldable pub attach_guardrail_handler : Reply
  attach_guardrail_handler = parse_guardrail_id (λ id.
      parsed (server.decode.attach_to_guardrail r.body) "invalid request body" db (λ text.
        parsed (server.decode.parse_uuid text) "invalid source_id" db (λ source.
          finished (attach_guardrail org id source db) 500
            (fixed "failed to attach guardrail to source") 201 (λ u. status_body "attached"))))

  unfoldable pub detach_guardrail_handler : Reply
  detach_guardrail_handler = parse_guardrail_id (λ id. parse_source_id_param (λ source.
      finished (detach_guardrail org id source db) 404 (fixed "guardrail not found") 200
        (λ u. status_body "detached")))

  unfoldable pub list_sources_of_guardrail_handler : Reply
  list_sources_of_guardrail_handler = parse_guardrail_id (λ id.
      finished (list_sources_of_guardrail org id db, db) 404 (fixed "guardrail not found") 200
        (λ sources. summaries_body (to_source_summaries sources)))

  unfoldable pub list_guardrails_of_source_handler : Reply
  list_guardrails_of_source_handler = parse_source_id_param (λ source.
      finished (list_guardrails_of_source org source db, db) 404 (fixed "source not found") 200
        (λ gs. guardrails_body (to_guardrail_responses server.env gs)))
