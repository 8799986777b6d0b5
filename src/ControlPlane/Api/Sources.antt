-- ===== src/ControlPlane/Api/Sources.antt =====
-- internal/controlplane/api/handler/source.go: `SourceHandler`; and connections.go.
use sheeld.Prelude.{
  ℕ, ◌==◌, nat_eq, string_eq, bytes_eq, exists, ◌&&◌, filter, [], List, sort_by, ltb,
}
use sheeld.ControlPlane.{Source, Database}
use sheeld.ControlPlane.Queries.{get_source, list_sources_by_organization, delete_source}
use sheeld.ControlPlane.Sources.{
  SourceParams, create_source_of, update_source_of, to_source_response, to_source_responses,
}
use sheeld.ControlPlane.Api.{
  Server, Drawn, Request, Reply, json, authorized, parsed, required, finished, fixed, shown,
  source_body, sources_body, status_body, connections_body,
}

-- `ListSourceGuardrailsByOrg`: the attachments to the organization's sources, by the source.
unfoldable pub list_source_guardrails_by_org : ℕ → Database → List (ℕ × ℕ)
list_source_guardrails_by_org org db =
    sort_by (λ (a : ℕ × ℕ) (b : ℕ × ℕ). ltb a.0 b.0)
      (filter
        (λ (a : ℕ × ℕ). exists (λ (s : Source). (s.id == a.0) && (s.org_id == org)) db.sources)
        db.source_guardrails)

module _ (server : Server) (org : ℕ) (r : Request) (db : Database) where
  create_source_params : ℕ → SourceParams → Reply
  create_source_params id p = required (p.name == "") "name" "name is required" db (
      required (p.route == "") "route" "route is required" db (
        required (p.llm_provider == "") "llm_provider" "LLM provider is required" db (
          required (p.llm_model == []) "llm_model" "LLM model is required" db (
            required (p.llm_api_key == []) "llm_api_key" "LLM API key is required" db (
              finished (create_source_of server.env id org p db) 422 shown 201
                (λ s. source_body (to_source_response s)))))))

  unfoldable pub create_source_handler : Drawn → Reply
  unfolding create_source_params
  create_source_handler drawn = authorized org db (
      parsed (server.decode.source_params r.body) "invalid request body" db
        (create_source_params drawn.row))

  unfoldable pub list_sources_handler : Reply
  list_sources_handler =
      authorized org db
        (json 200 (sources_body (to_source_responses (list_sources_by_organization org db))), db)

  unfoldable pub get_source_handler : Reply
  get_source_handler = authorized org db (
      parsed (server.decode.parse_uuid r.id) "invalid source ID" db (λ id.
        finished (get_source id org db, db) 404 (fixed "source not found") 200
          (λ s. source_body (to_source_response s))))

  unfoldable pub update_source_handler : Reply
  update_source_handler = authorized org db (
      parsed (server.decode.parse_uuid r.id) "invalid source ID" db (λ id.
        parsed (server.decode.source_params r.body) "invalid request body" db (λ p.
          finished (update_source_of server.env org id p db) 422 shown 200
            (λ s. source_body (to_source_response s)))))

  unfoldable pub delete_source_handler : Reply
  delete_source_handler = authorized org db (
      parsed (server.decode.parse_uuid r.id) "invalid source ID" db (λ id.
        finished (delete_source id org db) 500 (fixed "failed to delete source") 200
          (λ u. status_body "deleted")))

  unfoldable pub list_connections_handler : Reply
  list_connections_handler =
      authorized org db (json 200 (connections_body (list_source_guardrails_by_org org db)), db)
