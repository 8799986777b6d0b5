-- ===== src/ControlPlane/Api/Transformers.antt =====
-- internal/controlplane/api/handler/transformer.go: `TransformerHandler`.
use sheeld.Prelude.{ℕ, ◌==◌, nat_eq, string_eq, if◌then◌else◌, map, Option, none, some}
use sheeld.ControlPlane.{Transformer, Database}
use sheeld.ControlPlane.Redaction.{sanitize_config, unmarshal_config}
use sheeld.ControlPlane.Queries.Chains.{
  get_transformer, list_transformers_by_org, delete_transformer,
}
use sheeld.ControlPlane.Transformers.{
  TransformerParams, create_transformer_of, update_transformer_of, attach_transformer,
  detach_transformer, list_sources_of_transformer, list_transformers_of_source,
  set_source_transformers,
}
use sheeld.ControlPlane.Api.{
  Server, Drawn, Request, Reply, TransformerResponse, json, authorized, parsed, required, finished,
  fixed, shown, transformer_body, transformers_body, status_body, summaries_body,
}
use sheeld.ControlPlane.Api.Guardrails.{to_source_summaries}

-- The identifier that a body must name: none for a nil one.
abbrev pub given_id : Option ℕ → Option ℕ
given_id none = none
given_id (some id) = if id == 0 then none else some id

module _ (server : Server) where
  unfoldable pub to_transformer_response : Transformer → TransformerResponse
  to_transformer_response t = record {
    id = t.id;
    organization_id = t.org_id;
    name = t.name;
    transformer_type = t.transformer_type;
    phase = t.phase;
    config = sanitize_config server.env.to_lower (unmarshal_config t.config);
    enabled = t.enabled;
    position = none;
  }

  -- A row of a source's chain, with its position.
  unfoldable pub placed_response : Transformer × ℕ → TransformerResponse
  unfolding to_transformer_response
  placed_response (t, position) =
      let shape = to_transformer_response t in record shape { position = some position }

module _ (server : Server) (org : ℕ) (r : Request) (db : Database) where
  -- The start of a method: the organization, then the identifier in the URL.
  abbrev pub parse_transformer_id : (ℕ → Reply) → Reply
  parse_transformer_id next =
      authorized org db (parsed (server.decode.parse_uuid r.id) "invalid transformer ID" db next)

  abbrev pub parse_chain_source_id : (ℕ → Reply) → Reply
  parse_chain_source_id next =
      authorized org db (parsed (server.decode.parse_uuid r.source_id) "invalid source ID" db next)

  create_transformer_params : ℕ → TransformerParams → Reply
  create_transformer_params id p = required (p.name == "") "name" "name is required" db (
      required (p.transformer_type == "") "transformer_type" "transformer type is required" db (
        finished (create_transformer_of server.env id org p db) 422 shown 201
          (λ t. transformer_body (to_transformer_response server t))))

  unfoldable pub create_transformer_handler : Drawn → Reply
  unfolding create_transformer_params
  create_transformer_handler drawn = authorized org db (
      parsed (server.decode.transformer_params r.body) "invalid request body" db
        (create_transformer_params drawn.row))

  unfoldable pub list_transformers_handler : Reply
  list_transformers_handler = authorized org db (
    json 200 (
        transformers_body (map (to_transformer_response server) (list_transformers_by_org org db))),
    db,
  )

  unfoldable pub get_transformer_handler : Reply
  get_transformer_handler = parse_transformer_id (λ id.
      finished (get_transformer id org db, db) 404 (fixed "transformer not found") 200
        (λ t. transformer_body (to_transformer_response server t)))

  unfoldable pub update_transformer_handler : Reply
  update_transformer_handler = parse_transformer_id (λ id.
      parsed (server.decode.transformer_params r.body) "invalid request body" db (λ p.
        finished (update_transformer_of server.env org id p db) 422 shown 200
          (λ t. transformer_body (to_transformer_response server t))))

  unfoldable pub delete_transformer_handler : Reply
  delete_transformer_handler = parse_transformer_id (λ id.
      finished (delete_transformer id org db) 500 (fixed "failed to delete transformer") 200
        (λ u. status_body "deleted"))

  -- Every error of the service, a missing row too, is a 400 that shows it.
  unfoldable pub attach_transformer_handler : Reply
  attach_transformer_handler = parse_transformer_id (λ id.
      parsed (given_id (server.decode.attach_to_transformer r.body)) "source_id is required" db
        (λ source.
          finished (attach_transformer org id source db) 400 shown 201
            (λ u. status_body "attached")))

  unfoldable pub list_sources_of_transformer_handler : Reply
  list_sources_of_transformer_handler = parse_transformer_id (λ id.
      finished (list_sources_of_transformer org id db, db) 404 (fixed "transformer not found") 200
        (λ sources. summaries_body (to_source_summaries sources)))

  unfoldable pub detach_transformer_handler : Reply
  detach_transformer_handler = parse_transformer_id (λ id.
      parsed (server.decode.parse_uuid r.source_id) "invalid source ID" db (λ source.
        finished (detach_transformer org id source db) 404 (fixed "transformer not found") 200
          (λ u. status_body "detached")))

  unfoldable pub list_transformers_of_source_handler : Reply
  list_transformers_of_source_handler = parse_chain_source_id (λ source.
      finished (list_transformers_of_source org source db, db) 404 (fixed "source not found") 200
        (λ rows. transformers_body (map (placed_response server) rows)))

  unfoldable pub set_source_transformers_handler : Reply
  set_source_transformers_handler = parse_chain_source_id (λ source.
      parsed (server.decode.transformer_ids r.body) "invalid request body" db (λ ids.
        finished (set_source_transformers org source ids db) 422 shown 200
          (λ u. status_body "updated")))
