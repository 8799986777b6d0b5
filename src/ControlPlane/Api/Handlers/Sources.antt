-- ===== src/ControlPlane/Api/Handlers/Sources.antt =====
-- The handlers of source.go and connections.go.
use sheeld.Prelude.{ℕ, refl, ◌==◌, nat_eq, string_eq, bytes_eq, [], arith}
use sheeld.ControlPlane.{Database}
use sheeld.ControlPlane.Queries.{get_source, delete_source}
use sheeld.ControlPlane.Sources.{create_source_of, update_source_of}
use sheeld.ControlPlane.Calls.{serve, creates_source, updates_source, deletes_source}
use sheeld.ControlPlane.Calls.Atomic.{
  create_source_of-Atomic, update_source_of-Atomic, delete_source-Atomic,
}
use sheeld.ControlPlane.Api.{Server, Drawn, Request}
use sheeld.ControlPlane.Api.Sources.{
  create_source_handler, get_source_handler, update_source_handler, delete_source_handler,
  list_sources_handler, list_connections_handler,
}
use sheeld.ControlPlane.Api.Shapes.{status_shape, source_shape, sources_shape, connections_shape}
use sheeld.ControlPlane.Api.Handlers.{
  Acts, authorized-Acts, parsed-Acts, required-Acts, shows-Acts, reads-Acts, writes-Acts,
}

module _ (server : Server) (org : ℕ) (r : Request) (db : Database) where
  pub create_source_handler-Acts :
      (drawn : Drawn)
      → Acts server.env org db 201 source_shape (create_source_handler server org r db drawn)
  unfolding create_source_handler serve
  create_source_handler-Acts drawn = authorized-Acts _ (
      parsed-Acts (server.decode.source_params r.body) _ _ (λ p.
        required-Acts (p.name == "") _ _ _ (
          required-Acts (p.route == "") _ _ _ (
            required-Acts (p.llm_provider == "") _ _ _ (
              required-Acts (p.llm_model == []) _ _ _ (
                required-Acts (p.llm_api_key == []) _ _ _ (
                  writes-Acts (create_source_of server.env drawn.row org p db) _ _ _
                    (creates_source drawn.row p)
                    (create_source_of-Atomic server.env org drawn.row db p) refl (omega arith)
                    (omega arith) (λ x. refl))))))))

  pub get_source_handler-Acts :
      Acts server.env org db 200 source_shape (get_source_handler server org r db)
  unfolding get_source_handler serve
  get_source_handler-Acts = authorized-Acts _ (
      parsed-Acts (server.decode.parse_uuid r.id) _ _
        (λ id. reads-Acts (get_source id org db) _ _ _ (omega arith) (omega arith) (λ x. refl)))

  pub update_source_handler-Acts :
      Acts server.env org db 200 source_shape (update_source_handler server org r db)
  unfolding update_source_handler serve
  update_source_handler-Acts = authorized-Acts _ (
      parsed-Acts (server.decode.parse_uuid r.id) _ _ (λ id.
        parsed-Acts (server.decode.source_params r.body) _ _ (λ p.
          writes-Acts (update_source_of server.env org id p db) _ _ _ (updates_source id p)
            (update_source_of-Atomic server.env org id db p) refl (omega arith) (omega arith)
            (λ x. refl))))

  pub delete_source_handler-Acts :
      Acts server.env org db 200 status_shape (delete_source_handler server org r db)
  unfolding delete_source_handler serve
  delete_source_handler-Acts = authorized-Acts _ (
      parsed-Acts (server.decode.parse_uuid r.id) _ _ (λ id.
        writes-Acts (delete_source id org db) _ _ _ (deletes_source id)
          (delete_source-Atomic server.env org id db) refl (omega arith) (omega arith) (λ x. refl)))

  pub list_sources_handler-Acts :
      Acts server.env org db 200 sources_shape (list_sources_handler server org r db)
  unfolding list_sources_handler serve
  list_sources_handler-Acts = authorized-Acts _ (shows-Acts _ (omega arith) refl)

  pub list_connections_handler-Acts :
      Acts server.env org db 200 connections_shape (list_connections_handler server org r db)
  unfolding list_connections_handler serve
  list_connections_handler-Acts = authorized-Acts _ (shows-Acts _ (omega arith) refl)
