-- ===== src/ControlPlane/Api/Handlers/Transformers.antt =====
-- The handlers of transformer.go.
use sheeld.Prelude.{ℕ, refl, ◌==◌, nat_eq, string_eq, bytes_eq, arith}
use sheeld.ControlPlane.{Database}
use sheeld.ControlPlane.Queries.Chains.{get_transformer, delete_transformer}
use sheeld.ControlPlane.Transformers.{
  create_transformer_of, update_transformer_of, attach_transformer, detach_transformer,
  list_sources_of_transformer, list_transformers_of_source, set_source_transformers,
}
use sheeld.ControlPlane.Calls.{
  serve, creates_transformer, updates_transformer, deletes_transformer, attaches_transformer,
  detaches_transformer, sets_chain,
}
use sheeld.ControlPlane.Calls.Atomic.{
  create_transformer_of-Atomic, update_transformer_of-Atomic, delete_transformer-Atomic,
  attach_transformer-Atomic, detach_transformer-Atomic, set_source_transformers-Atomic,
}
use sheeld.ControlPlane.Api.{Server, Drawn, Request}
use sheeld.ControlPlane.Api.Transformers.{
  given_id, create_transformer_handler, get_transformer_handler, update_transformer_handler,
  delete_transformer_handler, attach_transformer_handler, list_sources_of_transformer_handler,
  detach_transformer_handler, list_transformers_of_source_handler, list_transformers_handler,
  set_source_transformers_handler,
}
use sheeld.ControlPlane.Api.Shapes.{
  status_shape, summaries_shape, transformer_shape, transformers_shape,
}
use sheeld.ControlPlane.Api.Handlers.{
  Acts, authorized-Acts, parsed-Acts, required-Acts, shows-Acts, reads-Acts, writes-Acts,
}

module _ (server : Server) (org : ℕ) (r : Request) (db : Database) where
  pub create_transformer_handler-Acts :
      (drawn : Drawn)
      → Acts server.env org db 201 transformer_shape
          (create_transformer_handler server org r db drawn)
  unfolding create_transformer_handler serve
  create_transformer_handler-Acts drawn = authorized-Acts _ (
      parsed-Acts (server.decode.transformer_params r.body) _ _ (λ p.
        required-Acts (p.name == "") _ _ _ (
          required-Acts (p.transformer_type == "") _ _ _ (
            writes-Acts (create_transformer_of server.env drawn.row org p db) _ _ _
              (creates_transformer drawn.row p)
              (create_transformer_of-Atomic server.env org drawn.row db p) refl (omega arith)
              (omega arith) (λ x. refl)))))

  pub get_transformer_handler-Acts :
      Acts server.env org db 200 transformer_shape (get_transformer_handler server org r db)
  unfolding get_transformer_handler serve
  get_transformer_handler-Acts = authorized-Acts _ (
      parsed-Acts (server.decode.parse_uuid r.id) _ _ (λ id.
        reads-Acts (get_transformer id org db) _ _ _ (omega arith) (omega arith) (λ x. refl)))

  pub update_transformer_handler-Acts :
      Acts server.env org db 200 transformer_shape (update_transformer_handler server org r db)
  unfolding update_transformer_handler serve
  update_transformer_handler-Acts = authorized-Acts _ (
      parsed-Acts (server.decode.parse_uuid r.id) _ _ (λ id.
        parsed-Acts (server.decode.transformer_params r.body) _ _ (λ p.
          writes-Acts (update_transformer_of server.env org id p db) _ _ _
            (updates_transformer id p) (update_transformer_of-Atomic server.env org id db p) refl
            (omega arith) (omega arith) (λ x. refl))))

  pub delete_transformer_handler-Acts :
      Acts server.env org db 200 status_shape (delete_transformer_handler server org r db)
  unfolding delete_transformer_handler serve
  delete_transformer_handler-Acts = authorized-Acts _ (
      parsed-Acts (server.decode.parse_uuid r.id) _ _ (λ id.
        writes-Acts (delete_transformer id org db) _ _ _ (deletes_transformer id)
          (delete_transformer-Atomic org id db) refl (omega arith) (omega arith) (λ x. refl)))

  pub attach_transformer_handler-Acts :
      Acts server.env org db 201 status_shape (attach_transformer_handler server org r db)
  unfolding attach_transformer_handler serve
  attach_transformer_handler-Acts = authorized-Acts _ (
      parsed-Acts (server.decode.parse_uuid r.id) _ _ (λ id.
        parsed-Acts (given_id (server.decode.attach_to_transformer r.body)) _ _ (λ source.
          writes-Acts (attach_transformer org id source db) _ _ _ (attaches_transformer id source)
            (attach_transformer-Atomic org id db source) refl (omega arith) (omega arith)
            (λ x. refl))))

  pub list_sources_of_transformer_handler-Acts :
      Acts server.env org db 200 summaries_shape
        (list_sources_of_transformer_handler server org r db)
  unfolding list_sources_of_transformer_handler serve
  list_sources_of_transformer_handler-Acts = authorized-Acts _ (
      parsed-Acts (server.decode.parse_uuid r.id) _ _ (λ id.
        reads-Acts (list_sources_of_transformer org id db) _ _ _ (omega arith) (omega arith)
          (λ x. refl)))

  pub detach_transformer_handler-Acts :
      Acts server.env org db 200 status_shape (detach_transformer_handler server org r db)
  unfolding detach_transformer_handler serve
  detach_transformer_handler-Acts = authorized-Acts _ (
      parsed-Acts (server.decode.parse_uuid r.id) _ _ (λ id.
        parsed-Acts (server.decode.parse_uuid r.source_id) _ _ (λ source.
          writes-Acts (detach_transformer org id source db) _ _ _ (detaches_transformer id source)
            (detach_transformer-Atomic org id db source) refl (omega arith) (omega arith)
            (λ x. refl))))

  pub list_transformers_of_source_handler-Acts :
      Acts server.env org db 200 transformers_shape
        (list_transformers_of_source_handler server org r db)
  unfolding list_transformers_of_source_handler serve
  list_transformers_of_source_handler-Acts = authorized-Acts _ (
      parsed-Acts (server.decode.parse_uuid r.source_id) _ _ (λ source.
        reads-Acts (list_transformers_of_source org source db) _ _ _ (omega arith) (omega arith)
          (λ x. refl)))

  pub set_source_transformers_handler-Acts :
      Acts server.env org db 200 status_shape (set_source_transformers_handler server org r db)
  unfolding set_source_transformers_handler serve
  set_source_transformers_handler-Acts = authorized-Acts _ (
      parsed-Acts (server.decode.parse_uuid r.source_id) _ _ (λ source.
        parsed-Acts (server.decode.transformer_ids r.body) _ _ (λ ids.
          writes-Acts (set_source_transformers org source ids db) _ _ _ (sets_chain source ids)
            (set_source_transformers-Atomic org source db ids) refl (omega arith) (omega arith)
            (λ x. refl))))

  pub list_transformers_handler-Acts :
      Acts server.env org db 200 transformers_shape (list_transformers_handler server org r db)
  unfolding list_transformers_handler serve
  list_transformers_handler-Acts = authorized-Acts _ (shows-Acts _ (omega arith) refl)
