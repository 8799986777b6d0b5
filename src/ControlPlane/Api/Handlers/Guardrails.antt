-- ===== src/ControlPlane/Api/Handlers/Guardrails.antt =====
-- The handlers of guardrail.go.
use sheeld.Prelude.{ℕ, refl, ◌==◌, nat_eq, string_eq, bytes_eq, arith}
use sheeld.ControlPlane.{Database}
use sheeld.ControlPlane.Guardrails.{default_phase}
use sheeld.ControlPlane.Queries.{get_guardrail, delete_guardrail}
use sheeld.ControlPlane.Guardrails.{
  create_guardrail_of, update_guardrail_of, test_guardrail, attach_guardrail, detach_guardrail,
  list_sources_of_guardrail, list_guardrails_of_source,
}
use sheeld.ControlPlane.Calls.{
  serve, creates_guardrail, updates_guardrail, deletes_guardrail, attaches_guardrail,
  detaches_guardrail,
}
use sheeld.ControlPlane.Calls.Atomic.{
  create_guardrail_of-Atomic, update_guardrail_of-Atomic, delete_guardrail-Atomic,
  attach_guardrail-Atomic, detach_guardrail-Atomic,
}
use sheeld.ControlPlane.Api.{Server, Drawn, Request}
use sheeld.ControlPlane.Api.Guardrails.{
  create_guardrail_handler, get_guardrail_handler, test_guardrail_handler, update_guardrail_handler,
  delete_guardrail_handler, attach_guardrail_handler, detach_guardrail_handler,
  list_sources_of_guardrail_handler, list_guardrails_of_source_handler, list_guardrails_handler,
}
use sheeld.ControlPlane.Api.Shapes.{
  status_shape, summaries_shape, guardrail_shape, guardrails_shape, result_shape,
}
use sheeld.ControlPlane.Api.Handlers.{
  Acts, parsed-Acts, required-Acts, shows-Acts, reads-Acts, writes-Acts,
}

module _ (server : Server) (org : ℕ) (r : Request) (db : Database) where
  pub create_guardrail_handler-Acts :
      (drawn : Drawn)
      → Acts server.env org db 201 guardrail_shape (create_guardrail_handler server org r db drawn)
  unfolding create_guardrail_handler serve
  create_guardrail_handler-Acts drawn =
      parsed-Acts (server.decode.guardrail_params r.body) _ _ (λ p.
        required-Acts (p.name == "") _ _ _ (
          required-Acts (p.guard_type == "") _ _ _ (
            writes-Acts
              (create_guardrail_of server.env drawn.row org
                (record p { phase = default_phase p.phase }) db)
              _ _ _ (creates_guardrail drawn.row (record p { phase = default_phase p.phase }))
              (create_guardrail_of-Atomic server.env org drawn.row db
                (record p { phase = default_phase p.phase }))
              refl (omega arith) (omega arith) (λ x. refl))))

  pub get_guardrail_handler-Acts :
      Acts server.env org db 200 guardrail_shape (get_guardrail_handler server org r db)
  unfolding get_guardrail_handler serve
  get_guardrail_handler-Acts =
      parsed-Acts (server.decode.parse_uuid r.id) _ _
        (λ id. reads-Acts (get_guardrail id org db) _ _ _ (omega arith) (omega arith) (λ x. refl))

  pub test_guardrail_handler-Acts :
      Acts server.env org db 200 result_shape (test_guardrail_handler server org r db)
  unfolding test_guardrail_handler serve
  test_guardrail_handler-Acts = parsed-Acts (server.decode.parse_uuid r.id) _ _ (λ id.
      parsed-Acts (server.decode.test_input r.body) _ _ (λ input.
        reads-Acts (test_guardrail server.env org id input db) _ _ _ (omega arith) (omega arith)
          (λ x. refl)))

  pub update_guardrail_handler-Acts :
      Acts server.env org db 200 guardrail_shape (update_guardrail_handler server org r db)
  unfolding update_guardrail_handler serve
  update_guardrail_handler-Acts = parsed-Acts (server.decode.parse_uuid r.id) _ _ (λ id.
      parsed-Acts (server.decode.guardrail_params r.body) _ _ (λ p.
        writes-Acts (update_guardrail_of server.env org id p db) _ _ _ (updates_guardrail id p)
          (update_guardrail_of-Atomic server.env org id db p) refl (omega arith) (omega arith)
          (λ x. refl)))

  pub delete_guardrail_handler-Acts :
      Acts server.env org db 200 status_shape (delete_guardrail_handler server org r db)
  unfolding delete_guardrail_handler serve
  delete_guardrail_handler-Acts = parsed-Acts (server.decode.parse_uuid r.id) _ _ (λ id.
      writes-Acts (delete_guardrail id org db) _ _ _ (deletes_guardrail id)
        (delete_guardrail-Atomic org id db) refl (omega arith) (omega arith) (λ x. refl))

  pub attach_guardrail_handler-Acts :
      Acts server.env org db 201 status_shape (attach_guardrail_handler server org r db)
  unfolding attach_guardrail_handler serve
  attach_guardrail_handler-Acts = parsed-Acts (server.decode.parse_uuid r.id) _ _ (λ id.
      parsed-Acts (server.decode.attach_to_guardrail r.body) _ _ (λ text.
        parsed-Acts (server.decode.parse_uuid text) _ _ (λ source.
          writes-Acts (attach_guardrail org id source db) _ _ _ (attaches_guardrail id source)
            (attach_guardrail-Atomic org id db source) refl (omega arith) (omega arith)
            (λ x. refl))))

  pub detach_guardrail_handler-Acts :
      Acts server.env org db 200 status_shape (detach_guardrail_handler server org r db)
  unfolding detach_guardrail_handler serve
  detach_guardrail_handler-Acts = parsed-Acts (server.decode.parse_uuid r.id) _ _ (λ id.
      parsed-Acts (server.decode.parse_uuid r.source_id) _ _ (λ source.
        writes-Acts (detach_guardrail org id source db) _ _ _ (detaches_guardrail id source)
          (detach_guardrail-Atomic org id db source) refl (omega arith) (omega arith) (λ x. refl)))

  pub list_sources_of_guardrail_handler-Acts :
      Acts server.env org db 200 summaries_shape (list_sources_of_guardrail_handler server org r db)
  unfolding list_sources_of_guardrail_handler serve
  list_sources_of_guardrail_handler-Acts = parsed-Acts (server.decode.parse_uuid r.id) _ _ (λ id.
      reads-Acts (list_sources_of_guardrail org id db) _ _ _ (omega arith) (omega arith)
        (λ x. refl))

  pub list_guardrails_of_source_handler-Acts :
      Acts server.env org db 200 guardrails_shape
        (list_guardrails_of_source_handler server org r db)
  unfolding list_guardrails_of_source_handler serve
  list_guardrails_of_source_handler-Acts =
      parsed-Acts (server.decode.parse_uuid r.source_id) _ _ (λ source.
        reads-Acts (list_guardrails_of_source org source db) _ _ _ (omega arith) (omega arith)
          (λ x. refl))

  pub list_guardrails_handler-Acts :
      Acts server.env org db 200 guardrails_shape (list_guardrails_handler server org r db)
  unfolding list_guardrails_handler serve
  list_guardrails_handler-Acts = shows-Acts _ (omega arith) refl
