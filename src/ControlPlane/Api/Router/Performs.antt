-- ===== src/ControlPlane/Api/Router/Performs.antt =====
-- What a protected route does to the database, and the status and the shape of its reply.
use sheeld.Prelude.{
  ℕ, ◌≡◌, refl, Bool, true, false, inl, inr, ◌==◌, ◌||◌, nat_eq, Bool-cases, arith,
}
use sheeld.ControlPlane.{Database}
use sheeld.ControlPlane.Authentication.{TokenClaims, refresh_token}
use sheeld.ControlPlane.Api.{Drawn, Request}
use sheeld.ControlPlane.Api.Sessions.{refresh_handler}
use sheeld.ControlPlane.Api.AuditLogs.{proxied_handler}
use sheeld.ControlPlane.Api.Shapes.{
  Shape, Documented, status_shape, source_shape, sources_shape, summaries_shape, guardrail_shape,
  guardrails_shape, result_shape, transformer_shape, transformers_shape, connections_shape,
  webhook_shape, webhooks_shape, new_key_shape, keys_shape, token_shape, proxied_shape,
}
use sheeld.ControlPlane.Api.Handlers.{
  Performs, Acts, turned_down-Acts, reads-Acts, authorized_unchanged,
}
use sheeld.ControlPlane.Api.Handlers.Sources.{
  create_source_handler-Acts, list_sources_handler-Acts, get_source_handler-Acts,
  update_source_handler-Acts, delete_source_handler-Acts, list_connections_handler-Acts,
}
use sheeld.ControlPlane.Api.Handlers.Guardrails.{
  list_guardrails_of_source_handler-Acts, create_guardrail_handler-Acts,
  list_guardrails_handler-Acts, get_guardrail_handler-Acts, update_guardrail_handler-Acts,
  delete_guardrail_handler-Acts, test_guardrail_handler-Acts, attach_guardrail_handler-Acts,
  list_sources_of_guardrail_handler-Acts, detach_guardrail_handler-Acts,
}
use sheeld.ControlPlane.Api.Handlers.Transformers.{
  list_transformers_of_source_handler-Acts, set_source_transformers_handler-Acts,
  create_transformer_handler-Acts, list_transformers_handler-Acts, get_transformer_handler-Acts,
  update_transformer_handler-Acts, delete_transformer_handler-Acts,
  list_sources_of_transformer_handler-Acts, attach_transformer_handler-Acts,
  detach_transformer_handler-Acts,
}
use sheeld.ControlPlane.Api.Handlers.Accounts.{
  create_api_key_handler-Acts, list_api_keys_handler-Acts, revoke_api_key_handler-Acts,
  create_alert_handler-Acts, list_alerts_handler-Acts, update_alert_handler-Acts,
  delete_alert_handler-Acts,
}
use sheeld.ControlPlane.Api.Router.{
  Deployment, Protected, handle_protected, refresh, create_api_key, list_api_keys, revoke_api_key,
  create_source, list_sources, get_source, update_source, delete_source, source_guardrails,
  source_transformers, set_transformers, create_guardrail, list_guardrails, get_guardrail,
  update_guardrail, delete_guardrail, test_guardrail, attach_guardrail, guardrail_sources,
  detach_guardrail, list_connections, create_transformer, list_transformers, get_transformer,
  update_transformer, delete_transformer, transformer_sources, attach_transformer,
  detach_transformer, list_audit_logs, show_analytics, create_alert, list_alerts, update_alert,
  delete_alert,
}

-- The status of a route's reply that is no error, and which kind of body it has. The last two routes pass
-- on the reply of the data plane.
abbrev pub declared : Protected → ℕ × Shape
declared refresh = (200, token_shape)
declared create_api_key = (201, new_key_shape)
declared list_api_keys = (200, keys_shape)
declared revoke_api_key = (200, status_shape)
declared create_source = (201, source_shape)
declared list_sources = (200, sources_shape)
declared get_source = (200, source_shape)
declared update_source = (200, source_shape)
declared delete_source = (200, status_shape)
declared source_guardrails = (200, guardrails_shape)
declared source_transformers = (200, transformers_shape)
declared set_transformers = (200, status_shape)
declared create_guardrail = (201, guardrail_shape)
declared list_guardrails = (200, guardrails_shape)
declared get_guardrail = (200, guardrail_shape)
declared update_guardrail = (200, guardrail_shape)
declared delete_guardrail = (200, status_shape)
declared test_guardrail = (200, result_shape)
declared attach_guardrail = (201, status_shape)
declared guardrail_sources = (200, summaries_shape)
declared detach_guardrail = (200, status_shape)
declared list_connections = (200, connections_shape)
declared create_transformer = (201, transformer_shape)
declared list_transformers = (200, transformers_shape)
declared get_transformer = (200, transformer_shape)
declared update_transformer = (200, transformer_shape)
declared delete_transformer = (200, status_shape)
declared transformer_sources = (200, summaries_shape)
declared attach_transformer = (201, status_shape)
declared detach_transformer = (200, status_shape)
declared create_alert = (201, webhook_shape)
declared list_alerts = (200, webhooks_shape)
declared update_alert = (200, webhook_shape)
declared delete_alert = (200, status_shape)
declared list_audit_logs = (200, proxied_shape)
declared show_analytics = (200, proxied_shape)

abbrev pub is_proxied : Protected → Bool
is_proxied list_audit_logs = true
is_proxied show_analytics = true
is_proxied _ = false

module _ (d : Deployment) (c : TokenClaims) (r : Request) (drawn : Drawn) (db : Database) where
  refresh_handler-Acts :
      Acts d.server.env c.org_id db 200 token_shape (refresh_handler d.server r db c drawn)
  unfolding refresh_handler
  refresh_handler-Acts = elim (Bool-cases ((c.user_id == 0) || (c.org_id == 0))) [
    | inl e ↦ rw e (turned_down-Acts _ (omega arith) refl)
    | inr e ↦ rw e (
        reads-Acts (refresh_token d.server.auth drawn.now c) _ _ _ (omega arith) (omega arith)
          (λ x. refl))
  ]

  -- A route that is answered here leaves the database as it was or makes one call of the services for
  -- the caller's organization, and replies as is declared or with an error.
  handle_protected-Acts :
      (route : Protected)
      → is_proxied route ≡ false
      → Acts d.server.env c.org_id db
          (declared route).0
          (declared route).1
          (handle_protected d route c r drawn db)
  unfolding handle_protected
  handle_protected-Acts refresh p = refresh_handler-Acts
  handle_protected-Acts list_audit_logs p = absurd (cc p)
  handle_protected-Acts show_analytics p = absurd (cc p)
  handle_protected-Acts create_api_key p = create_api_key_handler-Acts d.server c.org_id r db drawn
  handle_protected-Acts list_api_keys p = list_api_keys_handler-Acts d.server c.org_id r db
  handle_protected-Acts revoke_api_key p = revoke_api_key_handler-Acts d.server c.org_id r db
  handle_protected-Acts create_source p = create_source_handler-Acts d.server c.org_id r db drawn
  handle_protected-Acts list_sources p = list_sources_handler-Acts d.server c.org_id r db
  handle_protected-Acts get_source p = get_source_handler-Acts d.server c.org_id r db
  handle_protected-Acts update_source p = update_source_handler-Acts d.server c.org_id r db
  handle_protected-Acts delete_source p = delete_source_handler-Acts d.server c.org_id r db
  handle_protected-Acts source_guardrails p =
      list_guardrails_of_source_handler-Acts d.server c.org_id r db
  handle_protected-Acts source_transformers p =
      list_transformers_of_source_handler-Acts d.server c.org_id r db
  handle_protected-Acts set_transformers p =
      set_source_transformers_handler-Acts d.server c.org_id r db
  handle_protected-Acts create_guardrail p =
      create_guardrail_handler-Acts d.server c.org_id r db drawn
  handle_protected-Acts list_guardrails p = list_guardrails_handler-Acts d.server c.org_id r db
  handle_protected-Acts get_guardrail p = get_guardrail_handler-Acts d.server c.org_id r db
  handle_protected-Acts update_guardrail p = update_guardrail_handler-Acts d.server c.org_id r db
  handle_protected-Acts delete_guardrail p = delete_guardrail_handler-Acts d.server c.org_id r db
  handle_protected-Acts test_guardrail p = test_guardrail_handler-Acts d.server c.org_id r db
  handle_protected-Acts attach_guardrail p = attach_guardrail_handler-Acts d.server c.org_id r db
  handle_protected-Acts guardrail_sources p =
      list_sources_of_guardrail_handler-Acts d.server c.org_id r db
  handle_protected-Acts detach_guardrail p = detach_guardrail_handler-Acts d.server c.org_id r db
  handle_protected-Acts list_connections p = list_connections_handler-Acts d.server c.org_id r db
  handle_protected-Acts create_transformer p =
      create_transformer_handler-Acts d.server c.org_id r db drawn
  handle_protected-Acts list_transformers p = list_transformers_handler-Acts d.server c.org_id r db
  handle_protected-Acts get_transformer p = get_transformer_handler-Acts d.server c.org_id r db
  handle_protected-Acts update_transformer p =
      update_transformer_handler-Acts d.server c.org_id r db
  handle_protected-Acts delete_transformer p =
      delete_transformer_handler-Acts d.server c.org_id r db
  handle_protected-Acts transformer_sources p =
      list_sources_of_transformer_handler-Acts d.server c.org_id r db
  handle_protected-Acts attach_transformer p =
      attach_transformer_handler-Acts d.server c.org_id r db
  handle_protected-Acts detach_transformer p =
      detach_transformer_handler-Acts d.server c.org_id r db
  handle_protected-Acts create_alert p = create_alert_handler-Acts d.server c.org_id r db drawn
  handle_protected-Acts list_alerts p = list_alerts_handler-Acts d.server c.org_id r db
  handle_protected-Acts update_alert p = update_alert_handler-Acts d.server c.org_id r db
  handle_protected-Acts delete_alert p = delete_alert_handler-Acts d.server c.org_id r db

  proxied_unchanged :
      (route : Protected) → is_proxied route ≡ true → (handle_protected d route c r drawn db).1 ≡ db
  unfolding handle_protected proxied_handler
  proxied_unchanged list_audit_logs p = authorized_unchanged c.org_id db _ refl
  proxied_unchanged show_analytics p = authorized_unchanged c.org_id db _ refl
  proxied_unchanged create_api_key p = absurd (cc p)
  proxied_unchanged list_api_keys p = absurd (cc p)
  proxied_unchanged revoke_api_key p = absurd (cc p)
  proxied_unchanged create_source p = absurd (cc p)
  proxied_unchanged list_sources p = absurd (cc p)
  proxied_unchanged get_source p = absurd (cc p)
  proxied_unchanged update_source p = absurd (cc p)
  proxied_unchanged delete_source p = absurd (cc p)
  proxied_unchanged source_guardrails p = absurd (cc p)
  proxied_unchanged source_transformers p = absurd (cc p)
  proxied_unchanged set_transformers p = absurd (cc p)
  proxied_unchanged create_guardrail p = absurd (cc p)
  proxied_unchanged list_guardrails p = absurd (cc p)
  proxied_unchanged get_guardrail p = absurd (cc p)
  proxied_unchanged update_guardrail p = absurd (cc p)
  proxied_unchanged delete_guardrail p = absurd (cc p)
  proxied_unchanged test_guardrail p = absurd (cc p)
  proxied_unchanged attach_guardrail p = absurd (cc p)
  proxied_unchanged guardrail_sources p = absurd (cc p)
  proxied_unchanged detach_guardrail p = absurd (cc p)
  proxied_unchanged list_connections p = absurd (cc p)
  proxied_unchanged create_transformer p = absurd (cc p)
  proxied_unchanged list_transformers p = absurd (cc p)
  proxied_unchanged get_transformer p = absurd (cc p)
  proxied_unchanged update_transformer p = absurd (cc p)
  proxied_unchanged delete_transformer p = absurd (cc p)
  proxied_unchanged transformer_sources p = absurd (cc p)
  proxied_unchanged attach_transformer p = absurd (cc p)
  proxied_unchanged detach_transformer p = absurd (cc p)
  proxied_unchanged create_alert p = absurd (cc p)
  proxied_unchanged list_alerts p = absurd (cc p)
  proxied_unchanged update_alert p = absurd (cc p)
  proxied_unchanged delete_alert p = absurd (cc p)
  proxied_unchanged refresh p = absurd (cc p)

  pub handle_protected-Performs :
      (route : Protected)
      → Performs d.server.env c.org_id db (handle_protected d route c r drawn db)
  handle_protected-Performs route = elim (Bool-cases (is_proxied route)) [
    | inl p ↦ inl (proxied_unchanged route p)
    | inr p ↦ (handle_protected-Acts route p).performs
  ]

  pub handle_protected-Documented :
      (route : Protected)
      → is_proxied route ≡ false
      → Documented (declared route).0 (declared route).1 (handle_protected d route c r drawn db).0
  handle_protected-Documented route p = (handle_protected-Acts route p).documented
