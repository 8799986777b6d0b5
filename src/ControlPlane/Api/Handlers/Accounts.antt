-- ===== src/ControlPlane/Api/Handlers/Accounts.antt =====
-- The handlers of alert.go, and of the API keys, auth.go.
use sheeld.Prelude.{ℕ, refl, ◌==◌, nat_eq, string_eq, bytes_eq, arith}
use sheeld.ControlPlane.{Database}
use sheeld.ControlPlane.Queries.Accounts.{delete_alert_webhook, revoke_api_key}
use sheeld.ControlPlane.Accounts.{create_webhook_of, update_webhook_of, create_api_key_of}
use sheeld.ControlPlane.Calls.{
  serve, creates_webhook, updates_webhook, deletes_webhook, creates_key, revokes_key,
}
use sheeld.ControlPlane.Calls.Atomic.{
  create_webhook_of-Atomic, update_webhook_of-Atomic, delete_alert_webhook-Atomic,
  create_api_key_of-Atomic, revoke_api_key-Atomic,
}
use sheeld.ControlPlane.Api.{Server, Drawn, Request}
use sheeld.ControlPlane.Api.Webhooks.{
  create_alert_handler, update_alert_handler, delete_alert_handler, list_alerts_handler,
}
use sheeld.ControlPlane.Api.Sessions.{
  create_api_key_handler, revoke_api_key_handler, list_api_keys_handler, not_positive,
}
use sheeld.ControlPlane.Api.Shapes.{
  status_shape, webhook_shape, webhooks_shape, new_key_shape, keys_shape,
}
use sheeld.ControlPlane.Api.Handlers.{
  Acts, authorized-Acts, parsed-Acts, required-Acts, shows-Acts, writes-Acts,
}

module _ (server : Server) (org : ℕ) (r : Request) (db : Database) where
  pub create_alert_handler-Acts :
      (drawn : Drawn)
      → Acts server.env org db 201 webhook_shape (create_alert_handler server org r db drawn)
  unfolding create_alert_handler serve
  create_alert_handler-Acts drawn = authorized-Acts _ (
      parsed-Acts (server.decode.webhook_params r.body) _ _ (λ p.
        writes-Acts (create_webhook_of server.env drawn.row org p db) _ _ _
          (creates_webhook drawn.row p) (create_webhook_of-Atomic server.env org drawn.row db p)
          refl (omega arith) (omega arith) (λ x. refl)))

  pub update_alert_handler-Acts :
      Acts server.env org db 200 webhook_shape (update_alert_handler server org r db)
  unfolding update_alert_handler serve
  update_alert_handler-Acts = authorized-Acts _ (
      parsed-Acts (server.decode.parse_uuid r.id) _ _ (λ id.
        parsed-Acts (server.decode.webhook_params r.body) _ _ (λ p.
          writes-Acts (update_webhook_of server.env org id p db) _ _ _ (updates_webhook id p)
            (update_webhook_of-Atomic server.env org id db p) refl (omega arith) (omega arith)
            (λ x. refl))))

  pub delete_alert_handler-Acts :
      Acts server.env org db 200 status_shape (delete_alert_handler server org r db)
  unfolding delete_alert_handler serve
  delete_alert_handler-Acts = authorized-Acts _ (
      parsed-Acts (server.decode.parse_uuid r.id) _ _ (λ id.
        writes-Acts (delete_alert_webhook id org db) _ _ _ (deletes_webhook id)
          (delete_alert_webhook-Atomic org id db) refl (omega arith) (omega arith) (λ x. refl)))

  pub create_api_key_handler-Acts :
      (drawn : Drawn)
      → Acts server.env org db 201 new_key_shape (create_api_key_handler server org r db drawn)
  unfolding create_api_key_handler serve
  create_api_key_handler-Acts drawn = authorized-Acts _ (
      parsed-Acts (server.decode.key_params r.body) _ _ (λ p. required-Acts (p.name == "") _ _ _ (
        required-Acts (not_positive p.rate_limit_rps) _ _ _ (
          required-Acts (not_positive p.rate_limit_burst) _ _ _ (
            writes-Acts
              (create_api_key_of server.env.digest drawn.key_hex drawn.row org p.name
                p.rate_limit_rps p.rate_limit_burst db)
              _ _ _ (creates_key drawn.key_hex drawn.row p.name p.rate_limit_rps p.rate_limit_burst)
              (create_api_key_of-Atomic server.env org drawn.row db drawn.key_hex p.name
                p.rate_limit_rps p.rate_limit_burst)
              refl (omega arith) (omega arith) (λ x. refl))))))

  pub revoke_api_key_handler-Acts :
      Acts server.env org db 200 status_shape (revoke_api_key_handler server org r db)
  unfolding revoke_api_key_handler serve
  revoke_api_key_handler-Acts = authorized-Acts _ (
      parsed-Acts (server.decode.parse_uuid r.id) _ _ (λ id.
        writes-Acts (revoke_api_key id org db) _ _ _ (revokes_key id)
          (revoke_api_key-Atomic org id db) refl (omega arith) (omega arith) (λ x. refl)))

  pub list_alerts_handler-Acts :
      Acts server.env org db 200 webhooks_shape (list_alerts_handler server org r db)
  unfolding list_alerts_handler serve
  list_alerts_handler-Acts = authorized-Acts _ (shows-Acts _ (omega arith) refl)

  pub list_api_keys_handler-Acts :
      Acts server.env org db 200 keys_shape (list_api_keys_handler server org r db)
  unfolding list_api_keys_handler serve
  list_api_keys_handler-Acts = authorized-Acts _ (shows-Acts _ (omega arith) refl)
