-- ===== src/ControlPlane/Api/Webhooks.antt =====
-- internal/controlplane/api/handler/alert.go: `AlertHandler`.
use sheeld.Prelude.{ℕ, nat_eq}
use sheeld.ControlPlane.{Database}
use sheeld.ControlPlane.Queries.Accounts.{list_alert_webhooks_by_organization, delete_alert_webhook}
use sheeld.ControlPlane.Accounts.{create_webhook_of, update_webhook_of}
use sheeld.ControlPlane.Api.{
  Server, Drawn, Request, Reply, json, authorized, parsed, finished, fixed, shown, webhook_body,
  webhooks_body, status_body,
}

module _ (server : Server) (org : ℕ) (r : Request) (db : Database) where
  unfoldable pub create_alert_handler : Drawn → Reply
  create_alert_handler drawn = authorized org db (
      parsed (server.decode.webhook_params r.body) "invalid request body" db (λ p.
        finished (create_webhook_of server.env drawn.row org p db) 422 shown 201
          (λ w. webhook_body w)))

  unfoldable pub list_alerts_handler : Reply
  list_alerts_handler =
      authorized org db (json 200 (webhooks_body (list_alert_webhooks_by_organization org db)), db)

  unfoldable pub update_alert_handler : Reply
  update_alert_handler = authorized org db (
      parsed (server.decode.parse_uuid r.id) "invalid id" db (λ id.
        parsed (server.decode.webhook_params r.body) "invalid request body" db (λ p.
          finished (update_webhook_of server.env org id p db) 422 shown 200 (λ w. webhook_body w))))

  unfoldable pub delete_alert_handler : Reply
  delete_alert_handler = authorized org db (
      parsed (server.decode.parse_uuid r.id) "invalid id" db (λ id.
        finished (delete_alert_webhook id org db) 500 (fixed "failed to delete alert webhook") 200
          (λ u. status_body "deleted")))
