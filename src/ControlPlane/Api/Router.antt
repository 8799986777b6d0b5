-- ===== src/ControlPlane/Api/Router.antt =====
-- internal/controlplane/api/router.go with api/middleware: which handler a route has, and what stands
-- before it. The health check, the metrics, the OpenAPI file and the model list are left out, and so are
-- the middlewares that only log, count, recover or set headers. The rate limiter counts a request under
-- the text of the organization's identifier.
pub mod Performs
pub mod Steps
pub mod Isolation
use sheeld.Prelude.{
  ℕ, ◌==◌, nat_eq, string_eq, bytes_eq, Bool, not, if◌then◌else◌, String, Str, str, List, [], ◌∷◌,
  Option, none, some,
}
use Prim.Native.String
use sheeld.Prelude.Int.{ℤ, pos}
use sheeld.Prelude.Outcome.{Outcome, ok, err}
use sheeld.Domain.{OrgConfig}
use sheeld.Gateway.{bearer_token}
use sheeld.RateLimit.{Buckets, RateLimiter, Verdict, forwarded, too_many_requests, middleware_with}
use sheeld.ControlPlane.{Database}
use sheeld.ControlPlane.Builder.{build_config}
use sheeld.ControlPlane.Authentication.{TokenClaims, AuthService, validate_token}
use sheeld.ControlPlane.Api.{
  Server, Drawn, Request, Reply, Response, error, json, config_body, no_body,
}
use sheeld.ControlPlane.Api.Sources.{
  create_source_handler, list_sources_handler, get_source_handler, update_source_handler,
  delete_source_handler, list_connections_handler,
}
use sheeld.ControlPlane.Api.Guardrails.{
  create_guardrail_handler, list_guardrails_handler, get_guardrail_handler, test_guardrail_handler,
  update_guardrail_handler, delete_guardrail_handler, attach_guardrail_handler,
  detach_guardrail_handler, list_sources_of_guardrail_handler, list_guardrails_of_source_handler,
}
use sheeld.ControlPlane.Api.Transformers.{
  create_transformer_handler, list_transformers_handler, get_transformer_handler,
  update_transformer_handler, delete_transformer_handler, attach_transformer_handler,
  list_sources_of_transformer_handler, detach_transformer_handler,
  list_transformers_of_source_handler, set_source_transformers_handler,
}
use sheeld.ControlPlane.Api.Webhooks.{
  create_alert_handler, list_alerts_handler, update_alert_handler, delete_alert_handler,
}
use sheeld.ControlPlane.Api.Sessions.{
  register_handler, login_handler, refresh_handler, create_api_key_handler, list_api_keys_handler,
  revoke_api_key_handler,
}
use sheeld.ControlPlane.Api.AuditLogs.{Exchange, Values, log_params, proxied_handler}

-- The routes behind `JWTAuth`.
pub data Protected : Type 0 where
  refresh create_api_key list_api_keys revoke_api_key : Protected
  create_source list_sources get_source update_source delete_source : Protected
  source_guardrails source_transformers set_transformers : Protected
  create_guardrail list_guardrails get_guardrail update_guardrail delete_guardrail : Protected
  test_guardrail attach_guardrail guardrail_sources detach_guardrail : Protected
  list_connections : Protected
  create_transformer list_transformers get_transformer update_transformer : Protected
  delete_transformer transformer_sources attach_transformer detach_transformer : Protected
  list_audit_logs show_analytics : Protected
  create_alert list_alerts update_alert delete_alert : Protected

pub data Route : Type 0 where
  register login workspace_config : Route
  protected : Protected → Route

-- The server's configuration and what it is given: the exchange with the data plane, the texts of the
-- identifiers, and what the builder of configurations is given.
pub record Deployment : Type 0 where
  pub server : Server
  pub data_plane_url : Str
  pub data_plane_token : Str
  pub ask : String → Values → Exchange
  pub org_text : ℕ → String
  pub decrypt : Str → Outcome Str
  pub hash : List OrgConfig → String
  pub collates : String → String → Bool

-- What `JWTAuth` makes of a request: the reply that turns it away, or the claims in its context.
pub data Authenticated : Type 0 where
  turned_away : Response → Authenticated
  caller : TokenClaims → Authenticated

module _ (d : Deployment) where
  unfoldable pub jwt_auth : ℕ → Str → Authenticated
  jwt_auth now header =
      if header == []
      then turned_away (error 401 "missing authorization header")
      else elim (bearer_token header) [
        | none ↦ turned_away (error 401 "invalid authorization header format")
        | some token ↦ elim (validate_token d.server.auth now token) [
          | err e ↦ turned_away (error 401 "invalid or expired token")
          | ok claims ↦ caller claims
        ]
      ]

  -- The handler of a route, for the claims in the request's context.
  unfoldable pub handle_protected : Protected → TokenClaims → Request → Drawn → Database → Reply
  handle_protected refresh c r drawn db = refresh_handler d.server r db c drawn
  handle_protected create_api_key c r drawn db = create_api_key_handler d.server c.org_id r db drawn
  handle_protected list_api_keys c r drawn db = list_api_keys_handler d.server c.org_id r db
  handle_protected revoke_api_key c r drawn db = revoke_api_key_handler d.server c.org_id r db
  handle_protected create_source c r drawn db = create_source_handler d.server c.org_id r db drawn
  handle_protected list_sources c r drawn db = list_sources_handler d.server c.org_id r db
  handle_protected get_source c r drawn db = get_source_handler d.server c.org_id r db
  handle_protected update_source c r drawn db = update_source_handler d.server c.org_id r db
  handle_protected delete_source c r drawn db = delete_source_handler d.server c.org_id r db
  handle_protected source_guardrails c r drawn db =
      list_guardrails_of_source_handler d.server c.org_id r db
  handle_protected source_transformers c r drawn db =
      list_transformers_of_source_handler d.server c.org_id r db
  handle_protected set_transformers c r drawn db =
      set_source_transformers_handler d.server c.org_id r db
  handle_protected create_guardrail c r drawn db =
      create_guardrail_handler d.server c.org_id r db drawn
  handle_protected list_guardrails c r drawn db = list_guardrails_handler d.server c.org_id r db
  handle_protected get_guardrail c r drawn db = get_guardrail_handler d.server c.org_id r db
  handle_protected update_guardrail c r drawn db = update_guardrail_handler d.server c.org_id r db
  handle_protected delete_guardrail c r drawn db = delete_guardrail_handler d.server c.org_id r db
  handle_protected test_guardrail c r drawn db = test_guardrail_handler d.server c.org_id r db
  handle_protected attach_guardrail c r drawn db = attach_guardrail_handler d.server c.org_id r db
  handle_protected guardrail_sources c r drawn db =
      list_sources_of_guardrail_handler d.server c.org_id r db
  handle_protected detach_guardrail c r drawn db = detach_guardrail_handler d.server c.org_id r db
  handle_protected list_connections c r drawn db = list_connections_handler d.server c.org_id r db
  handle_protected create_transformer c r drawn db =
      create_transformer_handler d.server c.org_id r db drawn
  handle_protected list_transformers c r drawn db = list_transformers_handler d.server c.org_id r db
  handle_protected get_transformer c r drawn db = get_transformer_handler d.server c.org_id r db
  handle_protected update_transformer c r drawn db =
      update_transformer_handler d.server c.org_id r db
  handle_protected delete_transformer c r drawn db =
      delete_transformer_handler d.server c.org_id r db
  handle_protected transformer_sources c r drawn db =
      list_sources_of_transformer_handler d.server c.org_id r db
  handle_protected attach_transformer c r drawn db =
      attach_transformer_handler d.server c.org_id r db
  handle_protected detach_transformer c r drawn db =
      detach_transformer_handler d.server c.org_id r db
  handle_protected list_audit_logs c r drawn db =
      proxied_handler d.data_plane_url (λ org. str (d.org_text org)) d.ask "/v1/internal/audit-logs"
        log_params c.org_id r db
  handle_protected show_analytics c r drawn db =
      proxied_handler d.data_plane_url (λ org. str (d.org_text org)) d.ask "/v1/internal/analytics"
        ("days" ∷ []) c.org_id r db
  handle_protected create_alert c r drawn db = create_alert_handler d.server c.org_id r db drawn
  handle_protected list_alerts c r drawn db = list_alerts_handler d.server c.org_id r db
  handle_protected update_alert c r drawn db = update_alert_handler d.server c.org_id r db
  handle_protected delete_alert c r drawn db = delete_alert_handler d.server c.org_id r db

  -- `DataPlaneAuth`, then `Handler.Get` of workspaceconfig/handler.go.
  unfoldable pub serve_config : Request → Database → Response
  serve_config r db = elim (build_config d.decrypt d.hash d.collates db) [
    | err e ↦ error 500 "failed to build workspace config"
    | ok cfg ↦
        if r.if_none_match == String.◌++◌ "\"" (String.◌++◌ cfg.version "\"")
        then json 304 no_body
        else json 200 (config_body cfg)
  ]

  unfoldable pub data_plane_auth : Request → Response → Response
  data_plane_auth r next =
      if d.data_plane_token == []
      then error 503 "data plane endpoint not configured"
      else elim (bearer_token r.authorization) [
        | none ↦ error 401 "invalid authorization header format"
        | some given ↦
            if not (given == d.data_plane_token) then error 401 "invalid data plane token" else next
      ]

-- What the process keeps between requests.
pub record State (L : Type 0) : Type 0 where
  pub db : Database
  pub limiter : RateLimiter L

-- What a request meets at the rate limiter: its refusal, or the handler.
unfoldable pub decided :
    {L : Type 0}
    → Deployment
    → Protected
    → TokenClaims
    → Request
    → Drawn
    → State L
    → Verdict
    → RateLimiter L
    → Response × State L
unfolding handle_protected
decided d route c r drawn s too_many_requests limiter =
    (error 429 "rate limit exceeded", record s { limiter = limiter })
decided d route c r drawn s forwarded limiter =
    let (response, db) = handle_protected d route c r drawn s.db in
    (response, record { db = db; limiter = limiter })

module _ {L : Type 0} (buckets : Buckets L) (d : Deployment) where
  -- The key of `RateLimiter.Middleware`.
  abbrev pub limit_key : ℕ → String
  limit_key org = if org == 0 then "anonymous" else d.org_text org

  -- After the token: the rate limiter, then the handler.
  unfoldable pub limited : Protected → TokenClaims → Request → Drawn → State L → Response × State L
  unfolding decided
  limited route c r drawn s =
      let (verdict, limiter) =
        middleware_with buckets s.limiter drawn.clock (limit_key c.org_id) (pos 0) (pos 0) in
      decided d route c r drawn s verdict limiter

  unfoldable pub admitted :
      Protected → Request → Drawn → State L → Authenticated → Response × State L
  unfolding limited
  admitted route r drawn s (turned_away response) = (response, s)
  admitted route r drawn s (caller c) = limited route c r drawn s

  unfoldable pub dispatch : Route → Request → Drawn → State L → Response × State L
  unfolding admitted jwt_auth
  dispatch register r drawn s =
      let (response, db) = register_handler d.server r s.db drawn in
      (response, record s { db = db })
  dispatch login r drawn s =
      let (response, db) = login_handler d.server r s.db drawn in (response, record s { db = db })
  dispatch workspace_config r drawn s = (data_plane_auth d r (serve_config d r s.db), s)
  dispatch (protected route) r drawn s =
      admitted route r drawn s (jwt_auth d drawn.now r.authorization)

  -- Requests, one after another.
  unfoldable pub dispatch_all : List (Route × (Request × Drawn)) → State L → State L
  unfolding dispatch
  dispatch_all [] s = s
  dispatch_all ((route, (r, drawn)) ∷ rest) s = dispatch_all rest (dispatch route r drawn s).1
