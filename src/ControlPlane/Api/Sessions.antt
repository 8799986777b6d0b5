-- ===== src/ControlPlane/Api/Sessions.antt =====
-- internal/controlplane/api/handler/auth.go: `AuthHandler`.
use sheeld.Prelude.{
  ℕ, Bool, false, ◌==◌, nat_eq, string_eq, bytes_eq, not, ◌||◌, ltb, length, if◌then◌else◌, List,
  [], map, Option, none, some,
}
use sheeld.Prelude.Int.{ℤ, is_positive}
use sheeld.ControlPlane.{ApiKey, Database}
use sheeld.ControlPlane.Queries.Accounts.{list_api_keys_by_organization, revoke_api_key}
use sheeld.ControlPlane.Accounts.{create_api_key_of}
use sheeld.ControlPlane.Authentication.{TokenClaims, register_user, login, refresh_token}
use sheeld.ControlPlane.Api.{
  Server, Drawn, Request, Reply, RegisterRequest, LoginRequest, CreateApiKeyRequest, ApiKeySummary,
  error, json, authorized, parsed, required, finished, fixed, registered_body, session_body,
  token_body, new_key_body, keys_body, status_body,
}

-- A given number that is not positive.
abbrev pub not_positive : Option ℤ → Bool
not_positive none = false
not_positive (some n) = not (is_positive n)

unfoldable pub to_api_key_summaries : List ApiKey → List ApiKeySummary
to_api_key_summaries keys =
    map
      (λ (k : ApiKey). record {
        id = k.id;
        name = k.name;
        revoked = k.revoked;
        rate_limit_rps = k.rate_limit_rps;
        rate_limit_burst = k.rate_limit_burst;
      })
      keys

module _ (server : Server) (r : Request) (db : Database) where
  register_request : Drawn → RegisterRequest → Reply
  register_request drawn req =
      required (req.org_name == "") "org_name" "organization name is required" db (
        required (req.email == "") "email" "email is required" db (
          required (ltb (length req.password) 8) "password" "password must be at least 8 characters"
            db
            (finished
              (register_user server.auth drawn.now drawn.draws req.org_name req.email req.password
                db)
              500 (fixed "failed to register") 201 (λ result. registered_body result))))

  unfoldable pub register_handler : Drawn → Reply
  unfolding register_request
  register_handler drawn =
      parsed (server.decode.registration r.body) "invalid request body" db (register_request drawn)

  login_request : ℕ → LoginRequest → Reply
  login_request now req =
      if (req.email == "") || (req.password == [])
      then (error 400 "email and password are required", db)
      else finished (login server.auth now req.email req.password db, db) 401
          (fixed "invalid credentials") 200 (λ s. session_body s)

  unfoldable pub login_handler : Drawn → Reply
  unfolding login_request
  login_handler drawn =
      parsed (server.decode.credentials r.body) "invalid request body" db (login_request drawn.now)

  -- The user and the organization come from the request's token.
  unfoldable pub refresh_handler : TokenClaims → Drawn → Reply
  refresh_handler claims drawn =
      if (claims.user_id == 0) || (claims.org_id == 0)
      then (error 401 "unauthorized", db)
      else finished (refresh_token server.auth drawn.now claims, db) 500
          (fixed "failed to refresh token") 200 (λ token. token_body token)

module _ (server : Server) (org : ℕ) (r : Request) (db : Database) where
  create_key_request : Drawn → CreateApiKeyRequest → Reply
  create_key_request drawn req = required (req.name == "") "name" "API key name is required" db (
      required (not_positive req.rate_limit_rps) "rate_limit_rps"
        "rate_limit_rps must be greater than 0" db
        (required (not_positive req.rate_limit_burst) "rate_limit_burst"
          "rate_limit_burst must be greater than 0" db
          (finished
            (create_api_key_of server.env.digest drawn.key_hex drawn.row org req.name
              req.rate_limit_rps req.rate_limit_burst db)
            500 (fixed "failed to create API key") 201 (λ (key, raw). new_key_body key raw))))

  unfoldable pub create_api_key_handler : Drawn → Reply
  unfolding create_key_request
  create_api_key_handler drawn = authorized org db (
      parsed (server.decode.key_params r.body) "invalid request body" db (create_key_request drawn))

  unfoldable pub list_api_keys_handler : Reply
  list_api_keys_handler =
      authorized org db
        (json 200 (keys_body (to_api_key_summaries (list_api_keys_by_organization org db))), db)

  unfoldable pub revoke_api_key_handler : Reply
  revoke_api_key_handler = authorized org db (
      parsed (server.decode.parse_uuid r.id) "invalid API key ID" db (λ id.
        finished (revoke_api_key id org db) 500 (fixed "failed to revoke API key") 200
          (λ u. status_body "revoked")))
