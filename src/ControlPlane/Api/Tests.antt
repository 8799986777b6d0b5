-- ===== src/ControlPlane/Api/Tests.antt =====
-- The API at concrete requests.
use sheeld.Prelude.{
  ℕ, ◌+◌, ◌<◌, ◌≡◌, ◌≢◌, refl, ap, sym, Bool, true, ◌==◌, bytes_eq, beq_refl, ltb, if◌then◌else◌,
  Str, str, List, [], ◌∷◌, ◌++◌, Option, none, some, arith, lookup, string_eq,
}
use sheeld.Prelude.Int.{pos}
use sheeld.Prelude.Outcome.{Outcome, ok, err, ok-injective}
use sheeld.Gateway.{bearer_token}
use sheeld.ControlPlane.Transformers.{set_source_transformers}
use sheeld.RateLimit.{Buckets, new_rate_limiter, middleware_with}
use sheeld.ControlPlane.Api.Transformers.{set_source_transformers_handler}
use sheeld.ControlPlane.{Database, User}
use sheeld.ControlPlane.Tests.{env, tables}
use sheeld.ControlPlane.Queries.{duplicate_key, get_source as get_source_row}
use sheeld.ControlPlane.Calls.Writes.{view}
use sheeld.ControlPlane.Authentication.{
  AuthService, TokenClaims, RegisterResult, LoginResult, Draws, claims_of, register_user, login,
  validate_token,
}
use sheeld.ControlPlane.Authentication.Sessions.{IsSound, registered_logs_in}
use sheeld.ControlPlane.Api.{Drawn, Request, Decoders}
use sheeld.ControlPlane.Api.AuditLogs.{Exchange, answered, unreachable, log_params, proxied_handler}
use sheeld.ControlPlane.Api.AuditLogs.Scope.{own_logs_only, log_params-Passable}
use sheeld.ControlPlane.Api.Router.{
  Deployment, Route, State, delete_source, set_transformers, protected, workspace_config, jwt_auth,
  caller, dispatch, dispatch_all,
}
use sheeld.ControlPlane.Api.Router.Steps.{refused_unchanged}
use sheeld.ControlPlane.Api.Router.Isolation.{requests_isolated}

-- A token is its claims, a password's hash the password.
abbrev read_token : Outcome Str → ℕ → Str → Outcome (TokenClaims × Bool)
read_token (ok secret) now (user ∷ org ∷ expires ∷ issued ∷ []) =
    if ltb now expires
    then ok (
      record {
        user_id = user;
        org_id = org;
        expires_at = expires;
        issued_at = issued;
        issuer = "sheeld";
      },
      true,
    )
    else err "token is expired"
read_token _ now t = err "token is malformed"

abbrev service : AuthService
service = record {
  jwt_secret = str "secret";
  jwt_expiration = 3600;
  signed_string = λ s c. ok (c.user_id ∷ c.org_id ∷ c.expires_at ∷ c.issued_at ∷ []);
  parse_with_claims = λ key now t. read_token (key true) now t;
  generate_from_password = λ salt p. ok p;
  compare_hash_and_password = λ h p. if h == p then ok tt else err "mismatch";
}

ltb-true : {a b : ℕ} → a < b → ltb a b ≡ true
ltb-true h = ground arith

service-IsSound : IsSound service
service-IsSound = record {
  signs = λ secret c. (_, refl);
  parses = λ key secret c t now k i s l. rw (k, sym (ok-injective s), ltb-true l, sym i) refl;
  compares = λ salt p h e. rw (sym (ok-injective e)) (rw (beq_refl p) refl);
}

abbrev counted : Buckets Unit
counted = record {
  new_limiter = λ r b. tt;
  limit = λ l. pos 1;
  burst = λ l. pos 1;
  set_limit = λ l r. l;
  set_burst = λ l b. l;
  allow = λ now l. (true, l);
}

-- An identifier is a text of one byte; no body is read but a list of identifiers.
abbrev read_id : Str → Option ℕ
read_id (n ∷ []) = some n
read_id _ = none

abbrev decoders : Decoders
decoders = record {
  parse_uuid = read_id;
  source_params = λ b. none;
  guardrail_params = λ b. none;
  test_input = λ b. none;
  attach_to_guardrail = λ b. none;
  transformer_params = λ b. none;
  attach_to_transformer = λ b. none;
  transformer_ids = λ b. some b;
  webhook_params = λ b. none;
  registration = λ b. none;
  credentials = λ b. none;
  key_params = λ b. none;
}

abbrev deployment : Deployment
deployment = record {
  server = record { env = env; auth = service; decode = decoders };
  data_plane_url = str "http://data";
  data_plane_token = [];
  ask = λ path q. unreachable;
  org_text = λ org. "org";
  decrypt = λ s. ok s;
  hash = λ orgs. "v";
  collates = λ a b. true;
}

abbrev state : State Unit
state = record { db = tables; limiter = new_rate_limiter counted (pos 10) (pos 20) }

-- The bearer of the token is the user 7 of organization 1.
abbrev asks : ℕ → Str → Request
asks id body = record {
  authorization = str "Bearer " ++ 7 ∷ 1 ∷ 1000 ∷ 0 ∷ [];
  if_none_match = "";
  id = id ∷ [];
  source_id = id ∷ [];
  query = λ name. [];
  body = body;
}

abbrev drawn : Drawn
drawn = record {
  now = 10;
  clock = 10;
  row = 99;
  draws = record { org_id = 3; user_id = 8; salt = [] };
  key_hex = str "ab";
}

abbrev requests : List (Route × (Request × Drawn))
requests =
    (protected set_transformers, (asks 10 (41 ∷ 40 ∷ []), drawn))
    ∷ (protected delete_source, (asks 20 [], drawn))
    ∷ (workspace_config, (asks 0 [], drawn))
    ∷ []

caller-injective : (a b : TokenClaims) → caller a ≡ caller b → a ≡ b
caller-injective a b h = cc

caller_org :
    (id : ℕ) (body : Str) (c : TokenClaims)
    → jwt_auth deployment 10 (asks id body).authorization ≡ caller c
    → c.org_id ≢ 2
unfolding jwt_auth validate_token bearer_token
caller_org id body c h e =
    let same = ap (λ (x : TokenClaims). x.org_id) (caller-injective _ c h) in omega (arith, same, e)

requests_isolated_example :
    view 2 (dispatch_all counted deployment requests state).db ≡ view 2 tables
requests_isolated_example =
    requests_isolated counted deployment 2 requests state
      (caller_org 10 (41 ∷ 40 ∷ []), (caller_org 20 [], (caller_org 0 [], tt)))

refused_chain :
    (dispatch counted deployment
      (protected set_transformers)
      (asks 20 (41 ∷ []))
      drawn
      state).0.status
    ≡ 422
unfolding dispatch validate_token set_source_transformers bearer_token middleware_with
    set_source_transformers_handler get_source_row
refused_chain = refl

refused_unchanged_example :
    (dispatch counted deployment (protected set_transformers) (asks 20 (41 ∷ [])) drawn state).1.db
    ≡ tables
refused_unchanged_example =
    refused_unchanged counted deployment set_transformers (asks 20 (41 ∷ [])) drawn state
      (omega (arith, refused_chain))

abbrev fresh : Draws
fresh = record { org_id = 3; user_id = 8; salt = [] }

abbrev new_user : User
new_user = record { id = 8; org_id = 3; email = "a@b.c"; password_hash = str "longenough" }

abbrev registered : RegisterResult
registered = record {
  organization = record { id = 3; name = "New" };
  user = new_user;
  token = 8 ∷ 3 ∷ 3610 ∷ 10 ∷ [];
}

abbrev registered_tables : Database
registered_tables = record tables {
  organizations = tables.organizations ++ record { id = 3; name = "New" } ∷ [];
  users = new_user ∷ [];
}

registers :
    register_user service 10 fresh "New" "a@b.c" (str "longenough") tables
    ≡ (ok registered, registered_tables)
unfolding register_user
registers = refl

registered_logs_in_example :
    (s : LoginResult) × ((login service 20 "a@b.c" (str "longenough") registered_tables ≡ ok s)
      × ((s.user ≡ new_user)
          × ((at : ℕ)
              → at < 20 + 3600
              → validate_token service at s.token ≡ ok (claims_of service 20 8 3))))
registered_logs_in_example =
    registered_logs_in service 10 20 fresh "New" "a@b.c" (str "longenough") registered tables
      registered_tables service-IsSound registers

-- An email that is taken: the registration errs, and leaves an organization without a user.
abbrev again : Draws
again = record { org_id = 4; user_id = 9; salt = [] }

orphan_left :
    register_user service 10 again "Again" "a@b.c" (str "longenough") registered_tables ≡ (
      err duplicate_key,
      record registered_tables {
        organizations = registered_tables.organizations ++ record { id = 4; name = "Again" } ∷ [];
      },
    )
unfolding register_user
orphan_left = refl

-- A data plane that tells something about other organizations only.
abbrev own_only : Option Str → Exchange
own_only none = answered 200 []
own_only (some org) = if org == 1 ∷ [] then unreachable else answered 200 []

own_logs_only_example :
    proxied_handler
      (str "http://data")
      (λ org. org ∷ [])
      (λ path q. own_only (lookup "org_id" q))
      "/v1/internal/audit-logs"
      log_params
      1
      (asks 1 [])
      tables
    ≡ proxied_handler
        (str "http://data")
        (λ org. org ∷ [])
        (λ path q. unreachable)
        "/v1/internal/audit-logs"
        log_params
        1
        (asks 1 [])
        tables
own_logs_only_example =
    own_logs_only (str "http://data") (λ org. org ∷ []) _ _ "/v1/internal/audit-logs" log_params 1
      (asks 1 []) tables log_params-Passable (λ q h. ap own_only h)
