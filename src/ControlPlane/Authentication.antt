-- ===== src/ControlPlane/Authentication.antt =====
-- internal/controlplane/service/auth.go: the users' part of `AuthService`, that is registration, login
-- and the tokens. Times are seconds. The golang-jwt and bcrypt packages are parameters.
pub mod Sessions
use sheeld.Prelude.{ℕ, ◌+◌, Bool, true, false, if◌then◌else◌, String, Str}
use sheeld.Prelude.Outcome.{Outcome, ok, err, ◌>>=◌}
use sheeld.ControlPlane.{Organization, User, Database, Result}
use sheeld.ControlPlane.Queries.Users.{create_organization, create_user, get_user_by_email}
use sheeld.ControlPlane.Services.{Checked, after}

pub record TokenClaims : Type 0 where
  pub user_id : ℕ
  pub org_id : ℕ
  pub expires_at : ℕ
  pub issued_at : ℕ
  pub issuer : String

-- `AuthService`, with the packages it calls: `signed_string` signs claims with a secret, and
-- `parse_with_claims` asks its argument for the secret, telling it whether the token's method is an
-- HMAC, and gives the claims with `token.Valid`. A hash depends on the salt that bcrypt draws.
pub record AuthService : Type 0 where
  pub jwt_secret : Str
  pub jwt_expiration : ℕ
  pub signed_string : Str → TokenClaims → Outcome Str
  pub parse_with_claims : (Bool → Outcome Str) → ℕ → Str → Outcome (TokenClaims × Bool)
  pub generate_from_password : Str → Str → Outcome Str
  pub compare_hash_and_password : Str → Str → Checked

pub record RegisterResult : Type 0 where
  pub organization : Organization
  pub user : User
  pub token : Str

pub record LoginResult : Type 0 where
  pub user : User
  pub token : Str

-- What a registration draws: the identifiers of its rows, and the salt.
pub record Draws : Type 0 where
  pub org_id : ℕ
  pub user_id : ℕ
  pub salt : Str

abbrev pub invalid_credentials : String
invalid_credentials = "invalid credentials"

module _ (auth : AuthService) (now : ℕ) where
  abbrev pub claims_of : ℕ → ℕ → TokenClaims
  claims_of user org = record {
    user_id = user;
    org_id = org;
    expires_at = now + auth.jwt_expiration;
    issued_at = now;
    issuer = "sheeld";
  }

  unfoldable pub generate_token : ℕ → ℕ → Outcome Str
  generate_token user org = auth.signed_string auth.jwt_secret (claims_of user org)

  unfoldable pub refresh_token : TokenClaims → Outcome Str
  unfolding generate_token
  refresh_token claims = generate_token claims.user_id claims.org_id

  -- The function that `ValidateToken` gives the parser.
  abbrev pub key_func : Bool → Outcome Str
  key_func hmac = if hmac then ok auth.jwt_secret else err "unexpected signing method"

  unfoldable pub validate_token : Str → Outcome TokenClaims
  validate_token text = auth.parse_with_claims key_func now text >>= λ (claims, valid).
      if valid then ok claims else err "invalid token claims"

  -- The two rows are written one after the other, outside a transaction.
  unfoldable pub register_user : Draws → String → String → Str → Database → Result RegisterResult
  unfolding create_organization create_user generate_token
  register_user draws org_name email password db =
      let (o, db') = create_organization (record { id = draws.org_id; name = org_name }) db in
      after o db' (λ org. after (auth.generate_from_password draws.salt password) db' (λ hash.
        let (u, db'') =
          create_user
            (record { id = draws.user_id; org_id = org.id; email = email; password_hash = hash })
            db' in
        after u db'' (λ user.
          after (generate_token user.id org.id) db''
            (λ token. (ok (record { organization = org; user = user; token = token }), db'')))))

  unfoldable pub login : String → Str → Database → Outcome LoginResult
  unfolding get_user_by_email generate_token
  login email password db = elim (get_user_by_email email db) [
    | err e ↦ err invalid_credentials
    | ok user ↦ elim (auth.compare_hash_and_password user.password_hash password) [
      | err e ↦ err invalid_credentials
      | ok u ↦
          generate_token user.id user.org_id >>= λ token. ok (record { user = user; token = token })
    ]
  ]
