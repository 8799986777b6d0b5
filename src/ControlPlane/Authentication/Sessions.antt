-- ===== src/ControlPlane/Authentication/Sessions.antt =====
-- A user's session, from the registration to the token's check.
use sheeld.Prelude.{
  ℕ, ◌+◌, ◌<◌, ◌≡◌, refl, subst, ap, true, false, ◌||◌, ◌==◌, nat_eq, string_eq, String, Str, List,
  [], ◌∷◌, ◌++◌, some, find, exists, arith, Bool, eq_iff,
}
use sheeld.Prelude.Outcome.{Outcome, ok, ok-injective}
use sheeld.ControlPlane.{User, Organization, Database, Result}
use sheeld.ControlPlane.Services.{after-ok}
use sheeld.ControlPlane.Queries.Users.{create_organization, create_user, get_user_by_email}
use sheeld.ControlPlane.Authentication.{
  TokenClaims, AuthService, RegisterResult, LoginResult, Draws, claims_of, generate_token,
  validate_token, register_user, login,
}

-- What the packages promise: signing succeeds, a signed token of this issuer is read back until it
-- expires, and a password matches its own hash.
pub record IsSound (auth : AuthService) : Type 0 where
  pub signs : (secret : Str) (c : TokenClaims) → (t : Str) × (auth.signed_string secret c ≡ ok t)
  pub parses :
      (key : Bool → Outcome Str) (secret : Str) (c : TokenClaims) (t : Str) (now : ℕ)
      → key true ≡ ok secret
      → c.issuer ≡ "sheeld"
      → auth.signed_string secret c ≡ ok t
      → now < c.expires_at
      → auth.parse_with_claims key now t ≡ ok (c, true)
  pub compares :
      (salt password hash : Str)
      → auth.generate_from_password salt password ≡ ok hash
      → auth.compare_hash_and_password hash password ≡ ok tt

-- A token that was generated is valid until it expires, for the user and the organization it names.
pub generate_token-validate :
    (auth : AuthService)
    → IsSound auth
    → (now later user org : ℕ) (t : Str) → generate_token auth now user org ≡ ok t
    → later < now + auth.jwt_expiration
    → validate_token auth later t ≡ ok (claims_of auth now user org)
unfolding generate_token validate_token
generate_token-validate auth sound now later user org t h l =
    rw (sound.parses _ auth.jwt_secret (claims_of auth now user org) t later refl refl h l) refl

-- The user that was added last is the one found by an email that no other had.
find-added :
    (id : ℕ) (email : String) (users : List User) (new : User)
    → exists (λ (u : User). (u.id == id) || (u.email == email)) users ≡ false
    → new.email ≡ email
    → find (λ (u : User). u.email == email) (users ++ new ∷ []) ≡ some new
find-added id email [] new h e = ground (arith, eq_iff new.email email)
find-added id email (u ∷ users) new h e = ground (arith, find-added id email users new)

created_user_found :
    (new u : User) (db db' : Database)
    → create_user new db ≡ (ok u, db')
    → (u ≡ new) × (get_user_by_email new.email db' ≡ ok new)
unfolding create_user get_user_by_email
created_user_found new u db db' h = ground (arith, find-added new.id new.email db.users new)

returned-eq :
    {A : Type 0} (x : Result A) (a b : A) (db : Database)
    → x.0 ≡ ok a
    → a ≡ b
    → x.1 ≡ db
    → x ≡ (ok b, db)
returned-eq (o, db0) a b db p q e = cc

created_organization_id :
    (new o : Organization) (db : Database) → (create_organization new db).0 ≡ ok o → o ≡ new
unfolding create_organization
created_organization_id new o db h = ground arith

-- What a registration that succeeds wrote.
abbrev RegistersUser : AuthService → Draws → String → Str → User → Database → Database → Type 0
RegistersUser auth draws email password user db db' =
    (hash : Str) × ((auth.generate_from_password draws.salt password ≡ ok hash)
      × (create_user
            (record {
              id = draws.user_id;
              org_id = draws.org_id;
              email = email;
              password_hash = hash;
            })
            db
          ≡ (ok user, db')))

register_user-RegistersUser :
    (auth : AuthService) (now : ℕ) (draws : Draws) (org_name email : String) (password : Str)
    (r : RegisterResult) (db db' : Database)
    → register_user auth now draws org_name email password db ≡ (ok r, db')
    → RegistersUser auth draws email password r.user
        (create_organization (record { id = draws.org_id; name = org_name }) db).1
        db'
unfolding register_user
register_user-RegistersUser auth now draws org_name email password r db db' h =
    let made = create_organization (record { id = draws.org_id; name = org_name }) db in
    let (org, e, h1) = after-ok made.0 made.1 db' _ r h in
    let (hash, g, h2) =
      after-ok (auth.generate_from_password draws.salt password) made.1 db' _ r h1 in
    let added =
      create_user
        (record { id = draws.user_id; org_id = org.id; email = email; password_hash = hash })
        made.1 in
    let (user, c, h3) = after-ok added.0 added.1 db' _ r h2 in
    let (token, t, h4) = after-ok (generate_token auth now user.id org.id) added.1 db' _ r h3 in
    let at_end = ok-injective (ap (λ (x : Result RegisterResult). x.0) h4) in
    (
      hash,
      (
        g,
        subst
            (λ (o : Organization).
              create_user
                (record { id = draws.user_id; org_id = o.id; email = email; password_hash = hash })
                made.1
              ≡ (ok r.user, db'))
            (created_organization_id _ org db e)
            (returned-eq added user r.user db' c (ap (λ (x : RegisterResult). x.user) at_end)
              (ap (λ (x : Result RegisterResult). x.1) h4)),
      ),
    )

-- Whoever has just registered can log in with the same email and password, at any later time, as the
-- same user; and the token of the login is valid until it expires, for that user and the
-- organization that the registration made. The signature and the password hash are sound.
pub registered_logs_in :
    (auth : AuthService) (now later : ℕ) (draws : Draws) (org_name email : String) (password : Str)
    (r : RegisterResult) (db db' : Database)
    → IsSound auth
    → register_user auth now draws org_name email password db ≡ (ok r, db')
    → (s : LoginResult) × ((login auth later email password db' ≡ ok s)
        × ((s.user ≡ r.user)
            × ((at : ℕ)
                → at < later + auth.jwt_expiration
                → validate_token auth at s.token
                  ≡ ok (claims_of auth later draws.user_id draws.org_id))))
unfolding login generate_token
registered_logs_in auth now later draws org_name email password r db db' sound h =
    let (hash, (g, c)) =
      register_user-RegistersUser auth now draws org_name email password r db db' h in
    let (same, found) = created_user_found _ r.user _ db' c in
    let (t, signed) =
      sound.signs auth.jwt_secret (claims_of auth later draws.user_id draws.org_id) in
    (
      record { user = r.user; token = t },
      (
        rw (login, same, found, sound.compares draws.salt password hash g, generate_token, signed)
            refl,
        (
          refl,
          λ at l. generate_token-validate auth sound later at draws.user_id draws.org_id t signed l,
        ),
      ),
    )
