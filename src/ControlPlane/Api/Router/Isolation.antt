-- ===== src/ControlPlane/Api/Router/Isolation.antt =====
-- Which organizations' rows a request can touch.
use sheeld.Prelude.{
  ℕ, ◌≡◌, ◌≢◌, ◌∙◌, refl, ap, inl, inr, ◌==◌, bytes_eq, string_eq, ltb, length, ◌||◌, Bool-cases,
  String, Str, List, [], ◌∷◌, All, arith,
}
use sheeld.RateLimit.{Buckets}
use sheeld.ControlPlane.{User, Organization, Database}
use sheeld.ControlPlane.Queries.Users.{create_organization, create_user}
use sheeld.ControlPlane.Services.{after-holds}
use sheeld.ControlPlane.Authentication.{
  TokenClaims, AuthService, Draws, register_user, generate_token, login as log_in,
}
use sheeld.ControlPlane.Calls.Writes.{view}
use sheeld.ControlPlane.Calls.Isolation.{serve_isolated}
use sheeld.ControlPlane.Api.{Drawn, Request, Response}
use sheeld.ControlPlane.Api.Sessions.{register_handler, login_handler}
use sheeld.ControlPlane.Api.Handlers.{parsed-holds, required-holds, finished-holds}
use sheeld.ControlPlane.Api.Router.{
  Deployment, Protected, Route, State, register, login, workspace_config, protected, caller,
  jwt_auth, dispatch, dispatch_all,
}
use sheeld.ControlPlane.Api.Router.Steps.{
  Step, unauthenticated, over_limit, performed, dispatch-Step,
}

module _ (B : ℕ) where
  -- A registration writes an organization and a user.
  created_organization-view :
      (new : Organization) (db : Database) → view B (create_organization new db).1 ≡ view B db
  unfolding create_organization
  created_organization-view new db = ground arith

  created_user-view : (new : User) (db : Database) → view B (create_user new db).1 ≡ view B db
  unfolding create_user
  created_user-view new db = ground arith

  register_user-view :
      (auth : AuthService) (now : ℕ) (draws : Draws) (org_name email : String) (password : Str)
      (db : Database)
      → view B (register_user auth now draws org_name email password db).1 ≡ view B db
  unfolding register_user
  register_user-view auth now draws org_name email password db =
      let made = create_organization (record { id = draws.org_id; name = org_name }) db in
      let same = created_organization-view (record { id = draws.org_id; name = org_name }) db in
      let Same = λ (x : Database). view B x ≡ view B db in
      after-holds Same made.1 made.0 _ same (λ org.
        after-holds Same made.1 (auth.generate_from_password draws.salt password) _ same (λ hash.
          let added =
            create_user
              (record { id = draws.user_id; org_id = org.id; email = email; password_hash = hash })
              made.1 in
          let kept = created_user-view _ made.1 ∙ same in
          after-holds Same added.1 added.0 _ kept (λ user.
            after-holds Same added.1 (generate_token auth now user.id org.id) _ kept (λ t. kept))))

module _ {L : Type 0} (buckets : Buckets L) (d : Deployment) (B : ℕ) where
  -- The request bears no token of the organization.
  abbrev pub Foreign : Route × (Request × Drawn) → Type 0
  Foreign (route, (r, drawn)) =
      (c : TokenClaims) → jwt_auth d drawn.now r.authorization ≡ caller c → c.org_id ≢ B

  protected-view :
      (route : Protected) (r : Request) (drawn : Drawn) (s after_it : State L) (response : Response)
      → ((c : TokenClaims) → jwt_auth d drawn.now r.authorization ≡ caller c → c.org_id ≢ B)
      → Step d route r drawn s response after_it
      → view B after_it.db ≡ view B s.db
  protected-view route r drawn s after_it response f (unauthenticated p q e) =
      ap (λ (x : State L). view B x.db) e
  protected-view route r drawn s after_it response f (over_limit c p q t e) = ap (view B) e
  protected-view route r drawn s after_it response f (performed c p (inl e) t) = ap (view B) e
  protected-view route r drawn s after_it response f (performed c p (inr (call, (l, e))) t) =
      ap (view B) e ∙ serve_isolated d.server.env c.org_id B call s.db (f c p)

  register-view :
      (r : Request) (drawn : Drawn) (s : State L)
      → view B (dispatch buckets d register r drawn s).1.db ≡ view B s.db
  unfolding dispatch register_handler
  register-view r drawn s =
      let Same = λ (x : Database). view B x ≡ view B s.db in
      parsed-holds Same s.db refl (d.server.decode.registration r.body) _ _ (λ req.
        required-holds Same s.db refl (req.org_name == "") _ _ _ (
          required-holds Same s.db refl (req.email == "") _ _ _ (
            required-holds Same s.db refl (ltb (length req.password) 8) _ _ _ (
              finished-holds Same
                (register_user d.server.auth drawn.now drawn.draws req.org_name req.email
                  req.password s.db)
                _ _ _ _
                (register_user-view B d.server.auth drawn.now drawn.draws req.org_name req.email
                  req.password s.db)))))

  login-unchanged :
      (r : Request) (drawn : Drawn) (s : State L) → (dispatch buckets d login r drawn s).1.db ≡ s.db
  unfolding dispatch login_handler
  login-unchanged r drawn s =
      let Same = λ (x : Database). x ≡ s.db in
      parsed-holds Same s.db refl (d.server.decode.credentials r.body) _ _ (λ req.
        elim (Bool-cases ((req.email == "") || (req.password == []))) [
          | inl e ↦ rw e refl
          | inr e ↦ rw e (
              finished-holds Same (log_in d.server.auth drawn.now req.email req.password s.db, s.db)
                _ _ _ _ refl)
        ])

  dispatch-view :
      (route : Route) (r : Request) (drawn : Drawn) (s : State L)
      → Foreign (route, (r, drawn))
      → view B (dispatch buckets d route r drawn s).1.db ≡ view B s.db
  unfolding dispatch
  dispatch-view register r drawn s f = register-view r drawn s
  dispatch-view login r drawn s f = ap (view B) (login-unchanged r drawn s)
  dispatch-view workspace_config r drawn s f = refl
  dispatch-view (protected route) r drawn s f =
      protected-view route r drawn s _ _ f (dispatch-Step buckets d r drawn s route)

-- However many requests of whatever kind arrive: if none bears a valid token of an organization, that
-- organization's sources, guardrails, transformers, alert webhooks and API keys are what they were.
pub requests_isolated :
    {L : Type 0} (buckets : Buckets L) (d : Deployment) (B : ℕ)
    (requests : List (Route × (Request × Drawn))) (s : State L)
    → All (Foreign buckets d B) requests
    → view B (dispatch_all buckets d requests s).db ≡ view B s.db
unfolding dispatch_all
requests_isolated buckets d B [] s h = refl
requests_isolated buckets d B ((route, (r, drawn)) ∷ rest) s h =
    requests_isolated buckets d B rest (dispatch buckets d route r drawn s).1 h.1
    ∙ dispatch-view buckets d B route r drawn s h.0
