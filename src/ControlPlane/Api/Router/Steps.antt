-- ===== src/ControlPlane/Api/Router/Steps.antt =====
-- What becomes of a request to a protected route.
use sheeld.Prelude.{ℕ, ◌≤◌, ◌≡◌, refl, ap, inl, inr, false, bytes_eq, string_eq, Str, arith}
use sheeld.Prelude.Int.{pos}
use sheeld.RateLimit.{Buckets, RateLimiter, Verdict, forwarded, too_many_requests, middleware_with}
use sheeld.ControlPlane.Authentication.{TokenClaims}
use sheeld.ControlPlane.Api.{Drawn, Request, Response}
use sheeld.ControlPlane.Api.Handlers.{Performs}
use sheeld.ControlPlane.Api.Router.{
  Deployment, Protected, State, Authenticated, protected, turned_away, caller, jwt_auth, decided,
  admitted, limited, limit_key, dispatch,
}
use sheeld.ControlPlane.Api.Shapes.{shape_of, error_shape, Documented}
use sheeld.ControlPlane.Api.Router.Performs.{
  declared, is_proxied, handle_protected-Performs, handle_protected-Documented,
}

-- A request to a protected route is turned away for its token, with nothing changed; or it bears a
-- valid token, and then it is over the rate limit, with the database unchanged, or does at most one call
-- in the name of the token's organization, and none if the reply is an error. The reply is an error, or
-- what is declared for the route, if the route is answered here.
pub data Step {L : Type 0} (d : Deployment) (route : Protected) (r : Request) (drawn : Drawn)
    (s : State L) (response : Response) (after_it : State L) : Type 0 where
  unauthenticated :
      response.status ≡ 401
      → shape_of response.payload ≡ error_shape
      → after_it ≡ s
      → Step d route r drawn s response after_it
  over_limit :
      (c : TokenClaims)
      → jwt_auth d drawn.now r.authorization ≡ caller c
      → response.status ≡ 429
      → shape_of response.payload ≡ error_shape
      → after_it.db ≡ s.db
      → Step d route r drawn s response after_it
  performed :
      (c : TokenClaims)
      → jwt_auth d drawn.now r.authorization ≡ caller c
      → Performs d.server.env c.org_id s.db (response, after_it.db)
      → (is_proxied route ≡ false → Documented (declared route).0 (declared route).1 response)
      → Step d route r drawn s response after_it

-- Only a 401 turns a request away.
turned_away_401 :
    (d : Deployment) (now : ℕ) (header : Str) (response : Response)
    → jwt_auth d now header ≡ turned_away response
    → (response.status ≡ 401) × (shape_of response.payload ≡ error_shape)
unfolding jwt_auth
turned_away_401 d now header response h = ground arith

module _ {L : Type 0} (buckets : Buckets L) (d : Deployment) (r : Request) (drawn : Drawn)
    (s : State L) (route : Protected) where
  verdict-Step :
      (c : TokenClaims) (verdict : Verdict) (limiter : RateLimiter L)
      → jwt_auth d drawn.now r.authorization ≡ caller c
      → Step d route r drawn s
          (decided d route c r drawn s verdict limiter).0
          (decided d route c r drawn s verdict limiter).1
  unfolding decided
  verdict-Step c too_many_requests limiter h = over_limit c h refl refl refl
  verdict-Step c forwarded limiter h =
      performed c h (handle_protected-Performs d c r drawn s.db route)
        (handle_protected-Documented d c r drawn s.db route)

  authenticated-Step :
      (a : Authenticated)
      → jwt_auth d drawn.now r.authorization ≡ a
      → Step d route r drawn s
          (admitted buckets d route r drawn s a).0
          (admitted buckets d route r drawn s a).1
  unfolding admitted limited
  authenticated-Step (turned_away response) h =
      let (status, shape) = turned_away_401 d drawn.now r.authorization response h in
      unauthenticated status shape refl
  authenticated-Step (caller c) h =
      let met =
        middleware_with buckets s.limiter drawn.clock (limit_key buckets d c.org_id) (pos 0)
          (pos 0) in
      verdict-Step c met.0 met.1 h

  pub dispatch-Step :
      Step d route r drawn s
        (dispatch buckets d (protected route) r drawn s).0
        (dispatch buckets d (protected route) r drawn s).1
  unfolding dispatch
  dispatch-Step = authenticated-Step (jwt_auth d drawn.now r.authorization) refl

-- An error of a protected route, for whatever reason, leaves the database as it was.
pub refused_unchanged :
    {L : Type 0} (buckets : Buckets L) (d : Deployment) (route : Protected) (r : Request)
    (drawn : Drawn) (s : State L)
    → 400 ≤ (dispatch buckets d (protected route) r drawn s).0.status
    → (dispatch buckets d (protected route) r drawn s).1.db ≡ s.db
refused_unchanged buckets d route r drawn s h =
    unchanged_by _ _ h (dispatch-Step buckets d r drawn s route)
  where
    unchanged_by :
        (response : Response) (after_it : State _)
        → 400 ≤ response.status
        → Step d route r drawn s response after_it
        → after_it.db ≡ s.db
    unchanged_by response after_it h (unauthenticated p q e) = ap (λ (x : State _). x.db) e
    unchanged_by response after_it h (over_limit c p q t e) = e
    unchanged_by response after_it h (performed c p (inl e) t) = e
    unchanged_by response after_it h (performed c p (inr (call, (l, e))) t) = absurd (omega arith)
