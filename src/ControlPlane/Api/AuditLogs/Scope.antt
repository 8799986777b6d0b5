-- ===== src/ControlPlane/Api/AuditLogs/Scope.antt =====
-- Whose audit logs a request can see.
use sheeld.Prelude.{
  ℕ, ◌≡◌, ◌∙◌, refl, ap, inl, inr, false, ◌==◌, nat_eq, bytes_eq, string_eq, Bool-cases, String,
  Str, List, [], ◌∷◌, All, some, lookup, insert, lookup-insert, if◌then◌else◌,
}
use sheeld.ControlPlane.{Database}
use sheeld.ControlPlane.Api.{Request, Response, authorized, error, json, proxied_body}
use sheeld.ControlPlane.Api.AuditLogs.{
  Exchange, unbuilt, unreachable, answered, Values, pass_on, proxy, query_values, proxied_handler,
  log_params,
}

-- No parameter that is passed on is the organization's.
abbrev pub Passable : String → Type 0
Passable name = (name == "org_id") ≡ false

pass_on_org :
    (names : List String) (query : String → Str) (q : Values) (org : Str)
    → All Passable names
    → lookup "org_id" q ≡ some org
    → lookup "org_id" (pass_on names query q) ≡ some org
unfolding pass_on
pass_on_org [] query q org h e = e
pass_on_org (name ∷ names) query q org h e = elim (Bool-cases (query name == [])) [
  | inl t ↦ rw t (pass_on_org names query q org h.1 e)
  | inr t ↦ rw t (
      pass_on_org names query (insert name (query name) q) org h.1
        (lookup-insert name "org_id" (query name) q ∙ rw h.0 e))
]

proxy-ask :
    (url : Str) (org_text : ℕ → Str) (ask ask' : String → Values → Exchange) (path : String)
    (q : Values)
    → ask path q ≡ ask' path q
    → proxy url org_text ask path q ≡ proxy url org_text ask' path q
unfolding proxy
proxy-ask url org_text ask ask' path q h =
    ap
      (λ (x : Exchange). elim x [
        | unbuilt ↦ error 500 "failed to build data-plane query"
        | unreachable ↦ error 502 "data-plane query failed"
        | answered status body ↦ json status (proxied_body body)
      ])
      h

-- What a request for audit logs or analytics is replied depends on the data plane's answers to queries
-- about the caller's own organization only, whatever parameters the caller gives.
pub own_logs_only :
    (url : Str) (org_text : ℕ → Str) (ask ask' : String → Values → Exchange) (path : String)
    (names : List String) (org : ℕ) (r : Request) (db : Database)
    → All Passable names
    → ((q : Values) → lookup "org_id" q ≡ some (org_text org) → ask path q ≡ ask' path q)
    → proxied_handler url org_text ask path names org r db
      ≡ proxied_handler url org_text ask' path names org r db
unfolding proxied_handler query_values
own_logs_only url org_text ask ask' path names org r db h w =
    let q = query_values url org_text ask names org r.query in
    ap
      (λ (x : Response).
        authorized org db (if url == [] then error 503 "data plane not configured" else x, db))
      (proxy-ask url org_text ask ask' path q
        (w q (pass_on_org names r.query (("org_id", org_text org) ∷ []) (org_text org) h refl)))

pub log_params-Passable : All Passable log_params
log_params-Passable = (refl, (refl, (refl, (refl, (refl, (refl, (refl, tt)))))))
