-- ===== src/ControlPlane/Api/AuditLogs.antt =====
-- internal/controlplane/api/handler/audit_log.go: `AuditLogHandler`, which asks the data plane. `ask`
-- is the exchange with it: the path and the query's values, to the status and body of its answer.
pub mod Scope
use sheeld.Prelude.{
  ℕ, ◌==◌, nat_eq, bytes_eq, string_eq, not, if◌then◌else◌, Bool, String, Str, List, [], ◌∷◌,
  insert,
}
use sheeld.Prelude.Outcome.{Outcome, ok, err}
use sheeld.ControlPlane.{Database}
use sheeld.ControlPlane.Api.{
  Request, Reply, Response, error, json, authorized, error_body, proxied_body,
}

-- `http.NewRequest` fails, the exchange fails, or there is an answer.
pub data Exchange : Type 0 where
  unbuilt : Exchange
  unreachable : Exchange
  answered : ℕ → Str → Exchange

-- `q.Set`
abbrev pub Values : Type 0
Values = List (String × Str)

-- The loop over the parameters that are passed on when they are given.
unfoldable pub pass_on : List String → (String → Str) → Values → Values
pass_on [] query q = q
pass_on (name ∷ names) query q =
    pass_on names query (if query name == [] then q else insert name (query name) q)

abbrev pub log_params : List String
log_params = "source_id" ∷ "status" ∷ "from" ∷ "to" ∷ "before" ∷ "before_id" ∷ "limit" ∷ []

module _ (url : Str) (org_text : ℕ → Str) (ask : String → Values → Exchange) where
  unfoldable pub proxy : String → Values → Response
  proxy path q = elim (ask path q) [
    | unbuilt ↦ error 500 "failed to build data-plane query"
    | unreachable ↦ error 502 "data-plane query failed"
    | answered status body ↦ json status (proxied_body body)
  ]

  -- The caller's organization goes first; then the parameters.
  unfoldable pub query_values : List String → ℕ → (String → Str) → Values
  unfolding pass_on
  query_values names org query = pass_on names query (("org_id", org_text org) ∷ [])

  -- `List` and `Analytics`, which differ in the path and the parameters.
  unfoldable pub proxied_handler : String → List String → ℕ → Request → Database → Reply
  unfolding proxy query_values
  proxied_handler path names org r db = authorized org db (
    if url == []
        then error 503 "data plane not configured"
        else proxy path (query_values names org r.query),
    db,
  )
