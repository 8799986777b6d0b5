-- ===== src/ControlPlane/Calls.antt =====
-- internal/controlplane/api/router.go: the calls of the services that write to the database, each
-- made for the organization that the request is authenticated for.
pub mod Writes
pub mod Atomic
pub mod Isolation
pub mod Criteria
use sheeld.Prelude.{ℕ, String, Str, List, [], ◌∷◌, Option}
use sheeld.Prelude.Int.{ℤ}
use sheeld.ControlPlane.{Database}
use sheeld.ControlPlane.Queries.{delete_source, delete_guardrail}
use sheeld.ControlPlane.Queries.Chains.{delete_transformer}
use sheeld.ControlPlane.Queries.Accounts.{delete_alert_webhook, revoke_api_key}
use sheeld.ControlPlane.Accounts.{
  AlertWebhookParams, create_webhook_of, update_webhook_of, create_api_key_of,
}
use sheeld.ControlPlane.Services.{Environment}
use sheeld.ControlPlane.Guardrails.{
  GuardrailParams, create_guardrail_of, update_guardrail_of, attach_guardrail, detach_guardrail,
}
use sheeld.ControlPlane.Sources.{SourceParams, create_source_of, update_source_of}
use sheeld.ControlPlane.Transformers.{
  TransformerParams, create_transformer_of, update_transformer_of, attach_transformer,
  detach_transformer, set_source_transformers,
}

-- The identifier that a create carries is the one that the database gives the new row.
pub data Call : Type 0 where
  creates_source : ℕ → SourceParams → Call
  updates_source : ℕ → SourceParams → Call
  deletes_source : ℕ → Call
  creates_guardrail : ℕ → GuardrailParams → Call
  updates_guardrail : ℕ → GuardrailParams → Call
  deletes_guardrail : ℕ → Call
  attaches_guardrail : ℕ → ℕ → Call
  detaches_guardrail : ℕ → ℕ → Call
  creates_transformer : ℕ → TransformerParams → Call
  updates_transformer : ℕ → TransformerParams → Call
  deletes_transformer : ℕ → Call
  attaches_transformer : ℕ → ℕ → Call
  detaches_transformer : ℕ → ℕ → Call
  sets_chain : ℕ → List ℕ → Call
  creates_webhook : ℕ → AlertWebhookParams → Call
  updates_webhook : ℕ → AlertWebhookParams → Call
  deletes_webhook : ℕ → Call
  creates_key : Str → ℕ → String → Option ℤ → Option ℤ → Call
  revokes_key : ℕ → Call

module _ (env : Environment) where
  -- The database after a call of the organization `org`.
  unfoldable pub serve : ℕ → Call → Database → Database
  serve org (creates_source id p) db = (create_source_of env id org p db).1
  serve org (updates_source id p) db = (update_source_of env org id p db).1
  serve org (deletes_source id) db = (delete_source id org db).1
  serve org (creates_guardrail id p) db = (create_guardrail_of env id org p db).1
  serve org (updates_guardrail id p) db = (update_guardrail_of env org id p db).1
  serve org (deletes_guardrail id) db = (delete_guardrail id org db).1
  serve org (attaches_guardrail id source) db = (attach_guardrail org id source db).1
  serve org (detaches_guardrail id source) db = (detach_guardrail org id source db).1
  serve org (creates_transformer id p) db = (create_transformer_of env id org p db).1
  serve org (updates_transformer id p) db = (update_transformer_of env org id p db).1
  serve org (deletes_transformer id) db = (delete_transformer id org db).1
  serve org (attaches_transformer id source) db = (attach_transformer org id source db).1
  serve org (detaches_transformer id source) db = (detach_transformer org id source db).1
  serve org (sets_chain source ids) db = (set_source_transformers org source ids db).1
  serve org (creates_webhook id p) db = (create_webhook_of env id org p db).1
  serve org (updates_webhook id p) db = (update_webhook_of env org id p db).1
  serve org (deletes_webhook id) db = (delete_alert_webhook id org db).1
  serve org (creates_key hex id name rps burst) db =
      (create_api_key_of env.digest hex id org name rps burst db).1
  serve org (revokes_key id) db = (revoke_api_key id org db).1

  -- Calls of several organizations, one after another.
  unfoldable pub serve_all : List (ℕ × Call) → Database → Database
  unfolding serve
  serve_all [] db = db
  serve_all ((org, call) ∷ calls) db = serve_all calls (serve org call db)
