-- ===== src/ControlPlane/Api/Handlers.antt =====
-- What a handler of internal/controlplane/api/handler does, from its parts: it leaves the database as it
-- was, or calls a service in the name of the caller's organization; and what it replies.
pub mod Sources
pub mod Guardrails
pub mod Transformers
pub mod Accounts
use sheeld.Prelude.{
  ℕ, suc, ◌≤◌, ◌<◌, ◌≡◌, ◌⊎◌, refl, inl, inr, true, false, ◌==◌, nat_eq, string_eq, bytes_eq, [],
  Bool, Bool-cases, String, Str, Option, none, some, arith,
}
use sheeld.Prelude.Outcome.{Outcome, ok, err}
use sheeld.ControlPlane.{Database, Result}
use sheeld.ControlPlane.Services.{Environment}
use sheeld.ControlPlane.Guardrails.{default_phase}
use sheeld.ControlPlane.Queries.{get_source, delete_source, get_guardrail, delete_guardrail}
use sheeld.ControlPlane.Queries.Chains.{get_transformer, delete_transformer}
use sheeld.ControlPlane.Queries.Accounts.{delete_alert_webhook, revoke_api_key}
use sheeld.ControlPlane.Guardrails.{
  create_guardrail_of, update_guardrail_of, test_guardrail, attach_guardrail, detach_guardrail,
  list_sources_of_guardrail, list_guardrails_of_source,
}
use sheeld.ControlPlane.Sources.{create_source_of, update_source_of}
use sheeld.ControlPlane.Transformers.{
  create_transformer_of, update_transformer_of, attach_transformer, detach_transformer,
  list_sources_of_transformer, list_transformers_of_source, set_source_transformers,
}
use sheeld.ControlPlane.Accounts.{create_webhook_of, update_webhook_of, create_api_key_of}
use sheeld.ControlPlane.Calls.{
  Call, serve, creates_source, updates_source, deletes_source, creates_guardrail, updates_guardrail,
  deletes_guardrail, attaches_guardrail, detaches_guardrail, creates_transformer,
  updates_transformer, deletes_transformer, attaches_transformer, detaches_transformer, sets_chain,
  creates_webhook, updates_webhook, deletes_webhook, creates_key, revokes_key,
}
use sheeld.ControlPlane.Calls.Atomic.{
  Atomic, create_source_of-Atomic, update_source_of-Atomic, delete_source-Atomic,
  create_guardrail_of-Atomic, update_guardrail_of-Atomic, delete_guardrail-Atomic,
  attach_guardrail-Atomic, detach_guardrail-Atomic, create_transformer_of-Atomic,
  update_transformer_of-Atomic, delete_transformer-Atomic, attach_transformer-Atomic,
  detach_transformer-Atomic, set_source_transformers-Atomic, create_webhook_of-Atomic,
  update_webhook_of-Atomic, delete_alert_webhook-Atomic, create_api_key_of-Atomic,
  revoke_api_key-Atomic,
}
use sheeld.ControlPlane.Api.{
  Server, Drawn, Request, Response, Reply, Payload, authorized, parsed, required, finished,
}
use sheeld.ControlPlane.Api.Shapes.{Shape, shape_of, error_shape, Documented}
use sheeld.ControlPlane.Api.Sources.{
  create_source_handler, get_source_handler, update_source_handler, delete_source_handler,
  list_sources_handler, list_connections_handler,
}
use sheeld.ControlPlane.Api.Guardrails.{
  create_guardrail_handler, get_guardrail_handler, test_guardrail_handler, update_guardrail_handler,
  delete_guardrail_handler, attach_guardrail_handler, detach_guardrail_handler,
  list_sources_of_guardrail_handler, list_guardrails_of_source_handler, list_guardrails_handler,
}
use sheeld.ControlPlane.Api.Transformers.{
  given_id, create_transformer_handler, get_transformer_handler, update_transformer_handler,
  delete_transformer_handler, attach_transformer_handler, list_sources_of_transformer_handler,
  detach_transformer_handler, list_transformers_of_source_handler, list_transformers_handler,
  set_source_transformers_handler,
}
use sheeld.ControlPlane.Api.Webhooks.{
  create_alert_handler, update_alert_handler, delete_alert_handler, list_alerts_handler,
}
use sheeld.ControlPlane.Api.Sessions.{
  create_api_key_handler, revoke_api_key_handler, list_api_keys_handler, not_positive,
}

-- The reply leaves the database as it was, or it is no error and the database is the one after a
-- call of the organization.
abbrev pub Performs : Environment → ℕ → Database → Reply → Type 0
Performs env org db reply =
    (reply.1 ≡ db) ⊎ ((call : Call) × ((reply.0.status < 400) × (reply.1 ≡ serve env org call db)))

-- The reply performs at most a call, and is of the status and the shape given unless it is an error.
pub record Acts (env : Environment) (org : ℕ) (db : Database) (success : ℕ) (shape : Shape)
    (reply : Reply) : Type 0 where
  pub performs : Performs env org db reply
  pub documented : Documented success shape reply.0

module _ {env : Environment} {org : ℕ} {db : Database} {success : ℕ} {shape : Shape} where
  pub turned_down-Acts :
      (response : Response)
      → 400 ≤ response.status
      → shape_of response.payload ≡ error_shape
      → Acts env org db success shape (response, db)
  turned_down-Acts response l e = record {
    performs = inl refl;
    documented = (λ k. absurd (omega arith), λ k. e);
  }

  pub authorized-Acts :
      (next : Reply)
      → Acts env org db success shape next
      → Acts env org db success shape (authorized org db next)
  authorized-Acts next h = elim (Bool-cases (org == 0)) [
    | inl e ↦ rw e (turned_down-Acts _ (omega arith) refl)
    | inr e ↦ rw e h
  ]

  pub parsed-Acts :
      {A : Type 0} (o : Option A) (message : String) (next : A → Reply)
      → ((a : A) → Acts env org db success shape (next a))
      → Acts env org db success shape (parsed o message db next)
  parsed-Acts none message next h = turned_down-Acts _ (omega arith) refl
  parsed-Acts (some a) message next h = h a

  pub required-Acts :
      (missing : Bool) (field message : String) (next : Reply)
      → Acts env org db success shape next
      → Acts env org db success shape (required missing field message db next)
  required-Acts true field message next h = turned_down-Acts _ (omega arith) refl
  required-Acts false field message next h = h

  pub shows-Acts :
      (payload : Payload)
      → success < 400
      → shape_of payload ≡ shape
      → Acts env org db success shape (record { status = success; payload = payload }, db)
  shows-Acts payload l e = record {
    performs = inl refl;
    documented = (λ k. (refl, e), λ k. absurd (omega arith));
  }

  pub reads-Acts :
      {A : Type 0} (o : Outcome A) (code : ℕ) (says : String → String) (shows : A → Payload)
      → success < 400
      → 400 ≤ code
      → ((a : A) → shape_of (shows a) ≡ shape)
      → Acts env org db success shape (finished (o, db) code says success shows)
  reads-Acts (ok a) code says shows l k w = shows-Acts (shows a) l (w a)
  reads-Acts (err e) code says shows l k w = turned_down-Acts _ k refl

  pub writes-Acts :
      {A : Type 0} (x : Result A) (code : ℕ) (says : String → String) (shows : A → Payload)
      (call : Call)
      → Atomic db x
      → x.1 ≡ serve env org call db
      → success < 400
      → 400 ≤ code
      → ((a : A) → shape_of (shows a) ≡ shape)
      → Acts env org db success shape (finished x code says success shows)
  writes-Acts (ok a, db') code says shows call h e l k w = record {
    performs = inr (call, (l, e));
    documented = (λ n. (refl, w a), λ n. absurd (omega arith));
  }
  writes-Acts (err m, db') code says shows call h e l k w = record {
    performs = inl (h m refl);
    documented = (λ n. absurd (omega arith), λ n. refl);
  }

-- Where the rest of a handler writes nothing, neither does the check of the organization.
pub authorized_unchanged :
    (org : ℕ) (db : Database) (next : Reply) → next.1 ≡ db → (authorized org db next).1 ≡ db
authorized_unchanged org db next h = elim (Bool-cases (org == 0)) [
  | inl e ↦ rw e refl
  | inr e ↦ rw e h
]

-- What holds of the database and after the rest of a handler holds after its early return.
module _ (P : Database → Type 0) (db : Database) (h : P db) where
  pub parsed-holds :
      {A : Type 0} (o : Option A) (message : String) (next : A → Reply)
      → ((a : A) → P (next a).1)
      → P (parsed o message db next).1
  parsed-holds none message next w = h
  parsed-holds (some a) message next w = w a

  pub required-holds :
      (missing : Bool) (field message : String) (next : Reply)
      → P next.1
      → P (required missing field message db next).1
  required-holds true field message next w = h
  required-holds false field message next w = w

pub finished-holds :
    {A : Type 0} (P : Database → Type 0) (x : Result A) (code success : ℕ) (says : String → String)
    (shows : A → Payload)
    → P x.1
    → P (finished x code says success shows).1
finished-holds P (ok a, db) code success says shows h = h
finished-holds P (err e, db) code success says shows h = h
