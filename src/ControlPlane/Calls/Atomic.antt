-- ===== src/ControlPlane/Calls/Atomic.antt =====
-- The services that write to the database: what one that returns an error leaves.
use sheeld.Prelude.{
  ℕ, ◌≡◌, refl, inl, inr, ◌==◌, nat_eq, not, Str, String, List, Option, arith, Bool-cases, length,
}
use sheeld.Prelude.Int.{ℤ}
use sheeld.Prelude.Outcome.{Outcome, ok, err}
use sheeld.ControlPlane.{Source, Database, Result}
use sheeld.ControlPlane.Queries.{
  create_source, update_source, delete_source, create_guardrail, update_guardrail, delete_guardrail,
  attach_guardrail_to_source, detach_guardrail_from_source, get_guardrail, get_source,
}
use sheeld.ControlPlane.Queries.Chains.{
  create_transformer, update_transformer, delete_transformer, attach_transformer_to_source,
  detach_transformer_from_source, insert_source_transformer, get_transformer,
  count_transformers_by_org_and_ids,
}
use sheeld.ControlPlane.Queries.Accounts.{
  create_alert_webhook, update_alert_webhook, delete_alert_webhook, get_alert_webhook,
  create_api_key, revoke_api_key,
}
use sheeld.ControlPlane.Services.{Environment, after}
use sheeld.ControlPlane.Guardrails.{
  GuardrailParams, create_guardrail_of, update_guardrail_of, attach_guardrail, detach_guardrail,
  validate_config, with_stored_secrets,
}
use sheeld.ControlPlane.Sources.{
  SourceParams, create_source_of, update_source_of, write_source, validate_criteria, updated_key,
  validate_llm_base_url,
}
use sheeld.ControlPlane.Transformers.{
  TransformerParams, create_transformer_of, update_transformer_of, attach_transformer,
  detach_transformer, set_source_transformers, transaction, validate_transformer, keeping_secrets,
  unique_uuids,
}
use sheeld.ControlPlane.Accounts.{
  AlertWebhookParams, create_webhook_of, update_webhook_of, create_api_key_of, validate_webhook,
}

-- An error leaves the database as it was.
abbrev pub Atomic : {A : Type 0} → Database → Result A → Type 0
Atomic db x = (e : String) → x.0 ≡ err e → x.1 ≡ db

pub after-Atomic {ℓ} :
    {C : Type ℓ} {A : Type 0} (db : Database) (m : Outcome C) (k : C → Result A)
    → ((c : C) → Atomic db (k c))
    → Atomic db (after m db k)
after-Atomic db (ok c) k h e p = h c e p
after-Atomic db (err m) k h e p = refl

-- A query that is run whatever the service found out.
succeeds-Atomic : {A : Type 0} (db db' : Database) (a : A) → Atomic {A = A} db (ok a, db')
succeeds-Atomic db db' a e p = absurd (cc p)

transaction-Atomic : (db : Database) (x : Result Unit) → Atomic db (transaction db x)
transaction-Atomic db (ok u, db') e p = absurd (cc p)
transaction-Atomic db (err m, db') e p = refl

module _ (env : Environment) (org id : ℕ) (db : Database) where
  created-Atomic : (new : Source) → Atomic db (create_source new db)
  unfolding create_source
  created-Atomic new e p = ground arith

  updated-Atomic : (new : Source) → Atomic db (update_source new db)
  unfolding update_source
  updated-Atomic new e p = ground arith

  written-Atomic :
      (p : SourceParams) (write : Source → Database → Result Source) (key : Str)
      → ((new : Source) → Atomic db (write new db))
      → Atomic db (write_source env id org p write db key)
  unfolding write_source
  written-Atomic p write key w =
      after-Atomic db (validate_criteria p.input_pass_criteria p.input_pass_threshold) _ (λ i.
        after-Atomic db (validate_criteria p.output_pass_criteria p.output_pass_threshold) _
          (λ o. w _))

  pub create_source_of-Atomic : (p : SourceParams) → Atomic db (create_source_of env id org p db)
  unfolding create_source_of
  create_source_of-Atomic p = after-Atomic db (validate_llm_base_url env p.llm_base_url) _ (λ u.
      after-Atomic db (env.encrypt p.llm_api_key) _
        (λ key. written-Atomic p create_source key created-Atomic))

  pub update_source_of-Atomic : (p : SourceParams) → Atomic db (update_source_of env org id p db)
  unfolding update_source_of
  update_source_of-Atomic p = after-Atomic db (validate_llm_base_url env p.llm_base_url) _ (λ u.
      after-Atomic db (updated_key env org id p.llm_api_key db) _
        (λ key. written-Atomic p update_source key updated-Atomic))

  pub delete_source-Atomic : Atomic db (delete_source id org db)
  unfolding delete_source
  delete_source-Atomic e p = ground arith

  pub create_guardrail_of-Atomic :
      (p : GuardrailParams) → Atomic db (create_guardrail_of env id org p db)
  unfolding create_guardrail_of create_guardrail
  create_guardrail_of-Atomic p =
      after-Atomic db (validate_config env p.name p.guard_type p.config) _ (λ c e q. ground arith)

  pub update_guardrail_of-Atomic :
      (p : GuardrailParams) → Atomic db (update_guardrail_of env org id p db)
  unfolding update_guardrail_of update_guardrail
  update_guardrail_of-Atomic p =
      after-Atomic db
        (validate_config env p.name p.guard_type
          (with_stored_secrets env (get_guardrail id org db) p.config))
        _ (λ c e q. ground arith)

  pub create_transformer_of-Atomic :
      (p : TransformerParams) → Atomic db (create_transformer_of env id org p db)
  unfolding create_transformer_of create_transformer
  create_transformer_of-Atomic p =
      after-Atomic db (validate_transformer env p) _ (λ v e q. ground arith)

  pub update_transformer_of-Atomic :
      (p : TransformerParams) → Atomic db (update_transformer_of env org id p db)
  unfolding update_transformer_of update_transformer
  update_transformer_of-Atomic p =
      after-Atomic db (validate_transformer env (keeping_secrets env (get_transformer id org db) p))
        _ (λ v e q. ground arith)

  pub create_webhook_of-Atomic :
      (p : AlertWebhookParams) → Atomic db (create_webhook_of env id org p db)
  unfolding create_webhook_of create_alert_webhook
  create_webhook_of-Atomic p = after-Atomic db (validate_webhook env p) _ (λ f e q. ground arith)

  pub update_webhook_of-Atomic :
      (p : AlertWebhookParams) → Atomic db (update_webhook_of env org id p db)
  unfolding update_webhook_of update_alert_webhook
  update_webhook_of-Atomic p =
      after-Atomic db (validate_webhook env p) _
        (λ f. after-Atomic db (get_alert_webhook id org db) _ (λ w e q. ground arith))

  pub create_api_key_of-Atomic :
      (hex : Str) (name : String) (rps burst : Option ℤ)
      → Atomic db (create_api_key_of env.digest hex id org name rps burst db)
  unfolding create_api_key_of create_api_key
  create_api_key_of-Atomic hex name rps burst e q = ground arith

module _ (org id : ℕ) (db : Database) where
  pub delete_guardrail-Atomic : Atomic db (delete_guardrail id org db)
  unfolding delete_guardrail
  delete_guardrail-Atomic e p = ground arith

  pub delete_transformer-Atomic : Atomic db (delete_transformer id org db)
  unfolding delete_transformer
  delete_transformer-Atomic e p = ground arith

  pub delete_alert_webhook-Atomic : Atomic db (delete_alert_webhook id org db)
  unfolding delete_alert_webhook
  delete_alert_webhook-Atomic = succeeds-Atomic db _ tt

  pub revoke_api_key-Atomic : Atomic db (revoke_api_key id org db)
  unfolding revoke_api_key
  revoke_api_key-Atomic = succeeds-Atomic db _ tt

  pub attach_guardrail-Atomic : (source : ℕ) → Atomic db (attach_guardrail org id source db)
  unfolding attach_guardrail attach_guardrail_to_source
  attach_guardrail-Atomic source =
      after-Atomic db (get_guardrail id org db) _ (λ g e q. ground arith)

  pub detach_guardrail-Atomic : (source : ℕ) → Atomic db (detach_guardrail org id source db)
  unfolding detach_guardrail detach_guardrail_from_source
  detach_guardrail-Atomic source =
      after-Atomic db (get_guardrail id org db) _ (λ g. succeeds-Atomic db _ tt)

  pub attach_transformer-Atomic : (source : ℕ) → Atomic db (attach_transformer org id source db)
  unfolding attach_transformer attach_transformer_to_source insert_source_transformer
  attach_transformer-Atomic source =
      after-Atomic db (get_transformer id org db) _ (λ t e q. ground arith)

  pub detach_transformer-Atomic : (source : ℕ) → Atomic db (detach_transformer org id source db)
  unfolding detach_transformer detach_transformer_from_source
  detach_transformer-Atomic source =
      after-Atomic db (get_transformer id org db) _ (λ t. succeeds-Atomic db _ tt)

  -- Here `id` is the source's.
  pub set_source_transformers-Atomic :
      (ids : List ℕ) → Atomic db (set_source_transformers org id ids db)
  unfolding set_source_transformers
  set_source_transformers-Atomic ids =
      elim (Bool-cases (not (length (unique_uuids ids) == length ids))) [
        | inl t ↦ rw t (λ e q. refl)
        | inr t ↦
            rw t
              (elim (Bool-cases
                (not (count_transformers_by_org_and_ids org ids db == length ids))) [
                  | inl f ↦ rw f (λ e q. refl)
                  | inr f ↦
                      rw f (after-Atomic db (get_source id org db) _ (λ s. transaction-Atomic db _))
                ])
      ]
