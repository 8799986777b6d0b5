-- ===== src/ControlPlane/Calls/Isolation.antt =====
-- What a call of one organization does to another's rows.
use sheeld.Prelude.{
  ℕ, ◌≡◌, ◌≢◌, ◌∙◌, refl, inl, inr, not, ◌==◌, nat_eq, Str, List, [], ◌∷◌, Bool-cases, All, length,
  String, Option,
}
use sheeld.ControlPlane.{Source, Database, Result}
use sheeld.ControlPlane.Table.{
  source_rows, guardrail_rows, transformer_rows, alert_webhook_rows, api_key_rows,
}
use sheeld.ControlPlane.Queries.{create_source, update_source, get_guardrail, get_source}
use sheeld.ControlPlane.Queries.Chains.{
  delete_source_transformers, get_transformer, count_transformers_by_org_and_ids,
}
use sheeld.Prelude.Int.{ℤ}
use sheeld.ControlPlane.Queries.Accounts.{get_alert_webhook}
use sheeld.ControlPlane.Accounts.{
  AlertWebhookParams, validate_webhook, webhook_row, enabled_or, create_webhook_of,
  update_webhook_of, create_api_key_of,
}
use sheeld.ControlPlane.Services.{Environment}
use sheeld.ControlPlane.Guardrails.{
  create_guardrail_of, update_guardrail_of, guardrail_row, default_true, validate_config,
  with_stored_secrets, GuardrailParams,
}
use sheeld.ControlPlane.Sources.{
  create_source_of, update_source_of, write_source, source_row, validate_criteria, updated_key,
  validate_llm_base_url, SourceParams,
}
use sheeld.ControlPlane.Transformers.{
  create_transformer_of, update_transformer_of, set_source_transformers, transformer_row,
  validate_transformer, keeping_secrets, unique_uuids, TransformerParams,
}
use sheeld.ControlPlane.Calls.{
  Call, serve, serve_all, creates_source, updates_source, deletes_source, creates_guardrail,
  updates_guardrail, deletes_guardrail, attaches_guardrail, detaches_guardrail, creates_transformer,
  updates_transformer, deletes_transformer, attaches_transformer, detaches_transformer, sets_chain,
  creates_webhook, updates_webhook, deletes_webhook, creates_key, revokes_key,
}
use sheeld.ControlPlane.Calls.Writes.{
  view, Keeps, after-Keeps, create_source-Keeps, update_source-Keeps, delete_source-Keeps,
  create_guardrail-Keeps, update_guardrail-Keeps, delete_guardrail-Keeps, create_transformer-Keeps,
  update_transformer-Keeps, delete_transformer-Keeps, create_alert_webhook-Keeps,
  update_alert_webhook-Keeps, delete_alert_webhook-Keeps, create_api_key-Keeps,
  revoke_api_key-Keeps, attach_guardrail-Keeps, detach_guardrail-Keeps, attach_transformer-Keeps,
  detach_transformer-Keeps, insert_chain-Keeps, transaction-Keeps,
}

module _ (env : Environment) (B org : ℕ) (h : org ≢ B) (db : Database) where
  write_source-Keeps :
      (id : ℕ) (p : SourceParams) (write : Source → Database → Result Source) (key : Str)
      → ((new : Source) → new.org_id ≢ B → Keeps B db (write new db))
      → Keeps B db (write_source env id org p write db key)
  unfolding write_source
  write_source-Keeps id p write key w =
      after-Keeps B db (validate_criteria p.input_pass_criteria p.input_pass_threshold) _ (λ i.
        after-Keeps B db (validate_criteria p.output_pass_criteria p.output_pass_threshold) _
          (λ o. w (source_row env id org p key i o) h))

  create_source_of-Keeps :
      (id : ℕ) (p : SourceParams) → Keeps B db (create_source_of env id org p db)
  unfolding create_source_of
  create_source_of-Keeps id p = after-Keeps B db (validate_llm_base_url env p.llm_base_url) _ (λ u.
      after-Keeps B db (env.encrypt p.llm_api_key) _
        (λ key. write_source-Keeps id p create_source key (create_source-Keeps B db)))

  update_source_of-Keeps :
      (id : ℕ) (p : SourceParams) → Keeps B db (update_source_of env org id p db)
  unfolding update_source_of
  update_source_of-Keeps id p = after-Keeps B db (validate_llm_base_url env p.llm_base_url) _ (λ u.
      after-Keeps B db (updated_key env org id p.llm_api_key db) _
        (λ key. write_source-Keeps id p update_source key (update_source-Keeps B db)))

  create_guardrail_of-Keeps :
      (id : ℕ) (p : GuardrailParams) → Keeps B db (create_guardrail_of env id org p db)
  unfolding create_guardrail_of
  create_guardrail_of-Keeps id p =
      after-Keeps B db (validate_config env p.name p.guard_type p.config) _
        (λ c. create_guardrail-Keeps B db (guardrail_row env id org p c) h)

  update_guardrail_of-Keeps :
      (id : ℕ) (p : GuardrailParams) → Keeps B db (update_guardrail_of env org id p db)
  unfolding update_guardrail_of
  update_guardrail_of-Keeps id p =
      after-Keeps B db
        (validate_config env p.name p.guard_type
          (with_stored_secrets env (get_guardrail id org db) p.config))
        _ (λ c. update_guardrail-Keeps B db (guardrail_row env id org p c) h)

  create_transformer_of-Keeps :
      (id : ℕ) (p : TransformerParams) → Keeps B db (create_transformer_of env id org p db)
  unfolding create_transformer_of
  create_transformer_of-Keeps id p =
      after-Keeps B db (validate_transformer env p) _
        (λ v. create_transformer-Keeps B db (transformer_row env id org p v) h)

  update_transformer_of-Keeps :
      (id : ℕ) (p : TransformerParams) → Keeps B db (update_transformer_of env org id p db)
  unfolding update_transformer_of
  update_transformer_of-Keeps id p =
      let kept : TransformerParams = keeping_secrets env (get_transformer id org db) p in
      after-Keeps B db (validate_transformer env kept) _
        (λ v. update_transformer-Keeps B db (transformer_row env id org kept v) h)

  create_api_key_of-Keeps :
      (hex : Str) (id : ℕ) (name : String) (rps burst : Option ℤ)
      → Keeps B db (create_api_key_of env.digest hex id org name rps burst db)
  unfolding create_api_key_of
  create_api_key_of-Keeps hex id name rps burst = create_api_key-Keeps B db _ h

  create_webhook_of-Keeps :
      (id : ℕ) (p : AlertWebhookParams) → Keeps B db (create_webhook_of env id org p db)
  unfolding create_webhook_of
  create_webhook_of-Keeps id p =
      after-Keeps B db (validate_webhook env p) _ (λ f.
        create_alert_webhook-Keeps B db (webhook_row env id org p f (default_true p.enabled)) h)

  update_webhook_of-Keeps :
      (id : ℕ) (p : AlertWebhookParams) → Keeps B db (update_webhook_of env org id p db)
  unfolding update_webhook_of
  update_webhook_of-Keeps id p = after-Keeps B db (validate_webhook env p) _ (λ f.
      after-Keeps B db (get_alert_webhook id org db) _ (λ w.
        update_alert_webhook-Keeps B db
          (webhook_row env id org p f (enabled_or env w.enabled p.enabled)) h))

set_source_transformers-Keeps :
    (B org source : ℕ) (ids : List ℕ) (db : Database)
    → Keeps B db (set_source_transformers org source ids db)
unfolding set_source_transformers delete_source_transformers
set_source_transformers-Keeps B org source ids db =
    elim (Bool-cases (not (length (unique_uuids ids) == length ids))) [
      | inl e ↦ rw e refl
      | inr e ↦
          rw e
            (elim (Bool-cases (not (count_transformers_by_org_and_ids org ids db == length ids))) [
              | inl f ↦ rw f refl
              | inr f ↦ rw f (
                  after-Keeps B db (get_source source org db) _ (λ s.
                    transaction-Keeps B db _
                      (insert_chain-Keeps B source 0 ids (delete_source_transformers source db))))
            ])
    ]

-- A call of one organization, whatever it is and whether or not it succeeds, leaves every source,
-- guardrail, transformer, alert webhook and API key of another organization as it was, and adds none.
pub serve_isolated :
    (env : Environment) (org other : ℕ) (call : Call) (db : Database)
    → org ≢ other
    → view other (serve env org call db) ≡ view other db
unfolding serve
serve_isolated env org B (creates_source id p) db h = create_source_of-Keeps env B org h db id p
serve_isolated env org B (updates_source id p) db h = update_source_of-Keeps env B org h db id p
serve_isolated env org B (deletes_source id) db h = delete_source-Keeps B db id org h
serve_isolated env org B (creates_guardrail id p) db h =
    create_guardrail_of-Keeps env B org h db id p
serve_isolated env org B (updates_guardrail id p) db h =
    update_guardrail_of-Keeps env B org h db id p
serve_isolated env org B (deletes_guardrail id) db h = delete_guardrail-Keeps B db id org h
serve_isolated env org B (attaches_guardrail id s) db h = attach_guardrail-Keeps B db org id s
serve_isolated env org B (detaches_guardrail id s) db h = detach_guardrail-Keeps B db org id s
serve_isolated env org B (creates_transformer id p) db h =
    create_transformer_of-Keeps env B org h db id p
serve_isolated env org B (updates_transformer id p) db h =
    update_transformer_of-Keeps env B org h db id p
serve_isolated env org B (deletes_transformer id) db h = delete_transformer-Keeps B db id org h
serve_isolated env org B (attaches_transformer id s) db h = attach_transformer-Keeps B db org id s
serve_isolated env org B (detaches_transformer id s) db h = detach_transformer-Keeps B db org id s
serve_isolated env org B (sets_chain source ids) db h =
    set_source_transformers-Keeps B org source ids db
serve_isolated env org B (creates_webhook id p) db h = create_webhook_of-Keeps env B org h db id p
serve_isolated env org B (updates_webhook id p) db h = update_webhook_of-Keeps env B org h db id p
serve_isolated env org B (deletes_webhook id) db h = delete_alert_webhook-Keeps B db id org h
serve_isolated env org B (creates_key hex id name rps burst) db h =
    create_api_key_of-Keeps env B org h db hex id name rps burst
serve_isolated env org B (revokes_key id) db h = revoke_api_key-Keeps B db id org h

-- Nothing that the other organizations do, in any number of calls, changes an organization's rows.
serve_all_isolated :
    (env : Environment) (other : ℕ) (calls : List (ℕ × Call)) (db : Database)
    → All (λ (c : ℕ × Call). c.0 ≢ other) calls
    → view other (serve_all env calls db) ≡ view other db
unfolding serve_all
serve_all_isolated env other [] db h = refl
serve_all_isolated env other ((org, call) ∷ calls) db h =
    serve_all_isolated env other calls (serve env org call db) h.1
    ∙ serve_isolated env org other call db h.0
