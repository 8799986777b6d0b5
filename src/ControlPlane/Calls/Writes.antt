-- ===== src/ControlPlane/Calls/Writes.antt =====
-- The queries that write, and the methods that are little more: what they leave of the rows of other
-- organizations.
use sheeld.Prelude.{ℕ, suc, ◌≡◌, ◌≢◌, ◌∙◌, refl, nat_eq, List, [], ◌∷◌, arith, eq_iff, ap}
use sheeld.Prelude.Outcome.{Outcome, ok, err}
use sheeld.ControlPlane.{
  Source, Guardrail, Transformer, AlertWebhook, ApiKey, Link, Database, Result,
}
use sheeld.ControlPlane.Table.{
  source_rows, guardrail_rows, transformer_rows, alert_webhook_rows, api_key_rows, rows_of,
}
use sheeld.ControlPlane.Table.Isolation.{rows_of-insert, rows_of-replace, rows_of-delete}
use sheeld.ControlPlane.Queries.{
  create_source, update_source, delete_source, create_guardrail, update_guardrail, delete_guardrail,
  attach_guardrail_to_source, detach_guardrail_from_source, get_guardrail,
}
use sheeld.ControlPlane.Queries.Chains.{
  create_transformer, update_transformer, delete_transformer, attach_transformer_to_source,
  detach_transformer_from_source, insert_source_transformer, get_transformer,
}
use sheeld.ControlPlane.Queries.Accounts.{
  create_alert_webhook, update_alert_webhook, delete_alert_webhook, create_api_key, revoke_api_key,
  revoke_row,
}
use sheeld.ControlPlane.Services.{after}
use sheeld.ControlPlane.Guardrails.{attach_guardrail, detach_guardrail}
use sheeld.ControlPlane.Transformers.{
  attach_transformer, detach_transformer, insert_chain, transaction,
}

-- What the database holds of an organization, its attachments aside.
pub record View : Type 0 where
  pub sources : List Source
  pub guardrails : List Guardrail
  pub transformers : List Transformer
  pub alert_webhooks : List AlertWebhook
  pub api_keys : List ApiKey

abbrev pub view : ℕ → Database → View
view org db = record {
  sources = rows_of org db.sources;
  guardrails = rows_of org db.guardrails;
  transformers = rows_of org db.transformers;
  alert_webhooks = rows_of org db.alert_webhooks;
  api_keys = rows_of org db.api_keys;
}

module _ (B : ℕ) (db : Database) where
  -- The query or service leaves what organization `B` has.
  abbrev pub Keeps : {A : Type 0} → Result A → Type 0
  Keeps r = view B r.1 ≡ view B db

  pub after-Keeps {ℓ} :
      {C : Type ℓ} {A : Type 0} (m : Outcome C) (k : C → Result A)
      → ((c : C) → Keeps (k c))
      → Keeps (after m db k)
  after-Keeps (ok c) k h = h c
  after-Keeps (err e) k h = refl

  pub create_source-Keeps : (new : Source) → new.org_id ≢ B → Keeps (create_source new db)
  unfolding create_source
  create_source-Keeps new h = ground (arith, rows_of-insert B new db.sources h)

  pub update_source-Keeps : (new : Source) → new.org_id ≢ B → Keeps (update_source new db)
  unfolding update_source
  update_source-Keeps new h = ground (arith, rows_of-replace B new db.sources h)

  pub delete_source-Keeps : (id org : ℕ) → org ≢ B → Keeps (delete_source id org db)
  unfolding delete_source
  delete_source-Keeps id org h = ground (arith, rows_of-delete B id org db.sources h)

  pub insert_link-Keeps : (new : Link) → Keeps (insert_source_transformer new db)
  unfolding insert_source_transformer
  insert_link-Keeps new = ground arith

  pub create_guardrail-Keeps : (new : Guardrail) → new.org_id ≢ B → Keeps (create_guardrail new db)
  unfolding create_guardrail
  create_guardrail-Keeps new h = ground (arith, rows_of-insert B new db.guardrails h)

  pub update_guardrail-Keeps : (new : Guardrail) → new.org_id ≢ B → Keeps (update_guardrail new db)
  unfolding update_guardrail
  update_guardrail-Keeps new h = ground (arith, rows_of-replace B new db.guardrails h)

  pub delete_guardrail-Keeps : (id org : ℕ) → org ≢ B → Keeps (delete_guardrail id org db)
  unfolding delete_guardrail
  delete_guardrail-Keeps id org h = ground (arith, rows_of-delete B id org db.guardrails h)

  pub create_transformer-Keeps :
      (new : Transformer) → new.org_id ≢ B → Keeps (create_transformer new db)
  unfolding create_transformer
  create_transformer-Keeps new h = ground (arith, rows_of-insert B new db.transformers h)

  pub update_transformer-Keeps :
      (new : Transformer) → new.org_id ≢ B → Keeps (update_transformer new db)
  unfolding update_transformer
  update_transformer-Keeps new h = ground (arith, rows_of-replace B new db.transformers h)

  pub delete_transformer-Keeps : (id org : ℕ) → org ≢ B → Keeps (delete_transformer id org db)
  unfolding delete_transformer
  delete_transformer-Keeps id org h = ground (arith, rows_of-delete B id org db.transformers h)

  pub create_alert_webhook-Keeps :
      (new : AlertWebhook) → new.org_id ≢ B → Keeps (create_alert_webhook new db)
  unfolding create_alert_webhook
  create_alert_webhook-Keeps new h = ground (arith, rows_of-insert B new db.alert_webhooks h)

  pub update_alert_webhook-Keeps :
      (new : AlertWebhook) → new.org_id ≢ B → Keeps (update_alert_webhook new db)
  unfolding update_alert_webhook
  update_alert_webhook-Keeps new h = ground (arith, rows_of-replace B new db.alert_webhooks h)

  pub delete_alert_webhook-Keeps : (id org : ℕ) → org ≢ B → Keeps (delete_alert_webhook id org db)
  unfolding delete_alert_webhook
  delete_alert_webhook-Keeps id org h =
      ap (λ rows. record (view B db) { alert_webhooks = rows })
        (rows_of-delete B id org db.alert_webhooks h)

  pub create_api_key-Keeps : (new : ApiKey) → new.org_id ≢ B → Keeps (create_api_key new db)
  unfolding create_api_key
  create_api_key-Keeps new h = ground (arith, rows_of-insert B new db.api_keys h)

  rows_of-revoke :
      (id org : ℕ) (rows : List ApiKey)
      → org ≢ B
      → rows_of B (revoke_row id org rows) ≡ rows_of B rows
  rows_of-revoke id org [] h = refl
  rows_of-revoke id org (k ∷ rows) h =
      ground (arith, eq_iff k.org_id org, eq_iff k.org_id B, rows_of-revoke id org rows h)

  pub revoke_api_key-Keeps : (id org : ℕ) → org ≢ B → Keeps (revoke_api_key id org db)
  unfolding revoke_api_key
  revoke_api_key-Keeps id org h =
      ap (λ rows. record (view B db) { api_keys = rows }) (rows_of-revoke id org db.api_keys h)

  pub attach_guardrail-Keeps : (org id source : ℕ) → Keeps (attach_guardrail org id source db)
  unfolding attach_guardrail attach_guardrail_to_source
  attach_guardrail-Keeps org id source = after-Keeps (get_guardrail id org db) _ (λ g. ground arith)

  pub detach_guardrail-Keeps : (org id source : ℕ) → Keeps (detach_guardrail org id source db)
  unfolding detach_guardrail detach_guardrail_from_source
  detach_guardrail-Keeps org id source = after-Keeps (get_guardrail id org db) _ (λ g. refl)

  pub attach_transformer-Keeps : (org id source : ℕ) → Keeps (attach_transformer org id source db)
  unfolding attach_transformer attach_transformer_to_source
  attach_transformer-Keeps org id source =
      after-Keeps (get_transformer id org db) _ (λ t. ground arith)

  pub detach_transformer-Keeps : (org id source : ℕ) → Keeps (detach_transformer org id source db)
  unfolding detach_transformer detach_transformer_from_source
  detach_transformer-Keeps org id source = after-Keeps (get_transformer id org db) _ (λ t. refl)

pub insert_chain-Keeps :
    (B source i : ℕ) (ids : List ℕ) (db : Database) → Keeps B db (insert_chain source i ids db)
unfolding insert_chain
insert_chain-Keeps B source i [] db = refl
insert_chain-Keeps B source i (id ∷ ids) db =
    let new : Link = record { source_id = source; transformer_id = id; position = i } in
    let step : Result Unit = insert_source_transformer new db in
    after-Keeps B step.1 step.0 (λ u. insert_chain source (suc i) ids step.1)
      (λ u. insert_chain-Keeps B source (suc i) ids step.1)
    ∙ insert_link-Keeps B db new

pub transaction-Keeps :
    (B : ℕ) (db : Database) (r : Result Unit)
    → view B r.1 ≡ view B db
    → Keeps B db (transaction db r)
transaction-Keeps B db (ok u, db') h = h
transaction-Keeps B db (err e, db') h = refl
