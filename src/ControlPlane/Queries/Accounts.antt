-- ===== src/ControlPlane/Queries/Accounts.antt =====
-- internal/controlplane/db/generated: the queries on alert webhooks and on API keys.
use sheeld.Prelude.{
  ℕ, Bool, true, ◌==◌, nat_eq, string_eq, ◌&&◌, ◌||◌, not, if◌then◌else◌, String, List, [], ◌∷◌,
  none, some, find, exists,
}
use mathlib.Core.List.{reverse}
use sheeld.Prelude.Outcome.{Outcome, ok, err}
use sheeld.ControlPlane.{AlertWebhook, ApiKey, Database, Result}
use sheeld.ControlPlane.Table.{
  alert_webhook_rows, api_key_rows, matches, get_row, has_key, rows_of, insert_row, replace_row,
  delete_row,
}
use sheeld.ControlPlane.Queries.{one, no_rows, duplicate_key, missing_reference, has_org}

unfoldable pub create_alert_webhook : AlertWebhook → Database → Result AlertWebhook
create_alert_webhook new db =
    if not (has_org new.org_id db)
    then (err missing_reference, db)
    else if has_key new.id db.alert_webhooks
    then (err duplicate_key, db)
    else (ok new, record db { alert_webhooks = insert_row new db.alert_webhooks })

unfoldable pub get_alert_webhook : ℕ → ℕ → Database → Outcome AlertWebhook
get_alert_webhook id org db = one (get_row id org db.alert_webhooks)

-- ORDER BY created_at DESC
unfoldable pub list_alert_webhooks_by_organization : ℕ → Database → List AlertWebhook
list_alert_webhooks_by_organization org db = reverse (rows_of org db.alert_webhooks)

unfoldable pub update_alert_webhook : AlertWebhook → Database → Result AlertWebhook
update_alert_webhook new db = elim (get_row new.id new.org_id db.alert_webhooks) [
  | none ↦ (err no_rows, db)
  | some old ↦ (ok new, record db { alert_webhooks = replace_row new db.alert_webhooks })
]

unfoldable pub delete_alert_webhook : ℕ → ℕ → Database → Result Unit
delete_alert_webhook id org db =
    (ok tt, record db { alert_webhooks = delete_row id org db.alert_webhooks })

-- `key_hash` is UNIQUE.
unfoldable pub create_api_key : ApiKey → Database → Result ApiKey
create_api_key new db =
    if not (has_org new.org_id db)
    then (err missing_reference, db)
    else if has_key new.id db.api_keys || exists (λ k. k.key_hash == new.key_hash) db.api_keys
    then (err duplicate_key, db)
    else (ok new, record db { api_keys = insert_row new db.api_keys })

-- WHERE key_hash = $1 AND revoked_at IS NULL
abbrev pub is_active : String → ApiKey → Bool
is_active key_hash k = (k.key_hash == key_hash) && not k.revoked

unfoldable pub get_api_key_by_hash : String → Database → Outcome ApiKey
get_api_key_by_hash key_hash db = one (find (is_active key_hash) db.api_keys)

-- ORDER BY created_at DESC
unfoldable pub list_api_keys_by_organization : ℕ → Database → List ApiKey
list_api_keys_by_organization org db = reverse (rows_of org db.api_keys)

abbrev pub revoke_row : ℕ → ℕ → List ApiKey → List ApiKey
revoke_row id org [] = []
revoke_row id org (k ∷ keys) =
    (if matches id org k then record k { revoked = true } else k) ∷ revoke_row id org keys

unfoldable pub revoke_api_key : ℕ → ℕ → Database → Result Unit
revoke_api_key id org db = (ok tt, record db { api_keys = revoke_row id org db.api_keys })
