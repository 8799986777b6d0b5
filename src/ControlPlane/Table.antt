-- ===== src/ControlPlane/Table.antt =====
-- Tables whose rows belong to organizations: the queries of db/queries that read or write them by
-- `id` and `organization_id`.
pub mod Isolation
use sheeld.Prelude.{
  ℕ, Bool, true, false, ◌==◌, nat_eq, ◌&&◌, if◌then◌else◌, List, [], ◌∷◌, ◌++◌, Option, none, some,
  filter, find, exists, map, not,
}
use sheeld.ControlPlane.{Source, Guardrail, Transformer, AlertWebhook, ApiKey}

pub record Owned {ℓ} (Row : Type ℓ) : Type ℓ where
  pub key : Row → ℕ
  pub owner : Row → ℕ

instance abbrev pub source_rows : Owned Source
source_rows = record { key = λ s. s.id; owner = λ s. s.org_id }

instance abbrev pub guardrail_rows : Owned Guardrail
guardrail_rows = record { key = λ g. g.id; owner = λ g. g.org_id }

instance abbrev pub transformer_rows : Owned Transformer
transformer_rows = record { key = λ t. t.id; owner = λ t. t.org_id }

instance abbrev pub alert_webhook_rows : Owned AlertWebhook
alert_webhook_rows = record { key = λ w. w.id; owner = λ w. w.org_id }

instance abbrev pub api_key_rows : Owned ApiKey
api_key_rows = record { key = λ k. k.id; owner = λ k. k.org_id }

module _ {ℓ} {Row : Type ℓ} ⦃o : Owned Row⦄ where
  -- WHERE id = $1 AND organization_id = $2
  abbrev pub matches : ℕ → ℕ → Row → Bool
  matches id org row = (o.key row == id) && (o.owner row == org)

  abbrev pub get_row : ℕ → ℕ → List Row → Option Row
  get_row id org rows = find (matches id org) rows

  abbrev pub has_key : ℕ → List Row → Bool
  has_key id rows = exists (λ row. o.key row == id) rows

  abbrev pub rows_of : ℕ → List Row → List Row
  rows_of org rows = filter (λ row. o.owner row == org) rows

  abbrev pub insert_row : Row → List Row → List Row
  insert_row new rows = rows ++ new ∷ []

  -- UPDATE … SET every other column, with the identifier and the organization of `new`.
  abbrev pub replace_row : Row → List Row → List Row
  replace_row new [] = []
  replace_row new (row ∷ rows) =
      (if matches (o.key new) (o.owner new) row then new else row) ∷ replace_row new rows

  abbrev pub delete_row : ℕ → ℕ → List Row → List Row
  delete_row id org rows = filter (λ row. not (matches id org row)) rows
