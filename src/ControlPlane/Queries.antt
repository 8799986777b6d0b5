-- ===== src/ControlPlane/Queries.antt =====
-- internal/controlplane/db/generated: the queries on sources, guardrails and their attachments, with
-- the constraints that the migrations give the tables. The identifier of a new row is the one that
-- `gen_random_uuid` gives, in the row that is inserted. The queries on transformers are in Chains.
pub mod Chains
pub mod Accounts
pub mod Users
use sheeld.Prelude.{
  ℕ, Bool, true, false, ◌==◌, nat_eq, string_eq, ◌&&◌, ◌||◌, not, if◌then◌else◌, String, List, [],
  ◌∷◌, ◌++◌, Option, none, some, filter, find, exists,
}
use mathlib.Core.List.{reverse}
use sheeld.Prelude.Outcome.{Outcome, ok, err}
use sheeld.ControlPlane.{Source, Guardrail, Transformer, Link, Database, Result}
use sheeld.ControlPlane.Table.{
  Owned, source_rows, guardrail_rows, transformer_rows, matches, get_row, has_key, rows_of,
  insert_row, replace_row, delete_row,
}

abbrev pub no_rows : String
no_rows = "no rows in result set"

abbrev pub duplicate_key : String
duplicate_key = "duplicate key value violates unique constraint"

abbrev pub missing_reference : String
missing_reference = "insert or update violates foreign key constraint"

-- What a `:one` query returns.
abbrev pub one {ℓ} : {Row : Type ℓ} → Option Row → Outcome Row
one none = err no_rows
one (some row) = ok row

-- REFERENCES organizations(id)
abbrev pub has_org : ℕ → Database → Bool
has_org org db = exists (λ o. o.id == org) db.organizations

-- UNIQUE(organization_id, route): another row of the organization has the route.
abbrev pub route_taken : Source → List Source → Bool
route_taken new rows =
    exists (λ s. (s.org_id == new.org_id) && ((s.route == new.route) && not (s.id == new.id))) rows

unfoldable pub create_source : Source → Database → Result Source
create_source new db =
    if not (has_org new.org_id db)
    then (err missing_reference, db)
    else if has_key new.id db.sources || route_taken new db.sources
    then (err duplicate_key, db)
    else (ok new, record db { sources = insert_row new db.sources })

unfoldable pub get_source : ℕ → ℕ → Database → Outcome Source
get_source id org db = one (get_row id org db.sources)

unfoldable pub get_source_by_route : String → ℕ → Database → Outcome Source
get_source_by_route route org db =
    one (find (λ s. (s.route == route) && (s.org_id == org)) db.sources)

-- ORDER BY created_at DESC
unfoldable pub list_sources_by_organization : ℕ → Database → List Source
list_sources_by_organization org db = reverse (rows_of org db.sources)

-- The row after the update, where there is one.
unfoldable pub update_source : Source → Database → Result Source
update_source new db = elim (get_row new.id new.org_id db.sources) [
  | none ↦ (err no_rows, db)
  | some old ↦
      if route_taken new db.sources
      then (err duplicate_key, db)
      else (ok new, record db { sources = replace_row new db.sources })
]

-- ON DELETE CASCADE: the attachments of a deleted source go with it.
unfoldable pub delete_source : ℕ → ℕ → Database → Result Unit
delete_source id org db = elim (get_row id org db.sources) [
  | none ↦ (ok tt, db)
  | some old ↦ (
    ok tt,
    record db {
      sources = delete_row id org db.sources;
      source_guardrails = filter (λ a. not (a.0 == id)) db.source_guardrails;
      source_transformers = filter (λ a. not (a.source_id == id)) db.source_transformers;
    },
  )
]

unfoldable pub create_guardrail : Guardrail → Database → Result Guardrail
create_guardrail new db =
    if not (has_org new.org_id db)
    then (err missing_reference, db)
    else if has_key new.id db.guardrails
    then (err duplicate_key, db)
    else (ok new, record db { guardrails = insert_row new db.guardrails })

unfoldable pub get_guardrail : ℕ → ℕ → Database → Outcome Guardrail
get_guardrail id org db = one (get_row id org db.guardrails)

-- ORDER BY created_at ASC
unfoldable pub list_guardrails_by_org : ℕ → Database → List Guardrail
list_guardrails_by_org org db = rows_of org db.guardrails

abbrev pub is_attached : ℕ → ℕ → List (ℕ × ℕ) → Bool
is_attached source guardrail pairs = exists (λ a. (a.0 == source) && (a.1 == guardrail)) pairs

unfoldable pub list_guardrails_by_source : ℕ → Database → List Guardrail
list_guardrails_by_source source db =
    filter (λ g. is_attached source g.id db.source_guardrails) db.guardrails

unfoldable pub list_enabled_guardrails_by_source : ℕ → Database → List Guardrail
list_enabled_guardrails_by_source source db =
    filter (λ g. is_attached source g.id db.source_guardrails && g.enabled) db.guardrails

unfoldable pub update_guardrail : Guardrail → Database → Result Guardrail
update_guardrail new db = elim (get_row new.id new.org_id db.guardrails) [
  | none ↦ (err no_rows, db)
  | some old ↦ (ok new, record db { guardrails = replace_row new db.guardrails })
]

unfoldable pub delete_guardrail : ℕ → ℕ → Database → Result Unit
delete_guardrail id org db = elim (get_row id org db.guardrails) [
  | none ↦ (ok tt, db)
  | some old ↦ (
    ok tt,
    record db {
      guardrails = delete_row id org db.guardrails;
      source_guardrails = filter (λ a. not (a.1 == id)) db.source_guardrails;
    },
  )
]

-- ON CONFLICT DO NOTHING; both identifiers have to exist.
unfoldable pub attach_guardrail_to_source : ℕ → ℕ → Database → Result Unit
attach_guardrail_to_source source guardrail db =
    if not (has_key source db.sources && has_key guardrail db.guardrails)
    then (err missing_reference, db)
    else if is_attached source guardrail db.source_guardrails
    then (ok tt, db)
    else (ok tt, record db { source_guardrails = db.source_guardrails ++ (source, guardrail) ∷ [] })

unfoldable pub detach_guardrail_from_source : ℕ → ℕ → Database → Result Unit
detach_guardrail_from_source source guardrail db = (
  ok tt,
  record db {
    source_guardrails =
        filter (λ a. not ((a.0 == source) && (a.1 == guardrail))) db.source_guardrails;
  },
)

unfoldable pub list_sources_by_guardrail : ℕ → Database → List Source
list_sources_by_guardrail guardrail db =
    filter (λ s. is_attached s.id guardrail db.source_guardrails) db.sources
