-- ===== src/ControlPlane/Queries/Chains.antt =====
-- internal/controlplane/db/generated/transformers.sql.go: the queries on transformers and on the
-- ordered chain of each source.
use sheeld.Prelude.{
  ℕ, suc, Bool, ◌==◌, nat_eq, string_eq, ◌&&◌, ◌||◌, not, leb, ltb, if◌then◌else◌, String, List, [],
  ◌∷◌, ◌++◌, none, some, filter, find, exists, length,
}
use sheeld.Prelude.Outcome.{Outcome, ok, err}
use sheeld.ControlPlane.{Source, Transformer, Link, Database, Result}
use sheeld.ControlPlane.Table.{
  source_rows, transformer_rows, get_row, has_key, rows_of, insert_row, replace_row, delete_row,
}
use sheeld.ControlPlane.Queries.{one, no_rows, duplicate_key, missing_reference, has_org}

-- CHECK (phase IN ('input', 'output'))
abbrev pub is_phase : String → Bool
is_phase phase = (phase == "input") || (phase == "output")

abbrev pub broken_check : String
broken_check = "new row violates check constraint"

unfoldable pub create_transformer : Transformer → Database → Result Transformer
create_transformer new db =
    if not (is_phase new.phase)
    then (err broken_check, db)
    else if not (has_org new.org_id db)
    then (err missing_reference, db)
    else if has_key new.id db.transformers
    then (err duplicate_key, db)
    else (ok new, record db { transformers = insert_row new db.transformers })

unfoldable pub get_transformer : ℕ → ℕ → Database → Outcome Transformer
get_transformer id org db = one (get_row id org db.transformers)

unfoldable pub list_transformers_by_org : ℕ → Database → List Transformer
list_transformers_by_org org db = rows_of org db.transformers

unfoldable pub update_transformer : Transformer → Database → Result Transformer
update_transformer new db = elim (get_row new.id new.org_id db.transformers) [
  | none ↦ (err no_rows, db)
  | some old ↦
      if not (is_phase new.phase)
      then (err broken_check, db)
      else (ok new, record db { transformers = replace_row new db.transformers })
]

unfoldable pub delete_transformer : ℕ → ℕ → Database → Result Unit
delete_transformer id org db = elim (get_row id org db.transformers) [
  | none ↦ (ok tt, db)
  | some old ↦ (
    ok tt,
    record db {
      transformers = delete_row id org db.transformers;
      source_transformers = filter (λ a. not (a.transformer_id == id)) db.source_transformers;
    },
  )
]

abbrev pub is_link : ℕ → ℕ → Link → Bool
is_link source transformer a = (a.source_id == source) && (a.transformer_id == transformer)

-- COALESCE(MAX(position) + 1, 0) over the rows of the source.
unfoldable pub next_position : ℕ → List Link → ℕ
next_position source [] = 0
next_position source (a ∷ links) =
    let rest = next_position source links in
    if (a.source_id == source) && leb rest a.position then suc a.position else rest

unfoldable pub insert_source_transformer : Link → Database → Result Unit
insert_source_transformer new db =
    if not (has_key new.source_id db.sources && has_key new.transformer_id db.transformers)
    then (err missing_reference, db)
    else if exists (is_link new.source_id new.transformer_id) db.source_transformers
    then (err duplicate_key, db)
    else (ok tt, record db { source_transformers = db.source_transformers ++ new ∷ [] })

-- ON CONFLICT DO NOTHING
unfoldable pub attach_transformer_to_source : ℕ → ℕ → Database → Result Unit
unfolding insert_source_transformer next_position
attach_transformer_to_source source transformer db =
    if exists (is_link source transformer) db.source_transformers
    then (ok tt, db)
    else insert_source_transformer
        (record {
          source_id = source;
          transformer_id = transformer;
          position = next_position source db.source_transformers;
        })
        db

unfoldable pub detach_transformer_from_source : ℕ → ℕ → Database → Result Unit
detach_transformer_from_source source transformer db = (
  ok tt,
  record db {
    source_transformers = filter (λ a. not (is_link source transformer a)) db.source_transformers;
  },
)

unfoldable pub delete_source_transformers : ℕ → Database → Database
delete_source_transformers source db = record db {
  source_transformers = filter (λ a. not (a.source_id == source)) db.source_transformers;
}

-- The order of a chain: by position, then by identifier.
abbrev pub stands_before : Link → Link → Bool
stands_before a b =
    ltb a.position b.position
    || ((a.position == b.position) && leb a.transformer_id b.transformer_id)

unfoldable pub insert_link : Link → List Link → List Link
insert_link a [] = a ∷ []
insert_link a (b ∷ links) =
    let rest = insert_link a links in if stands_before a b then a ∷ b ∷ links else b ∷ rest

unfoldable pub sort_links : List Link → List Link
unfolding insert_link
sort_links [] = []
sort_links (a ∷ links) = insert_link a (sort_links links)

-- The rows of `transformers` that the links name, in the links' order.
unfoldable pub join_transformers : List Link → List Transformer → List (Transformer × ℕ)
join_transformers [] rows = []
join_transformers (a ∷ links) rows =
    let rest = join_transformers links rows in
    elim (find (λ t. t.id == a.transformer_id) rows) [
      | none ↦ rest
      | some t ↦ (t, a.position) ∷ rest
    ]

unfoldable pub list_transformers_by_source : ℕ → Database → List (Transformer × ℕ)
unfolding sort_links join_transformers
list_transformers_by_source source db =
    join_transformers (sort_links (filter (λ a. a.source_id == source) db.source_transformers))
      db.transformers

-- WHERE organization_id = $1 AND id = ANY($2)
unfoldable pub count_transformers_by_org_and_ids : ℕ → List ℕ → Database → ℕ
count_transformers_by_org_and_ids org ids db =
    length (filter (λ t. (t.org_id == org) && exists (λ id. t.id == id) ids) db.transformers)

unfoldable pub list_sources_by_transformer : ℕ → Database → List Source
list_sources_by_transformer transformer db =
    filter (λ s. exists (is_link s.id transformer) db.source_transformers) db.sources
