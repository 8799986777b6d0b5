-- ===== src/ControlPlane/Transformers.antt =====
-- internal/controlplane/service/transformer.go: `TransformerService`.
pub mod Chain
use sheeld.Prelude.{
  ℕ, zero, suc, Bool, true, false, not, ◌&&◌, ◌||◌, ◌==◌, nat_eq, string_eq, if◌then◌else◌, String,
  Str, List, [], ◌∷◌, ◌++◌, Option, none, some, exists, length, map,
}
use sheeld.Prelude.Outcome.{Outcome, ok, err, ◌>>=◌}
use sheeld.Json.{Json}
use sheeld.Registry.{create, has}
use sheeld.ControlPlane.{Source, Transformer, Link, Database, Result}
use sheeld.ControlPlane.Queries.{get_source}
use sheeld.ControlPlane.Queries.Chains.{
  create_transformer, get_transformer, update_transformer, delete_transformer,
  attach_transformer_to_source, detach_transformer_from_source, delete_source_transformers,
  insert_source_transformer, list_transformers_by_source, count_transformers_by_org_and_ids,
  list_sources_by_transformer,
}
use sheeld.ControlPlane.Redaction.{
  Config, preserve_redacted_secrets, marshal_config, unmarshal_config,
}
use sheeld.ControlPlane.Services.{Environment, after}
use sheeld.ControlPlane.Guardrails.{default_phase, default_true}

-- `CreateTransformerParams`, which is also `UpdateTransformerParams`.
pub record TransformerParams : Type 0 where
  pub name : String
  pub transformer_type : String
  pub phase : String
  pub config : Config
  pub enabled : Option Bool

-- What `validate` resolves: the phase, the flag and the configuration.
pub record Validated : Type 0 where
  pub phase : String
  pub enabled : Bool
  pub config : Json

abbrev pub or_empty : Config → Config
or_empty none = some []
or_empty (some m) = some m

abbrev pub unknown_transformer : String
unknown_transformer = "unknown transformer_type"

abbrev pub bad_phase : String
bad_phase = "phase must be \"input\" or \"output\""

module _ (env : Environment) where
  unfoldable pub validate_transformer : TransformerParams → Outcome Validated
  validate_transformer params =
      let phase = default_phase params.phase in
      let config = marshal_config (or_empty params.config) in
      if not (has env.transformers params.transformer_type)
      then err unknown_transformer
      else if not ((phase == "input") || (phase == "output"))
      then err bad_phase
      else create env.transformers params.transformer_type params.name config >>= λ t.
          ok (record { phase = phase; enabled = default_true params.enabled; config = config })

  unfoldable pub transformer_row : ℕ → ℕ → TransformerParams → Validated → Transformer
  transformer_row id org params v = record {
    id = id;
    org_id = org;
    name = params.name;
    transformer_type = params.transformer_type;
    phase = v.phase;
    config = v.config;
    enabled = v.enabled;
  }

  unfoldable pub create_transformer_of : ℕ → ℕ → TransformerParams → Database → Result Transformer
  unfolding validate_transformer transformer_row create_transformer
  create_transformer_of id org params db =
      after (validate_transformer params) db
        (λ v. create_transformer (transformer_row id org params v) db)

  unfoldable pub keeping_secrets : Outcome Transformer → TransformerParams → TransformerParams
  keeping_secrets (err e) params = params
  keeping_secrets (ok t) params = record params {
    config = preserve_redacted_secrets params.config (unmarshal_config t.config);
  }

  unfoldable pub update_transformer_of : ℕ → ℕ → TransformerParams → Database → Result Transformer
  unfolding keeping_secrets validate_transformer transformer_row update_transformer get_transformer
  update_transformer_of org id params db =
      let kept = keeping_secrets (get_transformer id org db) params in
      after (validate_transformer kept) db
        (λ v. update_transformer (transformer_row id org kept v) db)

-- It checks that the transformer is the organization's; nothing is asked of the source.
unfoldable pub attach_transformer : ℕ → ℕ → ℕ → Database → Result Unit
attach_transformer org id source db =
    after (get_transformer id org db) db (λ t. attach_transformer_to_source source id db)

unfoldable pub detach_transformer : ℕ → ℕ → ℕ → Database → Result Unit
detach_transformer org id source db =
    after (get_transformer id org db) db (λ t. detach_transformer_from_source source id db)

unfoldable pub list_sources_of_transformer : ℕ → ℕ → Database → Outcome (List Source)
list_sources_of_transformer org id db =
    get_transformer id org db >>= λ t. ok (list_sources_by_transformer id db)

unfoldable pub list_transformers_of_source : ℕ → ℕ → Database → Outcome (List (Transformer × ℕ))
list_transformers_of_source org source db =
    get_source source org db >>= λ s. ok (list_transformers_by_source source db)

-- The loop of `uniqueUUIDs`: `seen` is what `out` holds.
unfoldable pub unique_from : List ℕ → List ℕ → List ℕ
unique_from seen [] = []
unique_from seen (id ∷ ids) =
    let fresh = unique_from (id ∷ seen) ids in
    let again = unique_from seen ids in if exists (λ s. s == id) seen then again else id ∷ fresh

unfoldable pub unique_uuids : List ℕ → List ℕ
unfolding unique_from
unique_uuids ids = unique_from [] ids

-- The loop that inserts the chain, from position `i` on.
unfoldable pub insert_chain : ℕ → ℕ → List ℕ → Database → Result Unit
unfolding insert_source_transformer
insert_chain source i [] db = (ok tt, db)
insert_chain source i (id ∷ ids) db =
    let (o, db') =
      insert_source_transformer (record { source_id = source; transformer_id = id; position = i })
        db in
    after o db' (λ u. insert_chain source (suc i) ids db')

-- The deferred rollback: a transaction that errs leaves the database as it was.
abbrev pub transaction : Database → Result Unit → Result Unit
transaction db (ok u, db') = (ok u, db')
transaction db (err e, db') = (err e, db)

abbrev pub duplicate_ids : String
duplicate_ids = "duplicate transformer ids"

abbrev pub foreign_ids : String
foreign_ids = "one or more transformer ids not found in organization"

unfoldable pub set_source_transformers : ℕ → ℕ → List ℕ → Database → Result Unit
unfolding unique_uuids insert_chain delete_source_transformers count_transformers_by_org_and_ids
set_source_transformers org source ids db =
    if not (length (unique_uuids ids) == length ids)
    then (err duplicate_ids, db)
    else if not (count_transformers_by_org_and_ids org ids db == length ids)
    then (err foreign_ids, db)
    else after (get_source source org db) db
        (λ s. transaction db (insert_chain source 0 ids (delete_source_transformers source db)))
