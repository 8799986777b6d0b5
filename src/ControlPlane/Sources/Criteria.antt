-- ===== src/ControlPlane/Sources/Criteria.antt =====
-- Which pass criteria a source may be stored with, and what its update keeps.
use sheeld.Prelude.{
  ℕ, ◌≡◌, ◌⊎◌, inl, inr, true, ◌||◌, string_eq, bytes_eq, eq_iff, String, Str, [], ◌∷◌, Option,
  arith, Bool-cases, Option-cases, All, All-append, not,
}
use sheeld.Prelude.Int.{ℤ}
use sheeld.Prelude.Outcome.{ok, Outcome-cases}
use sheeld.ControlPlane.{Source, Database, Result}
use sheeld.ControlPlane.Queries.{create_source, update_source, delete_source, has_org, route_taken}
use sheeld.ControlPlane.Table.{source_rows, has_key, get_row}
use sheeld.ControlPlane.Table.Isolation.{All-filter, All-replace}
use sheeld.ControlPlane.Services.{Environment, after-holds}
use sheeld.ControlPlane.Sources.{
  SourceParams, at_least_one, validate_criteria, source_row, write_source, updated_key,
  create_source_of, update_source_of, validate_llm_base_url,
}

-- "all", "any", or "n_of_m" with a threshold of at least one.
abbrev pub IsCriteria : String → Option ℤ → Type 0
IsCriteria criteria threshold =
    (criteria ≡ "all")
    ⊎ (criteria ≡ "any")
    ⊎ ((criteria ≡ "n_of_m") × (at_least_one threshold ≡ true))

pub validate_criteria-IsCriteria :
    (criteria : String) (threshold : Option ℤ) (c : String)
    → validate_criteria criteria threshold ≡ ok c
    → IsCriteria c threshold
unfolding validate_criteria
validate_criteria-IsCriteria criteria threshold c h =
    ground (arith, eq_iff criteria "all", eq_iff criteria "any", eq_iff criteria "n_of_m")

abbrev pub HasCriteria : Source → Type 0
HasCriteria s =
    IsCriteria s.input_pass_criteria s.input_pass_threshold
    × IsCriteria s.output_pass_criteria s.output_pass_threshold

-- A call of an organization leaves this of the sources' table.
abbrev pub AllCriteria : Database → Type 0
AllCriteria db = All HasCriteria db.sources

module _ (env : Environment) (db : Database) where
  -- `write` stores a source whose criteria are valid.
  write_source-AllCriteria :
      (id org : ℕ) (p : SourceParams) (write : Source → Database → Result Source) (key : Str)
      → AllCriteria db
      → ((new : Source) → HasCriteria new → AllCriteria (write new db).1)
      → AllCriteria (write_source env id org p write db key).1
  unfolding write_source source_row
  write_source-AllCriteria id org p write key h w =
      elim (Outcome-cases (validate_criteria p.input_pass_criteria p.input_pass_threshold)) [
        | inl (e, i) ↦ rw i h
        | inr (input, i) ↦
            rw i
              (elim (Outcome-cases
                (validate_criteria p.output_pass_criteria p.output_pass_threshold)) [
                  | inl (e, o) ↦ rw o h
                  | inr (output, o) ↦ rw o (
                      w _ (
                        validate_criteria-IsCriteria p.input_pass_criteria p.input_pass_threshold
                            input i,
                        validate_criteria-IsCriteria p.output_pass_criteria p.output_pass_threshold
                            output o,
                      ))
                ])
      ]

  insert-AllCriteria :
      (new : Source) → AllCriteria db → HasCriteria new → AllCriteria (create_source new db).1
  unfolding create_source
  insert-AllCriteria new h n = elim (Bool-cases (not (has_org new.org_id db))) [
    | inl e ↦ rw e h
    | inr e ↦ rw e (elim (Bool-cases (has_key new.id db.sources || route_taken new db.sources)) [
      | inl f ↦ rw f h
      | inr f ↦ rw f (All-append HasCriteria db.sources (new ∷ []) h (n, tt))
    ])
  ]

  replace-AllCriteria :
      (new : Source) → AllCriteria db → HasCriteria new → AllCriteria (update_source new db).1
  unfolding update_source
  replace-AllCriteria new h n = elim (Option-cases (get_row new.id new.org_id db.sources)) [
    | inl e ↦ rw (e, update_source) h
    | inr (old, e) ↦
        rw (e, update_source)
          (elim (Bool-cases (route_taken new db.sources)) [
            | inl f ↦ rw f h
            | inr f ↦ rw f (All-replace HasCriteria new db.sources n h)
          ])
  ]

  pub create_source_of-AllCriteria :
      (id org : ℕ) (p : SourceParams)
      → AllCriteria db
      → AllCriteria (create_source_of env id org p db).1
  unfolding create_source_of
  create_source_of-AllCriteria id org p h =
      after-holds AllCriteria db (validate_llm_base_url env p.llm_base_url) _ h (λ u.
        after-holds AllCriteria db (env.encrypt p.llm_api_key) _ h (λ key.
          write_source-AllCriteria id org p create_source key h
            (λ new n. insert-AllCriteria new h n)))

  pub update_source_of-AllCriteria :
      (org id : ℕ) (p : SourceParams)
      → AllCriteria db
      → AllCriteria (update_source_of env org id p db).1
  unfolding update_source_of
  update_source_of-AllCriteria org id p h =
      after-holds AllCriteria db (validate_llm_base_url env p.llm_base_url) _ h (λ u.
        after-holds AllCriteria db (updated_key env org id p.llm_api_key db) _ h (λ key.
          write_source-AllCriteria id org p update_source key h
            (λ new n. replace-AllCriteria new h n)))

  pub delete_source-AllCriteria :
      (id org : ℕ) → AllCriteria db → AllCriteria (delete_source id org db).1
  unfolding delete_source
  delete_source-AllCriteria id org h = elim (Option-cases (get_row id org db.sources)) [
    | inl e ↦ rw (e, delete_source) h
    | inr (old, e) ↦ rw (e, delete_source) (All-filter HasCriteria _ db.sources h)
  ]
