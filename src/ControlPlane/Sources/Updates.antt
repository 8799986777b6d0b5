-- ===== src/ControlPlane/Sources/Updates.antt =====
-- What an update of a source keeps.
use sheeld.Prelude.{
  ℕ, ◌≡◌, ◌≢◌, ap, ◌∙◌, sym, subst, refl, inl, inr, true, false, bytes_eq, eq_iff, Str, [], some,
  arith, Bool-cases, Option-cases,
}
use sheeld.Prelude.Outcome.{ok, err, ok-injective}
use sheeld.ControlPlane.{Source, Database, Result}
use sheeld.ControlPlane.Table.{source_rows, get_row, replace_row}
use sheeld.ControlPlane.Table.Isolation.{get_row-replace}
use sheeld.ControlPlane.Queries.{update_source, get_source, route_taken, duplicate_key}
use sheeld.ControlPlane.Services.{Environment, after-ok}
use sheeld.ControlPlane.Sources.{
  SourceParams, source_row, write_source, updated_key, update_source_of, validate_llm_base_url,
  validate_criteria,
}

module _ (row old : Source) (db : Database)
    (e : get_row row.id row.org_id db.sources ≡ some old) where
  abbrev replaced : Database
  replaced = record db { sources = replace_row row db.sources }

  update_source-free :
      route_taken row db.sources ≡ false → update_source row db ≡ (ok row, replaced)
  unfolding update_source
  update_source-free f = rw (e, f, update_source) refl

  update_source-taken :
      route_taken row db.sources ≡ true → update_source row db ≡ (err duplicate_key, db)
  unfolding update_source
  update_source-taken f = rw (e, f, update_source) refl

  replaced-found : get_source row.id row.org_id replaced ≡ ok row
  unfolding get_source
  replaced-found = rw (get_row-replace row old db.sources e) refl

get_source-row :
    (id org : ℕ) (old : Source) (db : Database)
    → get_source id org db ≡ ok old
    → get_row id org db.sources ≡ some old
unfolding get_source
get_source-row id org old db h = elim (Option-cases (get_row id org db.sources)) [
  | inl e ↦ absurd (cc (rw e at h))
  | inr (found, e) ↦ e ∙ ap some (ok-injective (rw e at h))
]

-- An update that succeeds returns the row that it was given, which is then the row that is read.
update_source-ok :
    (row old new : Source) (db db' : Database)
    → get_row row.id row.org_id db.sources ≡ some old
    → update_source row db ≡ (ok new, db')
    → (new ≡ row) × (get_source row.id row.org_id db' ≡ ok row)
update_source-ok row old new db db' e h = elim (Bool-cases (route_taken row db.sources)) [
  | inl f ↦
      absurd (cc (ap (λ (r : Result Source). r.0) (sym h ∙ update_source-taken row old db e f)))
  | inr f ↦
      let step = sym (update_source-free row old db e f) ∙ h in
      (
        sym (ok-injective (ap (λ (r : Result Source). r.0) step)),
        subst (λ d. get_source row.id row.org_id d ≡ ok row) (ap (λ (r : Result Source). r.1) step)
            (replaced-found row old db e),
      )
]

-- The row that a successful write stored has the key, and is found under its identifier.
written_row :
    (env : Environment) (org id : ℕ) (p : SourceParams) (old new : Source) (db db' : Database)
    (key : Str)
    → get_source id org db ≡ ok old
    → write_source env id org p update_source db key ≡ (ok new, db')
    → (new.llm_api_key_enc ≡ key) × (get_source id org db' ≡ ok new)
unfolding write_source source_row
written_row env org id p old new db db' key g h =
    let (i, hi, h1) =
      after-ok (validate_criteria p.input_pass_criteria p.input_pass_threshold) db db' _ new h in
    let (o, ho, h2) =
      after-ok (validate_criteria p.output_pass_criteria p.output_pass_threshold) db db' _ new h1 in
    let (same, found) =
      update_source-ok (source_row env id org p key i o) old new db db'
        (get_source-row id org old db g) h2 in
    (
      ap (λ (s : Source). s.llm_api_key_enc) same,
      subst (λ r. get_source id org db' ≡ ok r) (sym same) found,
    )

kept_key :
    (env : Environment) (org id : ℕ) (key : Str) (db : Database) (old : Source)
    → get_source id org db ≡ ok old
    → key ≡ []
    → updated_key env org id key db ≡ ok (old.llm_api_key_enc)
unfolding updated_key
kept_key env org id key db old g e = rw (e, g) refl

new_key :
    (env : Environment) (org id : ℕ) (key : Str) (db : Database)
    → key ≢ []
    → updated_key env org id key db ≡ env.encrypt key
unfolding updated_key
new_key env org id key db n = ground (arith, eq_iff key [])

-- The key that an update of a source stores is the one that was stored before when the request's key is
-- empty, and the encryption of the request's key otherwise. The row is found under its identifier and
-- organization, and is read back as the update returns it.
pub update_keeps_key :
    (env : Environment) (org id : ℕ) (p : SourceParams) (old new : Source) (db db' : Database)
    → get_source id org db ≡ ok old
    → update_source_of env org id p db ≡ (ok new, db')
    → (get_source id org db' ≡ ok new)
      × ((p.llm_api_key ≡ [] → new.llm_api_key_enc ≡ old.llm_api_key_enc)
          × (p.llm_api_key ≢ [] → env.encrypt p.llm_api_key ≡ ok (new.llm_api_key_enc)))
unfolding update_source_of
update_keeps_key env org id p old new db db' g h =
    let (u, hu, h1) = after-ok (validate_llm_base_url env p.llm_base_url) db db' _ new h in
    let (key, hk, h2) = after-ok (updated_key env org id p.llm_api_key db) db db' _ new h1 in
    let (stored, found) = written_row env org id p old new db db' key g h2 in
    (
      found,
      (
        λ e. stored ∙ ok-injective (sym hk ∙ kept_key env org id p.llm_api_key db old g e),
        λ n. sym (new_key env org id p.llm_api_key db n) ∙ hk ∙ ap ok (sym stored),
      ),
    )
