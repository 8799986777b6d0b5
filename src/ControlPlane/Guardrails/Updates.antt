-- ===== src/ControlPlane/Guardrails/Updates.antt =====
-- A guardrail that a client loads and sends back as it was shown stays as it is stored.
use sheeld.Prelude.{
  ℕ, ◌≡◌, ◌≢◌, refl, ap, ◌∙◌, sym, subst, inl, inr, string_eq, eq_iff, none, some, arith,
  Option-cases,
}
use sheeld.Prelude.Outcome.{ok, ok-injective}
use sheeld.Json.{fields-of_fields}
use sheeld.Guard.{Guard}
use sheeld.Registry.{create}
use sheeld.ControlPlane.{Guardrail, Database, Result}
use sheeld.ControlPlane.Table.{guardrail_rows, get_row, replace_row}
use sheeld.ControlPlane.Table.Isolation.{get_row-key, get_row-replace}
use sheeld.ControlPlane.Queries.{get_guardrail, update_guardrail}
use sheeld.ControlPlane.Redaction.{
  Config, sanitize_config, preserve_redacted_secrets, marshal_config, unmarshal_config,
}
use sheeld.ControlPlane.Redaction.RoundTrip.{IsMap, preserve_sanitized}
use sheeld.ControlPlane.Services.{Environment}
use sheeld.ControlPlane.Guardrails.{
  GuardrailParams, GuardrailResponse, default_phase, validate_config, guardrail_row,
  with_stored_secrets, update_guardrail_of, to_guardrail_response, guardrail_defaults,
}

-- The update that sends a response back unchanged.
abbrev pub resubmitted : GuardrailResponse → GuardrailParams
resubmitted r = record {
  name = r.name;
  guard_type = r.guard_type;
  phase = r.phase;
  config = r.config;
  enabled = some (r.enabled);
}

-- A row as `Create` and `Update` leave it: its configuration is a marshalled map, its phase is not
-- empty, and the registry accepts it.
pub record IsStored (env : Environment) (g : Guardrail) : Type 0 where
  pub config : Config
  pub marshalled : g.config ≡ marshal_config config
  pub is_map : IsMap config
  pub has_phase : g.phase ≢ ""
  pub guard : Guard
  pub accepted : create env.guards g.guard_type g.name g.config ≡ ok guard

unmarshal-marshal : (c : Config) → unmarshal_config (marshal_config c) ≡ c
unfolding unmarshal_config marshal_config
unmarshal-marshal none = refl
unmarshal-marshal (some m) = ap some (fields-of_fields m)

module _ (env : Environment) (org id : ℕ) (g : Guardrail) (db : Database) (s : IsStored env g) where
  found_row : get_guardrail id org db ≡ ok g → get_row id org db.guardrails ≡ some g
  unfolding get_guardrail
  found_row h = elim (Option-cases (get_row id org db.guardrails)) [
    | inl e ↦ absurd (cc (rw e at h))
    | inr (row, e) ↦ e ∙ ap some (ok-injective (rw e at h))
  ]

  merged :
      get_guardrail id org db ≡ ok g
      → with_stored_secrets env
          (get_guardrail id org db)
          (sanitize_config env.to_lower (unmarshal_config g.config))
        ≡ s.config
  unfolding with_stored_secrets
  merged h = rw h (
      subst (λ c. preserve_redacted_secrets (sanitize_config env.to_lower c) c ≡ s.config)
        (sym (ap unmarshal_config s.marshalled ∙ unmarshal-marshal s.config))
        (preserve_sanitized env.to_lower s.config s.is_map))

  validated_config : validate_config env g.name g.guard_type s.config ≡ ok g.config
  unfolding validate_config
  validated_config = rw (sym s.marshalled, s.accepted) refl

  same_row :
      get_guardrail id org db ≡ ok g
      → guardrail_row env id org (resubmitted (to_guardrail_response env g)) g.config ≡ g
  unfolding guardrail_row guardrail_defaults to_guardrail_response
  same_row h =
      let (i, o) = get_row-key id org g db.guardrails (found_row h) in
      let phase : default_phase g.phase ≡ g.phase =
        ground (arith, eq_iff g.phase "", s.has_phase) in
      ap (λ p. record g { id = id; org_id = org; phase = p }) phase
      ∙ ap (λ j. record g { id = j; org_id = org }) (sym i)
      ∙ ap (λ j. record g { org_id = j }) (sym o)

  abbrev written : Database
  written = record db { guardrails = replace_row g db.guardrails }

  written_found :
      get_guardrail id org db ≡ ok g
      → (update_guardrail g db ≡ (ok g, written)) × (get_guardrail id org written ≡ ok g)
  unfolding update_guardrail get_guardrail
  written_found h =
      let (i, o) = get_row-key id org g db.guardrails (found_row h) in
      let e : get_row g.id g.org_id db.guardrails ≡ some g =
        subst (λ j. get_row j g.org_id db.guardrails ≡ some g) (sym i)
          (subst (λ j. get_row id j db.guardrails ≡ some g) (sym o) (found_row h)) in
      let after_it : get_row id org written.guardrails ≡ some g =
        subst (λ j. get_row j org written.guardrails ≡ some g) i
          (subst (λ j. get_row g.id j written.guardrails ≡ some g) o
            (get_row-replace g g db.guardrails e)) in
      (rw (e, update_guardrail) refl, rw after_it refl)

  -- Sending a stored guardrail back as a response showed it, secrets redacted, updates it to itself: the
  -- call succeeds, returns the stored row, and the row is then read as before, its secrets included.
  pub resubmitted_unchanged :
      get_guardrail id org db ≡ ok g
      → ((update_guardrail_of env org id (resubmitted (to_guardrail_response env g)) db).0 ≡ ok g)
        × (get_guardrail id org
              (update_guardrail_of env org id (resubmitted (to_guardrail_response env g)) db).1
            ≡ ok g)
  unfolding update_guardrail_of to_guardrail_response
  resubmitted_unchanged h =
      let opened : update_guardrail_of env org id (resubmitted (to_guardrail_response env g)) db
          ≡ (ok g, written) =
        rw (merged h, validated_config, same_row h) (written_found h).0 in
      (
        ap (λ (r : Result Guardrail). r.0) opened,
        subst (λ (r : Result Guardrail). get_guardrail id org r.1 ≡ ok g) (sym opened)
            (written_found h).1,
      )
