-- ===== src/ControlPlane/Builder/Ownership.antt =====
-- Every key and every source in the built configuration is a row of the organization that it stands
-- under.
use mathlib.Core.List.{Memᴰ}
use sheeld.Prelude.{
  ℕ, ◌≡◌, refl, sym, subst, inl, inr, Bool, true, false, not, ◌==◌, nat_eq, beq-eq, String, Str,
  List, [], ◌∷◌, some, arith, Bool-cases, Option-cases, All, All-append, All-map, All-Memᴰ,
  All-sort_by, filter-kept, lookup, insert, lookup-insert, filter,
}
use sheeld.Prelude.Outcome.{Outcome, ok, >>=-eq-ok, ok-injective}
use sheeld.Domain.{WorkspaceConfig, OrgConfig, ApiKeyConfig, SourceConfig}
use sheeld.ControlPlane.{Source, Guardrail, Transformer, AlertWebhook, ApiKey, Database}
use sheeld.ControlPlane.Builder.{
  Orgs, empty_org, add_empty, add_rows, add_sources, source_config, key_config, add_key,
  add_webhook, add_guardrail, add_transformer, gather, build_config, list_all_organization_ids,
  list_all_active_api_keys, list_all_sources, list_all_source_guardrails,
  list_all_source_transformers, attached_to, orgs_with_sources, orgs_with_guardrails,
}

-- `P` holds of every entry under its key.
abbrev OfEntries : (ℕ → OrgConfig → Type 0) → Orgs → Type 0
OfEntries P orgs = (id : ℕ) (o : OrgConfig) → lookup id orgs ≡ some o → P id o

module _ (P : ℕ → OrgConfig → Type 0) where
  OfEntries-insert :
      (k : ℕ) (v : OrgConfig) (orgs : Orgs)
      → P k v
      → OfEntries P orgs
      → OfEntries P (insert k v orgs)
  OfEntries-insert k v orgs p h id o e = elim (Bool-cases (k == id)) [
    | inl q ↦
        let found : some v ≡ some o = rw (lookup-insert k id v orgs, q) at e in
        let same : v ≡ o = cc found in subst (λ j. P j o) (beq-eq k id q) (subst (P k) same p)
    | inr q ↦ h id o (rw (lookup-insert k id v orgs, q) at e)
  ]

  OfEntries-add_empty :
      (ids : List ℕ) (orgs : Orgs)
      → ((id : ℕ) → P id (empty_org id))
      → OfEntries P orgs
      → OfEntries P (add_empty ids orgs)
  unfolding add_empty
  OfEntries-add_empty [] orgs p h = h
  OfEntries-add_empty (id ∷ ids) orgs p h =
      OfEntries-add_empty ids (insert id (empty_org id) orgs) p
        (OfEntries-insert id (empty_org id) orgs (p id) h)

  module _ {Row : Type 0} (owner : Row → ℕ) (add : Row → OrgConfig → OrgConfig) where
    -- Adding the row keeps `P` of its owner's entry.
    abbrev Adds : Row → Type 0
    Adds row = (o : OrgConfig) → P (owner row) o → P (owner row) (add row o)

    OfEntries-add_rows :
        (rows : List Row) (orgs : Orgs)
        → All Adds rows
        → OfEntries P orgs
        → OfEntries P (add_rows owner add rows orgs)
    unfolding add_rows
    OfEntries-add_rows [] orgs a h = h
    OfEntries-add_rows (row ∷ rows) orgs a h = elim (Option-cases (lookup (owner row) orgs)) [
      | inl e ↦ rw (e, add_rows) (OfEntries-add_rows rows orgs a.1 h)
      | inr (o, e) ↦
          rw (e, add_rows)
            (OfEntries-add_rows rows (insert (owner row) (add row o) orgs) a.1
              (OfEntries-insert (owner row) (add row o) orgs (a.0 o (h (owner row) o e)) h))
    ]

  gather-All :
      (ids : List ℕ) (orgs : Orgs)
      → OfEntries P orgs
      → All (λ (o : OrgConfig). (id : ℕ) × P id o) (gather ids orgs)
  unfolding gather
  gather-All [] orgs h = tt
  gather-All (id ∷ ids) orgs h = elim (Option-cases (lookup id orgs)) [
    | inl e ↦ rw (e, gather) (gather-All ids orgs h)
    | inr (o, e) ↦ rw (e, gather) ((id, h id o e), gather-All ids orgs h)
  ]

not-true : (b : Bool) → not b ≡ true → b ≡ false
not-true b h = ground arith

everywhere {ℓ κ} : {A : Type ℓ} {P : A → Type κ} (xs : List A) → ((x : A) → P x) → All P xs
everywhere [] f = tt
everywhere (x ∷ xs) f = (f x, everywhere xs f)

module _ (decrypt : Str → Outcome Str) (guardrails_of transformers_of : ℕ → List ℕ)
    (db : Database) where
  -- The key is that of a row of the organization that is not revoked.
  pub record KeyOf (id : ℕ) (k : ApiKeyConfig) : Type 0 where
    pub row : ApiKey
    pub listed : Memᴰ row db.api_keys
    pub active : row.revoked ≡ false
    pub owned : row.org_id ≡ id
    pub same : k ≡ key_config row

  -- The source is that of a row of the organization, with its key decrypted.
  pub record SourceOf (id : ℕ) (src : SourceConfig) : Type 0 where
    pub row : Source
    pub key : Str
    pub listed : Memᴰ row db.sources
    pub owned : row.org_id ≡ id
    pub decrypted : decrypt row.llm_api_key_enc ≡ ok key
    pub same : src ≡ source_config decrypt guardrails_of transformers_of row key

  abbrev pub IsOwned : ℕ → OrgConfig → Type 0
  IsOwned id o = (o.id ≡ id) × (All (KeyOf id) o.api_keys × All (SourceOf id) o.sources)

  abbrev Listed : Source → Type 0
  Listed s = Memᴰ s db.sources

  add_key-IsOwned :
      All (Adds IsOwned (λ (k : ApiKey). k.org_id) add_key) (list_all_active_api_keys db)
  unfolding list_all_active_api_keys
  add_key-IsOwned =
      All-sort_by _ (Adds IsOwned (λ (k : ApiKey). k.org_id) add_key)
        (filter (λ (k : ApiKey). not k.revoked) db.api_keys)
        (All-map _ (filter (λ (k : ApiKey). not k.revoked) db.api_keys)
          (λ row kept o p. (
            p.0,
            (
              All-append (KeyOf row.org_id) o.api_keys _ p.1.0 (
                record {
                  row = row;
                  listed = kept.0;
                  active = not-true row.revoked kept.1;
                  owned = refl;
                  same = refl;
                },
                tt,
              ),
              p.1.1,
            ),
          ))
          (filter-kept (λ (k : ApiKey). not k.revoked) db.api_keys))

  orgs_with_keys-IsOwned :
      (webhooks : List AlertWebhook) (keys : List ApiKey) (ids : List ℕ)
      → All (Adds IsOwned (λ (k : ApiKey). k.org_id) add_key) keys
      → OfEntries IsOwned (
          add_rows
            (λ (w : AlertWebhook). w.org_id)
            add_webhook
            webhooks
            (add_rows (λ (k : ApiKey). k.org_id) add_key keys (add_empty ids [])))
  orgs_with_keys-IsOwned webhooks keys ids a =
      OfEntries-add_rows IsOwned (λ (w : AlertWebhook). w.org_id) add_webhook webhooks _
        (everywhere webhooks (λ w o p. p))
        (OfEntries-add_rows IsOwned (λ (k : ApiKey). k.org_id) add_key keys _ a
          (OfEntries-add_empty IsOwned ids [] (λ id. (refl, (tt, tt))) (λ id o e. cc)))

  orgs_with_guardrails-IsOwned :
      (guardrails : List Guardrail) (transformers : List Transformer) (orgs : Orgs)
      → OfEntries IsOwned orgs
      → OfEntries IsOwned (
          add_rows
            (λ (t : Transformer). t.org_id)
            add_transformer
            transformers
            (add_rows (λ (g : Guardrail). g.org_id) add_guardrail guardrails orgs))
  orgs_with_guardrails-IsOwned guardrails transformers orgs h =
      OfEntries-add_rows IsOwned (λ (t : Transformer). t.org_id) add_transformer transformers _
        (everywhere transformers (λ t o p. p))
        (OfEntries-add_rows IsOwned (λ (g : Guardrail). g.org_id) add_guardrail guardrails orgs
          (everywhere guardrails (λ g o p. p)) h)

  OfEntries-add_sources :
      (sources : List Source) (orgs orgs' : Orgs)
      → All Listed sources
      → add_sources decrypt guardrails_of transformers_of sources orgs ≡ ok orgs'
      → OfEntries IsOwned orgs
      → OfEntries IsOwned orgs'
  unfolding add_sources
  OfEntries-add_sources [] orgs orgs' l e h = subst (OfEntries IsOwned) (ok-injective e) h
  OfEntries-add_sources (s ∷ sources) orgs orgs' l e h =
      elim (Option-cases (lookup s.org_id orgs)) [
        | inl f ↦ OfEntries-add_sources sources orgs orgs' l.1 (rw (f, add_sources) at e) h
        | inr (o, f) ↦
            let (key, d, rest) =
              >>=-eq-ok (decrypt s.llm_api_key_enc) _ (rw (f, add_sources) at e) in
            let p = h s.org_id o f in
            OfEntries-add_sources sources _ orgs' l.1 rest (
              OfEntries-insert IsOwned s.org_id _ orgs
                (
                  p.0,
                  (
                    p.1.0,
                    All-append (SourceOf s.org_id) o.sources _ p.1.1 (
                      record {
                        row = s;
                        key = key;
                        listed = l.0;
                        owned = refl;
                        decrypted = d;
                        same = refl;
                      },
                      tt,
                    ),
                  ),
                )
                h)
      ]

module _ (decrypt : Str → Outcome Str) (hash : List OrgConfig → String)
    (collates : String → String → Bool) (db : Database) where
  abbrev pub guardrails_by : ℕ → List ℕ
  guardrails_by s = attached_to s (list_all_source_guardrails db)

  abbrev pub transformers_by : ℕ → List ℕ
  transformers_by s = attached_to s (list_all_source_transformers db)

  -- The organization of a built configuration, against the rows of `db`.
  abbrev pub HasOwnRows : OrgConfig → Type 0
  HasOwnRows o = IsOwned decrypt guardrails_by transformers_by db o.id o

  sources_listed : All (λ s. Memᴰ s db.sources) (list_all_sources collates db)
  unfolding list_all_sources
  sources_listed = All-sort_by _ (λ s. Memᴰ s db.sources) db.sources (All-Memᴰ db.sources)

  -- In a configuration that is built, every API key that an organization is listed with is a row of
  -- that organization that is not revoked, and every source is a row of that organization, with all its
  -- settings, what is attached to it, and its key decrypted.
  pub build_config-owned :
      (cfg : WorkspaceConfig)
      → build_config decrypt hash collates db ≡ ok cfg
      → All HasOwnRows cfg.organizations
  unfolding build_config
  build_config-owned cfg e =
      let (orgs, built, f) = >>=-eq-ok (orgs_with_sources decrypt hash collates db) _ e in
      let ids : List ℕ = list_all_organization_ids db in
      let end : Orgs = orgs_with_guardrails decrypt hash collates db orgs in
      let owned : OfEntries (IsOwned decrypt guardrails_by transformers_by db) end =
        orgs_with_guardrails-IsOwned decrypt guardrails_by transformers_by db _ _ orgs (
          OfEntries-add_sources decrypt guardrails_by transformers_by db
            (list_all_sources collates db) _ orgs sources_listed built
            (orgs_with_keys-IsOwned decrypt guardrails_by transformers_by db _ _ ids
              (add_key-IsOwned decrypt guardrails_by transformers_by db))) in
      subst (λ (c : WorkspaceConfig). All HasOwnRows c.organizations) (ok-injective f)
        (All-map _ (gather ids end)
          (λ o p.
            subst (λ id. IsOwned decrypt guardrails_by transformers_by db id o) (sym p.1.0) p.1)
          (gather-All (IsOwned decrypt guardrails_by transformers_by db) ids end owned))
