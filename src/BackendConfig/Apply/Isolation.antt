-- ===== src/BackendConfig/Apply/Isolation.antt =====
-- Where the entries of an applied snapshot come from: a tenant sees its own sources and keys only.
use mathlib.Core.List.{Memᴰ}
use sheeld.Prelude.{
  ℕ, ◌≡◌, ◌∙◌, sym, ap, refl, subst, ◌==◌, nat_eq, string_eq, eq_iff, Comparable, String, List, [],
  ◌∷◌, Option, none, some, lookup, insert, lookup-insert, Bool-cases, inl, inr,
}
use sheeld.Prelude.Outcome.{ok, >>=-eq-ok, ok-injective}
use sheeld.Domain.{
  ApiKeyConfig, SourceConfig, TransformerConfig, GuardrailConfig, OrgConfig, WorkspaceConfig,
}
use sheeld.Guard.{Guard}
use sheeld.Transform.{Transformer}
use sheeld.Registry.{Registry, create}
use sheeld.BackendConfig.{ResolvedSource, SourceKey, key_eq, AuthInfo, Snapshot}
use sheeld.BackendConfig.Apply.{
  add_guard, add_transformer, auth_info, add_keys, new_source, attach_guard, attach_guards,
  attach_transformer, attach_transformers, resolve_source, add_sources, add_org, add_orgs, build,
  index_guardrails, index_transformers,
}

some_inj {ℓ} : {A : Type ℓ} (a b : A) → some a ≡ some b → a ≡ b
some_inj a b h = cc

-- Every entry of a map has the property.
abbrev pub Entries {ℓ κ} :
    {K : Type ℓ} {V : Type κ} ⦃e : Comparable K⦄ → (K → V → Type 0) → List (K × V) → Type (ℓ ⊔ κ)
Entries {K = K} {V = V} Q m = (k : K) (v : V) → lookup k m ≡ some v → Q k v

pub Entries-insert {ℓ κ} :
    {K : Type ℓ} {V : Type κ} ⦃e : Comparable K⦄ (Q : K → V → Type 0) (k : K) (v : V)
    (m : List (K × V))
    → Q k v
    → Entries Q m
    → Entries Q (insert k v m)
Entries-insert Q k v m q h j w l = elim (Bool-cases (k == j)) [
  | inl e ↦
      let same_key : k ≡ j = (eq_iff k j).0 e in
      let same_value : v ≡ w = some_inj v w (rw (lookup-insert k j v m, e) at l) in
      subst (λ x. Q x w) same_key (subst (Q k) same_value q)
  | inr e ↦ h j w (rw (lookup-insert k j v m, e) at l)
]

-- A resolved source without its guards and transformers: what attaching those leaves alone.
abbrev pub settings : ResolvedSource → ResolvedSource
settings r = record r {
  input_guards = [];
  output_guards = [];
  input_transformers = [];
  output_transformers = [];
}

module _ (guards : Registry Guard) (transformers : Registry Transformer) where
  settings-attach_guard :
      (o : Option GuardrailConfig) (r r' : ResolvedSource)
      → attach_guard guards transformers o r ≡ ok r'
      → settings r' ≡ settings r
  unfolding attach_guard
  settings-attach_guard none r r' h = cc
  settings-attach_guard (some gc) r r' h =
      let (g, e, k) = >>=-eq-ok (create guards gc.guard_type gc.name gc.config) _ h in
      let q : add_guard gc.phase _ r ≡ r' = ok-injective k in ap settings (sym q)

  settings-attach_guards :
      (by_id : List (ℕ × GuardrailConfig)) (gids : List ℕ) (r r' : ResolvedSource)
      → attach_guards guards transformers by_id gids r ≡ ok r'
      → settings r' ≡ settings r
  unfolding attach_guards
  settings-attach_guards by_id [] r r' h = ap settings (sym (ok-injective h))
  settings-attach_guards by_id (gid ∷ gids) r r' h =
      let (q, e, k) = >>=-eq-ok (attach_guard guards transformers (lookup gid by_id) r) _ h in
      settings-attach_guards by_id gids q r' k ∙ settings-attach_guard (lookup gid by_id) r q e

  settings-attach_transformer :
      (o : Option TransformerConfig) (r r' : ResolvedSource)
      → attach_transformer guards transformers o r ≡ ok r'
      → settings r' ≡ settings r
  unfolding attach_transformer
  settings-attach_transformer none r r' h = cc
  settings-attach_transformer (some tc) r r' h =
      let (t, e, k) = >>=-eq-ok (create transformers tc.transformer_type tc.name tc.config) _ h in
      let q : add_transformer tc.phase _ r ≡ r' = ok-injective k in ap settings (sym q)

  settings-attach_transformers :
      (by_id : List (ℕ × TransformerConfig)) (tids : List ℕ) (r r' : ResolvedSource)
      → attach_transformers guards transformers by_id tids r ≡ ok r'
      → settings r' ≡ settings r
  unfolding attach_transformers
  settings-attach_transformers by_id [] r r' h = ap settings (sym (ok-injective h))
  settings-attach_transformers by_id (tid ∷ tids) r r' h =
      let (q, e, k) = >>=-eq-ok (attach_transformer guards transformers (lookup tid by_id) r) _ h in
      settings-attach_transformers by_id tids q r' k
      ∙ settings-attach_transformer (lookup tid by_id) r q e

  settings-resolve_source :
      (gs : List (ℕ × GuardrailConfig)) (ts : List (ℕ × TransformerConfig)) (org_id : ℕ)
      (src : SourceConfig) (r : ResolvedSource)
      → resolve_source guards transformers gs ts org_id src ≡ ok r
      → settings r ≡ new_source org_id src
  unfolding resolve_source
  settings-resolve_source gs ts org_id src r h =
      let (q, e, k) =
        >>=-eq-ok (attach_guards guards transformers gs src.guardrail_ids (new_source org_id src)) _
          h in
      settings-attach_transformers ts src.transformer_ids q r k
      ∙ settings-attach_guards gs src.guardrail_ids (new_source org_id src) q e

-- The entry is for a source of an organization of the configuration, with the settings of that source.
pub record ResolvedFor (orgs : List OrgConfig) (k : SourceKey) (r : ResolvedSource) : Type 0 where
  pub org : OrgConfig
  pub src : SourceConfig
  pub org_listed : Memᴰ org orgs
  pub src_listed : Memᴰ src org.sources
  pub key_org : k.org_id ≡ org.id
  pub key_route : k.route ≡ src.route
  pub same_settings : settings r ≡ new_source org.id src

-- The entry is for an API key of an organization of the configuration.
pub record KeyFor (orgs : List OrgConfig) (h : String) (info : AuthInfo) : Type 0 where
  pub org : OrgConfig
  pub key : ApiKeyConfig
  pub org_listed : Memᴰ org orgs
  pub key_listed : Memᴰ key org.api_keys
  pub same_hash : h ≡ key.key_hash
  pub same_info : info ≡ auth_info org.id key

module _ (guards : Registry Guard) (transformers : Registry Transformer) (orgs : List OrgConfig)
    (org : OrgConfig) (listed : Memᴰ org orgs) where
  add_sources-Entries :
      (gs : List (ℕ × GuardrailConfig)) (ts : List (ℕ × TransformerConfig))
      (m m' : List (SourceKey × ResolvedSource)) (srcs : List SourceConfig)
      → ((src : SourceConfig) → Memᴰ src srcs → Memᴰ src org.sources)
      → add_sources guards transformers gs ts org.id m srcs ≡ ok m'
      → Entries (ResolvedFor orgs) m
      → Entries (ResolvedFor orgs) m'
  unfolding add_sources
  add_sources-Entries gs ts m m' [] sub h q = subst (Entries (ResolvedFor orgs)) (ok-injective h) q
  add_sources-Entries gs ts m m' (src ∷ srcs) sub h q =
      let (r, e, k) = >>=-eq-ok (resolve_source guards transformers gs ts org.id src) _ h in
      let key : SourceKey = record { org_id = org.id; route = src.route } in
      add_sources-Entries gs ts (insert key r m) m' srcs (λ s i. sub s (Memᴰ.tail i)) k
        (Entries-insert (ResolvedFor orgs) key r m
          (record {
            org = org;
            src = src;
            org_listed = listed;
            src_listed = sub src (Memᴰ.head refl);
            key_org = refl;
            key_route = refl;
            same_settings = settings-resolve_source guards transformers gs ts org.id src r e;
          })
          q)

  add_keys-Entries :
      (m : List (String × AuthInfo)) (ks : List ApiKeyConfig)
      → ((k : ApiKeyConfig) → Memᴰ k ks → Memᴰ k org.api_keys)
      → Entries (KeyFor orgs) m
      → Entries (KeyFor orgs) (add_keys org.id m ks)
  unfolding add_keys
  add_keys-Entries m [] sub q = q
  add_keys-Entries m (k ∷ ks) sub q =
      add_keys-Entries (insert k.key_hash (auth_info org.id k) m) ks (λ s i. sub s (Memᴰ.tail i))
        (Entries-insert (KeyFor orgs) k.key_hash (auth_info org.id k) m
          (record {
            org = org;
            key = k;
            org_listed = listed;
            key_listed = sub k (Memᴰ.head refl);
            same_hash = refl;
            same_info = refl;
          })
          q)

-- All entries of a snapshot come from the organizations.
pub record ComesFrom (orgs : List OrgConfig) (snap : Snapshot) : Type 0 where
  pub sources : Entries (ResolvedFor orgs) snap.sources
  pub keys : Entries (KeyFor orgs) snap.api_keys

module _ (guards : Registry Guard) (transformers : Registry Transformer)
    (orgs : List OrgConfig) where
  add_org-ComesFrom :
      (snap snap' : Snapshot) (org : OrgConfig)
      → Memᴰ org orgs
      → add_org guards transformers snap org ≡ ok snap'
      → ComesFrom orgs snap
      → (ComesFrom orgs snap') × (snap'.version ≡ snap.version)
  unfolding add_org
  add_org-ComesFrom snap snap' org listed h c =
      let (m, e, k) =
        >>=-eq-ok
          (add_sources guards transformers (index_guardrails [] org.guardrails)
            (index_transformers [] org.transformers) org.id snap.sources org.sources)
          _ h in
      let same = ok-injective k in
      (
        subst (ComesFrom orgs) same (record {
          sources =
              add_sources-Entries guards transformers orgs org listed _ _ snap.sources m org.sources
                (λ s i. i) e c.sources;
          keys =
              add_keys-Entries guards transformers orgs org listed snap.api_keys org.api_keys
                (λ s i. i) c.keys;
        }),
        sym (ap (λ (z : Snapshot). z.version) same),
      )

  add_orgs-ComesFrom :
      (snap snap' : Snapshot) (rest : List OrgConfig)
      → ((org : OrgConfig) → Memᴰ org rest → Memᴰ org orgs)
      → add_orgs guards transformers snap rest ≡ ok snap'
      → ComesFrom orgs snap
      → (ComesFrom orgs snap') × (snap'.version ≡ snap.version)
  unfolding add_orgs
  add_orgs-ComesFrom snap snap' [] sub h c = (
    subst (ComesFrom orgs) (ok-injective h) c,
    sym (ap (λ (z : Snapshot). z.version) (ok-injective h)),
  )
  add_orgs-ComesFrom snap snap' (org ∷ rest) sub h c =
      let (s, e, k) = >>=-eq-ok (add_org guards transformers snap org) _ h in
      let (d, v) = add_org-ComesFrom snap s org (sub org (Memᴰ.head refl)) e c in
      let (d', v') = add_orgs-ComesFrom s snap' rest (λ o i. sub o (Memᴰ.tail i)) k d in
      (d', v' ∙ v)

  pub build-ComesFrom :
      (cfg : WorkspaceConfig) (snap : Snapshot)
      → ((org : OrgConfig) → Memᴰ org cfg.organizations → Memᴰ org orgs)
      → build guards transformers cfg ≡ ok snap
      → (ComesFrom orgs snap) × (snap.version ≡ cfg.version)
  unfolding build
  build-ComesFrom cfg snap sub h =
      add_orgs-ComesFrom _ snap cfg.organizations sub h
        (record { sources = λ k v e. cc; keys = λ k v e. cc })
