-- ===== src/BackendConfig/Apply/Atomic.antt =====
-- `Apply` swaps the whole snapshot or nothing, and every lookup is answered from one applied
-- configuration.
use mathlib.Core.List.{Memᴰ}
use sheeld.Prelude.{
  ℕ, ◌≡◌, ◌∙◌, sym, ap, refl, subst, ◌⊎◌, inl, inr, true, String, Str, List, [], ◌∷◌, none, some,
  Option-cases,
}
use sheeld.Prelude.Outcome.{Outcome, ok, err}
use sheeld.Domain.{WorkspaceConfig}
use sheeld.Guard.{Guard}
use sheeld.Transform.{Transformer}
use sheeld.Registry.{Registry}
use sheeld.BackendConfig.{
  ResolvedSource, key_eq, AuthInfo, Snapshot, Store, new_store, loaded, version, lookup_source,
  lookup_api_key,
}
use sheeld.BackendConfig.Apply.{build, apply, new_source, auth_info}
use sheeld.BackendConfig.Apply.Isolation.{ResolvedFor, KeyFor, ComesFrom, build-ComesFrom}

module _ (guards : Registry Guard) (transformers : Registry Transformer) where
  Outcome-cases {ℓ} :
      {A : Type ℓ} (o : Outcome A) → ((a : A) × (o ≡ ok a)) ⊎ ((e : String) × (o ≡ err e))
  Outcome-cases (ok a) = inl (a, refl)
  Outcome-cases (err e) = inr (e, refl)

  -- `Apply` either succeeds, and the store is loaded with the configuration's version, or reports an
  -- error and leaves the store exactly as it was.
  pub apply_atomic :
      (cfg : WorkspaceConfig) (s : Store)
      → (((apply guards transformers cfg s).0 ≡ none)
          × (loaded (apply guards transformers cfg s).1 ≡ true)
          × (version (apply guards transformers cfg s).1 ≡ cfg.version))
        ⊎ ((e : String) × ((apply guards transformers cfg s).0 ≡ some e)
            × ((apply guards transformers cfg s).1 ≡ s))
  unfolding apply loaded version
  apply_atomic cfg s = elim (Outcome-cases (build guards transformers cfg)) [
    | inl (snap, h) ↦ inl (
        rw (h, apply)
          (
            refl,
            refl,
            (build-ComesFrom guards transformers cfg.organizations cfg snap (λ o i. i) h).1,
          ))
    | inr (e, h) ↦ inr (e, rw (h, apply), rw (h, apply))
  ]

  -- The store after a history of configurations, failed ones included, the last one applied last.
  abbrev pub serving : List WorkspaceConfig → Store
  serving [] = new_store
  serving (cfg ∷ earlier) = (apply guards transformers cfg (serving earlier)).1

  abbrev From : List WorkspaceConfig → Snapshot → Type 0
  From cfgs snap = (cfg : WorkspaceConfig) × Memᴰ cfg cfgs × ComesFrom cfg.organizations snap

  serving-From :
      (cfgs : List WorkspaceConfig) (snap : Snapshot)
      → (serving cfgs).current ≡ some snap
      → From cfgs snap
  unfolding apply
  serving-From [] snap h = cc
  serving-From (cfg ∷ earlier) snap h = elim (Outcome-cases (build guards transformers cfg)) [
    | inl (snap', e) ↦
        let same : snap' ≡ snap = cc (rw (e, apply, serving) at h) in
        (
          cfg,
          Memᴰ.head refl,
          subst (ComesFrom cfg.organizations) same
              (build-ComesFrom guards transformers cfg.organizations cfg snap' (λ o i. i) e).0,
        )
    | inr (m, e) ↦
        let (c, i, f) = serving-From earlier snap (rw (e, apply, serving) at h) in
        (c, Memᴰ.tail i, f)
  ]

  Current-cases : (s : Store) → (s.current ≡ none) ⊎ ((snap : Snapshot) × (s.current ≡ some snap))
  Current-cases s = Option-cases s.current

  pub lookup_source_isolated :
      (cfgs : List WorkspaceConfig) (org_id : ℕ) (route : String) (r : ResolvedSource)
      → lookup_source (serving cfgs) org_id route ≡ some r
      → (r.org_id ≡ org_id)
        × (r.route ≡ route)
        × ((cfg : WorkspaceConfig) × Memᴰ cfg cfgs
            × ResolvedFor cfg.organizations (record { org_id = org_id; route = route }) r)
  unfolding lookup_source new_source
  lookup_source_isolated cfgs org_id route r h = elim (Current-cases (serving cfgs)) [
    | inl e ↦ absurd (cc (rw (e, lookup_source) at h))
    | inr (snap, e) ↦
        let (cfg, i, f) = serving-From cfgs snap e in
        let q =
          f.sources (record { org_id = org_id; route = route }) r (rw (e, lookup_source) at h) in
        (
          ap (λ (z : ResolvedSource). z.org_id) q.same_settings ∙ sym q.key_org,
          ap (λ (z : ResolvedSource). z.route) q.same_settings ∙ sym q.key_route,
          (cfg, i, q),
        )
  ]

  -- A key that authenticates is listed, by the hash of what was presented, in one of the applied
  -- configurations, and authenticates as the organization that lists it.
  pub lookup_api_key_sound :
      (hash : Str → String) (cfgs : List WorkspaceConfig) (raw_key : Str) (info : AuthInfo)
      → lookup_api_key hash (serving cfgs) raw_key ≡ some info
      → (info.key_hash ≡ hash raw_key)
        × ((cfg : WorkspaceConfig) × Memᴰ cfg cfgs × KeyFor cfg.organizations (hash raw_key) info)
  unfolding lookup_api_key auth_info
  lookup_api_key_sound hash cfgs raw_key info h = elim (Current-cases (serving cfgs)) [
    | inl e ↦ absurd (cc (rw (e, lookup_api_key) at h))
    | inr (snap, e) ↦
        let (cfg, i, f) = serving-From cfgs snap e in
        let q = f.keys (hash raw_key) info (rw (e, lookup_api_key) at h) in
        (ap (λ (z : AuthInfo). z.key_hash) q.same_info ∙ sym q.same_hash, (cfg, i, q))
  ]
