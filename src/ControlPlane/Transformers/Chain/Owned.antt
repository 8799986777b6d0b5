-- ===== src/ControlPlane/Transformers/Chain/Owned.antt =====
-- What the count of `CountTransformersByOrgAndIDs` says: as many rows as identifiers are found only
-- when each identifier is one of the organization's transformers.
use sheeld.Prelude.{
  ℕ, ◌+◌, ◌≤◌, ◌≡◌, refl, inl, inr, false, ◌&&◌, ◌==◌, nat_eq, eq_iff, List, [], ◌∷◌, some, All,
  arith, Bool-cases, filter, exists, length,
}
use sheeld.ControlPlane.{Transformer, Database}
use sheeld.ControlPlane.Table.{transformer_rows, matches, get_row, has_key}
use sheeld.ControlPlane.Queries.Chains.{count_transformers_by_org_and_ids}

-- PRIMARY KEY
abbrev pub HasUniqueKeys : List Transformer → Type 0
HasUniqueKeys [] = Unit
HasUniqueKeys (t ∷ rows) = (has_key t.id rows ≡ false) × HasUniqueKeys rows

module _ (org : ℕ) where
  abbrev counted : List ℕ → List Transformer → ℕ
  counted ids rows = length (filter (λ t. (t.org_id == org) && exists (λ id. t.id == id) ids) rows)

  abbrev counted_one : ℕ → List Transformer → ℕ
  counted_one id rows = length (filter (matches id org) rows)

  counted-cons :
      (id : ℕ) (ids : List ℕ) (rows : List Transformer)
      → counted (id ∷ ids) rows ≤ counted_one id rows + counted ids rows
  counted-cons id ids [] = ground arith
  counted-cons id ids (t ∷ rows) = ground (arith, counted-cons id ids rows)

  counted-nil : (rows : List Transformer) → counted [] rows ≡ 0
  counted-nil [] = refl
  counted-nil (t ∷ rows) = ground (arith, counted-nil rows)

  counted_one-absent :
      (id : ℕ) (rows : List Transformer) → has_key id rows ≡ false → counted_one id rows ≡ 0
  counted_one-absent id [] h = refl
  counted_one-absent id (t ∷ rows) h = ground (arith, counted_one-absent id rows)

  counted_one-most :
      (id : ℕ) (rows : List Transformer) → HasUniqueKeys rows → counted_one id rows ≤ 1
  counted_one-most id [] u = ground arith
  counted_one-most id (t ∷ rows) u =
      ground (arith, counted_one-most id rows u.1, counted_one-absent id rows, eq_iff t.id id)

  counted_one-found :
      (id : ℕ) (rows : List Transformer)
      → counted_one id rows ≡ 1
      → (t : Transformer) × (get_row id org rows ≡ some t)
  counted_one-found id [] h = absurd (omega (arith, h))
  counted_one-found id (t ∷ rows) h = elim (Bool-cases (matches id org t)) [
    | inl e ↦ (t, rw e refl)
    | inr e ↦ rw e (counted_one-found id rows (rw e at h))
  ]

  counted-most :
      (ids : List ℕ) (rows : List Transformer) → HasUniqueKeys rows → counted ids rows ≤ length ids
  counted-most [] rows u = omega (arith, counted-nil rows)
  counted-most (id ∷ ids) rows u =
      omega (arith, counted-cons id ids rows, counted_one-most id rows u, counted-most ids rows u)

  abbrev pub Has : List Transformer → ℕ → Type 0
  Has rows id = (t : Transformer) × (get_row id org rows ≡ some t)

  pub counted-owned :
      (ids : List ℕ) (rows : List Transformer)
      → HasUniqueKeys rows
      → counted ids rows ≡ length ids
      → All (Has rows) ids
  counted-owned [] rows u h = tt
  counted-owned (id ∷ ids) rows u h =
      let c = counted-cons id ids rows in
      let o = counted_one-most id rows u in
      let m = counted-most ids rows u in
      (
        counted_one-found id rows (omega (arith, c, o, m, h)),
        counted-owned ids rows u (omega (arith, c, o, m, h)),
      )

  pub count_transformers-owned :
      (ids : List ℕ) (db : Database)
      → HasUniqueKeys db.transformers
      → count_transformers_by_org_and_ids org ids db ≡ length ids
      → All (Has db.transformers) ids
  unfolding count_transformers_by_org_and_ids
  count_transformers-owned ids db u h = counted-owned ids db.transformers u h
