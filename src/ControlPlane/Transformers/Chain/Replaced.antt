-- ===== src/ControlPlane/Transformers/Chain/Replaced.antt =====
-- `SetSourceTransformers` on every outcome.
use sheeld.Prelude.{
  ℕ, ◌≡◌, refl, sym, subst, inl, inr, ◌==◌, nat_eq, eq_iff, List, All, Bool-cases, length, map,
}
use sheeld.Prelude.Outcome.{ok, err, Outcome-cases}
use sheeld.ControlPlane.{Transformer, Source, Database, Result}
use sheeld.ControlPlane.Queries.{get_source}
use sheeld.ControlPlane.Queries.Chains.{
  count_transformers_by_org_and_ids, list_transformers_by_source,
}
use sheeld.ControlPlane.Transformers.{
  insert_chain, set_source_transformers, transaction, unique_uuids, list_transformers_of_source,
}
use sheeld.ControlPlane.Transformers.Chain.{cleared, chain_read}
use sheeld.ControlPlane.Transformers.Chain.Owned.{HasUniqueKeys, Has, count_transformers-owned}

-- After a success the source's chain is `ids`, in this order, all of them the organization's; an error
-- changes nothing.
pub SetsChain : ℕ → ℕ → List ℕ → Database → Result Unit → Type 0
SetsChain org source ids db (err e, db') = db' ≡ db
SetsChain org source ids db (ok u, db') =
    (rows : List (Transformer × ℕ)) × (list_transformers_of_source org source db' ≡ ok rows)
    × (map (λ (p : Transformer × ℕ). p.0.id) rows ≡ ids)
    × All (Has org (db'.transformers)) ids

module _ (org source : ℕ) (ids : List ℕ) (db : Database)
    (unique : HasUniqueKeys db.transformers) where
  same_source :
      (db' : Database)
      → db'.sources ≡ db.sources
      → get_source source org db' ≡ get_source source org db
  unfolding get_source
  same_source db' e = rw e refl

  transaction-SetsChain :
      (s : Source)
      → get_source source org db ≡ ok s
      → count_transformers_by_org_and_ids org ids db ≡ length ids
      → (r : Result Unit) → insert_chain source 0 ids (cleared source db) ≡ r
      → SetsChain org source ids db (transaction db r)
  unfolding SetsChain list_transformers_of_source
  transaction-SetsChain s g c (err e, db') h = refl
  transaction-SetsChain s g c (ok u, db') h =
      let (order, (rows, sources)) = chain_read source ids db db' u h in
      (
        list_transformers_by_source source db',
        rw (same_source db' sources, g) refl,
        order,
        subst (λ ts. All (Has org ts) ids) (sym rows)
            (count_transformers-owned org ids db unique c),
      )

  -- Setting a source's chain either succeeds, and then the chain that is read back is exactly the given
  -- identifiers in the given order, each a transformer of the organization; or it errs, and then the
  -- database is as it was. (Identifiers are the primary key of the transformers.)
  pub set_source_transformers_lem :
      SetsChain org source ids db (set_source_transformers org source ids db)
  unfolding set_source_transformers SetsChain
  set_source_transformers_lem = elim (Bool-cases (length (unique_uuids ids) == length ids)) [
    | inr e ↦ rw e refl
    | inl e ↦ rw e (elim (Bool-cases (count_transformers_by_org_and_ids org ids db == length ids)) [
      | inr f ↦ rw f refl
      | inl f ↦ rw f (elim (Outcome-cases (get_source source org db)) [
        | inl (m, g) ↦ rw g refl
        | inr (s, g) ↦ rw g (
            transaction-SetsChain s g
              ((eq_iff (count_transformers_by_org_and_ids org ids db) (length ids)).0 f)
              (insert_chain source 0 ids (cleared source db)) refl)
      ])
    ])
  ]
