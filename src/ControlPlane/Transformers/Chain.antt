-- ===== src/ControlPlane/Transformers/Chain.antt =====
-- What `SetSourceTransformers` stores: the chain in the given order, or nothing.
pub mod Owned
pub mod Replaced
use mathlib.Core.List.{append_assoc, append-nil}
use sheeld.Prelude.{
  ℕ, zero, suc, ◌+◌, ◌≤◌, ◌≡◌, refl, ap, ◌∙◌, sym, subst, inl, inr, ◌⊎◌, Bool, true, false, not,
  ◌&&◌, ◌||◌, ◌==◌, nat_eq, eq_iff, beq-eq, beq_refl, if◌then◌else◌, List, [], ◌∷◌, ◌++◌, Option,
  none, some, All, arith, Bool-cases, Option-cases, filter, find, exists, length, map,
}
use sheeld.Prelude.Outcome.{Outcome, ok, err, ◌>>=◌}
use sheeld.ControlPlane.{Transformer, Source, Link, Database, Result}
use sheeld.ControlPlane.Table.{source_rows, transformer_rows, matches, get_row, has_key}
use sheeld.ControlPlane.Queries.{get_source}
use sheeld.ControlPlane.Queries.Chains.{
  insert_source_transformer, delete_source_transformers, count_transformers_by_org_and_ids,
  list_transformers_by_source, sort_links, insert_link, join_transformers, is_link,
}
use sheeld.ControlPlane.Services.{after, after-ok}
use sheeld.ControlPlane.Transformers.{
  insert_chain, set_source_transformers, transaction, unique_uuids, list_transformers_of_source,
}
use sheeld.ControlPlane.Transformers.Chain.Owned.{HasUniqueKeys, Has, count_transformers-owned}

abbrev link : ℕ → ℕ → ℕ → Link
link source i id = record { source_id = source; transformer_id = id; position = i }

abbrev links_from : ℕ → ℕ → List ℕ → List Link
links_from source i [] = []
links_from source i (id ∷ ids) = link source i id ∷ links_from source (suc i) ids

abbrev Known : List Transformer → ℕ → Type 0
Known rows id = has_key id rows ≡ true

-- What a successful insert of one link did.
insert_source_transformer-ok :
    (new : Link) (db : Database) (u : Unit)
    → (insert_source_transformer new db).0 ≡ ok u
    → ((insert_source_transformer new db).1
        ≡ record db { source_transformers = db.source_transformers ++ new ∷ [] })
      × Known db.transformers new.transformer_id
unfolding insert_source_transformer
insert_source_transformer-ok new db u h = (ground arith, ground arith)

-- What a successful loop did.
record Inserted (source i : ℕ) (ids : List ℕ) (db db' : Database) : Type 0 where
  links : db'.source_transformers ≡ db.source_transformers ++ links_from source i ids
  same_transformers : db'.transformers ≡ db.transformers
  same_sources : db'.sources ≡ db.sources
  known : All (Known db.transformers) ids

insert_chain-Inserted :
    (source i : ℕ) (ids : List ℕ) (db db' : Database) (u : Unit)
    → insert_chain source i ids db ≡ (ok u, db')
    → Inserted source i ids db db'
unfolding insert_chain
insert_chain-Inserted source i [] db db' u h =
    let same : db ≡ db' = ap (λ (r : Result Unit). r.1) h in
    record {
      links =
          ap (λ (d : Database). d.source_transformers) (sym same)
          ∙ sym (append-nil db.source_transformers);
      same_transformers = ap (λ (d : Database). d.transformers) (sym same);
      same_sources = ap (λ (d : Database). d.sources) (sym same);
      known = tt;
    }
insert_chain-Inserted source i (id ∷ ids) db db' u h =
    let step : Result Unit = insert_source_transformer (link source i id) db in
    let (v, hv, h1) =
      after-ok step.0 step.1 db' (λ w. insert_chain source (suc i) ids step.1) u h in
    let (grown, k) = insert_source_transformer-ok (link source i id) db v hv in
    let rest = insert_chain-Inserted source (suc i) ids step.1 db' u h1 in
    record {
      links =
          rest.links
          ∙ ap (λ (d : Database). d.source_transformers ++ links_from source (suc i) ids) grown
          ∙ append_assoc db.source_transformers (link source i id ∷ [])
              (links_from source (suc i) ids);
      same_transformers = rest.same_transformers ∙ ap (λ (d : Database). d.transformers) grown;
      same_sources = rest.same_sources ∙ ap (λ (d : Database). d.sources) grown;
      known = (k, subst (λ (d : Database). All (Known d.transformers) ids) grown rest.known);
    }

filter-append {ℓ} :
    {A : Type ℓ} (p : A → Bool) (xs ys : List A) → filter p (xs ++ ys) ≡ filter p xs ++ filter p ys
filter-append p [] ys = refl
filter-append p (x ∷ xs) ys = elim (Bool-cases (p x)) [
  | inl e ↦ rw (e, filter-append p xs ys) refl
  | inr e ↦ rw (e, filter-append p xs ys) refl
]

filter-removed :
    (source : ℕ) (links : List Link)
    → filter (λ a. a.source_id == source) (filter (λ a. not (a.source_id == source)) links) ≡ []
filter-removed source [] = refl
filter-removed source (a ∷ links) = elim (Bool-cases (a.source_id == source)) [
  | inl e ↦ rw e (filter-removed source links)
  | inr e ↦ rw (e, e) (filter-removed source links)
]

filter-links_from :
    (source i : ℕ) (ids : List ℕ)
    → filter (λ a. a.source_id == source) (links_from source i ids) ≡ links_from source i ids
filter-links_from source i [] = refl
filter-links_from source i (id ∷ ids) =
    rw (beq_refl source) (ap (λ l. link source i id ∷ l) (filter-links_from source (suc i) ids))

insert_link-first :
    (source i id : ℕ) (ids : List ℕ)
    → insert_link (link source i id) (links_from source (suc i) ids)
      ≡ link source i id ∷ links_from source (suc i) ids
unfolding insert_link
insert_link-first source i id [] = refl
insert_link-first source i id (next ∷ ids) = ground arith

sort_links-links_from :
    (source i : ℕ) (ids : List ℕ) → sort_links (links_from source i ids) ≡ links_from source i ids
unfolding sort_links insert_link
sort_links-links_from source i [] = refl
sort_links-links_from source i (id ∷ ids) =
    ap (insert_link (link source i id)) (sort_links-links_from source (suc i) ids)
    ∙ insert_link-first source i id ids

find-Known :
    (id : ℕ) (rows : List Transformer)
    → Known rows id
    → (t : Transformer) × (find (λ (t : Transformer). t.id == id) rows ≡ some t) × (t.id ≡ id)
find-Known id [] h = cc
find-Known id (t ∷ rows) h = elim (Bool-cases (t.id == id)) [
  | inl e ↦ (t, rw e refl, beq-eq t.id id e)
  | inr e ↦ rw e (find-Known id rows (rw e at h))
]

join-found :
    (a : Link) (links : List Link) (rows : List Transformer) (t : Transformer)
    → find (λ (t : Transformer). t.id == a.transformer_id) rows ≡ some t
    → join_transformers (a ∷ links) rows ≡ (t, a.position) ∷ join_transformers links rows
unfolding join_transformers
join-found a links rows t e = rw (e, join_transformers) refl

join-links_from :
    (source i : ℕ) (ids : List ℕ) (rows : List Transformer)
    → All (Known rows) ids
    → map (λ (p : Transformer × ℕ). p.0.id) (join_transformers (links_from source i ids) rows) ≡ ids
unfolding join_transformers
join-links_from source i [] rows h = refl
join-links_from source i (id ∷ ids) rows h =
    let (t, found, same) = find-Known id rows h.0 in
    ap (map (λ (p : Transformer × ℕ). p.0.id))
      (join-found (link source i id) (links_from source (suc i) ids) rows t found)
    ∙ ap (λ l. t.id ∷ l) (join-links_from source (suc i) ids rows h.1)
    ∙ ap (λ j. j ∷ ids) same

abbrev pub cleared : ℕ → Database → Database
cleared source db = delete_source_transformers source db

-- The chain that is read after a successful loop from the cleared chain.
pub chain_read :
    (source : ℕ) (ids : List ℕ) (db db' : Database) (u : Unit)
    → insert_chain source 0 ids (cleared source db) ≡ (ok u, db')
    → (map (λ (p : Transformer × ℕ). p.0.id) (list_transformers_by_source source db') ≡ ids)
      × ((db'.transformers ≡ db.transformers) × (db'.sources ≡ db.sources))
unfolding list_transformers_by_source delete_source_transformers
chain_read source ids db db' u h =
    let i = insert_chain-Inserted source 0 ids (cleared source db) db' u h in
    let links : List Link = links_from source 0 ids in
    let mine : filter (λ (a : Link). a.source_id == source) db'.source_transformers ≡ links =
      ap (filter (λ (a : Link). a.source_id == source)) i.links
      ∙ filter-append (λ (a : Link). a.source_id == source) _ links
      ∙ ap (λ l. l ++ filter (λ (a : Link). a.source_id == source) links)
          (filter-removed source db.source_transformers)
      ∙ filter-links_from source 0 ids in
    (
      ap
            (λ l.
              map (λ (p : Transformer × ℕ). p.0.id)
                (join_transformers (sort_links l) db'.transformers))
            mine
          ∙ ap (λ l. map (λ (p : Transformer × ℕ). p.0.id) (join_transformers l db'.transformers))
              (sort_links-links_from source 0 ids)
          ∙ join-links_from source 0 ids db'.transformers
              (subst (λ rows. All (Known rows) ids) (sym i.same_transformers) i.known),
      (i.same_transformers, i.same_sources),
    )
