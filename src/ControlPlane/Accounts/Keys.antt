-- ===== src/ControlPlane/Accounts/Keys.antt =====
-- The life of an API key: it is accepted from its creation until it is revoked.
use sheeld.Prelude.{
  ℕ, ◌≡◌, ◌≢◌, refl, ap, ◌∙◌, sym, subst, false, ◌==◌, nat_eq, string_eq, eq_iff, beq_refl, String,
  Str, List, [], ◌∷◌, Option, none, some, arith, find, exists, take,
}
use sheeld.Prelude.Int.{ℤ}
use sheeld.Prelude.Outcome.{ok, err, >>=-eq-ok, ok-injective}
use sheeld.ControlPlane.{ApiKey, Database}
use sheeld.ControlPlane.Table.{api_key_rows, insert_row}
use sheeld.ControlPlane.Queries.{no_rows}
use sheeld.ControlPlane.Queries.Accounts.{
  create_api_key, get_api_key_by_hash, is_active, revoke_row, revoke_api_key,
}
use sheeld.ControlPlane.Accounts.{raw_key, as_int32, create_api_key_of, validate_api_key}

module _ (new : ApiKey) (active : new.revoked ≡ false) where
  find-inserted :
      (rows : List ApiKey)
      → exists (λ (k : ApiKey). k.key_hash == new.key_hash) rows ≡ false
      → find (is_active new.key_hash) (insert_row new rows) ≡ some new
  find-inserted [] h = ground (arith, beq_refl new.key_hash, active)
  find-inserted (k ∷ rows) h = ground (arith, find-inserted rows)

  find-revoked :
      (rows : List ApiKey)
      → exists (λ (k : ApiKey). k.key_hash == new.key_hash) rows ≡ false
      → find (is_active new.key_hash) (revoke_row new.id new.org_id (insert_row new rows)) ≡ none
  find-revoked [] h = ground (arith, beq_refl new.id, beq_refl new.org_id)
  find-revoked (k ∷ rows) h = ground (arith, find-revoked rows)

  find-kept :
      (id other : ℕ) (rows : List ApiKey)
      → other ≢ new.org_id
      → exists (λ (k : ApiKey). k.key_hash == new.key_hash) rows ≡ false
      → find (is_active new.key_hash) (revoke_row id other (insert_row new rows)) ≡ some new
  find-kept id other [] n h = ground (arith, beq_refl new.key_hash, eq_iff new.org_id other, active)
  find-kept id other (k ∷ rows) n h = ground (arith, find-kept id other rows n)

create_api_key-ok :
    (new k : ApiKey) (db : Database)
    → (create_api_key new db).0 ≡ ok k
    → (k ≡ new)
      × (((create_api_key new db).1.api_keys ≡ insert_row new db.api_keys)
          × (exists (λ (k : ApiKey). k.key_hash == new.key_hash) db.api_keys ≡ false))
unfolding create_api_key
create_api_key-ok new k db h = (ground arith, (ground arith, ground arith))

module _ (digest : Str → String) (hex : Str) (id org : ℕ) (name : String) (rps burst : Option ℤ)
    (db : Database) where
  abbrev new_row : ApiKey
  new_row = record {
    id = id;
    org_id = org;
    name = name;
    key_hash = digest (raw_key digest hex);
    key_prefix = take 13 (raw_key digest hex);
    rate_limit_rps = rps;
    rate_limit_burst = as_int32 digest burst;
    revoked = false;
  }

  validate-found :
      (raw : Str) (k : ApiKey) (rows : List ApiKey) (d : Database)
      → d.api_keys ≡ rows
      → find (is_active (digest raw)) rows ≡ some k
      → validate_api_key digest raw d ≡ ok k.org_id
  unfolding validate_api_key get_api_key_by_hash
  validate-found raw k rows d e f = rw (e, f) refl

  validate-missing :
      (raw : Str) (rows : List ApiKey) (d : Database)
      → d.api_keys ≡ rows
      → find (is_active (digest raw)) rows ≡ none
      → validate_api_key digest raw d ≡ err no_rows
  unfolding validate_api_key get_api_key_by_hash
  validate-missing raw rows d e f = rw (e, f) refl

  -- A key that is created is accepted as its organization's; it is no longer accepted once the
  -- organization has revoked it; and what another organization revokes does not touch it.
  pub key_lifecycle :
      (k : ApiKey) (raw : Str) (db' : Database)
      → create_api_key_of digest hex id org name rps burst db ≡ (ok (k, raw), db')
      → (validate_api_key digest raw db' ≡ ok org)
        × ((validate_api_key digest raw (revoke_api_key k.id org db').1 ≡ err no_rows)
            × ((other j : ℕ)
                → other ≢ org
                → validate_api_key digest raw (revoke_api_key j other db').1 ≡ ok org))
  unfolding create_api_key_of revoke_api_key
  key_lifecycle k raw db' h =
      let (a, ha, e) = >>=-eq-ok (create_api_key new_row db).0 _ (ap (λ r. r.0) h) in
      let (same, (rows, free)) = create_api_key-ok new_row a db ha in
      let shown : raw_key digest hex ≡ raw = ap (λ p. p.1) (ok-injective e) in
      let stored : db'.api_keys ≡ insert_row new_row db.api_keys =
        ap (λ r. r.1.api_keys) (sym h) ∙ rows in
      let number : k.id ≡ id =
        ap (λ p. p.0.id) (sym (ok-injective e)) ∙ ap (λ (z : ApiKey). z.id) same in
      let row : List ApiKey = insert_row new_row db.api_keys in
      subst
        (λ r.
          (validate_api_key digest r db' ≡ ok org)
          × ((validate_api_key digest r (revoke_api_key k.id org db').1 ≡ err no_rows)
              × ((other j : ℕ)
                  → other ≢ org
                  → validate_api_key digest r (revoke_api_key j other db').1 ≡ ok org)))
        shown
        (
          validate-found (raw_key digest hex) new_row row db' stored
              (find-inserted new_row refl db.api_keys free),
          (
            subst
                (λ j.
                  validate_api_key digest (raw_key digest hex) (revoke_api_key j org db').1
                  ≡ err no_rows)
                (sym number)
                (validate-missing (raw_key digest hex) (revoke_row id org row)
                  (revoke_api_key id org db').1 (ap (revoke_row id org) stored)
                  (find-revoked new_row refl db.api_keys free)),
            λ other j n.
                validate-found (raw_key digest hex) new_row (revoke_row j other row)
                  (revoke_api_key j other db').1 (ap (revoke_row j other) stored)
                  (find-kept new_row refl j other db.api_keys n free),
          ),
        )
