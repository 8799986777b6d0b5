-- ===== src/ControlPlane/Table/Isolation.antt =====
-- What a write by one organization leaves as it was.
use sheeld.Prelude.{
  ℕ, Bool, ◌≡◌, ◌≢◌, refl, subst, inl, inr, nat_eq, eq_iff, beq_refl, List, [], ◌∷◌, some, filter,
  arith, Bool-cases, All,
}
use sheeld.ControlPlane.Table.{
  Owned, matches, get_row, rows_of, insert_row, replace_row, delete_row,
}

module _ {ℓ} {Row : Type ℓ} ⦃o : Owned Row⦄ where
  pub rows_of-insert :
      (org : ℕ) (new : Row) (rows : List Row)
      → o.owner new ≢ org
      → rows_of org (insert_row new rows) ≡ rows_of org rows
  rows_of-insert org new [] h = ground (arith, eq_iff (o.owner new) org)
  rows_of-insert org new (row ∷ rows) h = rw (rows_of-insert org new rows h) refl

  pub rows_of-replace :
      (org : ℕ) (new : Row) (rows : List Row)
      → o.owner new ≢ org
      → rows_of org (replace_row new rows) ≡ rows_of org rows
  rows_of-replace org new [] h = refl
  rows_of-replace org new (row ∷ rows) h = ground (
    arith,
    eq_iff (o.owner new) org,
    eq_iff (o.owner row) org,
    eq_iff (o.owner row) (o.owner new),
    rows_of-replace org new rows h,
  )

  pub rows_of-delete :
      (org id other : ℕ) (rows : List Row)
      → other ≢ org
      → rows_of org (delete_row id other rows) ≡ rows_of org rows
  rows_of-delete org id other [] h = refl
  rows_of-delete org id other (row ∷ rows) h = ground (
    arith,
    eq_iff (o.owner row) org,
    eq_iff (o.owner row) other,
    rows_of-delete org id other rows h,
  )

  -- A row that an update finds is the one that a read finds afterwards.
  pub get_row-replace :
      (new old : Row) (rows : List Row)
      → get_row (o.key new) (o.owner new) rows ≡ some old
      → get_row (o.key new) (o.owner new) (replace_row new rows) ≡ some new
  get_row-replace new old [] h = cc
  get_row-replace new old (row ∷ rows) h = ground (
    arith,
    eq_iff (o.key row) (o.key new),
    eq_iff (o.owner row) (o.owner new),
    beq_refl (o.key new),
    beq_refl (o.owner new),
    get_row-replace new old rows,
  )

  pub get_row-key :
      (id org : ℕ) (row : Row) (rows : List Row)
      → get_row id org rows ≡ some row
      → (o.key row ≡ id) × (o.owner row ≡ org)
  get_row-key id org row [] h = cc
  get_row-key id org row (first ∷ rows) h = elim (Bool-cases (matches id org first)) [
    | inl e ↦
        let same : some first ≡ some row = rw e at h in
        let found : first ≡ row = cc same in
        subst (λ r. (o.key r ≡ id) × (o.owner r ≡ org)) found
          (ground (arith, eq_iff (o.key first) id, eq_iff (o.owner first) org, e))
    | inr e ↦ get_row-key id org row rows (rw e at h)
  ]

module _ {ℓ κ} {Row : Type ℓ} ⦃o : Owned Row⦄ (P : Row → Type κ) where
  pub All-filter : (p : Row → Bool) (rows : List Row) → All P rows → All P (filter p rows)
  All-filter p [] h = tt
  All-filter p (row ∷ rows) h = elim (Bool-cases (p row)) [
    | inl e ↦ rw e (h.0, All-filter p rows h.1)
    | inr e ↦ rw e (All-filter p rows h.1)
  ]

  pub All-replace :
      (new : Row) (rows : List Row) → P new → All P rows → All P (replace_row new rows)
  All-replace new [] n h = tt
  All-replace new (row ∷ rows) n h = elim (Bool-cases (matches (o.key new) (o.owner new) row)) [
    | inl e ↦ rw e (n, All-replace new rows n h.1)
    | inr e ↦ rw e (h.0, All-replace new rows n h.1)
  ]
