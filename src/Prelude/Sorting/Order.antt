-- ===== src/Prelude/Sorting/Order.antt =====
-- What insertion sort makes of a strict order: a list in order, of which a filter is the sorted filter.
use mathlib.Core.Path.{◌≡◌, refl, ap, sym}
use mathlib.Core.Logic.{inl, inr}
use mathlib.Core.Bool.{Bool, true, false}
use mathlib.Core.List.{List, [], ◌∷◌}
use sheeld.Prelude.Tests.{Bool-cases}
use sheeld.Prelude.Lists.{All, filter}
use sheeld.Prelude.Sorting.{insert_sorted, sort_by, All-map, All-insert_sorted, All-sort_by}

module _ {ℓ κ} {A : Type ℓ} (R : A → A → Type κ) where
  -- Every element is related to all that come after it.
  abbrev pub Pairwise : List A → Type κ
  Pairwise [] = Unit
  Pairwise (x ∷ xs) = All (R x) xs × Pairwise xs

  module _ (c : A → Bool) where
    All-filter : (x : A) (xs : List A) → All (R x) xs → All (R x) (filter c xs)
    All-filter x [] h = tt
    All-filter x (y ∷ ys) h = elim (Bool-cases (c y)) [
      | inl e ↦ rw e (h.0, All-filter x ys h.1)
      | inr e ↦ rw e (All-filter x ys h.1)
    ]

    pub Pairwise-filter : (xs : List A) → Pairwise xs → Pairwise (filter c xs)
    Pairwise-filter [] h = tt
    Pairwise-filter (x ∷ xs) h = elim (Bool-cases (c x)) [
      | inl e ↦ rw e (All-filter x xs h.0, Pairwise-filter xs h.1)
      | inr e ↦ rw e (Pairwise-filter xs h.1)
    ]

  -- An order of insertion does not matter to a symmetric relation.
  module _ (before : A → A → Bool) (symmetric : (x y : A) → R x y → R y x) where
    insert-Pairwise :
        (x : A) (xs : List A) → All (R x) xs → Pairwise xs → Pairwise (insert_sorted before x xs)
    insert-Pairwise x [] h p = (tt, tt)
    insert-Pairwise x (y ∷ ys) h p = elim (Bool-cases (before y x)) [
      | inl e ↦ rw e (
        All-insert_sorted before (R y) x ys (symmetric x y h.0) p.0,
        insert-Pairwise x ys h.1 p.1,
      )
      | inr e ↦ rw e (h, p)
    ]

    pub sort_by-Pairwise : (xs : List A) → Pairwise xs → Pairwise (sort_by before xs)
    sort_by-Pairwise [] p = tt
    sort_by-Pairwise (x ∷ xs) p =
        insert-Pairwise x (sort_by before xs) (All-sort_by before (R x) xs p.0)
          (sort_by-Pairwise xs p.1)

module _ {ℓ} {A : Type ℓ} (before : A → A → Bool)
    (asymmetric : (x y : A) → before x y ≡ true → before y x ≡ false)
    (negative : (x y z : A) → before y x ≡ false → before z y ≡ false → before z x ≡ false) where
  -- Nothing comes before what stands in front of it.
  abbrev pub InOrder : List A → Type 0
  InOrder = Pairwise (λ x y. before y x ≡ false)

  insert-InOrder : (x : A) (xs : List A) → InOrder xs → InOrder (insert_sorted before x xs)
  insert-InOrder x [] p = (tt, tt)
  insert-InOrder x (y ∷ ys) p = elim (Bool-cases (before y x)) [
    | inl e ↦ rw e (
      All-insert_sorted before (λ z. before z y ≡ false) x ys (asymmetric y x e) p.0,
      insert-InOrder x ys p.1,
    )
    | inr e ↦ rw e ((e, All-map (λ z. before z y ≡ false) ys (λ z h. negative x y z e h) p.0), p)
  ]

  pub sort_by-InOrder : (xs : List A) → InOrder (sort_by before xs)
  sort_by-InOrder [] = tt
  sort_by-InOrder (x ∷ xs) = insert-InOrder x (sort_by before xs) (sort_by-InOrder xs)

  -- In front of a list in which nothing comes before it, an element is inserted at the head.
  insert-head :
      (x : A) (xs : List A) → All (λ z. before z x ≡ false) xs → insert_sorted before x xs ≡ x ∷ xs
  insert-head x [] h = refl
  insert-head x (y ∷ ys) h = rw h.0 refl

  module _ (c : A → Bool) where
    insert-filter_in :
        (x : A) (xs : List A)
        → InOrder xs
        → c x ≡ true
        → filter c (insert_sorted before x xs) ≡ insert_sorted before x (filter c xs)
    insert-filter_in x [] p k = rw k refl
    insert-filter_in x (y ∷ ys) p k =
        let rest = insert-filter_in x ys p.1 k in
        elim (Bool-cases (before y x)) [
          | inl e ↦ elim (Bool-cases (c y)) [
            | inl f ↦ rw (e, f, e) (ap (λ l. y ∷ l) rest)
            | inr f ↦ rw (e, f) rest
          ]
          | inr e ↦ elim (Bool-cases (c y)) [
            | inl f ↦ rw (e, k, f, e) refl
            | inr f ↦
                rw (e, k, f)
                  (sym (
                    insert-head x (filter c ys) (
                      All-filter (λ u z. before z u ≡ false) c x ys
                        (All-map (λ z. before z y ≡ false) ys (λ z h. negative x y z e h) p.0))))
          ]
        ]

    insert-filter_out :
        (x : A) (xs : List A) → c x ≡ false → filter c (insert_sorted before x xs) ≡ filter c xs
    insert-filter_out x [] k = rw k refl
    insert-filter_out x (y ∷ ys) k = elim (Bool-cases (before y x)) [
      | inr e ↦ rw (e, k) refl
      | inl e ↦ elim (Bool-cases (c y)) [
        | inl f ↦ rw (e, f) (ap (λ l. y ∷ l) (insert-filter_out x ys k))
        | inr f ↦ rw (e, f) (insert-filter_out x ys k)
      ]
    ]

    pub sort_by-filter : (xs : List A) → sort_by before (filter c xs) ≡ filter c (sort_by before xs)
    sort_by-filter [] = refl
    sort_by-filter (x ∷ xs) = elim (Bool-cases (c x)) [
      | inl e ↦
          rw (e, sort_by-filter xs)
            (sym (insert-filter_in x (sort_by before xs) (sort_by-InOrder xs) e))
      | inr e ↦ rw (e, sort_by-filter xs) (sym (insert-filter_out x (sort_by before xs) e))
    ]
