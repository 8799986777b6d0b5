-- ===== src/Prelude/Sorting.antt =====
-- Insertion sort, which stands for ORDER BY, and what sorting and filtering keep.
pub mod Order
use mathlib.Core.Path.{◌≡◌, refl, sym, subst}
use mathlib.Core.Logic.{inl, inr}
use mathlib.Core.Bool.{Bool, true}
use mathlib.Core.List.{List, [], ◌∷◌, Memᴰ}
use sheeld.Prelude.Tests.{if◌then◌else◌, Bool-cases}
use sheeld.Prelude.Lists.{All, filter}

module _ {ℓ} {A : Type ℓ} (before : A → A → Bool) where
  abbrev pub insert_sorted : A → List A → List A
  insert_sorted x [] = x ∷ []
  insert_sorted x (y ∷ ys) =
      let rest = insert_sorted x ys in if before y x then y ∷ rest else x ∷ y ∷ ys

  -- `before` is the strict order.
  abbrev pub sort_by : List A → List A
  sort_by [] = []
  sort_by (x ∷ xs) = insert_sorted x (sort_by xs)

  module _ {κ} (P : A → Type κ) where
    pub All-insert_sorted : (x : A) (xs : List A) → P x → All P xs → All P (insert_sorted x xs)
    All-insert_sorted x [] p h = (p, tt)
    All-insert_sorted x (y ∷ ys) p h = elim (Bool-cases (before y x)) [
      | inl e ↦ rw e (h.0, All-insert_sorted x ys p h.1)
      | inr e ↦ rw e (p, h)
    ]

    pub All-sort_by : (xs : List A) → All P xs → All P (sort_by xs)
    All-sort_by [] h = tt
    All-sort_by (x ∷ xs) h = All-insert_sorted x (sort_by xs) h.0 (All-sort_by xs h.1)

module _ {ℓ κ} {A : Type ℓ} (P : A → Type κ) where
  pub All-map : {Q : A → Type κ} (xs : List A) → ((x : A) → P x → Q x) → All P xs → All Q xs
  All-map [] f h = tt
  All-map (x ∷ xs) f h = (f x h.0, All-map xs f h.1)

  -- An element of a list of which `P` holds.
  pub All-Mem : (x : A) (xs : List A) → Memᴰ x xs → All P xs → P x
  All-Mem x [] m h = elim m [ ]
  All-Mem x (y ∷ ys) (Memᴰ.head e) h = subst P (sym e) h.0
  All-Mem x (y ∷ ys) (Memᴰ.tail m) h = All-Mem x ys m h.1

module _ {ℓ} {A : Type ℓ} (p : A → Bool) where
  -- What a filter keeps is in the list and passes the test.
  pub filter-kept : (xs : List A) → All (λ x. Memᴰ x xs × (p x ≡ true)) (filter p xs)
  filter-kept [] = tt
  filter-kept (x ∷ xs) =
      let rest =
        All-map (λ y. Memᴰ y xs × (p y ≡ true)) (filter p xs) (λ y h. (Memᴰ.tail h.0, h.1))
          (filter-kept xs) in
      elim (Bool-cases (p x)) [ inl e ↦ rw e ((Memᴰ.head refl, e), rest) | inr e ↦ rw e rest ]

pub All-Memᴰ {ℓ} : {A : Type ℓ} (xs : List A) → All (λ x. Memᴰ x xs) xs
All-Memᴰ [] = tt
All-Memᴰ (x ∷ xs) = (Memᴰ.head refl, All-map (λ y. Memᴰ y xs) xs (λ y m. Memᴰ.tail m) (All-Memᴰ xs))
