-- ===== src/Transform/Placeholders/Allocation.antt =====
-- `AllocatePlaceholder` keeps the request's store consistent: nothing is overwritten, and a value
-- keeps the placeholder that it first got.
use sheeld.Prelude.{
  ℕ, suc, ◌<◌, ◌≡◌, ◌≢◌, ap, ◌∙◌, refl, inl, inr, Str, List, [], ◌∷◌, none, some, lookup, insert,
  lookup-insert, All, All-insert, ◌==◌, bytes_eq, eq_iff, beq_refl, arith, Bool-cases, Option-cases,
  if◌then◌else◌,
}
use sheeld.Transform.Placeholders.{
  State, fresh, placeholder_of, counter, placeholder, allocate_placeholder,
}
use sheeld.Transform.Placeholders.Injective.{placeholder_injective}

-- No key stands twice.
abbrev pub HasUniqueKeys : List (Str × Str) → Type 0
HasUniqueKeys [] = Unit
HasUniqueKeys ((k, v) ∷ m) = (lookup k m ≡ none) × HasUniqueKeys m

pub record IsConsistent (s : State) : Type 0 where
  pub fresh_above :
      (e : Str) (n : ℕ) → counter e s.counters < n → lookup (placeholder e n) s.mappings ≡ none
  pub unique_keys : HasUniqueKeys s.mappings
  pub one_placeholder :
      (p q o : Str) → lookup p s.mappings ≡ some o → lookup q s.mappings ≡ some o → p ≡ q

placeholder_of_sound :
    (o p : Str) (m : List (Str × Str))
    → HasUniqueKeys m
    → placeholder_of o m ≡ some p
    → lookup p m ≡ some o
unfolding placeholder_of
placeholder_of_sound o p [] u h = cc
placeholder_of_sound o p ((k, v) ∷ m) u h =
    ground (arith, placeholder_of_sound o p m u.1, eq_iff v o, eq_iff k p)

placeholder_of_complete :
    (o q : Str) (m : List (Str × Str)) → placeholder_of o m ≡ none → lookup q m ≢ some o
unfolding placeholder_of
placeholder_of_complete o q [] h = λ e. cc
placeholder_of_complete o q ((k, v) ∷ m) h =
    ground (arith, placeholder_of_complete o q m, eq_iff v o, eq_iff k q)

HasUniqueKeys-insert :
    (k v : Str) (m : List (Str × Str)) → HasUniqueKeys m → HasUniqueKeys (insert k v m)
HasUniqueKeys-insert k v [] u = (refl, tt)
HasUniqueKeys-insert k v ((j, w) ∷ m) u = elim (Bool-cases (j == k)) [
  | inl e ↦ rw e (ground (arith, eq_iff j k, u))
  | inr e ↦ rw e (
    ground (arith, eq_iff k j, eq_iff j k, lookup-insert k j v m),
    HasUniqueKeys-insert k v m u.1,
  )
]

-- The state after a value that has no placeholder yet is given number `suc (counter …)`.
module _ (s : State) (entity original : Str) (c : IsConsistent s) where
  abbrev number : ℕ
  number = suc (counter entity s.counters)

  abbrev grown : State
  grown = record {
    mappings = insert (placeholder entity number) original s.mappings;
    counters = insert entity number s.counters;
  }

  was_free : lookup (placeholder entity number) s.mappings ≡ none
  was_free = c.fresh_above entity number (omega arith)

  grown-keeps : (q x : Str) → lookup q s.mappings ≡ some x → lookup q grown.mappings ≡ some x
  grown-keeps q x h = ground (
    arith,
    lookup-insert (placeholder entity number) q original s.mappings,
    eq_iff (placeholder entity number) q,
    was_free,
  )

  counter-grown :
      (e : Str) → counter e grown.counters ≡ (if entity == e then number else counter e s.counters)
  counter-grown e = ground (arith, lookup-insert entity e number s.counters)

  grown-fresh :
      (e : Str) (n : ℕ)
      → counter e grown.counters < n
      → lookup (placeholder e n) grown.mappings ≡ none
  grown-fresh e n h = ground (
    arith,
    lookup-insert (placeholder entity number) (placeholder e n) original s.mappings,
    eq_iff (placeholder entity number) (placeholder e n),
    placeholder_injective entity e number n,
    counter-grown e,
    eq_iff entity e,
    c.fresh_above e n,
  )

  grown-one :
      placeholder_of original s.mappings ≡ none
      → (p q o : Str) → lookup p grown.mappings ≡ some o
      → lookup q grown.mappings ≡ some o
      → p ≡ q
  grown-one h p q o hp hq = ground (
    arith,
    lookup-insert (placeholder entity number) p original s.mappings,
    lookup-insert (placeholder entity number) q original s.mappings,
    eq_iff (placeholder entity number) p,
    eq_iff (placeholder entity number) q,
    placeholder_of_complete original p s.mappings h,
    placeholder_of_complete original q s.mappings h,
    c.one_placeholder p q o,
  )

  grown-IsConsistent : placeholder_of original s.mappings ≡ none → IsConsistent grown
  grown-IsConsistent h = record {
    fresh_above = grown-fresh;
    unique_keys =
        HasUniqueKeys-insert (placeholder entity number) original s.mappings c.unique_keys;
    one_placeholder = grown-one h;
  }

  grown-holds : lookup (placeholder entity number) grown.mappings ≡ some original
  grown-holds = ground (
    arith,
    lookup-insert (placeholder entity number) (placeholder entity number) original s.mappings,
    beq_refl (placeholder entity number),
  )

-- What `AllocatePlaceholder` owes its caller.
pub record Allocates (s : State) (original p : Str) (s' : State) : Type 0 where
  pub consistent : IsConsistent s'
  pub holds : lookup p s'.mappings ≡ some original
  pub keeps : (q x : Str) → lookup q s.mappings ≡ some x → lookup q s'.mappings ≡ some x

-- Allocating from a consistent store keeps it consistent, maps the returned placeholder to the value,
-- and overwrites no older mapping.
pub allocate_placeholder-Allocates :
    (s : State) (entity original : Str)
    → IsConsistent s
    → Allocates s original
        (allocate_placeholder s entity original).0
        (allocate_placeholder s entity original).1
unfolding allocate_placeholder
allocate_placeholder-Allocates s entity original c =
    elim (Option-cases (placeholder_of original s.mappings)) [
      | inl h ↦
          rw (h, allocate_placeholder)
            (record {
              consistent = grown-IsConsistent s entity original c h;
              holds = grown-holds s entity original c;
              keeps = grown-keeps s entity original c;
            })
      | inr (p, h) ↦
          rw (h, allocate_placeholder)
            (record {
              consistent = c;
              holds = placeholder_of_sound original p s.mappings c.unique_keys h;
              keeps = λ q x e. e;
            })
    ]

-- What holds of the mappings, and of every placeholder that `entity` may get, holds afterwards.
pub allocate_placeholder-All {ℓ} :
    (P : Str × Str → Type ℓ) (s : State) (entity original : Str)
    → ((n : ℕ) → P (placeholder entity n, original))
    → All P s.mappings
    → All P (allocate_placeholder s entity original).1.mappings
unfolding allocate_placeholder
allocate_placeholder-All P s entity original new old =
    elim (Option-cases (placeholder_of original s.mappings)) [
      | inl h ↦
          rw (h, allocate_placeholder)
            (All-insert P _ original s.mappings (new (suc (counter entity s.counters))) old)
      | inr (p, h) ↦ rw (h, allocate_placeholder) old
    ]

placeholder_of_found :
    (s : State) (o p : Str)
    → IsConsistent s
    → lookup p s.mappings ≡ some o
    → placeholder_of o s.mappings ≡ some p
placeholder_of_found s o p c h = elim (Option-cases (placeholder_of o s.mappings)) [
  | inl e ↦ absurd (placeholder_of_complete o p s.mappings e h)
  | inr (q, e) ↦
      e ∙ ap some (c.one_placeholder q p o (placeholder_of_sound o q s.mappings c.unique_keys e) h)
]

allocate_placeholder_found :
    (s : State) (entity o p : Str)
    → IsConsistent s
    → lookup p s.mappings ≡ some o
    → allocate_placeholder s entity o ≡ (p, s)
unfolding allocate_placeholder
allocate_placeholder_found s entity o p c h =
    rw (placeholder_of_found s o p c h, allocate_placeholder)

-- The state after more values, each with its entity type, have been allocated.
abbrev pub allocate_all : State → List (Str × Str) → State
allocate_all s [] = s
allocate_all s ((e, o) ∷ rest) = allocate_all (allocate_placeholder s e o).1 rest

allocate_all-keeps :
    (s : State) (rest : List (Str × Str)) (q x : Str)
    → IsConsistent s
    → lookup q s.mappings ≡ some x
    → IsConsistent (allocate_all s rest) × (lookup q (allocate_all s rest).mappings ≡ some x)
allocate_all-keeps s [] q x c h = (c, h)
allocate_all-keeps s ((e, o) ∷ rest) q x c h =
    let a = allocate_placeholder-Allocates s e o c in
    allocate_all-keeps (allocate_placeholder s e o).1 rest q x a.consistent (a.keeps q x h)

-- Once a value has a placeholder it keeps it: after any further allocations, asking for the value
-- again, under any entity type, gives the same placeholder and changes nothing.
allocate_placeholder_stable :
    (s : State) (entity again original : Str) (rest : List (Str × Str))
    → IsConsistent s
    → allocate_placeholder
        (allocate_all (allocate_placeholder s entity original).1 rest)
        again
        original
      ≡ (
        (allocate_placeholder s entity original).0,
        allocate_all (allocate_placeholder s entity original).1 rest,
      )
allocate_placeholder_stable s entity again original rest c =
    let a = allocate_placeholder-Allocates s entity original c in
    let (k, h) =
      allocate_all-keeps (allocate_placeholder s entity original).1 rest
        (allocate_placeholder s entity original).0 original a.consistent a.holds in
    allocate_placeholder_found _ again original _ k h

-- The store that a request starts with is consistent.
pub fresh-IsConsistent : IsConsistent fresh
fresh-IsConsistent = record {
  fresh_above = λ e n h. refl;
  unique_keys = tt;
  one_placeholder = λ p q o h k. cc;
}
