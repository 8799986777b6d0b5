-- ===== src/Transform/Presidio/Order.antt =====
-- The order in which the spans are replaced: the last one first.
use sheeld.Prelude.Int.{pos, int_ltb}
use sheeld.Prelude.{
  ℕ, ◌≤◌, ◌<◌, ◌≡◌, ◌⊎◌, inl, inr, true, false, ltb, Str, List, [], ◌∷◌, All, arith, Bool-cases,
}
use sheeld.Transform.Presidio.{Detection, insert_span, sort_spans}

abbrev pub detected : Str → ℕ → ℕ → Detection
detected e a b = record { entity_type = e; start = pos a; stop = pos b }

-- A span inside a text of `n` bytes, not empty.
pub data IsSpan (n : ℕ) : Detection → Type 0 where
  span : (e : Str) (a b : ℕ) → a < b → b ≤ n → IsSpan n (detected e a b)

-- One ends where the other starts, or before.
abbrev pub AreApart : Detection → Detection → Type 0
AreApart r s = (int_ltb s.start r.stop ≡ false) ⊎ (int_ltb r.start s.stop ≡ false)

-- What the analyzer detects in a text of `n` bytes when no two detections overlap.
abbrev pub AreDisjoint : ℕ → List Detection → Type 0
AreDisjoint n [] = Unit
AreDisjoint n (r ∷ rs) = IsSpan n r × (All (λ s. AreApart r s) rs × AreDisjoint n rs)

-- Each span ends at or before the start of the one before it in the list, the first at or before `k`.
pub data Descends : ℕ → List Detection → Type 0 where
  none_left : {k : ℕ} → Descends k []
  next :
      {k : ℕ} {rs : List Detection} (e : Str) (a b : ℕ)
      → a < b
      → b ≤ k
      → Descends a rs
      → Descends k (detected e a b ∷ rs)

insert_span-All {ℓ} :
    (P : Detection → Type ℓ) (r : Detection) (rs : List Detection)
    → P r
    → All P rs
    → All P (insert_span r rs)
unfolding insert_span
insert_span-All P r [] h k = (h, tt)
insert_span-All P r (s ∷ ss) h k = elim (Bool-cases (int_ltb s.start r.start)) [
  | inl e ↦ rw e (h, k)
  | inr e ↦ rw e (k.0, insert_span-All P r ss h k.1)
]

pub sort_spans-All {ℓ} :
    (P : Detection → Type ℓ) (rs : List Detection) → All P rs → All P (sort_spans rs)
unfolding sort_spans
sort_spans-All P [] h = tt
sort_spans-All P (r ∷ rs) h = insert_span-All P r (sort_spans rs) h.0 (sort_spans-All P rs h.1)

before :
    (e f : Str) (a b c d : ℕ)
    → AreApart (detected e a b) (detected f c d)
    → a < b
    → ltb c a ≡ true
    → d ≤ a
before e f a b c d p h q = ground arith

after :
    (e f : Str) (a b c d : ℕ)
    → AreApart (detected e a b) (detected f c d)
    → c < d
    → ltb c a ≡ false
    → b ≤ c
after e f a b c d p h q = ground arith

insert_span-Descends :
    (e : Str) (a b k : ℕ) (rs : List Detection)
    → a < b
    → b ≤ k
    → Descends k rs
    → All (λ s. AreApart (detected e a b) s) rs
    → Descends k (insert_span (detected e a b) rs)
unfolding insert_span
insert_span-Descends e a b k [] h l d p = next e a b h l none_left
insert_span-Descends e a b k (_ ∷ ss) h l (next f c d g m t) p = elim (Bool-cases (ltb c a)) [
  | inl q ↦ rw q (next e a b h l (next f c d g (before e f a b c d p.0 h q) t))
  | inr q ↦
      rw q (next f c d g m (insert_span-Descends e a b c ss h (after e f a b c d p.0 g q) t p.1))
]

-- Sorting spans that do not overlap lines them up from the back of the text.
pub sort_spans-Descends :
    (n : ℕ) (rs : List Detection) → AreDisjoint n rs → Descends n (sort_spans rs)
unfolding sort_spans
sort_spans-Descends n [] h = none_left
sort_spans-Descends n (_ ∷ rs) (span e a b l m, (p, h)) =
    insert_span-Descends e a b n (sort_spans rs) l m (sort_spans-Descends n rs h)
      (sort_spans-All (λ s. AreApart (detected e a b) s) rs p)
