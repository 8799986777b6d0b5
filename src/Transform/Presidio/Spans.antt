-- ===== src/Transform/Presidio/Spans.antt =====
-- What replacing the spans of one text owes the deanonymizer.
use mathlib.Core.List.{append_assoc}
use sheeld.Prelude.Int.{pos}
use sheeld.Prelude.Decimal.{decimal, IsDigit, decimal-IsDigit}
use sheeld.Prelude.{
  ℕ, zero, suc, ◌-◌, ◌≤◌, ◌<◌, ◌≡◌, ap, ◌∙◌, sym, subst, refl, bytes_eq, Str, List, [], ◌∷◌, ◌++◌,
  some, All, All-append, All-lookup, arith, length, length-append, take, drop, length-take,
  length-drop, take-append-drop, lookup,
}
use sheeld.Transform.Placeholders.{State, placeholder, allocate_placeholder}
use sheeld.Transform.Placeholders.Allocation.{
  IsConsistent, Allocates, allocate_placeholder-Allocates, allocate_placeholder-All,
}
use sheeld.Transform.Deanonymize.Restores.{
  NotOpen, NotClose, IsTag, tag, HasTag, Restores, placed, Restores-keeps, Restores-literal,
}
use sheeld.Transform.Presidio.{Detection, bounds, replace_span, replace_spans}
use sheeld.Transform.Presidio.Order.{detected, Descends, none_left, next}

take-exact : (a : ℕ) (x w : Str) → length x ≡ a → take a (x ++ w) ≡ x
take-exact zero [] w h = refl
take-exact zero (c ∷ x) w h = absurd (omega (arith, h))
take-exact (suc a) [] w h = absurd (omega (arith, h))
take-exact (suc a) (c ∷ x) w h = ap (λ l. c ∷ l) (take-exact a x w (omega (arith, h)))

drop-exact : (a : ℕ) (x w : Str) → length x ≡ a → drop a (x ++ w) ≡ w
drop-exact zero [] w h = refl
drop-exact zero (c ∷ x) w h = absurd (omega (arith, h))
drop-exact (suc a) [] w h = absurd (omega (arith, h))
drop-exact (suc a) (c ∷ x) w h = drop-exact a x w (omega (arith, h))

-- A text cut at two positions.
record Cut (pre : Str) (a b : ℕ) : Type 0 where
  front : Str
  middle : Str
  back : Str
  whole : pre ≡ front ++ (middle ++ back)
  front_length : length front ≡ a
  middle_length : length middle ≡ b - a

cut : (pre : Str) (a b : ℕ) → a < b → b ≤ length pre → Cut pre a b
cut pre a b h k = record {
  front = take a pre;
  middle = take (b - a) (drop a pre);
  back = drop (b - a) (drop a pre);
  whole =
      sym (take-append-drop a pre)
      ∙ ap (λ l. take a pre ++ l) (sym (take-append-drop (b - a) (drop a pre)));
  front_length = omega (arith, length-take a pre, h, k);
  middle_length = omega (arith, length-take (b - a) (drop a pre), length-drop a pre, h, k);
}

bounds-inside : (a b n : ℕ) → a < b → b ≤ n → bounds (pos a) (pos b) n ≡ some (a, b)
unfolding bounds
bounds-inside a b n h k = ground arith

drop-exact-twice :
    (a b : ℕ) (x mid w : Str)
    → a < b
    → length x ≡ a
    → length mid ≡ b - a
    → drop b (x ++ (mid ++ w)) ≡ w
drop-exact-twice a b x mid w h f m =
    ap (drop b) (sym (append_assoc x mid w))
    ∙ drop-exact b (x ++ mid) w (omega (arith, length-append x mid))

-- What one round does with a text whose span is `mid`.
replace_span-cut :
    (st : State) (e : Str) (a b : ℕ) (x mid w : Str)
    → a < b
    → length x ≡ a
    → length mid ≡ b - a
    → replace_span st (x ++ (mid ++ w)) (detected e a b)
      ≡ (x ++ ((allocate_placeholder st e mid).0 ++ w), (allocate_placeholder st e mid).1)
unfolding replace_span
replace_span-cut st e a b x mid w h f m =
    rw
      (
        bounds-inside a b (length (x ++ (mid ++ w))) h
            (omega (arith, length-append x (mid ++ w), length-append mid w)),
        drop-exact a x (mid ++ w) f,
        take-exact a x (mid ++ w) f,
        take-exact (b - a) mid w m,
        drop-exact-twice a b x mid w h f m,
        replace_span,
      )
      refl

abbrev pub Closes : Detection → Type 0
Closes r = All NotClose r.entity_type

-- A store that only anonymizing has written to.
pub record IsTracked (st : State) : Type 0 where
  pub consistent : IsConsistent st
  pub tags : All HasTag st.mappings

-- `out` stands for `text` under the mappings of `st'`, which `st` has grown into.
pub record Rewrites (st : State) (text out : Str) (st' : State) : Type 0 where
  pub tracked : IsTracked st'
  pub keeps : (q x : Str) → lookup q st.mappings ≡ some x → lookup q st'.mappings ≡ some x
  pub restores : Restores st'.mappings out text

digits-NotClose : (s : Str) → All IsDigit s → All NotClose s
digits-NotClose [] h = tt
digits-NotClose (c ∷ s) h = (omega arith, digits-NotClose s h.1)

placeholder-IsTag : (e : Str) (n : ℕ) → All NotClose e → IsTag (placeholder e n)
unfolding placeholder
placeholder-IsTag e n h =
    subst IsTag (ap (λ l. 60 ∷ l) (append_assoc e (95 ∷ decimal n) (62 ∷ []))) (
      tag (e ++ 95 ∷ decimal n) (
        All-append NotClose e (95 ∷ decimal n) h
          (omega arith, digits-NotClose (decimal n) (decimal-IsDigit n))))

module _ (st : State) (e original : Str) (t : IsTracked st) (h : All NotClose e) where
  abbrev allocated : Str × State
  allocated = allocate_placeholder st e original

  allocated-Allocates : Allocates st original allocated.0 allocated.1
  allocated-Allocates = allocate_placeholder-Allocates st e original t.consistent

  allocated-IsTracked : IsTracked allocated.1
  allocated-IsTracked = record {
    consistent = allocated-Allocates.consistent;
    tags = allocate_placeholder-All HasTag st e original (λ n. placeholder-IsTag e n h) t.tags;
  }

  allocated-IsTag : IsTag allocated.0
  allocated-IsTag =
      All-lookup HasTag allocated.0 original allocated.1.mappings allocated-IsTracked.tags
        allocated-Allocates.holds

All-split {ℓ} : (P : ℕ → Type ℓ) (xs ys : Str) → All P (xs ++ ys) → All P xs × All P ys
All-split P [] ys h = (tt, h)
All-split P (x ∷ xs) ys h = let (a, b) = All-split P xs ys h.1 in ((h.0, a), b)

spread : (pre x mid y : Str) (z : Str) → pre ≡ x ++ (mid ++ y) → pre ++ z ≡ x ++ (mid ++ (y ++ z))
spread pre x mid y z h =
    ap (λ l. l ++ z) h ∙ append_assoc x (mid ++ y) z ∙ ap (λ l. x ++ l) (append_assoc mid y z)

-- A round whose span is `p.middle`, then the rounds for the spans before it.
module _ (st : State) (e : Str) {a b : ℕ} {pre : Str} (p : Cut pre a b) where
  abbrev after_round : State
  after_round = (allocate_placeholder st e p.middle).1

  abbrev rendered : Str → Str
  rendered z = (allocate_placeholder st e p.middle).0 ++ (p.back ++ z)

  replace_spans-round :
      (rs : List Detection) (z : Str)
      → a < b
      → replace_spans st (pre ++ z) (detected e a b ∷ rs)
        ≡ replace_spans after_round (p.front ++ rendered z) rs
  unfolding replace_spans
  replace_spans-round rs z h =
      ap (λ (q : Str × State). replace_spans q.1 q.0 rs)
        (ap (λ t. replace_span st t (detected e a b)) (spread pre p.front p.middle p.back z p.whole)
          ∙ replace_span-cut st e a b p.front p.middle (p.back ++ z) h p.front_length
              p.middle_length)

  rendered-Restores :
      (z w : Str)
      → IsTracked st
      → All NotClose e
      → All NotOpen p.back
      → Restores st.mappings z w
      → Restores after_round.mappings (rendered z) (p.middle ++ (p.back ++ w))
  rendered-Restores z w t c n r =
      let al = allocated-Allocates st e p.middle t c in
      placed _ p.middle (allocated-IsTag st e p.middle t c) al.holds (
        Restores-literal after_round.mappings p.back n
          (Restores-keeps st.mappings after_round.mappings al.keeps r))

  Rewrites-round :
      (rs : List Detection) (z w : Str)
      → IsTracked st
      → All NotClose e
      → a < b
      → Rewrites after_round
          (p.front ++ (p.middle ++ (p.back ++ w)))
          (replace_spans after_round (p.front ++ rendered z) rs).0
          (replace_spans after_round (p.front ++ rendered z) rs).1
      → Rewrites st
          (pre ++ w)
          (replace_spans st (pre ++ z) (detected e a b ∷ rs)).0
          (replace_spans st (pre ++ z) (detected e a b ∷ rs)).1
  Rewrites-round rs z w t c h r =
      let al = allocated-Allocates st e p.middle t c in
      let written : Str × State = replace_spans after_round (p.front ++ rendered z) rs in
      subst (λ (q : Str × State). Rewrites st (pre ++ w) q.0 q.1) (sym (replace_spans-round rs z h))
        (record {
          tracked = r.tracked;
          keeps = λ q x i. r.keeps q x (al.keeps q x i);
          restores =
              subst (λ t. Restores written.1.mappings written.0 t)
                (sym (spread pre p.front p.middle p.back w p.whole)) r.restores;
        })

pub replace_spans-Rewrites :
    (k : ℕ) (rs : List Detection)
    → Descends k rs
    → All Closes rs
    → (st : State) (pre z w : Str) → IsTracked st
    → length pre ≡ k
    → All NotOpen pre
    → Restores st.mappings z w
    → Rewrites st (pre ++ w) (replace_spans st (pre ++ z) rs).0 (replace_spans st (pre ++ z) rs).1
unfolding replace_spans
replace_spans-Rewrites k [] none_left c st pre z w t l n r = record {
  tracked = t;
  keeps = λ q x e. e;
  restores = Restores-literal st.mappings pre n r;
}
replace_spans-Rewrites k (_ ∷ rs) (next e a b h m d) c st pre z w t l n r =
    let p = cut pre a b h (omega (arith, l)) in
    let (nx, ns) = All-split NotOpen p.front _ (subst (All NotOpen) p.whole n) in
    let (nm, ny) = All-split NotOpen p.middle p.back ns in
    Rewrites-round st e p rs z w t c.0 h (
      replace_spans-Rewrites a rs d c.1 (after_round st e p) p.front (rendered st e p z) _
        (allocated-IsTracked st e p.middle t c.0) p.front_length nx
        (rendered-Restores st e p z w t c.0 ny r))
