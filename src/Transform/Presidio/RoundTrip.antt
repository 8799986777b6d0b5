-- ===== src/Transform/Presidio/RoundTrip.antt =====
-- Reversible anonymization of a request's messages, and the deanonymizer that reads the state which
-- it leaves.
use sheeld.Prelude.Outcome.{Outcome, ok, err, Outcome-cases}
use sheeld.Prelude.{
  ◌≡◌, ap, ◌∙◌, sym, subst, refl, inl, inr, ◌==◌, bytes_eq, nat_eq, String, Str, List, [], ◌∷◌, map,
  List-cases, some, All, arith, Bool-cases, length, lookup,
}
use mathlib.Core.List.{append-nil}
use sheeld.Llm.{Message}
use sheeld.Transform.Placeholders.{State, fresh}
use sheeld.Transform.Placeholders.Allocation.{fresh-IsConsistent}
use sheeld.Transform.Deanonymize.{deanonymize, restore_content, replace_all}
use sheeld.Transform.Deanonymize.Restores.{
  NotOpen, HasTag, Restores, done, Restores-keeps, Restores-literal, Restores-sound,
  replace_from-nil,
}
use sheeld.Transform.Presidio.{
  Detection, replace_spans, sort_spans, anonymize_reversibly, prepend, transform_contents,
}
use sheeld.Transform.Presidio.Order.{AreDisjoint, sort_spans-Descends, sort_spans-All}
use sheeld.Transform.Presidio.Spans.{IsTracked, Rewrites, Closes, replace_spans-Rewrites}

pub fresh-IsTracked : IsTracked fresh
fresh-IsTracked = record { consistent = fresh-IsConsistent; tags = tt }

abbrev pub Keeps : State → State → Type 0
Keeps st st' = (q x : Str) → lookup q st.mappings ≡ some x → lookup q st'.mappings ≡ some x

-- Pointwise, and nothing but the contents differs.
abbrev Restored : List (Str × Str) → List Message → List Message → Type 0
Restored ps [] [] = Unit
Restored ps [] (m ∷ ms) = ⊥
Restored ps (o ∷ os) [] = ⊥
Restored ps (o ∷ os) (m ∷ ms) =
    (record o { content = m.content } ≡ m) × (Restores ps o.content m.content × Restored ps os ms)

-- What rewriting one text owes, by its outcome; an error may leave allocations behind.
abbrev Steps : State → Str → Outcome Str × State → Type 0
Steps st text (ok out, st') = Rewrites st text out st'
Steps st text (err e, st') = IsTracked st' × Keeps st st'

abbrev Delivers : State → List Message → Outcome (List Message) × State → Type 0
Delivers st ms (ok out, st') = IsTracked st' × (Keeps st st' × Restored st'.mappings out ms)
Delivers st ms (err e, st') = IsTracked st' × Keeps st st'

-- The analyzer's detections in `text` are spans of it that do not overlap, and no byte of the text or of
-- an entity type can be taken for an end of a placeholder.
abbrev pub IsAnonymizable : (Str → Outcome (List Detection)) → Str → Type 0
IsAnonymizable analyze text =
    All NotOpen text
    × ((rs : List Detection) → analyze text ≡ ok rs → AreDisjoint (length text) rs × All Closes rs)

Restores-text : (ps : List (Str × Str)) (s : Str) → All NotOpen s → Restores ps s s
Restores-text ps s h = subst (λ t. Restores ps t t) (append-nil s) (Restores-literal ps s h done)

unchanged-Rewrites : (st : State) (s : Str) → IsTracked st → All NotOpen s → Rewrites st s s st
unchanged-Rewrites st s t h = record {
  tracked = t;
  keeps = λ q x e. e;
  restores = Restores-text st.mappings s h;
}

module _ (analyze : Str → Outcome (List Detection)) (st : State) (text : Str) where
  analyzed :
      (rs : List Detection)
      → analyze text ≡ ok rs
      → anonymize_reversibly analyze st text
        ≡ (ok (replace_spans st text (sort_spans rs)).0, (replace_spans st text (sort_spans rs)).1)
  unfolding anonymize_reversibly
  analyzed [] e = rw (e, anonymize_reversibly) refl
  analyzed (r ∷ rs) e = rw (e, anonymize_reversibly) refl

  failed : (m : String) → analyze text ≡ err m → anonymize_reversibly analyze st text ≡ (err m, st)
  unfolding anonymize_reversibly
  failed m e = rw (e, anonymize_reversibly) refl

  anonymize_reversibly-Steps :
      IsTracked st
      → IsAnonymizable analyze text
      → Steps st text (anonymize_reversibly analyze st text)
  anonymize_reversibly-Steps t (lit, sp) = elim (Outcome-cases (analyze text)) [
    | inl (m, e) ↦ subst (Steps st text) (sym (failed m e)) (t, λ q x i. i)
    | inr (rs, e) ↦
        let (apart, closes) = sp rs e in
        let r =
          replace_spans-Rewrites (length text) (sort_spans rs)
            (sort_spans-Descends (length text) rs apart) (sort_spans-All Closes rs closes) st text
            [] [] t refl lit done in
        subst (Steps st text) (sym (analyzed rs e)) (
          subst
            (λ s.
              Rewrites st s (replace_spans st s (sort_spans rs)).0
                (replace_spans st s (sort_spans rs)).1)
            (append-nil text) r)
  ]

prepend-Delivers :
    (st : State) (m : Message) (ms : List Message) (p : Outcome Str × State)
    (rest : Outcome (List Message) × State)
    → Steps st m.content p
    → Delivers p.1 ms rest
    → Delivers st (m ∷ ms) (prepend m p.0 rest p.1)
unfolding prepend
prepend-Delivers st m ms (err e, st1) rest s d = s
prepend-Delivers st m ms (ok c, st1) (err e, st2) s d = (d.0, λ q x i. d.1 q x (s.keeps q x i))
prepend-Delivers st m ms (ok c, st1) (ok os, st2) s (t, (k, r)) = (
  t,
  (
    λ q x i. k q x (s.keeps q x i),
    (refl, (Restores-keeps st1.mappings st2.mappings k s.restores, r)),
  ),
)

Steps-IsTracked :
    (st : State) (text : Str) (p : Outcome Str × State) → Steps st text p → IsTracked p.1
Steps-IsTracked st text (ok c, st1) s = s.tracked
Steps-IsTracked st text (err e, st1) s = s.0

transform_contents-Delivers :
    (analyze : Str → Outcome (List Detection)) (ms : List Message) (st : State)
    → IsTracked st
    → All (λ (m : Message). IsAnonymizable analyze m.content) ms
    → Delivers st ms (transform_contents (anonymize_reversibly analyze) st ms)
unfolding transform_contents
transform_contents-Delivers analyze [] st t h = (t, (λ q x i. i, tt))
transform_contents-Delivers analyze (m ∷ ms) st t h = elim (Bool-cases (m.content == [])) [
  | inl e ↦ rw e (
      prepend-Delivers st m ms (ok m.content, st) _ (unchanged-Rewrites st m.content t h.0.0)
        (transform_contents-Delivers analyze ms st t h.1))
  | inr e ↦
      let s = anonymize_reversibly-Steps analyze st m.content t h.0 in
      rw e (
        prepend-Delivers st m ms (anonymize_reversibly analyze st m.content) _ s (
          transform_contents-Delivers analyze ms (anonymize_reversibly analyze st m.content).1
            (Steps-IsTracked st m.content (anonymize_reversibly analyze st m.content) s) h.1))
]

delivered :
    (st : State) (ms : List Message) (p : Outcome (List Message) × State)
    → Delivers st ms p
    → IsTracked p.1 × Keeps st p.1
delivered st ms (ok os, st') (t, (k, r)) = (t, k)
delivered st ms (err e, st') d = d

module _ (ps : List (Str × Str)) (t : All HasTag ps) where
  opened :
      (o : Message) (text : Str)
      → Restores ps o.content text
      → restore_content ps o ≡ record o { content = text }
  unfolding restore_content replace_all
  opened o text r = ap (λ c. record o { content = c }) (Restores-sound ps t r)

  map-Restored : (os ms : List Message) → Restored ps os ms → map (restore_content ps) os ≡ ms
  map-Restored [] [] r = refl
  map-Restored [] (m ∷ ms) r = elim r [ ]
  map-Restored (o ∷ os) [] r = elim r [ ]
  map-Restored (o ∷ os) (m ∷ ms) (e, (r, rest)) =
      ap (λ x. x ∷ map (restore_content ps) os) (opened o m.content r)
      ∙ ap (λ x. x ∷ map (restore_content ps) os) e
      ∙ ap (λ l. m ∷ l) (map-Restored os ms rest)

unrestored : (o : Message) → restore_content [] o ≡ o
unfolding restore_content replace_all
unrestored o = ap (λ c. record o { content = c }) (replace_from-nil o.content)

restore_content-nil : (os : List Message) → map (restore_content []) os ≡ os
restore_content-nil [] = refl
restore_content-nil (o ∷ os) =
    ap (λ x. x ∷ map (restore_content []) os) (unrestored o)
    ∙ ap (λ l. o ∷ l) (restore_content-nil os)

deanonymize-map :
    (st : State) (os : List Message) → deanonymize st os ≡ map (restore_content st.mappings) os
unfolding deanonymize
deanonymize-map st os = elim (List-cases st.mappings) [
  | inl e ↦ rw e (sym (restore_content-nil os))
  | inr (x, rest, e) ↦ rw e (ground arith)
]

-- Presidio's reversible mode loses nothing: from a store that only it has written to, and for messages
-- whose contents the analyzer cuts into spans that do not overlap and whose texts and entity types hold
-- no `<` and no `>` respectively, deanonymizing what it returns, with the state that it leaves, gives the
-- messages back.
pub deanonymize_anonymized :
    (analyze : Str → Outcome (List Detection)) (st st' : State) (msgs out : List Message)
    → IsTracked st
    → All (λ (m : Message). IsAnonymizable analyze m.content) msgs
    → transform_contents (anonymize_reversibly analyze) st msgs ≡ (ok out, st')
    → deanonymize st' out ≡ msgs
deanonymize_anonymized analyze st st' msgs out t h e =
    let (t', (k, r)) =
      subst (Delivers st msgs) e (transform_contents-Delivers analyze msgs st t h) in
    deanonymize-map st' out ∙ map-Restored st'.mappings t'.tags out msgs r

-- Whatever the outcome of reversible anonymization, an error on a later message included, the store it
-- leaves is still one that only anonymizing has written to, and no mapping of a placeholder that was
-- already in it has changed.
pub transform_contents_grows :
    (analyze : Str → Outcome (List Detection)) (st : State) (msgs : List Message)
    → IsTracked st
    → All (λ (m : Message). IsAnonymizable analyze m.content) msgs
    → IsTracked (transform_contents (anonymize_reversibly analyze) st msgs).1
      × Keeps st (transform_contents (anonymize_reversibly analyze) st msgs).1
transform_contents_grows analyze st msgs t h =
    delivered st msgs (transform_contents (anonymize_reversibly analyze) st msgs)
      (transform_contents-Delivers analyze msgs st t h)

-- Whatever the model writes back: a text put together from bytes other than `<` and from placeholders
-- that the store maps comes out with exactly these replaced by their originals.
pub deanonymize_reply :
    (st : State) (m : Message) (plain : Str)
    → IsTracked st
    → Restores st.mappings m.content plain
    → deanonymize st (m ∷ []) ≡ record m { content = plain } ∷ []
deanonymize_reply st m plain t r =
    deanonymize-map st (m ∷ [])
    ∙ map-Restored st.mappings t.tags (m ∷ []) (record m { content = plain } ∷ []) (refl, (r, tt))
