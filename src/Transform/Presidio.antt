-- ===== src/Transform/Presidio.antt =====
-- internal/shared/transform/presidio.go: the transformer that replaces what Microsoft Presidio
-- detects. The replies of the two services, /analyze and /anonymize, are the functions `analyze` and
-- `anonymize`; the HTTP exchange and its JSON are left out. A Go string is its bytes, which the spans
-- index.
pub mod Order
pub mod Spans
pub mod RoundTrip
mod Tests
use sheeld.Prelude.Int.{ℤ, pos, negsuc, int_ltb}
use sheeld.Prelude.Outcome.{Outcome, ok, err}
use sheeld.Prelude.{
  ℕ, ◌-◌, Bool, true, false, leb, ltb, ◌&&◌, ◌==◌, bytes_eq, if◌then◌else◌, String, Str, str, List,
  [], ◌∷◌, ◌++◌, Option, none, some, length, take, drop,
}
use sheeld.Guard.{CallMeta}
use sheeld.Llm.{Message}
use sheeld.Transform.{Rewriter}
use sheeld.Transform.Placeholders.{State, allocate_placeholder}

-- `presidioAnalyzerResult`, without the score, which only /anonymize reads; `stop` is `End`.
pub record Detection : Type 0 where
  pub entity_type : Str
  pub start : ℤ
  pub stop : ℤ

-- The bounds of a span that the loop does not skip, in a text of `n` bytes.
unfoldable pub bounds : ℤ → ℤ → ℕ → Option (ℕ × ℕ)
bounds (pos a) (pos b) n = if leb b n && ltb a b then some (a, b) else none
bounds (pos a) (negsuc b) n = none
bounds (negsuc a) e n = none

-- One round of the loop of `anonymizeReversibly`.
unfoldable pub replace_span : State → Str → Detection → Str × State
unfolding bounds
replace_span st out r = elim (bounds r.start r.stop (length out)) [
  | none ↦ (out, st)
  | some (a, b) ↦
      let (p, st') = allocate_placeholder st r.entity_type (take (b - a) (drop a out)) in
      (take a out ++ (p ++ drop b out), st')
]

unfoldable pub replace_spans : State → Str → List Detection → Str × State
unfolding replace_span
replace_spans st out [] = (out, st)
replace_spans st out (r ∷ rs) = let (out', st') = replace_span st out r in replace_spans st' out' rs

unfoldable pub insert_span : Detection → List Detection → List Detection
insert_span r [] = r ∷ []
insert_span r (s ∷ ss) =
    let rest = insert_span r ss in if int_ltb s.start r.start then r ∷ s ∷ ss else s ∷ rest

-- The sort of the detections, the last start first. `sort.Slice` is not stable: where two starts are
-- equal this is one of the orders that it may give.
unfoldable pub sort_spans : List Detection → List Detection
unfolding insert_span
sort_spans [] = []
sort_spans (r ∷ rs) = insert_span r (sort_spans rs)

module _ (analyze : Str → Outcome (List Detection)) where
  -- The processor always gives the request a `State`.
  unfoldable pub anonymize_reversibly : State → Str → Outcome Str × State
  unfolding replace_spans sort_spans
  anonymize_reversibly st text = elim (analyze text) [
    | err e ↦ (err e, st)
    | ok [] ↦ (ok text, st)
    | ok (r ∷ rs) ↦ let (out, st') = replace_spans st text (sort_spans (r ∷ rs)) in (ok out, st')
  ]

  unfoldable pub redact : (Str → List Detection → Outcome Str) → Str → Outcome Str
  redact anonymize text = elim (analyze text) [
    | err e ↦ err e
    | ok [] ↦ ok text
    | ok (r ∷ rs) ↦ anonymize text (r ∷ rs)
  ]

-- What a round of the loop of `Transform` does with the new text: `rest` is what the later rounds give.
unfoldable pub prepend :
    Message → Outcome Str → Outcome (List Message) × State → State → Outcome (List Message) × State
prepend m (err e) rest st = (err e, st)
prepend m (ok text) (err e, st') st = (err e, st')
prepend m (ok text) (ok ms, st') st = (ok (record m { content = text } ∷ ms), st')

-- The loop of `Transform`, which runs `rewrite` on every text that is not empty.
module _ (rewrite : State → Str → Outcome Str × State) where
  unfoldable pub transform_contents : State → List Message → Outcome (List Message) × State
  unfolding prepend
  transform_contents st [] = (ok [], st)
  transform_contents st (m ∷ ms) =
      let (o, st') = if m.content == [] then (ok m.content, st) else rewrite st m.content in
      prepend m o (transform_contents st' ms) st'

-- `NewPresidioTransformer`, in each of its modes.
unfoldable pub presidio_transformer :
    String
    → Str
    → (Str → Outcome (List Detection))
    → (Str → List Detection → Outcome Str)
    → Rewriter
unfolding transform_contents anonymize_reversibly redact
presidio_transformer name mode analyze anonymize = record {
  name = name;
  kind = "presidio";
  apply = λ (ctx : Option CallMeta) st msgs.
      if mode == str "reversible"
      then transform_contents (anonymize_reversibly analyze) st msgs
      else transform_contents (λ st' text. (redact analyze anonymize text, st')) st msgs;
}
