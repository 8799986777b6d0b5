-- ===== src/Transform.antt =====
-- internal/shared/transform/transform.go: transformers and the chain `ApplyAll`. A transformer may
-- also change the request's `State` (child Placeholders), which travels in Go's context. Durations are left
-- out.
pub mod Placeholders
pub mod Chain
pub mod Presidio
pub mod Deanonymize
mod Tests
use sheeld.Prelude.Outcome.{Outcome, ok, err}
use sheeld.Prelude.{
  ℕ, Bool, true, false, ◌==◌, bytes_eq, not, ◌&&◌, ◌||◌, if◌then◌else◌, String, Str, List, [], ◌∷◌,
  ◌++◌, Option, none, some,
}
use sheeld.Guard.{CallMeta}
use sheeld.Llm.{Message}
use sheeld.Transform.Placeholders.{State}

-- A transformer that wraps no other. What it reaches over the network is the function `apply`.
pub record Rewriter : Type 0 where
  pub name : String
  pub kind : String
  pub apply : Option CallMeta → State → List Message → Outcome (List Message) × State

-- The `Transformer` interface; `fail_open` is `WithFailOpen`.
pub data Transformer : Type 0 where
  plain : Rewriter → Transformer
  fail_open : Transformer → Transformer

abbrev pub with_fail_open : Transformer → Transformer
with_fail_open t = fail_open t

unfoldable pub transformer_name : Transformer → String
transformer_name (plain r) = r.name
transformer_name (fail_open t) = transformer_name t

unfoldable pub transformer_type : Transformer → String
transformer_type (plain r) = r.kind
transformer_type (fail_open t) = transformer_type t

unfoldable pub transform :
    Transformer → Option CallMeta → State → List Message → Outcome (List Message) × State
transform (plain r) ctx st msgs = r.apply ctx st msgs
transform (fail_open t) ctx st msgs = transform t ctx st msgs

-- The type assertion `t.(FailOpenTransformer)` with `FailOpen()`.
abbrev pub is_fail_open : Transformer → Bool
is_fail_open (plain r) = false
is_fail_open (fail_open t) = true

pub record StepResult : Type 0 where
  pub name : String
  pub kind : String
  pub changed : Bool
  pub errored : Bool
  pub skipped : Bool
  pub message : String

pub record ChainResult : Type 0 where
  pub steps : List StepResult
  pub changed : Bool

unfoldable pub messages_equal : List Message → List Message → Bool
messages_equal [] [] = true
messages_equal [] (b ∷ bs) = false
messages_equal (a ∷ as') [] = false
messages_equal (a ∷ as') (b ∷ bs) =
    (a.role == b.role) && ((a.content == b.content) && messages_equal as' bs)

-- The variables of the loop of `ApplyAll`, and what it returns.
pub record Applied : Type 0 where
  pub outcome : Outcome (List Message)
  pub chain : ChainResult
  pub state : State

abbrev pub failure : Transformer → Bool → String → StepResult
failure t skipped e = record {
  name = transformer_name t;
  kind = transformer_type t;
  changed = false;
  errored = true;
  skipped = skipped;
  message = e;
}

abbrev pub success : Transformer → Bool → StepResult
success t changed = record {
  name = transformer_name t;
  kind = transformer_type t;
  changed = changed;
  errored = false;
  skipped = false;
  message = "";
}

pub add_step : ChainResult → StepResult → ChainResult
add_step c s = record { steps = c.steps ++ s ∷ []; changed = c.changed || s.changed }

-- What one round does with the outcome of its transformer: `go` is the rest of the loop.
step_on :
    Transformer
    → List Message
    → ChainResult
    → (List Message → ChainResult → Applied)
    → State
    → Outcome (List Message)
    → Applied
unfolding add_step
step_on t current c go st (ok next) =
    go next (add_step c (success t (not (messages_equal current next))))
step_on t current c go st (err e) =
    if is_fail_open t
    then go current (add_step c (failure t true e))
    else record { outcome = err e; chain = add_step c (failure t false e); state = st }

pub apply_from : List Transformer → Option CallMeta → State → List Message → ChainResult → Applied
unfolding step_on
apply_from [] ctx st current c = record { outcome = ok current; chain = c; state = st }
apply_from (t ∷ ts) ctx st current c =
    let (o, st') = transform t ctx st current in
    step_on t current c (λ msgs c'. apply_from ts ctx st' msgs c') st' o

unfoldable pub apply_all : List Transformer → Option CallMeta → State → List Message → Applied
unfolding apply_from
apply_all ts ctx st msgs = apply_from ts ctx st msgs (record { steps = []; changed = false })
