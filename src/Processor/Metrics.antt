-- ===== src/Processor/Metrics.antt =====
-- The metric that `Execute` counts: one for each run, for the outcome that it had.
use sheeld.Prelude.{
  ℕ, ◌≡◌, ◌⊎◌, refl, ap, sym, ◌∙◌, subst, false, Bool-cases, inl, inr, String, List, [], ◌∷◌, ◌++◌,
  Option, some, none, string_eq,
}
use sheeld.Prelude.Outcome.{Outcome, ok, err}
use sheeld.Guard.Engine.{EngineResult}
use sheeld.Llm.{ChatRequest, ChatResponse}
use sheeld.Transform.{ChainResult}
use sheeld.BackendConfig.{ResolvedSource}
use sheeld.Processor.{
  Processor, ProxyResult, Execution, Approved, Trace, no_trace, flow, execute, outcome_labels, pass,
  reject_input, reject_output,
}
use sheeld.Processor.Ending.{
  Ending, failed_before, rejected_input, failed_after, rejected_output, passed, called,
}
use sheeld.Processor.Approval.{Flow, refused, served, flow-Flow}

module _ (p : Processor) (request_id : String) (org_id : ℕ) (s : ResolvedSource) where
  metrics-pass :
      (a : Approved) (out : Option ChainResult) (resp : ChatResponse)
      (results : List (String × EngineResult)) (t : Trace)
      → (pass p request_id org_id s a out resp results t).trace.metrics ≡ t.metrics
  unfolding pass
  metrics-pass a out resp results t = elim (Bool-cases p.has_audit) [
    | inl h ↦ rw h refl
    | inr h ↦ rw h refl
  ]

  metrics-reject_input :
      (a : Approved) (res : EngineResult) (t : Trace)
      → (reject_input p request_id org_id s a res t).trace.metrics ≡ t.metrics
  unfolding reject_input
  metrics-reject_input a res t = elim (Bool-cases p.has_audit) [
    | inl h ↦ elim (Bool-cases p.has_alerts) [ inl k ↦ rw (h, k) refl | inr k ↦ rw (h, k) refl ]
    | inr h ↦ elim (Bool-cases p.has_alerts) [ inl k ↦ rw (h, k) refl | inr k ↦ rw (h, k) refl ]
  ]

  metrics-reject_output :
      (a : Approved) (out : Option ChainResult) (resp : ChatResponse) (res : EngineResult)
      (t : Trace)
      → (reject_output p request_id org_id s a out resp res t).trace.metrics ≡ t.metrics
  unfolding reject_output
  metrics-reject_output a out resp res t = elim (Bool-cases p.has_audit) [
    | inl h ↦ elim (Bool-cases p.has_alerts) [ inl k ↦ rw (h, k) refl | inr k ↦ rw (h, k) refl ]
    | inr h ↦ elim (Bool-cases p.has_alerts) [ inl k ↦ rw (h, k) refl | inr k ↦ rw (h, k) refl ]
  ]

  metrics-Ending :
      (req : ChatRequest) (x : Execution)
      → Ending p request_id org_id s req x
      → x.trace.metrics ≡ []
  metrics-Ending req x (failed_before e h) = ap (λ y. y.trace.metrics) h
  metrics-Ending req x (failed_after e q c h) = ap (λ y. y.trace.metrics) h
  metrics-Ending req x (rejected_input a res d h) =
      ap (λ y. y.trace.metrics) h ∙ metrics-reject_input a res no_trace
  metrics-Ending req x (rejected_output a out resp res c e d h) =
      ap (λ y. y.trace.metrics) h ∙ metrics-reject_output a out resp res (called s a.request)
  metrics-Ending req x (passed a out resp results c w d h) =
      ap (λ y. y.trace.metrics) h ∙ metrics-pass a out resp results (called s a.request)

metrics-Flow :
    (p : Processor) (request_id : String) (org_id : ℕ) (route : String) (req : ChatRequest)
    (x : Execution)
    → Flow p request_id org_id route req x
    → x.trace.metrics ≡ []
metrics-Flow p request_id org_id route req x (refused e h) = ap (λ y. y.trace.metrics) h
metrics-Flow p request_id org_id route req x (served s f b n) =
    metrics-Ending p request_id org_id s req x n

-- The labels that an outcome is to be counted under, by what the outcome is: an error; a result with a
-- response; or a result without one, whose last recorded decision refuses, in the phase of the label.
pub data Counted : Outcome ProxyResult → String × String → Type 0 where
  errs : (e : String) → Counted (err e) ("error", "")
  passes :
      (r : ProxyResult) (resp : ChatResponse)
      → r.llm_response ≡ some resp
      → Counted (ok r) ("pass", "")
  rejects :
      (r : ProxyResult) (phase : String) (before : List (String × EngineResult))
      (res : EngineResult)
      → r.llm_response ≡ none
      → (phase ≡ "input") ⊎ (phase ≡ "output")
      → r.guard_results ≡ before ++ (phase, res) ∷ []
      → res.passed ≡ false
      → Counted (ok r) ("rejected", phase)

abbrev IsCounted : Execution → Type 0
IsCounted x = Counted x.outcome (outcome_labels x.outcome)

Ending-IsCounted :
    (p : Processor) (request_id : String) (org_id : ℕ) (s : ResolvedSource) (req : ChatRequest)
    (x : Execution)
    → Ending p request_id org_id s req x
    → IsCounted x
unfolding pass reject_input reject_output
Ending-IsCounted p request_id org_id s req x (failed_before e h) = subst IsCounted (sym h) (errs e)
Ending-IsCounted p request_id org_id s req x (failed_after e q c h) =
    subst IsCounted (sym h) (errs e)
Ending-IsCounted p request_id org_id s req x (rejected_input a res d h) =
    subst IsCounted (sym h) (rejects _ "input" [] res refl (inl refl) refl d)
Ending-IsCounted p request_id org_id s req x (rejected_output a out resp res c e d h) =
    subst IsCounted (sym h) (rejects _ "output" a.guard_results res refl (inr refl) refl d)
Ending-IsCounted p request_id org_id s req x (passed a out resp results c w d h) =
    subst IsCounted (sym h) (passes _ resp refl)

Flow-IsCounted :
    (p : Processor) (request_id : String) (org_id : ℕ) (route : String) (req : ChatRequest)
    (x : Execution)
    → Flow p request_id org_id route req x
    → IsCounted x
Flow-IsCounted p request_id org_id route req x (refused e h) = subst IsCounted (sym h) (errs e)
Flow-IsCounted p request_id org_id route req x (served s f b n) =
    Ending-IsCounted p request_id org_id s req x n

-- Each run of `Execute` counts exactly one outcome: an error as "error"; a result with a response as
-- "pass"; and a result without one as "rejected" in the phase, input or output, whose guards refused.
pub one_outcome_counted :
    (p : Processor) (request_id : String) (org_id : ℕ) (route : String) (req : ChatRequest)
    → (labels : String × String) × ((execute p request_id org_id route req).trace.metrics
        ≡ labels ∷ [])
      × Counted (execute p request_id org_id route req).outcome labels
unfolding execute
one_outcome_counted p request_id org_id route req =
    let x = flow p request_id org_id route req in
    let f = flow-Flow p request_id org_id route req in
    (
      outcome_labels x.outcome,
      ap (λ (m : List (String × String)). m ++ outcome_labels x.outcome ∷ [])
          (metrics-Flow p request_id org_id route req x f),
      Flow-IsCounted p request_id org_id route req x f,
    )
