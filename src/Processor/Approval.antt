-- ===== src/Processor/Approval.antt =====
-- What `Execute` lets through: LLM calls and responses that the source's guards approved.
use sheeld.Prelude.{
  ℕ, ◌≡◌, ◌⊎◌, inl, inr, refl, ap, sym, ◌∙◌, subst, true, false, Bool-cases, Option-cases, ◌==◌,
  string_eq, String, List, [], Option, some,
}
use sheeld.Prelude.Outcome.{ok, ok-injective}
use sheeld.Llm.{ChatRequest, ChatResponse}
use sheeld.Guard.Engine.{EngineResult}
use sheeld.Transform.{ChainResult}
use sheeld.BackendConfig.{ResolvedSource, lookup_source}
use sheeld.Processor.{
  Processor, ProxyResult, Execution, Approved, Trace, no_trace, fail, flow, execute, pass,
  reject_input, reject_output,
}
use sheeld.Processor.Ending.{
  Ending, failed_before, rejected_input, failed_after, rejected_output, passed, Cleared, Answers,
  called, output_decision, transform_input-Ending,
}

some_inj {ℓ} : {A : Type ℓ} (a b : A) → some a ≡ some b → a ≡ b
some_inj a b h = cc

not_rejected : (r : ProxyResult) → "rejected" ≡ r.status → (r.status == "rejected") ≡ false → ⊥
not_rejected r h n = cc (sym (subst (λ s. (s == "rejected") ≡ true) h refl) ∙ n)

calls-pass :
    (p : Processor) (request_id : String) (org_id : ℕ) (s : ResolvedSource) (a : Approved)
    (out : Option ChainResult) (resp : ChatResponse) (results : List (String × EngineResult))
    (t : Trace)
    → (pass p request_id org_id s a out resp results t).trace.calls ≡ t.calls
unfolding pass
calls-pass p request_id org_id s a out resp results t = elim (Bool-cases p.has_audit) [
  | inl h ↦ rw h refl
  | inr h ↦ rw h refl
]

calls-reject_input :
    (p : Processor) (request_id : String) (org_id : ℕ) (s : ResolvedSource) (a : Approved)
    (res : EngineResult) (t : Trace)
    → (reject_input p request_id org_id s a res t).trace.calls ≡ t.calls
unfolding reject_input
calls-reject_input p request_id org_id s a res t = elim (Bool-cases p.has_audit) [
  | inl h ↦ elim (Bool-cases p.has_alerts) [ inl k ↦ rw (h, k) refl | inr k ↦ rw (h, k) refl ]
  | inr h ↦ elim (Bool-cases p.has_alerts) [ inl k ↦ rw (h, k) refl | inr k ↦ rw (h, k) refl ]
]

calls-reject_output :
    (p : Processor) (request_id : String) (org_id : ℕ) (s : ResolvedSource) (a : Approved)
    (out : Option ChainResult) (resp : ChatResponse) (res : EngineResult) (t : Trace)
    → (reject_output p request_id org_id s a out resp res t).trace.calls ≡ t.calls
unfolding reject_output
calls-reject_output p request_id org_id s a out resp res t = elim (Bool-cases p.has_audit) [
  | inl h ↦ elim (Bool-cases p.has_alerts) [ inl k ↦ rw (h, k) refl | inr k ↦ rw (h, k) refl ]
  | inr h ↦ elim (Bool-cases p.has_alerts) [ inl k ↦ rw (h, k) refl | inr k ↦ rw (h, k) refl ]
]

module _ (p : Processor) (request_id : String) (org_id : ℕ) (route : String)
    (req : ChatRequest) where
  -- `Execute` refuses the source, or serves it to one of its endings.
  pub data Flow (x : Execution) : Type 0 where
    refused : (e : String) → x ≡ fail e no_trace → Flow x
    served :
        (s : ResolvedSource)
        → lookup_source p.store org_id route ≡ some s
        → s.enabled ≡ true
        → Ending p request_id org_id s req x
        → Flow x

  pub flow-Flow : Flow (flow p request_id org_id route req)
  unfolding flow
  flow-Flow = elim (Option-cases (lookup_source p.store org_id route)) [
    | inl e ↦ refused "source not found" (rw (e, flow) refl)
    | inr (s, e) ↦ elim (Bool-cases s.enabled) [
      | inl b ↦ rw (e, b, flow) (served s e b (transform_input-Ending p request_id org_id s req))
      | inr b ↦ refused "source is disabled" (rw (e, b, flow) refl)
    ]
  ]

  -- A response that leaves `Execute`, under the source that approved it.
  pub record Released (x : Execution) (r : ProxyResult) (resp : ChatResponse) : Type 0 where
    pub source : ResolvedSource
    pub found : lookup_source p.store org_id route ≡ some source
    pub enabled : source.enabled ≡ true
    pub approved : (output_decision source resp).passed ≡ true
    pub status : r.status ≡ "pass"
    pub sent : ChatRequest
    pub cleared : Cleared p request_id org_id source req sent
    pub calls : x.trace.calls ≡ (called source sent).calls
    pub answers : Answers p request_id org_id source req sent resp

  Flow-Released :
      (x : Execution) (r : ProxyResult) (resp : ChatResponse)
      → Flow x
      → x.outcome ≡ ok r
      → r.llm_response ≡ some resp
      → Released x r resp
  unfolding pass reject_input reject_output
  Flow-Released x r resp (refused e h) o l = absurd (cc (sym (ap (λ y. y.outcome) h) ∙ o))
  Flow-Released x r resp (served s f b (failed_before e h)) o l =
      absurd (cc (sym (ap (λ y. y.outcome) h) ∙ o))
  Flow-Released x r resp (served s f b (failed_after e q c h)) o l =
      absurd (cc (sym (ap (λ y. y.outcome) h) ∙ o))
  Flow-Released x r resp (served s f b (rejected_input a res d h)) o l =
      absurd (cc (ap (λ y. y.llm_response) (ok-injective (sym (ap (λ y. y.outcome) h) ∙ o)), l))
  Flow-Released x r resp (served s f b (rejected_output a out q res c e d h)) o l =
      absurd (cc (ap (λ y. y.llm_response) (ok-injective (sym (ap (λ y. y.outcome) h) ∙ o)), l))
  Flow-Released x r resp (served s f b (passed a out q results c w d h)) o l =
      let same = ok-injective (sym (ap (λ y. y.outcome) h) ∙ o) in
      let given : some q ≡ some resp = ap (λ y. y.llm_response) same ∙ l in
      let same_resp = some_inj q resp given in
      record {
        source = s;
        found = f;
        enabled = b;
        approved = subst (λ y. (output_decision s y).passed ≡ true) same_resp d;
        status = sym (ap (λ y. y.status) same);
        sent = a.request;
        cleared = c;
        calls =
            ap (λ y. y.trace.calls) h
            ∙ calls-pass p request_id org_id s a out q results (called s a.request);
        answers = subst (Answers p request_id org_id s req a.request) same_resp w;
      }

  -- The calls made: none, or the one call for a request that the source cleared.
  pub record Called (x : Execution) : Type 0 where
    pub source : ResolvedSource
    pub found : lookup_source p.store org_id route ≡ some source
    pub enabled : source.enabled ≡ true
    pub sent : ChatRequest
    pub cleared : Cleared p request_id org_id source req sent
    pub calls : x.trace.calls ≡ (called source sent).calls

  Flow-Called : (x : Execution) → Flow x → (x.trace.calls ≡ []) ⊎ Called x
  Flow-Called x (refused e h) = inl (ap (λ y. y.trace.calls) h)
  Flow-Called x (served s f b (failed_before e h)) = inl (ap (λ y. y.trace.calls) h)
  Flow-Called x (served s f b (failed_after e q c h)) = inr (record {
    source = s;
    found = f;
    enabled = b;
    sent = q;
    cleared = c;
    calls = ap (λ y. y.trace.calls) h;
  })
  Flow-Called x (served s f b (rejected_input a res d h)) =
      inl (ap (λ y. y.trace.calls) h ∙ calls-reject_input p request_id org_id s a res no_trace)
  Flow-Called x (served s f b (rejected_output a out q res c e d h)) = inr (record {
    source = s;
    found = f;
    enabled = b;
    sent = a.request;
    cleared = c;
    calls =
        ap (λ y. y.trace.calls) h
        ∙ calls-reject_output p request_id org_id s a out q res (called s a.request);
  })
  Flow-Called x (served s f b (passed a out q results c w d h)) = inr (record {
    source = s;
    found = f;
    enabled = b;
    sent = a.request;
    cleared = c;
    calls =
        ap (λ y. y.trace.calls) h
        ∙ calls-pass p request_id org_id s a out q results (called s a.request);
  })

response-Flow :
    (p : Processor) (request_id : String) (org_id : ℕ) (route : String) (req : ChatRequest)
    (r : ProxyResult) (x : Execution)
    → Flow p request_id org_id route req x
    → x.outcome ≡ ok r
    → (r.status == "rejected") ≡ false
    → (resp : ChatResponse) × (r.llm_response ≡ some resp)
unfolding pass reject_input reject_output
response-Flow p request_id org_id route req r x (refused e h) o n =
    absurd (cc (sym (ap (λ y. y.outcome) h) ∙ o))
response-Flow p request_id org_id route req r x (served s f b (failed_before e h)) o n =
    absurd (cc (sym (ap (λ y. y.outcome) h) ∙ o))
response-Flow p request_id org_id route req r x (served s f b (failed_after e q c h)) o n =
    absurd (cc (sym (ap (λ y. y.outcome) h) ∙ o))
response-Flow p request_id org_id route req r x (served s f b (rejected_input a res d h)) o n =
    absurd (not_rejected r (ap (λ y. y.status) (ok-injective (sym (ap (λ y. y.outcome) h) ∙ o))) n)
response-Flow p request_id org_id route req r x (served s f b (rejected_output a out q res c e d h))
      o n =
    absurd (not_rejected r (ap (λ y. y.status) (ok-injective (sym (ap (λ y. y.outcome) h) ∙ o))) n)
response-Flow p request_id org_id route req r x (served s f b (passed a out q results c w d h)) o
      n =
    (q, sym (ap (λ y. y.llm_response) (ok-injective (sym (ap (λ y. y.outcome) h) ∙ o))))

-- A response that `Execute` returns was approved by the output guards of the organization's own
-- enabled source and comes with the status "pass". One request was sent, which the input guards
-- approved, and the response is the upstream's answer to that request, as it was received or with its
-- choices' messages replaced by what the output transformers made of them and nothing else changed.
pub response_approved :
    (p : Processor) (request_id : String) (org_id : ℕ) (route : String) (req : ChatRequest)
    (r : ProxyResult) (resp : ChatResponse)
    → (execute p request_id org_id route req).outcome ≡ ok r
    → r.llm_response ≡ some resp
    → Released p request_id org_id route req (execute p request_id org_id route req) r resp
unfolding execute
response_approved p request_id org_id route req r resp o l =
    let x = flow p request_id org_id route req in
    let q =
      Flow-Released p request_id org_id route req x r resp (flow-Flow p request_id org_id route req)
        o l in
    record {
      source = q.source;
      found = q.found;
      enabled = q.enabled;
      approved = q.approved;
      status = q.status;
      sent = q.sent;
      cleared = q.cleared;
      calls = q.calls;
      answers = q.answers;
    }

-- A run of `Execute` calls no LLM, or it makes one call: to the enabled source's upstream with its
-- key and its model, for messages that the input transformers prepared and the input guards approved.
pub calls_cleared :
    (p : Processor) (request_id : String) (org_id : ℕ) (route : String) (req : ChatRequest)
    → ((execute p request_id org_id route req).trace.calls ≡ [])
      ⊎ Called p request_id org_id route req (execute p request_id org_id route req)
unfolding execute
calls_cleared p request_id org_id route req =
    elim (Flow-Called p request_id org_id route req (flow p request_id org_id route req)
      (flow-Flow p request_id org_id route req)) [
        | inl n ↦ inl n
        | inr q ↦ inr (record {
          source = q.source;
          found = q.found;
          enabled = q.enabled;
          sent = q.sent;
          cleared = q.cleared;
          calls = q.calls;
        })
      ]

-- A result that is not a rejection has a response.
pub response_given :
    (p : Processor) (request_id : String) (org_id : ℕ) (route : String) (req : ChatRequest)
    (r : ProxyResult)
    → (execute p request_id org_id route req).outcome ≡ ok r
    → (r.status == "rejected") ≡ false
    → (resp : ChatResponse) × (r.llm_response ≡ some resp)
unfolding execute
response_given p request_id org_id route req r =
    response-Flow p request_id org_id route req r (flow p request_id org_id route req)
      (flow-Flow p request_id org_id route req)
