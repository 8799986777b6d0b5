-- ===== src/Processor/Delivery.antt =====
-- That `Execute` delivers: with nothing against it, the reply reaches the client.
use sheeld.Prelude.{
  ℕ, ◌≡◌, ◌≤◌, refl, sym, subst, true, false, List-cases, not, ◌&&◌, ◌==◌, length, nat_eq, inl, inr,
  String, [], ◌∷◌, Option, some, none, All,
}
use sheeld.Prelude.Outcome.{ok}
use sheeld.Guard.Engine.Unanimous.{Allows, passed-allowed}
use sheeld.Llm.{ChatRequest, ChatResponse, extract_input_text, extract_output_text}
use sheeld.Llm.Client.{response, chat_completion_at}
use sheeld.Llm.Client.Retry.{SucceedsAt, sent, response_iff}
use sheeld.Transform.{ChainResult}
use sheeld.Transform.Placeholders.{State, fresh}
use sheeld.BackendConfig.{ResolvedSource, lookup_source}
use sheeld.Processor.{
  Processor, ProxyResult, Execution, Approved, Trace, no_trace, flow, execute, pass,
  transform_input, guard_input, call_llm, transform_output, guard_output, input_meta, output_meta,
  input_eval, output_eval,
}
use sheeld.Processor.Ending.{input_decision, output_decision}

-- The run returns `resp` with the status "pass".
abbrev pub Delivers : Execution → ChatResponse → Type 0
Delivers x resp =
    (r : ProxyResult) × (x.outcome ≡ ok r) × (r.status ≡ "pass") × (r.llm_response ≡ some resp)

-- The request that is sent for `req`.
abbrev pub upstream_request : ResolvedSource → ChatRequest → ChatRequest
upstream_request s req = record req { model = s.llm_model }

module _ (p : Processor) (request_id : String) (org_id : ℕ) (s : ResolvedSource) where
  guard_output-Delivers :
      (a : Approved) (resp : ChatResponse) (t : Trace)
      → (output_decision s resp).passed ≡ true
      → Delivers (guard_output p request_id org_id s a none resp t) resp
  unfolding guard_output pass
  guard_output-Delivers a resp t d = elim (List-cases s.output_guards) [
    | inl e ↦ rw e (_, refl, refl, refl)
    | inr (g, gs, e) ↦ rw (e, rw e at d) (_, refl, refl, refl)
  ]

  call_llm-Delivers :
      (a : Approved) (st : State) (resp : ChatResponse) (t : Trace)
      → s.output_transformers ≡ []
      → (chat_completion_at p.llm_client p.network s.llm_base_url s.llm_api_key
          (upstream_request s a.request)).reply
        ≡ response resp
      → (output_decision s resp).passed ≡ true
      → Delivers (call_llm p request_id org_id s a st t) resp
  unfolding call_llm transform_output
  call_llm-Delivers a st resp t o l d =
      let skip : (not (length s.output_transformers == 0) && not (length resp.choices == 0))
          ≡ false =
        rw o refl in
      rw (l, skip, call_llm)
        (guard_output-Delivers (record a { request = upstream_request s a.request }) resp _ d)

  guard_input-Delivers :
      (req : ChatRequest) (chain : Option ChainResult) (st : State) (resp : ChatResponse)
      (t : Trace)
      → s.output_transformers ≡ []
      → (input_decision s req).passed ≡ true
      → (chat_completion_at p.llm_client p.network s.llm_base_url s.llm_api_key
          (upstream_request s req)).reply
        ≡ response resp
      → (output_decision s resp).passed ≡ true
      → Delivers (guard_input p request_id org_id s req chain st t) resp
  unfolding guard_input
  guard_input-Delivers req chain st resp t o i l d =
      let a : Approved = record { request = req; guard_results = []; transforms = chain } in
      elim (List-cases s.input_guards) [
        | inl e ↦
            let opened : guard_input p request_id org_id s req chain st t
                ≡ call_llm p request_id org_id s a st t =
              rw (e, guard_input) refl in
            subst (λ x. Delivers x resp) (sym opened) (call_llm-Delivers a st resp t o l d)
        | inr (g, gs, e) ↦
            let a' : Approved = record a { guard_results = ("input", input_decision s req) ∷ [] } in
            let opened : guard_input p request_id org_id s req chain st t
                ≡ call_llm p request_id org_id s a' st t =
              rw (e, rw e at i, guard_input) refl in
            subst (λ x. Delivers x resp) (sym opened) (call_llm-Delivers a' st resp t o l d)
      ]

-- Nothing stands in the way of a request to this source: it is enabled, it has no transformers, both
-- criteria are "all", and each of its guards lets its text through.
pub record IsClear (s : ResolvedSource) (req : ChatRequest) (resp : ChatResponse) : Type 0 where
  pub enabled : s.enabled ≡ true
  pub no_input_chain : s.input_transformers ≡ []
  pub no_output_chain : s.output_transformers ≡ []
  pub input_criteria : s.input_pass_criteria ≡ "all"
  pub output_criteria : s.output_pass_criteria ≡ "all"
  pub input_allowed : All (Allows (some (input_meta s req)) (extract_input_text req)) s.input_guards
  pub output_allowed :
      All (Allows (some (output_meta s)) (extract_output_text resp)) s.output_guards

-- A source delivers, when it is enabled and has no transformers and its criteria are "all": if every
-- input guard lets the request's text through, an attempt that the client may still make succeeds with
-- `resp` after attempts that it goes on from, and every output guard lets the text of `resp` through,
-- then `Execute` returns `resp` with the status "pass". A guard lets a text through when its validator
-- passes it, when it is in shadow, or when it errs and is fail-open.
pub approved_reply_delivered :
    (p : Processor) (request_id : String) (org_id : ℕ) (route : String) (req : ChatRequest)
    (s : ResolvedSource) (resp : ChatResponse) (k : ℕ)
    → lookup_source p.store org_id route ≡ some s
    → IsClear s req resp
    → k ≤ p.llm_client.max_retries
    → SucceedsAt p.network
        (sent p.llm_client s.llm_base_url s.llm_api_key (upstream_request s req))
        0
        k
        resp
    → Delivers (execute p request_id org_id route req) resp
unfolding execute flow transform_input
approved_reply_delivered p request_id org_id route req s resp k f c m w =
    let skip : not (length s.input_transformers == 0) ≡ false = rw c.no_input_chain refl in
    let opened : flow p request_id org_id route req
        ≡ guard_input p request_id org_id s req none fresh no_trace =
      rw (f, c.enabled, skip, flow, transform_input) refl in
    let received =
      (response_iff p.llm_client p.network s.llm_base_url s.llm_api_key (upstream_request s req)
          resp).1
        (k, m, w) in
    subst (λ x. Delivers x resp) (sym opened)
      (guard_input-Delivers p request_id org_id s req none fresh resp no_trace c.no_output_chain
        (passed-allowed s.input_guards (some (input_meta s req)) (extract_input_text req)
          (input_eval s) c.input_criteria c.input_allowed)
        received
        (passed-allowed s.output_guards (some (output_meta s)) (extract_output_text resp)
          (output_eval s) c.output_criteria c.output_allowed))
