-- ===== src/Processor/Ending.antt =====
-- How `Execute` ends: each exit of the function with what is known there.
use sheeld.Prelude.{
  ℕ, ◌≡◌, ◌⊎◌, inl, inr, refl, sym, subst, arith, true, false, not, ◌&&◌, ◌==◌, nat_eq, Bool-cases,
  beq-eq, List-cases, String, Str, List, [], ◌∷◌, ◌++◌, Option, none, some, length, map,
}
use sheeld.Prelude.Outcome.{Outcome, ok, err}
use sheeld.Guard.{CallMeta}
use sheeld.Guard.Engine.{EngineResult, EvalConfig}
use sheeld.Guard.Engine
use sheeld.Llm.{ChatRequest, ChatResponse, extract_input_text, extract_output_text}
use sheeld.Llm.Client.{Reply, response, failed, Failure, chat_completion_at}
use sheeld.Transform.{ChainResult, apply_all}
use sheeld.Transform.Placeholders.{State, fresh}
use sheeld.BackendConfig.{ResolvedSource}
use sheeld.Processor.Answer.{left_state, Rewritten, as_received, transformed, put_messages-Reworded}
use sheeld.Processor.{
  Processor, Execution, Trace, Approved, no_trace, fail, input_eval, output_eval, input_meta,
  output_meta, transformer_meta, message_of, pass, reject_output, guard_output, put_transformed,
  transform_output, call_llm, reject_input, guard_input, put_input, transform_input, put_messages,
}

-- The decision of the source's input guards on a request; of its output guards on a response.
abbrev pub input_decision : ResolvedSource → ChatRequest → EngineResult
input_decision s req =
    Engine.run s.input_guards (some (input_meta s req)) (extract_input_text req) (input_eval s)

abbrev pub output_decision : ResolvedSource → ChatResponse → EngineResult
output_decision s resp =
    Engine.run s.output_guards (some (output_meta s)) (extract_output_text resp) (output_eval s)

-- The request's messages are the client's, or what the source's input transformers made of them.
abbrev pub Prepared : ResolvedSource → ChatRequest → ChatRequest → Type 0
Prepared s req sent =
    ((s.input_transformers ≡ []) × (sent.messages ≡ req.messages))
    ⊎ ((apply_all s.input_transformers (some (transformer_meta "input" s)) fresh
          req.messages).outcome
        ≡ ok sent.messages)

-- The trace after the one LLM call.
abbrev pub called : ResolvedSource → ChatRequest → Trace
called s req = record no_trace {
  calls = record { base_url = s.llm_base_url; api_key = s.llm_api_key; request = req } ∷ [];
}

outcome_cases {ℓ} :
    {A : Type ℓ} (o : Outcome A) → ((a : A) × (o ≡ ok a)) ⊎ ((e : String) × (o ≡ err e))
outcome_cases (ok a) = inl (a, refl)
outcome_cases (err e) = inr (e, refl)

reply_cases :
    (r : Reply) → ((resp : ChatResponse) × (r ≡ response resp)) ⊎ ((f : Failure) × (r ≡ failed f))
reply_cases (response resp) = inl (resp, refl)
reply_cases (failed f) = inr (f, refl)

no_elements {ℓ} : {A : Type ℓ} (xs : List A) → not (length xs == 0) ≡ false → xs ≡ []
no_elements [] h = refl
no_elements (x ∷ xs) h = ground (arith, h)

run_none :
    (ctx : Option CallMeta) (input : Str) (cfg : EvalConfig)
    → (Engine.run [] ctx input cfg).passed ≡ true
unfolding Engine.run
run_none ctx input cfg = refl

module _ (p : Processor) (request_id : String) (org_id : ℕ) (s : ResolvedSource)
    (req : ChatRequest) where
  -- A request that may be sent: prepared, approved, for the source's model, and with the members that
  -- the gateway does not know as they were.
  pub record Cleared (sent : ChatRequest) : Type 0 where
    pub prepared : Prepared s req sent
    pub approved : (input_decision s sent).passed ≡ true
    pub model : sent.model ≡ s.llm_model
    pub kept : sent.extra ≡ req.extra

  -- The upstream replied to the request that was sent, and this became of its answer.
  pub record Answers (sent : ChatRequest) (resp : ChatResponse) : Type 0 where
    pub answer : ChatResponse
    pub received :
        (chat_completion_at p.llm_client p.network s.llm_base_url s.llm_api_key sent).reply
        ≡ response answer
    pub rewritten : Rewritten s req answer resp

  pub data Ending (x : Execution) : Type 0 where
    failed_before : (e : String) → x ≡ fail e no_trace → Ending x
    rejected_input :
        (a : Approved)
        → (res : EngineResult) → res.passed ≡ false
        → x ≡ reject_input p request_id org_id s a res no_trace
        → Ending x
    failed_after :
        (e : String) (sent : ChatRequest) → Cleared sent → x ≡ fail e (called s sent) → Ending x
    rejected_output :
        (a : Approved) (out : Option ChainResult) (resp : ChatResponse) (res : EngineResult)
        → Cleared a.request
        → res ≡ output_decision s resp
        → res.passed ≡ false
        → x ≡ reject_output p request_id org_id s a out resp res (called s a.request)
        → Ending x
    passed :
        (a : Approved) (out : Option ChainResult) (resp : ChatResponse)
        (results : List (String × EngineResult))
        → Cleared a.request
        → Answers a.request resp
        → (output_decision s resp).passed ≡ true
        → x ≡ pass p request_id org_id s a out resp results (called s a.request)
        → Ending x

  guard_output-Ending :
      (a : Approved) (out : Option ChainResult) (resp : ChatResponse)
      → Cleared a.request
      → Answers a.request resp
      → Ending (guard_output p request_id org_id s a out resp (called s a.request))
  unfolding guard_output
  guard_output-Ending a out resp c w = elim (List-cases s.output_guards) [
    | inl e ↦
        passed a out resp a.guard_results c w
          (rw e (run_none (some (output_meta s)) (extract_output_text resp) (output_eval s)))
          (rw e refl)
    | inr (g, gs, e) ↦ elim (Bool-cases (output_decision s resp).passed) [
      | inl b ↦
          passed a out resp (a.guard_results ++ ("output", output_decision s resp) ∷ []) c w b
            (rw (e, rw e at b) refl)
      | inr b ↦
          rejected_output a out resp (output_decision s resp) c refl b (rw (e, rw e at b) refl)
    ]
  ]

  -- The upstream's answer to a request.
  abbrev Received : ChatRequest → ChatResponse → Type 0
  Received sent answer =
      (chat_completion_at p.llm_client p.network s.llm_base_url s.llm_api_key sent).reply
      ≡ response answer

  put_transformed-Ending :
      (a : Approved) (resp : ChatResponse)
      → Cleared a.request
      → Received a.request resp
      → Ending (
          put_transformed p request_id org_id s a
            (apply_all s.output_transformers
              (some (transformer_meta "output" s))
              (left_state s req)
              (map message_of resp.choices))
            resp
            (called s a.request))
  unfolding put_transformed
  put_transformed-Ending a resp c v =
      let done =
        apply_all s.output_transformers (some (transformer_meta "output" s)) (left_state s req)
          (map message_of resp.choices) in
      elim (outcome_cases done.outcome) [
        | inr (e, h) ↦ failed_after e a.request c (rw h refl)
        | inl (ms, h) ↦ elim (Bool-cases (length ms == length resp.choices)) [
          | inl b ↦
              rw (h, b)
                (guard_output-Ending a (some done.chain)
                  (record resp { choices = put_messages resp.choices ms }) c
                  (record {
                    answer = resp;
                    received = v;
                    rewritten =
                        transformed ms (put_messages resp.choices ms) h
                          (put_messages-Reworded resp.choices ms
                            (beq-eq (length ms) (length resp.choices) b))
                          refl;
                  }))
          | inr b ↦
              failed_after "output transformers changed message count" a.request c (rw (h, b) refl)
        ]
      ]

  no_chain :
      (resp : ChatResponse)
      → (not (length s.output_transformers == 0) && not (length resp.choices == 0)) ≡ false
      → (s.output_transformers ≡ []) ⊎ (resp.choices ≡ [])
  no_chain resp h = elim (Bool-cases (length s.output_transformers == 0)) [
    | inl e ↦ inl (no_elements s.output_transformers (rw e refl))
    | inr e ↦ inr (no_elements resp.choices (rw e at h))
  ]

  transform_output-Ending :
      (a : Approved) (st : State) (resp : ChatResponse)
      → Cleared a.request
      → st ≡ left_state s req
      → Received a.request resp
      → Ending (transform_output p request_id org_id s a st resp (called s a.request))
  unfolding transform_output
  transform_output-Ending a st resp c k v =
      elim (Bool-cases
        (not (length s.output_transformers == 0) && not (length resp.choices == 0))) [
          | inl b ↦ rw (b, k) (put_transformed-Ending a resp c v)
          | inr b ↦ rw b (
              guard_output-Ending a none resp c (record {
                answer = resp;
                received = v;
                rewritten = as_received (no_chain resp b) refl;
              }))
        ]

  -- The request that is sent for an approved one.
  abbrev for_source : ChatRequest → ChatRequest
  for_source r = record r { model = s.llm_model }

  call_llm-Ending :
      (a : Approved) (st : State)
      → Prepared s req a.request
      → (input_decision s a.request).passed ≡ true
      → st ≡ left_state s req
      → a.request.extra ≡ req.extra
      → Ending (call_llm p request_id org_id s a st no_trace)
  unfolding call_llm extract_input_text
  call_llm-Ending a st m i k x =
      let c : Cleared (for_source a.request) = record {
        prepared = m;
        approved = i;
        model = refl;
        kept = x;
      } in
      elim (reply_cases
        (chat_completion_at p.llm_client p.network s.llm_base_url s.llm_api_key
          (for_source a.request)).reply) [
            | inl (resp, h) ↦
                rw (h, call_llm)
                  (transform_output-Ending (record a { request = for_source a.request }) st resp c k
                    h)
            | inr (f, h) ↦
                failed_after "LLM call failed" (for_source a.request) c (rw (h, call_llm) refl)
          ]

  guard_input-Ending :
      (r : ChatRequest) (chain : Option ChainResult) (st : State)
      → Prepared s req r
      → st ≡ left_state s req
      → r.extra ≡ req.extra
      → Ending (guard_input p request_id org_id s r chain st no_trace)
  unfolding guard_input
  guard_input-Ending r chain st m k x =
      let a : Approved = record { request = r; guard_results = []; transforms = chain } in
      elim (List-cases s.input_guards) [
        | inl e ↦
            let opened : guard_input p request_id org_id s r chain st no_trace
                ≡ call_llm p request_id org_id s a st no_trace =
              rw (e, guard_input) refl in
            subst Ending (sym opened) (
              call_llm-Ending a st m
                (rw e (run_none (some (input_meta s r)) (extract_input_text r) (input_eval s))) k x)
        | inr (g, gs, e) ↦ elim (Bool-cases (input_decision s r).passed) [
          | inl b ↦
              let a' : Approved = record a { guard_results = ("input", input_decision s r) ∷ [] } in
              let opened : guard_input p request_id org_id s r chain st no_trace
                  ≡ call_llm p request_id org_id s a' st no_trace =
                rw (e, rw e at b, guard_input) refl in
              subst Ending (sym opened) (call_llm-Ending a' st m b k x)
          | inr b ↦ rejected_input a (input_decision s r) b (rw (e, rw e at b) refl)
        ]
      ]

  fresh-left_state : s.input_transformers ≡ [] → fresh ≡ left_state s req
  unfolding apply_all
  fresh-left_state h = rw h refl

  pub transform_input-Ending : Ending (transform_input p request_id org_id s req no_trace)
  unfolding transform_input put_input
  transform_input-Ending = elim (Bool-cases (not (length s.input_transformers == 0))) [
    | inr b ↦ rw b (
        guard_input-Ending req none fresh (inl (no_elements s.input_transformers b, refl))
          (fresh-left_state (no_elements s.input_transformers b)) refl)
    | inl b ↦
        let done =
          apply_all s.input_transformers (some (transformer_meta "input" s)) fresh req.messages in
        elim (outcome_cases done.outcome) [
          | inr (m, h) ↦ failed_before m (rw (b, h) refl)
          | inl (ms, h) ↦
              rw (b, h)
                (guard_input-Ending (record req { messages = ms }) (some done.chain) done.state
                  (inr h) refl refl)
        ]
  ]
