-- ===== src/Gateway/Release.antt =====
-- What `Handle` lets out of the gateway.
use sheeld.Prelude.{
  ℕ, ◌≡◌, ◌⊎◌, refl, ap, sym, ◌∙◌, Bool, false, Bool-cases, Option-cases, inl, inr, ◌==◌, nat_eq,
  string_eq, arith, String, Option, some, length,
}
use sheeld.Prelude.Outcome.{Outcome, ok, err}
use sheeld.Json.{Json}
use sheeld.Llm.{ChatRequest, ChatResponse}
use sheeld.Processor.{Processor, ProxyResult, execute}
use sheeld.Processor.Approval.{Released, response_approved, response_given}
use sheeld.Gateway.{
  decode_request, Handled, completion, events, handle, reply_to, buffered, write_sse_response,
}

-- A reply of the status 200: a client's request, its execution, and the approved response that it carries.
module _ (p : Processor) (request_id : String) (org_id : ℕ) (route : String) where
  pub record Carries (h : Handled) : Type 0 where
    pub request : ChatRequest
    pub result : ProxyResult
    pub resp : ChatResponse
    pub ran : (execute p request_id org_id route (buffered request)).outcome ≡ ok result
    pub released :
        Released p request_id org_id route
          (buffered request)
          (execute p request_id org_id route (buffered request))
          result
          resp
    pub body :
        (h.reply.body ≡ completion (some resp)) ⊎ (h.reply.body ≡ events (write_sse_response resp))

  reply_to-ok :
      (stream : Bool) (o : Outcome ProxyResult)
      → (reply_to stream o).status ≡ 200
      → (r : ProxyResult) × (o ≡ ok r) × ((r.status == "rejected") ≡ false)
  unfolding reply_to
  reply_to-ok stream (err e) h = absurd (omega (arith, h))
  reply_to-ok stream (ok r) h = elim (Bool-cases (r.status == "rejected")) [
    | inl b ↦ absurd (omega (arith, rw b at h))
    | inr b ↦ (r, refl, b)
  ]

  reply_to-Carries :
      (req : ChatRequest) (h : Handled)
      → h.reply ≡ reply_to req.stream (execute p request_id org_id route (buffered req)).outcome
      → h.reply.status ≡ 200
      → Carries h
  unfolding reply_to
  reply_to-Carries req h e k =
      let x = execute p request_id org_id route (buffered req) in
      let (r, o, n) = reply_to-ok req.stream x.outcome (sym (ap (λ y. y.status) e) ∙ k) in
      let (resp, l) = response_given p request_id org_id route (buffered req) r o n in
      record {
        request = req;
        result = r;
        resp = resp;
        ran = o;
        released = response_approved p request_id org_id route (buffered req) r resp o l;
        body = elim (Bool-cases req.stream) [
          | inl s ↦ inr (ap (λ y. y.body) e ∙ rw (o, n, s, l) refl)
          | inr s ↦ inl (ap (λ y. y.body) e ∙ rw (o, n, s, l) refl)
        ];
      }

  handle-Carries :
      (body : Option Json)
      → (handle p request_id org_id route body).reply.status ≡ 200
      → Carries (handle p request_id org_id route body)
  unfolding handle
  handle-Carries body h = elim (Bool-cases (org_id == 0)) [
    | inl a ↦ absurd (omega (arith, rw a at h))
    | inr a ↦ elim (Bool-cases (route == "")) [
      | inl b ↦ absurd (omega (arith, rw (a, b) at h))
      | inr b ↦ elim (Option-cases (decode_request body)) [
        | inl d ↦ absurd (omega (arith, rw (a, b, d) at h))
        | inr (req, d) ↦ elim (Bool-cases (length req.messages == 0)) [
          | inl m ↦ absurd (omega (arith, rw (a, b, d, m) at h))
          | inr m ↦
              reply_to-Carries req (handle p request_id org_id route body)
                (rw (a, b, d, m, handle) refl) h
        ]
      ]
    ]
  ]

-- A reply with the status 200 carries, whole or as a stream of events, a response that `Execute`
-- returned for the organization and that the output guards of its enabled source approved.
pub only_approved_replies :
    (p : Processor) (request_id : String) (org_id : ℕ) (route : String) (body : Option Json)
    → (handle p request_id org_id route body).reply.status ≡ 200
    → Carries p request_id org_id route (handle p request_id org_id route body)
only_approved_replies p request_id org_id route body h =
    handle-Carries p request_id org_id route body h
