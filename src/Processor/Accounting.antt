-- ===== src/Processor/Accounting.antt =====
-- What `Execute` reports: one metric on each exit, one audit record and at most one alert per decision.
use sheeld.Prelude.{
  ℕ, ◌≡◌, refl, ap, sym, subst, ◌∙◌, Bool, string_eq, if◌then◌else◌, Bool-cases, inl, inr, String,
  List, [], ◌∷◌, ◌++◌, Option, none, some,
}
use sheeld.Prelude.Outcome.{ok, err}
use sheeld.Guard.Engine.{EngineResult}
use sheeld.Llm.{ChatRequest, ChatResponse}
use sheeld.Transform.{ChainResult}
use sheeld.BackendConfig.{ResolvedSource}
use sheeld.Processor.{
  Processor, ProxyResult, Execution, Approved, AuditRecord, Event, Trace, audit, alert, entry,
  failed_guards, no_trace, flow, execute, count_outcome, pass, reject_input, reject_output,
}
use sheeld.Processor.Ending.{
  failed_before, rejected_input, failed_after, rejected_output, passed, called,
}
use sheeld.Processor.Approval.{Flow, refused, served, flow-Flow}

abbrev pub when {ℓ} : {A : Type ℓ} → Bool → A → List A
when b x = if b then x ∷ [] else []

module _ (p : Processor) (org_id : ℕ) where
  -- The decision `r` is audited once, as `overall`.
  pub record Audited (x : Execution) (r : ProxyResult) (overall : String) : Type 0 where
    pub entry : AuditRecord
    pub audits : x.trace.audits ≡ when p.has_audit entry
    pub organization : entry.org_id ≡ org_id
    pub overall_result : entry.overall_result ≡ overall
    pub results : entry.guard_results ≡ r.guard_results
    pub transforms : entry.transforms ≡ r.transforms
    pub output_transforms : entry.output_transforms ≡ r.output_transforms

  -- The rejection `r` is reported once.
  pub record Alerted (x : Execution) (r : ProxyResult) : Type 0 where
    pub event : Event
    pub alerts : x.trace.alerts ≡ when p.has_alerts event
    pub organization : event.organization_id ≡ org_id
    pub phase : event.phase ≡ r.phase

  pub data Accounts (x : Execution) : Type 0 where
    errored :
        (e : String) → x.outcome ≡ err e → x.trace.audits ≡ [] → x.trace.alerts ≡ [] → Accounts x
    accepted :
        (r : ProxyResult)
        → x.outcome ≡ ok r
        → r.status ≡ "pass"
        → Audited x r "pass"
        → x.trace.alerts ≡ []
        → Accounts x
    rejected :
        (r : ProxyResult)
        → x.outcome ≡ ok r
        → r.status ≡ "rejected"
        → Audited x r "fail"
        → Alerted x r
        → Accounts x

module _ (p : Processor) (request_id : String) (org_id : ℕ) where
  audits-audit :
      (a : AuditRecord) (t : Trace)
      → t.audits ≡ []
      → (audit p request_id org_id a t).audits ≡ when p.has_audit a
  audits-audit a t n = elim (Bool-cases p.has_audit) [
    | inl h ↦ rw h (ap (λ l. l ++ a ∷ []) n)
    | inr h ↦ rw h n
  ]

  alerts-audit : (a : AuditRecord) (t : Trace) → (audit p request_id org_id a t).alerts ≡ t.alerts
  alerts-audit a t = elim (Bool-cases p.has_audit) [ inl h ↦ rw h refl | inr h ↦ rw h refl ]

  audits-alert :
      (route phase : String) (res : EngineResult) (t : Trace)
      → (alert p request_id org_id route phase res t).audits ≡ t.audits
  audits-alert route phase res t = elim (Bool-cases p.has_alerts) [
    | inl h ↦ rw h refl
    | inr h ↦ rw h refl
  ]

  event_of : String → String → EngineResult → Event
  event_of route phase res = record {
    organization_id = org_id;
    source_route = route;
    phase = phase;
    request_id = request_id;
    failed_guards = failed_guards res.results;
  }

  alerts-alert :
      (route phase : String) (res : EngineResult) (t : Trace)
      → t.alerts ≡ []
      → (alert p request_id org_id route phase res t).alerts
        ≡ when p.has_alerts (event_of route phase res)
  unfolding event_of
  alerts-alert route phase res t n = elim (Bool-cases p.has_alerts) [
    | inl h ↦ rw h (ap (λ l. l ++ event_of route phase res ∷ []) n)
    | inr h ↦ rw h n
  ]

module _ (p : Processor) (request_id : String) (org_id : ℕ) (s : ResolvedSource) where
  pass-Accounts :
      (a : Approved) (out : Option ChainResult) (resp : ChatResponse)
      (results : List (String × EngineResult)) (q : ChatRequest)
      → Accounts p org_id (pass p request_id org_id s a out resp results (called s q))
  unfolding pass
  pass-Accounts a out resp results q =
      let e : AuditRecord =
        entry p request_id org_id s a out "pass" (some resp.usage) resp.model results in
      accepted
        (record {
          status = "pass";
          phase = "";
          llm_response = some resp;
          guard_results = results;
          transforms = a.transforms;
          output_transforms = out;
        })
        refl refl
        (record {
          entry = e;
          audits = audits-audit p request_id org_id e (called s q) refl;
          organization = refl;
          overall_result = refl;
          results = refl;
          transforms = refl;
          output_transforms = refl;
        })
        (alerts-audit p request_id org_id e (called s q))

  reject_input-Accounts :
      (a : Approved) (res : EngineResult)
      → Accounts p org_id (reject_input p request_id org_id s a res no_trace)
  unfolding reject_input event_of
  reject_input-Accounts a res =
      let e : AuditRecord =
        entry p request_id org_id s a none "fail" none [] (("input", res) ∷ []) in
      let t : Trace = audit p request_id org_id e no_trace in
      rejected
        (record {
          status = "rejected";
          phase = "input";
          llm_response = none;
          guard_results = ("input", res) ∷ [];
          transforms = a.transforms;
          output_transforms = none;
        })
        refl refl
        (record {
          entry = e;
          audits =
              audits-alert p request_id org_id s.route "input" res t
              ∙ audits-audit p request_id org_id e no_trace refl;
          organization = refl;
          overall_result = refl;
          results = refl;
          transforms = refl;
          output_transforms = refl;
        })
        (record {
          event = event_of p request_id org_id s.route "input" res;
          alerts =
              alerts-alert p request_id org_id s.route "input" res t
                (alerts-audit p request_id org_id e no_trace);
          organization = refl;
          phase = refl;
        })

  reject_output-Accounts :
      (a : Approved) (out : Option ChainResult) (resp : ChatResponse) (res : EngineResult)
      (q : ChatRequest)
      → Accounts p org_id (reject_output p request_id org_id s a out resp res (called s q))
  unfolding reject_output event_of
  reject_output-Accounts a out resp res q =
      let e : AuditRecord =
        entry p request_id org_id s a out "fail" (some resp.usage) resp.model
          (a.guard_results ++ ("output", res) ∷ []) in
      let t : Trace = audit p request_id org_id e (called s q) in
      rejected
        (record {
          status = "rejected";
          phase = "output";
          llm_response = none;
          guard_results = a.guard_results ++ ("output", res) ∷ [];
          transforms = a.transforms;
          output_transforms = out;
        })
        refl refl
        (record {
          entry = e;
          audits =
              audits-alert p request_id org_id s.route "output" res t
              ∙ audits-audit p request_id org_id e (called s q) refl;
          organization = refl;
          overall_result = refl;
          results = refl;
          transforms = refl;
          output_transforms = refl;
        })
        (record {
          event = event_of p request_id org_id s.route "output" res;
          alerts =
              alerts-alert p request_id org_id s.route "output" res t
                (alerts-audit p request_id org_id e (called s q));
          organization = refl;
          phase = refl;
        })

-- The outcome metric aside, the reports are those of the flow.
Flow-Accounts :
    (p : Processor) (request_id : String) (org_id : ℕ) (route : String) (req : ChatRequest)
    (x : Execution)
    → Flow p request_id org_id route req x
    → Accounts p org_id x
Flow-Accounts p request_id org_id route req x (refused e h) =
    subst (Accounts p org_id) (sym h) (errored e refl refl refl)
Flow-Accounts p request_id org_id route req x (served s f b (failed_before e h)) =
    subst (Accounts p org_id) (sym h) (errored e refl refl refl)
Flow-Accounts p request_id org_id route req x (served s f b (failed_after e q c h)) =
    subst (Accounts p org_id) (sym h) (errored e refl refl refl)
Flow-Accounts p request_id org_id route req x (served s f b (rejected_input a res d h)) =
    subst (Accounts p org_id) (sym h) (reject_input-Accounts p request_id org_id s a res)
Flow-Accounts p request_id org_id route req x
      (served s f b (rejected_output a out resp res c e d h)) =
    subst (Accounts p org_id) (sym h)
      (reject_output-Accounts p request_id org_id s a out resp res a.request)
Flow-Accounts p request_id org_id route req x (served s f b (passed a out resp results c w d h)) =
    subst (Accounts p org_id) (sym h)
      (pass-Accounts p request_id org_id s a out resp results a.request)

Accounts-count_outcome :
    (p : Processor) (org_id : ℕ) (x : Execution)
    → Accounts p org_id x
    → Accounts p org_id (count_outcome x)
Accounts-count_outcome p org_id x (errored e o n l) = errored e o n l
Accounts-count_outcome p org_id x (accepted r o t d l) =
    accepted r o t
      (record {
        entry = d.entry;
        audits = d.audits;
        organization = d.organization;
        overall_result = d.overall_result;
        results = d.results;
        transforms = d.transforms;
        output_transforms = d.output_transforms;
      })
      l
Accounts-count_outcome p org_id x (rejected r o t d l) =
    rejected r o t
      (record {
        entry = d.entry;
        audits = d.audits;
        organization = d.organization;
        overall_result = d.overall_result;
        results = d.results;
        transforms = d.transforms;
        output_transforms = d.output_transforms;
      })
      (record {
        event = l.event;
        alerts = l.alerts;
        organization = l.organization;
        phase = l.phase;
      })

-- A run that errs writes no audit record and no alert. A run that decides writes one audit record for
-- the organization (if audited at all), with the decision's results, as "pass" or "fail"; and one
-- alert (if alerts are on) exactly when it rejects, for the phase that rejected.
pub decisions_reported :
    (p : Processor) (request_id : String) (org_id : ℕ) (route : String) (req : ChatRequest)
    → Accounts p org_id (execute p request_id org_id route req)
unfolding execute
decisions_reported p request_id org_id route req =
    Accounts-count_outcome p org_id (flow p request_id org_id route req) (
      Flow-Accounts p request_id org_id route req (flow p request_id org_id route req)
        (flow-Flow p request_id org_id route req))
