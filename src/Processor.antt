-- ===== src/Processor.antt =====
-- internal/dataplane/processor/processor.go: `Execute`, `record`, `alert`. A run returns its result
-- and a trace of what it did to the outside: LLM calls, audit records, alerts, outcome metrics.
-- Latencies and log lines are left out.
pub mod Report
pub mod Answer
pub mod Ending
pub mod Choices
mod Tests
pub mod Delivery
pub mod Metrics
pub mod Approval
pub mod Accounting
use sheeld.Prelude.{
  ℕ, Bool, true, false, not, ◌==◌, nat_eq, string_eq, ◌&&◌, if◌then◌else◌, String, Str, List, [],
  ◌∷◌, ◌++◌, map, Option, none, some, length,
}
use sheeld.Prelude.Int.{ℤ, pos}
use sheeld.Prelude.Outcome.{Outcome, ok, err}
use sheeld.Guard.{CallMeta, GuardResult}
use sheeld.Guard.Engine.{EvalConfig, EngineResult}
use sheeld.Guard.Engine
use sheeld.Llm.{
  ChatRequest, ChatResponse, Message, Choice, Usage, extract_input_text, extract_output_text,
  serialize_messages,
}
use sheeld.Llm.Client.{Client, Network, Reply, response, failed, chat_completion_at}
use sheeld.Transform.{ChainResult, Applied, apply_all, Transformer}
use sheeld.Transform.Placeholders.{State, fresh}
use sheeld.BackendConfig.{Store, ResolvedSource, lookup_source}
pub use sheeld.Processor.Report.{
  ProxyResult, FailedGuard, Event, AuditRecord, LlmCall, Trace, Execution, Processor, failed_guards,
  alert, audit, threshold_or_zero, input_eval, output_eval, transformer_meta, input_meta,
  output_meta,
}

abbrev pub fail : String → Trace → Execution
fail e t = record { outcome = err e; trace = t }

-- `chatResp.Choices[i].Message = transformed[i]`
pub put_messages : List Choice → List Message → List Choice
put_messages [] ms = []
put_messages (c ∷ cs) [] = c ∷ cs
put_messages (c ∷ cs) (m ∷ ms) = record c { message = m } ∷ put_messages cs ms

abbrev message_of : Choice → Message
message_of c = c.message

-- What is known once the input side has approved: the request as guards saw it, and its records.
pub record Approved : Type 0 where
  pub request : ChatRequest
  pub guard_results : List (String × EngineResult)
  pub transforms : Option ChainResult

module _ (p : Processor) (request_id : String) (org_id : ℕ) (source : ResolvedSource) where
  abbrev entry :
      Approved
      → Option ChainResult
      → String
      → Option Usage
      → Str
      → List (String × EngineResult)
      → AuditRecord
  entry a out overall usage model results = record {
    org_id = org_id;
    source_id = source.id;
    input_text = extract_input_text a.request;
    guard_results = results;
    transforms = a.transforms;
    output_transforms = out;
    overall_result = overall;
    usage = usage;
    model = model;
  }

  pub pass :
      Approved
      → Option ChainResult
      → ChatResponse
      → List (String × EngineResult)
      → Trace
      → Execution
  pass a out resp results t = record {
    outcome = ok (record {
      status = "pass";
      phase = "";
      llm_response = some resp;
      guard_results = results;
      transforms = a.transforms;
      output_transforms = out;
    });
    trace = audit p request_id org_id (entry a out "pass" (some resp.usage) resp.model results) t;
  }

  pub reject_output :
      Approved → Option ChainResult → ChatResponse → EngineResult → Trace → Execution
  reject_output a out resp res t =
      let results = a.guard_results ++ ("output", res) ∷ [] in
      record {
        outcome = ok (record {
          status = "rejected";
          phase = "output";
          llm_response = none;
          guard_results = results;
          transforms = a.transforms;
          output_transforms = out;
        });
        trace =
            alert p request_id org_id source.route "output" res (
              audit p request_id org_id (entry a out "fail" (some resp.usage) resp.model results)
                t);
      }

  guard_output : Approved → Option ChainResult → ChatResponse → Trace → Execution
  unfolding pass reject_output
  guard_output a out resp t = elim source.output_guards [
    | [] ↦ pass a out resp a.guard_results t
    | g ∷ gs ↦
        let res =
          Engine.run (g ∷ gs) (some (output_meta source)) (extract_output_text resp)
            (output_eval source) in
        if res.passed
        then pass a out resp (a.guard_results ++ ("output", res) ∷ []) t
        else reject_output a out resp res t
  ]

  -- The response after the output chain, which must keep the number of messages.
  put_transformed : Approved → Applied → ChatResponse → Trace → Execution
  unfolding guard_output put_messages
  put_transformed a done resp t = elim done.outcome [
    | err e ↦ fail e t
    | ok transformed ↦
        if length transformed == length resp.choices
        then guard_output a (some done.chain)
            (record resp { choices = put_messages resp.choices transformed }) t
        else fail "output transformers changed message count" t
  ]

  transform_output : Approved → State → ChatResponse → Trace → Execution
  unfolding put_transformed
  transform_output a st resp t =
      if not (length source.output_transformers == 0) && not (length resp.choices == 0)
      then put_transformed a
          (apply_all source.output_transformers (some (transformer_meta "output" source)) st
            (map message_of resp.choices))
          resp t
      else guard_output a none resp t

  -- The model is the source's, whatever the client asked for.
  call_llm : Approved → State → Trace → Execution
  unfolding transform_output
  call_llm a st t =
      let req = record (a.request) { model = source.llm_model } in
      let t' = record t {
        calls =
            t.calls
            ++ record {
              base_url = source.llm_base_url;
              api_key = source.llm_api_key;
              request = req;
            }
              ∷ [];
      } in
      elim (chat_completion_at p.llm_client p.network source.llm_base_url source.llm_api_key
        req).reply [
          | failed f ↦ fail "LLM call failed" t'
          | response resp ↦ transform_output (record a { request = req }) st resp t'
        ]

  pub reject_input : Approved → EngineResult → Trace → Execution
  reject_input a res t =
      let results : List (String × EngineResult) = ("input", res) ∷ [] in
      record {
        outcome = ok (record {
          status = "rejected";
          phase = "input";
          llm_response = none;
          guard_results = results;
          transforms = a.transforms;
          output_transforms = none;
        });
        trace =
            alert p request_id org_id source.route "input" res
              (audit p request_id org_id (entry a none "fail" none [] results) t);
      }

  guard_input : ChatRequest → Option ChainResult → State → Trace → Execution
  unfolding call_llm reject_input
  guard_input req chain st t =
      let a : Approved = record { request = req; guard_results = []; transforms = chain } in
      elim source.input_guards [
        | [] ↦ call_llm a st t
        | g ∷ gs ↦
            let res =
              Engine.run (g ∷ gs) (some (input_meta source req)) (extract_input_text req)
                (input_eval source) in
            if res.passed
            then call_llm (record a { guard_results = ("input", res) ∷ [] }) st t
            else reject_input a res t
      ]

  put_input : Applied → ChatRequest → Trace → Execution
  unfolding guard_input
  put_input done req t = elim done.outcome [
    | err e ↦ fail e t
    | ok msgs ↦ guard_input (record req { messages = msgs }) (some done.chain) done.state t
  ]

  pub transform_input : ChatRequest → Trace → Execution
  unfolding put_input
  transform_input req t =
      if not (length source.input_transformers == 0)
      then put_input
          (apply_all source.input_transformers (some (transformer_meta "input" source)) fresh
            req.messages)
          req t
      else guard_input req none fresh t

abbrev pub no_trace : Trace
no_trace = record { calls = []; audits = []; alerts = []; metrics = [] }

-- `Execute` before its deferred function.
pub flow : Processor → String → ℕ → String → ChatRequest → Execution
unfolding transform_input
flow p request_id org_id route req = elim (lookup_source p.store org_id route) [
  | none ↦ fail "source not found" no_trace
  | some source ↦
      if source.enabled
      then transform_input p request_id org_id source req no_trace
      else fail "source is disabled" no_trace
]

-- The deferred function: one outcome metric on every exit path.
abbrev pub outcome_labels : Outcome ProxyResult → String × String
outcome_labels (err e) = ("error", "")
outcome_labels (ok r) = if r.status == "rejected" then ("rejected", r.phase) else ("pass", "")

abbrev count_outcome : Execution → Execution
count_outcome x = record x {
  trace = record (x.trace) { metrics = x.trace.metrics ++ outcome_labels x.outcome ∷ [] };
}

unfoldable pub execute : Processor → String → ℕ → String → ChatRequest → Execution
unfolding flow
execute p request_id org_id route req = count_outcome (flow p request_id org_id route req)
