-- ===== src/Processor/Report.antt =====
-- internal/dataplane/processor/processor.go and internal/dataplane/alert/notifier.go: what `Execute` returns
-- and reports, `record` and `alert`, and what it hands to guards and transformers.
use sheeld.Prelude.{
  ℕ, Bool, not, nat_eq, string_eq, ◌&&◌, if◌then◌else◌, String, Str, List, [], ◌∷◌, ◌++◌, Option,
  none, some,
}
use sheeld.Prelude.Int.{ℤ, pos}
use sheeld.Prelude.Outcome.{Outcome}
use sheeld.Guard.{CallMeta, GuardResult}
use sheeld.Guard.Engine.{EvalConfig, EngineResult}
use sheeld.Llm.{ChatRequest, ChatResponse, Usage, serialize_messages}
use sheeld.Llm.Client.{Client, Network}
use sheeld.Transform.{ChainResult}
use sheeld.BackendConfig.{Store, ResolvedSource}

-- `Result`
pub record ProxyResult : Type 0 where
  pub status : String
  pub phase : String
  pub llm_response : Option ChatResponse
  pub guard_results : List (String × EngineResult)
  pub transforms : Option ChainResult
  pub output_transforms : Option ChainResult

-- `alert.FailedGuard` and `alert.Event`
pub record FailedGuard : Type 0 where
  pub name : String
  pub kind : String
  pub message : String

pub record Event : Type 0 where
  pub organization_id : ℕ
  pub source_route : String
  pub phase : String
  pub request_id : String
  pub failed_guards : List FailedGuard

-- The arguments of `AuditSink.Record`.
pub record AuditRecord : Type 0 where
  pub org_id : ℕ
  pub source_id : ℕ
  pub input_text : Str
  pub guard_results : List (String × EngineResult)
  pub transforms : Option ChainResult
  pub output_transforms : Option ChainResult
  pub overall_result : String
  pub usage : Option Usage
  pub model : Str

-- One call of the LLM client.
pub record LlmCall : Type 0 where
  pub base_url : Str
  pub api_key : Str
  pub request : ChatRequest

pub record Trace : Type 0 where
  pub calls : List LlmCall
  pub audits : List AuditRecord
  pub alerts : List Event
  pub metrics : List (String × String)

pub record Execution : Type 0 where
  pub outcome : Outcome ProxyResult
  pub trace : Trace

-- A nil sink is a flag that is false.
pub record Processor : Type 0 where
  pub store : Store
  pub llm_client : Client
  pub network : Network
  pub has_audit : Bool
  pub has_alerts : Bool

abbrev pub failed_guards : List GuardResult → List FailedGuard
failed_guards [] = []
failed_guards (r ∷ rs) =
    if not r.passed && not r.shadow
    then record { name = r.guard_name; kind = r.guard_type; message = r.message } ∷ failed_guards rs
    else failed_guards rs

module _ (p : Processor) (request_id : String) (org_id : ℕ) where
  abbrev pub alert : String → String → EngineResult → Trace → Trace
  alert route phase res t =
      if p.has_alerts
      then record t {
        alerts =
            t.alerts
            ++ record {
              organization_id = org_id;
              source_route = route;
              phase = phase;
              request_id = request_id;
              failed_guards = failed_guards res.results;
            }
              ∷ [];
      }
      else t

  abbrev pub audit : AuditRecord → Trace → Trace
  audit a t = if p.has_audit then record t { audits = t.audits ++ a ∷ [] } else t

abbrev pub threshold_or_zero : Option ℤ → ℤ
threshold_or_zero none = pos 0
threshold_or_zero (some t) = t

abbrev pub input_eval : ResolvedSource → EvalConfig
input_eval s = record {
  criteria = s.input_pass_criteria;
  threshold = threshold_or_zero s.input_pass_threshold;
}

abbrev pub output_eval : ResolvedSource → EvalConfig
output_eval s = record {
  criteria = s.output_pass_criteria;
  threshold = threshold_or_zero s.output_pass_threshold;
}

abbrev pub transformer_meta : String → ResolvedSource → CallMeta
transformer_meta phase s = record { phase = phase; source_route = s.route; all_messages_text = [] }

abbrev pub input_meta : ResolvedSource → ChatRequest → CallMeta
input_meta s req = record {
  phase = "input";
  source_route = s.route;
  all_messages_text = serialize_messages req.messages;
}

abbrev pub output_meta : ResolvedSource → CallMeta
output_meta s = record { phase = "output"; source_route = s.route; all_messages_text = [] }
