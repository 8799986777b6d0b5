-- ===== src/Samples.antt =====
-- Concrete guards, transformers, clients and configurations for the tests.
use sheeld.Prelude.{
  true, false, not, ◌==◌, bytes_eq, nat_eq, if◌then◌else◌, String, Str, str, List, [], ◌∷◌, none,
  some,
}
use sheeld.Prelude.Int.{pos}
use sheeld.Prelude.Outcome.{ok, err}
use sheeld.Json.{Json, obj, arr, cons, nil, field, end}
use sheeld.Guard.{Guard, plain, with_shadow, with_fail_open, Checker, validated, errored}
use sheeld.Guard.Engine.{EvalConfig}
use sheeld.Llm.{Message, ChatRequest, ChatResponse}
use sheeld.Llm.Client.{Client, Network, new_client, replied}
use sheeld.Transform.{Transformer}
use sheeld.Registry.{Registry, register}
use sheeld.BackendConfig.{ResolvedSource, Store}
use sheeld.Processor.{Processor}
use sheeld.Domain.{WorkspaceConfig, SourceConfig}

-- A guard that refuses one text.
abbrev pub forbids : Str → Checker
forbids bad = record {
  name = "forbids";
  kind = "blocklist";
  check = λ ctx input. validated (record {
    guard_name = "forbids";
    guard_type = "blocklist";
    passed = not (input == bad);
    message = "";
    details = obj end;
    shadow = false;
  });
}

abbrev pub unreachable : Checker
unreachable = record { name = "remote"; kind = "webhook"; check = λ ctx input. errored "timeout" }

abbrev pub hello : Str
hello = str "hello"

abbrev pub blocks_bad : Guard
blocks_bad = plain (forbids (str "bad"))

abbrev pub blocks_hello : Guard
blocks_hello = plain (forbids hello)

abbrev pub broken : Guard
broken = plain unreachable

-- One guard that passes "hello", one that refuses it in shadow, one that errs and is fail-open.
abbrev pub mixed : List Guard
mixed = blocks_bad ∷ with_shadow blocks_hello ∷ with_fail_open broken ∷ []

abbrev pub under : String → EvalConfig
under criteria = record { criteria = criteria; threshold = pos 2 }

abbrev pub message : Str → Message
message text = record {
  role = str "user";
  content = text;
  content_raw = none;
  content_text = text;
  extra = [];
}

abbrev pub greeting : ChatRequest
greeting = record { model = str "asked"; messages = message hello ∷ []; stream = true; extra = [] }

-- A reply with one choice, as JSON and as what it is read as.
abbrev pub answer_json : Json
answer_json = obj (
    field "model" (Json.text (str "gpt")) (
      field "choices"
        (arr (
          cons
            (obj (
              field "message"
                (obj (
                  field "role" (Json.text (str "assistant"))
                    (field "content" (Json.text (str "fine")) end)))
                end))
            nil))
        end))

abbrev pub answer : ChatResponse
answer = record {
  id = [];
  object = [];
  created = pos 0;
  model = str "gpt";
  choices =
      record {
        index = pos 0;
        message = record {
          role = str "assistant";
          content = str "fine";
          content_raw = none;
          content_text = [];
          extra = [];
        };
        finish_reason = [];
        extra = [];
      }
      ∷ [];
  usage = record { prompt_tokens = pos 0; completion_tokens = pos 0; total_tokens = pos 0 };
  extra = [];
}

-- A network that is overloaded at first, and then answers.
abbrev pub recovering : Network
recovering = record {
  exchange =
      λ attempt req. if attempt == 0 then replied 503 none else replied 200 (some answer_json);
  context_over = λ attempt. false;
  over_in_wait = λ attempt. false;
}

abbrev pub client : Client
client = new_client (str "http://llm")

-- Transformers: one that replaces each message's content, one that errs.
abbrev pub redact_all : List Message → List Message
redact_all [] = []
redact_all (m ∷ ms) = record m { content = str "redacted" } ∷ redact_all ms

abbrev pub redacts : Transformer
redacts = Transformer.plain (record {
  name = "redacts";
  kind = "presidio";
  apply = λ ctx st msgs. (ok (redact_all msgs), st);
})

abbrev pub fails : Transformer
fails =
    Transformer.plain
      (record { name = "fails"; kind = "webhook"; apply = λ ctx st msgs. (err "timeout", st) })

abbrev pub guards : Registry Guard
guards = register [] "blocklist" (λ name config. ok blocks_bad)

abbrev pub transformers : Registry Transformer
transformers = register [] "presidio" (λ name config. ok redacts)

abbrev pub source_config : SourceConfig
source_config = record {
  id = 3;
  route = "chat";
  enabled = true;
  llm_model = str "gpt";
  llm_api_key = str "secret";
  llm_base_url = [];
  input_pass_criteria = "all";
  input_pass_threshold = none;
  output_pass_criteria = "all";
  output_pass_threshold = none;
  guardrail_ids = 1 ∷ [];
  transformer_ids = [];
}

abbrev pub workspace : WorkspaceConfig
workspace = record {
  version = "v1";
  organizations =
      record {
        id = 7;
        api_keys =
            record { key_hash = "hash"; rate_limit_rps = none; rate_limit_burst = none } ∷ [];
        sources = source_config ∷ [];
        guardrails =
            record {
              id = 1;
              name = "words";
              guard_type = "blocklist";
              phase = "both";
              config = obj end;
            }
            ∷ [];
        transformers = [];
        alert_webhooks = [];
      }
      ∷ [];
}

abbrev pub source : ResolvedSource
source = record {
  id = 3;
  org_id = 7;
  route = "chat";
  enabled = true;
  llm_model = str "gpt";
  llm_api_key = str "secret";
  llm_base_url = [];
  input_pass_criteria = "all";
  input_pass_threshold = none;
  output_pass_criteria = "all";
  output_pass_threshold = none;
  input_guards = mixed;
  output_guards = blocks_hello ∷ [];
  input_transformers = [];
  output_transformers = [];
}

abbrev pub store : Store
store = record {
  current = some (record {
    version = "v1";
    api_keys =
        (
          "hash",
          record {
            org_id = 7;
            key_hash = "hash";
            rate_limit_rps = pos 0;
            rate_limit_burst = pos 0;
          },
        )
        ∷ [];
    sources = (record { org_id = 7; route = "chat" }, source) ∷ [];
    alerts = [];
  });
}

abbrev pub processor : Processor
processor = record {
  store = store;
  llm_client = client;
  network = recovering;
  has_audit = true;
  has_alerts = true;
}
