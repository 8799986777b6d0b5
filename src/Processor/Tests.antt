-- ===== src/Processor/Tests.antt =====
-- The theorems on `Execute` at a source with guards and a network that recovers.
use sheeld.Prelude.{String, str, false, ◌≡◌, ◌⊎◌, refl, subst, [], ◌∷◌, some, arith}
use sheeld.Guard.{validate, marked_fail_open, marked_shadow}
use sheeld.Guard.Engine.{run}
use sheeld.Guard.Engine.Unanimous.{passes, in_shadow, fails_open}
use sheeld.Llm.{extract_input_text, extract_output_text}
use sheeld.Llm.Client.{chat_completion_at, HttpRequest}
use sheeld.Llm.Client.Retry.{sent, GoesOn, SucceedsAt}
use sheeld.Llm.Response.{unmarshal_response}
use sheeld.BackendConfig.{lookup_source}
use sheeld.Processor.{execute}
use sheeld.Processor.Ending.{output_decision}
use sheeld.Processor.Approval.{Released, Called, response_approved, calls_cleared}
use sheeld.Processor.Accounting.{Accounts, decisions_reported}
use sheeld.Processor.Delivery.{Delivers, IsClear, approved_reply_delivered, upstream_request}
use sheeld.Processor.Metrics.{Counted, one_outcome_counted}
use sheeld.Prelude.Int.{pos}
use sheeld.Llm.{Choice}
use sheeld.Samples.{message, hello, processor, greeting, source, store, client, recovering, answer}

found : lookup_source store 7 "chat" ≡ some source
unfolding lookup_source
found = refl

clear : IsClear source greeting answer
unfolding validate marked_fail_open marked_shadow extract_input_text extract_output_text
clear = record {
  enabled = refl;
  no_input_chain = refl;
  no_output_chain = refl;
  input_criteria = refl;
  output_criteria = refl;
  input_allowed = (passes _ refl refl, (in_shadow refl, (fails_open "timeout" refl refl, tt)));
  output_allowed = (passes _ refl refl, tt);
}

-- What is sent for `greeting`.
abbrev posted : HttpRequest
posted = sent client source.llm_base_url source.llm_api_key (upstream_request source greeting)

first_refused : GoesOn recovering posted 0
unfolding chat_completion_at
first_refused = record { transient = refl; context_live = refl; waited = refl }

second_answers : SucceedsAt recovering posted 0 1 answer
unfolding chat_completion_at unmarshal_response
second_answers = record {
  from_start = omega arith;
  answered = refl;
  before = λ j h l. let e : 0 ≡ j = omega arith in subst (GoesOn recovering posted) e first_refused;
}

delivered : Delivers (execute processor "r1" 7 "chat" greeting) answer
delivered =
    approved_reply_delivered processor "r1" 7 "chat" greeting source answer 1 found clear
      (omega arith) second_answers

approved_reply_delivered_example : Delivers (execute processor "r2" 7 "chat" greeting) answer
approved_reply_delivered_example =
    approved_reply_delivered processor "r2" 7 "chat" greeting source answer 1 found clear
      (omega arith) second_answers

response_approved_example :
    Released processor "r1" 7 "chat" greeting
      (execute processor "r1" 7 "chat" greeting)
      delivered.0
      answer
response_approved_example =
    response_approved processor "r1" 7 "chat" greeting delivered.0 answer delivered.1 delivered.3

calls_cleared_example :
    ((execute processor "r1" 7 "chat" greeting).trace.calls ≡ [])
    ⊎ Called processor "r1" 7 "chat" greeting (execute processor "r1" 7 "chat" greeting)
calls_cleared_example = calls_cleared processor "r1" 7 "chat" greeting

decisions_reported_example : Accounts processor 7 (execute processor "r1" 7 "chat" greeting)
decisions_reported_example = decisions_reported processor "r1" 7 "chat" greeting

one_outcome_counted_example :
    (labels : String × String) × ((execute processor "r1" 7 "chat" greeting).trace.metrics
      ≡ labels ∷ [])
    × Counted (execute processor "r1" 7 "chat" greeting).outcome labels
one_outcome_counted_example = one_outcome_counted processor "r1" 7 "chat" greeting

-- A second choice that the output guard of the source would refuse.
abbrev unseen : Choice
unseen = record { index = pos 1; message = message hello; finish_reason = []; extra = [] }

abbrev seen : Choice
seen = record { index = pos 0; message = message (str "fine"); finish_reason = []; extra = [] }

second_choice_refused :
    (output_decision source (record answer { choices = unseen ∷ [] })).passed ≡ false
unfolding run validate marked_fail_open marked_shadow extract_output_text
second_choice_refused = refl
