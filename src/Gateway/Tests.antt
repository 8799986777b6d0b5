-- ===== src/Gateway/Tests.antt =====
-- The gateway's theorems at concrete requests.
use sheeld.Prelude.{◌≡◌, refl, false, arith, str, [], ◌∷◌, some, concat, All}
use sheeld.Json.{Json, obj, arr, cons, nil, field, end, num}
use sheeld.Prelude.Int.{pos}
use sheeld.BackendConfig.{AuthInfo}
use sheeld.Guard.{validate, marked_fail_open, marked_shadow}
use sheeld.Guard.Engine.{run}
use sheeld.Llm.{ChatRequest, Extra, extract_input_text, extract_output_text}
use sheeld.Llm.Client.{chat_completion_at}
use sheeld.Llm.Codec.{unmarshal_request}
use sheeld.Llm.Response.{unmarshal_response}
use sheeld.BackendConfig.{lookup_source}
use sheeld.Processor.{execute}
use sheeld.Gateway.{handle, write_sse_response}
use sheeld.Gateway.Split.{split_content, split_content-Fits, Fits}
use sheeld.Gateway.Release.{Carries, only_approved_replies}
use sheeld.Gateway.Replay.{received, contents, write_sse_response_lem}
use sheeld.Gateway.Passthrough
use sheeld.Samples.{processor, answer, message, hello}

-- Eight bytes, cut after the space.
split_words : split_content (str "one twos") 6 ≡ str "one " ∷ str "twos" ∷ []
unfolding split_content
split_words = refl

split_content-Fits_example :
    (concat (split_content (str "one twos") 6) ≡ str "one twos")
    × All (Fits 6) (split_content (str "one twos") 6)
split_content-Fits_example = split_content-Fits (str "one twos") 6 (omega arith)

write_sse_response_lem_example : received (write_sse_response answer) ≡ contents answer.choices
write_sse_response_lem_example = write_sse_response_lem answer

abbrev info : AuthInfo
info = record { org_id = 7; key_hash = "hash"; rate_limit_rps = pos 0; rate_limit_burst = pos 0 }

abbrev request_json : Json
request_json = obj (
    field "model" (Json.text (str "asked")) (
      field "messages"
        (arr (
          cons
            (obj (
              field "role" (Json.text (str "user"))
                (field "content" (Json.text (str "hello")) end)))
            nil))
        end))

replies : (handle processor "r1" 7 "chat" (some request_json)).reply.status ≡ 200
unfolding handle execute lookup_source run validate marked_fail_open marked_shadow
    chat_completion_at unmarshal_response unmarshal_request extract_input_text extract_output_text
replies = refl

only_approved_replies_example :
    Carries processor "r1" 7 "chat" (handle processor "r1" 7 "chat" (some request_json))
only_approved_replies_example =
    only_approved_replies processor "r1" 7 "chat" (some request_json) replies

-- The same request with a member that the gateway does not know.
abbrev hello_messages : Json
hello_messages = arr (
    cons
      (obj (field "role" (Json.text (str "user")) (field "content" (Json.text (str "hello")) end)))
      nil)

abbrev counted_json : Json
counted_json = obj (field "messages" hello_messages (field "n" (num (str "2")) end))

abbrev counted_members : Extra
counted_members = ("messages", hello_messages) ∷ ("n", num (str "2")) ∷ []

abbrev counted : ChatRequest
counted = record {
  model = [];
  messages = record (message hello) { content_text = [] } ∷ [];
  stream = false;
  extra = ("n", num (str "2")) ∷ [];
}
