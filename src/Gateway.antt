-- ===== src/Gateway.antt =====
-- internal/dataplane/gateway: `Handle`, `writeSSEResponse`, `APIKeyAuth`, `staticTokenAuth` and the health
-- check. The Authorization header is its bytes; `uuid.Nil`, the organization of a request that none was
-- set for, is 0; an error reply keeps its status, type and code, without the message for people.
pub mod Split
pub mod Release
pub mod Passthrough
pub mod Replay
pub mod Auth
mod Tests
use sheeld.Prelude.{
  ℕ, ◌+◌, ◌-◌, Bool, true, false, not, ◌&&◌, ◌||◌, ◌==◌, nat_eq, string_eq, bytes_eq, leb,
  if◌then◌else◌, String, Str, str, List, [], ◌∷◌, ◌++◌, map, Option, none, some, length,
}
use sheeld.Prelude.Int.{ℤ, pos}
use sheeld.Prelude.Outcome.{Outcome, ok, err}
use sheeld.Json.{Json}
use sheeld.Llm.{ChatRequest, ChatResponse, Choice}
use sheeld.Llm.Codec.{unmarshal_request}
use sheeld.BackendConfig.{Store, AuthInfo, loaded, version, lookup_api_key}
use sheeld.Processor.{Processor, ProxyResult, Execution, execute}
use sheeld.Gateway.Split.{split_content, stream_chunk_size}
use Prim.Native.String

-- `chatChunk`, which has one choice; an empty role or content is left out when it is written.
pub record Chunk : Type 0 where
  pub id : Str
  pub created : ℤ
  pub model : Str
  pub index : ℤ
  pub role : Str
  pub content : Str
  pub finish_reason : Option Str

pub data Body : Type 0 where
  refusal : String → String → Body
  completion : Option ChatResponse → Body
  events : List Chunk → Body

-- `sheeld_status` is the header X-Sheeld-Status.
pub record HttpReply : Type 0 where
  pub status : ℕ
  pub sheeld_status : Option String
  pub body : Body

abbrev pub open_ai_error : ℕ → String → String → HttpReply
open_ai_error status kind code = record {
  status = status;
  sheeld_status = none;
  body = refusal kind code;
}

module _ (resp : ChatResponse) (c : Choice) where
  abbrev pub role_chunk : Chunk
  role_chunk = record {
    id = resp.id;
    created = resp.created;
    model = resp.model;
    index = c.index;
    role = c.message.role;
    content = [];
    finish_reason = none;
  }

  abbrev pub content_chunk : Str → Chunk
  content_chunk piece = record {
    id = resp.id;
    created = resp.created;
    model = resp.model;
    index = c.index;
    role = [];
    content = piece;
    finish_reason = none;
  }

  abbrev pub finish_chunk : Chunk
  finish_chunk = record {
    id = resp.id;
    created = resp.created;
    model = resp.model;
    index = c.index;
    role = [];
    content = [];
    finish_reason = some (if c.finish_reason == [] then str "stop" else c.finish_reason);
  }

  -- The events of one choice.
  abbrev pub choice_chunks : List Chunk
  choice_chunks =
      role_chunk ∷ map content_chunk (split_content c.message.content stream_chunk_size)
      ++ finish_chunk ∷ []

abbrev pub chunks_of : ChatResponse → List Choice → List Chunk
chunks_of resp [] = []
chunks_of resp (c ∷ cs) = choice_chunks resp c ++ chunks_of resp cs

-- The events that precede the final one.
unfoldable pub write_sse_response : ChatResponse → List Chunk
write_sse_response resp = chunks_of resp resp.choices

-- `writeSSEResponse(w, nil)` would panic: an approved result always has a response.
abbrev sse_body : Option ChatResponse → Body
sse_body none = completion none
sse_body (some resp) = events (write_sse_response resp)

-- What `Handle` replies once `Execute` has returned.
pub reply_to : Bool → Outcome ProxyResult → HttpReply
reply_to stream (err e) = open_ai_error 500 "api_error" "proxy_error"
reply_to stream (ok r) =
    if r.status == "rejected"
    then record {
      status = 422;
      sheeld_status = some r.status;
      body = refusal "guardrail_rejection" (String.◌++◌ r.phase "_rejected");
    }
    else if stream
    then record { status = 200; sheeld_status = some r.status; body = sse_body r.llm_response }
    else record { status = 200; sheeld_status = some r.status; body = completion r.llm_response }

-- `Handle`: the reply, and the run of `Execute` if there is one. A body is `none` when it is not JSON.
pub record Handled : Type 0 where
  pub reply : HttpReply
  pub run : Option Execution

abbrev turned_away : ℕ → String → Handled
turned_away status code = record {
  reply = open_ai_error status "invalid_request_error" code;
  run = none;
}

abbrev decode_request : Option Json → Option ChatRequest
decode_request none = none
decode_request (some v) = unmarshal_request v

-- The request that is executed for a client's: never a streaming one.
abbrev pub buffered : ChatRequest → ChatRequest
buffered req = record req { stream = false }

unfoldable pub handle : Processor → String → ℕ → String → Option Json → Handled
unfolding reply_to
handle p request_id org_id route body =
    if org_id == 0
    then turned_away 401 "unauthorized"
    else if route == ""
    then turned_away 400 "missing_source_route"
    else elim (decode_request body) [
      | none ↦ turned_away 400 "invalid_body"
      | some req ↦
          let x = execute p request_id org_id route (buffered req) in
          if length req.messages == 0
          then turned_away 400 "missing_messages"
          else record { reply = reply_to req.stream x.outcome; run = some x }
    ]

-- `strings.SplitN(header, " ", 2)`: the two parts, when there is a space.
split_space : Str → Option (Str × Str)
split_space [] = none
split_space (b ∷ bs) =
    if b == 32
    then some ([], bs)
    else elim (split_space bs) [ none ↦ none | some (x, y) ↦ some (b ∷ x, y) ]

-- `strings.EqualFold` against "bearer": no other character folds to its letters.
abbrev fold_case : ℕ → ℕ
fold_case b = if leb 65 b && leb b 90 then b + 32 else b

abbrev is_bearer : Str → Bool
is_bearer scheme = map fold_case scheme == str "bearer"

-- The credential of an Authorization header.
unfoldable pub bearer_token : Str → Option Str
unfolding split_space
bearer_token header = elim (split_space header) [
  | none ↦ none
  | some (scheme, token) ↦ if is_bearer scheme then some token else none
]

pub data Access : Type 0 where
  denied : ℕ → Access
  granted : AuthInfo → Access

unfoldable pub api_key_auth : (Str → String) → Store → Str → Access
unfolding bearer_token
api_key_auth hash store header =
    if not (loaded store) then denied 503 else elim (bearer_token header) [
      | none ↦ denied 401
      | some key ↦ elim (lookup_api_key hash store key) [
        | none ↦ denied 401
        | some info ↦ granted info
      ]
    ]

-- `staticTokenAuth`: whether the request goes on to the internal routes.
unfoldable pub static_token_auth : Str → Str → Bool
unfolding bearer_token
static_token_auth token header = elim (bearer_token header) [
  | none ↦ false
  | some given ↦ given == token
]

-- The health check's status and version.
abbrev pub healthz : Store → ℕ × String
healthz store = if not (loaded store) then (503, "") else (200, version store)
