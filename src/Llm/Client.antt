-- ===== src/Llm/Client.antt =====
-- internal/shared/llm/client.go: `ChatCompletionAt` and `doOnce`. What the network and the request's
-- context do is the record `Network`; durations are counted in nanoseconds; metrics and logs are left
-- out, but for the number of attempts made and the waits between them.
pub mod Retry
use sheeld.Prelude.{
  ℕ, zero, suc, ◌+◌, ◌*◌, Bool, true, false, not, ◌==◌, nat_eq, leb, ltb, ◌&&◌, ◌||◌, if◌then◌else◌,
  String, Str, str, List, [], ◌∷◌, ◌++◌, Option, none, some, bytes_eq,
}
use sheeld.Prelude.Int.{ℤ, pos, negsuc, is_positive}
use sheeld.Json.{Json}
use sheeld.Llm.{ChatRequest, ChatResponse}
use sheeld.Llm.Codec.{marshal_request}
use sheeld.Llm.Response.{unmarshal_response}

pub record Client : Type 0 where
  pub base_url : Str
  pub max_retries : ℕ
  pub base_backoff : ℕ

abbrev pub new_client : Str → Client
new_client base_url = record { base_url = base_url; max_retries = 2; base_backoff = 200000000 }

-- A negative number of retries counts as none; a backoff that is not positive keeps the old one.
abbrev pub with_retry : Client → ℤ → ℤ → Client
with_retry c max_retries base_backoff = record c {
  max_retries = elim max_retries [ pos n ↦ n | negsuc n ↦ 0 ];
  base_backoff = elim base_backoff [
    | pos n ↦ if ltb 0 n then n else c.base_backoff
    | negsuc n ↦ c.base_backoff
  ];
}

pub record HttpRequest : Type 0 where
  pub url : Str
  pub bearer : Str
  pub body : Json

-- How one HTTP exchange ends. A body is `none` when it is not JSON.
pub data Exchange : Type 0 where
  invalid_request : Exchange
  not_sent : Bool → Exchange
  not_read : Exchange
  replied : ℕ → Option Json → Exchange

-- `not_sent interrupted`: the error is context.Canceled or context.DeadlineExceeded. `context_over n`
-- is `ctx.Err() != nil` after attempt `n`; `over_in_wait n`: the context ends in the wait before it.
pub record Network : Type 0 where
  pub exchange : ℕ → HttpRequest → Exchange
  pub context_over : ℕ → Bool
  pub over_in_wait : ℕ → Bool

pub data Attempt : Type 0 where
  success : ChatResponse → Attempt
  failure : Bool → Attempt

abbrev retryable_status : ℕ → Bool
retryable_status code = (code == 429) || leb 500 code

abbrev decoded : Option Json → Attempt
decoded none = failure false
decoded (some v) = elim (unmarshal_response v) [ none ↦ failure false | some r ↦ success r ]

abbrev judge : Bool → Exchange → Attempt
judge over invalid_request = failure false
judge over (not_sent interrupted) = failure (not over && not interrupted)
judge over not_read = failure true
judge over (replied code body) =
    if code == 200 then decoded body else failure (retryable_status code)

pub do_once : Network → ℕ → HttpRequest → Attempt
do_once net attempt req = judge (net.context_over attempt) (net.exchange attempt req)

-- Why a call failed: an error not worth retrying or a context that is over, a context that ended in
-- a wait, or the last attempt's transient error.
pub data Failure : Type 0 where
  rejected cancelled exhausted : Failure

pub data Reply : Type 0 where
  response : ChatResponse → Reply
  failed : Failure → Reply

pub record Call : Type 0 where
  pub reply : Reply
  pub attempts : ℕ
  pub waits : List ℕ

-- A call that ends after attempt `attempt`.
abbrev pub ended : Reply → ℕ → List ℕ → Call
ended r attempt waits = record { reply = r; attempts = suc attempt; waits = waits }

-- What the loop does with one attempt; `go` is what follows a failure worth retrying.
abbrev pub after : Bool → Attempt → ℕ → List ℕ → Call → Call
after over (success r) attempt waits go = ended (response r) attempt waits
after over (failure retryable) attempt waits go =
    if not retryable || over then ended (failed rejected) attempt waits else go

-- The wait before the next attempt, which the context may end.
abbrev pub wait : Bool → ℕ → List ℕ → Call → Call
wait over attempt waits go = if over then ended (failed cancelled) attempt waits else go

-- Attempt `attempt` and what follows; `left` more attempts are allowed after it.
pub rounds : Network → HttpRequest → ℕ → ℕ → ℕ → List ℕ → Call
unfolding do_once
rounds net req zero attempt backoff waits =
    after (net.context_over attempt) (do_once net attempt req) attempt waits
      (ended (failed exhausted) attempt waits)
rounds net req (suc left) attempt backoff waits =
    let go = rounds net req left (suc attempt) (backoff * 2) (waits ++ backoff ∷ []) in
    after (net.context_over attempt) (do_once net attempt req) attempt waits
      (wait (net.over_in_wait (suc attempt)) attempt waits go)

unfoldable pub chat_completion_at : Client → Network → Str → Str → ChatRequest → Call
unfolding rounds
chat_completion_at c net base_url api_key req =
    let url = if base_url == [] then c.base_url else base_url in
    rounds net
      (record {
        url = url ++ str "/chat/completions";
        bearer = api_key;
        body = marshal_request req;
      })
      c.max_retries 0 c.base_backoff []

abbrev pub chat_completion : Client → Network → Str → ChatRequest → Call
chat_completion c net api_key req = chat_completion_at c net [] api_key req
