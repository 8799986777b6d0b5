-- ===== src/Gateway/Passthrough.antt =====
-- The members of a request that the gateway does not know, from the client to the upstream.
use sheeld.Prelude.{◌≡◌, String, lookup, string_eq, nat_eq}
use sheeld.Json.{Json}
use sheeld.Llm.{Extra}
use sheeld.Llm.Codec.{request_members}
use sheeld.Processor.{Processor, LlmCall}

-- Under this name the call carries what the client wrote.
abbrev pub Carries : String → Extra → LlmCall → Type 0
Carries key raw call = lookup key (request_members call.request) ≡ lookup key raw
