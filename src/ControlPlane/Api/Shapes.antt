-- ===== src/ControlPlane/Api/Shapes.antt =====
-- The shapes of the bodies of the API's replies, and what it is for a reply to be as declared. An error's
-- body is one of the two that internal/shared/response writes.
use sheeld.Prelude.{ℕ, ◌≤◌, ◌<◌, ◌≡◌}
use sheeld.ControlPlane.Api.{
  Payload, Response, error_body, validation_body, status_body, source_body, sources_body,
  summaries_body, guardrail_body, guardrails_body, result_body, transformer_body, transformers_body,
  connections_body, webhook_body, webhooks_body, registered_body, session_body, token_body,
  new_key_body, keys_body, proxied_body, config_body, no_body,
}

pub data Shape : Type 0 where
  error_shape status_shape source_shape sources_shape summaries_shape guardrail_shape : Shape
  guardrails_shape result_shape transformer_shape transformers_shape connections_shape : Shape
  webhook_shape webhooks_shape registered_shape session_shape token_shape new_key_shape : Shape
  keys_shape proxied_shape config_shape empty_shape : Shape

abbrev pub shape_of : Payload → Shape
shape_of (error_body e) = error_shape
shape_of (validation_body f m) = error_shape
shape_of (status_body s) = status_shape
shape_of (source_body s) = source_shape
shape_of (sources_body s) = sources_shape
shape_of (summaries_body s) = summaries_shape
shape_of (guardrail_body g) = guardrail_shape
shape_of (guardrails_body g) = guardrails_shape
shape_of (result_body r) = result_shape
shape_of (transformer_body t) = transformer_shape
shape_of (transformers_body t) = transformers_shape
shape_of (connections_body c) = connections_shape
shape_of (webhook_body w) = webhook_shape
shape_of (webhooks_body w) = webhooks_shape
shape_of (registered_body r) = registered_shape
shape_of (session_body s) = session_shape
shape_of (token_body t) = token_shape
shape_of (new_key_body k raw) = new_key_shape
shape_of (keys_body k) = keys_shape
shape_of (proxied_body b) = proxied_shape
shape_of (config_body c) = config_shape
shape_of no_body = empty_shape

-- A reply that is no error has the status and the shape declared; an error has an error's shape.
abbrev pub Documented : ℕ → Shape → Response → Type 0
Documented success shape response =
    (response.status < 400 → (response.status ≡ success) × (shape_of response.payload ≡ shape))
    × (400 ≤ response.status → shape_of response.payload ≡ error_shape)
