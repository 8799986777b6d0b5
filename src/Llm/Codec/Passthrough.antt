-- ===== src/Llm/Codec/Passthrough.antt =====
-- The members of a request that the gateway does not know.
use sheeld.Prelude.{
  ◌≡◌, refl, ap, sym, false, Option-cases, inl, inr, String, [], some, map, lookup, insert, remove,
  lookup-insert, lookup-remove, string_eq, ◌==◌,
}
use sheeld.Json.{Json, bool, arr, text, of_items}
use sheeld.Llm.{ChatRequest, Extra}
use sheeld.Llm.Codec.{
  unmarshal_request, request_members, marshal_message, decode_map, decode_field, decode_string,
  decode_messages, decode_bool,
}

some_inj {ℓ} : {A : Type ℓ} (a b : A) → some a ≡ some b → a ≡ b
some_inj a b h = cc

extra-unmarshal_request :
    (v : Json) (raw : Extra) (r : ChatRequest)
    → decode_map v ≡ some raw
    → unmarshal_request v ≡ some r
    → r.extra ≡ remove "stream" (remove "messages" (remove "model" raw))
unfolding unmarshal_request
extra-unmarshal_request v raw r d h =
    elim (Option-cases (decode_field [] decode_string (lookup "model" raw))) [
      | inl m ↦ absurd (cc (rw (d, m) at h))
      | inr (model, m) ↦
          elim (Option-cases (decode_field [] decode_messages (lookup "messages" raw))) [
            | inl k ↦ absurd (cc (rw (d, m, k) at h))
            | inr (messages, k) ↦
                elim (Option-cases (decode_field false decode_bool (lookup "stream" raw))) [
                  | inl t ↦ absurd (cc (rw (d, m, k, t) at h))
                  | inr (stream, t) ↦ sym (ap (λ y. y.extra) (some_inj _ r (rw (d, m, k, t) at h)))
                ]
          ]
    ]

-- A member that the gateway does not know is sent as it is in the request.
pub lookup-request_members :
    (r : ChatRequest) (key : String)
    → ("model" == key) ≡ false
    → ("messages" == key) ≡ false
    → ("stream" == key) ≡ false
    → lookup key (request_members r) ≡ lookup key r.extra
lookup-request_members r key m k s =
    rw
      (
        lookup-insert "stream" key (bool r.stream) (
            insert "messages" (arr (of_items (map marshal_message r.messages)))
              (insert "model" (text r.model) r.extra)),
        lookup-insert "messages" key (arr (of_items (map marshal_message r.messages)))
            (insert "model" (text r.model) r.extra),
        lookup-insert "model" key (text r.model) r.extra,
        m,
        k,
        s,
      )
      refl

-- A member that the gateway does not know is read as it was written.
pub lookup-extra :
    (v : Json) (raw : Extra) (r : ChatRequest) (key : String)
    → decode_map v ≡ some raw
    → unmarshal_request v ≡ some r
    → ("model" == key) ≡ false
    → ("messages" == key) ≡ false
    → ("stream" == key) ≡ false
    → lookup key r.extra ≡ lookup key raw
lookup-extra v raw r key d h m k s =
    rw
      (
        extra-unmarshal_request v raw r d h,
        lookup-remove "stream" key (remove "messages" (remove "model" raw)),
        lookup-remove "messages" key (remove "model" raw),
        lookup-remove "model" key raw,
        m,
        k,
        s,
      )
      refl
