-- ===== src/Gateway/Replay.antt =====
-- What a client that asked for a stream receives.
use mathlib.Core.List.{append-nil}
use sheeld.Prelude.{◌≡◌, refl, ap, sym, ◌∙◌, List, [], ◌∷◌, ◌++◌, map, concat, Str, arith}
use sheeld.Llm.{ChatResponse, Choice}
use sheeld.Gateway.{
  Chunk, chunks_of, choice_chunks, content_chunk, finish_chunk, write_sse_response,
}
use sheeld.Gateway.Split.{split_content, split_content-Fits, stream_chunk_size}

-- The content that a client puts together from the events.
abbrev pub received : List Chunk → Str
received [] = []
received (c ∷ cs) = c.content ++ received cs

abbrev pub contents : List Choice → Str
contents [] = []
contents (c ∷ cs) = c.message.content ++ contents cs

append_assoc : (xs ys zs : Str) → (xs ++ ys) ++ zs ≡ xs ++ (ys ++ zs)
append_assoc [] ys zs = refl
append_assoc (x ∷ xs) ys zs = ap (λ l. x ∷ l) (append_assoc xs ys zs)

received-append : (cs ds : List Chunk) → received (cs ++ ds) ≡ received cs ++ received ds
received-append [] ds = refl
received-append (c ∷ cs) ds =
    ap (λ t. c.content ++ t) (received-append cs ds)
    ∙ sym (append_assoc c.content (received cs) (received ds))

received-pieces :
    (resp : ChatResponse) (c : Choice) (ps : List Str)
    → received (map (content_chunk resp c) ps) ≡ concat ps
received-pieces resp c [] = refl
received-pieces resp c (p ∷ ps) = ap (λ t. p ++ t) (received-pieces resp c ps)

received-choice :
    (resp : ChatResponse) (c : Choice) → received (choice_chunks resp c) ≡ c.message.content
received-choice resp c =
    let ps = split_content c.message.content stream_chunk_size in
    received-append (map (content_chunk resp c) ps) (finish_chunk resp c ∷ [])
    ∙ append-nil (received (map (content_chunk resp c) ps))
    ∙ received-pieces resp c ps
    ∙ (split_content-Fits c.message.content stream_chunk_size (omega arith)).0

received-choices :
    (resp : ChatResponse) (cs : List Choice) → received (chunks_of resp cs) ≡ contents cs
received-choices resp [] = refl
received-choices resp (c ∷ cs) =
    received-append (choice_chunks resp c) (chunks_of resp cs)
    ∙ ap (λ t. t ++ received (chunks_of resp cs)) (received-choice resp c)
    ∙ ap (λ t. c.message.content ++ t) (received-choices resp cs)

-- The content of the events of a response, put together, is the content of its choices, in order.
pub write_sse_response_lem :
    (resp : ChatResponse) → received (write_sse_response resp) ≡ contents resp.choices
unfolding write_sse_response
write_sse_response_lem resp = received-choices resp resp.choices
