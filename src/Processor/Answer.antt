-- ===== src/Processor/Answer.antt =====
-- What `Execute` makes of the upstream's answer before the output guards see it.
use sheeld.Prelude.{◌≡◌, ◌⊎◌, arith, List, [], ◌∷◌, some, length, map}
use sheeld.Prelude.Outcome.{ok}
use sheeld.Llm.{ChatRequest, ChatResponse, Choice, Message}
use sheeld.Transform.{apply_all}
use sheeld.Transform.Placeholders.{State, fresh}
use sheeld.BackendConfig.{ResolvedSource}
use sheeld.Processor.{transformer_meta, message_of, put_messages}

-- The mappings that the input transformers leave to the output transformers.
abbrev pub left_state : ResolvedSource → ChatRequest → State
left_state s req =
    (apply_all s.input_transformers (some (transformer_meta "input" s)) fresh req.messages).state

-- The choices with these messages in place of theirs, one for each.
pub data Reworded : List Choice → List Message → List Choice → Type 0 where
  nothing_left : Reworded [] [] []
  reworded :
      (c : Choice) (m : Message) (cs : List Choice) (ms : List Message) (ds : List Choice)
      → Reworded cs ms ds
      → Reworded (c ∷ cs) (m ∷ ms) (record c { message = m } ∷ ds)

pub put_messages-Reworded :
    (cs : List Choice) (ms : List Message)
    → length ms ≡ length cs
    → Reworded cs ms (put_messages cs ms)
unfolding put_messages
put_messages-Reworded [] [] h = nothing_left
put_messages-Reworded [] (m ∷ ms) h = absurd (omega (arith, h))
put_messages-Reworded (c ∷ cs) [] h = absurd (omega (arith, h))
put_messages-Reworded (c ∷ cs) (m ∷ ms) h =
    reworded c m cs ms (put_messages cs ms) (put_messages-Reworded cs ms (omega (arith, h)))

-- What becomes of the upstream's answer: it is the response, where there are no output transformers or
-- no choices; or the response has what the output transformers made of its messages, and nothing else
-- is changed.
pub data Rewritten (s : ResolvedSource) (req : ChatRequest) (answer resp : ChatResponse)
    : Type 0 where
  as_received :
      (s.output_transformers ≡ []) ⊎ (answer.choices ≡ [])
      → resp ≡ answer
      → Rewritten s req answer resp
  transformed :
      (ms : List Message) (cs : List Choice)
      → ((apply_all s.output_transformers
            (some (transformer_meta "output" s))
            (left_state s req)
            (map message_of answer.choices)).outcome
          ≡ ok ms)
      → Reworded answer.choices ms cs
      → resp ≡ record answer { choices = cs }
      → Rewritten s req answer resp
