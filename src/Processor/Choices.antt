-- ===== src/Processor/Choices.antt =====
-- What the output guards see of a response with several choices.
use sheeld.Prelude.{◌≡◌, refl, List, ◌∷◌}
use sheeld.Llm.{ChatResponse, Choice, extract_output_text}
use sheeld.BackendConfig.{ResolvedSource}
use sheeld.Processor.Ending.{output_decision}

-- The output guards decide on the first choice alone: responses that differ only in the choices after
-- it are decided alike.
first_choice_decides :
    (s : ResolvedSource) (resp : ChatResponse) (c : Choice) (others others' : List Choice)
    → output_decision s (record resp { choices = c ∷ others })
      ≡ output_decision s (record resp { choices = c ∷ others' })
unfolding extract_output_text
first_choice_decides s resp c others others' = refl
