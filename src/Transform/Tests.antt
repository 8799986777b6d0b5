-- ===== src/Transform/Tests.antt =====
-- The transformers' theorems at concrete chains and stores.
use sheeld.Prelude.{◌≡◌, ◌↔◌, refl, str, List, [], ◌∷◌, none}
use sheeld.Prelude.Outcome.{ok}
use sheeld.Llm.{Message}
use sheeld.Transform.{Transformer, with_fail_open, transform, apply_all}
use sheeld.Transform.Chain.{Runs, apply_all_iff}
use sheeld.Transform.Placeholders.{fresh, allocate_placeholder}
use sheeld.Transform.Placeholders.Allocation.{
  Allocates, fresh-IsConsistent, allocate_placeholder-Allocates,
}
use sheeld.Samples.{message, hello, redacts, fails}

abbrev chain : List Transformer
chain = with_fail_open fails ∷ redacts ∷ []

abbrev redacted : List Message
redacted = record (message hello) { content = str "redacted" } ∷ []

chain_redacts : (apply_all chain none fresh (message hello ∷ [])).outcome ≡ ok redacted
unfolding apply_all transform
chain_redacts = refl

apply_all_iff_example :
    (((apply_all chain none fresh (message hello ∷ [])).outcome ≡ ok redacted)
      × ((apply_all chain none fresh (message hello ∷ [])).state ≡ fresh))
    ↔ Runs none chain fresh (message hello ∷ []) redacted fresh
apply_all_iff_example = apply_all_iff none chain fresh (message hello ∷ []) redacted fresh

allocate_placeholder-Allocates_example :
    Allocates fresh
      (str "Ann")
      (allocate_placeholder fresh (str "PERSON") (str "Ann")).0
      (allocate_placeholder fresh (str "PERSON") (str "Ann")).1
allocate_placeholder-Allocates_example =
    allocate_placeholder-Allocates fresh (str "PERSON") (str "Ann") fresh-IsConsistent
