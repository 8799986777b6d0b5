-- ===== src/Transform/Deanonymize.antt =====
-- internal/shared/transform/deanonymize.go: the transformer that puts the originals back.
pub mod Restores
use sheeld.Prelude.Outcome.{Outcome, ok}
use sheeld.Prelude.{
  ℕ, zero, suc, ◌-◌, ◌==◌, nat_eq, Bool, true, false, ◌&&◌, if◌then◌else◌, String, Str, List, [],
  ◌∷◌, ◌++◌, Option, none, some, length, map,
}
use sheeld.Guard.{CallMeta}
use sheeld.Llm.{Message}
use sheeld.Transform.{Rewriter}
use sheeld.Transform.Placeholders.{State, len}

abbrev pub is_prefix : Str → Str → Bool
is_prefix [] s = true
is_prefix (c ∷ p) [] = false
is_prefix (c ∷ p) (d ∷ s) = (c == d) && is_prefix p s

-- The first pair, in the order of the arguments, whose old text stands at the front of `s`: how much
-- of `s` it takes and what replaces it.
unfoldable pub match_pair : Str → List (Str × Str) → Option (ℕ × Str)
match_pair s [] = none
match_pair s ((old, new) ∷ ps) =
    let rest = match_pair s ps in if is_prefix old s then some (length old, new) else rest

-- The documented behaviour of `strings.NewReplacer(pairs...).Replace`, for old texts that are not empty:
-- replacements in the order they appear in the text, without overlaps. `skip` bytes are part of the last
-- match.
unfoldable pub replace_from : List (Str × Str) → ℕ → Str → Str
unfolding match_pair
replace_from ps skip [] = []
replace_from ps (suc skip) (c ∷ s) = replace_from ps skip s
replace_from ps zero (c ∷ s) = elim (match_pair (c ∷ s) ps) [
  | none ↦ c ∷ replace_from ps zero s
  | some (n, new) ↦ new ++ replace_from ps (n - 1) s
]

unfoldable pub replace_all : List (Str × Str) → Str → Str
unfolding replace_from
replace_all ps s = replace_from ps 0 s

unfoldable pub restore_content : List (Str × Str) → Message → Message
unfolding replace_all
restore_content ps m = record m { content = replace_all ps m.content }

-- `Transform`. The pairs are in the order of the store's list; a Go map is ranged over in any order.
unfoldable pub deanonymize : State → List Message → List Message
unfolding restore_content
deanonymize st msgs = if len st == 0 then msgs else map (restore_content st.mappings) msgs

-- `NewDeanonymizeTransformer`
unfoldable pub deanonymize_transformer : String → Rewriter
unfolding deanonymize
deanonymize_transformer name = record {
  name = name;
  kind = "deanonymize";
  apply = λ (ctx : Option CallMeta) st msgs. (ok (deanonymize st msgs), st);
}
