-- ===== src/Registry.antt =====
-- internal/shared/guard/registry.go and internal/shared/transform/registry.go: a registry maps type
-- names to factories. Both are the same code, for guards and for transformers.
use Prim.Native.String
use sheeld.Prelude.{Bool, true, false, String, string_eq, List, none, some, lookup, insert}
use sheeld.Prelude.Outcome.{Outcome, err}
use sheeld.Json.{Json}

abbrev pub Factory : Type 0 → Type 0
Factory A = String → Json → Outcome A

abbrev pub Registry : Type 0 → Type 0
Registry A = List (String × Factory A)

abbrev pub unknown_type : String → String
unknown_type kind = String.◌++◌ "unknown type: " kind

module _ {A : Type 0} where
  unfoldable pub register : Registry A → String → Factory A → Registry A
  register r kind factory = insert kind factory r

  -- `Has` of the transformers' registry.
  unfoldable pub has : Registry A → String → Bool
  has r kind = elim (lookup kind r) [ none ↦ false | some factory ↦ true ]

  unfoldable pub create : Registry A → String → String → Json → Outcome A
  create r kind name config = elim (lookup kind r) [
    | none ↦ err (unknown_type kind)
    | some factory ↦ factory name config
  ]
