-- ===== src/Transform/Placeholders.antt =====
-- internal/shared/transform/state.go: the per-request store of placeholders. The lock makes each
-- method one step; a Go map is an association list.
pub mod Injective
pub mod Allocation
use sheeld.Prelude.{
  ℕ, zero, suc, ◌+◌, ◌==◌, bytes_eq, if◌then◌else◌, Str, str, List, [], ◌∷◌, ◌++◌, Option, none,
  some, lookup, insert, length,
}
use sheeld.Prelude.Decimal.{decimal}

pub record State : Type 0 where
  pub mappings : List (Str × Str)
  pub counters : List (Str × ℕ)

-- `WithState` starts from this.
abbrev pub fresh : State
fresh = record { mappings = []; counters = [] }

-- The search of `AllocatePlaceholder` for a mapping to `original`.
placeholder_of : Str → List (Str × Str) → Option Str
placeholder_of original [] = none
placeholder_of original ((p, o) ∷ m) = if o == original then some p else placeholder_of original m

-- A missing key of a Go map reads as zero.
abbrev pub counter : Str → List (Str × ℕ) → ℕ
counter k m = elim (lookup k m) [ none ↦ 0 | some n ↦ n ]

-- `fmt.Sprintf("<%s_%d>", entityType, n)`
unfoldable pub placeholder : Str → ℕ → Str
unfolding decimal
placeholder entity n = str "<" ++ (entity ++ (str "_" ++ (decimal n ++ str ">")))

unfoldable pub allocate_placeholder : State → Str → Str → Str × State
unfolding placeholder_of placeholder
allocate_placeholder s entity original = elim (placeholder_of original s.mappings) [
  | some p ↦ (p, s)
  | none ↦
      let n = suc (counter entity s.counters) in
      let p = placeholder entity n in
      (p, record { mappings = insert p original s.mappings; counters = insert entity n s.counters })
]

-- `Len`; `Mappings` returns a copy, which is the list itself here.
abbrev pub len : State → ℕ
len s = length s.mappings
