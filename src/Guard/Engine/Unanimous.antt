-- ===== src/Guard/Engine/Unanimous.antt =====
-- Guards that let a text through one by one let it through together under "all".
use sheeld.Prelude.{
  ◌≡◌, ◌∙◌, inl, inr, sym, subst, refl, true, Bool-cases, beq-apart, string_eq, List, [], ◌∷◌, map,
  Str, Option, String, All,
}
use sheeld.Guard.{
  GuardResult, Guard, CallMeta, validated, errored, validate, marked_fail_open, marked_shadow,
}
use sheeld.Guard.Engine.{run, run_guard, EvalConfig}
use sheeld.Guard.Engine.Counts.{results-run}
use sheeld.Guard.Engine.Decision.{PassesIfEnforced, passed_unanimous_iff}

-- A guard that does not stand in the way: its validator passes the text, or it is in shadow, or it errs
-- and is fail-open.
pub data Allows (ctx : Option CallMeta) (input : Str) (g : Guard) : Type 0 where
  passes :
      (r : GuardResult) → validate g ctx input ≡ validated r → r.passed ≡ true → Allows ctx input g
  in_shadow : marked_shadow g ≡ true → Allows ctx input g
  fails_open :
      (e : String)
      → validate g ctx input ≡ errored e
      → marked_fail_open g ≡ true
      → Allows ctx input g

run_guard-PassesIfEnforced :
    (ctx : Option CallMeta) (input : Str) (g : Guard)
    → Allows ctx input g
    → PassesIfEnforced (run_guard ctx input g)
unfolding run_guard
run_guard-PassesIfEnforced ctx input g (in_shadow h) = rw h (λ e. absurd (cc e))
run_guard-PassesIfEnforced ctx input g (passes r v p) = elim (Bool-cases (marked_shadow g)) [
  | inl h ↦ rw h (λ e. absurd (cc e))
  | inr h ↦ rw (h, v, run_guard) (λ e. p)
]
run_guard-PassesIfEnforced ctx input g (fails_open m v o) = elim (Bool-cases (marked_shadow g)) [
  | inl h ↦ rw h (λ e. absurd (cc e))
  | inr h ↦ rw (h, v, run_guard) (λ e. o)
]

results-PassesIfEnforced :
    (ctx : Option CallMeta) (input : Str) (gs : List Guard)
    → All (Allows ctx input) gs
    → All PassesIfEnforced (map (run_guard ctx input) gs)
results-PassesIfEnforced ctx input [] h = tt
results-PassesIfEnforced ctx input (g ∷ gs) h =
    (run_guard-PassesIfEnforced ctx input g h.0, results-PassesIfEnforced ctx input gs h.1)

pub passed-allowed :
    (gs : List Guard) (ctx : Option CallMeta) (input : Str) (cfg : EvalConfig)
    → cfg.criteria ≡ "all"
    → All (Allows ctx input) gs
    → (run gs ctx input cfg).passed ≡ true
passed-allowed gs ctx input cfg c h =
    (passed_unanimous_iff gs ctx input cfg (λ e. beq-apart "all" "any" refl (sym c ∙ e))
        (λ e. beq-apart "all" "n_of_m" refl (sym c ∙ e))).1
      (subst (All PassesIfEnforced) (sym (results-run gs ctx input cfg))
        (results-PassesIfEnforced ctx input gs h))
