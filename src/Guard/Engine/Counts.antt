-- ===== src/Guard/Engine/Counts.antt =====
-- The counting loop of `Engine.Run` against plain counts over the list of results.
use sheeld.Prelude.{
  ℕ, ◌+◌, suc, ◌≡◌, refl, not, ◌&&◌, List, [], ◌∷◌, map, arith, if◌then◌else◌, Str, Option,
}
use sheeld.Guard.{GuardResult, Guard, CallMeta}
use sheeld.Guard.Engine.{Tally, tally, count_result, run, run_guard, EvalConfig}

-- How many enforcing results passed, and how many failed.
abbrev pub passes : List GuardResult → ℕ
passes [] = 0
passes (r ∷ rs) = if not r.shadow && r.passed then suc (passes rs) else passes rs

abbrev pub fails : List GuardResult → ℕ
fails [] = 0
fails (r ∷ rs) = if not r.shadow && not r.passed then suc (fails rs) else fails rs

pub tally_lem :
    (t : Tally) (rs : List GuardResult)
    → ((tally t rs).pass_count ≡ t.pass_count + passes rs)
      × ((tally t rs).fail_count ≡ t.fail_count + fails rs)
      × ((tally t rs).enforcing ≡ t.enforcing + passes rs + fails rs)
unfolding tally
tally_lem t [] = (omega arith, omega arith, omega arith)
tally_lem t (r ∷ rs) = ground (arith, tally_lem (count_result t r) rs)

pub results-run :
    (gs : List Guard) (ctx : Option CallMeta) (input : Str) (cfg : EvalConfig)
    → (run gs ctx input cfg).results ≡ map (run_guard ctx input) gs
unfolding run
results-run [] ctx input cfg = refl
results-run (g ∷ gs) ctx input cfg = refl

-- `Run` reports one result for each guard, in the guards' order, and its counts are the numbers of
-- enforcing results that passed and that failed.
pub run_counts :
    (gs : List Guard) (ctx : Option CallMeta) (input : Str) (cfg : EvalConfig)
    → ((run gs ctx input cfg).results ≡ map (run_guard ctx input) gs)
      × ((run gs ctx input cfg).pass_count ≡ passes (run gs ctx input cfg).results)
      × ((run gs ctx input cfg).fail_count ≡ fails (run gs ctx input cfg).results)
unfolding run
run_counts [] ctx input cfg = (refl, refl, refl)
run_counts (g ∷ gs) ctx input cfg =
    let t =
      tally_lem (record { pass_count = 0; fail_count = 0; enforcing = 0 })
        (map (run_guard ctx input) (g ∷ gs)) in
    (refl, omega (arith, t.0), omega (arith, t.1))
