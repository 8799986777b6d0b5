-- ===== src/Guard/Engine/Decision.antt =====
-- When `Engine.Run` lets a request through, by criteria, and what cannot change its decision.
use sheeld.Prelude.{
  ◌+◌, ◌≤◌, ◌≡◌, ◌≢◌, ◌↔◌, ◌⊎◌, inl, inr, refl, Bool, true, false, ◌==◌, eq_iff, string_eq, nat_eq,
  List, [], ◌∷◌, map, arith, if◌then◌else◌, Str, Option, some, ltb, String, All, Bool-cases,
}
use sheeld.Prelude.Int.{leb_count}
use sheeld.Guard.{GuardResult, Guard, CallMeta, errored, validate, marked_fail_open, marked_shadow}
use sheeld.Guard.Engine.{
  conclude, run, run_guard, evaluate, EvalConfig, EngineResult, criteria_any, criteria_n_of_m,
}
use sheeld.Guard.Engine.Counts.{passes, fails, tally_lem, results-run}

-- Some element has the property.
abbrev pub Some {ℓ} : {A : Type ℓ} → (A → Type 0) → List A → Type 0
Some P [] = ⊥
Some P (x ∷ xs) = P x ⊎ Some P xs

abbrev pub Passes : GuardResult → Type 0
Passes r = (r.shadow ≡ false) × (r.passed ≡ true)

abbrev pub PassesIfEnforced : GuardResult → Type 0
PassesIfEnforced r = r.shadow ≡ false → r.passed ≡ true

abbrev pub IsShadow : GuardResult → Type 0
IsShadow r = r.shadow ≡ true

-- The decision, with the counting loop replaced by the counts.
abbrev pub decision : EvalConfig → List GuardResult → Bool
decision cfg rs =
    if (passes rs + fails rs) == 0 then true else evaluate cfg (passes rs) (passes rs + fails rs)

passed-conclude :
    (cfg : EvalConfig) (rs : List GuardResult) → (conclude cfg rs).passed ≡ decision cfg rs
unfolding conclude
passed-conclude cfg rs =
    ground (arith, tally_lem (record { pass_count = 0; fail_count = 0; enforcing = 0 }) rs)

pub passed-run :
    (gs : List Guard) (ctx : Option CallMeta) (input : Str) (cfg : EvalConfig)
    → (run gs ctx input cfg).passed ≡ decision cfg (run gs ctx input cfg).results
unfolding run
passed-run [] ctx input cfg = refl
passed-run (g ∷ gs) ctx input cfg = passed-conclude cfg (map (run_guard ctx input) (g ∷ gs))

fails_none_iff : (rs : List GuardResult) → (fails rs ≡ 0) ↔ All PassesIfEnforced rs
fails_none_iff [] = ground arith
fails_none_iff (r ∷ rs) = ground (arith, fails_none_iff rs)

passes_one_iff : (rs : List GuardResult) → (1 ≤ passes rs) ↔ Some Passes rs
passes_one_iff [] = ground arith
passes_one_iff (r ∷ rs) = ground (arith, passes_one_iff rs)

none_enforced_iff : (rs : List GuardResult) → (passes rs + fails rs ≡ 0) ↔ All IsShadow rs
none_enforced_iff [] = ground arith
none_enforced_iff (r ∷ rs) = ground (arith, none_enforced_iff rs)

decision-any :
    (cfg : EvalConfig) (rs : List GuardResult)
    → cfg.criteria ≡ criteria_any
    → decision cfg rs ≡ (if (passes rs + fails rs) == 0 then true else ltb 0 (passes rs))
unfolding evaluate
decision-any cfg rs h = rw (h, evaluate)

decision-n_of_m :
    (cfg : EvalConfig) (rs : List GuardResult)
    → cfg.criteria ≡ criteria_n_of_m
    → decision cfg rs
      ≡ (if (passes rs + fails rs) == 0 then true else leb_count cfg.threshold (passes rs))
unfolding evaluate
decision-n_of_m cfg rs h = rw (h, evaluate)

threshold-run :
    (gs : List Guard) (ctx : Option CallMeta) (input : Str) (cfg : EvalConfig)
    → gs ≢ []
    → cfg.criteria ≡ criteria_n_of_m
    → (run gs ctx input cfg).threshold ≡ some cfg.threshold
unfolding run conclude
threshold-run [] ctx input cfg n h = absurd (n refl)
threshold-run (g ∷ gs) ctx input cfg n h = ground (arith, eq_iff cfg.criteria criteria_n_of_m)

module _ (gs : List Guard) (ctx : Option CallMeta) (input : Str) (cfg : EvalConfig) where
  abbrev result : EngineResult
  result = run gs ctx input cfg

  -- Under "all", and under any criteria that the engine does not know, a request passes exactly when
  -- every result that is not shadow passed.
  pub passed_unanimous_iff :
      cfg.criteria ≢ criteria_any
      → cfg.criteria ≢ criteria_n_of_m
      → ((run gs ctx input cfg).passed ≡ true) ↔ All PassesIfEnforced (run gs ctx input cfg).results
  unfolding evaluate
  passed_unanimous_iff h k = ground (
    arith,
    passed-run gs ctx input cfg,
    fails_none_iff result.results,
    eq_iff cfg.criteria criteria_any,
    eq_iff cfg.criteria criteria_n_of_m,
  )

  -- Under "any" a request passes exactly when some enforcing result passed, or none is enforcing.
  passed_any_iff :
      cfg.criteria ≡ criteria_any
      → ((run gs ctx input cfg).passed ≡ true)
        ↔ (Some Passes (run gs ctx input cfg).results ⊎ All IsShadow (run gs ctx input cfg).results)
  passed_any_iff h = ground (
    arith,
    passed-run gs ctx input cfg,
    decision-any cfg result.results h,
    passes_one_iff result.results,
    none_enforced_iff result.results,
  )

  -- Under "n_of_m" a request passes exactly when the passing enforcing results reach the threshold,
  -- or none is enforcing; and the result records the threshold.
  passed_n_of_m_iff :
      gs ≢ []
      → cfg.criteria ≡ criteria_n_of_m
      → (((run gs ctx input cfg).passed ≡ true) ↔ (
          (leb_count cfg.threshold (passes (run gs ctx input cfg).results) ≡ true)
          ⊎ All IsShadow (run gs ctx input cfg).results))
        × ((run gs ctx input cfg).threshold ≡ some cfg.threshold)
  passed_n_of_m_iff n h = (
    ground (
      arith,
      passed-run gs ctx input cfg,
      decision-n_of_m cfg result.results h,
      none_enforced_iff result.results,
    ),
    threshold-run gs ctx input cfg n h,
  )

-- A guard that cannot decide: it errs, and is marked neither fail-open nor shadow.
pub record BlocksOnError (ctx : Option CallMeta) (input : Str) (g : Guard) : Type 0 where
  pub error : String
  pub fails_with : validate g ctx input ≡ errored error
  pub closed : marked_fail_open g ≡ false
  pub enforced : marked_shadow g ≡ false

run_guard-error :
    (ctx : Option CallMeta) (input : Str) (g : Guard)
    → BlocksOnError ctx input g
    → ((run_guard ctx input g).shadow ≡ false) × ((run_guard ctx input g).passed ≡ false)
unfolding run_guard
run_guard-error ctx input g b = rw (b.fails_with, b.closed, b.enforced, run_guard) (ground arith)

Some-not-All :
    (ctx : Option CallMeta) (input : Str) (gs : List Guard)
    → Some (BlocksOnError ctx input) gs
    → ¬ All PassesIfEnforced (map (run_guard ctx input) gs)
Some-not-All ctx input [] h a = elim h [ ]
Some-not-All ctx input (g ∷ gs) (inl b) a =
    let (s, p) = run_guard-error ctx input g b in cc (a.0 s, p)
Some-not-All ctx input (g ∷ gs) (inr h) a = Some-not-All ctx input gs h a.1

-- Under "all" the engine fails closed: one enforcing guard whose check errs, and that is not marked
-- fail-open, rejects the request.
pub fails_closed :
    (gs : List Guard) (ctx : Option CallMeta) (input : Str) (cfg : EvalConfig)
    → cfg.criteria ≢ criteria_any
    → cfg.criteria ≢ criteria_n_of_m
    → Some (BlocksOnError ctx input) gs
    → (run gs ctx input cfg).passed ≡ false
fails_closed gs ctx input cfg h k b = elim (Bool-cases (run gs ctx input cfg).passed) [
  | inl passed ↦ absurd (
      Some-not-All ctx input gs b (
        rw (results-run gs ctx input cfg) at
          ((passed_unanimous_iff gs ctx input cfg h k).0 passed)))
  | inr rejected ↦ rejected
]
