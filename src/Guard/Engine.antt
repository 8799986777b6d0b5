-- ===== src/Guard/Engine.antt =====
-- internal/shared/guard/engine.go: `Engine.Run` and `evaluate`. The goroutines of `Run` are
-- the calls of `run_guard`; how they interleave is the matter of the child Schedule.
pub mod Counts
pub mod Decision
pub mod Schedule
pub mod Shadow
pub mod Unanimous
use sheeld.Prelude.{
  ℕ, ◌+◌, Bool, true, false, ◌&&◌, ◌||◌, not, ◌==◌, string_eq, nat_eq, ltb, if◌then◌else◌, String,
  Str, List, [], ◌∷◌, Option, none, some, map,
}
use sheeld.Prelude.Int.{ℤ, pos, leb_count}
use sheeld.Json.{Json, obj, bool, field, end}
use sheeld.Guard.{
  CallMeta, GuardResult, Validation, validated, errored, Guard, guard_name, guard_type, validate,
  marked_fail_open, marked_shadow,
}
use Prim.Native.String

abbrev pub criteria_all : String
criteria_all = "all"

abbrev pub criteria_any : String
criteria_any = "any"

abbrev pub criteria_n_of_m : String
criteria_n_of_m = "n_of_m"

pub record EvalConfig : Type 0 where
  pub criteria : String
  pub threshold : ℤ

pub record EngineResult : Type 0 where
  pub passed : Bool
  pub criteria : String
  pub threshold : Option ℤ
  pub results : List GuardResult
  pub pass_count : ℕ
  pub fail_count : ℕ

-- The result that stands in for an error: passed exactly when the guard is marked fail-open.
pub error_result : Guard → String → GuardResult
error_result g e = record {
  guard_name = guard_name g;
  guard_type = guard_type g;
  passed = marked_fail_open g;
  message = String.◌++◌ "guard error: " e;
  details = obj (field "errored" (bool true) end);
  shadow = false;
}

settle : Guard → Validation → GuardResult
settle g (validated r) = r
settle g (errored e) = error_result g e

mark_shadow : Bool → GuardResult → GuardResult
mark_shadow true r = record r { shadow = true }
mark_shadow false r = r

-- The body of one goroutine.
unfoldable pub run_guard : Option CallMeta → Str → Guard → GuardResult
unfolding settle error_result mark_shadow
run_guard ctx input g = mark_shadow (marked_shadow g) (settle g (validate g ctx input))

pub evaluate : EvalConfig → ℕ → ℕ → Bool
evaluate cfg pass_count total =
    if cfg.criteria == criteria_all
    then pass_count == total
    else if cfg.criteria == criteria_any
    then ltb 0 pass_count
    else if cfg.criteria == criteria_n_of_m
    then leb_count cfg.threshold pass_count
    else (pass_count == total)

pub record Tally : Type 0 where
  pub pass_count : ℕ
  pub fail_count : ℕ
  pub enforcing : ℕ

-- One round of the counting loop, and the loop.
pub count_result : Tally → GuardResult → Tally
count_result t r =
    if r.shadow
    then t
    else if r.passed
    then record t { pass_count = t.pass_count + 1; enforcing = t.enforcing + 1 }
    else record t { fail_count = t.fail_count + 1; enforcing = t.enforcing + 1 }

pub tally : Tally → List GuardResult → Tally
unfolding count_result
tally t [] = t
tally t (r ∷ rs) = tally (count_result t r) rs

-- What `Run` does once all goroutines have written their results.
pub conclude : EvalConfig → List GuardResult → EngineResult
unfolding tally evaluate
conclude cfg results =
    let t = tally (record { pass_count = 0; fail_count = 0; enforcing = 0 }) results in
    record {
      passed = (t.enforcing == 0) || evaluate cfg t.pass_count t.enforcing;
      criteria = cfg.criteria;
      threshold = if cfg.criteria == criteria_n_of_m then some cfg.threshold else none;
      results = results;
      pass_count = t.pass_count;
      fail_count = t.fail_count;
    }

-- `Engine.Run`; its error is always nil.
unfoldable pub run : List Guard → Option CallMeta → Str → EvalConfig → EngineResult
unfolding run_guard conclude
run [] ctx input cfg = record {
  passed = true;
  criteria = cfg.criteria;
  threshold = none;
  results = [];
  pass_count = 0;
  fail_count = 0;
}
run (g ∷ gs) ctx input cfg = conclude cfg (map (run_guard ctx input) (g ∷ gs))
