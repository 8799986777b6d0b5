-- ===== src/Guard/Tests.antt =====
-- The engine's theorems at concrete runs.
use sheeld.Prelude.{
  ◌≡◌, ◌↔◌, refl, true, false, inl, inr, List, [], ◌∷◌, string_eq, beq-apart, none, some, All,
}
use sheeld.Guard.{Guard, marked_shadow, validate, marked_fail_open}
use sheeld.Guard.Engine.{run, run_guard, conclude}
use sheeld.Guard.Engine.Decision.{PassesIfEnforced, passed_unanimous_iff, fails_closed}
use sheeld.Guard.Engine.Schedule.{
  start, Slots, Reach, here, next, finish, collect, schedule_irrelevant,
}
use sheeld.Guard.Engine.Shadow.{shadow_irrelevant, enforcing}
use sheeld.Samples.{mixed, under, hello, blocks_bad, blocks_hello, broken}

mixed_passes : (run mixed none hello (under "all")).passed ≡ true
unfolding run marked_shadow validate marked_fail_open
mixed_passes = refl

mixed_counts : (run mixed none hello (under "all")).pass_count ≡ 2
unfolding run marked_shadow validate marked_fail_open
mixed_counts = refl

enforced_refusal : (run (blocks_hello ∷ mixed) none hello (under "all")).passed ≡ false
unfolding run marked_shadow validate marked_fail_open
enforced_refusal = refl

passed_unanimous_iff_example :
    ((run mixed none hello (under "all")).passed ≡ true)
    ↔ All PassesIfEnforced (run mixed none hello (under "all")).results
passed_unanimous_iff_example =
    passed_unanimous_iff mixed none hello (under "all") (beq-apart "all" "any" refl)
      (beq-apart "all" "n_of_m" refl)

fails_closed_example : (run (blocks_bad ∷ broken ∷ []) none hello (under "all")).passed ≡ false
unfolding validate marked_fail_open marked_shadow
fails_closed_example =
    fails_closed (blocks_bad ∷ broken ∷ []) none hello (under "all") (beq-apart "all" "any" refl)
      (beq-apart "all" "n_of_m" refl)
      (inr (inl (record { error = "timeout"; fails_with = refl; closed = refl; enforced = refl })))

-- Two goroutines that finish in the reverse order.
abbrev pair : List Guard
pair = blocks_bad ∷ blocks_hello ∷ []

abbrev second_done : Slots
second_done = none ∷ some (run_guard none hello blocks_hello) ∷ []

abbrev both_done : Slots
both_done = some (run_guard none hello blocks_bad) ∷ some (run_guard none hello blocks_hello) ∷ []

reversed : Reach none hello pair both_done
reversed =
    next {s = second_done} {s' = both_done}
      (next {s = start pair} {s' = second_done} here (finish 1 blocks_hello refl refl refl))
      (finish 0 blocks_bad refl refl refl)

schedule_irrelevant_example :
    conclude (under "all") (collect both_done) ≡ run pair none hello (under "all")
schedule_irrelevant_example =
    schedule_irrelevant none hello pair (under "all") both_done (λ e. cc) reversed
      ((λ e. cc), ((λ e. cc), tt))

shadow_irrelevant_example :
    ((run mixed none hello (under "all")).passed
      ≡ (run (enforcing mixed) none hello (under "all")).passed)
    × ((run mixed none hello (under "all")).pass_count
        ≡ (run (enforcing mixed) none hello (under "all")).pass_count)
    × ((run mixed none hello (under "all")).fail_count
        ≡ (run (enforcing mixed) none hello (under "all")).fail_count)
shadow_irrelevant_example = shadow_irrelevant mixed none hello (under "all")
