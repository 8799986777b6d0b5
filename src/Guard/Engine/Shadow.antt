-- ===== src/Guard/Engine/Shadow.antt =====
-- Shadow guards are recorded and decide nothing; the markers work in any wrap order.
use mathlib.Core.List.{Permᴰ}
use sheeld.Prelude.{
  ◌≡◌, ◌∙◌, sym, ap, refl, Bool, true, ◌||◌, List, [], ◌∷◌, map, arith, Str, Option, if◌then◌else◌,
  Bool-cases, inl, inr,
}
use sheeld.Guard.{
  GuardResult, Guard, CallMeta, Validation, validated, errored, marked_shadow, validate,
}
use sheeld.Guard.Markers.{
  Wrap, wrap_all, any_wrap, is_open_wrap, is_shadow_wrap, is_scope_wrap, marked_fail_open-wrap_all,
  marked_shadow-wrap_all, validate-wrap_all, scope_if, guard_name-wrap_all, guard_type-wrap_all,
}
use sheeld.Guard.Engine.{run, run_guard, EvalConfig, settle, error_result, mark_shadow}
use sheeld.Guard.Engine.Counts.{passes, fails, run_counts, results-run}
use sheeld.Guard.Engine.Decision.{passed-run, decision}

-- The guards that are not marked shadow.
abbrev pub enforcing : List Guard → List Guard
enforcing [] = []
enforcing (g ∷ gs) = if marked_shadow g then enforcing gs else (g ∷ enforcing gs)

shadow-run_guard :
    (ctx : Option CallMeta) (input : Str) (g : Guard)
    → marked_shadow g ≡ true
    → (run_guard ctx input g).shadow ≡ true
unfolding run_guard
shadow-run_guard ctx input g h = rw (h, run_guard)

counts-enforcing :
    (ctx : Option CallMeta) (input : Str) (gs : List Guard)
    → (passes (map (run_guard ctx input) (enforcing gs)) ≡ passes (map (run_guard ctx input) gs))
      × (fails (map (run_guard ctx input) (enforcing gs)) ≡ fails (map (run_guard ctx input) gs))
counts-enforcing ctx input [] = (refl, refl)
counts-enforcing ctx input (g ∷ gs) = elim (Bool-cases (marked_shadow g)) [
  | inl s ↦ rw s (rw (shadow-run_guard ctx input g s) (counts-enforcing ctx input gs))
  | inr e ↦ rw e (ground (arith, counts-enforcing ctx input gs))
]

decision_cong :
    (cfg : EvalConfig) (rs rs' : List GuardResult)
    → passes rs ≡ passes rs'
    → fails rs ≡ fails rs'
    → decision cfg rs ≡ decision cfg rs'
decision_cong cfg rs rs' p f = rw (p, f)

-- Whatever the criteria, the decision and both counts are those of the run without the shadow guards.
pub shadow_irrelevant :
    (gs : List Guard) (ctx : Option CallMeta) (input : Str) (cfg : EvalConfig)
    → ((run gs ctx input cfg).passed ≡ (run (enforcing gs) ctx input cfg).passed)
      × ((run gs ctx input cfg).pass_count ≡ (run (enforcing gs) ctx input cfg).pass_count)
      × ((run gs ctx input cfg).fail_count ≡ (run (enforcing gs) ctx input cfg).fail_count)
shadow_irrelevant gs ctx input cfg =
    let c = counts-enforcing ctx input gs in
    let r = run_counts gs ctx input cfg in
    let e = run_counts (enforcing gs) ctx input cfg in
    (
      passed-run gs ctx input cfg
          ∙ rw (results-run gs ctx input cfg, results-run (enforcing gs) ctx input cfg)
              (decision_cong cfg (map (run_guard ctx input) gs)
                (map (run_guard ctx input) (enforcing gs)) (sym c.0) (sym c.1))
          ∙ sym (passed-run (enforcing gs) ctx input cfg),
      r.1 ∙ rw (r.0, e.0) (sym c.0) ∙ sym e.1,
      r.2 ∙ rw (r.0, e.0) (sym c.1) ∙ sym e.2,
    )

any_wrap-perm :
    (p : Wrap → Bool) {ws ws' : List Wrap} → Permᴰ ws ws' → any_wrap p ws ≡ any_wrap p ws'
any_wrap-perm p Permᴰ.nil = refl
any_wrap-perm p (Permᴰ.cons e h) = ground (arith, e, any_wrap-perm p h, ap p e)
any_wrap-perm p (Permᴰ.swap e f) = ground (arith, ap p e, ap p f)
any_wrap-perm p (Permᴰ.trans h k) = any_wrap-perm p h ∙ any_wrap-perm p k

settle-perm :
    {ws ws' : List Wrap} (g : Guard) (v : Validation)
    → Permᴰ ws ws'
    → settle (wrap_all ws g) v ≡ settle (wrap_all ws' g) v
unfolding settle error_result
settle-perm g (validated r) h = refl
settle-perm {ws} {ws'} g (errored e) h = rw (
  guard_name-wrap_all ws g,
  guard_name-wrap_all ws' g,
  guard_type-wrap_all ws g,
  guard_type-wrap_all ws' g,
  marked_fail_open-wrap_all ws g,
  marked_fail_open-wrap_all ws' g,
  any_wrap-perm is_open_wrap h,
)

-- Wrapping a guard in the same decorators in another order gives the same result in every run.
wrap_order_irrelevant :
    (ws ws' : List Wrap) (g : Guard) (ctx : Option CallMeta) (input : Str)
    → Permᴰ ws ws'
    → run_guard ctx input (wrap_all ws g) ≡ run_guard ctx input (wrap_all ws' g)
unfolding run_guard
wrap_order_irrelevant ws ws' g ctx input h =
    rw
      (
        marked_shadow-wrap_all ws g,
        marked_shadow-wrap_all ws' g,
        validate-wrap_all ws g ctx input,
        validate-wrap_all ws' g ctx input,
        any_wrap-perm is_shadow_wrap h,
        any_wrap-perm is_scope_wrap h,
      )
      (ap (mark_shadow (any_wrap is_shadow_wrap ws' || marked_shadow g))
        (settle-perm g (validate g ctx (scope_if (any_wrap is_scope_wrap ws') ctx input)) h))
