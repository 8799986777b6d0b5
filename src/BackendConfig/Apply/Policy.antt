-- ===== src/BackendConfig/Apply/Policy.antt =====
-- A guard's configuration decides, through the decorators, what the engine makes of its errors.
use sheeld.Prelude.{
  ◌≡◌, refl, Bool, true, false, ◌==◌, bytes_eq, Str, str, Option, arith, String, if◌then◌else◌,
}
use sheeld.Json.{Json}
use sheeld.Guard.{
  Guard, plain, Checker, CallMeta, errored, validate, marked_fail_open, marked_shadow, scoped_input,
  with_fail_open, with_shadow, with_scope_all_messages,
}
use sheeld.Guard.Engine.{run_guard}
use sheeld.BackendConfig.Apply.{read_scope, is_fail_open, is_shadow, decorate, apply_when}

-- The decorated guard, over the three tests.
abbrev decorated : Bool → Bool → Bool → Checker → Guard
decorated sh fo sc c =
    apply_when sh with_shadow
      (apply_when fo with_fail_open (apply_when sc with_scope_all_messages (plain c)))

open-decorated : (sh fo sc : Bool) (c : Checker) → marked_fail_open (decorated sh fo sc c) ≡ fo
unfolding marked_fail_open
open-decorated true true sc c = refl
open-decorated true false true c = refl
open-decorated true false false c = refl
open-decorated false true sc c = refl
open-decorated false false true c = refl
open-decorated false false false c = refl

shadow-decorated : (sh fo sc : Bool) (c : Checker) → marked_shadow (decorated sh fo sc c) ≡ sh
unfolding marked_shadow
shadow-decorated true fo sc c = refl
shadow-decorated false true true c = refl
shadow-decorated false true false c = refl
shadow-decorated false false true c = refl
shadow-decorated false false false c = refl

validate-decorated :
    (sh fo sc : Bool) (c : Checker) (ctx : Option CallMeta) (input : Str)
    → validate (decorated sh fo sc c) ctx input
      ≡ c.check ctx (if sc then scoped_input ctx input else input)
unfolding validate
validate-decorated true true true c ctx input = refl
validate-decorated true true false c ctx input = refl
validate-decorated true false true c ctx input = refl
validate-decorated true false false c ctx input = refl
validate-decorated false true true c ctx input = refl
validate-decorated false true false c ctx input = refl
validate-decorated false false true c ctx input = refl
validate-decorated false false false c ctx input = refl

-- A configured guard whose check errs, on the text that its scope selects, counts as passed exactly
-- when its configuration says `on_error: fail_open`, and as shadow exactly when it says
-- `mode: shadow`.
error_policy :
    (config : Json) (c : Checker) (ctx : Option CallMeta) (input : Str) (e : String)
    → c.check ctx
        (if read_scope config == str "all_messages" then scoped_input ctx input else input)
      ≡ errored e
    → ((run_guard ctx input (decorate config (plain c))).passed ≡ is_fail_open config)
      × ((run_guard ctx input (decorate config (plain c))).shadow ≡ is_shadow config)
unfolding run_guard decorate
error_policy config c ctx input e h =
    let sh = is_shadow config in
    let fo = is_fail_open config in
    let sc = read_scope config == str "all_messages" in
    ground (
      arith,
      h,
      open-decorated sh fo sc c,
      shadow-decorated sh fo sc c,
      validate-decorated sh fo sc c ctx input,
    )
