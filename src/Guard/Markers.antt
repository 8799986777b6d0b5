-- ===== src/Guard/Markers.antt =====
-- The markers of a decorated guard do not depend on the order in which it was wrapped.
use sheeld.Prelude.{
  Bool, true, false, ◌||◌, ◌≡◌, refl, arith, List, [], ◌∷◌, Str, Option, none, some, ap, ◌∙◌,
}
use sheeld.Guard.{
  Guard, fail_open, shadowed, scope_all_messages, guard_name, guard_type, validate,
  marked_fail_open, marked_shadow, CallMeta, scoped_input,
}

-- The decorators, as a list of wrappings, outermost first.
pub data Wrap : Type 0 where
  open_wrap shadow_wrap scope_wrap : Wrap

abbrev pub wrap : Wrap → Guard → Guard
wrap open_wrap g = fail_open g
wrap shadow_wrap g = shadowed g
wrap scope_wrap g = scope_all_messages g

abbrev pub wrap_all : List Wrap → Guard → Guard
wrap_all [] g = g
wrap_all (w ∷ ws) g = wrap w (wrap_all ws g)

abbrev pub is_open_wrap : Wrap → Bool
is_open_wrap open_wrap = true
is_open_wrap _ = false

abbrev pub is_shadow_wrap : Wrap → Bool
is_shadow_wrap shadow_wrap = true
is_shadow_wrap _ = false

abbrev pub is_scope_wrap : Wrap → Bool
is_scope_wrap scope_wrap = true
is_scope_wrap _ = false

abbrev pub any_wrap : (Wrap → Bool) → List Wrap → Bool
any_wrap p [] = false
any_wrap p (w ∷ ws) = p w || any_wrap p ws

pub marked_fail_open-wrap_all :
    (ws : List Wrap) (g : Guard)
    → marked_fail_open (wrap_all ws g) ≡ (any_wrap is_open_wrap ws || marked_fail_open g)
unfolding marked_fail_open
marked_fail_open-wrap_all [] g = refl
marked_fail_open-wrap_all (open_wrap ∷ ws) g = refl
marked_fail_open-wrap_all (shadow_wrap ∷ ws) g = marked_fail_open-wrap_all ws g
marked_fail_open-wrap_all (scope_wrap ∷ ws) g = marked_fail_open-wrap_all ws g

pub marked_shadow-wrap_all :
    (ws : List Wrap) (g : Guard)
    → marked_shadow (wrap_all ws g) ≡ (any_wrap is_shadow_wrap ws || marked_shadow g)
unfolding marked_shadow
marked_shadow-wrap_all [] g = refl
marked_shadow-wrap_all (open_wrap ∷ ws) g = marked_shadow-wrap_all ws g
marked_shadow-wrap_all (shadow_wrap ∷ ws) g = refl
marked_shadow-wrap_all (scope_wrap ∷ ws) g = marked_shadow-wrap_all ws g

abbrev pub scope_if : Bool → Option CallMeta → Str → Str
scope_if true ctx input = scoped_input ctx input
scope_if false ctx input = input

scope_if_true :
    (b : Bool) (ctx : Option CallMeta) (input : Str)
    → scope_if b ctx (scoped_input ctx input) ≡ scoped_input ctx input
scope_if_true b none input = ground arith
scope_if_true b (some m) input = ground arith

pub validate-wrap_all :
    (ws : List Wrap) (g : Guard) (ctx : Option CallMeta) (input : Str)
    → validate (wrap_all ws g) ctx input
      ≡ validate g ctx (scope_if (any_wrap is_scope_wrap ws) ctx input)
unfolding validate
validate-wrap_all [] g ctx input = refl
validate-wrap_all (open_wrap ∷ ws) g ctx input = validate-wrap_all ws g ctx input
validate-wrap_all (shadow_wrap ∷ ws) g ctx input = validate-wrap_all ws g ctx input
validate-wrap_all (scope_wrap ∷ ws) g ctx input =
    validate-wrap_all ws g ctx (scoped_input ctx input)
    ∙ ap (validate g ctx) (scope_if_true (any_wrap is_scope_wrap ws) ctx input)

pub guard_name-wrap_all : (ws : List Wrap) (g : Guard) → guard_name (wrap_all ws g) ≡ guard_name g
unfolding guard_name
guard_name-wrap_all [] g = refl
guard_name-wrap_all (open_wrap ∷ ws) g = guard_name-wrap_all ws g
guard_name-wrap_all (shadow_wrap ∷ ws) g = guard_name-wrap_all ws g
guard_name-wrap_all (scope_wrap ∷ ws) g = guard_name-wrap_all ws g

pub guard_type-wrap_all : (ws : List Wrap) (g : Guard) → guard_type (wrap_all ws g) ≡ guard_type g
unfolding guard_type
guard_type-wrap_all [] g = refl
guard_type-wrap_all (open_wrap ∷ ws) g = guard_type-wrap_all ws g
guard_type-wrap_all (shadow_wrap ∷ ws) g = guard_type-wrap_all ws g
guard_type-wrap_all (scope_wrap ∷ ws) g = guard_type-wrap_all ws g
