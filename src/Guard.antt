-- ===== src/Guard.antt =====
-- internal/shared/guard/guard.go, meta.go and scope.go: guards, their decorators, call metadata.
-- A concrete guard is its name, its type and its `Validate`; what a guard reaches over the network
-- is the function `validate` of that record. Durations and log lines are left out.
pub mod Engine
mod Tests
pub mod Markers
use sheeld.Prelude.{
  ℕ, Bool, true, false, ◌&&◌, not, ◌==◌, string_eq, bytes_eq, if◌then◌else◌, String, Str, List, [],
  ◌∷◌, Option, none, some,
}
use sheeld.Prelude.Int.{ℤ}
use sheeld.Json.{Json}

-- `CallMeta`: what a guard may read of the request.
pub record CallMeta : Type 0 where
  pub phase : String
  pub source_route : String
  pub all_messages_text : Str

-- `Result`
pub record GuardResult : Type 0 where
  pub guard_name : String
  pub guard_type : String
  pub passed : Bool
  pub message : String
  pub details : Json
  pub shadow : Bool

-- What `Validate` returns: a result, or an error with its text.
pub data Validation : Type 0 where
  validated : GuardResult → Validation
  errored : String → Validation

-- A guard that wraps no other.
pub record Checker : Type 0 where
  pub name : String
  pub kind : String
  pub check : Option CallMeta → Str → Validation

-- The `Guard` interface: a concrete guard, or a decorator around a guard.
pub data Guard : Type 0 where
  plain : Checker → Guard
  fail_open : Guard → Guard
  shadowed : Guard → Guard
  scope_all_messages : Guard → Guard

-- `WithFailOpen`, `WithShadow`, `WithScopeAllMessages`
abbrev pub with_fail_open : Guard → Guard
with_fail_open g = fail_open g

abbrev pub with_shadow : Guard → Guard
with_shadow g = shadowed g

abbrev pub with_scope_all_messages : Guard → Guard
with_scope_all_messages g = scope_all_messages g

-- A decorator embeds its guard, so `Name` and `Type` are the wrapped guard's.
unfoldable pub guard_name : Guard → String
guard_name (plain c) = c.name
guard_name (fail_open g) = guard_name g
guard_name (shadowed g) = guard_name g
guard_name (scope_all_messages g) = guard_name g

unfoldable pub guard_type : Guard → String
guard_type (plain c) = c.kind
guard_type (fail_open g) = guard_type g
guard_type (shadowed g) = guard_type g
guard_type (scope_all_messages g) = guard_type g

-- The text that `scopeAllMessages.Validate` hands on.
abbrev pub scoped_input : Option CallMeta → Str → Str
scoped_input none input = input
scoped_input (some m) input =
    if (m.phase == "input") && not (m.all_messages_text == []) then m.all_messages_text else input

unfoldable pub validate : Guard → Option CallMeta → Str → Validation
validate (plain c) ctx input = c.check ctx input
validate (fail_open g) ctx input = validate g ctx input
validate (shadowed g) ctx input = validate g ctx input
validate (scope_all_messages g) ctx input = validate g ctx (scoped_input ctx input)

-- `guardAs[T]`: the guard, or the first guard it wraps, that satisfies the interface `T`.
unfoldable pub guard_as : (Guard → Bool) → Guard → Option Guard
guard_as test (plain c) = if test (plain c) then some (plain c) else none
guard_as test (fail_open g) = if test (fail_open g) then some (fail_open g) else guard_as test g
guard_as test (shadowed g) = if test (shadowed g) then some (shadowed g) else guard_as test g
guard_as test (scope_all_messages g) =
    if test (scope_all_messages g) then some (scope_all_messages g) else guard_as test g

-- The type assertions `g.(FailOpenGuard)` and `g.(ShadowGuard)`, by the methods of each type.
abbrev pub is_fail_open_guard : Guard → Bool
is_fail_open_guard (fail_open g) = true
is_fail_open_guard _ = false

abbrev pub is_shadow_guard : Guard → Bool
is_shadow_guard (shadowed g) = true
is_shadow_guard _ = false

-- `fo, ok := guardAs[FailOpenGuard](g); ok && fo.FailOpen()`; both marker methods return true.
abbrev is_found : Option Guard → Bool
is_found none = false
is_found (some g) = true

unfoldable pub marked_fail_open : Guard → Bool
unfolding guard_as
marked_fail_open g = is_found (guard_as is_fail_open_guard g)

unfoldable pub marked_shadow : Guard → Bool
unfolding guard_as
marked_shadow g = is_found (guard_as is_shadow_guard g)
