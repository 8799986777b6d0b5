-- ===== src/Prelude/Equality.antt =====
-- Equality as a test, by instances: numbers, native texts, and Go strings as lists of bytes.
use Prim.Native.Nat.{ℕ, compare, Ordering, ◌/◌, ◌%◌, ◌+◌}
use Prim.Native.Char.{code}
use Prim.Native.String.{String}
use mathlib.Core.Path.{◌≡◌, refl, sym, ◌∙◌}
use mathlib.Core.Logic.{◌↔◌, ◌≢◌}
use mathlib.Core.Bool.{Bool, true, false, ◌&&◌}
use mathlib.Core.List.{List, [], ◌∷◌, ◌++◌}
use native.Mathlib.Omega.{arith}
use text.Mathlib.Text.{◌==◌ as str_eq}
use text.Mathlib.TextEquality.{eq_iff as str_eq_iff}
use sheeld.Prelude.Tests.{ltb, if◌then◌else◌}

-- A type whose values can be compared, with what the test means.
pub record Comparable {ℓ} (Value : Type ℓ) : Type ℓ where
  pub same : Value → Value → Bool
  pub decides : (x y : Value) → (same x y ≡ true) ↔ (x ≡ y)

infix 50 ◌==◌
abbrev pub ◌==◌ {ℓ} : {A : Type ℓ} ⦃e : Comparable A⦄ → A → A → Bool
◌==◌ ⦃e⦄ x y = e.same x y

abbrev pub nat_beq : ℕ → ℕ → Bool
nat_beq a b = elim (compare a b) [ Ordering.eq ↦ true | _ ↦ false ]

pub nat_beq_iff : (a b : ℕ) → (nat_beq a b ≡ true) ↔ (a ≡ b)
nat_beq_iff a b = ground arith

instance abbrev pub nat_eq : Comparable ℕ
nat_eq = record { same = nat_beq; decides = nat_beq_iff }

instance abbrev pub string_eq : Comparable String
string_eq = record { decides = str_eq_iff; same = str_eq }

-- A Go string: its bytes.
abbrev pub Str : Type 0
Str = List ℕ

abbrev pub bytes_beq : Str → Str → Bool
bytes_beq [] [] = true
bytes_beq [] (b ∷ bs) = false
bytes_beq (a ∷ as') [] = false
bytes_beq (a ∷ as') (b ∷ bs) = nat_beq a b && bytes_beq as' bs

pub bytes_beq_iff : (a b : Str) → (bytes_beq a b ≡ true) ↔ (a ≡ b)
bytes_beq_iff [] [] = ground arith
bytes_beq_iff [] (b ∷ bs) = ground arith
bytes_beq_iff (a ∷ as') [] = ground arith
bytes_beq_iff (a ∷ as') (b ∷ bs) = ground (arith, bytes_beq_iff as' bs)

instance abbrev pub bytes_eq : Comparable Str
bytes_eq = record { same = bytes_beq; decides = bytes_beq_iff }

pub beq_refl {ℓ} : {A : Type ℓ} ⦃e : Comparable A⦄ (a : A) → (a == a) ≡ true
beq_refl ⦃e⦄ a = (e.decides a a).1 refl

pub beq-eq {ℓ} : {A : Type ℓ} ⦃e : Comparable A⦄ (a b : A) → (a == b) ≡ true → a ≡ b
beq-eq ⦃e⦄ a b h = (e.decides a b).0 h

pub eq_iff {ℓ} : {A : Type ℓ} ⦃e : Comparable A⦄ (a b : A) → ((a == b) ≡ true) ↔ (a ≡ b)
eq_iff ⦃e⦄ a b = e.decides a b

-- The UTF-8 encoding of a code point.
abbrev pub utf8_char : ℕ → Str
utf8_char c =
    if ltb c 0x80
    then c ∷ []
    else if ltb c 0x800
    then (0xc0 + c / 64) ∷ (0x80 + c % 64) ∷ []
    else if ltb c 0x10000
    then (0xe0 + c / 4096) ∷ (0x80 + c / 64 % 64) ∷ (0x80 + c % 64) ∷ []
    else (0xf0 + c / 262144) ∷ (0x80 + c / 4096 % 64) ∷ (0x80 + c / 64 % 64) ∷ (0x80 + c % 64) ∷ []

-- The bytes of a text: `str "user"` is a Go literal.
abbrev pub str : String → Str
str String.[] = []
str (String.◌∷◌ c s) = utf8_char (code c) ++ str s

pub beq-apart {ℓ} : {A : Type ℓ} ⦃e : Comparable A⦄ (a b : A) → (a == b) ≡ false → a ≢ b
beq-apart a b h = λ q. absurd (cc (sym h ∙ (eq_iff a b).1 q))
