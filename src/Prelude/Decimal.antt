-- ===== src/Prelude/Decimal.antt =====
-- Decimal numbers: `%d` of fmt, and the integer literals of encoding/json.
use sheeld.Prelude.{
  ℕ, zero, suc, ◌+◌, ◌-◌, ◌*◌, ◌/◌, ◌%◌, ◌≤◌, ◌<◌, ◌≡◌, Bool, true, ◌==◌, nat_eq, ltb, leb, ◌&&◌,
  if◌then◌else◌, Str, [], ◌∷◌, ◌++◌, Option, none, some, All, All-append, arith, Bool-cases, inl,
  inr,
}
use sheeld.Prelude.Int.{ℤ, pos, negsuc}

-- The digits of `n`; more fuel than `n` is enough.
digits : ℕ → ℕ → Str
digits zero n = []
digits (suc fuel) n =
    let front = digits fuel (n / 10) in
    if (n / 10) == 0 then (48 + n % 10) ∷ [] else front ++ (48 + n % 10) ∷ []

unfoldable pub decimal : ℕ → Str
unfolding digits
decimal n = digits (suc n) n

abbrev pub IsDigit : ℕ → Type 0
IsDigit c = (48 ≤ c) × (c ≤ 57)

-- The number that digits stand for, read after `acc`.
abbrev pub value : ℕ → Str → ℕ
value acc [] = acc
value acc (c ∷ cs) = value (acc * 10 + (c - 48)) cs

pub value-snoc : (acc : ℕ) (s : Str) (c : ℕ) → value acc (s ++ c ∷ []) ≡ value acc s * 10 + (c - 48)
value-snoc acc [] c = omega arith
value-snoc acc (d ∷ s) c = value-snoc (acc * 10 + (d - 48)) s c

value-digits : (fuel n : ℕ) → n < fuel → value 0 (digits fuel n) ≡ n
unfolding digits
value-digits zero n h = elim h [ ]
value-digits (suc fuel) n h = elim (Bool-cases ((n / 10) == 0)) [
  | inl e ↦ rw e (ground arith)
  | inr e ↦ rw (e, value-snoc) (omega (arith, value-digits fuel (n / 10) (ground arith)))
]

digits-IsDigit : (fuel n : ℕ) → All IsDigit (digits fuel n)
unfolding digits
digits-IsDigit zero n = tt
digits-IsDigit (suc fuel) n = elim (Bool-cases ((n / 10) == 0)) [
  | inl e ↦ rw e (omega arith)
  | inr e ↦
      rw e
        (All-append IsDigit (digits fuel (n / 10)) _ (digits-IsDigit fuel (n / 10)) (omega arith))
]

pub value-decimal : (n : ℕ) → value 0 (decimal n) ≡ n
unfolding decimal
value-decimal n = value-digits (suc n) n (omega arith)

pub decimal-IsDigit : (n : ℕ) → All IsDigit (decimal n)
unfolding decimal
decimal-IsDigit n = digits-IsDigit (suc n) n

abbrev pub all_digits : Str → Bool
all_digits [] = true
all_digits (c ∷ cs) = leb 48 c && (leb c 57 && all_digits cs)

-- An int64 literal: an optional minus, digits, and no overflow.
unfoldable pub parse_int : Str → Option ℤ
parse_int [] = none
parse_int (c ∷ cs) =
    if c == 45
    then (if all_digits cs && leb (value 0 cs) 9223372036854775808
        then (if value 0 cs == 0 then some (pos 0) else some (negsuc (value 0 cs - 1)))
        else none)
    else if all_digits (c ∷ cs) && ltb (value 0 (c ∷ cs)) 9223372036854775808
    then some (pos (value 0 (c ∷ cs)))
    else none
