-- ===== src/Prelude/Int.antt =====
-- Signed integers (Go's `int`) over the native numbers.
use sheeld.Prelude.{
  ℕ, Bool, true, false, leb, ltb, ◌≡◌, ◌↔◌, ◌==◌, nat_eq, eq_iff, arith, Comparable, ◌%◌, ◌^◌, ◌-◌,
  if◌then◌else◌,
}

-- `negsuc n` is -(n + 1).
pub data ℤ : Type 0 where
  pos : ℕ → ℤ
  negsuc : ℕ → ℤ

-- n >= t, for a count n.
abbrev pub leb_count : ℤ → ℕ → Bool
leb_count (pos t) n = leb t n
leb_count (negsuc t) n = true

-- t > 0
abbrev pub is_positive : ℤ → Bool
is_positive (pos n) = ltb 0 n
is_positive (negsuc n) = false

abbrev pub int_same : ℤ → ℤ → Bool
int_same (pos m) (pos n) = m == n
int_same (pos m) (negsuc n) = false
int_same (negsuc m) (pos n) = false
int_same (negsuc m) (negsuc n) = m == n

pub int_same_iff : (a b : ℤ) → (int_same a b ≡ true) ↔ (a ≡ b)
int_same_iff (pos m) (pos n) = ground (arith, eq_iff m n)
int_same_iff (pos m) (negsuc n) = ground arith
int_same_iff (negsuc m) (pos n) = ground arith
int_same_iff (negsuc m) (negsuc n) = ground (arith, eq_iff m n)

instance abbrev pub int_eq : Comparable ℤ
int_eq = record { decides = int_same_iff; same = int_same }

abbrev pub int_ltb : ℤ → ℤ → Bool
int_ltb (pos m) (pos n) = ltb m n
int_ltb (pos m) (negsuc n) = false
int_ltb (negsuc m) (pos n) = true
int_ltb (negsuc m) (negsuc n) = ltb n m

-- Go's `int32(n)`, which wraps around.
abbrev pub to_int32 : ℤ → ℤ
to_int32 (pos n) = let m = n % 2 ^ 32 in if ltb m (2 ^ 31) then pos m else negsuc (2 ^ 32 - 1 - m)
to_int32 (negsuc n) =
    let m = n % 2 ^ 32 in if ltb m (2 ^ 31) then negsuc m else pos (2 ^ 32 - 1 - m)
