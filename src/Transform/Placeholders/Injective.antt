-- ===== src/Transform/Placeholders/Injective.antt =====
-- `<ENTITY_n>` names its entity type and its number: no two placeholders collide.
use sheeld.Prelude.{ℕ, ◌≡◌, ◌≢◌, ap, sym, refl, Str, str, [], ◌∷◌, ◌++◌, All, All-append, arith}
use sheeld.Prelude.Decimal.{decimal, IsDigit, value, value-snoc, value-decimal, decimal-IsDigit}
use sheeld.Transform.Placeholders.{placeholder}

abbrev NotUnderscore : ℕ → Type 0
NotUnderscore c = c ≢ 95

abbrev tail_bytes : Str → Str
tail_bytes [] = []
tail_bytes (c ∷ cs) = cs

abbrev head_byte : Str → ℕ
head_byte [] = 0
head_byte (c ∷ cs) = c

No-underscore : (e ys : Str) → ¬ All NotUnderscore (e ++ 95 ∷ ys)
No-underscore [] ys h = h.0 refl
No-underscore (c ∷ e) ys h = No-underscore e ys h.1

-- Texts that agree agree before and after their last underscore.
split_last :
    (e e' xs ys : Str)
    → All NotUnderscore xs
    → All NotUnderscore ys
    → e ++ 95 ∷ xs ≡ e' ++ 95 ∷ ys
    → (e ≡ e') × (xs ≡ ys)
split_last [] [] xs ys h k p = (refl, ap tail_bytes p)
split_last [] (c ∷ e') xs ys h k p =
    let q : xs ≡ e' ++ 95 ∷ ys = ap tail_bytes p in absurd (No-underscore e' ys (rw q at h))
split_last (c ∷ e) [] xs ys h k p =
    let q : ys ≡ e ++ 95 ∷ xs = sym (ap tail_bytes p) in absurd (No-underscore e xs (rw q at k))
split_last (c ∷ e) (d ∷ e') xs ys h k p =
    let (a, b) = split_last e e' xs ys h k (ap tail_bytes p) in
    let q : c ≡ d = ap head_byte p in (cc (a, q), b)

digits-NotUnderscore : (s : Str) → All IsDigit s → All NotUnderscore s
digits-NotUnderscore [] h = tt
digits-NotUnderscore (c ∷ s) h = (omega arith, digits-NotUnderscore s h.1)

closed-NotUnderscore : (n : ℕ) → All NotUnderscore (decimal n ++ str ">")
closed-NotUnderscore n =
    All-append NotUnderscore (decimal n) (str ">")
      (digits-NotUnderscore (decimal n) (decimal-IsDigit n)) (omega arith)

-- Placeholders are equal only for the same entity type and the same number.
pub placeholder_injective :
    (e e' : Str) (n n' : ℕ) → placeholder e n ≡ placeholder e' n' → (e ≡ e') × (n ≡ n')
unfolding placeholder
placeholder_injective e e' n n' p =
    let (a, b) =
      split_last e e' (decimal n ++ str ">") (decimal n' ++ str ">") (closed-NotUnderscore n)
        (closed-NotUnderscore n') (ap tail_bytes p) in
    (
      a,
      omega (
        arith,
        ap (value 0) b,
        value-snoc 0 (decimal n) 62,
        value-snoc 0 (decimal n') 62,
        value-decimal n,
        value-decimal n',
      ),
    )
