-- ===== src/Transform/Deanonymize/Restores.antt =====
-- What deanonymizing gives back, for texts made of recorded placeholders and of bytes other than `<`.
use mathlib.Core.List.{append_assoc}
use sheeld.Prelude.{
  ℕ, suc, ◌≡◌, ◌≢◌, ap, ◌∙◌, subst, refl, true, nat_eq, bytes_eq, beq_refl, eq_iff, Str, List, [],
  ◌∷◌, ◌++◌, none, some, All, arith, length, lookup,
}
use sheeld.Transform.Deanonymize.{is_prefix, match_pair, replace_from}

abbrev pub NotOpen : ℕ → Type 0
NotOpen c = c ≢ 60

abbrev pub NotClose : ℕ → Type 0
NotClose c = c ≢ 62

-- `<`, bytes other than `>`, then `>`.
pub data IsTag : Str → Type 0 where
  tag : (body : Str) → All NotClose body → IsTag (60 ∷ (body ++ 62 ∷ []))

abbrev pub HasTag : Str × Str → Type 0
HasTag (p, o) = IsTag p

-- The first text with its placeholders of `ps` replaced is the second.
pub data Restores (ps : List (Str × Str)) : Str → Str → Type 0 where
  done : Restores ps [] []
  byte : (c : ℕ) {xs ys : Str} → NotOpen c → Restores ps xs ys → Restores ps (c ∷ xs) (c ∷ ys)
  placed :
      (p o : Str) {xs ys : Str}
      → IsTag p
      → lookup p ps ≡ some o
      → Restores ps xs ys
      → Restores ps (p ++ xs) (o ++ ys)

pub Restores-keeps :
    (ps qs : List (Str × Str))
    → ((q x : Str) → lookup q ps ≡ some x → lookup q qs ≡ some x)
    → {xs ys : Str} → Restores ps xs ys
    → Restores qs xs ys
Restores-keeps ps qs k done = done
Restores-keeps ps qs k (byte c h r) = byte c h (Restores-keeps ps qs k r)
Restores-keeps ps qs k (placed p o t h r) = placed p o t (k p o h) (Restores-keeps ps qs k r)

pub Restores-literal :
    (ps : List (Str × Str)) (pre : Str)
    → All NotOpen pre
    → {xs ys : Str} → Restores ps xs ys
    → Restores ps (pre ++ xs) (pre ++ ys)
Restores-literal ps [] h r = r
Restores-literal ps (c ∷ pre) h r = byte c h.0 (Restores-literal ps pre h.1 r)

match_pair-literal :
    (ps : List (Str × Str)) (c : ℕ) (s : Str)
    → All HasTag ps
    → NotOpen c
    → match_pair (c ∷ s) ps ≡ none
unfolding match_pair
match_pair-literal [] c s h k = refl
match_pair-literal ((_, o) ∷ ps) c s (tag body b, h) k =
    ground (arith, match_pair-literal ps c s h k, eq_iff 60 c)

-- Up to the first `>` there is one body.
is_prefix-close :
    (b d xs : Str)
    → All NotClose b
    → All NotClose d
    → is_prefix (b ++ 62 ∷ []) (d ++ 62 ∷ xs) ≡ true
    → b ≡ d
is_prefix-close [] [] xs h k e = refl
is_prefix-close [] (c ∷ d) xs h k e = ground (arith, eq_iff 62 c)
is_prefix-close (c ∷ b) [] xs h k e = ground (arith, eq_iff c 62)
is_prefix-close (c ∷ b) (j ∷ d) xs h k e =
    ground (arith, eq_iff c j, is_prefix-close b d xs h.1 k.1)

is_prefix-append : (p xs : Str) → is_prefix p (p ++ xs) ≡ true
is_prefix-append [] xs = refl
is_prefix-append (c ∷ p) xs = rw (beq_refl c) (is_prefix-append p xs)

is_prefix_tag : (p q xs : Str) → IsTag p → IsTag q → is_prefix q (p ++ xs) ≡ true → q ≡ p
is_prefix_tag _ _ xs (tag b h) (tag d k) e =
    ap (λ z. 60 ∷ (z ++ 62 ∷ []))
      (is_prefix-close d b xs k h
        (subst (λ z. is_prefix (d ++ 62 ∷ []) z ≡ true) (append_assoc b (62 ∷ []) xs) e))

match_pair-tag :
    (ps : List (Str × Str)) (p o xs : Str)
    → All HasTag ps
    → IsTag p
    → lookup p ps ≡ some o
    → match_pair (p ++ xs) ps ≡ some (length p, o)
unfolding match_pair
match_pair-tag [] p o xs h t e = cc
match_pair-tag ((q, v) ∷ ps) p o xs (u, h) t e = ground (
  arith,
  match_pair-tag ps p o xs h t,
  eq_iff q p,
  is_prefix_tag p q xs t u,
  is_prefix-append p xs,
)

replace_from-skip :
    (ps : List (Str × Str)) (p xs : Str)
    → replace_from ps (length p) (p ++ xs) ≡ replace_from ps 0 xs
unfolding replace_from
replace_from-skip ps [] xs = refl
replace_from-skip ps (c ∷ p) xs = replace_from-skip ps p xs

copied :
    (ps : List (Str × Str)) (c : ℕ) (s : Str)
    → match_pair (c ∷ s) ps ≡ none
    → replace_from ps 0 (c ∷ s) ≡ c ∷ replace_from ps 0 s
unfolding replace_from
copied ps c s e = rw (e, replace_from) refl

replaced :
    (ps : List (Str × Str)) (c n : ℕ) (s new : Str)
    → match_pair (c ∷ s) ps ≡ some (suc n, new)
    → replace_from ps 0 (c ∷ s) ≡ new ++ replace_from ps n s
unfolding replace_from
replaced ps c n s new e = rw (e, replace_from) (ap (λ j. new ++ replace_from ps j s) (omega arith))

pub Restores-sound :
    (ps : List (Str × Str))
    → All HasTag ps
    → {xs ys : Str} → Restores ps xs ys
    → replace_from ps 0 xs ≡ ys
unfolding replace_from
Restores-sound ps h done = refl
Restores-sound ps h (byte c {xs} n r) =
    copied ps c xs (match_pair-literal ps c xs h n) ∙ ap (λ l. c ∷ l) (Restores-sound ps h r)
Restores-sound ps h (placed p o {xs} (tag b k) e r) =
    replaced ps 60 (length (b ++ 62 ∷ [])) (b ++ 62 ∷ [] ++ xs) o
      (match_pair-tag ps (60 ∷ (b ++ 62 ∷ [])) o xs h (tag b k) e)
    ∙ ap (λ l. o ++ l) (replace_from-skip ps (b ++ 62 ∷ []) xs ∙ Restores-sound ps h r)

pub replace_from-nil : (s : Str) → replace_from [] 0 s ≡ s
unfolding replace_from
replace_from-nil [] = refl
replace_from-nil (c ∷ s) = ap (λ l. c ∷ l) (replace_from-nil s)
