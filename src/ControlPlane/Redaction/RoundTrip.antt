-- ===== src/ControlPlane/Redaction/RoundTrip.antt =====
-- Secrets are never shown, and a configuration that is sent back as it was shown is the stored one.
use sheeld.Prelude.{
  Bool, ◌||◌, ◌==◌, ◌∙◌, ◌≡◌, ◌⊎◌, ◌+◌, ◌-◌, ◌++◌, true, str, drop, length, length-append, ap, sym,
  refl, inl, inr, false, nat_eq, string_eq, bytes_eq, eq_iff, beq_refl, if◌then◌else◌, String, Str,
  List, [], ◌∷◌, none, some, lookup, arith, Bool-cases, All,
}
use sheeld.Json.{Json}
use sheeld.ControlPlane.Redaction.{
  Config, has_suffix, redacted_value, is_secret_key, sanitize_members, sanitize_config, preserved,
  preserve_members, preserve_redacted_secrets,
}

-- The keys of a Go map are distinct.
abbrev pub HasDistinctKeys : List (String × Json) → Type 0
HasDistinctKeys [] = Unit
HasDistinctKeys ((k, v) ∷ m) = (lookup k m ≡ none) × HasDistinctKeys m

abbrev pub IsMap : Config → Type 0
IsMap none = Unit
IsMap (some m) = HasDistinctKeys m

drop_all : (p s : Str) → drop (length p) (p ++ s) ≡ s
drop_all [] s = refl
drop_all (c ∷ p) s = drop_all p s

has_suffix-append : (p s : Str) → has_suffix (p ++ s) s ≡ true
has_suffix-append p s =
    let n : length (p ++ s) ≡ length p + length s = length-append p s in
    let m : (length p + length s) - length s ≡ length p = omega arith in
    rw (n, m, drop_all p s, beq_refl s) (ground arith)

or_last : (a b c : Bool) → (a || (b || c)) ≡ false → c ≡ false
or_last a b c h = ground (arith, h)

module _ (to_lower : Str → Str) where
  -- The keys of secrets: in lower case "api_key", "headers", or anything that ends in "_key".
  abbrev pub IsSecret : String → Type 0
  IsSecret key =
      (to_lower (str key) ≡ str "api_key")
      ⊎ ((to_lower (str key) ≡ str "headers")
          ⊎ ((prefix : Str) × (to_lower (str key) ≡ prefix ++ str "_key")))

  not-IsSecret : (key : String) → is_secret_key to_lower key ≡ false → ¬ IsSecret key
  unfolding is_secret_key
  not-IsSecret key h (inl e) = cc (rw e at h)
  not-IsSecret key h (inr (inl e)) = cc (rw e at h)
  not-IsSecret key h (inr (inr (prefix, e))) =
      let k = to_lower (str key) in
      let no : has_suffix k (str "_key") ≡ false =
        or_last (k == str "api_key") (k == str "headers") (has_suffix k (str "_key")) h in
      let yes : has_suffix k (str "_key") ≡ true =
        ap (λ (x : Str). has_suffix x (str "_key")) e ∙ has_suffix-append prefix (str "_key") in
      cc (no, yes)

  -- The same keys, in the same order, with the same values where the key is not a secret's.
  abbrev pub AgreeOpenly : List (String × Json) → List (String × Json) → Type 0
  AgreeOpenly [] [] = Unit
  AgreeOpenly [] (q ∷ m) = ⊥
  AgreeOpenly (p ∷ m) [] = ⊥
  AgreeOpenly ((k, v) ∷ m) ((j, w) ∷ n) = (k ≡ j) × ((¬ IsSecret k → v ≡ w) × AgreeOpenly m n)

  sanitize_members-agree :
      (m n : List (String × Json))
      → AgreeOpenly m n
      → sanitize_members to_lower m ≡ sanitize_members to_lower n
  unfolding sanitize_members
  sanitize_members-agree [] [] h = refl
  sanitize_members-agree [] (q ∷ n) h = elim h [ ]
  sanitize_members-agree (p ∷ m) [] h = elim h [ ]
  sanitize_members-agree ((k, v) ∷ m) ((j, w) ∷ n) (e, (o, h)) =
      elim (Bool-cases (is_secret_key to_lower k)) [
        | inl s ↦ rw (sym e, s, sanitize_members-agree m n h) refl
        | inr s ↦ rw (sym e, s, o (not-IsSecret k s), sanitize_members-agree m n h) refl
      ]

  -- What is shown does not depend on the secrets: configurations with the same keys that agree but for
  -- the values of keys that in lower case are "api_key" or "headers" or end in "_key" are shown alike.
  pub sanitize_hides :
      (m n : List (String × Json))
      → AgreeOpenly m n
      → sanitize_config to_lower (some m) ≡ sanitize_config to_lower (some n)
  unfolding sanitize_config
  sanitize_hides m n h = ap some (sanitize_members-agree m n h)

  -- The value that a member of the stored configuration gets back.
  preserved-sanitized :
      (k : String) (v : Json) (stored : List (String × Json))
      → lookup k stored ≡ some v
      → preserved (some stored) k (if is_secret_key to_lower k then redacted_value else v) ≡ v
  unfolding preserved
  preserved-sanitized k v stored h = elim (Bool-cases (is_secret_key to_lower k)) [
    | inl s ↦ rw (s, h) refl
    | inr s ↦ rw (s, h) (ground arith)
  ]

  Found : List (String × Json) → List (String × Json) → Type 0
  Found stored m = All (λ (p : String × Json). lookup p.0 stored ≡ some p.1) m

  Found-wider :
      (k : String) (v : Json) (stored m : List (String × Json))
      → lookup k stored ≡ none
      → Found stored m
      → Found ((k, v) ∷ stored) m
  unfolding Found
  Found-wider k v stored [] f h = tt
  Found-wider k v stored ((j, w) ∷ m) f h =
      (ground (arith, eq_iff k j, h.0, f), Found-wider k v stored m f h.1)

  Found-itself : (m : List (String × Json)) → HasDistinctKeys m → Found m m
  unfolding Found
  Found-itself [] h = tt
  Found-itself ((k, v) ∷ m) (f, h) =
      (rw (beq_refl k) refl, Found-wider k v m m f (Found-itself m h))

  preserve_members-sanitized :
      (stored m : List (String × Json))
      → Found stored m
      → preserve_members (sanitize_members to_lower m) (some stored) ≡ m
  unfolding preserve_members sanitize_members Found
  preserve_members-sanitized stored [] h = refl
  preserve_members-sanitized stored ((k, v) ∷ m) h =
      rw (preserved-sanitized k v stored h.0, preserve_members-sanitized stored m h.1) refl

  -- A configuration that a client loads and sends back as it was shown is stored as it was.
  pub preserve_sanitized :
      (c : Config) → IsMap c → preserve_redacted_secrets (sanitize_config to_lower c) c ≡ c
  unfolding preserve_redacted_secrets sanitize_config
  preserve_sanitized none h = refl
  preserve_sanitized (some m) h = ap some (preserve_members-sanitized m m (Found-itself m h))
