-- ===== src/RateLimit/Eviction.antt =====
-- Which buckets the sweep evicts.
use sheeld.Prelude.{
  ℕ, ◌+◌, ◌-◌, ◌≤◌, ◌≡◌, refl, ap, false, Bool-cases, inl, inr, String, List, [], ◌∷◌, some, lookup,
  ◌==◌, string_eq, length, All, arith,
}
use sheeld.RateLimit.{
  LimiterEntry, RateLimiter, evict_idle, evict_before, limiter_idle_ttl, is_idle,
}

-- Seen at the cutoff or after it.
abbrev pub Recent : {L : Type 0} → ℕ → String × LimiterEntry L → Type 0
Recent cutoff e = cutoff ≤ e.1.last_seen

evict_before-Recent :
    {L : Type 0} (cutoff : ℕ) (entries : List (String × LimiterEntry L))
    → All (Recent cutoff) (evict_before cutoff entries).0
      × (length (evict_before cutoff entries).0 + (evict_before cutoff entries).1 ≡ length entries)
unfolding evict_before
evict_before-Recent cutoff [] = (tt, refl)
evict_before-Recent cutoff ((key, e) ∷ entries) =
    let q = evict_before-Recent cutoff entries in
    elim (Bool-cases (is_idle cutoff e)) [
      | inl h ↦ rw h (q.0, omega (arith, q.1))
      | inr h ↦ rw h ((ground (arith, h), q.0), omega (arith, q.1))
    ]

some_inj {ℓ} : {A : Type ℓ} (a b : A) → some a ≡ some b → a ≡ b
some_inj a b h = cc

evict_before-keeps :
    {L : Type 0} (cutoff : ℕ) (entries : List (String × LimiterEntry L)) (key : String)
    (e : LimiterEntry L)
    → lookup key entries ≡ some e
    → cutoff ≤ e.last_seen
    → lookup key (evict_before cutoff entries).0 ≡ some e
unfolding evict_before
evict_before-keeps cutoff [] key e h r = h
evict_before-keeps cutoff ((first, old) ∷ entries) key e h r = elim (Bool-cases (first == key)) [
  | inl k ↦
      let same : old ≡ e = some_inj old e (rw k at h) in
      let kept : is_idle cutoff old ≡ false = rw same (ground (arith, r)) in
      rw (kept, k) (ap some same)
  | inr k ↦
      let rest = evict_before-keeps cutoff entries key e (rw k at h) r in
      elim (Bool-cases (is_idle cutoff old)) [ inl i ↦ rw i rest | inr i ↦ rw (i, k) rest ]
]

-- A sweep at `now` keeps only buckets that were used in the last `limiter_idle_ttl`; it keeps each such
-- bucket, under its key; and it reports the number of those that it drops.
evict_idle_lem :
    {L : Type 0} (rl : RateLimiter L) (now : ℕ)
    → All (Recent (now - limiter_idle_ttl)) (evict_idle rl now).1.limiters
      × (length (evict_idle rl now).1.limiters + (evict_idle rl now).0 ≡ length rl.limiters)
      × ((key : String) (e : LimiterEntry L)
          → lookup key rl.limiters ≡ some e
          → now - limiter_idle_ttl ≤ e.last_seen
          → lookup key (evict_idle rl now).1.limiters ≡ some e)
unfolding evict_idle
evict_idle_lem rl now =
    let q = evict_before-Recent (now - limiter_idle_ttl) rl.limiters in
    (q.0, q.1, λ key e h r. evict_before-keeps (now - limiter_idle_ttl) rl.limiters key e h r)
