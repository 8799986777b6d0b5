-- ===== src/RateLimit/Limits.antt =====
-- The limits that a request is held to, and that keys do not share buckets.
use sheeld.Prelude.{
  ℕ, zero, suc, ltb, arith, ◌≡◌, ◌≢◌, ◌↔◌, refl, beq-apart, ◌∙◌, Bool, true, false, Bool-cases, inl,
  inr, ◌==◌, string_eq, beq-eq, beq_refl, if◌then◌else◌, String, List, Option, none, some, lookup,
  insert, lookup-insert,
}
use sheeld.Prelude.Int.{ℤ, pos, negsuc, int_eq}
use sheeld.RateLimit.{
  Buckets, LimiterEntry, RateLimiter, Verdict, forwarded, too_many_requests, limiter_for,
  with_limit, with_burst, middleware_with, effective,
}

-- What golang.org/x/time/rate documents: a limit that is set is the limit until it is set again.
pub record IsLawful {L : Type 0} (b : Buckets L) : Type 0 where
  pub limit_new : (rps burst : ℤ) → b.limit (b.new_limiter rps burst) ≡ rps
  pub burst_new : (rps burst : ℤ) → b.burst (b.new_limiter rps burst) ≡ burst
  pub limit_set_limit : (l : L) (rps : ℤ) → b.limit (b.set_limit l rps) ≡ rps
  pub burst_set_limit : (l : L) (rps : ℤ) → b.burst (b.set_limit l rps) ≡ b.burst l
  pub limit_set_burst : (l : L) (burst : ℤ) → b.limit (b.set_burst l burst) ≡ b.limit l
  pub burst_set_burst : (l : L) (burst : ℤ) → b.burst (b.set_burst l burst) ≡ burst
  pub limit_allow : (now : ℕ) (l : L) → b.limit (b.allow now l).1 ≡ b.limit l
  pub burst_allow : (now : ℕ) (l : L) → b.burst (b.allow now l).1 ≡ b.burst l

module _ {L : Type 0} (b : Buckets L) (w : IsLawful b) where
  limit-with_limit : (rps : ℤ) (l : L) → b.limit (with_limit b rps l) ≡ rps
  limit-with_limit rps l = elim (Bool-cases (b.limit l == rps)) [
    | inl h ↦ rw h (beq-eq (b.limit l) rps h)
    | inr h ↦ rw h (w.limit_set_limit l rps)
  ]

  limit-with_burst : (burst : ℤ) (l : L) → b.limit (with_burst b burst l) ≡ b.limit l
  limit-with_burst burst l = elim (Bool-cases (b.burst l == burst)) [
    | inl h ↦ rw h refl
    | inr h ↦ rw h (w.limit_set_burst l burst)
  ]

  burst-with_burst : (burst : ℤ) (l : L) → b.burst (with_burst b burst l) ≡ burst
  burst-with_burst burst l = elim (Bool-cases (b.burst l == burst)) [
    | inl h ↦ rw h (beq-eq (b.burst l) burst h)
    | inr h ↦ rw h (w.burst_set_burst l burst)
  ]

  limiter_for_lem :
      (o : Option (LimiterEntry L)) (rps burst : ℤ)
      → (b.limit (limiter_for b o rps burst) ≡ rps) × (b.burst (limiter_for b o rps burst) ≡ burst)
  unfolding limiter_for
  limiter_for_lem none rps burst = (w.limit_new rps burst, w.burst_new rps burst)
  limiter_for_lem (some e) rps burst = (
    limit-with_burst burst (with_limit b rps e.limiter) ∙ limit-with_limit rps e.limiter,
    burst-with_burst burst (with_limit b rps e.limiter),
  )

-- The bucket that a request asks, by what its key has: a new one where it has none, and otherwise the
-- bucket that it has, of which each limit is set that is not the one that the request is held to.
pub data Asked {L : Type 0} (b : Buckets L) (o : Option (LimiterEntry L)) (r s : ℤ)
    : L → Type 0 where
  made_new : o ≡ none → Asked b o r s (b.new_limiter r s)
  kept :
      (e : LimiterEntry L)
      → o ≡ some e
      → b.limit e.limiter ≡ r
      → b.burst e.limiter ≡ s
      → Asked b o r s e.limiter
  limit_set :
      (e : LimiterEntry L)
      → o ≡ some e
      → b.limit e.limiter ≢ r
      → b.burst e.limiter ≡ s
      → Asked b o r s (b.set_limit e.limiter r)
  burst_set :
      (e : LimiterEntry L)
      → o ≡ some e
      → b.limit e.limiter ≡ r
      → b.burst e.limiter ≢ s
      → Asked b o r s (b.set_burst e.limiter s)
  both_set :
      (e : LimiterEntry L)
      → o ≡ some e
      → b.limit e.limiter ≢ r
      → b.burst e.limiter ≢ s
      → Asked b o r s (b.set_burst (b.set_limit e.limiter r) s)

module _ {L : Type 0} (b : Buckets L) (w : IsLawful b) where
  entry-Asked :
      (e : LimiterEntry L) (r s : ℤ)
      → Asked b (some e) r s (with_burst b s (with_limit b r e.limiter))
  entry-Asked e r s = elim (Bool-cases (b.limit e.limiter == r)) [
    | inl h ↦ elim (Bool-cases (b.burst e.limiter == s)) [
      | inl k ↦ rw (h, k) (kept e refl (beq-eq _ _ h) (beq-eq _ _ k))
      | inr k ↦ rw (h, k) (burst_set e refl (beq-eq _ _ h) (beq-apart _ _ k))
    ]
    | inr h ↦ elim (Bool-cases (b.burst e.limiter == s)) [
      | inl k ↦
          rw (h, w.burst_set_limit e.limiter r, k)
            (limit_set e refl (beq-apart _ _ h) (beq-eq _ _ k))
      | inr k ↦
          rw (h, w.burst_set_limit e.limiter r, k)
            (both_set e refl (beq-apart _ _ h) (beq-apart _ _ k))
    ]
  ]

  limiter_for-Asked : (o : Option (LimiterEntry L)) (r s : ℤ) → Asked b o r s (limiter_for b o r s)
  unfolding limiter_for
  limiter_for-Asked none r s = made_new refl
  limiter_for-Asked (some e) r s = entry-Asked e r s

-- What a request at `now` that is held to the limits `r` and `s` does for its key: the verdict is the
-- bucket's, and the key is left with that same bucket, after its answer.
pub record Serves {L : Type 0} (b : Buckets L) (rl : RateLimiter L) (now : ℕ) (key : String)
    (r s : ℤ) (after : Verdict × RateLimiter L) : Type 0 where
  pub bucket : L
  pub asked : Asked b (lookup key rl.limiters) r s bucket
  pub limit : b.limit bucket ≡ r
  pub burst : b.burst bucket ≡ s
  pub verdict : (after.0 ≡ forwarded) ↔ ((b.allow now bucket).0 ≡ true)
  pub found :
      lookup key after.1.limiters
      ≡ some (record { limiter = (b.allow now bucket).1; last_seen = now })
  pub others :
      (other : String)
      → (key == other) ≡ false
      → lookup other after.1.limiters ≡ lookup other rl.limiters

iff_forwarded :
    (allowed : Bool)
    → ((if allowed then forwarded else too_many_requests) ≡ forwarded) ↔ (allowed ≡ true)
iff_forwarded true = (λ h. refl, λ h. refl)
iff_forwarded false = (λ h. cc h, λ h. cc h)

-- The limit that a request is held to: a positive override, and the default for any other.
pub data IsLimit (override default : ℤ) : ℤ → Type 0 where
  overridden : (n : ℕ) → override ≡ pos (suc n) → IsLimit override default override
  by_default : ((n : ℕ) → override ≢ pos (suc n)) → IsLimit override default default

effective-IsLimit :
    {L : Type 0} (b : Buckets L) (override default : ℤ)
    → IsLimit override default (effective b override default)
effective-IsLimit b (pos zero) default = by_default (λ n h. cc h)
effective-IsLimit b (pos (suc n)) default =
    let positive : ltb 0 (suc n) ≡ true = ground arith in rw positive (overridden n refl)
effective-IsLimit b (negsuc n) default = by_default (λ m h. cc h)

-- A request is let through exactly when the bucket that its key has allows it (a new bucket, when the
-- key has none), after each limit of that bucket that is not the one that holds for the request was set
-- to it: the override where that is positive, and the default elsewhere. The key keeps that bucket with
-- what the request took of it, seen at that time, and no other key's bucket changes.
pub middleware_with_lem :
    {L : Type 0} (b : Buckets L) (rl : RateLimiter L) (now : ℕ) (key : String) (rps burst : ℤ)
    → IsLawful b
    → (r : ℤ) × (s : ℤ) × IsLimit rps rl.rps r
      × IsLimit burst rl.burst s
      × Serves b rl now key r s (middleware_with b rl now key rps burst)
unfolding middleware_with
middleware_with_lem {L} b rl now key rps burst w =
    let eff_rps = effective b rps rl.rps in
    let eff_burst = effective b burst rl.burst in
    let l = limiter_for b (lookup key rl.limiters) eff_rps eff_burst in
    let q = limiter_for_lem b w (lookup key rl.limiters) eff_rps eff_burst in
    let held : List (String × LimiterEntry L) =
      insert key (record { limiter = l; last_seen = now }) rl.limiters in
    let spent : LimiterEntry L = record { limiter = (b.allow now l).1; last_seen = now } in
    (
      eff_rps,
      eff_burst,
      effective-IsLimit b rps rl.rps,
      effective-IsLimit b burst rl.burst,
      record {
        bucket = l;
        asked = limiter_for-Asked b w (lookup key rl.limiters) eff_rps eff_burst;
        limit = q.0;
        burst = q.1;
        verdict = iff_forwarded (b.allow now l).0;
        found = lookup-insert key key spent held ∙ rw (beq_refl key) refl;
        others = λ other n.
            lookup-insert key other spent held
            ∙ rw n (
                lookup-insert key other (record { limiter = l; last_seen = now }) rl.limiters
                ∙ rw n refl);
      },
    )
