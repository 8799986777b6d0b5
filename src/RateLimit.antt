-- ===== src/RateLimit.antt =====
-- internal/shared/middleware/ratelimit.go: one token bucket per key. The buckets of golang.org/x/time/rate
-- are the parameter `Buckets`; times are nanoseconds, and the lock makes each method one step. A rate,
-- which Go keeps as a float, is an integer of a fixed scale.
pub mod Limits
pub mod Eviction
mod Tests
use sheeld.Prelude.{
  ℕ, ◌+◌, ◌-◌, ◌*◌, Bool, true, false, not, ◌==◌, nat_eq, string_eq, ltb, if◌then◌else◌, String,
  List, [], ◌∷◌, Option, none, some, lookup, insert,
}
use sheeld.Prelude.Int.{ℤ, is_positive, int_eq}

-- `rate.Limiter`: `allow` takes the time and may take a token.
pub record Buckets (L : Type 0) : Type 0 where
  pub new_limiter : ℤ → ℤ → L
  pub limit : L → ℤ
  pub burst : L → ℤ
  pub set_limit : L → ℤ → L
  pub set_burst : L → ℤ → L
  pub allow : ℕ → L → Bool × L

-- Ten minutes.
abbrev pub limiter_idle_ttl : ℕ
limiter_idle_ttl = 600 * 1000000000

pub record LimiterEntry (L : Type 0) : Type 0 where
  pub limiter : L
  pub last_seen : ℕ

pub record RateLimiter (L : Type 0) : Type 0 where
  pub limiters : List (String × LimiterEntry L)
  pub rps : ℤ
  pub burst : ℤ

-- What a request meets: the next handler, or the status 429.
pub data Verdict : Type 0 where
  forwarded too_many_requests : Verdict

module _ {L : Type 0} (b : Buckets L) where
  abbrev pub new_rate_limiter : ℤ → ℤ → RateLimiter L
  new_rate_limiter rps burst = record { limiters = []; rps = rps; burst = burst }

  abbrev with_limit : ℤ → L → L
  with_limit rps l = if not (b.limit l == rps) then b.set_limit l rps else l

  abbrev with_burst : ℤ → L → L
  with_burst burst l = if not (b.burst l == burst) then b.set_burst l burst else l

  -- The bucket for a key, whose limits are set to those given.
  pub limiter_for : Option (LimiterEntry L) → ℤ → ℤ → L
  limiter_for none rps burst = b.new_limiter rps burst
  limiter_for (some e) rps burst = with_burst burst (with_limit rps e.limiter)

  pub get_limiter : RateLimiter L → ℕ → String → ℤ → ℤ → L × RateLimiter L
  unfolding limiter_for
  get_limiter rl now key rps burst =
      let l = limiter_for (lookup key rl.limiters) rps burst in
      (l, record rl { limiters = insert key (record { limiter = l; last_seen = now }) rl.limiters })

  -- The limits of a request: an override that is not positive means the default.
  abbrev pub effective : ℤ → ℤ → ℤ
  effective override default = if is_positive override then override else default

  -- One request through `MiddlewareWith`; the bucket is shared, so the token it gives is gone.
  unfoldable pub middleware_with : RateLimiter L → ℕ → String → ℤ → ℤ → Verdict × RateLimiter L
  unfolding get_limiter
  middleware_with rl now key rps burst =
      let (l, rl') = get_limiter rl now key (effective rps rl.rps) (effective burst rl.burst) in
      let (allowed, l') = b.allow now l in
      (
        if allowed then forwarded else too_many_requests,
        record rl' {
          limiters = insert key (record { limiter = l'; last_seen = now }) rl'.limiters;
        },
      )

abbrev is_idle : {L : Type 0} → ℕ → LimiterEntry L → Bool
is_idle cutoff e = ltb e.last_seen cutoff

-- What is kept, and how many are evicted.
evict_before :
    {L : Type 0} → ℕ → List (String × LimiterEntry L) → List (String × LimiterEntry L) × ℕ
evict_before cutoff [] = ([], 0)
evict_before cutoff ((key, e) ∷ entries) =
    let (kept, evicted) = evict_before cutoff entries in
    if is_idle cutoff e then (kept, evicted + 1) else ((key, e) ∷ kept, evicted)

-- A time before the cutoff is one that is more than `limiter_idle_ttl` ago.
unfoldable pub evict_idle : {L : Type 0} → RateLimiter L → ℕ → ℕ × RateLimiter L
unfolding evict_before
evict_idle rl now =
    let (kept, evicted) = evict_before (now - limiter_idle_ttl) rl.limiters in
    (evicted, record rl { limiters = kept })
