-- ===== src/RateLimit/Tests.antt =====
-- The rate limiter with a counter for a bucket.
use sheeld.Prelude.{ℕ, zero, suc, ◌≡◌, refl, Bool, true, false, string_eq, [], ◌∷◌}
use sheeld.Prelude.Int.{ℤ, pos}
use sheeld.RateLimit.{Buckets, RateLimiter, new_rate_limiter, middleware_with}
use sheeld.RateLimit.Limits.{IsLawful, IsLimit, Serves, middleware_with_lem}

-- Tokens that are never refilled.
record Counter : Type 0 where
  rps : ℤ
  burst : ℤ
  tokens : ℕ

abbrev take_token : Counter → ℕ → Bool × Counter
take_token c zero = (false, c)
take_token c (suc n) = (true, record c { tokens = n })

abbrev counters : Buckets Counter
counters = record {
  new_limiter = λ r s. record { rps = r; burst = s; tokens = 5 };
  limit = λ c. c.rps;
  burst = λ c. c.burst;
  set_limit = λ c r. record c { rps = r };
  set_burst = λ c s. record c { burst = s };
  allow = λ now c. take_token c c.tokens;
}

rps-take_token : (c : Counter) (n : ℕ) → (take_token c n).1.rps ≡ c.rps
rps-take_token c zero = refl
rps-take_token c (suc n) = refl

burst-take_token : (c : Counter) (n : ℕ) → (take_token c n).1.burst ≡ c.burst
burst-take_token c zero = refl
burst-take_token c (suc n) = refl

counters-IsLawful : IsLawful counters
counters-IsLawful = record {
  limit_new = λ r s. refl;
  burst_new = λ r s. refl;
  limit_set_limit = λ c r. refl;
  burst_set_limit = λ c r. refl;
  limit_set_burst = λ c s. refl;
  burst_set_burst = λ c s. refl;
  limit_allow = λ now c. rps-take_token c c.tokens;
  burst_allow = λ now c. burst-take_token c c.tokens;
}

abbrev empty : RateLimiter Counter
empty = new_rate_limiter counters (pos 10) (pos 20)

-- The key has a bucket with one token left, under the limits of an earlier override.
abbrev known : RateLimiter Counter
known = record empty {
  limiters =
      ("key", record { limiter = record { rps = pos 3; burst = pos 8; tokens = 1 }; last_seen = 5 })
      ∷ [];
}

middleware_with_lem_example :
    (r : ℤ) × (s : ℤ) × IsLimit (pos 3) (pos 10) r
    × IsLimit (pos 0) (pos 20) s
    × Serves counters known 7 "key" r s (middleware_with counters known 7 "key" (pos 3) (pos 0))
middleware_with_lem_example =
    middleware_with_lem counters known 7 "key" (pos 3) (pos 0) counters-IsLawful

abbrev used : RateLimiter Counter
used = (middleware_with counters empty 7 "key" (pos 3) (pos 0)).1
