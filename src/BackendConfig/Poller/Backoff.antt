-- ===== src/BackendConfig/Poller/Backoff.antt =====
-- A poller whose fetches fail keeps serving, and waits longer, up to a bound.
use sheeld.Prelude.{
  ℕ, ◌*◌, ◌≤◌, ◌≡◌, ◌⊎◌, refl, Bool, true, false, leb, Bool-cases, inl, inr, String, List, [], ◌∷◌,
  Option, none, some, All, arith,
}
use sheeld.Guard.{Guard}
use sheeld.Transform.{Transformer}
use sheeld.Registry.{Registry}
use sheeld.BackendConfig.{Store}
use sheeld.BackendConfig.Apply.{apply}
use sheeld.BackendConfig.Apply.Atomic.{apply_atomic}
use sheeld.BackendConfig.Poller.{
  Response, no_response, not_modified, served, unexpected, Poller, applied, fetch_once, next_wait,
  run_rounds, run_poller,
}

applied_keeps :
    (etag : String) (o : Option String) (s : Store) (p : Poller)
    → ((o ≡ none) ⊎ (s ≡ p.store))
    → ((applied etag (o, s) p).0 ≡ false)
    → (applied etag (o, s) p).1 ≡ p
applied_keeps etag none s p k h = absurd (cc h)
applied_keeps etag (some e) s p (inl k) h = absurd (cc k)
applied_keeps etag (some e) s p (inr k) h = rw k refl

-- Between one interval and six.
abbrev pub InRange : ℕ → ℕ → Type 0
InRange interval wait = (interval ≤ wait) × (wait ≤ 6 * interval)

next_wait-InRange :
    (interval : ℕ) (done : Bool) (wait : ℕ)
    → InRange interval wait
    → InRange interval (next_wait interval done wait)
next_wait-InRange interval true wait h = (omega arith, omega arith)
next_wait-InRange interval false wait h = elim (Bool-cases (leb (wait * 2) (6 * interval))) [
  | inl b ↦ rw b (omega (arith, h.0), ground (arith, b))
  | inr b ↦ rw b (omega (arith, h.0), omega arith)
]

module _ (guards : Registry Guard) (transformers : Registry Transformer) where
  -- A fetch that fails, in whatever way, leaves the serving configuration and the ETag as they were.
  pub failed_fetch_keeps :
      (r : Response) (p : Poller)
      → (fetch_once guards transformers r p).0 ≡ false
      → (fetch_once guards transformers r p).1 ≡ p
  unfolding fetch_once
  failed_fetch_keeps no_response p h = refl
  failed_fetch_keeps not_modified p h = refl
  failed_fetch_keeps (served etag none) p h = refl
  failed_fetch_keeps (unexpected status) p h = refl
  failed_fetch_keeps (served etag (some cfg)) p h =
      let q = apply guards transformers cfg p.store in
      let kept : (q.0 ≡ none) ⊎ (q.1 ≡ p.store) =
        elim (apply_atomic guards transformers cfg p.store) [
          | inl (n, l, v) ↦ inl n
          | inr (e, m, k) ↦ inr k
        ] in
      applied_keeps etag q.0 q.1 p kept h

  run_rounds-InRange :
      (interval : ℕ) (rs : List Response) (wait : ℕ) (p : Poller)
      → InRange interval wait
      → All (InRange interval) (run_rounds guards transformers interval rs wait p).0
  unfolding run_rounds
  run_rounds-InRange interval [] wait p h = tt
  run_rounds-InRange interval (r ∷ rs) wait p h =
      let q = fetch_once guards transformers r p in
      (
        h,
        run_rounds-InRange interval rs (next_wait interval q.0 wait) q.1
            (next_wait-InRange interval q.0 wait h),
      )

  -- Whatever a poller's fetches meet, each wait of its loop is at least one interval and at most six.
  pub waits_bounded :
      (interval : ℕ) (rs : List Response) (p : Poller)
      → All (InRange interval) (run_poller guards transformers interval rs p).0
  waits_bounded interval rs p = run_rounds-InRange interval rs interval p (omega arith, omega arith)
