-- ===== src/BackendConfig/Poller.antt =====
-- internal/dataplane/backendconfig/poller.go: `FetchOnce` and the loop of `Run`. What a fetch meets is a
-- value of `Response`, and the snapshot on disk is left out, since a failure to save it is only logged.
-- Durations are numbers.
pub mod Backoff
use sheeld.Prelude.{
  ℕ, ◌+◌, ◌*◌, Bool, true, false, ◌==◌, string_eq, leb, if◌then◌else◌, String, List, [], ◌∷◌,
  Option, none, some,
}
use sheeld.Domain.{WorkspaceConfig}
use sheeld.Guard.{Guard}
use sheeld.Transform.{Transformer}
use sheeld.Registry.{Registry}
use sheeld.BackendConfig.{Store}
use sheeld.BackendConfig.Apply.{apply}

-- How a fetch ends: no response, 304, 200 with the ETag and the body (none if it does not decode), or
-- another status.
pub data Response : Type 0 where
  no_response not_modified : Response
  served : String → Option WorkspaceConfig → Response
  unexpected : ℕ → Response

pub record Poller : Type 0 where
  pub store : Store
  pub last_etag : String

-- What is done with the outcome of `Apply`.
abbrev pub applied : String → Option String × Store → Poller → Bool × Poller
applied etag (none, s) p = (true, record { store = s; last_etag = etag })
applied etag (some e, s) p = (false, record p { store = s })

-- The wait after a fetch: doubled after a failure, up to six intervals.
abbrev pub next_wait : ℕ → Bool → ℕ → ℕ
next_wait interval true wait = interval
next_wait interval false wait = if leb (wait * 2) (6 * interval) then wait * 2 else (6 * interval)

module _ (guards : Registry Guard) (transformers : Registry Transformer) where
  -- Whether the fetch succeeded, and the poller after it.
  unfoldable pub fetch_once : Response → Poller → Bool × Poller
  fetch_once no_response p = (false, p)
  fetch_once not_modified p = (true, p)
  fetch_once (served etag none) p = (false, p)
  fetch_once (served etag (some cfg)) p = applied etag (apply guards transformers cfg p.store) p
  fetch_once (unexpected status) p = (false, p)

  -- The rounds of `Run` for the responses that it meets: the waits, and the poller in the end.
  unfoldable pub run_rounds : ℕ → List Response → ℕ → Poller → List ℕ × Poller
  unfolding fetch_once
  run_rounds interval [] wait p = ([], p)
  run_rounds interval (r ∷ rs) wait p =
      let (done, p') = fetch_once r p in
      let (waits, last) = run_rounds interval rs (next_wait interval done wait) p' in
      (wait ∷ waits, last)

  -- `Run` first waits one interval.
  abbrev pub run_poller : ℕ → List Response → Poller → List ℕ × Poller
  run_poller interval rs p = run_rounds interval rs interval p
