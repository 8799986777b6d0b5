-- ===== src/BackendConfig/Tests.antt =====
-- The configuration store's theorems at a concrete configuration.
use sheeld.Prelude.{◌≡◌, ◌⊎◌, refl, true, bytes_eq, String, str, [], ◌∷◌, none, some}
use sheeld.Json.{Json, obj, field, end}
use sheeld.Prelude.Int.{pos}
use sheeld.Registry.{create, register}
use sheeld.Domain.{WorkspaceConfig}
use sheeld.BackendConfig.{ResolvedSource, AuthInfo, new_store, loaded, version, lookup_api_key}
use sheeld.BackendConfig.Apply.{apply}
use sheeld.BackendConfig.Apply.Atomic.{serving, apply_atomic}
use sheeld.Prelude.{All, false}
use sheeld.BackendConfig.Poller.{
  Poller, served, no_response, unexpected, not_modified, fetch_once, run_poller,
}
use sheeld.BackendConfig.Poller.Backoff.{failed_fetch_keeps, waits_bounded, InRange}
use sheeld.Samples.{source_config, guards, transformers, workspace, source, blocks_bad, hello}

apply_atomic_example :
    (((apply guards transformers workspace new_store).0 ≡ none)
      × (loaded (apply guards transformers workspace new_store).1 ≡ true)
      × (version (apply guards transformers workspace new_store).1 ≡ workspace.version))
    ⊎ ((e : String) × ((apply guards transformers workspace new_store).0 ≡ some e)
        × ((apply guards transformers workspace new_store).1 ≡ new_store))
apply_atomic_example = apply_atomic guards transformers workspace new_store

abbrev resolved : ResolvedSource
resolved = record source { input_guards = blocks_bad ∷ []; output_guards = blocks_bad ∷ [] }

abbrev listed : AuthInfo
listed = record { org_id = 7; key_hash = "hash"; rate_limit_rps = pos 0; rate_limit_burst = pos 0 }

finds_key :
    lookup_api_key (λ key. "hash") (serving guards transformers (workspace ∷ [])) hello
    ≡ some listed
unfolding lookup_api_key apply create register
finds_key = refl

abbrev open_config : Json
open_config = obj (field "on_error" (Json.text (str "fail_open")) end)

abbrev polling : Poller
polling = record { store = serving guards transformers (workspace ∷ []); last_etag = "v1" }

-- A configuration that attaches a guard of a type that the registry does not know.
abbrev unknown_guard : WorkspaceConfig
unknown_guard = record {
  version = "v2";
  organizations =
      record {
        id = 7;
        api_keys = [];
        sources = source_config ∷ [];
        guardrails =
            record {
              id = 1;
              name = "words";
              guard_type = "newer";
              phase = "both";
              config = obj end;
            }
            ∷ [];
        transformers = [];
        alert_webhooks = [];
      }
      ∷ [];
}

refused : (fetch_once guards transformers (served "v2" (some unknown_guard)) polling).0 ≡ false
unfolding fetch_once apply create register
refused = refl

failed_fetch_keeps_example :
    (fetch_once guards transformers (served "v2" (some unknown_guard)) polling).1 ≡ polling
failed_fetch_keeps_example =
    failed_fetch_keeps guards transformers (served "v2" (some unknown_guard)) polling refused

waits_bounded_example :
    All
      (InRange 30)
      (run_poller guards transformers 30
        (no_response ∷ unexpected 500 ∷ not_modified ∷ [])
        polling).0
waits_bounded_example =
    waits_bounded guards transformers 30 (no_response ∷ unexpected 500 ∷ not_modified ∷ []) polling
