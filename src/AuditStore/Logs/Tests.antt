-- ===== src/AuditStore/Logs/Tests.antt =====
-- The audit log's listing and pruning on a small table.
use sheeld.Prelude.{
  ℕ, ◌-◌, ◌≡◌, refl, true, false, ◌==◌, String, Str, str, string_eq, List, [], ◌∷◌, Option, none,
  some, arith,
}
use sheeld.Json.{null}
use sheeld.AuditStore.Logs.{
  AuditLog, ListAuditLogsParams, Parsers, list_audit_logs, list_logs, audit_summary,
}
use sheeld.AuditStore.Logs.Paging.{Distinct, all_logs, next_page_follows}
use sheeld.AuditStore.Logs.Scope.{Within, list_logs-Within}
use sheeld.AuditStore.Pruner.{deletes, prune_once}
use sheeld.AuditStore.Pruner.Retention.{Ends, Excused, prune_once-Ends}

abbrev log : ℕ → ℕ → ℕ → AuditLog
log id org created_at = record {
  id = id;
  org_id = org;
  source_id = 10;
  input_hash = "h";
  guard_results = null;
  overall_result = str "pass";
  created_at = created_at;
  prompt_tokens = some 3;
  completion_tokens = none;
  total_tokens = some 3;
  model = none;
}

-- Two rows of organization 1 have the same time.
abbrev table : List AuditLog
table = log 1 1 50 ∷ log 2 2 60 ∷ log 3 1 70 ∷ log 4 1 70 ∷ []

table-Distinct : Distinct table
table-Distinct = omega arith

abbrev asked : ListAuditLogsParams
asked = record {
  org_id = 1;
  source_id = none;
  status = none;
  from_time = none;
  to_time = none;
  before = none;
  limit_count = 1;
}

first_pages : all_logs asked table ≡ log 4 1 70 ∷ log 3 1 70 ∷ log 1 1 50 ∷ []
first_pages = refl

next_page_follows_example :
    list_audit_logs (record asked { before = some (70, 4) }) table ≡ log 3 1 70 ∷ []
next_page_follows_example =
    next_page_follows asked table [] (log 3 1 70 ∷ log 1 1 50 ∷ []) (log 4 1 70) table-Distinct
      first_pages

abbrev parse_number : Str → Option ℕ
parse_number (n ∷ []) = some n
parse_number _ = none

abbrev parsers : Parsers
parsers = record { parse_uuid = parse_number; parse_time = parse_number; atoi = parse_number }

abbrev query : String → Str
query name = elim (name == "org_id") [ true ↦ 1 ∷ [] | false ↦ [] ]

list_logs-Within_example : Within 1 (list_logs true parsers query table)
list_logs-Within_example = list_logs-Within true parsers query table 1 refl

prune_once-Ends_example :
    Ends (Excused (λ n. deletes) 40) (100 - 40) 0 table (prune_once (λ n. deletes) 1 100 40 table)
prune_once-Ends_example = prune_once-Ends (λ n. deletes) 1 100 40 table (omega arith)

-- The row that is older than 60 goes; the one of that time stays.
pruned :
    prune_once (λ n. deletes) 1 100 40 table
    ≡ some (record { rows = log 2 2 60 ∷ log 3 1 70 ∷ log 4 1 70 ∷ []; total = 1; stopped = false })
unfolding prune_once
pruned = refl

summed : (audit_summary 1 0 table).total_requests ≡ 3
unfolding audit_summary
summed = refl
