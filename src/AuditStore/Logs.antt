-- ===== src/AuditStore/Logs.antt =====
-- internal/dataplane/db/generated/audit_logs.sql.go and internal/dataplane/auditstore/handler.go: the
-- table of audit logs, the queries on it, and the handler that lists it. The table is the list of its
-- rows in the order in which the database reads them; a time is a number, and latencies are left out.
pub mod Paging
pub mod Scope
mod Tests
use sheeld.Prelude.{
  ℕ, zero, suc, ◌+◌, Bool, true, false, not, ◌&&◌, ◌||◌, ◌==◌, nat_eq, string_eq, bytes_eq, ltb,
  leb, if◌then◌else◌, String, Str, str, List, [], ◌∷◌, Option, none, some, filter, take, length,
  sort_by,
}
use sheeld.Json.{Json}

pub record AuditLog : Type 0 where
  pub id : ℕ
  pub org_id : ℕ
  pub source_id : ℕ
  pub input_hash : String
  pub guard_results : Json
  pub overall_result : Str
  pub created_at : ℕ
  pub prompt_tokens : Option ℕ
  pub completion_tokens : Option ℕ
  pub total_tokens : Option ℕ
  pub model : Option Str

-- A cursor is the time and the identifier of a row.
pub record ListAuditLogsParams : Type 0 where
  pub org_id : ℕ
  pub source_id : Option ℕ
  pub status : Option Str
  pub from_time : Option ℕ
  pub to_time : Option ℕ
  pub before : Option (ℕ × ℕ)
  pub limit_count : ℕ

-- `$n IS NULL OR …`
abbrev pub unless_null {ℓ} : {A : Type ℓ} → Option A → (A → Bool) → Bool
unless_null none test = true
unless_null (some a) test = test a

-- (created_at, id) < (t, i)
abbrev pub older_than : ℕ × ℕ → AuditLog → Bool
older_than (t, i) row = ltb row.created_at t || ((row.created_at == t) && ltb row.id i)

-- ORDER BY created_at DESC, id DESC
abbrev pub newer : AuditLog → AuditLog → Bool
newer a b = older_than (a.created_at, a.id) b

-- The conditions but the cursor's.
abbrev pub selects : ListAuditLogsParams → AuditLog → Bool
selects p row =
    (row.org_id == p.org_id)
    && (unless_null p.source_id (λ s. row.source_id == s)
        && (unless_null p.status (λ s. row.overall_result == s)
            && (unless_null p.from_time (λ t. leb t row.created_at)
                && unless_null p.to_time (λ t. leb row.created_at t))))

unfoldable pub list_audit_logs : ListAuditLogsParams → List AuditLog → List AuditLog
list_audit_logs p rows = take p.limit_count (
    sort_by newer
      (filter (λ row. unless_null p.before (λ c. older_than c row)) (filter (selects p) rows)))

-- A DELETE of at most so many rows that are older than the cutoff: their number, and what is left.
unfoldable pub delete_audit_logs_before : ℕ → ℕ → List AuditLog → ℕ × List AuditLog
delete_audit_logs_before cutoff limit [] = (0, [])
delete_audit_logs_before cutoff zero (row ∷ rows) = (0, row ∷ rows)
delete_audit_logs_before cutoff (suc limit) (row ∷ rows) =
    let (n, left) = delete_audit_logs_before cutoff limit rows in
    let (m, kept) = delete_audit_logs_before cutoff (suc limit) rows in
    if ltb row.created_at cutoff then (suc n, left) else (m, row ∷ kept)

pub record AuditSummaryRow : Type 0 where
  pub total_requests : ℕ
  pub passed : ℕ
  pub prompt_tokens : ℕ
  pub completion_tokens : ℕ
  pub total_tokens : ℕ

-- COALESCE(SUM(…), 0)
abbrev pub sum_of : (AuditLog → Option ℕ) → List AuditLog → ℕ
sum_of column [] = 0
sum_of column (row ∷ rows) = or_zero (column row) + sum_of column rows
  where
    or_zero : Option ℕ → ℕ
    or_zero none = 0
    or_zero (some n) = n

unfoldable pub audit_summary : ℕ → ℕ → List AuditLog → AuditSummaryRow
audit_summary org since rows =
    let window = filter (λ row. (row.org_id == org) && leb since row.created_at) rows in
    record {
      total_requests = length window;
      passed = length (filter (λ row. row.overall_result == str "pass") window);
      prompt_tokens = sum_of (λ row. row.prompt_tokens) window;
      completion_tokens = sum_of (λ row. row.completion_tokens) window;
      total_tokens = sum_of (λ row. row.total_tokens) window;
    }

-- What the handler reads of a query string: `uuid.Parse`, `time.Parse` and `strconv.Atoi`, whose number
-- is given where it is not negative.
pub record Parsers : Type 0 where
  pub parse_uuid : Str → Option ℕ
  pub parse_time : Str → Option ℕ
  pub atoi : Str → Option ℕ

-- What `Handler.List` answers: 400 or 500 with a message, or 200 with rows.
pub data Listing : Type 0 where
  bad_request : String → Listing
  internal_error : String → Listing
  listed : List AuditLog → Listing

-- An optional parameter: absent, or parsed, or refused with a message.
abbrev pub optional {ℓ} :
    {A : Type ℓ} → Str → (Str → Option A) → String → (Option A → Listing) → Listing
optional v parse message next =
    if v == []
    then next none
    else elim (parse v) [ none ↦ bad_request message | some a ↦ next (some a) ]

abbrev pub known_status : Str → Option Str
known_status v = if not (v == str "pass") && not (v == str "fail") then none else some v

-- A limit that is no number from 1 to 200 is ignored.
abbrev pub limit_or : Option ℕ → ℕ
limit_or none = 50
limit_or (some n) = if ltb 0 n && leb n 200 then n else 50

-- Both parts of a cursor, or neither.
abbrev pub cursor : Parsers → Str → Str → (Option (ℕ × ℕ) → Listing) → Listing
cursor parse before before_id next =
    if (before == []) && (before_id == [])
    then next none
    else if (before == []) || (before_id == [])
    then bad_request "before and before_id must be provided together"
    else elim (parse.parse_time before) [
      | none ↦ bad_request "invalid before cursor (want RFC3339)"
      | some t ↦ elim (parse.parse_uuid before_id) [
        | none ↦ bad_request "invalid before_id cursor"
        | some i ↦ next (some (t, i))
      ]
    ]

-- The reply to a query: its rows, if the database answers.
abbrev pub reply_to_query : Bool → List AuditLog → Listing
reply_to_query answers rows =
    if answers then listed rows else internal_error "failed to list audit logs"

-- `answers` says whether the database answers the query.
unfoldable pub list_logs : Bool → Parsers → (String → Str) → List AuditLog → Listing
unfolding list_audit_logs
list_logs answers parse query rows = elim (parse.parse_uuid (query "org_id")) [
  | none ↦ bad_request "invalid or missing org_id"
  | some org ↦ optional (query "source_id") parse.parse_uuid "invalid source_id" (λ source.
      optional (query "status") known_status "status must be \"pass\" or \"fail\"" (λ status.
        optional (query "from") parse.parse_time "invalid from (want RFC3339)" (λ from_time.
          optional (query "to") parse.parse_time "invalid to (want RFC3339)" (λ to_time.
            cursor parse (query "before") (query "before_id") (λ before. reply_to_query answers (
              list_audit_logs
                (record {
                  org_id = org;
                  source_id = source;
                  status = status;
                  from_time = from_time;
                  to_time = to_time;
                  before = before;
                  limit_count = limit_or (parse.atoi (query "limit"));
                })
                rows))))))
]
