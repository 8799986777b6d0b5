-- ===== src/AuditStore/Logs/Scope.antt =====
-- What a listing of audit logs may contain.
use sheeld.Prelude.{
  ℕ, zero, suc, ◌≤◌, ◌≡◌, refl, subst, inl, inr, Bool, true, false, ◌&&◌, ◌||◌, ◌==◌, nat_eq,
  string_eq, bytes_eq, String, Str, List, [], ◌∷◌, Option, none, some, filter, take, length,
  length-take, sort_by, All, All-map, All-sort_by, All-Mem, filter-kept, beq-eq, arith, Bool-cases,
  Option-cases,
}
use mathlib.Core.List.{Memᴰ}
use sheeld.AuditStore.Logs.{
  AuditLog, ListAuditLogsParams, Parsers, Listing, bad_request, internal_error, reply_to_query,
  listed, newer, older_than, unless_null, selects, list_audit_logs, optional, known_status,
  limit_or, cursor, list_logs,
}

All-take : (P : AuditLog → Type 0) (n : ℕ) (rows : List AuditLog) → All P rows → All P (take n rows)
All-take P zero rows h = tt
All-take P (suc n) [] h = tt
All-take P (suc n) (row ∷ rows) h = (h.0, All-take P n rows h.1)

-- The rows are the organization's, of the status asked for, and no more than so many.
abbrev pub IsPage : ℕ → Option Str → ℕ → List AuditLog → Type 0
IsPage org status most rows =
    All
      (λ (row : AuditLog).
        (row.org_id ≡ org) × ((s : Str) → status ≡ some s → row.overall_result ≡ s))
      rows
    × (length rows ≤ most)

some-injective : {a b : Str} → some a ≡ some b → a ≡ b
some-injective h = cc

and_first : (a b : Bool) → (a && b) ≡ true → a ≡ true
and_first true b h = refl
and_first false b h = cc

and_second : (a b : Bool) → (a && b) ≡ true → b ≡ true
and_second true b h = h
and_second false b h = cc

unless_null-some :
    (o : Option Str) (test : Str → Bool) (s : Str)
    → unless_null o test ≡ true
    → o ≡ some s
    → test s ≡ true
unless_null-some none test s h e = cc
unless_null-some (some a) test s h e = subst (λ x. test x ≡ true) (some-injective e) h

selected :
    (p : ListAuditLogsParams) (row : AuditLog)
    → selects p row ≡ true
    → (row.org_id ≡ p.org_id) × ((s : Str) → p.status ≡ some s → row.overall_result ≡ s)
selected p row h = (
  beq-eq row.org_id p.org_id (and_first _ _ h),
  λ s e.
      beq-eq row.overall_result s
        (unless_null-some p.status _ s (and_first _ _ (and_second _ _ (and_second _ _ h))) e),
)

list_audit_logs-IsPage :
    (p : ListAuditLogsParams) (rows : List AuditLog)
    → IsPage p.org_id p.status p.limit_count (list_audit_logs p rows)
unfolding list_audit_logs
list_audit_logs-IsPage p rows =
    let Fits = λ (row : AuditLog).
      (row.org_id ≡ p.org_id) × ((s : Str) → p.status ≡ some s → row.overall_result ≡ s) in
    let cut = λ (row : AuditLog). unless_null p.before (λ c. older_than c row) in
    let chosen = filter (selects p) rows in
    let fits : All Fits chosen =
      All-map (λ row. Memᴰ row rows × (selects p row ≡ true)) chosen (λ row k. selected p row k.1)
        (filter-kept (selects p) rows) in
    let kept : All Fits (filter cut chosen) =
      All-map (λ row. Memᴰ row chosen × (cut row ≡ true)) (filter cut chosen)
        (λ row k. All-Mem Fits row chosen k.0 fits) (filter-kept cut chosen) in
    (
      All-take Fits p.limit_count (sort_by newer (filter cut chosen))
          (All-sort_by newer Fits (filter cut chosen) kept),
      omega (arith, length-take p.limit_count (sort_by newer (filter cut chosen))),
    )

-- What holds of every continuation holds of a parsed parameter, and of a cursor.
module _ (P : Listing → Type 0) (refused : (message : String) → P (bad_request message)) where
  optional-holds :
      {A : Type 0} (v : Str) (parse : Str → Option A) (message : String) (next : Option A → Listing)
      → ((o : Option A) → P (next o))
      → P (optional v parse message next)
  optional-holds v parse message next h = elim (Bool-cases (v == [])) [
    | inl e ↦ rw e (h none)
    | inr e ↦ elim (Option-cases (parse v)) [
      | inl k ↦ rw (e, k) (refused message)
      | inr (a, k) ↦ rw (e, k) (h (some a))
    ]
  ]

  cursor-holds :
      (parse : Parsers) (before before_id : Str) (next : Option (ℕ × ℕ) → Listing)
      → ((o : Option (ℕ × ℕ)) → P (next o))
      → P (cursor parse before before_id next)
  cursor-holds parse before before_id next h =
      elim (Bool-cases ((before == []) && (before_id == []))) [
        | inl e ↦ rw e (h none)
        | inr e ↦ elim (Bool-cases ((before == []) || (before_id == []))) [
          | inl f ↦ rw (e, f) (refused _)
          | inr f ↦ elim (Option-cases (parse.parse_time before)) [
            | inl k ↦ rw (e, f, k) (refused _)
            | inr (t, k) ↦ elim (Option-cases (parse.parse_uuid before_id)) [
              | inl m ↦ rw (e, f, k, m) (refused _)
              | inr (i, m) ↦ rw (e, f, k, m) (h (some (t, i)))
            ]
          ]
        ]
      ]

-- A listing is refused or fails, or its rows are the organization's and at most 200.
pub data Within (org : ℕ) : Listing → Type 0 where
  refuses : (message : String) → Within org (bad_request message)
  fails : (message : String) → Within org (internal_error message)
  lists :
      (rows : List AuditLog)
      → All (λ (row : AuditLog). row.org_id ≡ org) rows
      → length rows ≤ 200
      → Within org (listed rows)

limit_or-le : (o : Option ℕ) → limit_or o ≤ 200
limit_or-le none = omega arith
limit_or-le (some n) = ground arith

page-Within :
    (answers : Bool) (p : ListAuditLogsParams) (rows : List AuditLog)
    → p.limit_count ≤ 200
    → Within p.org_id (reply_to_query answers (list_audit_logs p rows))
page-Within false p rows l = fails "failed to list audit logs"
page-Within true p rows l =
    let page = list_audit_logs-IsPage p rows in
    lists (list_audit_logs p rows)
      (All-map
        (λ (row : AuditLog).
          (row.org_id ≡ p.org_id) × ((s : Str) → p.status ≡ some s → row.overall_result ≡ s))
        (list_audit_logs p rows) (λ row h. h.0) page.0)
      (omega (arith, page.1))

-- A request that names an organization is refused or fails, or lists rows of that organization only and
-- at most 200 of them, whatever the table holds and whatever else the request asks for.
pub list_logs-Within :
    (answers : Bool) (parse : Parsers) (query : String → Str) (rows : List AuditLog) (org : ℕ)
    → parse.parse_uuid (query "org_id") ≡ some org
    → Within org (list_logs answers parse query rows)
unfolding list_logs
list_logs-Within answers parse query rows org h =
    let W = Within org in
    rw (list_logs, h)
      (optional-holds W refuses (query "source_id") parse.parse_uuid "invalid source_id" _
        (λ source.
          optional-holds W refuses (query "status") known_status
            "status must be \"pass\" or \"fail\"" _
            (λ status.
              optional-holds W refuses (query "from") parse.parse_time "invalid from (want RFC3339)"
                _
                (λ from_time.
                  optional-holds W refuses (query "to") parse.parse_time "invalid to (want RFC3339)"
                    _
                    (λ to_time.
                      cursor-holds W refuses parse (query "before") (query "before_id") _ (λ before.
                        page-Within answers
                          (record {
                            org_id = org;
                            source_id = source;
                            status = status;
                            from_time = from_time;
                            to_time = to_time;
                            before = before;
                            limit_count = limit_or (parse.atoi (query "limit"));
                          })
                          rows (limit_or-le (parse.atoi (query "limit")))))))))
