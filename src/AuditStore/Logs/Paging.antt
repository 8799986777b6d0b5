-- ===== src/AuditStore/Logs/Paging.antt =====
-- The pages of the audit log.
use sheeld.Prelude.{
  ◌≡◌, ◌≢◌, ◌∙◌, refl, ap, sym, subst, Bool, true, false, nat_eq, List, [], ◌∷◌, ◌++◌, some, filter,
  take, sort_by, All, arith,
}
use sheeld.Prelude.Sorting.Order.{
  Pairwise, Pairwise-filter, sort_by-Pairwise, InOrder, sort_by-InOrder, sort_by-filter,
}
use sheeld.AuditStore.Logs.{AuditLog, ListAuditLogsParams, newer, selects, list_audit_logs}

newer_asym : (a b : AuditLog) → newer a b ≡ true → newer b a ≡ false
newer_asym a b h = ground arith

newer_negative : (a b c : AuditLog) → newer b a ≡ false → newer c b ≡ false → newer c a ≡ false
newer_negative a b c h k = ground arith

-- Of two rows one is newer.
newer_total : (a b : AuditLog) → newer b a ≡ false → a.id ≢ b.id → newer a b ≡ true
newer_total a b h d = ground arith

newer_irreflexive : (a : AuditLog) → newer a a ≡ false
newer_irreflexive a = ground arith

-- The identifier is the table's primary key.
abbrev pub Distinct : List AuditLog → Type 0
Distinct = Pairwise (λ a b. a.id ≢ b.id)

-- Everything that the filters select, from the newest on.
abbrev pub all_logs : ListAuditLogsParams → List AuditLog → List AuditLog
all_logs p rows = sort_by newer (filter (selects p) rows)

All-middle :
    (P : AuditLog → Type 0) (pre : List AuditLog) (row : AuditLog) (rest : List AuditLog)
    → All P (pre ++ row ∷ rest)
    → P row
All-middle P [] row rest h = h.0
All-middle P (a ∷ pre) row rest h = All-middle P pre row rest h.1

-- A cursor drops what stands in front of its row, and the row, and keeps what comes after it.
module _ (row : AuditLog) where
  abbrev after_row : AuditLog → Bool
  after_row = newer row

  drops_front :
      (pre rest : List AuditLog)
      → InOrder newer newer_asym newer_negative (pre ++ row ∷ rest)
      → filter after_row (pre ++ row ∷ rest) ≡ filter after_row rest
  drops_front [] rest p = rw (newer_irreflexive row) refl
  drops_front (a ∷ pre) rest p =
      rw (All-middle (λ b. newer b a ≡ false) pre row rest p.0) (drops_front pre rest p.1)

  keeps_rest :
      (rest : List AuditLog)
      → All (λ a. newer a row ≡ false) rest
      → All (λ a. row.id ≢ a.id) rest
      → filter after_row rest ≡ rest
  keeps_rest [] h d = refl
  keeps_rest (a ∷ rest) h d =
      rw (newer_total row a h.0 d.0) (ap (λ l. a ∷ l) (keeps_rest rest h.1 d.1))

Pairwise-suffix :
    (R : AuditLog → AuditLog → Type 0) (pre : List AuditLog) (row : AuditLog) (rest : List AuditLog)
    → Pairwise R (pre ++ row ∷ rest)
    → All (R row) rest
Pairwise-suffix R [] row rest p = p.0
Pairwise-suffix R (a ∷ pre) row rest p = Pairwise-suffix R pre row rest p.1

-- A page asked for with a row's time and identifier as the cursor begins with the row that follows it in
-- the whole listing, for the same filters, and has as many of the rows as the limit allows: no row is
-- skipped and none is shown twice. The identifiers in the table are distinct.
pub next_page_follows :
    (p : ListAuditLogsParams) (rows pre rest : List AuditLog) (row : AuditLog)
    → Distinct rows
    → all_logs p rows ≡ pre ++ row ∷ rest
    → list_audit_logs (record p { before = some (row.created_at, row.id) }) rows
      ≡ take p.limit_count rest
unfolding list_audit_logs
next_page_follows p rows pre rest row d e =
    let chosen = filter (selects p) rows in
    let ordered : InOrder newer newer_asym newer_negative (pre ++ row ∷ rest) =
      subst (InOrder newer newer_asym newer_negative) e
        (sort_by-InOrder newer newer_asym newer_negative chosen) in
    let distinct : Distinct (pre ++ row ∷ rest) = subst Distinct e (
      sort_by-Pairwise (λ a b. a.id ≢ b.id) newer (λ a b n q. n (sym q)) chosen
        (Pairwise-filter (λ a b. a.id ≢ b.id) (selects p) rows d)) in
    ap (take p.limit_count) (
      sort_by-filter newer newer_asym newer_negative (newer row) chosen
      ∙ (ap (filter (newer row)) e
          ∙ (drops_front row pre rest ordered
              ∙ keeps_rest row rest
                  (Pairwise-suffix (λ a b. newer b a ≡ false) pre row rest ordered)
                  (Pairwise-suffix (λ a b. a.id ≢ b.id) pre row rest distinct))))
