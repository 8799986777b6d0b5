-- ===== src/AuditStore/Pruner/Retention.antt =====
-- What a sweep deletes, and when it ends.
use native.Mathlib.Nat.{mul-suc}
use sheeld.Prelude.{
  ℕ, zero, suc, ◌+◌, ◌-◌, ◌*◌, ◌≤◌, ◌<◌, ◌≡◌, ◌⊎◌, ◌∙◌, refl, ap, inl, inr, Bool, true, false, not,
  ◌==◌, nat_eq, ltb, List, [], ◌∷◌, Option, some, filter, length, arith, Bool-cases, beq-eq,
}
use sheeld.AuditStore.Logs.{AuditLog, delete_audit_logs_before}
use sheeld.AuditStore.Pruner.{
  Meeting, cancelled, fails, deletes, Pruned, prune_rounds, prune_once, prune_batch_size,
}

-- A row that is not older than the cutoff.
abbrev pub is_kept : ℕ → AuditLog → Bool
is_kept cutoff row = not (ltb row.created_at cutoff)

-- What a DELETE leaves.
record Deletes (cutoff limit : ℕ) (rows : List AuditLog) (done : ℕ × List AuditLog) : Type 0 where
  bounded : done.0 ≤ limit
  counted : done.0 + length done.1 ≡ length rows
  keeps : filter (is_kept cutoff) done.1 ≡ filter (is_kept cutoff) rows
  clears : done.0 < limit → done.1 ≡ filter (is_kept cutoff) rows

delete-Deletes :
    (cutoff limit : ℕ) (rows : List AuditLog)
    → Deletes cutoff limit rows (delete_audit_logs_before cutoff limit rows)
unfolding delete_audit_logs_before
delete-Deletes cutoff limit [] = record {
  bounded = omega arith;
  counted = omega arith;
  keeps = refl;
  clears = λ h. refl;
}
delete-Deletes cutoff zero (row ∷ rows) = record {
  bounded = omega arith;
  counted = omega arith;
  keeps = refl;
  clears = λ h. absurd (omega arith);
}
delete-Deletes cutoff (suc limit) (row ∷ rows) =
    let a = delete-Deletes cutoff limit rows in
    let b = delete-Deletes cutoff (suc limit) rows in
    elim (Bool-cases (ltb row.created_at cutoff)) [
      | inl e ↦ rw e (record {
        bounded = omega (arith, a.bounded);
        counted = omega (arith, a.counted);
        keeps = rw e a.keeps;
        clears = λ h. rw e (a.clears (omega arith));
      })
      | inr e ↦ rw e (record {
        bounded = b.bounded;
        counted = omega (arith, b.counted);
        keeps = rw e (ap (λ l. row ∷ l) b.keeps);
        clears = λ h. rw e (ap (λ l. row ∷ l) (b.clears h));
      })
    ]

-- The query after so many full batches is cancelled, or fails.
abbrev pub Interrupted : (ℕ → Meeting) → ℕ → ℕ → Type 0
Interrupted meets batch total =
    (n : ℕ) × ((total ≡ batch * n) × ((meets n ≡ cancelled) ⊎ (meets n ≡ fails)))

-- What a sweep comes to, from the rows and the number deleted before: every row that is not older than
-- the cutoff is there as it was, the others are counted, and none of them is left, or there is an
-- excuse for the number deleted.
pub record Sweeps (excuse : ℕ → Type 0) (cutoff total : ℕ) (rows : List AuditLog) (p : Pruned)
    : Type 0 where
  pub counted : p.total + length p.rows ≡ total + length rows
  pub keeps : filter (is_kept cutoff) p.rows ≡ filter (is_kept cutoff) rows
  pub clears : (p.rows ≡ filter (is_kept cutoff) rows) ⊎ excuse p.total

abbrev pub Ends : (ℕ → Type 0) → ℕ → ℕ → List AuditLog → Option Pruned → Type 0
Ends excuse cutoff total rows o = (p : Pruned) × ((o ≡ some p) × Sweeps excuse cutoff total rows p)

stops_here :
    (excuse : ℕ → Type 0) (cutoff total : ℕ) (rows : List AuditLog)
    → excuse total
    → Sweeps excuse cutoff total rows (record { rows = rows; total = total; stopped = true })
stops_here excuse cutoff total rows x = record { counted = refl; keeps = refl; clears = inr x }

Meeting-cases : (m : Meeting) → (m ≡ deletes) ⊎ ((m ≡ cancelled) ⊎ (m ≡ fails))
Meeting-cases deletes = inl refl
Meeting-cases cancelled = inr (inl refl)
Meeting-cases fails = inr (inr refl)

-- With more fuel than full batches in the table a loop ends.
module _ (meets : ℕ → Meeting) (batch cutoff : ℕ) where
  abbrev Excuse : ℕ → Type 0
  Excuse = Interrupted meets batch

  -- A query that deletes: the last one, or one of a whole batch.
  deleting-Ends :
      (fuel round total : ℕ) (rows : List AuditLog)
      → length rows < batch * suc fuel
      → total ≡ batch * round
      → meets round ≡ deletes
      → ((total : ℕ) (rows : List AuditLog)
          → length rows < batch * fuel
          → total ≡ batch * suc round
          → Ends Excuse cutoff total rows
              (prune_rounds meets batch cutoff fuel (suc round) total rows))
      → Ends Excuse cutoff total rows (prune_rounds meets batch cutoff (suc fuel) round total rows)
  unfolding prune_rounds
  deleting-Ends fuel round total rows h k e rest =
      let d = delete-Deletes cutoff batch rows in
      let done = delete_audit_logs_before cutoff batch rows in
      elim (Bool-cases (ltb done.0 batch)) [
        | inl t ↦ (
          record { rows = done.1; total = total + done.0; stopped = false },
          (
            rw (prune_rounds, e, t) refl,
            record {
              counted = omega (arith, d.counted);
              keeps = d.keeps;
              clears = inl (d.clears (ground arith));
            },
          ),
        )
        | inr t ↦
            let (p, (q, s)) =
              rest (total + done.0) done.1
                (ground (arith, d.bounded, d.counted, mul-suc batch fuel))
                (ground (arith, d.bounded, k, mul-suc batch round)) in
            (
              p,
              (
                rw (prune_rounds, e, t) q,
                record {
                  counted = omega (arith, s.counted, d.counted);
                  keeps = s.keeps ∙ d.keeps;
                  clears = elim s.clears [ inl c ↦ inl (c ∙ d.keeps) | inr x ↦ inr x ];
                },
              ),
            )
      ]

  prune_rounds-Ends :
      (fuel round total : ℕ) (rows : List AuditLog)
      → length rows < batch * fuel
      → total ≡ batch * round
      → Ends Excuse cutoff total rows (prune_rounds meets batch cutoff fuel round total rows)
  unfolding prune_rounds
  prune_rounds-Ends zero round total rows h k = absurd (omega arith)
  prune_rounds-Ends (suc fuel) round total rows h k = elim (Meeting-cases (meets round)) [
    | inl e ↦ deleting-Ends fuel round total rows h k e (prune_rounds-Ends fuel (suc round))
    | inr (inl e) ↦
        (_, (rw (prune_rounds, e) refl, stops_here Excuse cutoff total rows (round, (k, inl e))))
    | inr (inr e) ↦
        (_, (rw (prune_rounds, e) refl, stops_here Excuse cutoff total rows (round, (k, inr e))))
  ]

-- Why a sweep may leave rows that are past the retention: it is disabled, or the query that follows the
-- rows that it deleted was cancelled or failed.
abbrev pub Excused : (ℕ → Meeting) → ℕ → ℕ → Type 0
Excused meets retention total = (retention ≡ 0) ⊎ Interrupted meets 1000 total

-- A sweep ends, whatever its queries meet, within one query more than there are full batches of rows:
-- it deletes nothing that is not past the retention, counts what it deletes, and leaves nothing that is
-- past it unless the retention is 0 or the query that follows the full batches it deleted is cancelled
-- or fails.
pub prune_once-Ends :
    (meets : ℕ → Meeting) (fuel now retention : ℕ) (rows : List AuditLog)
    → length rows < 1000 * fuel
    → Ends
        (Excused meets retention)
        (now - retention)
        0
        rows
        (prune_once meets fuel now retention rows)
unfolding prune_once
prune_once-Ends meets fuel now retention rows h = elim (Bool-cases (retention == 0)) [
  | inl e ↦ (
    _,
    (
      rw (prune_once, e) refl,
      stops_here (Excused meets retention) (now - retention) 0 rows (inl (beq-eq retention 0 e)),
    ),
  )
  | inr e ↦
      let (p, (q, s)) =
        prune_rounds-Ends meets prune_batch_size (now - retention) fuel 0 0 rows h (omega arith) in
      (
        p,
        (
          rw (prune_once, e) q,
          record {
            counted = s.counted;
            keeps = s.keeps;
            clears = elim s.clears [ inl c ↦ inl c | inr x ↦ inr (inr x) ];
          },
        ),
      )
]
