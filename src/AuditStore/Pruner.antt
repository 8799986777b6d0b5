-- ===== src/AuditStore/Pruner.antt =====
-- internal/dataplane/auditstore/pruner.go: a sweep of `Pruner`. What each query of the sweep meets is the
-- parameter `meets`; a sweep runs on fuel, one unit for a query. `Run` repeats sweeps on a ticker.
pub mod Retention
use sheeld.Prelude.{
  ℕ, zero, suc, ◌+◌, ◌-◌, Bool, true, false, ◌==◌, nat_eq, ltb, List, Option, none, some,
}
use sheeld.AuditStore.Logs.{AuditLog, delete_audit_logs_before}

abbrev pub prune_batch_size : ℕ
prune_batch_size = 1000

-- At the n-th query the context is cancelled, or the query fails or succeeds.
pub data Meeting : Type 0 where
  cancelled fails deletes : Meeting

-- The rows after a sweep, how many it deleted, and whether it stopped before the end.
pub record Pruned : Type 0 where
  pub rows : List AuditLog
  pub total : ℕ
  pub stopped : Bool

-- The loop of `pruneOnce`, from the `round`-th query on; none when the fuel runs out.
unfoldable pub prune_rounds : (ℕ → Meeting) → ℕ → ℕ → ℕ → ℕ → ℕ → List AuditLog → Option Pruned
unfolding delete_audit_logs_before
prune_rounds meets batch cutoff zero round total rows = none
prune_rounds meets batch cutoff (suc fuel) round total rows = elim (meets round) [
  | cancelled ↦ some (record { rows = rows; total = total; stopped = true })
  | fails ↦ some (record { rows = rows; total = total; stopped = true })
  | deletes ↦
      let (n, left) = delete_audit_logs_before cutoff batch rows in
      elim (ltb n batch) [
        | true ↦ some (record { rows = left; total = total + n; stopped = false })
        | false ↦ prune_rounds meets batch cutoff fuel (suc round) (total + n) left
      ]
]

-- A retention of 0, which stands for every one that is not positive, disables the pruner.
unfoldable pub prune_once : (ℕ → Meeting) → ℕ → ℕ → ℕ → List AuditLog → Option Pruned
unfolding prune_rounds
prune_once meets fuel now retention rows = elim (retention == 0) [
  | true ↦ some (record { rows = rows; total = 0; stopped = true })
  | false ↦ prune_rounds meets prune_batch_size (now - retention) fuel 0 0 rows
]
