-- ===== src/TwoPhase/Coordinator/Calls.antt =====
-- Histories of calls of the coordinator.
use kos_db.Base.{ℕ, String, List, [], ◌∷◌, string_key}
use kos_db.TwoPhase.Coordinator.{
  Coordinator, begin_transaction, prepare_phase, commit_phase, abort_transaction,
  execute_transaction, recover_transaction,
}

-- The calls that a client makes.
pub data Call : Type 0 where
  begins : List (String × ℕ) → Call
  prepares commits aborts executes recovers : String → Call

unfoldable pub step : (ℕ → String) → Coordinator → ℕ × Call → Coordinator
step uuid c (now, begins shards) = (begin_transaction uuid now shards c).1
step uuid c (now, prepares txn_id) = (prepare_phase now txn_id c).1
step uuid c (now, commits txn_id) = (commit_phase now txn_id c).1
step uuid c (now, aborts txn_id) = (abort_transaction txn_id c).1
step uuid c (now, executes txn_id) = (execute_transaction {Op = ℕ} now txn_id [] c).1
step uuid c (now, recovers txn_id) = (recover_transaction now txn_id c).1

unfoldable pub run : (ℕ → String) → Coordinator → List (ℕ × Call) → Coordinator
run uuid c [] = c
run uuid c (call ∷ calls) = run uuid (step uuid c call) calls
