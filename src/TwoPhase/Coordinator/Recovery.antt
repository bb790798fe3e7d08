-- ===== src/TwoPhase/Coordinator/Recovery.antt =====
-- recover_transaction, for each state in which a crash may have left a transaction.
use kos_db.Base.{ℕ, String, ◌≡◌, some, arith, err, string_key, ==-refl}
use kos_db.Dict.{get-put}
use kos_db.TwoPhase.{TransactionState, DistributedTransaction}
use kos_db.TwoPhase.Coordinator.{
  Coordinator, invalid_state, commit_phase, commit_txn, commit_enter, get_transaction,
  recover_transaction, recover_state,
}

-- A transaction that was left COMMITTING can not be recovered: whatever the rest of it is,
-- recover_transaction raises ValueError and the transaction stays COMMITTING.
pub recover_committing-raises :
    (now : ℕ) (txn_id : String) (txn : DistributedTransaction) (c : Coordinator)
    → get_transaction txn_id c ≡ some txn
    → txn.state ≡ TransactionState.committing
    → ((recover_transaction now txn_id c).0 ≡ err (invalid_state TransactionState.committing))
      × (get_transaction txn_id (recover_transaction now txn_id c).1 ≡ some txn)
unfolding recover_transaction recover_state get_transaction commit_phase commit_txn commit_enter
recover_committing-raises now txn_id txn c e s =
    rw (e, recover_transaction)
      (rw (s, recover_state) (rw (e, commit_phase) (simp (get-put, ==-refl) (ground arith))))
