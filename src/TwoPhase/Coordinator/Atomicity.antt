-- ===== src/TwoPhase/Coordinator/Atomicity.antt =====
-- No transaction is committed at one participant and not at another.
use kos_db.Base.{
  ℕ, String, ◌≡◌, refl, true, some, List, ◌⊎◌, inl, inr, ◌≢◌, All, All-mono, string_key, sym, ◌∙◌,
}
use kos_db.TwoPhase.Coordinator.Calls.{Call, run}
use kos_db.TwoPhase.Coordinator.Invariant.{
  AllIn, AgreesIn, IsConsistent, AllConsistent, stored-IsConsistent, run-AllConsistent,
}
use kos_db.Dict.Values.{values}
use kos_db.TwoPhase.{TransactionState, ParticipantState, DistributedTransaction}
use kos_db.TwoPhase.Coordinator.{Coordinator, init, get_transaction}

abbrev pub IsCommitted : DistributedTransaction → Type 0
IsCommitted txn =
    (txn.state ≡ TransactionState.committed)
    × (txn.decision ≡ some true)
    × All (λ p. p.state ≡ ParticipantState.committed) (values txn.participants)

abbrev pub HasNoCommit : DistributedTransaction → Type 0
HasNoCommit txn =
    (txn.state ≢ TransactionState.committed)
    × All (λ p. p.state ≢ ParticipantState.committed) (values txn.participants)

IsConsistent-atomic :
    (txn : DistributedTransaction) → IsConsistent txn → IsCommitted txn ⊎ HasNoCommit txn
IsConsistent-atomic txn v = go txn.state refl v.agrees
  where
    open txn use {state, participants}

    no_commit :
        (s : ParticipantState)
        → s ≢ ParticipantState.committed
        → AllIn s txn
        → All (λ p. p.state ≢ ParticipantState.committed) (values participants)
    no_commit s ne all_in = All-mono (values participants) (λ p e. λ c. ne (sym e ∙ c)) all_in

    go : (s : TransactionState) → state ≡ s → AgreesIn s txn → IsCommitted txn ⊎ HasNoCommit txn
    go TransactionState.committed e h = inl (e, h.1, h.0)
    go TransactionState.active e h = inr (λ c. cc, no_commit _ (λ c. cc) h)
    go TransactionState.prepared e h = inr (λ c. cc, no_commit _ (λ c. cc) h.0)
    go TransactionState.aborted e h = inr (λ c. cc, no_commit _ (λ c. cc) h.0)
    go TransactionState.preparing e h = absurd h
    go TransactionState.committing e h = absurd h
    go TransactionState.aborting e h = absurd h
    go TransactionState.heuristic_abort e h = absurd h

init-AllConsistent :
    (coordinator_id : String) (timeout : ℕ) → AllConsistent (init coordinator_id timeout)
unfolding init values
init-AllConsistent coordinator_id timeout = tt

-- After any history of calls from a coordinator with no transaction, every transaction is
-- atomic: either it is COMMITTED, with the decision True and every participant COMMITTED, or it
-- is not, and no participant is COMMITTED.
pub run-atomic :
    (uuid : ℕ → String) (coordinator_id : String) (timeout : ℕ) (calls : List (ℕ × Call))
    (txn_id : String) (txn : DistributedTransaction)
    → get_transaction txn_id (run uuid (init coordinator_id timeout) calls) ≡ some txn
    → IsCommitted txn ⊎ HasNoCommit txn
unfolding get_transaction
run-atomic uuid coordinator_id timeout calls txn_id txn e =
    let c : Coordinator = init coordinator_id timeout in
    IsConsistent-atomic txn (
      stored-IsConsistent (run uuid c calls) txn_id txn
        (run-AllConsistent uuid c calls (init-AllConsistent coordinator_id timeout)) e)
