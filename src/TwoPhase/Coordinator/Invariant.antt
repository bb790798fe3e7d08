-- ===== src/TwoPhase/Coordinator/Invariant.antt =====
-- What holds of every transaction between calls of the coordinator, whatever the calls.
use kos_db.Base.{
  ℕ, suc, String, ◌≡◌, refl, true, false, some, List, [], ◌∷◌, arith, inl, inr, All, string_key,
  Option-cases,
}
use kos_db.TwoPhase.Coordinator.Calls.{
  Call, begins, prepares, commits, aborts, executes, recovers, step, run,
}
use kos_db.Dict.{get}
use kos_db.Dict.Values.{values, All-map_values, All-put, All-get}
use kos_db.TwoPhase.{TransactionState, ParticipantState, DistributedTransaction, add_participant}
use kos_db.TwoPhase.Coordinator.{
  Coordinator, add_participants, begin_transaction, prepare_txn, commit_txn, abort_txn,
  prepare_enter, prepare_vote, prepare_finish, commit_enter, commit_mark, commit_finish,
  abort_enter, abort_mark, abort_finish, prepare_phase, commit_phase, abort_transaction,
  execute_transaction, recover_state, get_transaction, recover_transaction, store,
}

abbrev pub AllIn : ParticipantState → DistributedTransaction → Type 0
AllIn s txn = All (λ p. p.state ≡ s) (values txn.participants)

-- The participants agree with the state and the decision; the states that a phase passes through
-- are never left behind.
abbrev pub AgreesIn : TransactionState → DistributedTransaction → Type 0
AgreesIn TransactionState.active txn = AllIn ParticipantState.active txn
AgreesIn TransactionState.prepared txn =
    AllIn ParticipantState.prepared txn × (txn.decision ≡ some true)
AgreesIn TransactionState.committed txn =
    AllIn ParticipantState.committed txn × (txn.decision ≡ some true)
AgreesIn TransactionState.aborted txn =
    AllIn ParticipantState.aborted txn × (txn.decision ≡ some false)
AgreesIn _ txn = ⊥

pub record IsConsistent (txn : DistributedTransaction) : Type 0 where
  pub agrees : AgreesIn txn.state txn

AllIn-prepare_vote :
    (now : ℕ) (txn : DistributedTransaction)
    → AllIn ParticipantState.prepared (prepare_vote now txn)
unfolding prepare_vote
AllIn-prepare_vote now txn = All-map_values _ _ txn.participants (λ p. refl)

AllIn-commit_mark :
    (now : ℕ) (txn : DistributedTransaction)
    → AllIn ParticipantState.committed (commit_mark now txn)
unfolding commit_mark
AllIn-commit_mark now txn = All-map_values _ _ txn.participants (λ p. refl)

AllIn-abort_mark : (txn : DistributedTransaction) → AllIn ParticipantState.aborted (abort_mark txn)
unfolding abort_mark
AllIn-abort_mark txn = All-map_values _ _ txn.participants (λ p. refl)

prepare_txn-IsConsistent :
    (now : ℕ) (txn : DistributedTransaction)
    → IsConsistent txn
    → IsConsistent (prepare_txn now txn).1
unfolding prepare_txn prepare_enter prepare_finish
prepare_txn-IsConsistent now txn h =
    ground (arith, AllIn-prepare_vote now (record txn { state = TransactionState.preparing }))

commit_txn-IsConsistent :
    (now : ℕ) (txn : DistributedTransaction)
    → IsConsistent txn
    → IsConsistent (commit_txn now txn).1
unfolding commit_txn commit_enter commit_finish
commit_txn-IsConsistent now txn h =
    ground (arith, AllIn-commit_mark now (record txn { state = TransactionState.committing }))

abort_txn-IsConsistent :
    (txn : DistributedTransaction) → IsConsistent txn → IsConsistent (abort_txn txn)
unfolding abort_txn abort_finish
abort_txn-IsConsistent txn h = ground (arith, AllIn-abort_mark (abort_enter txn))

abbrev pub AllConsistent : Coordinator → Type 0
AllConsistent c = All IsConsistent (values c.transactions)

pub stored-IsConsistent :
    (c : Coordinator) (txn_id : String) (txn : DistributedTransaction)
    → AllConsistent c
    → get txn_id c.transactions ≡ some txn
    → IsConsistent txn
stored-IsConsistent c txn_id txn h e = All-get IsConsistent txn_id txn c.transactions h e

store-AllConsistent :
    (c : Coordinator) (txn_id : String) (txn : DistributedTransaction)
    → AllConsistent c
    → IsConsistent txn
    → AllConsistent (store txn txn_id c)
store-AllConsistent c txn_id txn h v = All-put IsConsistent txn_id txn c.transactions h v

add_participants-IsConsistent :
    (uuid : ℕ → String) (drawn now : ℕ) (shards : List (String × ℕ)) (txn : DistributedTransaction)
    → txn.state ≡ TransactionState.active
    → AllIn ParticipantState.active txn
    → IsConsistent (add_participants uuid drawn now shards txn)
unfolding add_participants add_participant
add_participants-IsConsistent uuid drawn now [] txn e h = ground arith
add_participants-IsConsistent uuid drawn now (shard ∷ shards) txn e h =
    add_participants-IsConsistent uuid (suc drawn) now shards _ e
      (All-put _ (uuid drawn) _ txn.participants h refl)

begin-AllConsistent :
    (uuid : ℕ → String) (now : ℕ) (shards : List (String × ℕ)) (c : Coordinator)
    → AllConsistent c
    → AllConsistent (begin_transaction uuid now shards c).1
unfolding begin_transaction values
begin-AllConsistent uuid now shards c h =
    store-AllConsistent c (uuid c.drawn) _ h
      (add_participants-IsConsistent uuid _ now shards _ refl tt)

prepare-AllConsistent :
    (now : ℕ) (txn_id : String) (c : Coordinator)
    → AllConsistent c
    → AllConsistent (prepare_phase now txn_id c).1
unfolding prepare_phase
prepare-AllConsistent now txn_id c h = elim (Option-cases (get txn_id c.transactions)) [
  | inl e ↦ rw (e, prepare_phase) h
  | inr (txn, e) ↦
      rw (e, prepare_phase)
        (store-AllConsistent c txn_id _ h
          (prepare_txn-IsConsistent now txn (stored-IsConsistent c txn_id txn h e)))
]

commit-AllConsistent :
    (now : ℕ) (txn_id : String) (c : Coordinator)
    → AllConsistent c
    → AllConsistent (commit_phase now txn_id c).1
unfolding commit_phase
commit-AllConsistent now txn_id c h = elim (Option-cases (get txn_id c.transactions)) [
  | inl e ↦ rw (e, commit_phase) h
  | inr (txn, e) ↦
      rw (e, commit_phase)
        (store-AllConsistent c txn_id _ h
          (commit_txn-IsConsistent now txn (stored-IsConsistent c txn_id txn h e)))
]

abort-AllConsistent :
    (txn_id : String) (c : Coordinator)
    → AllConsistent c
    → AllConsistent (abort_transaction txn_id c).1
unfolding abort_transaction
abort-AllConsistent txn_id c h = elim (Option-cases (get txn_id c.transactions)) [
  | inl e ↦ rw (e, abort_transaction) h
  | inr (txn, e) ↦
      rw (e, abort_transaction)
        (store-AllConsistent c txn_id _ h
          (abort_txn-IsConsistent txn (stored-IsConsistent c txn_id txn h e)))
]

execute-AllConsistent :
    {Op : Type 0} (now : ℕ) (txn_id : String) (operations : List Op) (c : Coordinator)
    → AllConsistent c
    → AllConsistent (execute_transaction now txn_id operations c).1
unfolding execute_transaction
execute-AllConsistent now txn_id operations c h = ground (
  arith,
  prepare-AllConsistent now txn_id c h,
  commit-AllConsistent now txn_id (prepare_phase now txn_id c).1,
  abort-AllConsistent txn_id (prepare_phase now txn_id c).1,
)

recover-AllConsistent :
    (now : ℕ) (txn_id : String) (s : TransactionState) (c : Coordinator)
    → AllConsistent c
    → AllConsistent (recover_state now txn_id s c).1
unfolding recover_state
recover-AllConsistent now txn_id TransactionState.prepared c h = commit-AllConsistent now txn_id c h
recover-AllConsistent now txn_id TransactionState.committing c h =
    commit-AllConsistent now txn_id c h
recover-AllConsistent now txn_id TransactionState.aborting c h = abort-AllConsistent txn_id c h
recover-AllConsistent now txn_id _ c h = h

recover_transaction-AllConsistent :
    (now : ℕ) (txn_id : String) (c : Coordinator)
    → AllConsistent c
    → AllConsistent (recover_transaction now txn_id c).1
unfolding recover_transaction
recover_transaction-AllConsistent now txn_id c h = elim (Option-cases (get_transaction txn_id c)) [
  | inl e ↦ rw (e, recover_transaction) h
  | inr (txn, e) ↦ rw (e, recover_transaction) (recover-AllConsistent now txn_id txn.state c h)
]

pub step-AllConsistent :
    (uuid : ℕ → String) (c : Coordinator) (call : ℕ × Call)
    → AllConsistent c
    → AllConsistent (step uuid c call)
unfolding step
step-AllConsistent uuid c (now, begins shards) h = begin-AllConsistent uuid now shards c h
step-AllConsistent uuid c (now, prepares txn_id) h = prepare-AllConsistent now txn_id c h
step-AllConsistent uuid c (now, commits txn_id) h = commit-AllConsistent now txn_id c h
step-AllConsistent uuid c (now, aborts txn_id) h = abort-AllConsistent txn_id c h
step-AllConsistent uuid c (now, executes txn_id) h =
    execute-AllConsistent {Op = ℕ} now txn_id [] c h
step-AllConsistent uuid c (now, recovers txn_id) h =
    recover_transaction-AllConsistent now txn_id c h

pub run-AllConsistent :
    (uuid : ℕ → String) (c : Coordinator) (calls : List (ℕ × Call))
    → AllConsistent c
    → AllConsistent (run uuid c calls)
unfolding run
run-AllConsistent uuid c [] h = h
run-AllConsistent uuid c (call ∷ calls) h =
    run-AllConsistent uuid (step uuid c call) calls (step-AllConsistent uuid c call h)
