-- ===== src/TwoPhase/Coordinator/Threads.antt =====
-- The coordinator's methods as other threads see them: the lock is given up between the blocks of a
-- phase, and the blocks of several threads on one transaction may follow each other in any order.
use kos_db.Base.{ℕ, ◌≡◌, refl, false, List, [], ◌∷◌, arith, Result, ok, err, if◌then◌else◌}
use kos_db.Dict.Values.{All-map_values}
use kos_db.TwoPhase.{TransactionState, DistributedTransaction}
use kos_db.TwoPhase.Coordinator.{
  Error, prepare_txn, commit_txn, abort_txn, prepare_enter, prepare_vote, prepare_finish,
  commit_enter, commit_mark, commit_finish, abort_enter, abort_mark, abort_finish, is_ended,
}
use kos_db.TwoPhase.Coordinator.Atomicity.{IsCommitted}

pub data Block : Type 0 where
  enters_prepare votes finishes_prepare : Block
  enters_commit marks_commit finishes_commit : Block
  enters_abort marks_abort finishes_abort : Block

or_same : DistributedTransaction → Result Error DistributedTransaction → DistributedTransaction
or_same txn (ok txn') = txn'
or_same txn (err e) = txn

-- A block that raises changes nothing, and the abort of an ended transaction returns at once.
block : ℕ → Block → DistributedTransaction → DistributedTransaction
unfolding prepare_enter prepare_vote prepare_finish commit_enter commit_mark commit_finish
    abort_enter abort_mark abort_finish or_same
block now enters_prepare txn = or_same txn (prepare_enter txn)
block now votes txn = prepare_vote now txn
block now finishes_prepare txn = prepare_finish txn
block now enters_commit txn = or_same txn (commit_enter txn)
block now marks_commit txn = commit_mark now txn
block now finishes_commit txn = commit_finish now txn
block now enters_abort txn = if is_ended txn.state then txn else abort_enter txn
block now marks_abort txn = abort_mark txn
block now finishes_abort txn = abort_finish txn

pub blocks : ℕ → List Block → DistributedTransaction → DistributedTransaction
unfolding block
blocks now [] txn = txn
blocks now (b ∷ bs) txn = blocks now bs (block now b txn)

abbrev pub then_committed : List Block
then_committed = enters_commit ∷ marks_commit ∷ finishes_commit ∷ []

-- With no other thread in between, the blocks make the methods.
prepare_txn-blocks :
    (now : ℕ) (txn : DistributedTransaction)
    → txn.state ≡ TransactionState.active
    → (prepare_txn now txn).1 ≡ blocks now (enters_prepare ∷ votes ∷ finishes_prepare ∷ []) txn
unfolding blocks prepare_txn
prepare_txn-blocks now txn e = ground arith

commit_txn-blocks :
    (now : ℕ) (txn : DistributedTransaction)
    → txn.state ≡ TransactionState.prepared
    → (commit_txn now txn).1 ≡ blocks now then_committed txn
unfolding blocks commit_txn
commit_txn-blocks now txn e = ground arith

abort_txn-blocks :
    (now : ℕ) (txn : DistributedTransaction)
    → is_ended txn.state ≡ false
    → abort_txn txn ≡ blocks now (enters_abort ∷ marks_abort ∷ finishes_abort ∷ []) txn
unfolding blocks abort_txn
abort_txn-blocks now txn e = ground arith

-- One thread runs abort_transaction while another is in prepare_phase; commit_phase follows.
abbrev pub aborted_in_prepare : List Block
aborted_in_prepare =
    enters_prepare ∷ enters_abort ∷ marks_abort ∷ finishes_abort ∷ votes ∷ finishes_prepare ∷ []

-- The abort of an ACTIVE transaction is lost if it falls into prepare_phase of another thread: it
-- has run to its end, so abort_transaction has returned True, but the transaction is PREPARED
-- with the decision True, and commit_phase then commits it at every participant.
pub abort_lost_in_prepare :
    (now : ℕ) (txn : DistributedTransaction)
    → txn.state ≡ TransactionState.active
    → ((blocks now (enters_prepare ∷ enters_abort ∷ marks_abort ∷ finishes_abort ∷ []) txn).state
        ≡ TransactionState.aborted)
      × ((blocks now aborted_in_prepare txn).state ≡ TransactionState.prepared)
      × IsCommitted (blocks now then_committed (blocks now aborted_in_prepare txn))
unfolding blocks
abort_lost_in_prepare now txn e =
    (ground arith, refl, (refl, refl, All-map_values _ _ _ (λ p. refl)))
