-- ===== src/TwoPhase/Coordinator.antt =====
-- distributed_tx.py, the coordinator: its phases, each split into the blocks that run under the
-- lock and the loop between them. `uuid.uuid4()` draws from a stream `uuid`.
pub mod Calls
pub mod Invariant
pub mod Atomicity
pub mod Begin
pub mod Protocol
pub mod Recovery
pub mod Threads
pub mod Manager
pub mod Examples
use kos_db.Base.{
  ℕ, suc, ◌+◌, String, Bool, true, false, ◌||◌, Option, none, some, List, [], ◌∷◌, if◌then◌else◌,
  Result, ok, err, length, string_key,
}
use kos_db.Dict.{Dict, get, put}
use kos_db.Dict.Values.{values, map_values}
use kos_db.TwoPhase.{
  TransactionState, is_state, ParticipantState, Participant, touch, DistributedTransaction,
  add_participant, StateSummary, get_state_summary,
}

-- The two messages with which a phase raises `ValueError`.
pub data Error : Type 0 where
  unknown_transaction : Error
  invalid_state : TransactionState → Error

-- `drawn` counts the calls of `uuid.uuid4()` so far.
pub record Coordinator : Type 0 where
  pub coordinator_id : String
  pub timeout : ℕ
  pub transactions : Dict String DistributedTransaction
  pub drawn : ℕ

pub init : String → ℕ → Coordinator
init coordinator_id timeout = record {
  coordinator_id = coordinator_id;
  timeout = timeout;
  transactions = [];
  drawn = 0;
}

abbrev new_participant : String → String × ℕ → ℕ → Participant
new_participant participant_id (shard_id, connection) now = record {
  participant_id = participant_id;
  shard_id = shard_id;
  connection = connection;
  state = ParticipantState.active;
  vote = none;
  last_contact = now;
}

-- the loop of begin_transaction over the shards
add_participants :
    (ℕ → String) → ℕ → ℕ → List (String × ℕ) → DistributedTransaction → DistributedTransaction
unfolding add_participant
add_participants uuid drawn now [] txn = txn
add_participants uuid drawn now (shard ∷ shards) txn =
    add_participants uuid (suc drawn) now shards
      (add_participant (new_participant (uuid drawn) shard now) txn)

abbrev new_transaction : String → String → ℕ → DistributedTransaction
new_transaction txn_id coordinator_id now = record {
  txn_id = txn_id;
  coordinator_id = coordinator_id;
  state = TransactionState.active;
  participants = [];
  start_time = now;
  commit_time = none;
  abort_reason = none;
  decision = none;
}

pub begin_transaction : (ℕ → String) → ℕ → List (String × ℕ) → Coordinator → String × Coordinator
unfolding add_participants
begin_transaction uuid now participant_shards c =
    let txn_id = uuid c.drawn in
    (
      txn_id,
      record c {
        transactions =
            put txn_id
              (add_participants uuid (suc c.drawn) now participant_shards
                (new_transaction txn_id c.coordinator_id now))
              c.transactions;
        drawn = suc c.drawn + length participant_shards;
      },
    )

-- The blocks of prepare_phase: the first under the lock, the loop without it, the last under it.
prepare_enter : DistributedTransaction → Result Error DistributedTransaction
prepare_enter txn =
    if is_state txn.state TransactionState.active
    then ok (record txn { state = TransactionState.preparing })
    else err (invalid_state txn.state)

prepare_vote : ℕ → DistributedTransaction → DistributedTransaction
unfolding touch
prepare_vote now txn = record txn {
  participants =
      map_values (λ p. touch now (record p { vote = some true; state = ParticipantState.prepared }))
        txn.participants;
}

-- `all_prepared` is the constant True there, so the other branch is not reached.
prepare_finish : DistributedTransaction → DistributedTransaction
prepare_finish txn = record txn { state = TransactionState.prepared; decision = some true }

commit_enter : DistributedTransaction → Result Error DistributedTransaction
commit_enter txn =
    if is_state txn.state TransactionState.prepared
    then ok (record txn { state = TransactionState.committing })
    else err (invalid_state txn.state)

commit_mark : ℕ → DistributedTransaction → DistributedTransaction
unfolding touch
commit_mark now txn = record txn {
  participants =
      map_values (λ p. touch now (record p { state = ParticipantState.committed }))
        txn.participants;
}

commit_finish : ℕ → DistributedTransaction → DistributedTransaction
commit_finish now txn = record txn { state = TransactionState.committed; commit_time = some now }

abbrev is_ended : TransactionState → Bool
is_ended s = is_state s TransactionState.committed || is_state s TransactionState.aborted

abort_enter : DistributedTransaction → DistributedTransaction
abort_enter txn = record txn { state = TransactionState.aborting; decision = some false }

abort_mark : DistributedTransaction → DistributedTransaction
abort_mark txn = record txn {
  participants = map_values (λ p. record p { state = ParticipantState.aborted }) txn.participants;
}

abort_finish : DistributedTransaction → DistributedTransaction
abort_finish txn = record txn { state = TransactionState.aborted }

abbrev store : DistributedTransaction → String → Coordinator → Coordinator
store txn txn_id c = record c { transactions = put txn_id txn c.transactions }

-- A phase on the transaction object: what it returns or raises, and the object after it.
prepare_txn : ℕ → DistributedTransaction → Result Error Bool × DistributedTransaction
unfolding prepare_enter prepare_vote prepare_finish
prepare_txn now txn = elim (prepare_enter txn) [
  | err e ↦ (err e, txn)
  | ok entered ↦ (ok true, prepare_finish (prepare_vote now entered))
]

commit_txn : ℕ → DistributedTransaction → Result Error Bool × DistributedTransaction
unfolding commit_enter commit_mark commit_finish
commit_txn now txn = elim (commit_enter txn) [
  | err e ↦ (err e, txn)
  | ok entered ↦ (ok true, commit_finish now (commit_mark now entered))
]

abort_txn : DistributedTransaction → DistributedTransaction
unfolding abort_enter abort_mark abort_finish
abort_txn txn = if is_ended txn.state then txn else abort_finish (abort_mark (abort_enter txn))

pub prepare_phase : ℕ → String → Coordinator → Result Error Bool × Coordinator
unfolding prepare_txn
prepare_phase now txn_id c = elim (get txn_id c.transactions) [
  | none ↦ (err unknown_transaction, c)
  | some txn ↦ let (r, txn') = prepare_txn now txn in (r, store txn' txn_id c)
]

pub commit_phase : ℕ → String → Coordinator → Result Error Bool × Coordinator
unfolding commit_txn
commit_phase now txn_id c = elim (get txn_id c.transactions) [
  | none ↦ (err unknown_transaction, c)
  | some txn ↦ let (r, txn') = commit_txn now txn in (r, store txn' txn_id c)
]

pub abort_transaction : String → Coordinator → Bool × Coordinator
unfolding abort_txn
abort_transaction txn_id c = elim (get txn_id c.transactions) [
  | none ↦ (false, c)
  | some txn ↦ (true, store (abort_txn txn) txn_id c)
]

-- The operations are an argument that the body never reads.
pub execute_transaction :
    {Op : Type 0} → ℕ → String → List Op → Coordinator → Result Error Bool × Coordinator
execute_transaction now txn_id operations c =
    let (voted, c') = prepare_phase now txn_id c in
    elim voted [
      | err e ↦ (err e, c')
      | ok false ↦ (ok false, (abort_transaction txn_id c').1)
      | ok true ↦ commit_phase now txn_id c'
    ]

pub get_transaction : String → Coordinator → Option DistributedTransaction
get_transaction txn_id c = get txn_id c.transactions

summaries : List DistributedTransaction → List StateSummary
unfolding get_state_summary
summaries [] = []
summaries (txn ∷ txns) =
    let rest = summaries txns in if is_ended txn.state then rest else get_state_summary txn ∷ rest

pub get_active_transactions : Coordinator → List StateSummary
unfolding summaries
get_active_transactions c = summaries (values c.transactions)

recover_state : ℕ → String → TransactionState → Coordinator → Result Error Bool × Coordinator
recover_state now txn_id TransactionState.prepared c = commit_phase now txn_id c
recover_state now txn_id TransactionState.committing c = commit_phase now txn_id c
recover_state now txn_id TransactionState.aborting c =
    let (r, c') = abort_transaction txn_id c in (ok r, c')
recover_state now txn_id _ c = (ok true, c)

pub recover_transaction : ℕ → String → Coordinator → Result Error Bool × Coordinator
unfolding recover_state get_transaction
recover_transaction now txn_id c = elim (get_transaction txn_id c) [
  | none ↦ (ok false, c)
  | some txn ↦ recover_state now txn_id txn.state c
]
