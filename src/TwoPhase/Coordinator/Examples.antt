-- ===== src/TwoPhase/Coordinator/Examples.antt =====
-- Runs of the coordinator and of the manager at concrete inputs.
use kos_db.Base.{
  ℕ, zero, suc, String, ◌≡◌, refl, true, none, some, List, [], ◌∷◌, ok, ◌⊎◌, ap, string_key,
}
use kos_db.Dict.{Dict, get, put}
use kos_db.Dict.Values.{map_values}
use kos_db.TwoPhase.{TransactionState, ParticipantState, DistributedTransaction, Participant}
use kos_db.TwoPhase.Participants.{
  ShardParticipant, Operation, prepare, commit, last_value, or_before, commit_once,
}
use kos_db.TwoPhase.Coordinator.{
  Coordinator, init, new_transaction, begin_transaction, prepare_phase, commit_phase,
  abort_transaction, execute_transaction, get_transaction, recover_transaction,
}
use kos_db.TwoPhase.Coordinator.Calls.{Call, begins, aborts, executes, recovers, step, run}
use kos_db.TwoPhase.Coordinator.Atomicity.{IsCommitted, HasNoCommit, run-atomic}
use kos_db.TwoPhase.Coordinator.Protocol.{execute-commits, step-ended}
use kos_db.TwoPhase.Coordinator.Threads.{blocks, aborted_in_prepare, abort_lost_in_prepare}
use kos_db.TwoPhase.Coordinator.Manager.{Manager}

-- Identifiers that never repeat: a text of n letters.
abbrev letters : ℕ → String
letters zero = ""
letters (suc n) = String.◌∷◌ "u" (letters n)

letters-distinct : (m n : ℕ) → letters m ≡ letters n → m ≡ n
letters-distinct zero zero e = refl
letters-distinct zero (suc n) e = cc
letters-distinct (suc m) zero e = cc
letters-distinct (suc m) (suc n) e = ap suc (letters-distinct m n (cc))

abbrev member : String → String → ParticipantState → Participant
member participant_id shard_id state = record {
  participant_id = participant_id;
  shard_id = shard_id;
  connection = 7;
  state = state;
  vote = none;
  last_contact = 0;
}

abbrev txn_in : TransactionState → ParticipantState → DistributedTransaction
txn_in s p = record (new_transaction "t" "node" 0) {
  state = s;
  participants = ("p", member "p" "a" p) ∷ ("q", member "q" "b" p) ∷ [];
}

abbrev holding : DistributedTransaction → Coordinator
holding txn = record {
  coordinator_id = "node";
  timeout = 30;
  transactions = ("t", txn) ∷ [];
  drawn = 3;
}

abbrev active_txn : DistributedTransaction
active_txn = txn_in TransactionState.active ParticipantState.active

abbrev committing_txn : DistributedTransaction
committing_txn = txn_in TransactionState.committing ParticipantState.prepared

abbrev committed_txn : DistributedTransaction
committed_txn = txn_in TransactionState.committed ParticipantState.committed

held : (txn : DistributedTransaction) → get_transaction "t" (holding txn) ≡ some txn
unfolding get_transaction get
held txn = refl

abbrev history : List (ℕ × Call)
history =
    (1, begins (("a", 1) ∷ ("b", 2) ∷ []))
    ∷ (2, executes "")
    ∷ (3, aborts "")
    ∷ (4, recovers "")
    ∷ []

abbrev history_txn : DistributedTransaction
history_txn = record (new_transaction "" "node" 1) {
  state = TransactionState.committed;
  commit_time = some 2;
  decision = some true;
  participants =
      (
        "u",
        record (member "u" "a" ParticipantState.committed) {
          connection = 1;
          vote = some true;
          last_contact = 2;
        },
      )
      ∷ (
        "uu",
        record (member "uu" "b" ParticipantState.committed) {
          connection = 2;
          vote = some true;
          last_contact = 2;
        },
      )
      ∷ [];
}

history_commits : get_transaction "" (run letters (init "node" 30) history) ≡ some history_txn
unfolding run step begin_transaction execute_transaction abort_transaction recover_transaction
    prepare_phase commit_phase get put map_values get_transaction init
history_commits = refl

run-atomic_example : IsCommitted history_txn ⊎ HasNoCommit history_txn
run-atomic_example = run-atomic letters "node" 30 history "" history_txn history_commits

execute-commits_example : (execute_transaction {Op = ℕ} 9 "t" [] (holding active_txn)).0 ≡ ok true
execute-commits_example =
    (execute-commits {Op = ℕ} 9 "t" [] active_txn (holding active_txn) (held active_txn) refl).0

step-ended_example :
    get_transaction "t" (step letters (holding committed_txn) (9, aborts "t")) ≡ some committed_txn
step-ended_example =
    step-ended letters (holding committed_txn) (9, aborts "t") "t" committed_txn
      (held committed_txn) refl (λ e. cc)

abort_lost_in_prepare_example :
    (blocks 9 aborted_in_prepare active_txn).state ≡ TransactionState.prepared
abort_lost_in_prepare_example = (abort_lost_in_prepare 9 active_txn refl).1

abbrev shard : ShardParticipant ℕ
shard = record { shard_id = "a"; store = ("k", 1) ∷ []; prepared_txns = [] }

abbrev writes : List (Operation ℕ)
writes = record { key = some "k"; value = 2 } ∷ record { key = none; value = 3 } ∷ []

abbrev manager : Manager
manager = record {
  node_id = "node";
  is_coordinator = true;
  coordinator = some (holding active_txn);
  shards = ("a", 1) ∷ ("b", 2) ∷ [];
}

abbrev cross_shard : Dict String (List ℕ)
cross_shard = ("b", 5 ∷ []) ∷ ("a", []) ∷ []

commit_once_example : get "k" (commit "t" (prepare 5 "t" writes shard).1).1.store ≡ some 2
unfolding last_value or_before
commit_once_example = (commit_once 5 "t" writes shard).1 "k"
