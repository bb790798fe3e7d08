-- ===== src/Wal/Manager.antt =====
-- write_ahead_log.py, TransactionManager: transactions that are logged.
use kos_db.Base.{ℕ, String, ◌≤◌, List, [], ◌∷◌, nat_key}
use kos_db.Dict.{Dict, put, remove}
use kos_db.Dict.Values.{keys}
use kos_db.Wal.{
  LogRecord, WriteAheadLog, create_wal, begin_transaction, commit_transaction, abort_transaction,
  log_insert, log_update, log_delete, log_checkpoint,
}

-- The entry {'start_time': …, 'operations': []}; nothing is ever added to the operations.
pub record ActiveTransaction : Type 0 where
  pub start_time : ℕ
  pub operations : List String

pub record TransactionManager (D : Type 0) : Type 0 where
  pub wal : WriteAheadLog D
  pub active : Dict ℕ ActiveTransaction

pub data Call (D : Type 0) : Type 0 where
  begins checkpoints : Call D
  commits aborts : ℕ → Call D
  inserts : ℕ → String → String → D → Call D
  updates : ℕ → String → String → D → D → Call D
  deletes : ℕ → String → String → D → Call D

module _ {D : Type 0} (compute_checksum : LogRecord D → String) (byte_size : LogRecord D → ℕ) where
  unfoldable pub new_manager : ℕ → ℕ → TransactionManager D
  new_manager now max_log_size = record {
    wal = create_wal compute_checksum byte_size now max_log_size;
    active = [];
  }

  pub begin : ℕ → TransactionManager D → ℕ × TransactionManager D
  begin now m =
      let (txn_id, wal) = begin_transaction compute_checksum byte_size now m.wal in
      (
        txn_id,
        record {
          wal = wal;
          active = put txn_id (record { start_time = now; operations = [] }) m.active;
        },
      )

  pub commit : ℕ → ℕ → TransactionManager D → TransactionManager D
  commit now txn_id m = record {
    wal = commit_transaction compute_checksum byte_size now txn_id m.wal;
    active = remove txn_id m.active;
  }

  pub abort : ℕ → ℕ → TransactionManager D → TransactionManager D
  abort now txn_id m = record {
    wal = abort_transaction compute_checksum byte_size now txn_id m.wal;
    active = remove txn_id m.active;
  }

  pub insert : ℕ → ℕ → String → String → D → TransactionManager D → TransactionManager D
  insert now txn_id table key new m = record m {
    wal = log_insert compute_checksum byte_size now txn_id table key new m.wal;
  }

  pub update : ℕ → ℕ → String → String → D → D → TransactionManager D → TransactionManager D
  update now txn_id table key old new m = record m {
    wal = log_update compute_checksum byte_size now txn_id table key old new m.wal;
  }

  pub delete : ℕ → ℕ → String → String → D → TransactionManager D → TransactionManager D
  delete now txn_id table key old m = record m {
    wal = log_delete compute_checksum byte_size now txn_id table key old m.wal;
  }

  pub checkpoint : ℕ → TransactionManager D → TransactionManager D
  checkpoint now m = record m {
    wal = log_checkpoint compute_checksum byte_size now (keys m.active) m.wal;
  }

  unfoldable pub step : TransactionManager D → ℕ × Call D → TransactionManager D
  unfolding begin commit abort insert update delete checkpoint
  step m (now, begins) = (begin now m).1
  step m (now, checkpoints) = checkpoint now m
  step m (now, commits txn_id) = commit now txn_id m
  step m (now, aborts txn_id) = abort now txn_id m
  step m (now, inserts txn_id table key new) = insert now txn_id table key new m
  step m (now, updates txn_id table key old new) = update now txn_id table key old new m
  step m (now, deletes txn_id table key old) = delete now txn_id table key old m

  unfoldable pub run : TransactionManager D → List (ℕ × Call D) → TransactionManager D
  unfolding step
  run m [] = m
  run m (call ∷ calls) = run (step m call) calls

-- The times of the calls do not fall, and none is before `now`.
abbrev pub IsClock : {D : Type 0} → ℕ → List (ℕ × Call D) → Type 0
IsClock now [] = Unit
IsClock now ((at, call) ∷ calls) = (now ≤ at) × IsClock at calls
