-- ===== src/Wal/Journal.antt =====
-- write_ahead_log.py: what the calls of the transaction manager amount to, without files.
use kos_db.Base.{ℕ, suc, String, some, List, [], ◌∷◌, ◌++◌, nat_key, length}
use kos_db.Dict.{Dict, put, remove}
use kos_db.Dict.Values.{keys}
use kos_db.Wal.{LogRecord, RecordType, row, active_transactions, numbered, blank}
use kos_db.Wal.Manager.{
  ActiveTransaction, Call, begins, checkpoints, commits, aborts, inserts, updates, deletes,
}

pub record Journal (D : Type 0) : Type 0 where
  pub records : List (LogRecord D)
  pub last_txn : ℕ
  pub active : Dict ℕ ActiveTransaction

abbrev pub blank_journal : {D : Type 0} → Journal D
blank_journal = record { records = []; last_txn = 0; active = [] }

module _ {D : Type 0} (compute_checksum : LogRecord D → String) (byte_size : LogRecord D → ℕ) where
  -- The record of a call, not yet numbered.
  abbrev pub record_of : ℕ → Journal D → Call D → LogRecord D
  record_of now j begins = blank compute_checksum byte_size now (suc j.last_txn) RecordType.begin
  record_of now j checkpoints =
      record (blank compute_checksum byte_size now 0 RecordType.checkpoint) {
        new_data = some (active_transactions (keys j.active));
      }
  record_of now j (commits t) = blank compute_checksum byte_size now t RecordType.commit
  record_of now j (aborts t) = blank compute_checksum byte_size now t RecordType.abort
  record_of now j (inserts t table key new) =
      record (blank compute_checksum byte_size now t RecordType.insert) {
        table = some table;
        key = some key;
        new_data = some (row new);
      }
  record_of now j (updates t table key old new) =
      record (blank compute_checksum byte_size now t RecordType.update) {
        table = some table;
        key = some key;
        old_data = some (row old);
        new_data = some (row new);
      }
  record_of now j (deletes t table key old) =
      record (blank compute_checksum byte_size now t RecordType.delete) {
        table = some table;
        key = some key;
        old_data = some (row old);
      }

  -- What the call changes in the open transactions.
  abbrev pub settle : ℕ → Call D → Journal D → Journal D
  settle now begins j = record j {
    last_txn = suc j.last_txn;
    active = put (suc j.last_txn) (record { start_time = now; operations = [] }) j.active;
  }
  settle now (commits t) j = record j { active = remove t j.active }
  settle now (aborts t) j = record j { active = remove t j.active }
  settle now _ j = j

  unfoldable pub journal_step : Journal D → ℕ × Call D → Journal D
  journal_step j (now, call) = record (settle now call j) {
    records =
        j.records
        ++ numbered compute_checksum byte_size (suc (length j.records)) (record_of now j call) ∷ [];
  }

  unfoldable pub journal : Journal D → List (ℕ × Call D) → Journal D
  unfolding journal_step
  journal j [] = j
  journal j (call ∷ calls) = journal (journal_step j call) calls
