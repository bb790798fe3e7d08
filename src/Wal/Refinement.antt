-- ===== src/Wal/Refinement.antt =====
-- The log refines a journal: a plain sequence of records, numbered by their places, in which files,
-- names and sizes do not show.
use mathlib.Core.Path.{ap₂}
use native.Mathlib.Nat.{le_refl}
use kos_db.Base.{
  subst, ℕ, suc, String, ◌≤◌, ◌≡◌, refl, ap, ◌∙◌, some, List, [], ◌∷◌, ◌++◌, nat_key, length,
  length-append, arith,
}
use kos_db.Dict.{Dict, put, remove}
use kos_db.Dict.Values.{keys}
use kos_db.Wal.{
  LogRecord, RecordType, active_transactions, WriteAheadLog, numbered, blank, write_record,
  create_wal, begin_transaction, commit_transaction, abort_transaction, log_insert, log_update,
  log_delete, log_checkpoint, all_records, from_lsn, read_log,
}
use kos_db.Wal.Files.{
  write_record-Extends, write_record-lsn, write_record-txn_id, write_record-stamp,
  create_wal-IsOpen, create_wal-records,
}
use kos_db.Wal.Directories.{IsOpen, IsOpen-relabel}
use kos_db.Wal.Manager.{
  TransactionManager, Call, begins, checkpoints, commits, aborts, IsClock, new_manager, step, run,
}
use kos_db.Wal.Journal.{Journal, blank_journal, record_of, journal_step, journal}

module _ {D : Type 0} (compute_checksum : LogRecord D → String) (byte_size : LogRecord D → ℕ) where
  -- The manager `m` stands for the journal `j`.
  pub record Refines (m : TransactionManager D) (j : Journal D) : Type 0 where
    pub is_open : IsOpen m.wal
    pub same_records : all_records m.wal.directory ≡ j.records
    pub same_lsn : m.wal.current_lsn ≡ length j.records
    pub same_txn : m.wal.current_txn_id ≡ j.last_txn
    pub same_active : m.active ≡ j.active

  -- What is known of the log after a record is written to it.
  record Written (now : ℕ) (rs : List (LogRecord D)) (w : WriteAheadLog D) : Type 0 where
    is_open : IsOpen w
    same_records : all_records w.directory ≡ rs
    same_lsn : w.current_lsn ≡ length rs
    stamped : w.current_log_path.stamp ≤ now

  write_record-Written :
      (now : ℕ) (r : LogRecord D) (w : WriteAheadLog D) (rs : List (LogRecord D))
      → IsOpen w
      → w.current_log_path.stamp ≤ now
      → all_records w.directory ≡ rs
      → w.current_lsn ≡ length rs
      → Written now
          (rs ++ numbered compute_checksum byte_size (suc (length rs)) r ∷ [])
          (write_record compute_checksum byte_size now r w)
  write_record-Written now r w rs o le same lsn =
      let (is_open, more) = write_record-Extends compute_checksum byte_size now r w o le in
      record {
        is_open = is_open;
        same_records =
            more ∙ ap₂ (λ l n. l ++ numbered compute_checksum byte_size (suc n) r ∷ []) same lsn;
        same_lsn = omega (
          arith,
          write_record-lsn compute_checksum byte_size now r w,
          length-append rs (numbered compute_checksum byte_size (suc (length rs)) r ∷ []),
          lsn,
        );
        stamped = write_record-stamp compute_checksum byte_size now r w le;
      }

  Written-relabel :
      (now : ℕ) (rs : List (LogRecord D)) (w : WriteAheadLog D) (txn_id : ℕ) (starts : Dict ℕ ℕ)
      → Written now rs w
      → Written now rs (record w { current_txn_id = txn_id; txn_start_lsn = starts })
  Written-relabel now rs w txn_id starts v = record {
    is_open = IsOpen-relabel w txn_id starts v.is_open;
    same_records = v.same_records;
    same_lsn = v.same_lsn;
    stamped = v.stamped;
  }

  Written-Refines :
      (now : ℕ) (m : TransactionManager D) (j : Journal D)
      → Written now j.records m.wal
      → m.wal.current_txn_id ≡ j.last_txn
      → m.active ≡ j.active
      → Refines m j × (m.wal.current_log_path.stamp ≤ now)
  Written-Refines now m j v t a = (
    record {
      is_open = v.is_open;
      same_records = v.same_records;
      same_lsn = v.same_lsn;
      same_txn = t;
      same_active = a;
    },
    v.stamped,
  )

  step-Refines :
      (m : TransactionManager D) (j : Journal D) (now : ℕ) (call : Call D)
      → m.wal.current_log_path.stamp ≤ now
      → Refines m j
      → Refines
          (step compute_checksum byte_size m (now, call))
          (journal_step compute_checksum byte_size j (now, call))
        × ((step compute_checksum byte_size m (now, call)).wal.current_log_path.stamp ≤ now)
  unfolding step journal_step begin_transaction commit_transaction abort_transaction log_insert
      log_update log_delete log_checkpoint
  step-Refines m j now begins le h =
      Written-Refines now _ _
        (subst
          (λ t.
            Written now
              (j.records
                ++ numbered compute_checksum byte_size (suc (length j.records))
                    (blank compute_checksum byte_size now (suc t) RecordType.begin)
                  ∷ [])
              (begin_transaction compute_checksum byte_size now m.wal).1)
          h.same_txn
          (Written-relabel now _
            (write_record compute_checksum byte_size now
              (blank compute_checksum byte_size now (suc m.wal.current_txn_id) RecordType.begin)
              counted)
            _ _
            (write_record-Written now _ counted j.records
              (IsOpen-relabel m.wal (suc m.wal.current_txn_id) m.wal.txn_start_lsn h.is_open) le
              h.same_records h.same_lsn)))
        (write_record-txn_id compute_checksum byte_size now _ counted ∙ ap suc h.same_txn)
        (ap₂ (λ t a. put (suc t) (record { start_time = now; operations = [] }) a) h.same_txn
          h.same_active)
    where
      counted : WriteAheadLog D
      counted = record m.wal { current_txn_id = suc m.wal.current_txn_id }
  step-Refines m j now checkpoints le h =
      Written-Refines now _ _
        (subst
          (λ a.
            Written now
              (j.records
                ++ numbered compute_checksum byte_size (suc (length j.records))
                    (record (blank compute_checksum byte_size now 0 RecordType.checkpoint) {
                      new_data = some (active_transactions (keys a));
                    })
                  ∷ [])
              (log_checkpoint compute_checksum byte_size now (keys m.active) m.wal))
          h.same_active
          (write_record-Written now _ m.wal j.records h.is_open le h.same_records h.same_lsn))
        (write_record-txn_id compute_checksum byte_size now _ m.wal ∙ h.same_txn) h.same_active
  step-Refines m j now (commits t) le h =
      Written-Refines now _ _
        (Written-relabel now _
          (write_record compute_checksum byte_size now
            (record_of compute_checksum byte_size now j (commits t)) m.wal)
          _ _ (write_record-Written now _ m.wal j.records h.is_open le h.same_records h.same_lsn))
        (write_record-txn_id compute_checksum byte_size now _ m.wal ∙ h.same_txn)
        (ap (remove t) h.same_active)
  step-Refines m j now (aborts t) le h =
      Written-Refines now _ _
        (Written-relabel now _
          (write_record compute_checksum byte_size now
            (record_of compute_checksum byte_size now j (aborts t)) m.wal)
          _ _ (write_record-Written now _ m.wal j.records h.is_open le h.same_records h.same_lsn))
        (write_record-txn_id compute_checksum byte_size now _ m.wal ∙ h.same_txn)
        (ap (remove t) h.same_active)
  step-Refines m j now _ le h =
      Written-Refines now _ _
        (write_record-Written now _ m.wal j.records h.is_open le h.same_records h.same_lsn)
        (write_record-txn_id compute_checksum byte_size now _ m.wal ∙ h.same_txn) h.same_active

  run-Refines :
      (m : TransactionManager D) (j : Journal D) (now : ℕ) (calls : List (ℕ × Call D))
      → m.wal.current_log_path.stamp ≤ now
      → IsClock now calls
      → Refines m j
      → Refines
          (run compute_checksum byte_size m calls)
          (journal compute_checksum byte_size j calls)
  unfolding run journal
  run-Refines m j now [] le clock h = h
  run-Refines m j now ((at, call) ∷ calls) le clock h =
      let (refined, stamped) = step-Refines m j at call (omega arith) h in
      run-Refines (step compute_checksum byte_size m (at, call))
        (journal_step compute_checksum byte_size j (at, call)) at calls stamped clock.1 refined

pub from_lsn-zero : {D : Type 0} (rs : List (LogRecord D)) → from_lsn 0 rs ≡ rs
unfolding from_lsn
from_lsn-zero [] = refl
from_lsn-zero (r ∷ rs) = ground (arith, from_lsn-zero rs)

module _ {D : Type 0} (compute_checksum : LogRecord D → String) (byte_size : LogRecord D → ℕ) where
  new_manager-Refines :
      (now max_log_size : ℕ)
      → Refines compute_checksum byte_size
          (new_manager compute_checksum byte_size now max_log_size)
          blank_journal
  unfolding new_manager create_wal
  new_manager-Refines now max_log_size = record {
    is_open = create_wal-IsOpen compute_checksum byte_size now max_log_size;
    same_records = create_wal-records compute_checksum byte_size now max_log_size;
    same_lsn = refl;
    same_txn = refl;
    same_active = refl;
  }

  -- If the clock does not run backwards, then after any calls of the transaction manager over a
  -- new log, whatever the sizes of the records and of the files, read_log returns the journal: one
  -- record for each call, in the order of the calls and numbered 1, 2, 3 and so on; and the open
  -- transactions are those of the journal.
  pub read_log-journal :
      (start max_log_size : ℕ) (calls : List (ℕ × Call D))
      → IsClock start calls
      → let m =
          run compute_checksum byte_size
            (new_manager compute_checksum byte_size start max_log_size)
            calls in
        let j = journal compute_checksum byte_size blank_journal calls in
        (read_log 0 m.wal ≡ j.records) × (m.active ≡ j.active)
  unfolding read_log
  read_log-journal start max_log_size calls clock =
      let h =
        run-Refines compute_checksum byte_size
          (new_manager compute_checksum byte_size start max_log_size) blank_journal start calls
          (unfold new_manager create_wal in le_refl start) clock
          (new_manager-Refines start max_log_size) in
      (from_lsn-zero _ ∙ h.same_records, h.same_active)
