-- ===== src/Wal/Recovery/Restart.antt =====
-- A log that is opened again counts its transactions from 1 once more.
use native.Mathlib.Nat.{le_refl}
use kos_db.Base.{
  String, ℕ, suc, ◌≡◌, refl, ap, ◌∙◌, true, some, List, [], ◌∷◌, ◌++◌, append_assoc, nat_key,
  ==-refl,
}
use kos_db.Dict.{has, has-put}
use kos_db.Wal.{
  LogRecord, RecordType, row, Directory, WriteAheadLog, numbered, blank, open_wal,
  begin_transaction, log_insert, write_record, all_records, read_log,
}
use kos_db.Wal.Files.{open_wal-Extends, write_record-Extends, write_record-stamp}
use kos_db.Wal.Directories.{IsOpen-relabel, AllBefore}
use kos_db.Wal.Refinement.{from_lsn-zero}
use kos_db.Wal.Analysis.{blank_analysis, analyze_type, analyze_from, analyze, member}
use kos_db.Wal.Analysis.Open.{analyze_from-append}

module _ {D : Type 0} (compute_checksum : LogRecord D → String) (byte_size : LogRecord D → ℕ) where
  -- Two more records, a begin and an insert, after a log in which the transaction was committed.
  analyze-begin-insert :
      (log : List (LogRecord D)) (r q : LogRecord D)
      → r.record_type ≡ RecordType.begin
      → q.record_type ≡ RecordType.insert
      → member r.txn_id (analyze 0 log).committed ≡ true
      → (member r.txn_id (analyze 0 (log ++ r ∷ q ∷ [])).committed ≡ true)
        × (has r.txn_id (analyze 0 (log ++ r ∷ q ∷ [])).active ≡ true)
  unfolding analyze analyze_from analyze_type
  analyze-begin-insert log r q b i h =
      rw (analyze_from-append blank_analysis log (r ∷ q ∷ []))
        (rw (b, i) (h, simp (has-put, ==-refl)))

  -- Over a directory in which transaction 1 of an earlier run was committed and whose file names
  -- all come before the name of the next run's first file, the first transaction of the next run
  -- is 1 again: after its begin and an insert, with no commit, the analysis of the log finds it
  -- open and committed at once.
  pub reopened-committed :
      (now max_log_size recovered : ℕ) (d : Directory D) (table key : String) (new : D)
      → AllBefore (record { stamp = now; first = recovered }) d
      → member 1 (analyze 0 (all_records d)).committed ≡ true
      → let (t, w) =
          begin_transaction compute_checksum byte_size now
            (open_wal compute_checksum byte_size now max_log_size recovered d) in
        let a =
          analyze 0 (read_log 0 (log_insert compute_checksum byte_size now t table key new w)) in
        (t ≡ 1) × (member t a.committed ≡ true) × (has t a.active ≡ true)
  unfolding begin_transaction log_insert read_log open_wal
  reopened-committed now max_log_size recovered d table key new older earlier =
      let w0 = open_wal compute_checksum byte_size now max_log_size recovered d in
      let (open0, log0) =
        open_wal-Extends compute_checksum byte_size now max_log_size recovered d older in
      let w1 : WriteAheadLog D = record w0 { current_txn_id = 1 } in
      let r = blank compute_checksum byte_size now 1 RecordType.begin in
      let (open1, log1) =
        write_record-Extends compute_checksum byte_size now r w1 (IsOpen-relabel w0 1 [] open0)
          (le_refl now) in
      let w2 = write_record compute_checksum byte_size now r w1 in
      let w3 : WriteAheadLog D = (begin_transaction compute_checksum byte_size now w0).1 in
      let q = record (blank compute_checksum byte_size now 1 RecordType.insert) {
        table = some table;
        key = some key;
        new_data = some (row new);
      } in
      let (open3, log3) =
        write_record-Extends compute_checksum byte_size now q w3
          (IsOpen-relabel w2 w2.current_txn_id w3.txn_start_lsn open1)
          (write_record-stamp compute_checksum byte_size now r w1 (le_refl now)) in
      let whole =
        from_lsn-zero _
        ∙ log3
        ∙ ap (λ l. l ++ numbered compute_checksum byte_size (suc w3.current_lsn) q ∷ [])
            (log1
              ∙ ap (λ l. l ++ numbered compute_checksum byte_size (suc w1.current_lsn) r ∷ []) log0)
        ∙ append_assoc (all_records d) _ _ in
      let both =
        analyze-begin-insert (all_records d)
          (numbered compute_checksum byte_size (suc w1.current_lsn) r)
          (numbered compute_checksum byte_size (suc w3.current_lsn) q) refl refl earlier in
      (refl, rw whole (both.0), rw whole (both.1))
