-- ===== src/Wal/Examples.antt =====
-- Runs of the log, of its manager and of recovery at concrete inputs.
use mathlib.Core.List.{reverse}
use kos_db.Base.{ℕ, String, ◌≡◌, refl, true, false, some, none, List, [], ◌∷◌, arith, All, nat_key}
use kos_db.Dict.{has, put, remove}
use kos_db.Wal.{
  LogRecord, RecordType, Directory, before, read_log, open_wal, begin_transaction, all_records,
}
use kos_db.Wal.Manager.{Call, begins, commits, inserts, deletes, IsClock, new_manager, run}
use kos_db.Wal.Refinement.{read_log-journal}
use kos_db.Wal.Journal.{blank_journal, journal, journal_step}
use kos_db.Wal.Analysis.{analyze, member}
use kos_db.Wal.Analysis.Open.{analyze-open}
use kos_db.Wal.Recovery.{redo, undo}
use kos_db.Wal.Recovery.Undo.{of_txn-undo}
use kos_db.Wal.Recovery.Visits.{note, data_of, of_txn}
use kos_db.Wal.Recovery.Redo.{redo-committed}
use kos_db.Wal.Recovery.Restart.{reopened-committed}

abbrev no_sum : LogRecord ℕ → String
no_sum r = "0"

abbrev forty : LogRecord ℕ → ℕ
forty r = 40

-- Transaction 1 commits, transaction 2 is open at the end.
abbrev history : List (ℕ × Call ℕ)
history =
    (5, begins)
    ∷ (5, inserts 1 "t" "a" 7)
    ∷ (6, begins)
    ∷ (6, commits 1)
    ∷ (8, inserts 2 "t" "b" 8)
    ∷ (9, deletes 2 "t" "a" 7)
    ∷ []

history-IsClock : IsClock 4 history
history-IsClock = omega arith

read_log-journal_example :
    read_log 0 (run no_sum forty (new_manager no_sum forty 4 100) history).wal
    ≡ (journal no_sum forty blank_journal history).records
read_log-journal_example = (read_log-journal no_sum forty 4 100 history history-IsClock).0

analyze-open_example :
    has 2
      (analyze 0
        (read_log 0 (run no_sum forty (new_manager no_sum forty 4 100) history).wal)).active
    ≡ has 2 (run no_sum forty (new_manager no_sum forty 4 100) history).active
analyze-open_example = analyze-open no_sum forty 4 100 history history-IsClock 2

redo-committed_example :
    All
      (λ r.
        (member r.txn_id
            (analyze 0 (
              read_log 0 (run no_sum forty (new_manager no_sum forty 4 100) history).wal)).committed
          ≡ true)
        × (has r.txn_id (run no_sum forty (new_manager no_sum forty 4 100) history).active ≡ false)
        × (member r.txn_id
              (analyze 0 (
                read_log 0 (run no_sum forty (new_manager no_sum forty 4 100) history).wal)).aborted
            ≡ false))
      (redo note
        (analyze 0 (read_log 0 (run no_sum forty (new_manager no_sum forty 4 100) history).wal))
        (read_log 0 (run no_sum forty (new_manager no_sum forty 4 100) history).wal)
        [])
unfolding has put remove journal_step
redo-committed_example =
    redo-committed no_sum forty 4 100 history history-IsClock
      (tt, (tt, (tt, (refl, (tt, (tt, tt))))))

of_txn-undo_example :
    of_txn 2 (
      undo note
        (record { last_checkpoint_lsn = 0; active = (2, 3) ∷ []; committed = []; aborted = [] })
        (journal no_sum forty blank_journal history).records
        [])
    ≡ reverse (data_of (of_txn 2 (journal no_sum forty blank_journal history).records))
unfolding has
of_txn-undo_example =
    of_txn-undo
      (record { last_checkpoint_lsn = 0; active = (2, 3) ∷ []; committed = []; aborted = [] })
      (journal no_sum forty blank_journal history).records 2

abbrev old_log : Directory ℕ
old_log =
    (
      record { stamp = 4; first = 0 },
      record {
        lsn = 1;
        txn_id = 1;
        record_type = RecordType.commit;
        table = none;
        key = none;
        old_data = none;
        new_data = none;
        timestamp = 4;
        checksum = some "0";
      }
          ∷ [],
    )
    ∷ []

reopened-committed_example :
    (begin_transaction no_sum forty 20 (open_wal no_sum forty 20 100 1 old_log)).0 ≡ 1
unfolding before all_records analyze
reopened-committed_example =
    (reopened-committed no_sum forty 20 100 1 old_log "t" "a" 9 (refl, tt) refl).0
