-- ===== src/Wal/Recovery.antt =====
-- write_ahead_log.py, WALRecovery: redo and undo with the callbacks of the caller, which turn a
-- record and a database into a database.
pub mod Visits
pub mod Undo
pub mod Settled
pub mod Redo
pub mod Restart
use kos_db.Base.{
  ℕ, Bool, true, false, ◌&&◌, Option, none, some, List, [], ◌∷◌, ◌++◌, nat_key, if◌then◌else◌, ltb,
  length,
}
use mathlib.Core.List.{reverse}
use kos_db.Dict.{Dict, has, get, put}
use kos_db.Dict.Values.{values}
use kos_db.Wal.{LogRecord, RecordType, from_lsn, WriteAheadLog, read_log}
use kos_db.Wal.Analysis.{Analysis, member, analyze}

-- record.record_type in (INSERT, UPDATE, DELETE)
abbrev pub is_data : RecordType → Bool
is_data RecordType.insert = true
is_data RecordType.update = true
is_data RecordType.delete = true
is_data _ = false

abbrev pub or_empty : {A : Type 0} → Option (List A) → List A
or_empty none = []
or_empty (some l) = l

module _ {D S : Type 0} (callback : LogRecord D → S → S) where
  redo_loop : List ℕ → List (LogRecord D) → S → S
  redo_loop committed [] s = s
  redo_loop committed (r ∷ rs) s =
      redo_loop committed rs
        (if is_data r.record_type && member r.txn_id committed then callback r s else s)

  pub redo : Analysis → List (LogRecord D) → S → S
  unfolding redo_loop
  redo a log s = redo_loop a.committed (from_lsn a.last_checkpoint_lsn log) s

  -- for record in reversed(records), over the reversed list
  pub undo_records : List (LogRecord D) → S → S
  undo_records [] s = s
  undo_records (r ∷ rs) s = undo_records rs (if is_data r.record_type then callback r s else s)

  pub undo_groups : List (List (LogRecord D)) → S → S
  unfolding undo_records
  undo_groups [] s = s
  undo_groups (g ∷ gs) s = undo_groups gs (undo_records (reverse g) s)

module _ {D : Type 0} where
  -- txn_records[record.txn_id].append(record), for the records of open transactions
  group_records :
      Dict ℕ ℕ → List (LogRecord D) → Dict ℕ (List (LogRecord D)) → Dict ℕ (List (LogRecord D))
  group_records active [] d = d
  group_records active (r ∷ rs) d =
      group_records active rs
        (if has r.txn_id active then put r.txn_id (or_empty (get r.txn_id d) ++ r ∷ []) d else d)

module _ {D S : Type 0} where
  pub undo : (LogRecord D → S → S) → Analysis → List (LogRecord D) → S → S
  unfolding group_records undo_groups
  undo callback a log s = undo_groups callback (values (group_records a.active log [])) s

  pub recover :
      (LogRecord D → S → S) → (LogRecord D → S → S) → ℕ → List (LogRecord D) → S → Bool × S
  unfolding redo undo analyze
  recover redo_callback undo_callback last_checkpoint_lsn log s =
      let a = analyze last_checkpoint_lsn log in
      let s' = redo redo_callback a log s in
      (true, if ltb 0 (length a.active) then undo undo_callback a log s' else s')
