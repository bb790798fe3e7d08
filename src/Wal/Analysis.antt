-- ===== src/Wal/Analysis.antt =====
-- write_ahead_log.py, WALRecovery.analyze: which transactions a log leaves open, committed and
-- aborted. The sets of Python are lists here that hold each member once.
pub mod Open
use kos_db.Base.{
  ℕ, String, Bool, true, false, ◌||◌, ◌≡◌, refl, none, some, Option, List, [], ◌∷◌, ◌++◌, nat_eq,
  nat_key, if◌then◌else◌,
}
use kos_db.Dict.{Dict, has, put, remove}
use kos_db.Wal.{LogRecord, RecordType, type_value, Payload, row, active_transactions}

-- x in s, s.add(x)
abbrev pub member : ℕ → List ℕ → Bool
member x [] = false
member x (y ∷ s) = nat_eq y x || member x s

unfoldable pub add : ℕ → List ℕ → List ℕ
add x s = if member x s then s else x ∷ s

-- `dirty_pages` is cleared and never filled.
pub record Analysis : Type 0 where
  pub last_checkpoint_lsn : ℕ
  pub active : Dict ℕ ℕ
  pub committed : List ℕ
  pub aborted : List ℕ

abbrev pub blank_analysis : Analysis
blank_analysis = record { last_checkpoint_lsn = 0; active = []; committed = []; aborted = [] }

-- the loop over a checkpoint's transactions
unfoldable pub add_active : ℕ → List ℕ → Dict ℕ ℕ → Dict ℕ ℕ
add_active lsn [] d = d
add_active lsn (t ∷ ts) d = add_active lsn ts (if has t d then d else put t lsn d)

unfoldable pub checkpoint_active : {D : Type 0} → ℕ → Option (Payload D) → Dict ℕ ℕ → Dict ℕ ℕ
unfolding add_active
checkpoint_active lsn none d = d
checkpoint_active lsn (some (row r)) d = d
checkpoint_active lsn (some (active_transactions ts)) d = add_active lsn ts d

module _ {D : Type 0} where
  unfoldable pub analyze_type : RecordType → LogRecord D → Analysis → Analysis
  unfolding add checkpoint_active
  analyze_type RecordType.begin r a = record a { active = put r.txn_id r.lsn a.active }
  analyze_type RecordType.commit r a = record a {
    committed = add r.txn_id a.committed;
    active = remove r.txn_id a.active;
  }
  analyze_type RecordType.abort r a = record a {
    aborted = add r.txn_id a.aborted;
    active = remove r.txn_id a.active;
  }
  analyze_type RecordType.checkpoint r a = record a {
    last_checkpoint_lsn = r.lsn;
    active = checkpoint_active r.lsn r.new_data a.active;
  }
  analyze_type _ r a = a

  -- the loop of analyze
  unfoldable pub analyze_from : Analysis → List (LogRecord D) → Analysis
  unfolding analyze_type
  analyze_from a [] = a
  analyze_from a (r ∷ rs) = analyze_from (analyze_type r.record_type r a) rs

  -- `last_checkpoint_lsn` is not reset: it is still what an earlier analysis left.
  unfoldable pub analyze : ℕ → List (LogRecord D) → Analysis
  unfolding analyze_from
  analyze last_checkpoint_lsn log =
      analyze_from (record blank_analysis { last_checkpoint_lsn = last_checkpoint_lsn }) log
