-- ===== src/Wal.antt =====
-- write_ahead_log.py, WriteAheadLog: log records, their numbers, and the rotation of log files.
-- `time.time()` is an argument `now` in whole seconds. The checksum and the length of a record's
-- bytes are parameters.
pub mod Directories
pub mod Files
pub mod Journal
pub mod Refinement
pub mod Manager
pub mod Analysis
pub mod Recovery
pub mod Examples
use kos_db.Base.{
  ℕ, suc, ◌+◌, String, Bool, true, false, ◌||◌, ◌&&◌, Option, none, some, List, [], ◌∷◌, ◌++◌, ltb,
  leb, nat_eq, nat_key, if◌then◌else◌,
}
use kos_db.Dict.{Dict, put, remove}

pub data RecordType : Type 0 where
  begin insert update delete create_table drop_table create_index drop_index : RecordType
  commit abort checkpoint : RecordType

-- The numbers that `auto()` gives.
abbrev pub type_value : RecordType → ℕ
type_value begin = 1
type_value insert = 2
type_value update = 3
type_value delete = 4
type_value create_table = 5
type_value drop_table = 6
type_value create_index = 7
type_value drop_index = 8
type_value commit = 9
type_value abort = 10
type_value checkpoint = 11

-- The dict of a record: a row, or the list of a checkpoint under the key 'active_transactions'.
pub data Payload (D : Type 0) : Type 0 where
  row : D → Payload D
  active_transactions : List ℕ → Payload D

pub record LogRecord (D : Type 0) : Type 0 where
  pub lsn : ℕ
  pub txn_id : ℕ
  pub record_type : RecordType
  pub table : Option String
  pub key : Option String
  pub old_data : Option (Payload D)
  pub new_data : Option (Payload D)
  pub timestamp : ℕ
  pub checksum : Option String

-- The name `wal-{timestamp:010d}-{lsn:016d}.log`; names sort as the pairs of numbers do while these
-- have no more than 10 and 16 digits.
pub record FileName : Type 0 where
  pub stamp : ℕ
  pub first : ℕ

unfoldable pub before : FileName → FileName → Bool
before a b = ltb a.stamp b.stamp || (nat_eq a.stamp b.stamp && ltb a.first b.first)

unfoldable pub same_name : FileName → FileName → Bool
same_name a b = nat_eq a.stamp b.stamp && nat_eq a.first b.first

-- The log directory, sorted by name: sorted(self.log_dir.glob('wal-*.log')).
abbrev pub Directory : Type 0 → Type 0
Directory D = List (FileName × List (LogRecord D))

module _ {D : Type 0} where
  -- open(path, 'ab') makes the file if it is not there
  pub touch_file : FileName → Directory D → Directory D
  touch_file name [] = (name, []) ∷ []
  touch_file name ((n, rs) ∷ d) =
      if before name n
      then (name, []) ∷ (n, rs) ∷ d
      else if same_name n name
      then (n, rs) ∷ d
      else (n, rs) ∷ touch_file name d

  pub append_record : FileName → LogRecord D → Directory D → Directory D
  append_record name r [] = []
  append_record name r ((n, rs) ∷ d) =
      if same_name n name then (n, rs ++ r ∷ []) ∷ d else (n, rs) ∷ append_record name r d

  pub file_records : FileName → Directory D → List (LogRecord D)
  file_records name [] = []
  file_records name ((n, rs) ∷ d) = if same_name n name then rs else file_records name d

  pub all_records : Directory D → List (LogRecord D)
  all_records [] = []
  all_records ((n, rs) ∷ d) = rs ++ all_records d

  pub from_lsn : ℕ → List (LogRecord D) → List (LogRecord D)
  from_lsn start [] = []
  from_lsn start (r ∷ rs) =
      let rest = from_lsn start rs in if leb start r.lsn then r ∷ rest else rest

pub record WriteAheadLog (D : Type 0) : Type 0 where
  pub max_log_size : ℕ
  pub current_lsn : ℕ
  pub current_txn_id : ℕ
  pub directory : Directory D
  pub current_log_path : FileName
  pub current_log_size : ℕ
  pub txn_start_lsn : Dict ℕ ℕ

-- compute_checksum and len(record.to_bytes())
module _ {D : Type 0} (compute_checksum : LogRecord D → String) (byte_size : LogRecord D → ℕ) where
  total_size : List (LogRecord D) → ℕ
  total_size [] = 0
  total_size (r ∷ rs) = byte_size r + total_size rs

  open_new_log : ℕ → WriteAheadLog D → WriteAheadLog D
  unfolding total_size file_records touch_file
  open_new_log now w =
      let path : FileName = record { stamp = now; first = w.current_lsn } in
      record w {
        directory = touch_file path w.directory;
        current_log_path = path;
        current_log_size = total_size (file_records path w.directory);
      }

  rotate_if_needed : ℕ → ℕ → WriteAheadLog D → WriteAheadLog D
  unfolding open_new_log
  rotate_if_needed now record_size w =
      if ltb w.max_log_size (w.current_log_size + record_size + 4) then open_new_log now w else w

  -- the record as it is written: with its number and its checksum
  abbrev pub numbered : ℕ → LogRecord D → LogRecord D
  numbered lsn r =
      let r' = record r { lsn = lsn } in
      record r' {
        checksum = elim r.checksum [ none ↦ some (compute_checksum r') | some c ↦ some c ];
      }

  write_bytes : LogRecord D → WriteAheadLog D → WriteAheadLog D
  unfolding append_record
  write_bytes r w = record w {
    directory = append_record w.current_log_path r w.directory;
    current_log_size = w.current_log_size + byte_size r;
  }

  pub write_record : ℕ → LogRecord D → WriteAheadLog D → WriteAheadLog D
  unfolding rotate_if_needed write_bytes
  write_record now r w =
      let r' = numbered (suc w.current_lsn) r in
      write_bytes r'
        (rotate_if_needed now (byte_size r') (record w { current_lsn = suc w.current_lsn }))

  abbrev blank : ℕ → ℕ → RecordType → LogRecord D
  blank now txn_id t = record {
    lsn = 0;
    txn_id = txn_id;
    record_type = t;
    table = none;
    key = none;
    old_data = none;
    new_data = none;
    timestamp = now;
    checksum = none;
  }

  pub begin_transaction : ℕ → WriteAheadLog D → ℕ × WriteAheadLog D
  begin_transaction now w =
      let txn_id = suc w.current_txn_id in
      let w' = write_record now (blank now txn_id begin) (record w { current_txn_id = txn_id }) in
      (txn_id, record w' { txn_start_lsn = put txn_id w'.current_lsn w'.txn_start_lsn })

  pub log_insert : ℕ → ℕ → String → String → D → WriteAheadLog D → WriteAheadLog D
  log_insert now txn_id table key new w =
      write_record now
        (record (blank now txn_id insert) {
          table = some table;
          key = some key;
          new_data = some (row new);
        })
        w

  pub log_update : ℕ → ℕ → String → String → D → D → WriteAheadLog D → WriteAheadLog D
  log_update now txn_id table key old new w =
      write_record now
        (record (blank now txn_id update) {
          table = some table;
          key = some key;
          old_data = some (row old);
          new_data = some (row new);
        })
        w

  pub log_delete : ℕ → ℕ → String → String → D → WriteAheadLog D → WriteAheadLog D
  log_delete now txn_id table key old w =
      write_record now
        (record (blank now txn_id delete) {
          table = some table;
          key = some key;
          old_data = some (row old);
        })
        w

  abbrev forget_start : ℕ → WriteAheadLog D → WriteAheadLog D
  forget_start txn_id w = record w { txn_start_lsn = remove txn_id w.txn_start_lsn }

  pub commit_transaction : ℕ → ℕ → WriteAheadLog D → WriteAheadLog D
  commit_transaction now txn_id w =
      forget_start txn_id (write_record now (blank now txn_id commit) w)

  pub abort_transaction : ℕ → ℕ → WriteAheadLog D → WriteAheadLog D
  abort_transaction now txn_id w = forget_start txn_id (write_record now (blank now txn_id abort) w)

  pub log_checkpoint : ℕ → List ℕ → WriteAheadLog D → WriteAheadLog D
  log_checkpoint now active_txns w =
      write_record now
        (record (blank now 0 checkpoint) { new_data = some (active_transactions active_txns) }) w

  -- __init__, where `recovered` is what `_recover_lsn` makes of the directory: the numbers of records
  -- go on from there, those of transactions begin again.
  pub open_wal : ℕ → ℕ → ℕ → Directory D → WriteAheadLog D
  unfolding open_new_log
  open_wal now max_log_size recovered directory = open_new_log now (record {
    max_log_size = max_log_size;
    current_lsn = recovered;
    current_txn_id = 0;
    directory = directory;
    current_log_path = record { stamp = 0; first = 0 };
    current_log_size = 0;
    txn_start_lsn = [];
  })

  -- A log in an empty directory.
  pub create_wal : ℕ → ℕ → WriteAheadLog D
  unfolding open_wal
  create_wal now max_log_size = open_wal now max_log_size 0 []

module _ {D : Type 0} where
  -- The records of the files in the order of their names; no record is torn or corrupt here.
  pub read_log : ℕ → WriteAheadLog D → List (LogRecord D)
  unfolding all_records from_lsn
  read_log start w = from_lsn start (all_records w.directory)
