-- ===== src/Database.antt =====
-- database.py, Database: the state of a session on the store, and its transactions. The cells of
-- rows are texts: the program compares them by `str`. The store is the interface of Level. A binary
-- log is configured.
pub mod Changes
pub mod Transactions
pub mod Directories
pub mod Rows
pub mod Tables
pub mod Queries
pub mod Updates
pub mod Select
pub mod Users
mod Examples
use kos_db.Base.{
  ℕ, Bool, true, false, ◌&&◌, Option, none, some, List, [], ◌∷◌, ◌++◌, if◌then◌else◌, length,
}
use kos_db.Dict.{Dict, get, has, put, remove}
use kos_db.Text.{Text, text_key, text_same, codes}
use kos_db.Level.{Level}

pub record Schema : Type 0 where
  pub columns : List Text
  pub column_types : Dict Text Text
  pub next_id : ℕ
  pub primary_key : Option Text
  pub indexes : List Text
  pub unique : List Text

abbrev pub Row : Type 0
Row = Dict Text Text

-- What the bytes of a value stand for: json.loads after json.dumps gives the same value back.
pub data Blob : Type 0 where
  schema : Schema → Blob
  row : Row → Blob
  index_mark : Blob
  -- the aggregated index of a column that older versions wrote: the row keys of every value
  legacy_index : Dict Text (List Text) → Blob

-- The entries of the binary log, one for each `operation`.
pub data Entry : Type 0 where
  create_db drop_db : Text → Entry
  create_table : Text → List Text → Option Text → List Text → Entry
  drop_table : Text → Entry
  insert : Text → Row → Entry
  -- the values that were set, the condition, and the rows after the update
  update : Text → Row → Row → List Row → Entry
  -- the condition and the rows that went
  delete : Text → Row → List Row → Entry

pub data Reply : Type 0 where
  no_database_selected transaction_already_active no_active_transaction : Reply
  transaction_started : Reply
  committed rolled_back : ℕ → Reply
  commit_failed : Reply
  database_exists database_created database_missing database_dropped : Text → Reply
  already_using switched : Text → Reply
  no_switch_in_transaction : Reply
  -- an exception: what is stored under a schema's key is not a schema
  raised : Reply
  table_missing table_exists table_created table_dropped inserted : Text → Reply
  duplicate_primary_key duplicate_unique : Text → Text → Reply
  deleted updated : ℕ → Text → Reply
  -- an update that stopped at a duplicate, with the number of rows before it
  update_duplicate_key update_duplicate_unique : Text → Text → ℕ → Reply

-- `directories` are the database directories; that of the database in use is `opened`, and
-- the entry in `directories` is brought up to date when it is closed.
pub record Database (L : Level Blob) : Type 0 where
  pub current_db : Option Text
  pub opened : Option (Level.Store L)
  pub directories : Dict Text (Level.Store L)
  pub transaction_active : Bool
  pub transaction_changes : Dict Text (Option Blob)
  pub transaction_binlog : List Entry
  pub binlog_queue : List Entry

-- f"{table_name}:{row_id}"
unfoldable pub make_key : Text → Text → Text
make_key table_name row_id = table_name ++ codes ":" ++ row_id

unfoldable pub schema_key : Text → Text
schema_key table_name = codes "_schema:" ++ table_name

module _ (L : Level Blob) where
  open L use {Store, read, write, erase, write_batch}

  -- A pending change, a deletion included, comes before what the store holds; callers have
  -- checked that a database is open.
  unfoldable pub get_current : Text → Database L → Option Blob
  get_current key d = elim d.opened [
    | none ↦ none
    | some s ↦
        if d.transaction_active
        then elim (get key d.transaction_changes) [ none ↦ read key s | some change ↦ change ]
        else read key s
  ]

  -- _log_binlog_async
  pub log_binlog_async : Entry → Database L → Database L
  log_binlog_async entry d =
      if d.transaction_active
      then record d { transaction_binlog = d.transaction_binlog ++ entry ∷ [] }
      else record d { binlog_queue = d.binlog_queue ++ entry ∷ [] }

  -- _transaction_put and _transaction_delete; callers have checked that a database is open
  pub transaction_put : Text → Blob → Database L → Database L
  transaction_put key value d =
      if d.transaction_active
      then record d { transaction_changes = put key (some value) d.transaction_changes }
      else record d { opened = elim d.opened [ none ↦ none | some s ↦ some (write key value s) ] }

  pub transaction_delete : Text → Database L → Database L
  transaction_delete key d =
      if d.transaction_active
      then record d { transaction_changes = put key none d.transaction_changes }
      else record d { opened = elim d.opened [ none ↦ none | some s ↦ some (erase key s) ] }

  pub begin_transaction : Database L → Reply × Database L
  begin_transaction d = elim d.opened [
    | none ↦ (no_database_selected, d)
    | some s ↦ if d.transaction_active then (transaction_already_active, d) else (
      transaction_started,
      record d { transaction_active = true; transaction_changes = []; transaction_binlog = [] },
    )
  ]

  abbrev ended : Database L → Database L
  ended d = record d {
    transaction_active = false;
    transaction_changes = [];
    transaction_binlog = [];
  }

  -- `written` says whether the store takes the batch or raises.
  pub commit_transaction : Bool → Database L → Reply × Database L
  commit_transaction written d =
      if d.transaction_active
      then elim d.opened [
        | none ↦ (no_database_selected, d)
        | some s ↦
            if written
            then (
              committed (length d.transaction_changes),
              record (ended d) {
                opened = some (write_batch d.transaction_changes s);
                binlog_queue = d.binlog_queue ++ d.transaction_binlog;
              },
            )
            else (commit_failed, ended d)
      ]
      else (no_active_transaction, d)

  pub rollback_transaction : Database L → Reply × Database L
  rollback_transaction d =
      if d.transaction_active
      then (rolled_back (length d.transaction_changes), ended d)
      else (no_active_transaction, d)

  -- self._db.close(): the directory now holds what was written
  abbrev pub closed : Database L → Dict Text Store
  closed d = elim d.opened [
    | none ↦ d.directories
    | some s ↦ elim d.current_db [ none ↦ d.directories | some name ↦ put name s d.directories ]
  ]

  -- `fresh` is the store that plyvel makes in a new directory.
  pub create_database : Store → Text → Database L → Reply × Database L
  unfolding log_binlog_async
  create_database fresh name d = if has name d.directories then (database_exists name, d) else (
    database_created name,
    log_binlog_async (create_db name) (record d { directories = put name fresh d.directories }),
  )

  is_current : Text → Database L → Bool
  is_current name d = elim d.current_db [
    | none ↦ false
    | some c ↦ elim d.opened [ none ↦ false | some s ↦ text_same c name ]
  ]

  pub drop_database : Text → Database L → Reply × Database L
  unfolding log_binlog_async is_current
  drop_database name d =
      if has name d.directories
      then (
        database_dropped name,
        log_binlog_async (drop_db name) (
            if is_current name d
            then record d {
              opened = none;
              current_db = none;
              directories = remove name d.directories;
            }
            else record d { directories = remove name d.directories }),
      )
      else (database_missing name, d)

  pub use_database : Text → Database L → Reply × Database L
  unfolding is_current
  use_database name d =
      if is_current name d
      then (already_using name, d)
      else if d.transaction_active
      then (no_switch_in_transaction, d)
      else elim (get name d.directories) [
        | none ↦ (database_missing name, d)
        | some s ↦ (
          switched name,
          record d { opened = get name (closed d); directories = closed d; current_db = some name },
        )
      ]
