-- ===== src/Database/Queries.antt =====
-- database.py: the rows of a table that meet a WHERE clause, and DELETE.
pub mod Entries
pub mod Delete
use kos_db.Base.{
  ℕ, Bool, true, false, not, ◌&&◌, Option, none, some, List, [], ◌∷◌, ◌++◌, if◌then◌else◌, length,
  ◌>>=◌,
}
use kos_db.Dict.{Dict, get}
use kos_db.Text.{Text, text_key, text_same, codes}
use kos_db.Text.Prefix.{starts_with}
use kos_db.Text.Split.{after_first}
use kos_db.Level.{Level}
use kos_db.Database.{
  Database, Schema, Row, Blob, Entry, Reply, schema_key, log_binlog_async, transaction_delete,
  table_missing, raised, deleted, no_database_selected,
}
use kos_db.Database.Rows.{idx_key}
use kos_db.Database.Tables.{row_prefix, get_committed}

-- str(row.get(col)): a column that the row lacks reads as None
unfoldable pub str_cell : Text → Row → Text
str_cell col row = elim (get col row) [ none ↦ codes "None" | some value ↦ value ]

-- all(str(row.get(c)) == str(v) for c, v in where.items()); no condition is an empty one
unfoldable pub matches : Row → Row → Bool
unfolding str_cell
matches [] row = true
matches ((col, value) ∷ condition) row = text_same (str_cell col row) value && matches condition row

-- json.loads of what is stored, where the program goes on to use a row
unfoldable pub as_row : Blob → Option Row
as_row (Blob.row r) = some r
as_row (Blob.schema sc) = none
as_row Blob.index_mark = none
as_row (Blob.legacy_index m) = none

-- The loop over the table's keys that select, update and delete share: the rows that match, with
-- their keys; no result when a value is not a row.
unfoldable pub scan : Text → Row → List (Text × Blob) → Option (List (Text × Row))
unfolding matches as_row
scan table_name condition [] = some []
scan table_name condition ((key, value) ∷ entries) =
    let rest = scan table_name condition entries in
    if starts_with (schema_key table_name) key then rest else do
      row ← as_row value
      found ← rest
      some (if matches condition row then (key, row) ∷ found else found)

-- the rows of what a scan has found
unfoldable pub rows_of : List (Text × Row) → List Row
rows_of [] = []
rows_of ((key, row) ∷ found) = row ∷ rows_of found

module _ (L : Level Blob) where
  open L use {iterator}

  -- self._db.iterator(prefix=...)
  unfoldable pub table_entries : Text → Database L → List (Text × Blob)
  table_entries table_name d = elim d.opened [
    | none ↦ []
    | some s ↦ iterator (row_prefix L table_name) s
  ]

  unfoldable pub remove_from_indexes : Text → Row → Text → List Text → Database L → Database L
  remove_from_indexes table_name row row_key [] d = d
  remove_from_indexes table_name row row_key (col ∷ indexes) d =
      remove_from_indexes table_name row row_key indexes (elim (get col row) [
        | none ↦ d
        | some value ↦ transaction_delete L (idx_key table_name col value row_key) d
      ])

  unfoldable pub delete_rows : Text → List Text → List (Text × Row) → Database L → Database L
  unfolding remove_from_indexes
  delete_rows table_name indexes [] d = d
  delete_rows table_name indexes ((key, row) ∷ found) d =
      delete_rows table_name indexes found (
        remove_from_indexes table_name row (after_first 58 key) indexes
          (transaction_delete L key d))

  -- An entry for the binary log, if any row changed.
  unfoldable pub log_rows : Entry → List Row → Database L → Database L
  log_rows entry [] d = d
  log_rows entry (row ∷ rows) d = log_binlog_async L entry d

  unfoldable pub delete_found :
      Text → Row → Schema → List (Text × Row) → Database L → Reply × Database L
  unfolding delete_rows log_rows
  delete_found table_name condition sc found d = (
    deleted (length found) table_name,
    log_rows (Entry.delete table_name condition (rows_of found)) (rows_of found)
        (delete_rows table_name sc.indexes found d),
  )

  unfoldable pub delete : Text → Row → Database L → Reply × Database L
  unfolding delete_found scan get_committed
  delete table_name condition d = elim d.opened [
    | none ↦ (no_database_selected, d)
    | some s ↦ elim (get_committed L (schema_key table_name) d) [
      | none ↦ (table_missing table_name, d)
      | some stored ↦ elim stored [
        | Blob.schema sc ↦ elim (scan table_name condition (table_entries table_name d)) [
          | none ↦ (raised, d)
          | some found ↦ delete_found table_name condition sc found d
        ]
        | Blob.row r ↦ (raised, d)
        | Blob.index_mark ↦ (raised, d)
        | Blob.legacy_index m ↦ (raised, d)
      ]
    ]
  ]
