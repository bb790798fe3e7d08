-- ===== src/Database/Updates.antt =====
-- database.py: UPDATE.
pub mod Rows
pub mod Duplicates
pub mod Clash
use kos_db.Base.{
  ℕ, Bool, true, false, not, ◌&&◌, ◌||◌, Option, none, some, List, [], ◌∷◌, ◌++◌, if◌then◌else◌,
  length,
}
use kos_db.Dict.{Dict, get, put, has}
use kos_db.Text.{Text, text_key, text_same, codes}
use kos_db.Text.Prefix.{starts_with}
use kos_db.Text.Split.{after_first}
use kos_db.Level.{Level}
use kos_db.Database.{
  Database, Schema, Row, Blob, Entry, Reply, make_key, schema_key, get_current, transaction_put,
  transaction_delete, table_missing, raised, updated, update_duplicate_key, update_duplicate_unique,
  no_database_selected,
}
use kos_db.Database.Rows.{update_row, given_key, check_unique_violation, update_indexes}
use kos_db.Database.Tables.{get_committed}
use kos_db.Database.Queries.{matches, as_row, table_entries, remove_from_indexes, log_rows}

-- any(c in set_clause for c in columns)
unfoldable pub sets_any : List Text → Row → Bool
sets_any [] set_clause = false
sets_any (col ∷ columns) set_clause = has col set_clause || sets_any columns set_clause

-- bool(indexed_cols & set(set_clause.keys())), the primary key being one of indexed_cols
unfoldable pub touches_index : Schema → Row → Bool
unfolding sets_any
touches_index sc set_clause =
    elim sc.primary_key [ none ↦ false | some pk ↦ has pk set_clause ]
    || sets_any sc.indexes set_clause

-- What the body of the loop does with one row: it returns a reply, or the row is changed.
pub data Step : Type 0 where
  stopped : Reply → Step
  changed : Row → Step

-- What the loop comes to: an early reply, or the rows it has changed.
pub data Outcome : Type 0 where
  ended_by : Reply → Outcome
  finished : List Row → Outcome

-- The value that the primary key moves to, if it changes.
unfoldable pub new_key_of : Schema → Row → Text → Option Text
unfolding given_key
new_key_of sc set_clause store_key = elim (given_key sc set_clause) [
  | none ↦ none
  | some value ↦ if text_same value store_key then none else some value
]

module _ (L : Level Blob) where
  -- The UNIQUE columns and the indexes, after the row is written. `count` rows were updated before.
  unfoldable pub finish_row :
      Text → Schema → Row → ℕ → Row → Text → Row → Text → Database L → Step × Database L
  unfolding sets_any touches_index
  finish_row table_name sc set_clause count old_row store_key row new_store_key d =
      elim (if sets_any sc.unique set_clause
        then check_unique_violation L table_name row new_store_key sc.unique d
        else none) [
          | some clash ↦ (Step.stopped (update_duplicate_unique clash.0 clash.1 count), d)
          | none ↦ (
            Step.changed row,
            if touches_index sc set_clause || not (text_same new_store_key store_key)
                then update_indexes L table_name row new_store_key sc.indexes
                    (remove_from_indexes L table_name old_row store_key sc.indexes d)
                else d,
          )
        ]

  unfoldable pub update_one : Text → Schema → Row → ℕ → Text → Row → Database L → Step × Database L
  unfolding finish_row new_key_of
  update_one table_name sc set_clause count key old_row d =
      let store_key = after_first 58 key in
      let row = update_row old_row set_clause in
      elim (new_key_of sc set_clause store_key) [
        | none ↦
            finish_row table_name sc set_clause count old_row store_key row store_key
              (transaction_put L key (Blob.row row) d)
        | some new_store_key ↦
            let new_key = make_key table_name new_store_key in
            elim (get_current L new_key d) [
              | some taken ↦ (Step.stopped (update_duplicate_key new_store_key table_name count), d)
              | none ↦
                  let moved = put (codes "id") new_store_key row in
                  finish_row table_name sc set_clause count old_row store_key moved new_store_key
                    (transaction_put L new_key (Blob.row moved) (transaction_delete L key d))
            ]
      ]

  -- for key, value in self._db.iterator(prefix=prefix): the entries are those of the start
  unfoldable pub update_entries :
      Text → Schema → Row → Row → List Row → List (Text × Blob) → Database L → Outcome × Database L
  unfolding update_one matches as_row
  update_entries table_name sc set_clause condition updated_rows [] d =
      (Outcome.finished updated_rows, d)
  update_entries table_name sc set_clause condition updated_rows ((key, value) ∷ entries) d =
      let skipped = update_entries table_name sc set_clause condition updated_rows entries d in
      if starts_with (schema_key table_name) key
        || starts_with (codes "_idx:") key
        || starts_with (codes "_index:") key
      then skipped
      else elim (as_row value) [
        | none ↦ (Outcome.ended_by raised, d)
        | some row ↦ elim (matches condition row) [
          | false ↦ skipped
          | true ↦
              let step = update_one table_name sc set_clause (length updated_rows) key row d in
              elim step.0 [
                | Step.stopped reply ↦ (Outcome.ended_by reply, step.1)
                | Step.changed new_row ↦
                    update_entries table_name sc set_clause condition (updated_rows ++ new_row ∷ [])
                      entries step.1
              ]
        ]
      ]

  -- The reply and the entry of the binary log.
  unfoldable pub close_update : Text → Row → Row → Outcome → Database L → Reply × Database L
  unfolding log_rows
  close_update table_name set_clause condition (Outcome.ended_by reply) d = (reply, d)
  close_update table_name set_clause condition (Outcome.finished rows) d = (
    updated (length rows) table_name,
    log_rows L (Entry.update table_name set_clause condition rows) rows d,
  )

  unfoldable pub update : Text → Row → Row → Database L → Reply × Database L
  unfolding update_entries close_update get_committed
  update table_name set_clause condition d = elim d.opened [
    | none ↦ (no_database_selected, d)
    | some s ↦ elim (get_committed L (schema_key table_name) d) [
      | none ↦ (table_missing table_name, d)
      | some stored ↦ elim stored [
        | Blob.schema sc ↦
            let end =
              update_entries table_name sc set_clause condition [] (table_entries L table_name d)
                d in
            close_update table_name set_clause condition end.0 end.1
        | Blob.row r ↦ (raised, d)
        | Blob.index_mark ↦ (raised, d)
        | Blob.legacy_index m ↦ (raised, d)
      ]
    ]
  ]
