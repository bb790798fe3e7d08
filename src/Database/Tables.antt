-- ===== src/Database/Tables.antt =====
-- database.py: create_table and drop_table.
pub mod Deletes
pub mod Drop
use kos_db.Base.{
  ℕ, Bool, true, false, not, ◌&&◌, ◌||◌, Option, none, some, List, [], ◌∷◌, ◌++◌, if◌then◌else◌,
  ◌>>=◌,
}
use kos_db.Dict.{Dict, get, put, has}
use kos_db.Dict.Removal.{among}
use kos_db.Text.{Text, text_key, codes}
use kos_db.Text.Case.{upper, strip, contains}
use kos_db.Text.Split.{words}
use kos_db.Level.{Level}
use kos_db.Database.{
  Database, Schema, Blob, Entry, Reply, schema_key, log_binlog_async, transaction_put,
  transaction_delete, table_missing, table_exists, table_created, table_dropped, raised,
  no_database_selected,
}
use kos_db.Database.Rows.{stored_keys}

-- What the loop of create_table has made of the columns so far.
pub record Columns : Type 0 where
  pub parsed_columns : List Text
  pub col_types : Dict Text Text
  pub primary_key : Option Text
  pub index_columns : List Text
  pub unique_columns : List Text

abbrev no_columns : Columns
no_columns = record {
  parsed_columns = [];
  col_types = [];
  primary_key = none;
  index_columns = [];
  unique_columns = [];
}

-- tokens[1].upper(), if there is a second token
unfoldable pub type_of : List Text → Text → Text
type_of [] default = default
type_of (token ∷ []) default = default
type_of (token ∷ hint ∷ tokens) default = upper hint

abbrev add_new : Text → List Text → List Text
add_new c cs = if among c cs then cs else cs ++ c ∷ []

-- One column, by the tokens of its stripped text; split()[0] raises for blank text.
unfoldable pub parse_column : List Text → Text → Columns → Option Columns
unfolding type_of
parse_column [] col_upper cs = none
parse_column (name ∷ tokens) col_upper cs = some (
    if contains (codes "PRIMARY KEY") col_upper
    then record cs {
      primary_key = some name;
      parsed_columns = cs.parsed_columns ++ name ∷ [];
      col_types = put name (type_of (name ∷ tokens) (codes "INTEGER")) cs.col_types;
    }
    else if contains (codes "UNIQUE") col_upper
    then record cs {
      parsed_columns = cs.parsed_columns ++ name ∷ [];
      unique_columns = add_new name cs.unique_columns;
      index_columns = add_new name cs.index_columns;
      col_types = put name (type_of (name ∷ tokens) (codes "TEXT")) cs.col_types;
    }
    else if contains (codes "INDEX") col_upper
    then record cs {
      parsed_columns = cs.parsed_columns ++ name ∷ [];
      index_columns = cs.index_columns ++ name ∷ [];
      col_types = put name (type_of (name ∷ tokens) (codes "TEXT")) cs.col_types;
    }
    else record cs {
      parsed_columns = cs.parsed_columns ++ name ∷ [];
      col_types = put name (type_of (name ∷ tokens) (codes "TEXT")) cs.col_types;
    })

unfoldable pub parse_columns : List Text → Columns → Option Columns
unfolding parse_column
parse_columns [] cs = some cs
parse_columns (col ∷ cols) cs = do
  next ← parse_column (words (strip col)) (upper (strip col)) cs
  parse_columns cols next

-- A primary key always has its type by then, so that it is not set again to INTEGER.
unfoldable pub schema_of : Columns → Schema
schema_of cs = record {
  columns = cs.parsed_columns;
  column_types = cs.col_types;
  next_id = 1;
  primary_key = cs.primary_key;
  indexes = cs.index_columns;
  unique = cs.unique_columns;
}

module _ (L : Level Blob) where
  open L use {read}

  -- self._db.get(key): what the store holds, whatever is pending
  unfoldable pub get_committed : Text → Database L → Option Blob
  get_committed key d = elim d.opened [ none ↦ none | some s ↦ read key s ]

  abbrev pub is_some : Option Blob → Bool
  is_some none = false
  is_some (some b) = true

  unfoldable pub create_table : Text → List Text → Database L → Reply × Database L
  unfolding get_committed parse_columns schema_of
  create_table table_name columns d = elim d.opened [
    | none ↦ (no_database_selected, d)
    | some s ↦
        if is_some (get_committed (schema_key table_name) d)
          || has (schema_key table_name) d.transaction_changes
        then (table_exists table_name, d)
        else elim (parse_columns columns no_columns) [
          | none ↦ (raised, d)
          | some cs ↦ (
            table_created table_name,
            log_binlog_async L
                (Entry.create_table table_name cs.parsed_columns cs.primary_key cs.index_columns)
                (transaction_put L (schema_key table_name) (Blob.schema (schema_of cs)) d),
          )
        ]
  ]

  unfoldable pub delete_keys : List Text → Database L → Database L
  delete_keys [] d = d
  delete_keys (key ∷ ks) d = delete_keys ks (transaction_delete L key d)

  -- for key, _ in self._db.iterator(prefix=prefix): self._transaction_delete(key)
  unfoldable pub delete_prefix : Text → Database L → Database L
  unfolding delete_keys
  delete_prefix prefix d = delete_keys (stored_keys L prefix d) d

  abbrev pub row_prefix : Text → Text
  row_prefix table_name = table_name ++ codes ":"

  abbrev pub index_prefix : Text → Text
  index_prefix table_name = codes "_idx:" ++ table_name ++ codes ":"

  -- the prefix of the indexes of older versions, one value for each column
  abbrev pub legacy_prefix : Text → Text
  legacy_prefix table_name = codes "_index:" ++ table_name ++ codes ":"

  unfoldable pub drop_table : Text → Database L → Reply × Database L
  unfolding get_committed delete_prefix
  drop_table table_name d = elim d.opened [
    | none ↦ (no_database_selected, d)
    | some s ↦
        if is_some (get_committed (schema_key table_name) d)
        then (
          table_dropped table_name,
          log_binlog_async L (Entry.drop_table table_name) (
              transaction_delete L (schema_key table_name) (
                delete_prefix (legacy_prefix table_name) (
                  delete_prefix (index_prefix table_name)
                    (delete_prefix (row_prefix table_name) d)))),
        )
        else (table_missing table_name, d)
  ]
