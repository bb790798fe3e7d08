-- ===== src/Database/Rows.antt =====
-- database.py: inserting rows, with primary keys, UNIQUE columns and per-entry indexes.
pub mod Insert
pub mod PrimaryKeys
use kos_db.Base.{
  ℕ, suc, ◌+◌, ◌≡◌, Bool, true, false, not, ◌&&◌, ◌||◌, Option, none, some, List, [], ◌∷◌, ◌++◌,
  if◌then◌else◌,
}
use kos_db.Dict.{Dict, get, put}
use kos_db.Dict.Values.{keys}
use kos_db.Text.{Text, text_key, codes, str_nat}
use kos_db.Text.Prefix.{starts_with, ends_with}
use kos_db.Level.{Level}
use kos_db.Database.{
  Database, Schema, Row, Blob, Entry, Reply, make_key, schema_key, get_current, log_binlog_async,
  transaction_put, table_missing, inserted, raised, duplicate_primary_key, duplicate_unique,
  no_database_selected,
}

-- for i, col in enumerate(columns): if i < len(values): data[col] = values[i]
unfoldable pub zip_row : List Text → List Text → Row → Row
zip_row [] values given = given
zip_row (col ∷ columns) [] given = given
zip_row (col ∷ columns) (v ∷ values) given = zip_row columns values (put col v given)

-- row.update(data)
unfoldable pub update_row : Row → Row → Row
update_row row [] = row
update_row row ((col, v) ∷ given) = update_row (put col v row) given

-- {"id": store_key}, updated with the data
unfoldable pub row_of : Text → Row → Row
unfolding update_row
row_of store_key given = update_row (put (codes "id") store_key []) given

-- The value of the primary key that the data has, if it has one.
unfoldable pub given_key : Schema → Row → Option Text
given_key sc given = elim sc.primary_key [ none ↦ none | some pk ↦ get pk given ]

-- f"_idx:{table_name}:{col}\x00{value}\x00"
unfoldable pub idx_prefix : Text → Text → Text → Text
idx_prefix table_name col value =
    codes "_idx:" ++ table_name ++ codes ":" ++ col ++ 0 ∷ [] ++ value ++ 0 ∷ []

unfoldable pub idx_key : Text → Text → Text → Text → Text
idx_key table_name col value row_key =
    codes "_idx:" ++ table_name ++ codes ":" ++ col ++ 0 ∷ [] ++ value ++ 0 ∷ [] ++ row_key

-- Some key has the prefix and does not end in the row's own key.
unfoldable pub clashes : Text → Text → List Text → Bool
clashes prefix row_key [] = false
clashes prefix row_key (k ∷ ks) =
    (starts_with prefix k && not (ends_with (0 ∷ row_key) k)) || clashes prefix row_key ks

module _ (L : Level Blob) where
  open L use {iterator}

  unfoldable pub stored_keys : Text → Database L → List Text
  stored_keys prefix d = elim d.opened [ none ↦ [] | some s ↦ keys (iterator prefix s) ]

  -- The column and the value of the first UNIQUE column that clashes.
  unfoldable pub check_unique_violation :
      Text → Row → Text → List Text → Database L → Option (Text × Text)
  check_unique_violation table_name row row_key [] d = none
  check_unique_violation table_name row row_key (col ∷ unique) d =
      let rest = check_unique_violation table_name row row_key unique d in
      elim (get col row) [
        | none ↦ rest
        | some value ↦
            let prefix = idx_prefix table_name col value in
            if clashes prefix row_key (keys d.transaction_changes)
              || clashes prefix row_key (stored_keys prefix d)
            then some (col, value)
            else rest
      ]

  unfoldable pub update_indexes : Text → Row → Text → List Text → Database L → Database L
  update_indexes table_name row row_key [] d = d
  update_indexes table_name row row_key (col ∷ indexes) d =
      update_indexes table_name row row_key indexes (elim (get col row) [
        | none ↦ d
        | some value ↦ transaction_put L (idx_key table_name col value row_key) Blob.index_mark d
      ])

  -- _insert_row, from the row's own dict on
  unfoldable pub store_row : Text → Text → Schema → Row → Database L → Reply × Database L
  store_row table_name store_key sc given d =
      let row = row_of store_key given in
      elim (check_unique_violation table_name row store_key sc.unique d) [
        | some clash ↦ (duplicate_unique clash.0 clash.1, d)
        | none ↦ (
          inserted table_name,
          log_binlog_async L (Entry.insert table_name row) (
              update_indexes table_name row store_key sc.indexes
                (transaction_put L (make_key table_name store_key) (Blob.row row) d)),
        )
      ]

  unfoldable pub insert_into : Text → Schema → Row → Database L → Reply × Database L
  insert_into table_name sc given d = elim (given_key sc given) [
    | some store_key ↦ elim (get_current L (make_key table_name store_key) d) [
      | some old ↦ (duplicate_primary_key store_key table_name, d)
      | none ↦ store_row table_name store_key sc given d
    ]
    | none ↦
        let counted = record sc { next_id = suc sc.next_id } in
        store_row table_name (str_nat sc.next_id) counted given
          (transaction_put L (schema_key table_name) (Blob.schema counted) d)
  ]

  unfoldable pub insert_row : Text → List Text → List Text → Database L → Reply × Database L
  insert_row table_name columns values d = elim (get_current L (schema_key table_name) d) [
    | none ↦ (table_missing table_name, d)
    | some stored ↦ elim stored [
      | Blob.schema sc ↦ insert_into table_name sc (zip_row columns values []) d
      | Blob.row r ↦ (raised, d)
      | Blob.index_mark ↦ (raised, d)
      | Blob.legacy_index m ↦ (raised, d)
    ]
  ]

  unfoldable pub get_schema : Text → Database L → Option Blob
  get_schema table_name d = elim d.opened [
    | none ↦ none
    | some s ↦ get_current L (schema_key table_name) d
  ]

  -- insert: the values follow the columns of the schema
  pub insert : Text → List Text → Database L → Reply × Database L
  unfolding insert_row get_schema
  insert table_name values d = elim d.opened [
    | none ↦ (no_database_selected, d)
    | some s ↦ elim (get_schema table_name d) [
      | none ↦ (table_missing table_name, d)
      | some stored ↦ elim stored [
        | Blob.schema sc ↦ insert_row table_name sc.columns values d
        | Blob.row r ↦ (raised, d)
        | Blob.index_mark ↦ (raised, d)
        | Blob.legacy_index m ↦ (raised, d)
      ]
    ]
  ]

  pub insert_with_columns : Text → List Text → List Text → Database L → Reply × Database L
  unfolding insert_row get_schema
  insert_with_columns table_name columns values d = elim d.opened [
    | none ↦ (no_database_selected, d)
    | some s ↦ elim (get_schema table_name d) [
      | none ↦ (table_missing table_name, d)
      | some stored ↦ insert_row table_name columns values d
    ]
  ]
