-- ===== src/Database/Select.antt =====
-- database.py: SELECT. Cells are modelled by their texts, while the program sorts rows by the values
-- themselves, with a sort engine if there is one: _sort_results is the parameter `sort_results`,
-- which has no result where the sort raises.
pub mod Statement
pub mod Keys
pub mod Members
pub mod Complete
pub mod Indexed
pub mod Kept
pub mod Pending
use mathlib.Core.List.{reverse}
use kos_db.Base.{
  ◌==◌, Bool, true, false, not, ◌&&◌, ◌||◌, Option, none, some, List, [], ◌∷◌, ◌++◌, if◌then◌else◌,
  ◌>>=◌, map,
}
use kos_db.Dict.{Dict, get, has}
use kos_db.Dict.Values.{keys}
use kos_db.Dict.Removal.{among, keep}
use kos_db.Text.{Text, text_key, text_same, codes}
use kos_db.Text.Prefix.{starts_with}
use kos_db.Text.Split.{after_last}
use kos_db.Text.Order.{sorted, key_precedes}
use kos_db.Level.{Level}
use kos_db.Database.{Database, Schema, Row, Blob, make_key, schema_key, get_current}
use kos_db.Database.Rows.{idx_prefix, stored_keys}
use kos_db.Database.Tables.{get_committed}
use kos_db.Database.Queries.{matches, as_row, scan, rows_of, table_entries}

-- The first column of the condition that is the primary key or has an index.
unfoldable pub find_index_col : Schema → Row → Option Text
find_index_col sc [] = none
find_index_col sc ((col, value) ∷ condition) =
    let rest = find_index_col sc condition in
    if elim sc.primary_key [ none ↦ false | some pk ↦ pk == col ] || among col sc.indexes
    then some col
    else rest

-- _can_use_index
unfoldable pub can_use_index : Schema → Row → Bool
can_use_index sc [] = false
can_use_index sc ((col, value) ∷ condition) =
    (elim sc.primary_key [ none ↦ false | some pk ↦ pk == col ] || among col sc.indexes)
    || can_use_index sc condition

-- what follows the last NUL of every key
unfoldable pub row_keys_of : List Text → List Text
unfolding after_last
row_keys_of [] = []
row_keys_of (k ∷ ks) = after_last 0 k ∷ row_keys_of ks

-- f"_idx:{table_name}:{col}\x00"
unfoldable pub idx_column_prefix : Text → Text → Text
idx_column_prefix table_name col = codes "_idx:" ++ table_name ++ codes ":" ++ col ++ 0 ∷ []

-- f"_index:{table_name}:{col}"
unfoldable pub legacy_key : Text → Text → Text
legacy_key table_name col = codes "_index:" ++ table_name ++ codes ":" ++ col

-- an aggregated index: a value that is no list is one row key
unfoldable pub index_map_of : Blob → Option (Dict Text (List Text))
index_map_of (Blob.legacy_index m) = some m
index_map_of (Blob.row r) = some (map (λ (cell : Text × Text). (cell.0, cell.1 ∷ [])) r)
index_map_of (Blob.schema sc) = none
index_map_of Blob.index_mark = none

-- the row keys of all values, in the order of the values
unfoldable pub ordered_row_keys : Bool → Dict Text (List Text) → List Text
unfolding sorted key_precedes
ordered_row_keys order_desc m =
    flatten (sorted (λ (a b : Text × List Text). key_precedes order_desc a.0 b.0) m)
  where
    flatten : Dict Text (List Text) → List Text
    flatten [] = []
    flatten ((value, row_keys) ∷ m) = row_keys ++ flatten m

-- not key.startswith(b"_idx:") and not key.startswith(b"_index:")
abbrev is_no_index : Text × Blob → Bool
is_no_index entry =
    not (starts_with (codes "_idx:") entry.0) && not (starts_with (codes "_index:") entry.0)

abbrev pub if_complete : List Row × Bool → Option (List Row)
if_complete end = if end.1 then some end.0 else none

module _ (L : Level Blob) where
  -- The rows of these keys that match, up to the first value that is not a row; and whether
  -- there was none.
  unfoldable pub fetch : Text → Row → List Text → Database L → List Row × Bool
  unfolding matches as_row
  fetch table_name condition [] d = ([], true)
  fetch table_name condition (row_key ∷ row_keys) d =
      let rest = fetch table_name condition row_keys d in
      elim (get_current L (make_key table_name row_key) d) [
        | none ↦ rest
        | some value ↦ elim (as_row value) [
          | none ↦ ([], false)
          | some row ↦ if matches condition row then (row ∷ rest.0, rest.1) else rest
        ]
      ]

  -- By the aggregated index of the column, if the store has one.
  unfoldable pub select_legacy : Text → Row → Text → Text → Database L → Option (List Row)
  unfolding fetch index_map_of
  select_legacy table_name condition col lookup_val d =
      elim (get_committed L (legacy_key table_name col) d) [
        | none ↦ some []
        | some value ↦ elim (index_map_of value) [
          | none ↦ none
          | some m ↦
              let row_keys : List Text = elim (get lookup_val m) [ none ↦ [] | some ks ↦ ks ] in
              if_complete (fetch table_name condition row_keys d)
        ]
      ]

  -- By the index entries of the value, if there are any.
  unfoldable pub select_entries : Text → Row → Text → Text → Database L → Option (List Row)
  unfolding fetch row_keys_of select_legacy
  select_entries table_name condition col lookup_val d =
      elim (stored_keys L (idx_prefix table_name col lookup_val) d) [
        | [] ↦ select_legacy table_name condition col lookup_val d
        | k ∷ ks ↦ if_complete (fetch table_name condition (row_keys_of (k ∷ ks)) d)
      ]

  unfoldable pub select_with_where_index : Text → Row → Schema → Database L → Option (List Row)
  unfolding fetch find_index_col select_entries
  select_with_where_index table_name condition sc d = elim (find_index_col sc condition) [
    | none ↦ some []
    | some index_col ↦ elim (get index_col condition) [
      | none ↦ none
      | some lookup_val ↦
          if elim sc.primary_key [ none ↦ false | some pk ↦ pk == index_col ]
          then if_complete (fetch table_name condition (lookup_val ∷ []) d)
          else select_entries table_name condition index_col lookup_val d
    ]
  ]

-- _sort_results: the column, whether in descending order, and the rows
abbrev pub Sort : Type 0
Sort = Text → Bool → List Row → Option (List Row)

module _ (L : Level Blob) (sort_results : Sort) where
  -- The table's rows behind those that are there already, sorted.
  unfoldable pub scan_sorted : List Row → Text → Row → Text → Bool → Database L → Option (List Row)
  unfolding scan table_entries
  scan_sorted results table_name condition order_by order_desc d = do
    found ← scan table_name condition (keep is_no_index (table_entries L table_name d))
    sort_results order_by order_desc (results ++ rows_of found)

  unfoldable pub select_with_index : Text → Row → Text → Bool → Database L → Option (List Row)
  unfolding fetch row_keys_of scan_sorted index_map_of ordered_row_keys
  select_with_index table_name condition order_by order_desc d =
      elim (stored_keys L (idx_column_prefix table_name order_by) d) [
        | k ∷ ks ↦
            let entries = if order_desc then reverse (k ∷ ks) else k ∷ ks in
            if_complete (fetch L table_name condition (row_keys_of entries) d)
        | [] ↦ elim (get_committed L (legacy_key table_name order_by) d) [
          | none ↦ scan_sorted [] table_name condition order_by order_desc d
          | some value ↦ elim (index_map_of value) [
            | none ↦ scan_sorted [] table_name condition order_by order_desc d
            | some m ↦
                let end = fetch L table_name condition (ordered_row_keys order_desc m) d in
                if end.1
                then some end.0
                else scan_sorted end.0 table_name condition order_by order_desc d
          ]
        ]
      ]
