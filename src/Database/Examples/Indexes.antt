-- ===== src/Database/Examples/Indexes.antt =====
-- Runs of inserts and selects with an index, on a store in memory.
use kos_db.Base.{◌≡◌, refl, subst, Bool, false, some, List, [], ◌∷◌, Bool-cases, inl, inr, arith}
use kos_db.Text.{text_same, text_same_iff, codes}
use kos_db.Text.Prefix.{starts_with}
use kos_db.Text.Split.{has_code}
use kos_db.Level.Memory.{with_prefix}
use kos_db.Dict.{get, put, remove}
use kos_db.Database.{Database, Row, Blob, make_key, schema_key, log_binlog_async, transaction_put}
use kos_db.Database.Examples.{L, items, items_schema, shop}
use kos_db.Database.Rows.{row_of, idx_key, store_row, check_unique_violation, update_indexes}
use kos_db.Database.Tables.{get_committed}
use kos_db.Database.Queries.{str_cell, matches, as_row, scan, rows_of, table_entries}
use kos_db.Database.Select.{find_index_col, legacy_key, select_with_where_index}
use kos_db.Dict.Counting.{count}
use kos_db.Database.Select.Complete.{IsComplete, ArePlain, AllRows}
use kos_db.Database.Select.Indexed.{select-index}
use kos_db.Database.Select.Kept.{store_row-IsComplete}

abbrev empty_table : Database L
empty_table = record shop { opened = some ((schema_key items, Blob.schema items_schema) ∷ []) }

empty_table-IsComplete : IsComplete L items (codes "name") empty_table
unfolding get_committed get schema_key make_key
empty_table-IsComplete = record {
  entry = λ row_key value row stored cell. cc;
  plain = λ row_key stored. cc;
}

abbrev nut : Row
nut = (codes "sku", codes "8") ∷ (codes "name", codes "nut") ∷ []

abbrev one_nut : Database L
one_nut = (store_row L items (codes "8") items_schema nut empty_table).1

store_row-IsComplete_example : IsComplete L items (codes "name") one_nut
unfolding has_code starts_with
store_row-IsComplete_example =
    store_row-IsComplete L items (codes "8") (codes "name") items_schema nut empty_table (_, refl)
      refl refl refl refl empty_table-IsComplete

one_nut-IsComplete : IsComplete L items (codes "name") one_nut
unfolding has_code starts_with
one_nut-IsComplete =
    store_row-IsComplete L items (codes "8") (codes "name") items_schema nut empty_table (_, refl)
      refl refl refl refl empty_table-IsComplete

one_nut-AllRows : AllRows L items one_nut
unfolding get_committed get schema_key make_key store_row check_unique_violation log_binlog_async
    update_indexes row_of put transaction_put idx_key
one_nut-AllRows row_key = elim (Bool-cases (text_same (codes "8") row_key)) [
  | inl here ↦ inr (row_of (codes "8") nut, ground (arith, here))
  | inr other ↦ inl (ground (arith, other))
]

one_nut-ArePlain : ArePlain L items (codes "name") (codes "nut") one_nut
unfolding get_committed get schema_key make_key store_row check_unique_violation log_binlog_async
    update_indexes row_of put transaction_put idx_key has_code
one_nut-ArePlain row_key stored = elim (Bool-cases (text_same (codes "8") row_key)) [
  | inl here ↦ subst (λ k. has_code 0 k ≡ false) ((text_same_iff (codes "8") row_key).0 here) refl
  | inr other ↦ ground (arith, other, stored)
]

abbrev nuts : Row
nuts = (codes "name", codes "nut") ∷ []

abbrev is_eight : Row → Bool
is_eight row = text_same (str_cell (codes "sku") row) (codes "8")

select-index_example :
    (rows : List Row) × (select_with_where_index L items nuts items_schema one_nut ≡ some rows)
    × (count is_eight rows ≡ 1)
unfolding get_committed get starts_with schema_key make_key scan matches str_cell as_row
    table_entries with_prefix store_row check_unique_violation log_binlog_async update_indexes
    row_of put transaction_put idx_key legacy_key find_index_col remove rows_of
select-index_example =
    select-index L is_eight items (codes "name") (codes "nut") nuts items_schema
      ((make_key items (codes "8"), row_of (codes "8") nut) ∷ []) one_nut (_, refl) refl refl
      one_nut-IsComplete one_nut-ArePlain one_nut-AllRows refl refl refl refl refl refl
