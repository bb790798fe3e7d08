-- ===== src/Database/Examples/Statements.antt =====
-- Runs of the statements on tables, on a store in memory.
use kos_db.Base.{
  ◌≡◌, refl, ap, ◌∙◌, subst, false, true, Option, none, some, [], ◌∷◌, arith, Bool-cases, inl, inr,
}
use kos_db.Text.{Text, text_key, text_same, text_same_iff, codes}
use kos_db.Text.Prefix.{starts_with, ends_with}
use kos_db.Text.Split.{after_first, has_code}
use kos_db.Level.{Level}
use kos_db.Level.Memory.{with_prefix}
use kos_db.Dict.{get, put, has, remove}
use kos_db.Dict.Values.{keys}
use kos_db.Database.{
  Database, Schema, Row, Blob, get_current, make_key, schema_key, begin_transaction, deleted,
  updated, transaction_put,
}
use kos_db.Database.Changes.{run}
use kos_db.Database.Examples.{L, items, items_schema, shop_store, shop, changes}
use kos_db.Database.Rows.{
  update_row, idx_key, idx_prefix, given_key, clashes, stored_keys, check_unique_violation,
}
use kos_db.Database.Tables.{get_committed, is_some, drop_table}
use kos_db.Database.Tables.Drop.{drop_table-reads}
use kos_db.Database.Queries.{str_cell, matches, as_row, scan, table_entries, delete}
use kos_db.Database.Queries.Delete.{delete-reads}
use kos_db.Database.Updates.{sets_any, update}
use kos_db.Database.Updates.Rows.Loop.{update-reads}
use kos_db.Database.Updates.Clash.{update-clash}
use kos_db.Database.Select.Complete.{IsComplete}
use kos_db.Database.Select.{Sort}
use kos_db.Database.Select.Statement.{select}
use kos_db.Database.Select.Pending.{select-pending}

drop_table-reads_example :
    get_current L (make_key items (codes "7")) (drop_table L items shop).1 ≡ none
unfolding get_committed get starts_with schema_key make_key
drop_table-reads_example =
    drop_table-reads L items (make_key items (codes "7")) shop (shop_store, refl) refl

abbrev bolts : Row
bolts = (codes "name", codes "bolt") ∷ []

abbrev bolt_row : Row
bolt_row = (codes "id", codes "7") ∷ (codes "sku", codes "7") ∷ (codes "name", codes "bolt") ∷ []

delete-reads_example :
    ((delete L items bolts shop).0 ≡ deleted 1 items)
    × (get_current L (make_key items (codes "7")) (delete L items bolts shop).1 ≡ none)
unfolding get_committed get starts_with schema_key make_key scan matches str_cell as_row
    table_entries with_prefix get_current remove
delete-reads_example =
    delete-reads L items (make_key items (codes "7")) bolts items_schema
      ((make_key items (codes "7"), bolt_row) ∷ []) shop (shop_store, refl) refl refl refl

abbrev as_nuts : Row
as_nuts = (codes "name", codes "nut") ∷ []

update-reads_example :
    ((update L items as_nuts bolts shop).0 ≡ updated 1 items)
    × (get_current L (make_key items (codes "7")) (update L items as_nuts bolts shop).1
        ≡ some (Blob.row (update_row bolt_row as_nuts)))
unfolding get_committed get starts_with schema_key make_key scan matches str_cell as_row
    table_entries with_prefix get_current given_key sets_any remove
update-reads_example =
    update-reads L items (make_key items (codes "7")) as_nuts bolts items_schema
      ((make_key items (codes "7"), bolt_row) ∷ []) shop (shop_store, refl) refl refl refl
      (refl, refl) refl

abbrev unsorted : Sort
unsorted col desc rows = some rows

select-pending_example :
    select L unsorted items none [] none false false none none
      (run L changes (begin_transaction L shop).1)
    ≡ select L unsorted items none [] none false false none none shop
select-pending_example =
    select-pending L unsorted items none false false none none changes shop shop_store refl refl

-- Two rows of a table with a UNIQUE name.
abbrev unique_schema : Schema
unique_schema = record items_schema { unique = codes "name" ∷ [] }

abbrev nut_row : Row
nut_row = (codes "id", codes "8") ∷ (codes "sku", codes "8") ∷ (codes "name", codes "nut") ∷ []

abbrev unique_store : Level.Store L
unique_store =
    (schema_key items, Blob.schema unique_schema)
    ∷ (make_key items (codes "7"), Blob.row bolt_row)
    ∷ (make_key items (codes "8"), Blob.row nut_row)
    ∷ (idx_key items (codes "name") (codes "bolt") (codes "7"), Blob.index_mark)
    ∷ (idx_key items (codes "name") (codes "nut") (codes "8"), Blob.index_mark)
    ∷ []

abbrev unique_shop : Database L
unique_shop = record shop { opened = some unique_store }

name_of : Option Blob → Option Text
name_of none = none
name_of (some (Blob.row row)) = get (codes "name") row
name_of (some (Blob.schema sc)) = none
name_of (some Blob.index_mark) = none
name_of (some (Blob.legacy_index m)) = none

-- The row key has the entry of this name, if there is one.
HasEntry : Text → Option Text → Type 0
HasEntry row_key none = Unit
HasEntry row_key (some name) =
    is_some L (get_committed L (idx_key items (codes "name") name row_key) unique_shop) ≡ true

names-HasEntry :
    (row_key : Text)
    → HasEntry row_key (name_of (get_committed L (make_key items row_key) unique_shop))
unfolding HasEntry name_of get_committed get make_key schema_key idx_key
names-HasEntry row_key = elim (Bool-cases (text_same (codes "7") row_key)) [
  | inl bolt ↦
      subst (λ k. HasEntry k (name_of (get_committed L (make_key items k) unique_shop)))
        ((text_same_iff (codes "7") row_key).0 bolt) refl
  | inr no_bolt ↦ elim (Bool-cases (text_same (codes "8") row_key)) [
    | inl nut ↦
        subst (λ k. HasEntry k (name_of (get_committed L (make_key items k) unique_shop)))
          ((text_same_iff (codes "8") row_key).0 nut) refl
    | inr no_nut ↦ rw (no_bolt, no_nut) tt
  ]
]

unique_shop-IsComplete : IsComplete L items (codes "name") unique_shop
unfolding HasEntry name_of get_committed get make_key schema_key idx_key has_code
unique_shop-IsComplete = record {
  entry = λ row_key value row stored cell.
      subst (HasEntry row_key) (ap name_of stored ∙ cell) (names-HasEntry row_key);
  plain = λ row_key stored. elim (Bool-cases (text_same (codes "7") row_key)) [
    | inl bolt ↦ subst (λ k. has_code 0 k ≡ false) ((text_same_iff (codes "7") row_key).0 bolt) refl
    | inr no_bolt ↦ elim (Bool-cases (text_same (codes "8") row_key)) [
      | inl nut ↦ subst (λ k. has_code 0 k ≡ false) ((text_same_iff (codes "8") row_key).0 nut) refl
      | inr no_nut ↦ ground (arith, rw (no_bolt, no_nut) at stored)
    ]
  ];
}

update-clash_example :
    get_current L (make_key items (codes "7")) (update L items as_nuts bolts unique_shop).1
    ≡ some (Blob.row (update_row bolt_row as_nuts))
unfolding get_committed get starts_with schema_key make_key matches str_cell as_row table_entries
    with_prefix given_key sets_any remove idx_key has check_unique_violation update_row put clashes
    keys transaction_put stored_keys idx_prefix ends_with after_first has_code
update-clash_example =
    (update-clash L items (make_key items (codes "7")) (codes "name") (codes "nut") (codes "8")
      unique_schema as_nuts bolts bolt_row nut_row
      ((make_key items (codes "8"), Blob.row nut_row) ∷ []) unique_shop (unique_store, refl) refl
      refl refl refl refl refl refl refl refl unique_shop-IsComplete refl refl refl).1
