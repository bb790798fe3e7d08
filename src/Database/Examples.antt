-- ===== src/Database/Examples.antt =====
-- Runs of the database on a store in memory.
mod Statements
mod Indexes
use kos_db.Base.{◌≡◌, refl, true, false, some, List, [], ◌∷◌}
use kos_db.Text.{Text, codes, str_nat}
use kos_db.Text.Prefix.{starts_with}
use kos_db.Level.{Level}
use kos_db.Level.Memory.{memory}
use kos_db.Dict.{get, put, has}
use kos_db.Database.{
  Database, Schema, Blob, Entry, get_current, begin_transaction, commit_transaction,
  rollback_transaction, drop_database, use_database, make_key, schema_key, duplicate_primary_key,
}
use kos_db.Database.Changes.{Change, run, put_key, delete_key, log}
use kos_db.Database.Transactions.{Undone, undo, commit-direct, run-pending, undo-restores}
use kos_db.Database.Directories.{drop_database-unlogged, use_database-back}
use kos_db.Database.Rows.{
  zip_row, row_of, given_key, insert_row, insert_into, store_row, check_unique_violation,
}
use kos_db.Database.Rows.PrimaryKeys.{insert_row-again, insert_row-overwrites, insert_row-keeps}

abbrev pub L : Level Blob
L = memory Blob

abbrev pub items : Text
items = codes "items"

abbrev pub items_schema : Schema
items_schema = record {
  columns = codes "sku" ∷ codes "name" ∷ [];
  column_types = [];
  next_id = 7;
  primary_key = some (codes "sku");
  indexes = codes "name" ∷ [];
  unique = [];
}

abbrev pub old_row : Blob
old_row =
    Blob.row
      ((codes "id", codes "7") ∷ (codes "sku", codes "7") ∷ (codes "name", codes "bolt") ∷ [])

abbrev pub shop_store : Level.Store L
shop_store =
    (schema_key items, Blob.schema items_schema) ∷ (make_key items (codes "7"), old_row) ∷ []

-- A session on the database `shop`, with a table of one row.
abbrev pub shop : Database L
shop = record {
  current_db = some (codes "shop");
  opened = some shop_store;
  directories = (codes "shop", []) ∷ (codes "logs", []) ∷ [];
  transaction_active = false;
  transaction_changes = [];
  transaction_binlog = [];
  binlog_queue = [];
}

abbrev pub changes : List Change
changes =
    put_key (make_key items (codes "8")) old_row
    ∷ delete_key (make_key items (codes "7"))
    ∷ log (Entry.drop_table items)
    ∷ []

abbrev in_transaction : Database L
in_transaction = record shop {
  transaction_active = true;
  transaction_changes = (make_key items (codes "8"), some old_row) ∷ [];
}

commit-direct_example :
    get_current L
      (make_key items (codes "7"))
      (commit_transaction L true (run L changes (begin_transaction L shop).1)).1
    ≡ get_current L (make_key items (codes "7")) (run L changes shop)
commit-direct_example =
    (commit-direct L changes shop shop_store refl refl).0 (make_key items (codes "7"))

run-pending_example :
    get_current L (make_key items (codes "8")) (run L changes (begin_transaction L shop).1)
    ≡ get_current L (make_key items (codes "8")) (run L changes shop)
run-pending_example =
    (run-pending L changes shop shop_store refl refl).0 (make_key items (codes "8"))

undo-restores_example :
    undo L Undone.rolled_back (run L changes (begin_transaction L shop).1) ≡ shop
undo-restores_example = undo-restores L Undone.rolled_back changes shop shop_store refl refl

abbrev sku_name : List Text
sku_name = codes "sku" ∷ codes "name" ∷ []

abbrev nut : List Text
nut = codes "9" ∷ codes "nut" ∷ []

abbrev screw : List Text
screw = codes "9" ∷ codes "screw" ∷ []

abbrev after_nut : Database L
after_nut = (insert_row L items sku_name nut shop).1

insert_row-again_example :
    insert_row L items sku_name screw after_nut
    ≡ (duplicate_primary_key (codes "9") items, after_nut)
unfolding starts_with get_current given_key zip_row insert_row get put schema_key make_key
    insert_into store_row check_unique_violation
insert_row-again_example =
    (insert_row-again L items (codes "9") items_schema sku_name nut sku_name screw shop refl
      (shop_store, refl) refl refl refl refl).1
