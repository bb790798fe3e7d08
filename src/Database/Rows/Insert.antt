-- ===== src/Database/Rows/Insert.antt =====
-- database.py, _insert_row: what an insert leaves in the store.
use kos_db.Base.{
  ◌≡◌, refl, ◌∙◌, true, false, none, some, List, [], ◌∷◌, arith, if◌then◌else◌, ◌==◌, Bool-cases,
  Option-cases, inl, inr, ==-refl,
}
use kos_db.Dict.{get, get-put}
use kos_db.Text.{Text, text_key, text_same, text_same_iff, codes}
use kos_db.Text.Prefix.{starts_with}
use kos_db.Level.{Level}
use kos_db.Database.{
  Database, Schema, Row, Blob, Entry, make_key, schema_key, get_current, log_binlog_async,
  transaction_put, inserted,
}
use kos_db.Database.Rows.{row_of, idx_key, check_unique_violation, update_indexes, store_row}

-- Keys with different beginnings are different.
pub starts_with-other :
    (p j k : Text) → starts_with p j ≡ true → starts_with p k ≡ false → text_same j k ≡ false
starts_with-other p j k hj hk = elim (Bool-cases (text_same j k)) [
  | inl same ↦ ground (arith, (text_same_iff j k).0 same)
  | inr differ ↦ differ
]

pub idx_key-other :
    (t col value row_key k : Text)
    → starts_with (codes "_i") k ≡ false
    → text_same (idx_key t col value row_key) k ≡ false
unfolding idx_key starts_with
idx_key-other t col value row_key k h =
    starts_with-other (codes "_i") (idx_key t col value row_key) k refl h

module _ (L : Level Blob) where
  open L use {Store, read, write}

  abbrev pub IsOpen : Database L → Type 0
  IsOpen d = (s : Store) × (d.opened ≡ some s)

  pub put-IsOpen :
      (j : Text) (b : Blob) (d : Database L) → IsOpen d → IsOpen (transaction_put L j b d)
  unfolding transaction_put
  put-IsOpen j b d o = elim (Bool-cases d.transaction_active) [
    | inl active ↦ rw active o
    | inr idle ↦ rw idle (write j b o.0, rw o.1 refl)
  ]

  pub get_current-put :
      (j k : Text) (b : Blob) (d : Database L)
      → IsOpen d
      → get_current L k (transaction_put L j b d) ≡ (if j == k then some b else get_current L k d)
  unfolding get_current transaction_put
  get_current-put j k b d o = elim (Bool-cases d.transaction_active) [
    | inl active ↦ rw (active, o.1, get-put j k (some b) d.transaction_changes) ground arith
    | inr idle ↦ rw (idle, o.1) (L.read-write j k b o.0)
  ]

  pub get_current-log :
      (k : Text) (e : Entry) (d : Database L)
      → get_current L k (log_binlog_async L e d) ≡ get_current L k d
  unfolding get_current log_binlog_async
  get_current-log k e d = elim (Bool-cases d.transaction_active) [
    | inl active ↦ rw active refl
    | inr idle ↦ rw idle refl
  ]

  pub update_indexes-keeps :
      (t : Text) (row : Row) (row_key : Text) (cols : List Text) (k : Text) (d : Database L)
      → IsOpen d
      → starts_with (codes "_i") k ≡ false
      → get_current L k (update_indexes L t row row_key cols d) ≡ get_current L k d
  unfolding update_indexes
  update_indexes-keeps t row row_key [] k d o h = refl
  update_indexes-keeps t row row_key (col ∷ cols) k d o h = elim (Option-cases (get col row)) [
    | inl e ↦ rw e (update_indexes-keeps t row row_key cols k d o h)
    | inr e ↦
        let j = idx_key t col e.0 row_key in
        rw e.1 (
          update_indexes-keeps t row row_key cols k (transaction_put L j Blob.index_mark d)
            (put-IsOpen j Blob.index_mark d o) h
          ∙ get_current-put j k Blob.index_mark d o
          ∙ rw (idx_key-other t col e.0 row_key k h) refl)
  ]

  pub store_row-keeps :
      (t key : Text) (sc : Schema) (given : Row) (k : Text) (d : Database L)
      → IsOpen d
      → starts_with (codes "_i") k ≡ false
      → text_same (make_key t key) k ≡ false
      → get_current L k (store_row L t key sc given d).1 ≡ get_current L k d
  unfolding store_row
  store_row-keeps t key sc given k d o h differ =
      let row = row_of key given in
      let written = transaction_put L (make_key t key) (Blob.row row) d in
      elim (Option-cases (check_unique_violation L t row key sc.unique d)) [
        | inr e ↦ rw (e.1, store_row) refl
        | inl e ↦
            rw
              (
                e,
                store_row,
                get_current-log k (Entry.insert t row)
                    (update_indexes L t row key sc.indexes written),
                update_indexes-keeps t row key sc.indexes k written
                    (put-IsOpen (make_key t key) (Blob.row row) d o) h,
                get_current-put (make_key t key) k (Blob.row row) d o,
                differ,
              )
              refl
      ]

  pub store_row-reads :
      (t key : Text) (sc : Schema) (given : Row) (d : Database L)
      → IsOpen d
      → starts_with (codes "_i") (make_key t key) ≡ false
      → check_unique_violation L t (row_of key given) key sc.unique d ≡ none
      → get_current L (make_key t key) (store_row L t key sc given d).1
        ≡ some (Blob.row (row_of key given))
  unfolding store_row
  store_row-reads t key sc given d o h e =
      let row = row_of key given in
      let k = make_key t key in
      let written = transaction_put L k (Blob.row row) d in
      rw
        (
          e,
          store_row,
          get_current-log k (Entry.insert t row) (update_indexes L t row key sc.indexes written),
          update_indexes-keeps t row key sc.indexes k written (put-IsOpen k (Blob.row row) d o) h,
          get_current-put k k (Blob.row row) d o,
          ==-refl k,
        )
        refl

  pub store_row-inserted :
      (t key : Text) (sc : Schema) (given : Row) (d : Database L)
      → (store_row L t key sc given d).0 ≡ inserted t
      → check_unique_violation L t (row_of key given) key sc.unique d ≡ none
  unfolding store_row
  store_row-inserted t key sc given d h =
      elim (Option-cases (check_unique_violation L t (row_of key given) key sc.unique d)) [
        | inl e ↦ e
        | inr e ↦ cc
      ]

  pub make_key-plain :
      (t key : Text)
      → starts_with (codes "_") t ≡ false
      → starts_with (codes "_i") (make_key t key) ≡ false
  unfolding starts_with make_key
  make_key-plain [] key h = refl
  make_key-plain (c ∷ t) key h = ground (arith, h)

  pub make_key-schema :
      (t key u : Text)
      → starts_with (codes "_") t ≡ false
      → text_same (make_key t key) (schema_key u) ≡ false
  unfolding starts_with make_key schema_key
  make_key-schema [] key u h = refl
  make_key-schema (c ∷ t) key u h = ground (arith, h)

  pub schema_key-indexed : (u : Text) → starts_with (codes "_i") (schema_key u) ≡ false
  unfolding starts_with schema_key
  schema_key-indexed u = refl

  pub starts_with-indexed :
      (k : Text) → starts_with (codes "_") k ≡ false → starts_with (codes "_i") k ≡ false
  unfolding starts_with
  starts_with-indexed [] h = refl
  starts_with-indexed (c ∷ k) h = ground (arith, h)

  pub schema_key-other :
      (u k : Text) → starts_with (codes "_") k ≡ false → text_same (schema_key u) k ≡ false
  unfolding starts_with schema_key
  schema_key-other u k h = starts_with-other (codes "_") (schema_key u) k refl h
