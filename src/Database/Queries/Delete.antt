-- ===== src/Database/Queries/Delete.antt =====
-- database.py, delete: which rows go.
use kos_db.Base.{
  ◌≡◌, refl, sym, ◌∙◌, ap, Bool, false, not, ◌&&◌, ◌||◌, Option, none, some, List, [], ◌∷◌, ◌++◌,
  arith, if◌then◌else◌, Bool-cases, Option-cases, inl, inr, length,
}
use kos_db.Dict.{get, get-none}
use kos_db.Dict.Distinct.{IsDistinct}
use kos_db.Dict.Values.{keys}
use kos_db.Dict.Removal.{among}
use kos_db.Text.{Text, text_key, text_same_iff, codes}
use kos_db.Text.Prefix.{starts_with}
use kos_db.Text.Split.{after_first}
use kos_db.Level.{Level}
use kos_db.Database.{
  Database, Schema, Row, Blob, Entry, schema_key, get_current, transaction_delete, deleted,
}
use kos_db.Database.Rows.{idx_key}
use kos_db.Database.Rows.Insert.{IsOpen, get_current-log, idx_key-other}
use kos_db.Database.Tables.{row_prefix, get_committed, delete_keys}
use kos_db.Database.Tables.Deletes.{delete_keys-Deletes}
use kos_db.Database.Queries.Entries.{get-table_entries, table_entries-IsDistinct}
use kos_db.Database.Queries.{
  matches, as_row, scan, rows_of, table_entries, remove_from_indexes, delete_rows, log_rows,
  delete_found, delete,
}

-- The row that a stored value is matches the condition.
abbrev pub is_match : Row → Option Blob → Bool
is_match condition none = false
is_match condition (some b) = elim (as_row b) [ none ↦ false | some row ↦ matches condition row ]

-- A scan finds the keys of the matching rows and no others.
pub among-scan :
    (t k : Text) (condition : Row) (entries : List (Text × Blob)) (found : List (Text × Row))
    → IsDistinct entries
    → scan t condition entries ≡ some found
    → among k (keys found)
      ≡ (not (starts_with (schema_key t) k) && is_match condition (get k entries))
unfolding scan keys get
among-scan t k condition [] found distinct h = ground arith
among-scan t k condition ((j, b) ∷ entries) found distinct h =
    elim (Option-cases (scan t condition entries)) [
      | inl e ↦ ground (arith, e)
      | inr e ↦ elim (Option-cases (as_row b)) [
        | inl f ↦ ground (
          arith,
          among-scan t k condition entries e.0 distinct.1 e.1,
          f,
          text_same_iff j k,
          get-none j entries distinct.0,
        )
        | inr f ↦ elim (Bool-cases (matches condition f.0)) [
          | inl m ↦ ground (
            arith,
            among-scan t k condition entries e.0 distinct.1 e.1,
            f.1,
            text_same_iff j k,
            get-none j entries distinct.0,
          )
          | inr m ↦ ground (
            arith,
            among-scan t k condition entries e.0 distinct.1 e.1,
            f.1,
            text_same_iff j k,
            get-none j entries distinct.0,
          )
        ]
      ]
    ]

-- The index keys of a row.
pub index_keys : Text → Row → Text → List Text → List Text
index_keys t row row_key [] = []
index_keys t row row_key (col ∷ cols) =
    let rest = index_keys t row row_key cols in
    elim (get col row) [ none ↦ rest | some value ↦ idx_key t col value row_key ∷ rest ]

-- All keys that a delete removes.
found_keys : Text → List Text → List (Text × Row) → List Text
found_keys t cols [] = []
found_keys t cols ((key, row) ∷ found) =
    key ∷ index_keys t row (after_first 58 key) cols ++ found_keys t cols found

among-++ : (k : Text) (js ks : List Text) → among k (js ++ ks) ≡ (among k js || among k ks)
among-++ k [] ks = refl
among-++ k (j ∷ js) ks = ground (arith, among-++ k js ks)

pub among-index_keys :
    (t : Text) (row : Row) (row_key k : Text) (cols : List Text)
    → starts_with (codes "_i") k ≡ false
    → among k (index_keys t row row_key cols) ≡ false
unfolding index_keys
among-index_keys t row row_key k [] h = refl
among-index_keys t row row_key k (col ∷ cols) h = elim (Option-cases (get col row)) [
  | inl e ↦ rw (e, index_keys) (among-index_keys t row row_key k cols h)
  | inr e ↦
      rw (e.1, index_keys, idx_key-other t col e.0 row_key k h)
        (among-index_keys t row row_key k cols h)
]

among-found_keys :
    (t k : Text) (cols : List Text) (found : List (Text × Row))
    → starts_with (codes "_i") k ≡ false
    → among k (found_keys t cols found) ≡ among k (keys found)
unfolding found_keys keys
among-found_keys t k cols [] h = refl
among-found_keys t k cols ((key, row) ∷ found) h =
    rw
      (
        among-++ k (index_keys t row (after_first 58 key) cols) (found_keys t cols found),
        among-index_keys t row (after_first 58 key) k cols h,
        among-found_keys t k cols found h,
      )
      refl

module _ (L : Level Blob) where
  open L use {Store}

  delete_keys-++ :
      (js ks : List Text) (d : Database L)
      → delete_keys L (js ++ ks) d ≡ delete_keys L ks (delete_keys L js d)
  unfolding delete_keys
  delete_keys-++ [] ks d = refl
  delete_keys-++ (j ∷ js) ks d = delete_keys-++ js ks (transaction_delete L j d)

  pub remove_from_indexes-keys :
      (t : Text) (row : Row) (row_key : Text) (cols : List Text) (d : Database L)
      → remove_from_indexes L t row row_key cols d ≡ delete_keys L (index_keys t row row_key cols) d
  unfolding remove_from_indexes index_keys delete_keys
  remove_from_indexes-keys t row row_key [] d = refl
  remove_from_indexes-keys t row row_key (col ∷ cols) d = elim (Option-cases (get col row)) [
    | inl e ↦ rw (e, index_keys) (remove_from_indexes-keys t row row_key cols d)
    | inr e ↦
        rw (e.1, index_keys)
          (remove_from_indexes-keys t row row_key cols
            (transaction_delete L (idx_key t col e.0 row_key) d))
  ]

  delete_rows-keys :
      (t : Text) (cols : List Text) (found : List (Text × Row)) (d : Database L)
      → delete_rows L t cols found d ≡ delete_keys L (found_keys t cols found) d
  unfolding delete_rows found_keys delete_keys
  delete_rows-keys t cols [] d = refl
  delete_rows-keys t cols ((key, row) ∷ found) d =
      let indexed = index_keys t row (after_first 58 key) cols in
      let e = transaction_delete L key d in
      delete_rows-keys t cols found (remove_from_indexes L t row (after_first 58 key) cols e)
      ∙ ap (delete_keys L (found_keys t cols found))
          (remove_from_indexes-keys t row (after_first 58 key) cols e)
      ∙ sym (delete_keys-++ indexed (found_keys t cols found) e)

  pub get_current-log_rows :
      (k : Text) (entry : Entry) (rows : List Row) (d : Database L)
      → get_current L k (log_rows L entry rows d) ≡ get_current L k d
  unfolding log_rows
  get_current-log_rows k entry [] d = refl
  get_current-log_rows k entry (row ∷ rows) d = get_current-log L k entry d

  -- A row of the table that meets the condition is in the store under this key.
  abbrev pub is_found : Text → Row → Text → Database L → Bool
  is_found t condition k d =
      not (starts_with (schema_key t) k)
      && starts_with (row_prefix L t) k
      && is_match condition (get_committed L k d)

  among-table_entries :
      (t k : Text) (condition : Row) (d : Database L) (found : List (Text × Row))
      → IsOpen L d
      → scan t condition (table_entries L t d) ≡ some found
      → among k (keys found) ≡ is_found t condition k d
  among-table_entries t k condition d found o h =
      among-scan t k condition (table_entries L t d) found (table_entries-IsDistinct L t d o) h
      ∙ rw (get-table_entries L t k d o) (ground arith)

  delete_found-shape :
      (t : Text) (condition : Row) (sc : Schema) (found : List (Text × Row)) (d : Database L)
      → IsOpen L d
      → get_committed L (schema_key t) d ≡ some (Blob.schema sc)
      → scan t condition (table_entries L t d) ≡ some found
      → delete L t condition d ≡ delete_found L t condition sc found d
  unfolding delete
  delete_found-shape t condition sc found d (s, o) known h = simp (o, known, h, delete)

  -- Deleting from a table that the store knows and whose values are rows: the reply counts the
  -- rows found, and every key but those of indexes reads as before, except that the matching rows
  -- of the store are gone.
  pub delete-reads :
      (t k : Text) (condition : Row) (sc : Schema) (found : List (Text × Row)) (d : Database L)
      → IsOpen L d
      → get_committed L (schema_key t) d ≡ some (Blob.schema sc)
      → scan t condition (table_entries L t d) ≡ some found
      → starts_with (codes "_i") k ≡ false
      → ((delete L t condition d).0 ≡ deleted (length found) t)
        × (get_current L k (delete L t condition d).1
            ≡ (if is_found t condition k d then none else get_current L k d))
  unfolding delete_found
  delete-reads t k condition sc found d o known h plain =
      rw (delete_found-shape t condition sc found d o known h) (
        refl,
        get_current-log_rows k (Entry.delete t condition (rows_of found)) (rows_of found)
              (delete_rows L t sc.indexes found d)
            ∙ rw (delete_rows-keys t sc.indexes found d) (
                (delete_keys-Deletes L (found_keys t sc.indexes found) d o).current k
                ∙ rw
                    (
                      among-found_keys t k sc.indexes found plain,
                      among-table_entries t k condition d found o h,
                    )
                    refl),
      )
