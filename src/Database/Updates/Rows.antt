-- ===== src/Database/Updates/Rows.antt =====
-- database.py, update: what the body of the loop does to one row.
pub mod Loop
use kos_db.Base.{
  ◌≡◌, refl, sym, ◌∙◌, ap, ℕ, Bool, true, false, not, ◌&&◌, ◌||◌, Option, none, some, List, [], ◌∷◌,
  ◌++◌, arith, append-nil, append_assoc, if◌then◌else◌, ◌==◌, Bool-cases, Option-cases, inl, inr,
  ==-refl, if-both, length,
}
use kos_db.Dict.{Dict, get, has, get-none}
use kos_db.Dict.Distinct.{IsDistinct}
use kos_db.Text.{Text, text_key, text_same, text_same_iff, codes}
use kos_db.Text.Prefix.{starts_with}
use kos_db.Text.Split.{after_first}
use kos_db.Level.{Level}
use kos_db.Database.{
  Database, Schema, Row, Blob, Entry, schema_key, get_current, transaction_put, updated,
}
use kos_db.Database.Rows.{update_row, given_key, idx_key, check_unique_violation, update_indexes}
use kos_db.Database.Rows.Insert.{IsOpen, put-IsOpen, get_current-put, update_indexes-keeps}
use kos_db.Database.Tables.{row_prefix, get_committed, delete_keys}
use kos_db.Database.Tables.Deletes.{Deletes, delete_keys-Deletes}
use kos_db.Database.Queries.{
  matches, as_row, scan, rows_of, table_entries, remove_from_indexes, log_rows,
}
use kos_db.Database.Queries.Delete.{
  is_match, index_keys, among-index_keys, remove_from_indexes-keys, get_current-log_rows,
}
use kos_db.Database.Updates.{
  Step, Outcome, sets_any, touches_index, new_key_of, finish_row, update_one, update_entries,
  close_update, update,
}

-- The clause sets neither the primary key nor a UNIQUE column.
abbrev pub IsPlain : Schema → Row → Type 0
IsPlain sc set_clause = (given_key sc set_clause ≡ none) × (sets_any sc.unique set_clause ≡ false)

module _ (L : Level Blob) where
  remove_from_indexes-keeps :
      (t : Text) (row : Row) (row_key k : Text) (cols : List Text) (d : Database L)
      → IsOpen L d
      → starts_with (codes "_i") k ≡ false
      → IsOpen L (remove_from_indexes L t row row_key cols d)
        × (get_current L k (remove_from_indexes L t row row_key cols d) ≡ get_current L k d)
  remove_from_indexes-keeps t row row_key k cols d o h =
      let gone = delete_keys-Deletes L (index_keys t row row_key cols) d o in
      rw (remove_from_indexes-keys L t row row_key cols d)
        (gone.is_open, gone.current k ∙ rw (among-index_keys t row row_key k cols h) refl)

  pub update_indexes-IsOpen :
      (t : Text) (row : Row) (row_key : Text) (cols : List Text) (d : Database L)
      → IsOpen L d
      → IsOpen L (update_indexes L t row row_key cols d)
  unfolding update_indexes
  update_indexes-IsOpen t row row_key [] d o = o
  update_indexes-IsOpen t row row_key (col ∷ cols) d o = elim (Option-cases (get col row)) [
    | inl e ↦ rw (e, update_indexes) (update_indexes-IsOpen t row row_key cols d o)
    | inr e ↦
        let j = idx_key t col e.0 row_key in
        rw (e.1, update_indexes)
          (update_indexes-IsOpen t row row_key cols (transaction_put L j Blob.index_mark d)
            (put-IsOpen L j Blob.index_mark d o))
  ]

  -- The session is open and this is what it reads under the key.
  pub record Reads (k : Text) (value : Option Blob) (d : Database L) : Type 0 where
    pub is_open : IsOpen L d
    pub current : get_current L k d ≡ value

  -- The indexes and the checks leave every other key alone.
  finish_row-keeps :
      (t : Text) (sc : Schema) (set_clause : Row) (count : ℕ) (old : Row) (key : Text) (row : Row)
      (k : Text) (d : Database L)
      → IsOpen L d
      → sets_any sc.unique set_clause ≡ false
      → starts_with (codes "_i") k ≡ false
      → let end = finish_row L t sc set_clause count old key row key d in
        (end.0 ≡ Step.changed row) × Reads k (get_current L k d) end.1
  unfolding finish_row
  finish_row-keeps t sc set_clause count old key row k d o no_unique h =
      let unindexed = remove_from_indexes L t old key sc.indexes d in
      let gone = remove_from_indexes-keeps t old key k sc.indexes d o h in
      rw (no_unique, finish_row)
        (
          refl,
          if-both (Reads k (get_current L k d))
              (touches_index sc set_clause || not (text_same key key))
              record {
                is_open = update_indexes-IsOpen t row key sc.indexes unindexed gone.0;
                current = update_indexes-keeps L t row key sc.indexes k unindexed gone.0 h ∙ gone.1;
              }
              record { is_open = o; current = refl },
        )

  -- One row whose key stays: it is written under its key, and only index keys change besides.
  pub update_one-plain :
      (t : Text) (sc : Schema) (set_clause : Row) (count : ℕ) (key k : Text) (old : Row)
      (d : Database L)
      → IsOpen L d
      → IsPlain sc set_clause
      → starts_with (codes "_i") k ≡ false
      → let end = update_one L t sc set_clause count key old d in
        let row = update_row old set_clause in
        (end.0 ≡ Step.changed row)
        × Reads k (if key == k then some (Blob.row row) else get_current L k d) end.1
  unfolding update_one new_key_of
  update_one-plain t sc set_clause count key k old d o plain h =
      let row = update_row old set_clause in
      let written = transaction_put L key (Blob.row row) d in
      let end =
        finish_row-keeps t sc set_clause count old (after_first 58 key) row k written
          (put-IsOpen L key (Blob.row row) d o) plain.1 h in
      rw (plain.0, new_key_of, update_one)
        (
          end.0,
          record {
            is_open = end.1.is_open;
            current = end.1.current ∙ get_current-put L key k (Blob.row row) d o;
          },
        )
