-- ===== src/Database/Rows/PrimaryKeys.antt =====
-- database.py, _insert_row: the rows under their primary keys.
use kos_db.Base.{suc, ◌≡◌, refl, sym, ap, ◌∙◌, false, none, some, List, [], Option-cases, inl, inr}
use kos_db.Text.{Text, text_key, text_same, codes, str_nat}
use kos_db.Text.Prefix.{starts_with}
use kos_db.Level.{Level}
use kos_db.Database.{
  Database, Schema, Row, Blob, make_key, schema_key, get_current, transaction_put, inserted,
  duplicate_primary_key,
}
use kos_db.Database.Rows.{
  zip_row, row_of, given_key, check_unique_violation, store_row, insert_into, insert_row,
}
use kos_db.Database.Rows.Insert.{
  IsOpen, put-IsOpen, get_current-put, store_row-keeps, store_row-reads, store_row-inserted,
  make_key-plain, make_key-schema, schema_key-indexed, starts_with-indexed, schema_key-other,
}

duplicate-inserted : {A : Type 0} (v t : Text) → duplicate_primary_key v t ≡ inserted t → A
duplicate-inserted v t h = cc

module _ (L : Level Blob) where
  -- The table has this schema, in the view of the session.
  abbrev pub HasSchema : Text → Schema → Database L → Type 0
  HasSchema t sc d = get_current L (schema_key t) d ≡ some (Blob.schema sc)

  insert_row-schema :
      (t : Text) (columns values : List Text) (sc : Schema) (d : Database L)
      → HasSchema t sc d
      → insert_row L t columns values d ≡ insert_into L t sc (zip_row columns values []) d
  unfolding insert_row
  insert_row-schema t columns values sc d h = rw (h, insert_row) refl

  insert_into-duplicate :
      (t v : Text) (sc : Schema) (given : Row) (old : Blob) (d : Database L)
      → given_key sc given ≡ some v
      → get_current L (make_key t v) d ≡ some old
      → insert_into L t sc given d ≡ (duplicate_primary_key v t, d)
  unfolding insert_into
  insert_into-duplicate t v sc given old d key e = rw (key, e, insert_into) refl

  insert_into-absent :
      (t v : Text) (sc : Schema) (given : Row) (d : Database L)
      → given_key sc given ≡ some v
      → get_current L (make_key t v) d ≡ none
      → insert_into L t sc given d ≡ store_row L t v sc given d
  unfolding insert_into
  insert_into-absent t v sc given d key e = rw (key, e, insert_into) refl

  abbrev counted : Schema → Schema
  counted sc = record sc { next_id = suc sc.next_id }

  abbrev count : Text → Schema → Database L → Database L
  count t sc d = transaction_put L (schema_key t) (Blob.schema (counted sc)) d

  insert_into-numbered :
      (t : Text) (sc : Schema) (given : Row) (d : Database L)
      → given_key sc given ≡ none
      → insert_into L t sc given d
        ≡ store_row L t (str_nat sc.next_id) (counted sc) given (count t sc d)
  unfolding insert_into
  insert_into-numbered t sc given d key = rw (key, insert_into) refl

  insert_into-inserted :
      (t v : Text) (sc : Schema) (given : Row) (d : Database L)
      → given_key sc given ≡ some v
      → (insert_into L t sc given d).0 ≡ inserted t
      → insert_into L t sc given d ≡ store_row L t v sc given d
  insert_into-inserted t v sc given d key reply =
      elim (Option-cases (get_current L (make_key t v) d)) [
        | inl e ↦ insert_into-absent t v sc given d key e
        | inr e ↦
            duplicate-inserted v t
              (sym (ap (λ r. r.0) (insert_into-duplicate t v sc given e.0 d key e.1)) ∙ reply)
      ]

  -- A primary key names one row. In a table whose name does not begin with an underscore, after
  -- an insert with a value for the primary key has succeeded, the row is found under the key, and
  -- a further insert with the same value, whatever else it has, is refused and changes nothing.
  pub insert_row-again :
      (t v : Text) (sc : Schema) (columns values columns2 values2 : List Text) (d : Database L)
      → starts_with (codes "_") t ≡ false
      → IsOpen L d
      → HasSchema t sc d
      → given_key sc (zip_row columns values []) ≡ some v
      → given_key sc (zip_row columns2 values2 []) ≡ some v
      → (insert_row L t columns values d).0 ≡ inserted t
      → let after = (insert_row L t columns values d).1 in
        (get_current L (make_key t v) after
          ≡ some (Blob.row (row_of v (zip_row columns values []))))
        × (insert_row L t columns2 values2 after ≡ (duplicate_primary_key v t, after))
  insert_row-again t v sc columns values columns2 values2 d plain o has_schema key key2 reply =
      let given = zip_row columns values [] in
      let first = insert_row-schema t columns values sc d has_schema in
      let into = insert_into-inserted t v sc given d key (sym (ap (λ r. r.0) first) ∙ reply) in
      let stored = first ∙ into in
      let kept =
        store_row-keeps L t v sc given (schema_key t) d o (schema_key-indexed L t)
          (make_key-schema L t v t plain) in
      let here =
        store_row-reads L t v sc given d o (make_key-plain L t v plain)
          (store_row-inserted L t v sc given d (sym (ap (λ r. r.0) stored) ∙ reply)) in
      let after = (store_row L t v sc given d).1 in
      rw stored (
        here,
        insert_row-schema t columns2 values2 sc after (kept ∙ has_schema)
            ∙ insert_into-duplicate t v sc (zip_row columns2 values2 []) (Blob.row (row_of v given))
                after key2 here,
      )

  store_row-free :
      (t key : Text) (sc : Schema) (given : Row) (d : Database L)
      → check_unique_violation L t (row_of key given) key sc.unique d ≡ none
      → (store_row L t key sc given d).0 ≡ inserted t
  unfolding store_row
  store_row-free t key sc given d e = rw (e, store_row) refl

  -- Without a value for the primary key an insert is never refused as a duplicate. In a table
  -- without UNIQUE columns whose name does not begin with an underscore, if the data has no value
  -- for a primary key, the insert succeeds and its row takes the place of whatever row is stored
  -- under the next number.
  pub insert_row-overwrites :
      (t : Text) (sc : Schema) (columns values : List Text) (d : Database L)
      → starts_with (codes "_") t ≡ false
      → IsOpen L d
      → HasSchema t sc d
      → given_key sc (zip_row columns values []) ≡ none
      → sc.unique ≡ []
      → let result = insert_row L t columns values d in
        (result.0 ≡ inserted t)
        × (get_current L (make_key t (str_nat sc.next_id)) result.1
            ≡ some (Blob.row (row_of (str_nat sc.next_id) (zip_row columns values []))))
  unfolding check_unique_violation
  insert_row-overwrites t sc columns values d plain o has_schema key unique =
      let given = zip_row columns values [] in
      let n = str_nat sc.next_id in
      let d2 = count t sc d in
      let free : check_unique_violation L t (row_of n given) n sc.unique d2 ≡ none =
        rw unique refl in
      rw (insert_row-schema t columns values sc d has_schema, insert_into-numbered t sc given d key)
        (
          store_row-free t n (counted sc) given d2 free,
          store_row-reads L t n (counted sc) given d2
              (put-IsOpen L (schema_key t) (Blob.schema (counted sc)) d o)
              (make_key-plain L t n plain) free,
        )

  -- An insert leaves everything else alone: in whatever way it ends, every key that does not begin
  -- with an underscore reads as before, but for the key of the row itself: that of the given
  -- primary key, or of the next number.
  pub insert_row-keeps :
      (t k : Text) (sc : Schema) (columns values : List Text) (d : Database L)
      → IsOpen L d
      → HasSchema t sc d
      → starts_with (codes "_") k ≡ false
      → (let given = given_key sc (zip_row columns values []) in
          text_same (make_key t (elim given [ some v ↦ v | none ↦ str_nat sc.next_id ])) k ≡ false)
      → get_current L k (insert_row L t columns values d).1 ≡ get_current L k d
  insert_row-keeps t k sc columns values d o has_schema plain differ =
      let given = zip_row columns values [] in
      let indexed = starts_with-indexed L k plain in
      rw (insert_row-schema t columns values sc d has_schema)
        elim (Option-cases (given_key sc given)) [
          | inl key ↦
              let n = str_nat sc.next_id in
              rw (insert_into-numbered t sc given d key) (
                store_row-keeps L t n (counted sc) given k (count t sc d)
                  (put-IsOpen L (schema_key t) (Blob.schema (counted sc)) d o) indexed
                  (rw key at differ)
                ∙ get_current-put L (schema_key t) k (Blob.schema (counted sc)) d o
                ∙ rw (schema_key-other L t k plain) refl)
          | inr key ↦ elim (Option-cases (get_current L (make_key t key.0) d)) [
            | inr e ↦ rw (insert_into-duplicate t key.0 sc given e.0 d key.1 e.1) refl
            | inl e ↦
                rw (insert_into-absent t key.0 sc given d key.1 e)
                  (store_row-keeps L t key.0 sc given k d o indexed (rw key.1 at differ))
          ]
        ]
