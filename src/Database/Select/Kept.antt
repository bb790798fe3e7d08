-- ===== src/Database/Select/Kept.antt =====
-- database.py, _insert_row: an insert keeps the indexes complete.
use kos_db.Base.{
  ◌≡◌, refl, sym, ◌∙◌, subst, true, false, some, List, [], ◌∷◌, ◌++◌, arith, if◌then◌else◌, ◌==◌,
  Bool-cases, Option-cases, inl, inr, ==-refl,
}
use kos_db.Dict.{get}
use kos_db.Dict.Removal.{among}
use kos_db.Text.{Text, text_key, text_same, text_same_iff, codes}
use kos_db.Text.Prefix.{starts_with, append-cancel}
use kos_db.Text.Split.{has_code}
use kos_db.Level.{Level}
use kos_db.Database.{
  Database, Schema, Row, Blob, Entry, make_key, get_current, log_binlog_async, transaction_put,
}
use kos_db.Database.Rows.{row_of, idx_key, check_unique_violation, update_indexes, store_row}
use kos_db.Database.Rows.Insert.{
  IsOpen, put-IsOpen, get_current-put, get_current-log, update_indexes-keeps, make_key-plain,
}
use kos_db.Database.Tables.{is_some}
use kos_db.Database.Select.Complete.{IsComplete, get_current-idle}

make_key-same : (t j k : Text) → make_key t j ≡ make_key t k → j ≡ k
unfolding make_key
make_key-same t j k h = append-cancel (t ++ codes ":") j k h

module _ (L : Level Blob) where
  -- Index entries are only added.
  update_indexes-grows :
      (t : Text) (row : Row) (row_key : Text) (cols : List Text) (k : Text) (d : Database L)
      → IsOpen L d
      → is_some L (get_current L k d) ≡ true
      → is_some L (get_current L k (update_indexes L t row row_key cols d)) ≡ true
  unfolding update_indexes
  update_indexes-grows t row row_key [] k d o h = h
  update_indexes-grows t row row_key (col ∷ cols) k d o h = elim (Option-cases (get col row)) [
    | inl e ↦ rw (e, update_indexes) (update_indexes-grows t row row_key cols k d o h)
    | inr e ↦
        let j = idx_key t col e.0 row_key in
        rw (e.1, update_indexes)
          (update_indexes-grows t row row_key cols k (transaction_put L j Blob.index_mark d)
            (put-IsOpen L j Blob.index_mark d o)
            (ground (arith, h, get_current-put L j k Blob.index_mark d o)))
  ]

  -- Every indexed column that the row has gets its entry.
  update_indexes-entry :
      (t : Text) (row : Row) (row_key : Text) (cols : List Text) (col value : Text) (d : Database L)
      → IsOpen L d
      → among col cols ≡ true
      → get col row ≡ some value
      → is_some L
          (get_current L (idx_key t col value row_key) (update_indexes L t row row_key cols d))
        ≡ true
  unfolding update_indexes
  update_indexes-entry t row row_key [] col value d o h e = cc
  update_indexes-entry t row row_key (c ∷ cols) col value d o h e =
      elim (Bool-cases (text_same c col)) [
        | inl here ↦
            let same = (text_same_iff c col).0 here in
            let j = idx_key t c value row_key in
            let found : get c row ≡ some value = rw same e in
            let put = transaction_put L j Blob.index_mark d in
            rw (found, update_indexes, ← same)
              (update_indexes-grows t row row_key cols j put (put-IsOpen L j Blob.index_mark d o)
                (rw (get_current-put L j j Blob.index_mark d o, ==-refl j) refl))
        | inr other ↦
            let later : among col cols ≡ true = ground (arith, other, h) in
            elim (Option-cases (get c row)) [
              | inl f ↦
                  rw (f, update_indexes)
                    (update_indexes-entry t row row_key cols col value d o later e)
              | inr f ↦
                  let j = idx_key t c f.0 row_key in
                  rw (f.1, update_indexes)
                    (update_indexes-entry t row row_key cols col value
                      (transaction_put L j Blob.index_mark d) (put-IsOpen L j Blob.index_mark d o)
                      later e)
            ]
      ]

  put-idle :
      (j : Text) (b : Blob) (d : Database L)
      → d.transaction_active ≡ false
      → (transaction_put L j b d).transaction_active ≡ false
  unfolding transaction_put
  put-idle j b d idle = simp (idle, transaction_put)

  log-idle :
      (e : Entry) (d : Database L)
      → d.transaction_active ≡ false
      → (log_binlog_async L e d).transaction_active ≡ false
  unfolding log_binlog_async
  log-idle e d idle = simp (idle, log_binlog_async)

  update_indexes-idle :
      (t : Text) (row : Row) (row_key : Text) (cols : List Text) (d : Database L)
      → d.transaction_active ≡ false
      → (update_indexes L t row row_key cols d).transaction_active ≡ false
  unfolding update_indexes
  update_indexes-idle t row row_key [] d idle = idle
  update_indexes-idle t row row_key (col ∷ cols) d idle = elim (Option-cases (get col row)) [
    | inl e ↦ rw (e, update_indexes) (update_indexes-idle t row row_key cols d idle)
    | inr e ↦
        let j = idx_key t col e.0 row_key in
        rw (e.1, update_indexes)
          (update_indexes-idle t row row_key cols (transaction_put L j Blob.index_mark d)
            (put-idle j Blob.index_mark d idle))
  ]

  -- What the view of the session must have for the index to be complete; outside a transaction
  -- it is what the store has.
  Complete-idle :
      (t col : Text) (d : Database L)
      → d.transaction_active ≡ false
      → ((row_key value : Text) (row : Row)
          → get_current L (make_key t row_key) d ≡ some (Blob.row row)
          → get col row ≡ some value
          → is_some L (get_current L (idx_key t col value row_key) d) ≡ true)
      → ((row_key : Text)
          → is_some L (get_current L (make_key t row_key) d) ≡ true
          → has_code 0 row_key ≡ false)
      → IsComplete L t col d
  Complete-idle t col d idle entry plain = record {
    entry = λ row_key value row stored cell.
        rw (← get_current-idle L (idx_key t col value row_key) d idle)
          (entry row_key value row (get_current-idle L (make_key t row_key) d idle ∙ stored) cell);
    plain = λ row_key stored.
        plain row_key (rw (get_current-idle L (make_key t row_key) d idle) stored);
  }

  -- What an insert leaves under the keys of rows and under the others.
  stored_row :
      (t key row_key : Text) (row : Row) (cols : List Text) (entry : Entry) (d : Database L)
      → IsOpen L d
      → starts_with (codes "_") t ≡ false
      → get_current L (make_key t row_key) (
          log_binlog_async L entry
            (update_indexes L t row key cols (transaction_put L (make_key t key) (Blob.row row) d)))
        ≡ (if make_key t key == make_key t row_key
            then some (Blob.row row)
            else get_current L (make_key t row_key) d)
  stored_row t key row_key row cols entry d o name =
      let k = make_key t row_key in
      let written = transaction_put L (make_key t key) (Blob.row row) d in
      get_current-log L k entry (update_indexes L t row key cols written)
      ∙ update_indexes-keeps L t row key cols k written
          (put-IsOpen L (make_key t key) (Blob.row row) d o) (make_key-plain L t row_key name)
      ∙ get_current-put L (make_key t key) k (Blob.row row) d o

  -- Outside a transaction an insert, whatever its outcome, keeps the index of an indexed column
  -- complete, when the row's key has no NUL and the table's name does not begin with an underscore.
  pub store_row-IsComplete :
      (t key col : Text) (sc : Schema) (given : Row) (d : Database L)
      → IsOpen L d
      → d.transaction_active ≡ false
      → starts_with (codes "_") t ≡ false
      → among col sc.indexes ≡ true
      → has_code 0 key ≡ false
      → IsComplete L t col d
      → IsComplete L t col (store_row L t key sc given d).1
  unfolding store_row
  store_row-IsComplete t key col sc given d o idle name indexed no_nul complete =
      let row = row_of key given in
      let written = transaction_put L (make_key t key) (Blob.row row) d in
      let e = update_indexes L t row key sc.indexes written in
      let end = log_binlog_async L (Entry.insert t row) e in
      let opened = put-IsOpen L (make_key t key) (Blob.row row) d o in
      let still_idle = put-idle (make_key t key) (Blob.row row) d idle in
      elim (Option-cases (check_unique_violation L t row key sc.unique d)) [
        | inr clash ↦ rw (clash.1, store_row) complete
        | inl fits ↦
            rw (fits, store_row)
              (Complete-idle t col end
                (log-idle (Entry.insert t row) e
                  (update_indexes-idle t row key sc.indexes written still_idle))
                (λ row_key value r stored cell.
                  let k = idx_key t col value row_key in
                  let reads =
                    stored_row t key row_key row sc.indexes (Entry.insert t row) d o name in
                  rw (get_current-log L k (Entry.insert t row) e)
                    elim (Bool-cases (text_same (make_key t key) (make_key t row_key))) [
                      | inl same ↦
                          let key_same =
                            make_key-same t key row_key
                              ((text_same_iff (make_key t key) (make_key t row_key)).0 same) in
                          let row_same : row ≡ r = ground (arith, reads, same, stored) in
                          subst (λ x. is_some L (get_current L (idx_key t col value x) e) ≡ true)
                            key_same
                            (update_indexes-entry t row key sc.indexes col value written opened
                              indexed (rw row_same cell))
                      | inr other ↦
                          let before : get_current L (make_key t row_key) d ≡ some (Blob.row r) =
                            ground (arith, reads, other, stored) in
                          let entry : is_some L (get_current L k d) ≡ true =
                            rw (get_current-idle L k d idle) (
                              complete.entry row_key value r
                                (sym (get_current-idle L (make_key t row_key) d idle) ∙ before)
                                cell) in
                          update_indexes-grows t row key sc.indexes k written opened (
                            ground (
                              arith,
                              entry,
                              get_current-put L (make_key t key) k (Blob.row row) d o,
                            ))
                    ])
                (λ row_key stored.
                  let reads =
                    stored_row t key row_key row sc.indexes (Entry.insert t row) d o name in
                  elim (Bool-cases (text_same (make_key t key) (make_key t row_key))) [
                    | inl same ↦
                        rw
                          (← make_key-same t key row_key
                            ((text_same_iff (make_key t key) (make_key t row_key)).0 same))
                          no_nul
                    | inr other ↦ complete.plain row_key (
                        rw (← get_current-idle L (make_key t row_key) d idle)
                          (ground (arith, reads, other, stored)))
                  ]))
      ]
