-- ===== src/Database/Updates/Clash.antt =====
-- database.py, update: a row that breaks a UNIQUE column.
use kos_db.Base.{
  ◌≡◌, refl, ap, ◌∙◌, true, false, none, some, List, [], ◌∷◌, ==-refl, ◌||◌, Bool-cases, inl, inr,
  arith,
}
use kos_db.Dict.{get}
use kos_db.Dict.Removal.{among}
use kos_db.Database.Select.Complete.{IsComplete}
use kos_db.Text.{Text, text_key, text_same, codes}
use kos_db.Text.Prefix.{starts_with}
use kos_db.Text.Split.{after_first, has_code}
use kos_db.Level.{Level}
use kos_db.Database.{
  Database, Schema, Row, Blob, make_key, schema_key, get_current, transaction_put,
  update_duplicate_unique,
}
use kos_db.Database.Rows.{update_row, given_key, check_unique_violation}
use kos_db.Database.Rows.Insert.{IsOpen, get_current-put}
use kos_db.Database.Tables.{get_committed}
use kos_db.Database.Queries.{matches, as_row, table_entries}
use kos_db.Database.Updates.{
  Step, Outcome, sets_any, new_key_of, finish_row, update_one, update_entries, close_update, update,
}
use kos_db.Database.Updates.Duplicates.{other-clashes}

module _ (L : Level Blob) where
  update_one-clash :
      (t key col value : Text) (sc : Schema) (set_clause old : Row) (d : Database L)
      → given_key sc set_clause ≡ none
      → sets_any sc.unique set_clause ≡ true
      → check_unique_violation L t
          (update_row old set_clause)
          (after_first 58 key)
          sc.unique
          (transaction_put L key (Blob.row (update_row old set_clause)) d)
        ≡ some (col, value)
      → update_one L t sc set_clause 0 key old d ≡ (
        Step.stopped (update_duplicate_unique col value 0),
        transaction_put L key (Blob.row (update_row old set_clause)) d,
      )
  unfolding update_one finish_row new_key_of
  update_one-clash t key col value sc set_clause old d no_key some_unique clash =
      rw (no_key, new_key_of, update_one, some_unique, finish_row, clash) refl

  update_entries-clash :
      (t key col value : Text) (sc : Schema) (set_clause condition old : Row)
      (entries : List (Text × Blob)) (d e : Database L)
      → (starts_with (schema_key t) key
          || starts_with (codes "_idx:") key
          || starts_with (codes "_index:") key)
        ≡ false
      → matches condition old ≡ true
      → update_one L t sc set_clause 0 key old d
        ≡ (Step.stopped (update_duplicate_unique col value 0), e)
      → update_entries L t sc set_clause condition [] ((key, Blob.row old) ∷ entries) d
        ≡ (Outcome.ended_by (update_duplicate_unique col value 0), e)
  unfolding update_entries as_row
  update_entries-clash t key col value sc set_clause condition old entries d e own met one =
      let close : Step × Database L → Outcome × Database L =
        λ step. (Outcome.ended_by (update_duplicate_unique col value 0), step.1) in
      rw (own, met, one) (ap close one)

  put-binlog :
      (j : Text) (b : Blob) (d : Database L)
      → ((transaction_put L j b d).binlog_queue ≡ d.binlog_queue)
        × ((transaction_put L j b d).transaction_binlog ≡ d.transaction_binlog)
  unfolding transaction_put
  put-binlog j b d = elim (Bool-cases d.transaction_active) [
    | inl active ↦ rw (active, transaction_put) (refl, refl)
    | inr idle ↦ rw (idle, transaction_put) (refl, refl)
  ]

  -- When the first row of the table matches and the update, which gives no value for the primary key
  -- and sets a UNIQUE column, makes a row that has in a UNIQUE column the value of another row, whose
  -- index entries are there, the reply is a duplicate error, but the row is stored; neither binary
  -- log has an entry.
  pub update-clash :
      (t key col value other : Text) (sc : Schema) (set_clause condition old other_row : Row)
      (entries : List (Text × Blob)) (d : Database L)
      → IsOpen L d
      → get_committed L (schema_key t) d ≡ some (Blob.schema sc)
      → table_entries L t d ≡ (key, Blob.row old) ∷ entries
      → (starts_with (schema_key t) key
          || starts_with (codes "_idx:") key
          || starts_with (codes "_index:") key)
        ≡ false
      → has_code 0 (after_first 58 key) ≡ false
      → matches condition old ≡ true
      → given_key sc set_clause ≡ none
      → sets_any sc.unique set_clause ≡ true
      → among col sc.unique ≡ true
      → get col (update_row old set_clause) ≡ some value
      → IsComplete L t col d
      → get_committed L (make_key t other) d ≡ some (Blob.row other_row)
      → get col other_row ≡ some value
      → text_same other (after_first 58 key) ≡ false
      → ((clash : Text × Text) × ((update L t set_clause condition d).0
            ≡ update_duplicate_unique clash.0 clash.1 0))
        × (get_current L key (update L t set_clause condition d).1
            ≡ some (Blob.row (update_row old set_clause)))
        × ((update L t set_clause condition d).1.binlog_queue ≡ d.binlog_queue)
        × ((update L t set_clause condition d).1.transaction_binlog ≡ d.transaction_binlog)
  unfolding update close_update
  update-clash t key col value other sc set_clause condition old other_row entries d (s, o) known
        first own plain_key met no_key some_unique is_unique cell complete stored other_cell apart =
      let row = update_row old set_clause in
      let written = transaction_put L key (Blob.row row) d in
      let clash =
        other-clashes L t key col value other sc row other_row d (s, o) (ground (arith, own))
          plain_key is_unique cell complete stored other_cell apart in
      let one =
        update_one-clash t key clash.0.0 clash.0.1 sc set_clause old d no_key some_unique clash.1 in
      let shape : update L t set_clause condition d
          ≡ (update_duplicate_unique clash.0.0 clash.0.1 0, written) =
        simp (
          o,
          known,
          first,
          update_entries-clash t key clash.0.0 clash.0.1 sc set_clause condition old entries d
              written own met one,
          update,
        ) in
      rw shape (
        (clash.0, refl),
        get_current-put L key key (Blob.row row) d (s, o) ∙ rw (==-refl key) refl,
        (put-binlog key (Blob.row row) d).0,
        (put-binlog key (Blob.row row) d).1,
      )
