-- ===== src/Database/Tables/Drop.antt =====
-- database.py, drop_table: what is left of a table.
use kos_db.Base.{◌≡◌, refl, ◌∙◌, Bool, true, false, ◌&&◌, ◌||◌, none, arith, if◌then◌else◌, ◌==◌}
use kos_db.Text.{Text, text_key}
use kos_db.Text.Prefix.{starts_with}
use kos_db.Level.{Level}
use kos_db.Database.{
  Database, Blob, Entry, schema_key, get_current, log_binlog_async, transaction_delete,
}
use kos_db.Database.Rows.{stored_keys}
use kos_db.Database.Rows.Insert.{IsOpen, get_current-log}
use kos_db.Database.Tables.Deletes.{
  delete_keys-Deletes, is_stored, among-stored_keys, get_current-delete,
}
use kos_db.Database.Tables.{
  get_committed, is_some, delete_prefix, drop_table, row_prefix, index_prefix, legacy_prefix,
}

module _ (L : Level Blob) where
  record Drops (hit : Text → Bool) (d e : Database L) : Type 0 where
    pub is_open : IsOpen L e
    pub same_mode : e.transaction_active ≡ d.transaction_active
    pub current : (k : Text) → get_current L k e ≡ (if hit k then none else get_current L k d)
    pub committed :
        (k : Text)
        → get_committed L k e ≡ (
            if d.transaction_active
            then get_committed L k d
            else if hit k
            then none
            else get_committed L k d)

  delete_prefix-Drops :
      (p : Text) (d : Database L)
      → IsOpen L d
      → Drops (λ k. is_stored L p k d) d (delete_prefix L p d)
  unfolding delete_prefix
  delete_prefix-Drops p d o =
      let ks = stored_keys L p d in
      let gone = delete_keys-Deletes L ks d o in
      record {
        is_open = gone.is_open;
        same_mode = gone.same_mode;
        current = λ k. gone.current k ∙ rw (among-stored_keys L p k d o) refl;
        committed = λ k. gone.committed k ∙ rw (among-stored_keys L p k d o) refl;
      }

  delete_table : Text → Database L → Database L
  delete_table t d =
      delete_prefix L (legacy_prefix L t)
        (delete_prefix L (index_prefix L t) (delete_prefix L (row_prefix L t) d))

  drop_table-shape :
      (t : Text) (d : Database L)
      → IsOpen L d
      → is_some L (get_committed L (schema_key t) d) ≡ true
      → (drop_table L t d).1
        ≡ log_binlog_async L
            (Entry.drop_table t)
            (transaction_delete L (schema_key t) (delete_table t d))
  unfolding drop_table delete_table
  drop_table-shape t d (s, o) known = simp (o, known, drop_table)

  get_committed-idle :
      (k : Text) (d : Database L)
      → d.transaction_active ≡ false
      → get_committed L k d ≡ get_current L k d
  unfolding get_committed get_current
  get_committed-idle k d idle = rw idle refl

  -- Keys of the rows and of the indexes of a table.
  abbrev pub is_of_table : Text → Text → Bool
  is_of_table t k =
      starts_with (row_prefix L t) k
      || starts_with (index_prefix L t) k
      || starts_with (legacy_prefix L t) k

  delete_table-Drops :
      (t : Text) (d : Database L)
      → IsOpen L d
      → Drops (λ k. is_of_table t k && is_some L (get_committed L k d)) d (delete_table t d)
  unfolding delete_table
  delete_table-Drops t d o =
      let rows = delete_prefix-Drops (row_prefix L t) d o in
      let d1 = delete_prefix L (row_prefix L t) d in
      let indexes = delete_prefix-Drops (index_prefix L t) d1 rows.is_open in
      let d2 = delete_prefix L (index_prefix L t) d1 in
      let legacy = delete_prefix-Drops (legacy_prefix L t) d2 indexes.is_open in
      record {
        is_open = legacy.is_open;
        same_mode = legacy.same_mode ∙ indexes.same_mode ∙ rows.same_mode;
        current = λ k. ground (
          arith,
          legacy.current k,
          legacy.committed k,
          indexes.current k,
          indexes.committed k,
          rows.current k,
          rows.committed k,
          rows.same_mode,
          indexes.same_mode,
          get_committed-idle k d,
          get_committed-idle k d1,
          get_committed-idle k d2,
        );
        committed = λ k. ground (
          arith,
          legacy.current k,
          legacy.committed k,
          indexes.current k,
          indexes.committed k,
          rows.current k,
          rows.committed k,
          rows.same_mode,
          indexes.same_mode,
        );
      }

  -- Dropping a table that the store knows removes its schema and every key of its rows and indexes
  -- that the store holds, and nothing else: any other key reads as before, in a transaction or not.
  pub drop_table-reads :
      (t k : Text) (d : Database L)
      → IsOpen L d
      → is_some L (get_committed L (schema_key t) d) ≡ true
      → get_current L k (drop_table L t d).1 ≡ (
          if schema_key t == k || (is_of_table t k && is_some L (get_committed L k d))
          then none
          else get_current L k d)
  unfolding drop_table
  drop_table-reads t k d o known =
      let gone = delete_table-Drops t d o in
      let e = delete_table t d in
      rw (drop_table-shape t d o known) (
        get_current-log L k (Entry.drop_table t) (transaction_delete L (schema_key t) e)
        ∙ get_current-delete L (schema_key t) k e gone.is_open
        ∙ ground (arith, gone.current k))
