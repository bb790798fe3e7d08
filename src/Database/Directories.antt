-- ===== src/Database/Directories.antt =====
-- database.py: creating, dropping and switching databases, in and out of a transaction.
use kos_db.Base.{◌≡◌, refl, ◌∙◌, true, false, some, arith, Bool-cases, inl, inr, ==-refl}
use kos_db.Dict.{get, has, put, get-put, has-remove, has-get}
use kos_db.Text.{Text, text_key, text_same, text_same_iff}
use kos_db.Level.{Level}
use kos_db.Database.{
  Database, Blob, drop_database, use_database, rollback_transaction, log_binlog_async, is_current,
  closed,
}

module _ (L : Level Blob) where
  open L use {Store}

  -- A database that is dropped during a transaction is gone although the transaction is rolled
  -- back, and the binary log never says so.
  pub drop_database-unlogged :
      (name : Text) (d : Database L)
      → d.transaction_active ≡ true
      → has name d.directories ≡ true
      → let after = (rollback_transaction L (drop_database L name d).1).1 in
        (has name after.directories ≡ false) × (after.binlog_queue ≡ d.binlog_queue)
  unfolding drop_database rollback_transaction log_binlog_async
  drop_database-unlogged name d active found = elim (Bool-cases (is_current L name d)) [
    | inl c ↦
        rw (found, c, active) (rw (has-remove name name d.directories, ==-refl name) refl, refl)
    | inr c ↦
        rw (found, c, active) (rw (has-remove name name d.directories, ==-refl name) refl, refl)
  ]

  closed-open :
      (a : Text) (s : Store) (d : Database L)
      → d.current_db ≡ some a
      → d.opened ≡ some s
      → closed L d ≡ put a s d.directories
  closed-open a s d cur open_s = rw (open_s, cur) refl

  switch :
      (a b : Text) (s r : Store) (d : Database L)
      → d.transaction_active ≡ false
      → d.current_db ≡ some a
      → d.opened ≡ some s
      → text_same a b ≡ false
      → get b d.directories ≡ some r
      → (use_database L b d).1
        ≡ record d { opened = some r; directories = put a s d.directories; current_db = some b }
  unfolding use_database is_current
  switch a b s r d idle cur open_s differ found =
      let other : get b (put a s d.directories) ≡ some r =
        rw (get-put a b s d.directories, differ) found in
      rw (cur, open_s, idle, found, differ, closed-open a s d cur open_s) (rw (other, idle) refl)

  -- Switching to another database and back, outside a transaction, finds the store as it was left.
  pub use_database-back :
      (a b : Text) (s : Store) (d : Database L)
      → d.transaction_active ≡ false
      → d.current_db ≡ some a
      → d.opened ≡ some s
      → text_same a b ≡ false
      → has b d.directories ≡ true
      → let back = (use_database L a (use_database L b d).1).1 in
        (back.opened ≡ some s) × (back.current_db ≡ some a)
  use_database-back a b s d idle cur open_s differ found =
      let there : (r : Store) × (get b d.directories ≡ some r) = has-get b d.directories found in
      let left = put a s d.directories in
      let away = record d { opened = some there.0; directories = left; current_db = some b } in
      let back =
        switch b a there.0 s away idle refl refl
          (ground (arith, text_same_iff a b, text_same_iff b a))
          (get-put a a s d.directories ∙ rw (==-refl a) refl) in
      rw (switch a b s there.0 d idle cur open_s differ there.1, back) (refl, refl)
