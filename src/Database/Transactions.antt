-- ===== src/Database/Transactions.antt =====
-- database.py: what a transaction means for whoever reads through get_current.
use kos_db.Base.{◌≡◌, refl, true, false, Option, none, some, List, [], ◌∷◌, ◌++◌}
use kos_db.Dict.{Dict, put}
use kos_db.Text.{Text, text_key}
use kos_db.Level.{Level}
use kos_db.Database.{
  Database, Blob, Entry, get_current, log_binlog_async, transaction_put, transaction_delete,
  begin_transaction, commit_transaction, rollback_transaction,
}
use kos_db.Database.Changes.{
  Change, put_key, delete_key, log, change, run, run-Follows, begin-Follows, commit-view,
  pending-view, commit-log,
}

module _ (L : Level Blob) where
  open L use {Store}

  -- The call that ends a transaction without success.
  pub data Undone : Type 0 where
    rolled_back failed : Undone

  unfoldable pub undo : Undone → Database L → Database L
  undo rolled_back d = (rollback_transaction L d).1
  undo failed d = (commit_transaction L false d).1

  run-keeps :
      (cs : List Change) (d : Database L)
      → d.transaction_active ≡ true
      → run L cs d ≡ record d {
        transaction_changes = (run L cs d).transaction_changes;
        transaction_binlog = (run L cs d).transaction_binlog;
      }
  unfolding run change transaction_put transaction_delete log_binlog_async
  run-keeps [] d h = refl
  run-keeps (put_key k b ∷ cs) d h = rw h (
      run-keeps cs
        (record d {
          transaction_active = true;
          transaction_changes = put k (some b) d.transaction_changes;
        })
        refl)
  run-keeps (delete_key k ∷ cs) d h = rw h (
      run-keeps cs
        (record d {
          transaction_active = true;
          transaction_changes = put k none d.transaction_changes;
        })
        refl)
  run-keeps (log e ∷ cs) d h = rw h (
      run-keeps cs
        (record d {
          transaction_active = true;
          transaction_binlog = d.transaction_binlog ++ e ∷ [];
        })
        refl)

  abbrev begun : Database L → Database L
  begun d = record d {
    transaction_active = true;
    transaction_changes = [];
    transaction_binlog = [];
  }

  begin-begun :
      (d : Database L) (s : Store)
      → d.transaction_active ≡ false
      → d.opened ≡ some s
      → (begin_transaction L d).1 ≡ begun d
  unfolding begin_transaction
  begin-begun d s idle o = rw (o, idle) refl

  undo-begun :
      (how : Undone) (d : Database L) (s : Store) (changes : Dict Text (Option Blob))
      (entries : List Entry)
      → d.transaction_active ≡ false
      → d.opened ≡ some s
      → undo how (record (begun d) { transaction_changes = changes; transaction_binlog = entries })
        ≡ record d { transaction_changes = []; transaction_binlog = [] }
  unfolding undo rollback_transaction commit_transaction
  undo-begun rolled_back d s changes entries idle o = rw idle refl
  undo-begun failed d s changes entries idle o = rw (idle, o) refl

  -- A transaction that makes a list of puts, deletes and log entries and then commits has the effect
  -- of the same puts, deletes and log entries outside any transaction: after the commit every key
  -- reads as it would, and the queue of the binary log is as it would be, if they had been made on
  -- the session directly.
  pub commit-direct :
      (cs : List Change) (d : Database L) (s : Store)
      → d.transaction_active ≡ false
      → d.opened ≡ some s
      → let done = (commit_transaction L true (run L cs (begin_transaction L d).1)).1 in
        ((k : Text) → get_current L k done ≡ get_current L k (run L cs d))
        × (done.binlog_queue ≡ (run L cs d).binlog_queue)
  commit-direct cs d s idle o =
      let f = run-Follows L cs (begin_transaction L d).1 d (begin-Follows L d s idle o) in
      (
        λ k. commit-view L k (run L cs (begin_transaction L d).1) (run L cs d) f,
        commit-log L (run L cs (begin_transaction L d).1) (run L cs d) f,
      )

  -- A transaction that makes a list of puts, deletes and log entries reads its own writes: before the
  -- commit every key reads as it would if they had been made on the session directly, while the store
  -- of the session, the directories and the queue of the binary log are as before the transaction.
  pub run-pending :
      (cs : List Change) (d : Database L) (s : Store)
      → d.transaction_active ≡ false
      → d.opened ≡ some s
      → let during = run L cs (begin_transaction L d).1 in
        ((k : Text) → get_current L k during ≡ get_current L k (run L cs d))
        × (during.opened ≡ some s)
        × (during.directories ≡ d.directories)
        × (during.binlog_queue ≡ d.binlog_queue)
  run-pending cs d s idle o =
      let f = run-Follows L cs (begin_transaction L d).1 d (begin-Follows L d s idle o) in
      let kept = run-keeps cs (begun d) refl in
      (
        λ k. pending-view L k (run L cs (begin_transaction L d).1) (run L cs d) f,
        rw (begin-begun d s idle o, kept) o,
        rw (begin-begun d s idle o, kept) refl,
        rw (begin-begun d s idle o, kept) refl,
      )

  -- A transaction that makes a list of puts, deletes and log entries and is then rolled back, or whose
  -- batch the store refuses, leaves nothing of them behind: the session is as before it, with no
  -- pending changes and no pending log entries.
  pub undo-restores :
      (how : Undone) (cs : List Change) (d : Database L) (s : Store)
      → d.transaction_active ≡ false
      → d.opened ≡ some s
      → undo how (run L cs (begin_transaction L d).1)
        ≡ record d { transaction_changes = []; transaction_binlog = [] }
  undo-restores how cs d s idle o =
      let during = run L cs (begun d) in
      rw (begin-begun d s idle o, run-keeps cs (begun d) refl)
        (undo-begun how d s during.transaction_changes during.transaction_binlog idle o)
